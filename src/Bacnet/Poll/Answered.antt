-- ===== src/Bacnet/Poll/Answered.antt =====
-- Each point that crates/proto-bacnet/src/republish/mod.rs polls, sampled or failed.
use netix_protocol_core.Prelude.{
  ℕ, suc, ◌≡◌, refl, sym, ◌∙◌, ◌⊎◌, inl, inr, List, [], ◌∷◌, ◌++◌, map, ◌==◌, Bool-cases,
  Option-cases, unwrap_or,
}
use mathlib.Core.Path.{subst}
use mathlib.Core.List.{Memᴰ, map-append}
use mathlib.Core.List.Memᴰ.{append_left, append_right, cases_cons}
use netix_protocol_core.Prelude.Eq.{nat_eq}
use netix_protocol_core.Prelude.Maps.{HashMap}
use netix_protocol_core.Text.{lit}
use netix_protocol_core.Model.{PointConfig, PointSample, PointFailure, PollOutcome, TelemetryValue}
use netix_protocol_core.Worker.Events.{Result, ok, err, OnOk, Result-cases}
use netix_protocol_core.Bacnet.Requests.{
  Names, PollRequest, from_point, addr_u32, addr_str, object_type_from_text,
  property_identifier_from_text,
}
use netix_protocol_core.Bacnet.Poll.{
  Reads, read_value, read_one, read_group_individual, group_outcome, read_group_rpm, read_group,
  push_request, group_requests, read_groups, poll_with_client,
}
use netix_protocol_core.Bacnet.Poll.Gathering.{sampled, HasAll, read_group_rpm-HasAll}

abbrev pub failed : List PointFailure → List PointConfig
failed failures = map (λ f. f.point) failures

-- The point is among the samples or the failures.
abbrev pub IsAnswered : PointConfig → PollOutcome → Type 0
IsAnswered p o = Memᴰ p (sampled o.samples) ⊎ Memᴰ p (failed o.failures)

abbrev IsIn : PointConfig → List PointSample × List PointFailure → Type 0
IsIn p (samples, failures) = Memᴰ p (sampled samples) ⊎ Memᴰ p (failed failures)

module _ (reads : Reads) (device : ℕ) where
  read_one-here :
      (i : ℕ) (r : PollRequest) (v : Result TelemetryValue)
      (rest : List PointSample × List PointFailure)
      → IsIn r.point (read_one reads device i r v rest)
  read_one-here i r (ok value) rest = inl (Memᴰ.head refl)
  read_one-here i r (err e) rest = inr (Memᴰ.head refl)

  read_one-later :
      (i : ℕ) (r : PollRequest) (v : Result TelemetryValue)
      (rest : List PointSample × List PointFailure) (p : PointConfig)
      → IsIn p rest
      → IsIn p (read_one reads device i r v rest)
  read_one-later i r (ok value) rest p (inl m) = inl (Memᴰ.tail m)
  read_one-later i r (ok value) rest p (inr m) = inr m
  read_one-later i r (err e) rest p (inl m) = inl m
  read_one-later i r (err e) rest p (inr m) = inr (Memᴰ.tail m)

  read_group_individual-IsIn :
      (i : ℕ) (rs : List PollRequest) (r : PollRequest)
      → Memᴰ r rs
      → IsIn r.point (read_group_individual reads device i rs)
  unfolding read_group_individual
  read_group_individual-IsIn i [] r m = elim m [ ]
  read_group_individual-IsIn i (x ∷ rs) r m =
      let value = read_value reads device (reads.single device i) in
      let rest = read_group_individual reads device (suc i) rs in
      elim (cases_cons m) [
        | inl same ↦
            subst (λ (q : PollRequest). IsIn q.point (read_one reads device i x value rest))
              (sym same) (read_one-here i x value rest)
        | inr later ↦
            read_one-later i x value rest r.point (read_group_individual-IsIn (suc i) rs r later)
      ]

  read_group-IsAnswered :
      (rs : List PollRequest) (r : PollRequest)
      → Memᴰ r rs
      → IsAnswered r.point (read_group reads device rs)
  unfolding read_group
  read_group-IsAnswered rs r m =
      of_group (read_group_rpm reads device rs) (read_group_rpm-HasAll rs reads device)
    where
      of_group :
          (g : Result (List PointSample))
          → OnOk (HasAll rs) g
          → IsAnswered r.point (group_outcome reads device rs g)
      of_group (ok samples) h = inl (h r m)
      of_group (err e) h = read_group_individual-IsIn 0 rs r m

-- The request stands in one of the groups.
abbrev IsGrouped : PollRequest → HashMap ℕ (List PollRequest) → Type 0
IsGrouped r [] = ⊥
IsGrouped r ((d, rs) ∷ m) = Memᴰ r rs ⊎ IsGrouped r m

push_request-here :
    (r : PollRequest) (m : HashMap ℕ (List PollRequest)) → IsGrouped r (push_request r m)
unfolding push_request
push_request-here r [] = inl (Memᴰ.head refl)
push_request-here r ((d, rs) ∷ m) = elim (Bool-cases (d == r.device_instance)) [
  | inl e ↦ rw (e) (inl (append_right rs (Memᴰ.head refl)))
  | inr e ↦ rw (e) (inr (push_request-here r m))
]

push_request-later :
    (q r : PollRequest) (m : HashMap ℕ (List PollRequest))
    → IsGrouped q m
    → IsGrouped q (push_request r m)
unfolding push_request
push_request-later q r [] h = elim h [ ]
push_request-later q r ((d, rs) ∷ m) (inl here) = elim (Bool-cases (d == r.device_instance)) [
  | inl e ↦ rw (e) (inl (append_left (r ∷ []) here))
  | inr e ↦ rw (e) (inl here)
]
push_request-later q r ((d, rs) ∷ m) (inr later) = elim (Bool-cases (d == r.device_instance)) [
  | inl e ↦ rw (e) (inr later)
  | inr e ↦ rw (e) (inr (push_request-later q r m later))
]

module _ (names : Names) where
  from_point-point : (p : PointConfig) → OnOk (λ r. r.point ≡ p) (from_point names p)
  unfolding from_point
  from_point-point p = elim (Option-cases (addr_u32 p (lit "device_instance"))) [
    | inl e ↦ rw (e, from_point, OnOk) tt
    | inr (device, e) ↦
        let type_text = unwrap_or (addr_str p (lit "object_type")) [] in
        elim (Option-cases (object_type_from_text names type_text)) [
          | inl f ↦ rw (e, f, from_point, OnOk) tt
          | inr (object_type, f) ↦
              let prop_text = unwrap_or (addr_str p (lit "property")) (lit "present_value") in
              elim (Option-cases (property_identifier_from_text names prop_text)) [
                | inl g ↦ rw (e, f, g, from_point, OnOk) tt
                | inr (property, g) ↦
                    let n = unwrap_or (addr_u32 p (lit "object_instance")) 0 in
                    elim (Bool-cases (names.is_identifier object_type n)) [
                      | inl b ↦ rw (e, f, g, b, from_point, OnOk) refl
                      | inr b ↦ rw (e, f, g, b, from_point, OnOk) tt
                    ]
              ]
        ]
  ]

  -- A point became a request of a group, or a failure.
  abbrev IsRequested : PointConfig → HashMap ℕ (List PollRequest) × List PointFailure → Type 0
  IsRequested p (groups, failures) =
      ((r : PollRequest) × (r.point ≡ p) × IsGrouped r groups) ⊎ Memᴰ p (failed failures)

  group_requests-kept :
      (points : List PointConfig) (groups : HashMap ℕ (List PollRequest)) (q : PollRequest)
      → IsGrouped q groups
      → IsGrouped q (group_requests names points groups).0
  unfolding group_requests
  group_requests-kept [] groups q h = h
  group_requests-kept (p ∷ ps) groups q h = elim (Result-cases (from_point names p)) [
    | inl (r, e) ↦
        rw (e, group_requests)
          (group_requests-kept ps (push_request r groups) q (push_request-later q r groups h))
    | inr (f, e) ↦ rw (e, group_requests) (group_requests-kept ps groups q h)
  ]

  group_requests-IsRequested :
      (points : List PointConfig) (groups : HashMap ℕ (List PollRequest)) (p : PointConfig)
      → Memᴰ p points
      → IsRequested p (group_requests names points groups)
  unfolding group_requests
  group_requests-IsRequested [] groups p m = elim m [ ]
  group_requests-IsRequested (x ∷ ps) groups p m = elim (Result-cases (from_point names x)) [
    | inl (r, e) ↦
        let point : r.point ≡ x =
          subst (OnOk (λ (q : PollRequest). q.point ≡ x)) e (from_point-point x) in
        rw (e, group_requests)
          (elim (cases_cons m) [
            | inl same ↦ inl (
              r,
              point ∙ sym same,
              group_requests-kept ps (push_request r groups) r (push_request-here r groups),
            )
            | inr later ↦ group_requests-IsRequested ps (push_request r groups) p later
          ])
    | inr (f, e) ↦
        rw (e, group_requests)
          (elim (cases_cons m) [
            | inl same ↦ inr (Memᴰ.head same)
            | inr later ↦ elim (group_requests-IsRequested ps groups p later) [
              | inl grouped ↦ inl grouped
              | inr found ↦ inr (Memᴰ.tail found)
            ]
          ])
  ]

-- Outcomes one after the other.
abbrev joined : PollOutcome → PollOutcome → PollOutcome
joined a b = record {
  samples = a.samples ++ b.samples;
  failures = a.failures ++ b.failures;
  warnings = a.warnings ++ b.warnings;
}

failed-append : (fs gs : List PointFailure) → failed (fs ++ gs) ≡ failed fs ++ failed gs
failed-append fs gs = map-append (λ (f : PointFailure). f.point) fs gs

sampled-append : (ss ts : List PointSample) → sampled (ss ++ ts) ≡ sampled ss ++ sampled ts
sampled-append ss ts = map-append (λ (s : PointSample). s.point) ss ts

joined-left : (p : PointConfig) (a b : PollOutcome) → IsAnswered p a → IsAnswered p (joined a b)
joined-left p a b (inl m) =
    inl (rw (sampled-append a.samples b.samples) (append_left (sampled b.samples) m))
joined-left p a b (inr m) =
    inr (rw (failed-append a.failures b.failures) (append_left (failed b.failures) m))

joined-right : (p : PointConfig) (a b : PollOutcome) → IsAnswered p b → IsAnswered p (joined a b)
joined-right p a b (inl m) =
    inl (rw (sampled-append a.samples b.samples) (append_right (sampled a.samples) m))
joined-right p a b (inr m) =
    inr (rw (failed-append a.failures b.failures) (append_right (failed a.failures) m))

read_groups-IsAnswered :
    (reads : Reads) (groups : HashMap ℕ (List PollRequest)) (r : PollRequest)
    → IsGrouped r groups
    → IsAnswered r.point (read_groups reads groups)
unfolding read_groups
read_groups-IsAnswered reads [] r h = elim h [ ]
read_groups-IsAnswered reads ((d, rs) ∷ groups) r (inl here) =
    joined-left r.point (read_group reads d rs) (read_groups reads groups)
      (read_group-IsAnswered reads d rs r here)
read_groups-IsAnswered reads ((d, rs) ∷ groups) r (inr later) =
    joined-right r.point (read_group reads d rs) (read_groups reads groups)
      (read_groups-IsAnswered reads groups r later)

-- Each point of a poll has a sample or a failure in the outcome, whatever the device and the client
-- answer: also if a device's answer to its group lacks a property, cannot be decoded or has others.
pub poll_with_client-IsAnswered :
    (names : Names) (reads : Reads) (points : List PointConfig) (p : PointConfig)
    → Memᴰ p points
    → IsAnswered p (poll_with_client names reads points)
unfolding poll_with_client
poll_with_client-IsAnswered names reads points p m =
    let (groups, failures) = group_requests names points [] in
    let early : PollOutcome = record { samples = []; failures = failures; warnings = [] } in
    elim (group_requests-IsRequested names points [] p m) [
      | inl (r, same, grouped) ↦ joined-right p early (read_groups reads groups) (
          subst (λ q. IsAnswered q (read_groups reads groups)) same
            (read_groups-IsAnswered reads groups r grouped))
      | inr found ↦ joined-left p early (read_groups reads groups) (inr found)
    ]
