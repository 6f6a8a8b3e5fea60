-- ===== src/Bacnet/Poll/Gathering.antt =====
-- `read_group_rpm` of crates/proto-bacnet/src/republish/mod.rs: what a complete answer has.
use netix_protocol_core.Prelude.{
  ℕ, zero, suc, ◌+◌, ◌<◌, ◌≡◌, refl, sym, ap, ◌∙◌, true, false, ◌||◌, List, [], ◌∷◌, map, Option,
  none, some, get_elem?, length, ◌==◌, ==_iff, arith, Bool-cases, Option-cases, inl, inr,
}
use mathlib.Core.Path.{subst}
use mathlib.Core.List.{Memᴰ, map-append}
use mathlib.Core.List.Memᴰ.{append_left, append_right, cases_cons}
use netix_protocol_core.Prelude.Int.{ℤ}
use netix_protocol_core.Prelude.Eq.{nat_eq}
use netix_protocol_core.Prelude.Maps.{contains, contains-add}
use netix_protocol_core.Model.{PointConfig, PointSample, TelemetryValue}
use netix_protocol_core.Worker.Events.{Result, ok, err, OnOk, Result-cases}
use netix_protocol_core.Bacnet.Value.{Decoded}
use netix_protocol_core.Bacnet.Requests.{PollRequest}
use netix_protocol_core.Bacnet.Poll.{
  Element, Reads, Group, sample, push_sample, find_request, matches, decoded, taken, take_elements,
  complete, gathered, read_group_rpm,
}
use netix_protocol_core.Bacnet.Poll.Pigeonhole.{IsDistinct, add-IsDistinct, pigeonhole}

abbrev pub sampled : List PointSample → List PointConfig
sampled samples = map (λ s. s.point) samples

-- The points of all requests have a sample.
abbrev pub HasAll : List PollRequest → List PointSample → Type 0
HasAll requests samples = (r : PollRequest) → Memᴰ r requests → Memᴰ r.point (sampled samples)

index-of :
    (r : PollRequest) (rs : List PollRequest)
    → Memᴰ r rs
    → (i : ℕ) × (i < length rs) × (get_elem? rs i ≡ some r)
index-of r [] m = elim m [ ]
index-of r (x ∷ rs) m = elim (cases_cons m) [
  | inl same ↦ (0, omega arith, ap some (sym same))
  | inr later ↦ let (i, small, at) = index-of r rs later in (suc i, omega (arith, small), at)
]

elem-lt :
    (rs : List PollRequest) (j : ℕ) (q : PollRequest) → get_elem? rs j ≡ some q → j < length rs
elem-lt [] j q e = ground (arith, e)
elem-lt (x ∷ rs) zero q e = omega arith
elem-lt (x ∷ rs) (suc j) q e = omega (arith, elem-lt rs j q e)

some_inj : {a b : PollRequest} → some a ≡ some b → a ≡ b
some_inj e = cc

module _ (requests : List PollRequest) where
  -- The position is that of a request whose point has a sample.
  abbrev IsSampled : List PointSample → ℕ → Type 0
  IsSampled samples i =
      (r : PollRequest) × (get_elem? requests i ≡ some r) × Memᴰ r.point (sampled samples)

  record IsGathered (g : Group) : Type 0 where
    distinct : IsDistinct g.seen
    seen_sampled : (i : ℕ) → contains i g.seen ≡ true → IsSampled g.samples i

  find_request-elem :
      (e : Element) (k : ℕ) (rs : List PollRequest) (i : ℕ) (r : PollRequest)
      → find_request e k rs ≡ some (i, r)
      → (j : ℕ) × (i ≡ k + j) × (get_elem? rs j ≡ some r)
  unfolding find_request
  find_request-elem e k [] i r h = ground (arith, h)
  find_request-elem e k (x ∷ rs) i r h = elim (Bool-cases (matches e x)) [
    | inl m ↦
        let at : some (k, x) ≡ some (i, r) = rw (m) at h in
        (0, ground (arith, at), ground (arith, at))
    | inr m ↦
        let at : find_request e (suc k) rs ≡ some (i, r) = rw (m) at h in
        let (j, same, elem) = find_request-elem e (suc k) rs i r at in
        (suc j, omega (arith, same), elem)
  ]

  push_sample-IsGathered :
      (i : ℕ) (r : PollRequest) (value : TelemetryValue) (now : ℤ) (g : Group)
      → get_elem? requests i ≡ some r
      → IsGathered g
      → IsGathered (push_sample i r value now g)
  push_sample-IsGathered i r value now g at h = record {
    distinct = add-IsDistinct i g.seen h.distinct;
    seen_sampled = λ j c.
        let either : (i == j || contains j g.seen) ≡ true = sym (contains-add i j g.seen) ∙ c in
        let one : PointSample = sample r.point value now in
        let split = map-append (λ (s : PointSample). s.point) g.samples (one ∷ []) in
        elim (Bool-cases (i == j)) [
          | inl e ↦
              let same : i ≡ j = (==_iff i j).0 e in
              (
                r,
                ap (get_elem? requests) (sym same) ∙ at,
                subst (Memᴰ r.point) (sym split)
                    (append_right (sampled g.samples) (Memᴰ.head refl)),
              )
          | inr e ↦
              let (q, elem, mem) = h.seen_sampled j (rw (e) at either) in
              (q, elem, subst (Memᴰ q.point) (sym split) (append_left (r.point ∷ []) mem))
        ];
  }

  module _ (reads : Reads) (device : ℕ) where
    taken-IsGathered :
        (e : Element) (g : Group)
        → IsGathered g
        → OnOk IsGathered (taken reads device e g (find_request e 0 requests))
    taken-IsGathered e g h = elim (Option-cases (find_request e 0 requests)) [
      | inl absent ↦ rw (absent) h
      | inr ((i, r), found) ↦
          let (j, same, at) = find_request-elem e 0 requests i r found in
          let elem : get_elem? requests i ≡ some r =
            ap (get_elem? requests) (same ∙ omega arith) ∙ at in
          rw (found) (valued i r e.property_value elem)
    ]
      where
        valued :
            (i : ℕ) (r : PollRequest) (value : Option (List ℕ))
            → get_elem? requests i ≡ some r
            → OnOk IsGathered
                (taken reads device (record e { property_value = value }) g (some (i, r)))
        valued i r none elem = h
        valued i r (some bytes) elem = of_decoded (reads.decode bytes)
          where
            of_decoded :
                (d : Decoded TelemetryValue) → OnOk IsGathered (decoded reads device i r g d)
            of_decoded (Decoded.ok value) =
                push_sample-IsGathered i r value (reads.now device (length g.samples)) g elem h
            of_decoded (Decoded.err f) = tt

    take_elements-IsGathered :
        (es : List Element) (g : Group)
        → IsGathered g
        → OnOk IsGathered (take_elements reads device requests es g)
    unfolding take_elements
    take_elements-IsGathered [] g h = h
    take_elements-IsGathered (e ∷ es) g h =
        elim (Result-cases (taken reads device e g (find_request e 0 requests))) [
          | inr (f, failed) ↦ rw (failed, take_elements) tt
          | inl (next, took) ↦
              rw (took, take_elements)
                (take_elements-IsGathered es next
                  (subst (OnOk IsGathered) took (taken-IsGathered e g h)))
        ]

    complete-HasAll :
        (r : Result Group)
        → OnOk IsGathered r
        → OnOk (HasAll requests) (complete reads device requests r)
    complete-HasAll (err e) h = tt
    complete-HasAll (ok g) h = elim (Bool-cases (length g.seen == length requests)) [
      | inr few ↦ rw (few) tt
      | inl full ↦ rw (full) (λ r m.
          let (i, small, at) = index-of r requests m in
          let all =
            pigeonhole (length requests) g.seen h.distinct
              (λ j c. let (q, elem, _) = h.seen_sampled j c in elem-lt requests j q elem)
              ((==_iff (length g.seen) (length requests)).0 full) i small in
          let (q, elem, mem) = h.seen_sampled i all in
          let same : some q ≡ some r = sym elem ∙ at in
          subst (λ (x : PollRequest). Memᴰ x.point (sampled g.samples)) (some_inj same) mem)
    ]

    pub read_group_rpm-HasAll : OnOk (HasAll requests) (read_group_rpm reads device requests)
    unfolding read_group_rpm
    read_group_rpm-HasAll = of_answer (reads.multiple device requests)
      where
        nothing_seen : (j : ℕ) → contains j [] ≡ true → IsSampled [] j
        nothing_seen j c = let no : false ≡ true = unfold contains in c in ground (arith, no)

        of_answer :
            (r : Result (List Element)) → OnOk (HasAll requests) (gathered reads device requests r)
        of_answer (err e) = tt
        of_answer (ok es) =
            complete-HasAll
              (take_elements reads device requests es (record { samples = []; seen = [] }))
              (take_elements-IsGathered es (record { samples = []; seen = [] })
                (record { distinct = tt; seen_sampled = λ j c. nothing_seen j c }))
