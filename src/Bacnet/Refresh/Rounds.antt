-- ===== src/Bacnet/Refresh/Rounds.antt =====
-- The lookups behind an outcome of crates/proto-bacnet/src/republish/refresh.rs.
use netix_protocol_core.Prelude.{
  ℕ, zero, suc, ◌+◌, ◌≡◌, refl, sym, ◌∙◌, ◌⊎◌, inl, inr, Bool, true, false, not, ◌&&◌, List, [],
  ◌∷◌, none, is_empty, ◌==◌, ==_iff, arith, Bool-cases, Option-cases, if◌then◌else◌,
}
use mathlib.Core.Path.{subst}
use netix_protocol_core.Prelude.Eq.{nat_eq}
use netix_protocol_core.Prelude.Maps.{contains}
use netix_protocol_core.Model.{RefreshOutcome}
use netix_protocol_core.Worker.Events.{OnOk}
use netix_protocol_core.Bacnet.Poll.Pigeonhole.{IsDistinct}
use netix_protocol_core.Bacnet.Refresh.{
  Client, device_instance_ranges, partition_refresh_outcome, ask_ranges, targeted,
  unresolved_device_instances,
}
use netix_protocol_core.Bacnet.Refresh.Partition.{contains-filter}

-- The instances that were looked up with the result.
abbrev pub with_result : Bool → List (ℕ × Bool) → List ℕ
with_result b [] = []
with_result b ((i, true) ∷ looks) = if b then i ∷ with_result b looks else with_result b looks
with_result b ((i, false) ∷ looks) = if b then with_result b looks else i ∷ with_result b looks

module _ {C : Type 0} (client : Client C) where
  -- One lookup for each instance, in order.
  abbrev pub lookups : List ℕ → C → List (ℕ × Bool) × C
  lookups [] c = ([], c)
  lookups (i ∷ is) c =
      let (found, between) = client.get_device i c in
      let (rest, after) = lookups is between in ((i, found) ∷ rest, after)

  -- The rounds of lookups from `start` on, by the number of targeted passes before the last one: it has
  -- the results and leaves the client in the state. A further pass is made where a device was missing,
  -- and asks for the ranges of the missing ones, each Who-Is being sent.
  pub data Rounds (requested : List ℕ) (start : C) : ℕ → List (ℕ × Bool) → C → Type 0 where
    first : Rounds requested start 0 (lookups requested start).0 (lookups requested start).1
    again :
        (n : ℕ) (looks : List (ℕ × Bool)) (c : C)
        → Rounds requested start n looks c
        → is_empty (with_result false looks) ≡ false
        → (ask_ranges client (device_instance_ranges (with_result false looks)) c).0 ≡ none
        → Rounds requested start
            (suc n)
            (lookups requested
              (ask_ranges client (device_instance_ranges (with_result false looks)) c).1).0
            (lookups requested
              (ask_ranges client (device_instance_ranges (with_result false looks)) c).1).1

  pub unresolved-lookups :
      (is : List ℕ) (c : C)
      → unresolved_device_instances client is c
        ≡ (with_result false (lookups is c).0, (lookups is c).1)
  unfolding unresolved_device_instances
  unresolved-lookups [] c = refl
  unresolved-lookups (i ∷ is) c =
      let ih = unresolved-lookups is (client.get_device i c).1 in
      elim (Bool-cases (client.get_device i c).0) [
        | inl found ↦ rw (found, ih) refl
        | inr missing ↦ rw (missing, ih) refl
      ]

  -- The last round after the broadcast: nothing is missing, or two targeted passes were made.
  abbrev pub Ended : List ℕ → C → List (ℕ × Bool) → C → Type 0
  Ended requested start looks after =
      (n : ℕ) × Rounds requested start n looks after
      × ((is_empty (with_result false looks) ≡ true) ⊎ (n ≡ 2))

  pub targeted-Ended :
      (k n : ℕ) (requested : List ℕ) (start : C) (looks : List (ℕ × Bool)) (c : C)
      → n + k ≡ 2
      → Rounds requested start n looks c
      → let r = targeted client k requested (with_result false looks) c in
        OnOk
          (λ left.
            (last : List (ℕ × Bool)) × (left ≡ with_result false last)
            × Ended requested start last r.1)
          r.0
  unfolding targeted
  targeted-Ended zero n requested start looks c h rounds =
      (looks, refl, (n, rounds, inr (omega (arith, h))))
  targeted-Ended (suc k) n requested start looks c h rounds =
      let missing = with_result false looks in
      elim (Bool-cases (is_empty missing)) [
        | inl done ↦ rw (done) (looks, refl, (n, rounds, inl done))
        | inr more ↦ elim (Option-cases (ask_ranges client (device_instance_ranges missing) c).0) [
          | inr (e, failed) ↦ rw (more, failed) tt
          | inl sent ↦
              let between = (ask_ranges client (device_instance_ranges missing) c).1 in
              rw (more, sent, unresolved-lookups requested between)
                (targeted-Ended k (suc n) requested start (lookups requested between).0
                  (lookups requested between).1 (omega (arith, h))
                  (again n looks c rounds more sent))
        ]
      ]

  -- What was looked up: an instance of the list has one result.
  contains-with_result :
      (is : List ℕ) (c : C) (d : ℕ)
      → IsDistinct is
      → let looks = (lookups is c).0 in
        (contains d (with_result true looks)
          ≡ (contains d is && not (contains d (with_result false looks))))
        × ((contains d is && contains d (with_result false looks))
            ≡ contains d (with_result false looks))
  unfolding contains
  contains-with_result [] c d h = (refl, refl)
  contains-with_result (i ∷ is) c d (absent, h) =
      let (met, within) = contains-with_result is (client.get_device i c).1 d h in
      let new : (i == d) ≡ true → contains d is ≡ false =
        λ e. subst (λ j. contains j is ≡ false) ((==_iff i d).0 e) absent in
      elim (Bool-cases (client.get_device i c).0) [
        | inl found ↦ rw (found) (elim (Bool-cases (i == d)) [
          | inl e ↦ (ground (arith, met, within, new e, e), ground (arith, met, within, new e, e))
          | inr e ↦ (ground (arith, met, within, e), ground (arith, met, within, e))
        ])
        | inr missing ↦ rw (missing) (elim (Bool-cases (i == d)) [
          | inl e ↦ (ground (arith, met, within, new e, e), ground (arith, met, within, new e, e))
          | inr e ↦ (ground (arith, met, within, e), ground (arith, met, within, e))
        ])
      ]

  -- The resolved devices are those that were found, the unresolved ones those that were not.
  abbrev pub Reports : List (ℕ × Bool) → RefreshOutcome → Type 0
  Reports looks o =
      (d : ℕ)
      → (contains d o.resolved ≡ contains d (with_result true looks))
        × (contains d o.unresolved ≡ contains d (with_result false looks))

  partition-Reports :
      (is : List ℕ) (c : C)
      → IsDistinct is
      → Reports (lookups is c).0 (partition_refresh_outcome is (with_result false (lookups is c).0))
  unfolding partition_refresh_outcome
  partition-Reports is c h d =
      let missing = with_result false (lookups is c).0 in
      let (met, within) = contains-with_result is c d h in
      (
        contains-filter (λ i. not (contains i missing)) d is ∙ sym met,
        contains-filter (λ i. contains i missing) d is ∙ within,
      )

  -- The lookups of a round are those from some state of the client.
  pub Rounds-Reports :
      (requested : List ℕ) (start : C) (n : ℕ) (looks : List (ℕ × Bool)) (c : C)
      → IsDistinct requested
      → Rounds requested start n looks c
      → Reports looks (partition_refresh_outcome requested (with_result false looks))
  Rounds-Reports requested start n looks c h first = partition-Reports requested start h
  Rounds-Reports requested start n looks c h (again m before b rounds e f) =
      partition-Reports requested _ h
