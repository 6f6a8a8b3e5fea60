-- ===== src/Bacnet/Refresh/Outcome.antt =====
-- The outcome of `refresh_device_table` in crates/proto-bacnet/src/republish/refresh.rs.
use netix_protocol_core.Prelude.{
  ℕ, ◌<◌, ◌≡◌, refl, sym, ◌⊎◌, inl, inr, Bool, true, false, List, [], ◌∷◌, none, is_empty, ◌==◌,
  arith, Bool-cases, Option-cases,
}
use mathlib.Core.Path.{subst}
use netix_protocol_core.Prelude.Eq.{nat_eq}
use netix_protocol_core.Prelude.Maps.{contains}
use netix_protocol_core.Model.{RefreshOutcome}
use netix_protocol_core.Worker.Events.{Result, ok, err, OnOk}
use netix_protocol_core.Worker.Devices.{sort_ℕ, dedup}
use netix_protocol_core.Worker.Devices.Instances.{sort_ℕ-IsSorted, dedup-IsIncreasing, IsIncreasing}
use netix_protocol_core.Bacnet.Poll.Pigeonhole.{IsDistinct}
use netix_protocol_core.Bacnet.Refresh.{
  Client, unresolved_device_instances, normalize_device_instances, partitioned, targeted,
  refresh_device_table,
}
use netix_protocol_core.Bacnet.Refresh.Partition.{Splits, refresh-Splits}
use netix_protocol_core.Bacnet.Refresh.Rounds.{
  with_result, lookups, first, Ended, Reports, targeted-Ended, unresolved-lookups, Rounds-Reports,
}

below-absent : (d x : ℕ) (xs : List ℕ) → IsIncreasing (x ∷ xs) → d < x → contains d (x ∷ xs) ≡ false
unfolding contains
below-absent d x [] h l = ground (arith, l)
below-absent d x (y ∷ ys) h l =
    let rest = below-absent d y ys h.1 (omega (arith, h.0, l)) in
    let other : (x == d) ≡ false = ground (arith, l) in rw (other) rest

increasing-IsDistinct : (xs : List ℕ) → IsIncreasing xs → IsDistinct xs
increasing-IsDistinct [] h = tt
increasing-IsDistinct (x ∷ []) h = (unfold contains in refl, tt)
increasing-IsDistinct (x ∷ y ∷ ys) h =
    (below-absent x y ys h.1 h.0, increasing-IsDistinct (y ∷ ys) h.1)

normalized-IsDistinct : (instances : List ℕ) → IsDistinct (normalize_device_instances instances)
unfolding normalize_device_instances
normalized-IsDistinct instances =
    increasing-IsDistinct (dedup (sort_ℕ instances))
      (dedup-IsIncreasing (sort_ℕ instances) (sort_ℕ-IsSorted instances))

module _ {C : Type 0} (client : Client C) where
  -- Nothing was asked for, or the outcome is that of the last round of lookups.
  abbrev pub IsLookedUp : List ℕ → C → C → RefreshOutcome → Type 0
  IsLookedUp instances c after o =
      ((is_empty (normalize_device_instances instances) ≡ true) × (after ≡ c))
      ⊎ ((looks : List (ℕ × Bool)) × Ended client (normalize_device_instances instances)
            (client.sleep (client.who_is none c).1) looks after
          × Reports client looks o)

  partitioned-IsLookedUp :
      (instances : List ℕ) (c : C) (r : Result (List ℕ) × C)
      → OnOk
          (λ left.
            (last : List (ℕ × Bool)) × (left ≡ with_result false last)
            × Ended client
                (normalize_device_instances instances)
                (client.sleep (client.who_is none c).1)
                last
                r.1)
          r.0
      → OnOk
          (IsLookedUp instances c r.1)
          (partitioned client (normalize_device_instances instances) r.0)
  partitioned-IsLookedUp instances c (err e, after) h = tt
  partitioned-IsLookedUp instances c (ok left, after) (last, same, (n, rounds, ended)) = rw (same) (
      inr (
        last,
        (n, rounds, ended),
        Rounds-Reports client (normalize_device_instances instances) _ n last after
            (normalized-IsDistinct instances) rounds,
      ))

  -- The passes after the first lookups.
  passes-IsLookedUp :
      (instances : List ℕ) (c : C) (seen : List ℕ × C)
      → (
        with_result false
            (lookups client
              (normalize_device_instances instances)
              (client.sleep (client.who_is none c).1)).0,
        (lookups client
            (normalize_device_instances instances)
            (client.sleep (client.who_is none c).1)).1,
      )
        ≡ seen
      → let requested = normalize_device_instances instances in
        OnOk
          (IsLookedUp instances c (targeted client 2 requested seen.0 seen.1).1)
          (partitioned client requested (targeted client 2 requested seen.0 seen.1).0)
  passes-IsLookedUp instances c seen e =
      let requested = normalize_device_instances instances in
      let start = client.sleep (client.who_is none c).1 in
      let looks = (lookups client requested start).0 in
      let after = (lookups client requested start).1 in
      subst
        (λ x.
          OnOk (IsLookedUp instances c (targeted client 2 requested x.0 x.1).1)
            (partitioned client requested (targeted client 2 requested x.0 x.1).0))
        e
        (partitioned-IsLookedUp instances c
          (targeted client 2 requested (with_result false looks) after)
          (targeted-Ended client 2 0 requested start looks after refl first))

  refresh-IsLookedUp :
      (instances : List ℕ) (c : C)
      → let r = refresh_device_table client instances c in OnOk (IsLookedUp instances c r.1) r.0
  unfolding refresh_device_table
  refresh-IsLookedUp instances c =
      let requested = normalize_device_instances instances in
      let start = client.sleep (client.who_is none c).1 in
      elim (Bool-cases (is_empty requested)) [
        | inl none_left ↦ rw (none_left) (inl (none_left, refl))
        | inr some_left ↦ elim (Option-cases (client.who_is none c).0) [
          | inr (e, failed) ↦ rw (some_left, failed) tt
          | inl sent ↦
              rw (some_left, sent)
                (passes-IsLookedUp instances c (unresolved_device_instances client requested start)
                  (sym (unresolved-lookups client requested start)))
        ]
      ]

-- Where a refresh of the device table succeeds, each device that was asked for, and no other, is either
-- resolved or unresolved. Unless nothing was asked for, they are as the last of the rounds of lookups
-- found them, one lookup of each device: after the broadcast, and after each pass that asks for the
-- ranges of the devices then missing. The rounds end with nothing missing, or after two such passes.
pub refresh_device_table-IsLookedUp :
    {C : Type 0} (client : Client C) (instances : List ℕ) (c : C) {o : RefreshOutcome}
    → (refresh_device_table client instances c).0 ≡ ok o
    → Splits instances o
      × IsLookedUp client instances c (refresh_device_table client instances c).1 o
refresh_device_table-IsLookedUp client instances c e = (
  subst (OnOk (Splits instances)) e (refresh-Splits client instances c),
  subst (OnOk (IsLookedUp client instances c (refresh_device_table client instances c).1)) e
      (refresh-IsLookedUp client instances c),
)
