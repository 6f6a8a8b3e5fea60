-- ===== src/Bacnet/Refresh/Partition.antt =====
-- The outcome of crates/proto-bacnet/src/republish/refresh.rs.
use netix_protocol_core.Prelude.{
  ℕ, ◌≡◌, refl, sym, ◌∙◌, Bool, true, false, not, ◌&&◌, ◌||◌, List, [], ◌∷◌, none, filter, is_empty,
  ◌==◌, ==_iff, arith, Bool-cases, Option-cases, inl, inr,
}
use mathlib.Core.Path.{subst}
use netix_protocol_core.Prelude.Eq.{nat_eq}
use netix_protocol_core.Prelude.Maps.{contains}
use netix_protocol_core.Model.{RefreshOutcome}
use netix_protocol_core.Worker.Events.{Result, ok, err, OnOk}
use netix_protocol_core.Worker.Devices.{sort_ℕ, dedup}
use netix_protocol_core.Worker.Devices.Instances.{contains-sort_ℕ, contains-dedup}
use netix_protocol_core.Bacnet.Refresh.{
  Client, normalize_device_instances, partition_refresh_outcome, partitioned, targeted,
  unresolved_device_instances, refresh_device_table,
}

pub contains-filter :
    (p : ℕ → Bool) (d : ℕ) (xs : List ℕ) → contains d (filter p xs) ≡ (contains d xs && p d)
unfolding contains
contains-filter p d [] = refl
contains-filter p d (x ∷ xs) = elim (Bool-cases (x == d)) [
  | inl e ↦
      let same : x ≡ d = (==_iff x d).0 e in
      subst (λ y. contains d (filter p (y ∷ xs)) ≡ ((y == d || contains d xs) && p d)) (sym same)
        (ground (arith, contains-filter p d xs))
  | inr e ↦ ground (arith, contains-filter p d xs, e)
]

none-contained : (d : ℕ) (xs : List ℕ) → is_empty xs ≡ true → contains d xs ≡ false
unfolding contains
none-contained d [] e = refl
none-contained d (x ∷ xs) e = ground (arith, e)

-- Each instance that was asked for is in exactly one of the two lists, and no other one is in any.
abbrev pub Splits : List ℕ → RefreshOutcome → Type 0
Splits instances o =
    (d : ℕ)
    → ((contains d o.resolved || contains d o.unresolved) ≡ contains d instances)
      × ((contains d o.resolved && contains d o.unresolved) ≡ false)

partition-Splits :
    (instances unresolved : List ℕ)
    → Splits instances (partition_refresh_outcome (normalize_device_instances instances) unresolved)
unfolding partition_refresh_outcome normalize_device_instances
partition-Splits instances unresolved d =
    let xs = dedup (sort_ℕ instances) in
    let same = contains-dedup d (sort_ℕ instances) ∙ contains-sort_ℕ d instances in
    ground (
      arith,
      contains-filter (λ i. not (contains i unresolved)) d xs,
      contains-filter (λ i. contains i unresolved) d xs,
      same,
    )

partitioned-Splits :
    (instances : List ℕ) {C : Type 0} (client : Client C) (r : Result (List ℕ))
    → OnOk (Splits instances) (partitioned client (normalize_device_instances instances) r)
partitioned-Splits instances client (ok unresolved) = partition-Splits instances unresolved
partitioned-Splits instances client (err e) = tt

pub refresh-Splits :
    {C : Type 0} (client : Client C) (instances : List ℕ) (c : C)
    → OnOk (Splits instances) (refresh_device_table client instances c).0
unfolding refresh_device_table
refresh-Splits client instances c =
    let requested = normalize_device_instances instances in
    elim (Bool-cases (is_empty requested)) [
      | inl none_left ↦ rw (none_left) (nothing instances none_left)
      | inr some_left ↦ elim (Option-cases (client.who_is none c).0) [
        | inr (e, failed) ↦ rw (some_left, failed) tt
        | inl sent ↦
            rw (some_left, sent)
              (partitioned-Splits instances client
                (targeted client 2 requested
                  (unresolved_device_instances client requested
                    (client.sleep (client.who_is none c).1)).0
                  (unresolved_device_instances client requested
                    (client.sleep (client.who_is none c).1)).1).0)
      ]
    ]
  where
    nothing :
        (instances : List ℕ)
        → is_empty (normalize_device_instances instances) ≡ true
        → Splits instances (record { resolved = []; unresolved = [] })
    nothing instances e d =
        let same = contains-dedup d (sort_ℕ instances) ∙ contains-sort_ℕ d instances in
        (
          sym (none-contained d (normalize_device_instances instances) e)
              ∙ unfold normalize_device_instances in same,
          refl,
        )
