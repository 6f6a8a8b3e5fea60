-- ===== src/Bacnet/Refresh.antt =====
-- crates/proto-bacnet/src/republish/refresh.rs: the refresh of the device table.
pub mod Ranges
pub mod Partition
pub mod Rounds
pub mod Outcome
use netix_protocol_core.Prelude.{
  ℕ, zero, suc, Bool, true, false, not, List, [], ◌∷◌, Option, none, some, filter, drop, is_empty,
  if◌then◌else◌,
}
use netix_protocol_core.Prelude.Eq.{nat_eq}
use netix_protocol_core.Prelude.Maps.{contains}
use netix_protocol_core.Model.{RefreshOutcome}
use netix_protocol_core.Mqtt.Publisher.{Error}
use netix_protocol_core.Worker.Events.{Result, ok, err}
use netix_protocol_core.Worker.Devices.{sort_ℕ, dedup}

-- The BACnet client with its state `C`: a broadcast Who-Is, for a range or for all; a lookup in its
-- device table; and what arrives while the code sleeps.
pub record Client (C : Type 0) : Type 0 where
  pub who_is : Option (ℕ × ℕ) → C → Option Error × C
  pub get_device : ℕ → C → Bool × C
  pub sleep : C → C

unfoldable pub normalize_device_instances : List ℕ → List ℕ
unfolding sort_ℕ dedup
normalize_device_instances instances = dedup (sort_ℕ instances)

-- The last of up to `n` elements behind `x`.
abbrev pub last_of : ℕ → ℕ → List ℕ → ℕ
last_of x zero xs = x
last_of x (suc n) [] = x
last_of x (suc n) (y ∷ xs) = last_of y n xs

-- `chunks(25)` with the first and last of each chunk. A chunk takes at least one element, so as much
-- fuel as there are elements suffices.
unfoldable pub chunk_ranges : ℕ → List ℕ → List (ℕ × ℕ)
chunk_ranges zero xs = []
chunk_ranges (suc fuel) [] = []
chunk_ranges (suc fuel) (x ∷ xs) = (x, last_of x 24 xs) ∷ chunk_ranges fuel (drop 24 xs)

abbrev pub count : List ℕ → ℕ
count [] = 0
count (x ∷ xs) = suc (count xs)

unfoldable pub device_instance_ranges : List ℕ → List (ℕ × ℕ)
unfolding normalize_device_instances chunk_ranges
device_instance_ranges instances =
    let xs = normalize_device_instances instances in chunk_ranges (count xs) xs

unfoldable pub partition_refresh_outcome : List ℕ → List ℕ → RefreshOutcome
unfolding contains
partition_refresh_outcome requested unresolved = record {
  resolved = filter (λ i. not (contains i unresolved)) requested;
  unresolved = filter (λ i. contains i unresolved) requested;
}

module _ {C : Type 0} (client : Client C) where
  unfoldable pub unresolved_device_instances : List ℕ → C → List ℕ × C
  unresolved_device_instances [] c = ([], c)
  unresolved_device_instances (i ∷ is) c =
      let (found, between) = client.get_device i c in
      let (rest, after) = unresolved_device_instances is between in
      (if found then rest else i ∷ rest, after)

  -- The inner loop: one Who-Is for each range, up to the first that fails.
  unfoldable pub ask_ranges : List (ℕ × ℕ) → C → Option Error × C
  ask_ranges [] c = (none, c)
  ask_ranges (r ∷ rs) c =
      let (sent, between) = client.who_is (some r) c in
      elim sent [ some e ↦ (some e, between) | none ↦ ask_ranges rs (client.sleep between) ]

  -- The loop over the targeted passes: the instances that are unresolved after them.
  unfoldable pub targeted : ℕ → List ℕ → List ℕ → C → Result (List ℕ) × C
  unfolding ask_ranges device_instance_ranges unresolved_device_instances
  targeted zero requested unresolved c = (ok unresolved, c)
  targeted (suc passes) requested unresolved c =
      let (asked, between) = ask_ranges (device_instance_ranges unresolved) c in
      let (left, after) = unresolved_device_instances requested between in
      let again = targeted passes requested left after in
      let pass : Result (List ℕ) × C = elim asked [ some e ↦ (err e, between) | none ↦ again ] in
      if is_empty unresolved then (ok unresolved, c) else pass

  abbrev pub partitioned : List ℕ → Result (List ℕ) → Result RefreshOutcome
  partitioned requested (ok unresolved) = ok (partition_refresh_outcome requested unresolved)
  partitioned requested (err e) = err e

  abbrev passes_of : List ℕ → C → Result RefreshOutcome × C
  passes_of requested c =
      let (first, between) = unresolved_device_instances requested c in
      let (left, after) = targeted 2 requested first between in (partitioned requested left, after)

  unfoldable pub refresh_device_table : List ℕ → C → Result RefreshOutcome × C
  unfolding normalize_device_instances targeted unresolved_device_instances
      partition_refresh_outcome
  refresh_device_table instances c =
      let requested = normalize_device_instances instances in
      let (sent, between) = client.who_is none c in
      let refreshed : Result RefreshOutcome × C = elim sent [
        | some e ↦ (err e, between)
        | none ↦ passes_of requested (client.sleep between)
      ] in
      if is_empty requested then (ok (record { resolved = []; unresolved = [] }), c) else refreshed
