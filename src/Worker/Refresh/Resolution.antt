-- ===== src/Worker/Refresh/Resolution.antt =====
-- `apply_refresh_state` of crates/republish-core/src/worker/mod.rs, device by device.
use netix_protocol_core.Prelude.{
  ℕ, ◌≡◌, refl, false, ◌&&◌, ◌||◌, not, List, [], ◌∷◌, ◌++◌, none, arith, ◌==◌, ==_iff,
  if◌then◌else◌,
}
use netix_protocol_core.Prelude.Eq.{nat_eq}
use netix_protocol_core.Prelude.Maps.{
  HashMap, HashSet, contains, contains-add, contains-discard, get, get-remove,
}
use netix_protocol_core.Model.{RefreshOutcome}
use netix_protocol_core.Backoff.{DeviceBackoff}
use netix_protocol_core.Worker.Devices.{sort_ℕ}
use netix_protocol_core.Worker.Devices.Instances.{contains-sort_ℕ, contains-dedup}
use netix_protocol_core.Worker.Refresh.{
  Resolving, resolve_device, resolve_devices, unresolve_device, unresolve_devices, sort_change,
  no_change, apply_refresh_state,
}

contains-snoc : (d n : ℕ) (xs : List ℕ) → contains d (xs ++ n ∷ []) ≡ (n == d || contains d xs)
unfolding contains
contains-snoc d n [] = refl
contains-snoc d n (x ∷ xs) = ground (arith, contains-snoc d n xs)

-- The effect of the first loop on one device.
record FirstLoop (d : ℕ) (ds : List ℕ) (s t : Resolving) : Type 0 where
  unresolved : contains d t.unresolved ≡ (not (contains d ds) && contains d s.unresolved)
  backoff : get d t.backoffs ≡ (if contains d ds then none else get d s.backoffs)
  newly :
      contains d t.change.newly_resolved
      ≡ (contains d s.change.newly_resolved || (contains d ds && contains d s.unresolved))
  other : t.change.newly_unresolved ≡ s.change.newly_unresolved

resolve_devices-FirstLoop :
    (d : ℕ) (ds : List ℕ) (s : Resolving) → FirstLoop d ds s (resolve_devices ds s)
unfolding resolve_devices contains
resolve_devices-FirstLoop d [] s = ground arith
resolve_devices-FirstLoop d (x ∷ ds) s =
    let t : Resolving = resolve_device x s in
    let ih : FirstLoop d ds t (resolve_devices ds t) = resolve_devices-FirstLoop d ds t in
    ground (
      arith,
      ih,
      contains-discard x d s.unresolved,
      get-remove x d s.backoffs,
      contains-snoc d x s.change.newly_resolved,
      ==_iff x d,
    )

-- The effect of the second loop on one device.
record SecondLoop (d : ℕ) (ds : List ℕ) (s t : Resolving) : Type 0 where
  unresolved : contains d t.unresolved ≡ (contains d ds || contains d s.unresolved)
  backoff : get d t.backoffs ≡ get d s.backoffs
  newly :
      contains d t.change.newly_unresolved
      ≡ (contains d s.change.newly_unresolved || (contains d ds && not (contains d s.unresolved)))
  other : t.change.newly_resolved ≡ s.change.newly_resolved

unresolve_devices-SecondLoop :
    (d : ℕ) (ds : List ℕ) (s : Resolving) → SecondLoop d ds s (unresolve_devices ds s)
unfolding unresolve_devices contains
unresolve_devices-SecondLoop d [] s = ground arith
unresolve_devices-SecondLoop d (x ∷ ds) s =
    let t : Resolving = unresolve_device x s in
    let ih : SecondLoop d ds t (unresolve_devices ds t) = unresolve_devices-SecondLoop d ds t in
    ground (
      arith,
      ih,
      contains-add x d s.unresolved,
      contains-add x d s.change.newly_unresolved,
      ==_iff x d,
    )

contains_nil : (d : ℕ) → contains d [] ≡ false
unfolding contains
contains_nil d = refl

-- What a refresh means for one device: it is unresolved if the refresh says so, or if it was before
-- and the refresh did not resolve it; a resolved device loses its backoff. It is reported as newly
-- resolved if it was unresolved and got resolved, and as newly unresolved if the refresh says so and
-- it was not left unresolved by the first loop.
pub record Refreshed (unresolved : HashSet ℕ) (backoffs : HashMap ℕ DeviceBackoff)
    (refresh : RefreshOutcome) (d : ℕ) (t : Resolving) : Type 0 where
  pub pending : contains d t.unresolved ≡ (
      contains d refresh.unresolved || (not (contains d refresh.resolved) && contains d unresolved))
  pub backoff : get d t.backoffs ≡ (if contains d refresh.resolved then none else get d backoffs)
  pub resolved :
      contains d t.change.newly_resolved ≡ (contains d refresh.resolved && contains d unresolved)
  pub lost : contains d t.change.newly_unresolved ≡ (
      contains d refresh.unresolved
      && not (not (contains d refresh.resolved) && contains d unresolved))

-- Every device comes out of `apply_refresh_state` as the refresh decides, whatever the order and the
-- repetitions of its lists.
pub apply_refresh_state-Refreshed :
    (unresolved : HashSet ℕ) (backoffs : HashMap ℕ DeviceBackoff) (refresh : RefreshOutcome) (d : ℕ)
    → Refreshed unresolved backoffs refresh d (apply_refresh_state unresolved backoffs refresh)
unfolding apply_refresh_state
apply_refresh_state-Refreshed unresolved backoffs refresh d =
    let s : Resolving = record {
      unresolved = unresolved;
      backoffs = backoffs;
      change = no_change;
    } in
    let t : Resolving = resolve_devices refresh.resolved s in
    let u : Resolving = unresolve_devices refresh.unresolved (sort_change t) in
    let first : FirstLoop d refresh.resolved s t = resolve_devices-FirstLoop d refresh.resolved s in
    let second : SecondLoop d refresh.unresolved (sort_change t) u =
      unresolve_devices-SecondLoop d refresh.unresolved (sort_change t) in
    record {
      pending = rw (second.unresolved, first.unresolved);
      backoff = rw (second.backoff, first.backoff);
      resolved =
          rw
            (
              second.other,
              contains-dedup d (sort_ℕ t.change.newly_resolved),
              contains-sort_ℕ d t.change.newly_resolved,
            )
            (rw (first.newly, contains_nil d));
      lost = rw (second.newly, first.other, contains_nil d, first.unresolved);
    }
