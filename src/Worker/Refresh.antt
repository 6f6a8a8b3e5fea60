-- ===== src/Worker/Refresh.antt =====
-- crates/republish-core/src/worker/mod.rs: what a device-table refresh changes and reports.
pub mod Resolution
use netix_protocol_core.Prelude.{
  ℕ, suc, Bool, true, false, ◌&&◌, ◌||◌, List, [], ◌∷◌, ◌++◌, map, Option, none, some, filter,
  filter_map, is_empty, is_some_and, unwrap_or, length, if◌then◌else◌,
}
use netix_protocol_core.Prelude.Eq.{nat_eq, list_eq, pair_eq}
use netix_protocol_core.Prelude.Maps.{
  HashMap, HashSet, contains, add, discard, get, remove, update_or,
}
use netix_protocol_core.Text.{Text, lit, join}
use netix_protocol_core.Text.Numbers.{decimal}
use netix_protocol_core.Model.{
  PointConfig, PointFailure, PointStatus, RefreshOutcome, default_status, record_read_failure,
}
use netix_protocol_core.Model.Identity.{PointIdentity, from_point}
use netix_protocol_core.Backoff.{DeviceBackoff, LogLevel, info, warning}
use netix_protocol_core.Worker.Events.{WorkerEvent, log, failures}
use netix_protocol_core.Worker.Devices.{device_instance, sort_ℕ, dedup}

abbrev pub Statuses : Type 0
Statuses = HashMap PointIdentity PointStatus

pub record RefreshStateChange : Type 0 where
  pub newly_resolved : List ℕ
  pub newly_unresolved : HashSet ℕ

-- The two mutable arguments of `apply_refresh_state`, and the change so far.
pub record Resolving : Type 0 where
  pub unresolved : HashSet ℕ
  pub backoffs : HashMap ℕ DeviceBackoff
  pub change : RefreshStateChange

-- The bodies of the two loops.
unfoldable pub resolve_device : ℕ → Resolving → Resolving
resolve_device d s = record s {
  unresolved = discard d s.unresolved;
  backoffs = remove d s.backoffs;
  change =
      if contains d s.unresolved
      then record s.change { newly_resolved = s.change.newly_resolved ++ d ∷ [] }
      else s.change;
}

unfoldable pub unresolve_device : ℕ → Resolving → Resolving
unresolve_device d s = record s {
  unresolved = add d s.unresolved;
  change =
      if contains d s.unresolved
      then s.change
      else record s.change { newly_unresolved = add d s.change.newly_unresolved };
}

unfoldable pub resolve_devices : List ℕ → Resolving → Resolving
unfolding resolve_device
resolve_devices [] s = s
resolve_devices (d ∷ ds) s = resolve_devices ds (resolve_device d s)

unfoldable pub unresolve_devices : List ℕ → Resolving → Resolving
unfolding unresolve_device
unresolve_devices [] s = s
unresolve_devices (d ∷ ds) s = unresolve_devices ds (unresolve_device d s)

abbrev pub sort_change : Resolving → Resolving
sort_change s = record s {
  change = record s.change { newly_resolved = dedup (sort_ℕ s.change.newly_resolved) };
}

abbrev pub no_change : RefreshStateChange
no_change = record { newly_resolved = []; newly_unresolved = [] }

unfoldable pub apply_refresh_state :
    HashSet ℕ → HashMap ℕ DeviceBackoff → RefreshOutcome → Resolving
unfolding resolve_devices unresolve_devices sort_ℕ dedup
apply_refresh_state unresolved backoffs refresh = unresolve_devices refresh.unresolved (
    sort_change (
      resolve_devices refresh.resolved
        (record { unresolved = unresolved; backoffs = backoffs; change = no_change })))

pub cache_message : ℕ → Text
cache_message device = lit "device " ++ (decimal device ++ lit " not in I-Am cache")

abbrev is_unresolved : HashSet ℕ → PointConfig → Bool
is_unresolved unresolved point =
    point.enabled && is_some_and (device_instance point) (λ i. contains i unresolved)

abbrev unresolved_failure : PointConfig → PointFailure
unresolved_failure point = record {
  point = point;
  error = cache_message (unwrap_or (device_instance point) 0);
}

-- The loop that both failure reports share: each failure is recorded in its point's status.
unfoldable pub record_failures : List PointFailure → Statuses → Statuses
record_failures [] statuses = statuses
record_failures (f ∷ fs) statuses =
    record_failures fs
      (update_or (from_point f.point) default_status (record_read_failure f.error) statuses)

unfoldable pub record_unresolved_failures :
    List PointConfig → HashSet ℕ → Statuses → Statuses × List WorkerEvent
unfolding record_failures
record_unresolved_failures points unresolved statuses =
    let found = map unresolved_failure (filter (is_unresolved unresolved) points) in
    if is_empty unresolved
    then (statuses, [])
    else if is_empty found
    then (statuses, [])
    else (record_failures found statuses, failures found ∷ [])

-- `{:?}` of a list of numbers
debug_list : List ℕ → Text
debug_list ds = lit "[" ++ (join (lit ", ") (map decimal ds) ++ lit "]")

pub resolved_message : Text → List ℕ → Text
resolved_message label ds =
    decimal (length ds)
    ++ (lit " device(s) resolved during " ++ (label ++ (lit ": " ++ debug_list ds)))

pub unresolved_message : Text → List ℕ → Text
unresolved_message label ds =
    decimal (length ds)
    ++ (lit " device(s) unresolved during " ++ (label ++ (lit ": " ++ debug_list ds)))

unfoldable pub emit_refresh_state_change :
    List PointConfig → Text → RefreshStateChange → Statuses → Statuses × List WorkerEvent
emit_refresh_state_change points label change statuses =
    let resolved =
      if is_empty change.newly_resolved
      then []
      else log info (resolved_message label change.newly_resolved) ∷ [] in
    let (statuses', reported) =
      record_unresolved_failures points change.newly_unresolved statuses in
    if is_empty change.newly_unresolved then (statuses, resolved) else (
      statuses',
      resolved ++ (log warning (unresolved_message label change.newly_unresolved) ∷ reported),
    )
