-- ===== src/Import.antt =====
-- crates/republish-core/src/import.rs: merging imported points into the configured ones.
pub mod Identities
pub mod Merging
use netix_protocol_core.Prelude.{
  ℕ, suc, ◌+◌, Bool, true, false, ◌&&◌, ◌||◌, not, List, [], ◌∷◌, ◌++◌, Option, none, some, length,
  get_elem?, set, if◌then◌else◌,
}
use netix_protocol_core.Prelude.Eq.{beq, nat_eq, list_eq, pair_eq}
use netix_protocol_core.Prelude.Maps.{HashMap, get, insert}
use netix_protocol_core.Text.{Text, is_blank}
use netix_protocol_core.Model.{PointConfig, DiscoveredPoint}
use netix_protocol_core.Model.Identity.{PointIdentity, from_point}

pub record MergeImportResult : Type 0 where
  pub points : List PointConfig
  pub added : ℕ
  pub updated : ℕ

-- The local variables of the loop.
pub record Merge : Type 0 where
  pub points : List PointConfig
  pub index_by_id : HashMap PointIdentity ℕ
  pub added : ℕ
  pub updated : ℕ

-- The first loop: the index of the last point with each identity.
unfoldable pub index_points :
    ℕ → List PointConfig → HashMap PointIdentity ℕ → HashMap PointIdentity ℕ
index_points i [] m = m
index_points i (p ∷ ps) m = index_points (suc i) ps (insert (from_point p) i m)

-- `!new.trim().is_empty() && old != new`
abbrev pub replaces : Text → Text → Bool
replaces new old = not (is_blank new) && not (beq old new)

-- The update of an existing point, and whether it changed.
unfoldable pub relabel : PointConfig → PointConfig → PointConfig × Bool
relabel point existing =
    let tag = replaces point.tag_path existing.tag_path in
    let key = replaces point.device_key existing.device_key in
    (
      record existing {
        tag_path = if tag then point.tag_path else existing.tag_path;
        device_key = if key then point.device_key else existing.device_key;
      },
      tag || key,
    )

abbrev pub update_existing : PointConfig → ℕ → PointConfig → Merge → Merge
update_existing point index existing s =
    let (changed_point, changed) = relabel point existing in
    record s {
      points = set s.points index changed_point;
      updated = if changed then s.updated + 1 else s.updated;
    }

-- `&mut points[index]`: `none` is the panic on an index out of range
abbrev pub update_at : PointConfig → ℕ → Merge → Option Merge
update_at point index s = elim (get_elem? s.points index) [
  | none ↦ none
  | some existing ↦ some (update_existing point index existing s)
]

abbrev pub append_point : PointConfig → Merge → Merge
append_point point s = record s {
  points = s.points ++ point ∷ [];
  index_by_id = insert (from_point point) (length s.points) s.index_by_id;
  added = s.added + 1;
}

-- The body of the second loop.
unfoldable pub merge_point : PointConfig → Merge → Option Merge
merge_point point s = elim (get (from_point point) s.index_by_id) [
  | none ↦ some (append_point point s)
  | some index ↦ update_at point index s
]

unfoldable pub merge_points : List PointConfig → Merge → Option Merge
merge_points [] s = some s
merge_points (p ∷ ps) s = elim (merge_point p s) [ none ↦ none | some t ↦ merge_points ps t ]

abbrev pub start : List PointConfig → Merge
start existing = record {
  points = existing;
  index_by_id = index_points 0 existing [];
  added = 0;
  updated = 0;
}

abbrev pub result_of : Option Merge → Option MergeImportResult
result_of none = none
result_of (some s) = some (record { points = s.points; added = s.added; updated = s.updated })

-- `none` is a panic
unfoldable pub merge_imported_points :
    List PointConfig → List PointConfig → Option MergeImportResult
merge_imported_points existing imported = result_of (merge_points imported (start existing))

unfoldable pub point_from_discovered : DiscoveredPoint → ℕ → PointConfig
point_from_discovered found poll_interval_secs = record {
  enabled = true;
  device_key = found.device_key;
  addressing = found.addressing;
  tag_path = found.suggested_tag_path;
  poll_interval_secs = poll_interval_secs;
}
