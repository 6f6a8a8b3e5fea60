-- ===== src/Worker/Devices.antt =====
-- crates/republish-core/src/worker/mod.rs: which device a point is on, which points are due, and the
-- devices to resolve.
pub mod Instances
use netix_protocol_core.Prelude.{
  ℕ, ◌+◌, ◌-◌, ◌*◌, ◌/◌, ◌%◌, ◌^◌, Bool, true, false, ◌&&◌, ◌||◌, not, List, [], ◌∷◌, Option, none,
  some, max, filter, filter_map, is_some_and, is_none_or, unwrap_or, ltb, leb, ◌==◌, if◌then◌else◌,
}
use netix_protocol_core.Prelude.Eq.{nat_eq, list_eq, pair_eq}
use netix_protocol_core.Prelude.Maps.{HashMap, HashSet, contains, get}
use netix_protocol_core.Text.{Text, lit, trim}
use netix_protocol_core.Text.Numbers.{u32_max, u64_max, parse_unsigned}
use netix_protocol_core.Model.{JsonValue, Addressing, PointConfig}
use netix_protocol_core.Model.Identity.{PointIdentity, from_point}
use netix_protocol_core.Backoff.{second, as_secs, DeviceBackoff}

abbrev u32_mod : ℕ
u32_mod = 4_294_967_296

-- `n.as_u64().map(|v| v as u32)`: the cast wraps
abbrev pub instance_of : JsonValue → Option ℕ
instance_of (JsonValue.number n) = elim n.as_u64 [ none ↦ none | some v ↦ some (v % u32_mod) ]
instance_of (JsonValue.string s) = parse_unsigned u32_max (trim s)
instance_of _ = none

unfoldable pub device_instance : PointConfig → Option ℕ
device_instance point = elim (get (lit "device_instance") point.addressing) [
  | none ↦ none
  | some value ↦ instance_of value
]

unfoldable pub device_blocked : PointConfig → ℕ → HashSet ℕ → HashMap ℕ DeviceBackoff → Bool
device_blocked p now unresolved backoffs = is_some_and (device_instance p) (λ i.
    contains i unresolved || is_some_and (get i backoffs) (λ (b : DeviceBackoff). ltb now b.until))

-- `now.duration_since(at)` is zero if `at` lies later.
abbrev pub interval_passed : PointConfig → ℕ → Option ℕ → Bool
interval_passed p now last = is_none_or last (λ at. leb p.poll_interval_secs (as_secs (now - at)))

abbrev pub is_due :
    ℕ → HashSet ℕ → HashMap ℕ DeviceBackoff → HashMap PointIdentity ℕ → PointConfig → Bool
is_due now unresolved backoffs last_poll p =
    not (device_blocked p now unresolved backoffs)
    && interval_passed p now (get (from_point p) last_poll)

abbrev pub is_enabled : PointConfig → Bool
is_enabled p = p.enabled

unfoldable pub due_points :
    ℕ
    → List PointConfig
    → HashSet ℕ
    → HashMap ℕ DeviceBackoff
    → HashMap PointIdentity ℕ
    → List PointConfig
due_points now points unresolved backoffs last_poll =
    filter (is_due now unresolved backoffs last_poll) (filter is_enabled points)

abbrev backoff_secs : Option JsonValue → ℕ
backoff_secs (some (JsonValue.number n)) = max (unwrap_or n.as_u64 300) 10
backoff_secs (some (JsonValue.string s)) = max (unwrap_or (parse_unsigned u64_max (trim s)) 300) 10
backoff_secs _ = 300

unfoldable pub device_backoff_max : Addressing → ℕ
device_backoff_max conn = backoff_secs (get (lit "device_backoff_max_secs") conn) * second

-- `sort_unstable()` of numbers, by insertion
unfoldable pub insert_ℕ : ℕ → List ℕ → List ℕ
insert_ℕ n [] = n ∷ []
insert_ℕ n (x ∷ xs) = let rest = insert_ℕ n xs in if leb n x then n ∷ x ∷ xs else x ∷ rest

unfoldable pub sort_ℕ : List ℕ → List ℕ
unfolding insert_ℕ
sort_ℕ [] = []
sort_ℕ (x ∷ xs) = insert_ℕ x (sort_ℕ xs)

-- `dedup()`: of equal neighbours one is kept
unfoldable pub dedup : List ℕ → List ℕ
dedup [] = []
dedup (x ∷ []) = x ∷ []
dedup (x ∷ y ∷ xs) = let rest = dedup (y ∷ xs) in if x == y then rest else x ∷ rest

unfoldable pub unique_device_instances : List PointConfig → List ℕ
unfolding sort_ℕ dedup
unique_device_instances points =
    dedup (sort_ℕ (filter_map device_instance (filter is_enabled points)))
