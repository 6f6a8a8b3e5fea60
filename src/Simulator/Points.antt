-- ===== src/Simulator/Points.antt =====
-- crates/sim-core/src/simulation/models.rs and mod.rs: the simulated points and devices. The readings
-- that `update` takes from the clock and the seasonality engine are its arguments.
pub mod Updating
pub mod Lookup
pub mod Layout
use netix_protocol_core.Prelude.{
  ℕ, ◌+◌, ◌-◌, Bool, true, false, ◌&&◌, ◌||◌, List, [], ◌∷◌, map, Option, none, some, leb, length,
  if◌then◌else◌, ◌==◌,
}
use netix_protocol_core.Prelude.Eq.{beq, nat_eq, list_eq}
use netix_protocol_core.Prelude.Maps.{HashMap, insert}
use netix_protocol_core.Text.{Text, lit, trim}
use netix_protocol_core.Model.{Float}
use netix_protocol_core.Model.Floats.{Floats}
use netix_protocol_core.Model.Neutral.{PointKind}
use netix_protocol_core.Model.Neutral
use netix_protocol_core.Simulator.{
  PointSpec, DeviceSpec, Expanded, ok, err, SimulatorConfig, expand,
}
use netix_protocol_core.Simulator.Profiles.{
  PointValue, ProfileSpec, ProfileState, TickCtx, as_f32, from_spec, initial_value,
}
use netix_protocol_core.Simulator.Profiles.Ticking.{tick}

-- `to_ascii_lowercase()`
unfoldable pub lower_char : ℕ → ℕ
lower_char c = if leb b'A' c && leb c b'Z' then c + 32 else c

unfoldable pub to_ascii_lowercase : Text → Text
unfolding lower_char
to_ascii_lowercase s = map lower_char s

abbrev is_one_of : Text → Text → Text → Text → Bool
is_one_of t a b c = beq t a || (beq t b || beq t c)

abbrev kind_of : Text → Option PointKind
kind_of t =
    if is_one_of t (lit "analog_input") (lit "analog_output") (lit "analog_value")
    then some PointKind.analog
    else if is_one_of t (lit "binary_input") (lit "binary_output") (lit "binary_value")
    then some PointKind.binary
    else if is_one_of t (lit "multi_state_input") (lit "multi_state_output")
        (lit "multi_state_value")
    then some PointKind.multi_state
    else none

unfoldable pub point_kind_from_object_type : Text → Option PointKind
unfolding to_ascii_lowercase trim
point_kind_from_object_type value = kind_of (to_ascii_lowercase (trim value))

pub record SimulatedPoint (F32 : Type 0) : Type 0 where
  pub label : Text
  pub kind : PointKind
  pub object_type : Text
  pub instance_number : ℕ
  pub units : Option Text
  pub value : PointValue F32
  pub profile : ProfileState F32

pub record SimulatedDevice (F32 : Type 0) : Type 0 where
  pub device_id : ℕ
  pub name : Text
  pub points : List (SimulatedPoint F32)

module _ {F32 : Type 0} (fp : Floats F32) where
  abbrev new_point : PointSpec (ProfileSpec F32) → PointKind → ProfileState F32 → SimulatedPoint F32
  new_point spec kind profile = record {
    label = spec.label;
    kind = kind;
    object_type = to_ascii_lowercase (trim spec.object_type);
    instance_number = spec.instance_number;
    units = spec.units;
    value = initial_value fp profile;
    profile = profile;
  }

  -- `SimulatedPoint::from_spec`: no point for an unknown type, and `none` where the profile panics
  unfoldable pub from_point_spec :
      PointSpec (ProfileSpec F32) → Option (Option (SimulatedPoint F32))
  unfolding point_kind_from_object_type to_ascii_lowercase trim
  from_point_spec spec = elim (point_kind_from_object_type spec.object_type) [
    | none ↦ some none
    | some kind ↦ elim (from_spec fp spec.profile) [
      | none ↦ none
      | some profile ↦ some (some (new_point spec kind profile))
    ]
  ]

  abbrev pub keep :
      Option (SimulatedPoint F32) → List (SimulatedPoint F32) → List (SimulatedPoint F32)
  keep none points = points
  keep (some p) points = p ∷ points

  -- The points of a device: `filter_map(SimulatedPoint::from_spec)`
  unfoldable pub from_point_specs :
      List (PointSpec (ProfileSpec F32)) → Option (List (SimulatedPoint F32))
  unfolding from_point_spec
  from_point_specs [] = some []
  from_point_specs (spec ∷ specs) = elim (from_point_spec spec) [
    | none ↦ none
    | some p ↦ elim (from_point_specs specs) [ none ↦ none | some ps ↦ some (keep p ps) ]
  ]

  -- `SimulatedDevice::from_spec`
  unfoldable pub from_device_spec : DeviceSpec (ProfileSpec F32) → Option (SimulatedDevice F32)
  unfolding from_point_specs
  from_device_spec spec = elim (from_point_specs spec.points) [
    | none ↦ none
    | some ps ↦ some (record { device_id = spec.device_id; name = spec.name; points = ps })
  ]

  unfoldable pub from_device_specs :
      List (DeviceSpec (ProfileSpec F32)) → Option (List (SimulatedDevice F32))
  unfolding from_device_spec
  from_device_specs [] = some []
  from_device_specs (spec ∷ specs) = elim (from_device_spec spec) [
    | none ↦ none
    | some d ↦ elim (from_device_specs specs) [ none ↦ none | some ds ↦ some (d ∷ ds) ]
  ]

  abbrev built_from :
      Expanded (List (DeviceSpec (ProfileSpec F32)))
      → Expanded (Option (List (SimulatedDevice F32)))
  built_from (ok specs) = ok (from_device_specs specs)
  built_from (err e) = err e

  -- `Simulation::new`: its devices
  unfoldable pub new_simulation :
      SimulatorConfig (ProfileSpec F32) → Expanded (Option (List (SimulatedDevice F32)))
  unfolding from_device_specs expand
  new_simulation config = built_from (expand config)

  -- `SimulatedPoint::neutral_value`
  unfoldable pub point_value : PointValue F32 → Neutral.PointValue
  point_value (PointValue.real v) = Neutral.PointValue.float (fp.widen v)
  point_value (PointValue.boolean b) = Neutral.PointValue.bool b
  point_value (PointValue.unsigned u) = Neutral.PointValue.uint u

  abbrev pub find_in : Text → ℕ → List (SimulatedPoint F32) → Option (SimulatedPoint F32)
  find_in needle n [] = none
  find_in needle n (p ∷ ps) =
      let rest = find_in needle n ps in
      if beq p.object_type needle && p.instance_number == n then some p else rest

  -- `SimulatedDevice::find_point`
  unfoldable pub find_point : SimulatedDevice F32 → Text → ℕ → Option (SimulatedPoint F32)
  unfolding to_ascii_lowercase trim
  find_point device object_type n = find_in (to_ascii_lowercase (trim object_type)) n device.points

  abbrev pub find_device : ℕ → List (SimulatedDevice F32) → Option (SimulatedDevice F32)
  find_device id [] = none
  find_device id (d ∷ ds) =
      let rest = find_device id ds in if d.device_id == id then some d else rest

  abbrev value_of : Option (SimulatedPoint F32) → Option Neutral.PointValue
  value_of none = none
  value_of (some p) = some (point_value p.value)

  -- `Simulation::neutral_value`
  unfoldable pub neutral_value :
      List (SimulatedDevice F32) → ℕ → Text → ℕ → Option Neutral.PointValue
  unfolding find_point point_value
  neutral_value devices device_id object_type n = elim (find_device device_id devices) [
    | none ↦ none
    | some device ↦ value_of (find_point device object_type n)
  ]

  -- `Simulation::total_points`
  unfoldable total_points : List (SimulatedDevice F32) → ℕ
  total_points [] = 0
  total_points (d ∷ ds) = length d.points + total_points ds
