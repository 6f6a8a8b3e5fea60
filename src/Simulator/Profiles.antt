-- ===== src/Simulator/Profiles.antt =====
-- crates/sim-core/src/simulation/profiles.rs: the signal profiles. A panic of the code (a `clamp`
-- whose bounds are in the wrong order, or a `gen_range` of an empty or an overflowing range) is `none`. `draw lo hi` is what `rng.gen_range(lo..hi)`
-- returns; a tick draws at most once.
pub mod Ticking
pub mod Walking
pub mod Runs
use netix_protocol_core.Prelude.{
  ℕ, suc, ◌+◌, ◌%◌, Bool, true, false, not, ◌&&◌, List, Option, none, some, get_elem?, is_empty,
  length, unwrap_or, if◌then◌else◌,
}
use netix_protocol_core.Prelude.Eq.{nat_eq, list_eq}
use netix_protocol_core.Prelude.Maps.{HashMap, get}
use netix_protocol_core.Text.{Text, lit}
use netix_protocol_core.Model.{Float}
use netix_protocol_core.Model.Floats.{Floats}

pub data PointValue (F32 : Type 0) : Type 0 where
  real : F32 → PointValue F32
  boolean : Bool → PointValue F32
  unsigned : ℕ → PointValue F32

-- The fields stand in the order of the source.
pub data ProfileSpec (F32 : Type 0) : Type 0 where
  constant : F32 → ProfileSpec F32
  sine : F32 → F32 → F32 → F32 → ProfileSpec F32
  occupancy_linked : F32 → F32 → F32 → ProfileSpec F32
  temp_control : F32 → F32 → F32 → F32 → Option F32 → ProfileSpec F32
  integrator : Text → F32 → ProfileSpec F32
  random_walk : F32 → F32 → F32 → F32 → ProfileSpec F32
  binary_schedule : F32 → ProfileSpec F32
  multi_state : List ℕ → F32 → ProfileSpec F32
  ramp : F32 → F32 → F32 → ProfileSpec F32
  derived_constant : Text → ProfileSpec F32
  constant_bool : Bool → ProfileSpec F32
  constant_state : ℕ → ProfileSpec F32

pub data ProfileState (F32 : Type 0) : Type 0 where
  constant : F32 → ProfileState F32
  constant_bool : Bool → ProfileState F32
  constant_state : ℕ → ProfileState F32
  sine : F32 → F32 → F32 → F32 → ProfileState F32
  occupancy_linked : F32 → F32 → F32 → ProfileState F32
  temp_control : F32 → F32 → F32 → F32 → F32 → ProfileState F32
  integrator : Text → F32 → F32 → ProfileState F32
  random_walk : F32 → F32 → F32 → F32 → ProfileState F32
  binary_schedule : F32 → ProfileState F32
  multi_state : List ℕ → F32 → ℕ → F32 → ProfileState F32
  ramp : F32 → F32 → F32 → ProfileState F32
  derived_constant : Text → ProfileState F32

pub record TickCtx (F32 : Type 0) : Type 0 where
  pub dt : F32
  pub now_secs : Float
  pub occupancy : F32
  pub outside_temp : F32
  pub siblings : HashMap Text F32

module _ {F32 : Type 0} (fp : Floats F32) where
  -- `PointValue::as_f32`
  unfoldable pub as_f32 : PointValue F32 → Option F32
  as_f32 (PointValue.real v) = some v
  as_f32 (PointValue.boolean b) = some (if b then fp.nat32 1 else fp.nat32 0)
  as_f32 (PointValue.unsigned u) = some (fp.nat32 u)

  -- `v.clamp(lo, hi)`
  unfoldable pub clamp : F32 → F32 → F32 → Option F32
  clamp v lo hi =
      let raised = if fp.lt32 v lo then lo else v in
      let kept = if fp.lt32 hi raised then hi else raised in
      if fp.le32 lo hi then some kept else none

  -- `rng.gen_range(lo..hi)`: `rand` panics on an empty range, and on one whose width overflows
  unfoldable pub gen_range : (F32 → F32 → F32) → F32 → F32 → Option F32
  gen_range draw lo hi =
      if fp.lt32 lo hi && fp.is_finite32 (fp.sub32 hi lo) then some (draw lo hi) else none

  unfoldable pub sample_noise : (F32 → F32 → F32) → F32 → Option F32
  unfolding gen_range
  sample_noise draw noise =
      let sampled = gen_range draw (fp.neg32 noise) noise in
      if fp.lt32 (fp.nat32 0) noise then sampled else some (fp.nat32 0)

  abbrev walk_of : F32 → F32 → F32 → Option F32 → Option (ProfileState F32)
  walk_of step lo hi none = none
  walk_of step lo hi (some current) = some (ProfileState.random_walk step lo hi current)

  -- `ProfileState::from_spec`
  unfoldable pub from_spec : ProfileSpec F32 → Option (ProfileState F32)
  unfolding clamp
  from_spec (ProfileSpec.constant value) = some (ProfileState.constant value)
  from_spec (ProfileSpec.constant_bool value) = some (ProfileState.constant_bool value)
  from_spec (ProfileSpec.constant_state value) = some (ProfileState.constant_state value)
  from_spec (ProfileSpec.sine base amplitude period_secs phase_secs) =
      some (ProfileState.sine base amplitude period_secs phase_secs)
  from_spec (ProfileSpec.occupancy_linked base peak_delta noise) =
      some (ProfileState.occupancy_linked base peak_delta noise)
  from_spec (ProfileSpec.temp_control setpoint gain outside_influence noise initial) =
      some (
        ProfileState.temp_control setpoint gain outside_influence noise
          (unwrap_or initial setpoint))
  from_spec (ProfileSpec.integrator rate_source scale) =
      some (ProfileState.integrator rate_source scale (fp.nat32 0))
  from_spec (ProfileSpec.random_walk base step lo hi) = walk_of step lo hi (clamp base lo hi)
  from_spec (ProfileSpec.binary_schedule threshold) = some (ProfileState.binary_schedule threshold)
  from_spec (ProfileSpec.multi_state states change_every_secs) =
      some (ProfileState.multi_state states change_every_secs 0 (fp.nat32 0))
  from_spec (ProfileSpec.ramp start end period_secs) =
      some (ProfileState.ramp start end period_secs)
  from_spec (ProfileSpec.derived_constant from) = some (ProfileState.derived_constant from)

  -- `ProfileState::initial_value`
  unfoldable pub initial_value : ProfileState F32 → PointValue F32
  initial_value (ProfileState.constant v) = PointValue.real v
  initial_value (ProfileState.constant_bool b) = PointValue.boolean b
  initial_value (ProfileState.constant_state u) = PointValue.unsigned u
  initial_value (ProfileState.sine base a p q) = PointValue.real base
  initial_value (ProfileState.occupancy_linked base d n) = PointValue.real base
  initial_value (ProfileState.temp_control s g o n current) = PointValue.real current
  initial_value (ProfileState.integrator r s accumulator) = PointValue.real accumulator
  initial_value (ProfileState.random_walk s lo hi current) = PointValue.real current
  initial_value (ProfileState.binary_schedule t) = PointValue.boolean false
  initial_value (ProfileState.multi_state states c i e) =
      PointValue.unsigned (unwrap_or (get_elem? states 0) 1)
  initial_value (ProfileState.ramp start e p) = PointValue.real start
  initial_value (ProfileState.derived_constant from) = PointValue.real (fp.nat32 0)
