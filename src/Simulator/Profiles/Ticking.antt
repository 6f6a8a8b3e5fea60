-- ===== src/Simulator/Profiles/Ticking.antt =====
-- `ProfileState::tick` of crates/sim-core/src/simulation/profiles.rs: the next state and value.
use netix_protocol_core.Prelude.{
  ℕ, ◌+◌, ◌%◌, not, ◌&&◌, List, Option, none, some, get_elem?, is_empty, length, unwrap_or,
  if◌then◌else◌,
}
use netix_protocol_core.Prelude.Eq.{nat_eq, list_eq}
use netix_protocol_core.Prelude.Maps.{get}
use netix_protocol_core.Text.{lit}
use netix_protocol_core.Model.{Float}
use netix_protocol_core.Model.Floats.{Floats}
use netix_protocol_core.Simulator.Profiles.{
  PointValue, ProfileState, TickCtx, clamp, gen_range, sample_noise,
}

module _ {F32 : Type 0} (fp : Floats F32) where
  -- The states after a tick that stores a number, where one was computed.
  abbrev Ticked : Type 0
  Ticked = ProfileState F32 × PointValue F32

  abbrev real_of : ProfileState F32 → Option F32 → Option Ticked
  real_of state none = none
  real_of state (some v) = some (state, PointValue.real v)

  abbrev controlled : F32 → F32 → F32 → F32 → Option F32 → Option Ticked
  controlled setpoint gain outside_influence noise none = none
  controlled setpoint gain outside_influence noise (some v) =
      some (ProfileState.temp_control setpoint gain outside_influence noise v, PointValue.real v)

  abbrev walked : F32 → F32 → F32 → Option F32 → Option Ticked
  walked step lo hi none = none
  walked step lo hi (some v) = some (ProfileState.random_walk step lo hi v, PointValue.real v)

  -- `current + delta`, where a delta was drawn
  abbrev moved : F32 → Option F32 → Option F32
  moved current none = none
  moved current (some delta) = some (fp.add32 current delta)

  abbrev pub clamped : F32 → F32 → Option F32 → Option F32
  clamped lo hi none = none
  clamped lo hi (some v) = clamp fp v lo hi

  abbrev sine_value : F32 → F32 → F32 → F32 → Float → F32
  sine_value base amplitude period_secs phase_secs now_secs =
      let omega = fp.div64 fp.tau (fp.max64 (fp.widen period_secs) (fp.nat64 1)) in
      let at = fp.mul64 omega (fp.add64 now_secs (fp.widen phase_secs)) in
      fp.narrow (fp.add64 (fp.widen base) (fp.mul64 (fp.widen amplitude) (fp.sin64 at)))

  -- The step of the controller towards its target, without the noise.
  abbrev control_step : F32 → F32 → F32 → F32 → TickCtx F32 → F32
  control_step setpoint gain outside_influence current ctx =
      let target =
        fp.add32 setpoint (fp.mul32 outside_influence (fp.sub32 ctx.outside_temp setpoint)) in
      let target = fp.add32 target (fp.mul32 ctx.occupancy (fp.literal32 (lit "0.5"))) in
      let diff = fp.sub32 target current in
      fp.mul32 (fp.mul32 diff gain) (fp.max32 ctx.dt (fp.literal32 (lit "0.001")))

  abbrev pub advanced : List ℕ → F32 → ℕ → F32 → Ticked
  advanced states change_every_secs idx elapsed = (
    ProfileState.multi_state states change_every_secs idx elapsed,
    PointValue.unsigned (unwrap_or (get_elem? states idx) 1),
  )

  abbrev ramp_value : F32 → F32 → F32 → Float → F32
  ramp_value start end period_secs now_secs =
      let p = fp.max64 (fp.widen period_secs) (fp.nat64 1) in
      let frac = fp.narrow (fp.div64 (fp.rem64 now_secs p) p) in
      fp.add32 start (fp.mul32 (fp.sub32 end start) frac)

  unfoldable pub tick : (F32 → F32 → F32) → TickCtx F32 → ProfileState F32 → Option Ticked
  unfolding sample_noise gen_range clamp
  tick draw ctx (ProfileState.constant v) = some (ProfileState.constant v, PointValue.real v)
  tick draw ctx (ProfileState.constant_bool b) =
      some (ProfileState.constant_bool b, PointValue.boolean b)
  tick draw ctx (ProfileState.constant_state u) =
      some (ProfileState.constant_state u, PointValue.unsigned u)
  tick draw ctx (ProfileState.sine base amplitude period_secs phase_secs) = some (
    ProfileState.sine base amplitude period_secs phase_secs,
    PointValue.real (sine_value base amplitude period_secs phase_secs ctx.now_secs),
  )
  tick draw ctx (ProfileState.occupancy_linked base peak_delta noise) =
      real_of (ProfileState.occupancy_linked base peak_delta noise)
        (moved (fp.add32 base (fp.mul32 peak_delta ctx.occupancy)) (sample_noise fp draw noise))
  tick draw ctx (ProfileState.temp_control setpoint gain outside_influence noise current) =
      let step = control_step setpoint gain outside_influence current ctx in
      let noisy = moved step (sample_noise fp draw noise) in
      controlled setpoint gain outside_influence noise
        (elim noisy [ none ↦ none | some change ↦ some (fp.add32 current change) ])
  tick draw ctx (ProfileState.integrator rate_source scale accumulator) =
      let rate = unwrap_or (get rate_source ctx.siblings) (fp.nat32 0) in
      let total = fp.add32 accumulator (fp.mul32 (fp.mul32 rate ctx.dt) scale) in
      some (ProfileState.integrator rate_source scale total, PointValue.real total)
  tick draw ctx (ProfileState.random_walk step lo hi current) =
      walked step lo hi (clamped lo hi (moved current (gen_range fp draw (fp.neg32 step) step)))
  tick draw ctx (ProfileState.binary_schedule threshold) =
      some (
        ProfileState.binary_schedule threshold,
        PointValue.boolean (fp.lt32 threshold ctx.occupancy),
      )
  tick draw ctx (ProfileState.multi_state states change_every_secs idx elapsed) =
      let elapsed = fp.add32 elapsed ctx.dt in
      let next = (idx + 1) % length states in
      some (
        if fp.le32 change_every_secs elapsed && not (is_empty states)
        then advanced states change_every_secs next (fp.nat32 0)
        else advanced states change_every_secs idx elapsed)
  tick draw ctx (ProfileState.ramp start end period_secs) = some (
    ProfileState.ramp start end period_secs,
    PointValue.real (ramp_value start end period_secs ctx.now_secs),
  )
  tick draw ctx (ProfileState.derived_constant from) = some (
    ProfileState.derived_constant from,
    PointValue.real (unwrap_or (get from ctx.siblings) (fp.nat32 0)),
  )
