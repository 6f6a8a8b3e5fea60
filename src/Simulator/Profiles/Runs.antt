-- ===== src/Simulator/Profiles/Runs.antt =====
-- Runs of the profiles of crates/sim-core/src/simulation/profiles.rs: any number of ticks.
use netix_protocol_core.Prelude.{refl, List, [], ◌∷◌, Option, none, some}
use netix_protocol_core.Model.Floats.{Floats, Ordered}
use netix_protocol_core.Simulator.Profiles.{
  PointValue, ProfileSpec, ProfileState, TickCtx, from_spec, initial_value,
}
use netix_protocol_core.Simulator.Profiles.Ticking.{tick}
use netix_protocol_core.Simulator.Profiles.Walking.{
  Gives, Keeps, IsProper, Tracks, from_spec-Tracks, initial_value-Keeps, tick-Tracks,
}

module _ {F32 : Type 0} (fp : Floats F32) where
  -- Ticks in order, each with its draw and its context.
  abbrev pub ticks :
      List ((F32 → F32 → F32) × TickCtx F32)
      → ProfileState F32
      → PointValue F32
      → Option (ProfileState F32 × PointValue F32)
  ticks [] t w = some (t, w)
  ticks ((draw, ctx) ∷ rs) t w = elim (tick fp draw ctx t) [
    | none ↦ none
    | some (u, x) ↦ ticks rs u x
  ]

  ticks-Keeps :
      Ordered fp
      → (rs : List ((F32 → F32 → F32) × TickCtx F32)) (spec : ProfileSpec F32)
        (t : ProfileState F32) (w : PointValue F32)
      → IsProper fp spec
      → Tracks fp spec t
      → Keeps fp spec w
      → Gives (λ p. Keeps fp spec p.1) (ticks rs t w)
  ticks-Keeps o [] spec t w p h k = (_, refl, k)
  ticks-Keeps o ((draw, ctx) ∷ rs) spec t w p h k =
      let ((u, x), e, (tracks, keeps)) = tick-Tracks fp o draw ctx spec t p h in
      rw (e, ticks) (ticks-Keeps o rs spec u x p tracks keeps)

-- Where the bounds of a `clamp` are in order, and a range to draw from is not empty and its width does
-- not overflow, a profile is built and ticks any number of times without a panic. From the initial
-- value on each value is one of the profile's: that of a random walk is never below its lower bound nor
-- above its upper one (a NaN is neither), a multi-state shows one of its states (1 if it has none), a
-- constant its value, and the others keep their kind.
pub from_spec-ticks :
    {F32 : Type 0} (fp : Floats F32)
    → Ordered fp
    → (spec : ProfileSpec F32) (rs : List ((F32 → F32 → F32) × TickCtx F32)) → IsProper fp spec
    → Gives
        (λ t.
          Keeps fp spec (initial_value fp t)
          × Gives (λ p. Keeps fp spec p.1) (ticks fp rs t (initial_value fp t)))
        (from_spec fp spec)
from_spec-ticks fp o spec rs p =
    let (t, e, tracks) = from_spec-Tracks fp o spec p in
    let keeps = initial_value-Keeps fp spec t tracks in
    (t, e, (keeps, ticks-Keeps fp o rs spec t (initial_value fp t) p tracks keeps))
