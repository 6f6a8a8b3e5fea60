-- ===== src/Simulator/Points/Updating.antt =====
-- `SimulatedDevice::tick` of crates/sim-core/src/simulation/models.rs and `Simulation::update` of mod.rs.
use netix_protocol_core.Prelude.{ℕ, suc, List, [], ◌∷◌, Option, none, some}
use netix_protocol_core.Prelude.Eq.{nat_eq, list_eq}
use netix_protocol_core.Prelude.Maps.{HashMap, insert}
use netix_protocol_core.Text.{Text}
use netix_protocol_core.Model.{Float}
use netix_protocol_core.Model.Floats.{Floats}
use netix_protocol_core.Simulator.Profiles.{TickCtx, as_f32}
use netix_protocol_core.Simulator.Profiles.Ticking.{tick}
use netix_protocol_core.Simulator.Points.{SimulatedPoint, SimulatedDevice}

-- What one update reads from the clock and the seasonality engine.
pub record Reading (F32 : Type 0) : Type 0 where
  pub dt : F32
  pub now_secs : Float
  pub occupancy : F32
  pub outside_temp : F32

module _ {F32 : Type 0} (fp : Floats F32) where
  abbrev pub noted : Text → Option F32 → HashMap Text F32 → HashMap Text F32
  noted label none siblings = siblings
  noted label (some v) siblings = insert label v siblings

  unfoldable pub seed_siblings : List (SimulatedPoint F32) → HashMap Text F32 → HashMap Text F32
  unfolding as_f32
  seed_siblings [] siblings = siblings
  seed_siblings (p ∷ ps) siblings = seed_siblings ps (noted p.label (as_f32 fp p.value) siblings)

  abbrev pub context : Reading F32 → HashMap Text F32 → TickCtx F32
  context r siblings = record {
    dt = r.dt;
    now_secs = r.now_secs;
    occupancy = r.occupancy;
    outside_temp = r.outside_temp;
    siblings = siblings;
  }

  -- The loop over the points; `draws i` is what the generator returns to the point at `i`.
  unfoldable pub tick_points :
      (ℕ → F32 → F32 → F32)
      → Reading F32
      → ℕ
      → HashMap Text F32
      → List (SimulatedPoint F32)
      → Option (List (SimulatedPoint F32))
  unfolding tick as_f32
  tick_points draws r i siblings [] = some []
  tick_points draws r i siblings (p ∷ ps) =
      elim (tick fp (draws i) (context r siblings) p.profile) [
        | none ↦ none
        | some (profile, value) ↦
            elim (tick_points draws r (suc i) (noted p.label (as_f32 fp value) siblings) ps) [
              | none ↦ none
              | some qs ↦ some (record p { value = value; profile = profile } ∷ qs)
            ]
      ]

  -- `SimulatedDevice::tick`
  unfoldable pub tick_device :
      (ℕ → F32 → F32 → F32) → Reading F32 → SimulatedDevice F32 → Option (SimulatedDevice F32)
  unfolding tick_points seed_siblings
  tick_device draws r d = elim (tick_points draws r 0 (seed_siblings d.points []) d.points) [
    | none ↦ none
    | some ps ↦ some (record d { points = ps })
  ]

  -- `Simulation::update`, with the draws of each device
  unfoldable pub update :
      (ℕ → ℕ → F32 → F32 → F32)
      → Reading F32
      → ℕ
      → List (SimulatedDevice F32)
      → Option (List (SimulatedDevice F32))
  unfolding tick_device
  update draws r i [] = some []
  update draws r i (d ∷ ds) = elim (tick_device (draws i) r d) [
    | none ↦ none
    | some e ↦ elim (update draws r (suc i) ds) [ none ↦ none | some es ↦ some (e ∷ es) ]
  ]
