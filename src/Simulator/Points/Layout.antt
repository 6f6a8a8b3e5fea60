-- ===== src/Simulator/Points/Layout.antt =====
-- What `Simulation::update` of crates/sim-core/src/simulation/mod.rs leaves as it is.
use netix_protocol_core.Prelude.{
  ℕ, suc, ◌≡◌, refl, ap, ◌∙◌, List, [], ◌∷◌, map, Option, none, some, All, Option-cases, inl, inr,
}
use netix_protocol_core.Prelude.Eq.{nat_eq, list_eq}
use netix_protocol_core.Prelude.Maps.{HashMap}
use netix_protocol_core.Text.{Text}
use netix_protocol_core.Model.Floats.{Floats, Ordered}
use netix_protocol_core.Model.Neutral.{PointKind}
use netix_protocol_core.Simulator.{PointSpec, DeviceSpec, ok, SimulatorConfig, expand}
use netix_protocol_core.Simulator.Profiles.{ProfileSpec, as_f32}
use netix_protocol_core.Simulator.Profiles.Walking.{
  Gives, IsProper, Tracks, from_spec-Tracks, tick-Tracks,
}
use netix_protocol_core.Simulator.Points.{
  SimulatedPoint, SimulatedDevice, from_point_spec, from_point_specs, from_device_spec,
  from_device_specs, new_simulation, point_kind_from_object_type,
}
use netix_protocol_core.Simulator.Points.Updating.{
  Reading, noted, context, seed_siblings, tick_points, tick_device, update,
}

module _ {F32 : Type 0} where
  -- A point and a device without the current value and the state of its profile.
  abbrev point_layout : SimulatedPoint F32 → Text × PointKind × Text × ℕ × Option Text
  point_layout p = (p.label, p.kind, p.object_type, p.instance_number, p.units)

  abbrev pub device_layout :
      SimulatedDevice F32 → ℕ × Text × List (Text × PointKind × Text × ℕ × Option Text)
  device_layout d = (d.device_id, d.name, map point_layout d.points)

module _ {F32 : Type 0} (fp : Floats F32) where
  -- The profile is in a state that a proper specification reaches.
  abbrev IsReady : SimulatedPoint F32 → Type 0
  IsReady p = (spec : ProfileSpec F32) × IsProper fp spec × Tracks fp spec p.profile

  abbrev AllReady : List (SimulatedDevice F32) → Type 0
  AllReady ds = All (λ d. All IsReady d.points) ds

  abbrev HasProper : DeviceSpec (ProfileSpec F32) → Type 0
  HasProper d = All (λ p. IsProper fp p.profile) d.points

  module _ (o : Ordered fp) where
    tick_points-Ready :
        (draws : ℕ → F32 → F32 → F32) (r : Reading F32) (i : ℕ) (siblings : HashMap Text F32)
        (ps : List (SimulatedPoint F32))
        → All IsReady ps
        → Gives
            (λ qs. (map point_layout qs ≡ map point_layout ps) × All IsReady qs)
            (tick_points fp draws r i siblings ps)
    unfolding tick_points
    tick_points-Ready draws r i siblings [] h = (_, refl, (refl, tt))
    tick_points-Ready draws r i siblings (p ∷ ps) ((spec, proper, tracks), h) =
        let ((profile, value), e, (after, _)) =
          tick-Tracks fp o (draws i) (context fp r siblings) spec p.profile proper tracks in
        let (qs, f, (same, ready)) =
          tick_points-Ready draws r (suc i) (noted fp p.label (as_f32 fp value) siblings) ps h in
        rw (e, f, tick_points)
          (_, refl, (ap (λ l. point_layout p ∷ l) same, ((spec, proper, after), ready)))

    update-Ready :
        (draws : ℕ → ℕ → F32 → F32 → F32) (r : Reading F32) (i : ℕ)
        (ds : List (SimulatedDevice F32))
        → AllReady ds
        → Gives
            (λ es. (map device_layout es ≡ map device_layout ds) × AllReady es)
            (update fp draws r i ds)
    unfolding update tick_device
    update-Ready draws r i [] h = (_, refl, (refl, tt))
    update-Ready draws r i (d ∷ ds) (mine, h) =
        let (ps, e, (same, ready)) =
          tick_points-Ready (draws i) r 0 (seed_siblings fp d.points []) d.points mine in
        let (es, f, (others, kept)) = update-Ready draws r (suc i) ds h in
        rw (e, f, update, tick_device)
          (_, refl, (rw (same) (ap (λ l. device_layout d ∷ l) others), (ready, kept)))

    from_point_specs-Ready :
        (specs : List (PointSpec (ProfileSpec F32)))
        → All (λ p. IsProper fp p.profile) specs
        → Gives (All IsReady) (from_point_specs fp specs)
    unfolding from_point_specs from_point_spec
    from_point_specs-Ready [] h = (_, refl, tt)
    from_point_specs-Ready (spec ∷ specs) (proper, h) =
        let (ps, f, ready) = from_point_specs-Ready specs h in
        let (t, e, tracks) = from_spec-Tracks fp o spec.profile proper in
        elim (Option-cases (point_kind_from_object_type spec.object_type)) [
          | inl skipped ↦ rw (skipped, f, from_point_specs) (_, refl, ready)
          | inr (kind, k) ↦
              rw (k, e, f, from_point_specs) (_, refl, ((spec.profile, proper, tracks), ready))
        ]

    from_device_specs-Ready :
        (specs : List (DeviceSpec (ProfileSpec F32)))
        → All HasProper specs
        → Gives AllReady (from_device_specs fp specs)
    unfolding from_device_specs from_device_spec
    from_device_specs-Ready [] h = (_, refl, tt)
    from_device_specs-Ready (spec ∷ specs) (proper, h) =
        let (ps, e, mine) = from_point_specs-Ready spec.points proper in
        let (ds, f, ready) = from_device_specs-Ready specs h in
        rw (e, f, from_device_specs) (_, refl, (mine, ready))

  -- Updates in order, each with its draws and its reading.
  abbrev pub updates :
      List ((ℕ → ℕ → F32 → F32 → F32) × Reading F32)
      → List (SimulatedDevice F32)
      → Option (List (SimulatedDevice F32))
  updates [] ds = some ds
  updates ((draws, r) ∷ rs) ds = elim (update fp draws r 0 ds) [
    | none ↦ none
    | some es ↦ updates rs es
  ]

  updates-Ready :
      Ordered fp
      → (rs : List ((ℕ → ℕ → F32 → F32 → F32) × Reading F32)) (ds : List (SimulatedDevice F32))
      → AllReady ds
      → Gives (λ es. map device_layout es ≡ map device_layout ds) (updates rs ds)
  updates-Ready o [] ds h = (_, refl, refl)
  updates-Ready o ((draws, r) ∷ rs) ds h =
      let (es, e, (same, ready)) = update-Ready o draws r 0 ds h in
      let (fs, f, more) = updates-Ready o rs es ready in rw (e, f, updates) (_, refl, more ∙ same)

-- Where no profile of the expanded configuration has the bounds of a `clamp` in the wrong order, nor an
-- empty or an overflowing range to draw from, the simulation is built and updated any number of times
-- without a panic, and the ids and names of its devices and the labels, kinds, types, instances and
-- units of their points stay as they were built.
pub new_simulation-updates :
    {F32 : Type 0} (fp : Floats F32)
    → Ordered fp
    → (config : SimulatorConfig (ProfileSpec F32)) (specs : List (DeviceSpec (ProfileSpec F32)))
      (rs : List ((ℕ → ℕ → F32 → F32 → F32) × Reading F32))
    → expand config ≡ ok specs
    → All (HasProper fp) specs
    → (ds : List (SimulatedDevice F32)) × (new_simulation fp config ≡ ok (some ds))
      × Gives (λ es. map device_layout es ≡ map device_layout ds) (updates fp rs ds)
new_simulation-updates fp o config specs rs e h =
    let (ds, f, ready) = from_device_specs-Ready fp o specs h in
    (ds, unfold new_simulation in (rw (e, f) refl), updates-Ready fp o rs ds ready)
