-- ===== src/Simulator/Points/Lookup.antt =====
-- `Simulation::neutral_value` of crates/sim-core/src/simulation/mod.rs: the point whose value it gives.
use netix_protocol_core.Prelude.{
  ℕ, ◌≡◌, ◌≢◌, refl, ap, ◌∙◌, inl, inr, false, true, ◌&&◌, List, [], ◌∷◌, ◌++◌, some, All, arith,
  ◌==◌, ==_iff, Bool-cases,
}
use netix_protocol_core.Prelude.Eq.{beq, beq_iff, nat_eq, list_eq}
use netix_protocol_core.Text.{Text, trim}
use netix_protocol_core.Model.Floats.{Floats}
use netix_protocol_core.Simulator.Points.{
  SimulatedPoint, SimulatedDevice, to_ascii_lowercase, find_in, find_point, find_device,
  point_value, neutral_value,
}

-- The simulation has the value at this moment: in its first device of the id, the first point of the
-- object type and number is this one.
pub record Holds {F32 : Type 0} (sim : List (SimulatedDevice F32)) (id : ℕ) (object_type : Text)
    (n : ℕ) (q : SimulatedPoint F32) : Type 0 where
  pub earlier : List (SimulatedDevice F32)
  pub device : SimulatedDevice F32
  pub later : List (SimulatedDevice F32)
  pub firsts : List (SimulatedPoint F32)
  pub rest : List (SimulatedPoint F32)
  pub devices : sim ≡ earlier ++ device ∷ later
  pub other_ids : All (λ d. d.device_id ≢ id) earlier
  pub its_id : device.device_id ≡ id
  pub points : device.points ≡ firsts ++ q ∷ rest
  pub other_points : All (λ p. ¬ ((p.object_type ≡ object_type) × (p.instance_number ≡ n))) firsts
  pub its_type : q.object_type ≡ object_type
  pub its_number : q.instance_number ≡ n

module _ {F32 : Type 0} (fp : Floats F32) where
  find_device-first :
      (id : ℕ) (earlier later : List (SimulatedDevice F32)) (d : SimulatedDevice F32)
      → All (λ e. e.device_id ≢ id) earlier
      → d.device_id ≡ id
      → find_device fp id (earlier ++ d ∷ later) ≡ some d
  find_device-first id [] later d a e = rw (e) (ground arith)
  find_device-first id (x ∷ earlier) later d (other, a) e =
      let differs : (x.device_id == id) ≡ false = ground (arith, ==_iff x.device_id id) in
      rw (differs) (find_device-first id earlier later d a e)

  find_in-first :
      (t : Text) (n : ℕ) (firsts rest : List (SimulatedPoint F32)) (q : SimulatedPoint F32)
      → All (λ p. ¬ ((p.object_type ≡ t) × (p.instance_number ≡ n))) firsts
      → q.object_type ≡ t
      → q.instance_number ≡ n
      → find_in fp t n (firsts ++ q ∷ rest) ≡ some q
  find_in-first t n [] rest q a e f =
      let same : beq q.object_type t ≡ true = (beq_iff q.object_type t).1 e in
      let number : (q.instance_number == n) ≡ true = (==_iff q.instance_number n).1 f in
      rw (same, number) refl
  find_in-first t n (p ∷ firsts) rest q (other, a) e f =
      let differs : (beq p.object_type t && p.instance_number == n) ≡ false =
        elim (Bool-cases (beq p.object_type t && p.instance_number == n)) [
          | inl both ↦ absurd (
              other (
                (beq_iff p.object_type t).0 (ground (arith, both)),
                (==_iff p.instance_number n).0 (ground (arith, both)),
              ))
          | inr unequal ↦ unequal
        ] in
      rw (differs) (find_in-first t n firsts rest q a e f)

  pub neutral_value-Holds :
      (sim : List (SimulatedDevice F32)) (id : ℕ) (t : Text) (n : ℕ) (q : SimulatedPoint F32)
      → Holds sim id t n q
      → to_ascii_lowercase (trim t) ≡ t
      → neutral_value fp sim id t n ≡ some (point_value fp q.value)
  unfolding neutral_value find_point
  neutral_value-Holds sim id t n q h lower =
      let found : find_device fp id sim ≡ some h.device =
        ap (find_device fp id) h.devices
        ∙ find_device-first id h.earlier h.later h.device h.other_ids h.its_id in
      let at_point : find_in fp (to_ascii_lowercase (trim t)) n h.device.points ≡ some q =
        rw (lower, h.points)
          (find_in-first t n h.firsts h.rest q h.other_points h.its_type h.its_number) in
      rw (found, neutral_value, at_point, find_point) refl
