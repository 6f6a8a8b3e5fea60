-- ===== src/Simulator/Profiles/Walking.antt =====
-- The states that crates/sim-core/src/simulation/profiles.rs goes through tick by tick.
use netix_protocol_core.Prelude.{
  ℕ, zero, suc, ◌+◌, ◌%◌, ◌<◌, ◌≡◌, refl, Bool, true, false, not, ◌&&◌, List, [], ◌∷◌, Option, some,
  get_elem?, is_empty, length, arith, any, ◌==◌, Bool-cases, inl, inr, unwrap_or,
}
use netix_protocol_core.Model.Floats.{Floats, Ordered}
use netix_protocol_core.Simulator.Profiles.{
  PointValue, ProfileSpec, ProfileState, TickCtx, clamp, gen_range, sample_noise, from_spec,
  initial_value,
}
use netix_protocol_core.Simulator.Profiles.Ticking.{tick, advanced}

-- The option has a value, and the value the property.
abbrev pub Gives {ℓ κ} : {A : Type ℓ} → (A → Type κ) → Option A → Type (ℓ ⊔ κ)
Gives P o = (a : _) × (o ≡ some a) × P a

module _ {F32 : Type 0} (fp : Floats F32) where
  abbrev IsBetween : F32 → F32 → F32 → Type 0
  IsBetween lo hi v = (fp.lt32 v lo ≡ false) × (fp.lt32 hi v ≡ false)

  abbrev IsState : List ℕ → ℕ → Type 0
  IsState [] u = u ≡ 1
  IsState (s ∷ ss) u = any (λ x. x == u) (s ∷ ss) ≡ true

  -- What a profile's values are: a walk is not outside of its bounds, a multi-state shows its states,
  -- a constant its value, and the others keep their kind.
  abbrev pub Keeps : ProfileSpec F32 → PointValue F32 → Type 0
  Keeps (ProfileSpec.constant v) w = w ≡ PointValue.real v
  Keeps (ProfileSpec.constant_bool b) w = w ≡ PointValue.boolean b
  Keeps (ProfileSpec.constant_state u) w = w ≡ PointValue.unsigned u
  Keeps (ProfileSpec.binary_schedule t) w = (b : Bool) × (w ≡ PointValue.boolean b)
  Keeps (ProfileSpec.multi_state states c) w =
      (u : ℕ) × (w ≡ PointValue.unsigned u) × IsState states u
  Keeps (ProfileSpec.random_walk b s lo hi) w =
      (v : F32) × (w ≡ PointValue.real v) × IsBetween lo hi v
  Keeps (ProfileSpec.sine b a p q) w = (v : F32) × (w ≡ PointValue.real v)
  Keeps (ProfileSpec.occupancy_linked b d n) w = (v : F32) × (w ≡ PointValue.real v)
  Keeps (ProfileSpec.temp_control s g o n i) w = (v : F32) × (w ≡ PointValue.real v)
  Keeps (ProfileSpec.integrator r s) w = (v : F32) × (w ≡ PointValue.real v)
  Keeps (ProfileSpec.ramp s e p) w = (v : F32) × (w ≡ PointValue.real v)
  Keeps (ProfileSpec.derived_constant f) w = (v : F32) × (w ≡ PointValue.real v)

  -- The range from `-v` to `v` is not empty, and its width does not overflow.
  abbrev IsRange : F32 → Type 0
  IsRange v = (fp.lt32 (fp.neg32 v) v ≡ true) × (fp.is_finite32 (fp.sub32 v (fp.neg32 v)) ≡ true)

  -- A positive noise is a range to draw from.
  abbrev IsNoise : F32 → Type 0
  IsNoise n = fp.lt32 (fp.nat32 0) n ≡ true → IsRange n

  -- Its bounds are in order, and what it draws from is a range.
  abbrev pub IsProper : ProfileSpec F32 → Type 0
  IsProper (ProfileSpec.random_walk b step lo hi) = (fp.le32 lo hi ≡ true) × IsRange step
  IsProper (ProfileSpec.occupancy_linked b d n) = IsNoise n
  IsProper (ProfileSpec.temp_control s g o n i) = IsNoise n
  IsProper _ = Unit

  -- The state of a profile after any ticks.
  abbrev pub Tracks : ProfileSpec F32 → ProfileState F32 → Type 0
  Tracks (ProfileSpec.constant v) t = t ≡ ProfileState.constant v
  Tracks (ProfileSpec.constant_bool b) t = t ≡ ProfileState.constant_bool b
  Tracks (ProfileSpec.constant_state u) t = t ≡ ProfileState.constant_state u
  Tracks (ProfileSpec.binary_schedule c) t = t ≡ ProfileState.binary_schedule c
  Tracks (ProfileSpec.multi_state states c) t =
      (i : ℕ) × (e : F32) × (t ≡ ProfileState.multi_state states c i e)
      × (is_empty states ≡ false → i < length states)
  Tracks (ProfileSpec.random_walk b step lo hi) t =
      (v : F32) × (t ≡ ProfileState.random_walk step lo hi v) × IsBetween lo hi v
  Tracks (ProfileSpec.sine b a p q) t = t ≡ ProfileState.sine b a p q
  Tracks (ProfileSpec.occupancy_linked b d n) t = t ≡ ProfileState.occupancy_linked b d n
  Tracks (ProfileSpec.temp_control s g o n i) t =
      (v : F32) × (t ≡ ProfileState.temp_control s g o n v)
  Tracks (ProfileSpec.integrator r s) t = (v : F32) × (t ≡ ProfileState.integrator r s v)
  Tracks (ProfileSpec.ramp s e p) t = t ≡ ProfileState.ramp s e p
  Tracks (ProfileSpec.derived_constant f) t = t ≡ ProfileState.derived_constant f

  sample_noise-some :
      (draw : F32 → F32 → F32) (n : F32) → IsNoise n → (v : F32) × (sample_noise fp draw n ≡ some v)
  unfolding sample_noise gen_range
  sample_noise-some draw n h = elim (Bool-cases (fp.lt32 (fp.nat32 0) n)) [
    | inl e ↦ rw (e, (h e).0, (h e).1) (_, refl)
    | inr e ↦ rw (e) (_, refl)
  ]

  clamp-IsBetween :
      Ordered fp
      → (v lo hi : F32) → fp.le32 lo hi ≡ true
      → Gives (IsBetween lo hi) (clamp fp v lo hi)
  unfolding clamp
  clamp-IsBetween o v lo hi h = elim (Bool-cases (fp.lt32 v lo)) [
    | inl a ↦
        rw (a, h, o.le_not_lt lo hi h) (lo, refl, ((o.lt_irrefl lo hi h).0, o.le_not_lt lo hi h))
    | inr a ↦ elim (Bool-cases (fp.lt32 hi v)) [
      | inl b ↦ rw (a, h, b) (hi, refl, (o.le_not_lt lo hi h, (o.lt_irrefl lo hi h).1))
      | inr b ↦ rw (a, h, b) (v, refl, (a, b))
    ]
  ]

  get_elem?-IsState :
      (states : List ℕ) (i : ℕ)
      → (is_empty states ≡ false → i < length states)
      → IsState states (unwrap_or (get_elem? states i) 1)
  get_elem?-IsState [] i h = refl
  get_elem?-IsState (s ∷ ss) i h = get_elem?-any (s ∷ ss) i (h refl)
    where
      get_elem?-any :
          (ss : List ℕ) (i : ℕ)
          → i < length ss
          → any (λ x. x == unwrap_or (get_elem? ss i) 1) ss ≡ true
      get_elem?-any [] i h = ground (arith, h)
      get_elem?-any (s ∷ ss) zero h = ground arith
      get_elem?-any (s ∷ ss) (suc i) h = ground (arith, get_elem?-any ss i (omega (arith, h)))

  pub from_spec-Tracks :
      Ordered fp
      → (spec : ProfileSpec F32) → IsProper spec
      → Gives (Tracks spec) (from_spec fp spec)
  unfolding from_spec
  from_spec-Tracks o (ProfileSpec.constant v) h = (_, refl, refl)
  from_spec-Tracks o (ProfileSpec.constant_bool b) h = (_, refl, refl)
  from_spec-Tracks o (ProfileSpec.constant_state u) h = (_, refl, refl)
  from_spec-Tracks o (ProfileSpec.binary_schedule c) h = (_, refl, refl)
  from_spec-Tracks o (ProfileSpec.multi_state [] c) h =
      (_, refl, (0, _, refl, λ e. ground (arith, e)))
  from_spec-Tracks o (ProfileSpec.multi_state (s ∷ ss) c) h =
      (_, refl, (0, _, refl, λ e. omega arith))
  from_spec-Tracks o (ProfileSpec.random_walk b step lo hi) h =
      let (v, e, between) = clamp-IsBetween o b lo hi h.0 in rw (e) (_, refl, (v, refl, between))
  from_spec-Tracks o (ProfileSpec.sine b a p q) h = (_, refl, refl)
  from_spec-Tracks o (ProfileSpec.occupancy_linked b d n) h = (_, refl, refl)
  from_spec-Tracks o (ProfileSpec.temp_control s g i n init) h = (_, refl, (_, refl))
  from_spec-Tracks o (ProfileSpec.integrator r s) h = (_, refl, (_, refl))
  from_spec-Tracks o (ProfileSpec.ramp s e p) h = (_, refl, refl)
  from_spec-Tracks o (ProfileSpec.derived_constant f) h = (_, refl, refl)

  pub initial_value-Keeps :
      (spec : ProfileSpec F32) (t : ProfileState F32)
      → Tracks spec t
      → Keeps spec (initial_value fp t)
  unfolding initial_value
  initial_value-Keeps (ProfileSpec.constant v) t h = rw (h) refl
  initial_value-Keeps (ProfileSpec.constant_bool b) t h = rw (h) refl
  initial_value-Keeps (ProfileSpec.constant_state u) t h = rw (h) refl
  initial_value-Keeps (ProfileSpec.binary_schedule c) t h = rw (h) (_, refl)
  initial_value-Keeps (ProfileSpec.multi_state states c) t (i, e, at, small) =
      rw (at) (_, refl, get_elem?-IsState states 0 (λ some. omega (arith, small some)))
  initial_value-Keeps (ProfileSpec.random_walk b step lo hi) t (v, at, between) =
      rw (at) (_, refl, between)
  initial_value-Keeps (ProfileSpec.sine b a p q) t h = rw (h) (_, refl)
  initial_value-Keeps (ProfileSpec.occupancy_linked b d n) t h = rw (h) (_, refl)
  initial_value-Keeps (ProfileSpec.temp_control s g i n init) t (v, at) = rw (at) (_, refl)
  initial_value-Keeps (ProfileSpec.integrator r s) t (v, at) = rw (at) (_, refl)
  initial_value-Keeps (ProfileSpec.ramp s e p) t h = rw (h) (_, refl)
  initial_value-Keeps (ProfileSpec.derived_constant f) t h = rw (h) (_, refl)

  advanced-Tracks :
      (states : List ℕ) (c : F32) (i : ℕ) (e : F32)
      → (is_empty states ≡ false → i < length states)
      → let p = advanced fp states c i e in
        Tracks (ProfileSpec.multi_state states c) p.0 × Keeps (ProfileSpec.multi_state states c) p.1
  advanced-Tracks states c i e small =
      ((i, e, refl, small), (_, refl, get_elem?-IsState states i small))

  -- A tick does not panic, and it keeps the profile's state and values.
  pub tick-Tracks :
      Ordered fp
      → (draw : F32 → F32 → F32) (ctx : TickCtx F32) (spec : ProfileSpec F32) (t : ProfileState F32)
      → IsProper spec
      → Tracks spec t
      → Gives (λ p. Tracks spec p.0 × Keeps spec p.1) (tick fp draw ctx t)
  unfolding tick
  tick-Tracks o draw ctx (ProfileSpec.constant v) t p h = rw (h) (_, refl, (refl, refl))
  tick-Tracks o draw ctx (ProfileSpec.constant_bool b) t p h = rw (h) (_, refl, (refl, refl))
  tick-Tracks o draw ctx (ProfileSpec.constant_state u) t p h = rw (h) (_, refl, (refl, refl))
  tick-Tracks o draw ctx (ProfileSpec.binary_schedule c) t p h = rw (h) (_, refl, (refl, (_, refl)))
  tick-Tracks o draw ctx (ProfileSpec.multi_state states c) t p (i, e, at, small) =
      let elapsed = fp.add32 e ctx.dt in
      elim (Bool-cases (fp.le32 c elapsed && not (is_empty states))) [
        | inl moves ↦
            let next : is_empty states ≡ false → (i + 1) % length states < length states =
              λ some. grind (arith, small some) in
            rw (at, moves)
              (_, refl, advanced-Tracks states c ((i + 1) % length states) (fp.nat32 0) next)
        | inr stays ↦ rw (at, stays) (_, refl, advanced-Tracks states c i elapsed small)
      ]
  tick-Tracks o draw ctx (ProfileSpec.random_walk b step lo hi) t p (v, at, between) =
      let (w, e, kept) = clamp-IsBetween o (fp.add32 v (draw (fp.neg32 step) step)) lo hi p.0 in
      rw (at, p.1.0, p.1.1, e, gen_range) (_, refl, ((w, refl, kept), (w, refl, kept)))
  tick-Tracks o draw ctx (ProfileSpec.sine b a c q) t p h = rw (h) (_, refl, (refl, (_, refl)))
  tick-Tracks o draw ctx (ProfileSpec.occupancy_linked b d n) t p h =
      let (v, e) = sample_noise-some draw n p in rw (h, e) (_, refl, (refl, (_, refl)))
  tick-Tracks o draw ctx (ProfileSpec.temp_control s g i n init) t p (v, at) =
      let (w, e) = sample_noise-some draw n p in rw (at, e) (_, refl, ((_, refl), (_, refl)))
  tick-Tracks o draw ctx (ProfileSpec.integrator r s) t p (v, at) =
      rw (at) (_, refl, ((_, refl), (_, refl)))
  tick-Tracks o draw ctx (ProfileSpec.ramp s e c) t p h = rw (h) (_, refl, (refl, (_, refl)))
  tick-Tracks o draw ctx (ProfileSpec.derived_constant f) t p h =
      rw (h) (_, refl, (refl, (_, refl)))
