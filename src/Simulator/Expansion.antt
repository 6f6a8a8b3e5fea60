-- ===== src/Simulator/Expansion.antt =====
-- `SimulatorConfig::expand` of crates/sim-core/src/config.rs: the ids of its devices.
use netix_protocol_core.Prelude.{
  ℕ, zero, suc, ◌+◌, ◌*◌, ◌%◌, ◌≤◌, ◌<◌, ◌≡◌, List, [], ◌∷◌, ◌++◌, map, arith, length, ltb,
  Option-cases, Bool-cases, inl, inr,
}
use mathlib.Core.Path.{subst}
use native.Mathlib.Nat.{suc-mul}
use mathlib.Core.List.{map-append}
use netix_protocol_core.Prelude.Eq.{nat_eq, list_eq}
use netix_protocol_core.Prelude.Maps.{get}
use netix_protocol_core.Simulator.{
  AssetTemplate, AssetInstanceSpec, SimulatorConfig, DeviceSpec, Expanded, ok, err, u32, Counters,
  start_of, block_of, expand_points, expand_devices, prepend, expand_instances, expand,
}

-- Strictly increasing numbers from `low` on and below `high`.
abbrev pub Rising : ℕ → List ℕ → ℕ → Type 0
Rising low [] high = low ≤ high
Rising low (x ∷ xs) high = (low ≤ x) × Rising (suc x) xs high

Rising-weaken :
    {low low' high high' : ℕ} (xs : List ℕ)
    → low' ≤ low
    → high ≤ high'
    → Rising low xs high
    → Rising low' xs high'
Rising-weaken [] h k r = omega (arith, h, k, r)
Rising-weaken (x ∷ xs) h k r = (omega (arith, h, r.0), Rising-weaken xs (omega arith) k r.1)

Rising-append :
    (low mid high : ℕ) (xs ys : List ℕ)
    → Rising low xs mid
    → Rising mid ys high
    → Rising low (xs ++ ys) high
Rising-append low mid high [] ys r q = Rising-weaken ys r (omega arith) q
Rising-append low mid high (x ∷ xs) ys r q = (r.0, Rising-append (suc x) mid high xs ys r.1 q)

-- A property of the value, if there is no error.
abbrev pub WhenOk : {A : Type 0} → (A → Type 0) → Expanded A → Type 0
WhenOk P (ok a) = P a
WhenOk P (err e) = Unit

module _ {Profile : Type 0} where
  abbrev pub device_ids : List (DeviceSpec Profile) → List ℕ
  device_ids devices = map (λ d. d.device_id) devices

  expand_devices-Rising :
      (template : AssetTemplate Profile) (inst : AssetInstanceSpec) (start n left : ℕ)
      (c : Counters)
      → start + n + left ≤ u32
      → Rising
          (start + n)
          (device_ids (expand_devices template inst start n left c).0)
          (start + n + left)
  unfolding expand_devices
  expand_devices-Rising template inst start n zero c h = omega arith
  expand_devices-Rising template inst start n (suc left) c h =
      let between = (expand_points template.points c).1 in
      let id : (start + n) % u32 ≡ start + n = omega (arith, h) in
      let next : suc (start + n) ≡ start + suc n = omega arith in
      let end : start + suc n + left ≡ start + n + suc left = omega arith in
      (
        omega (arith, id),
        rw (id, next, ← end)
            (expand_devices-Rising template inst start (suc n) left between (omega (arith, h))),
      )

  pub prepend-WhenOk :
      (P Q : List (DeviceSpec Profile) → Type 0) (devices : List (DeviceSpec Profile))
      (r : Expanded (List (DeviceSpec Profile)))
      → ((ds : List (DeviceSpec Profile)) → P ds → Q (devices ++ ds))
      → WhenOk P r
      → WhenOk Q (prepend devices r)
  prepend-WhenOk P Q devices (ok ds) f p = f ds p
  prepend-WhenOk P Q devices (err e) f p = tt

  module _ (config : SimulatorConfig Profile) where
    abbrev block : ℕ
    block = block_of config.id_policy

    start_of-low :
        (idx low : ℕ)
        → idx + 1 < u32
        → low < u32
        → low ≡ config.id_policy.device_id_base + suc idx * block
        → start_of config.id_policy block idx ≡ low
    start_of-low idx low small below at =
        let i : (idx % u32 + 1) % u32 ≡ suc idx = omega (arith, small) in
        rw (i, ← at) (omega (arith, below))

    expand_instances-Rising :
        (idx low : ℕ) (insts : List AssetInstanceSpec) (c : Counters)
        → idx + length insts < u32
        → low + length insts * block ≤ u32
        → low ≡ config.id_policy.device_id_base + suc idx * block
        → WhenOk
            (λ ds. Rising low (device_ids ds) (low + length insts * block))
            (expand_instances config block idx insts c)
    unfolding expand_instances
    expand_instances-Rising idx low [] c small h at = omega arith
    expand_instances-Rising idx low (inst ∷ insts) c small h at =
        elim (Option-cases (get inst.template config.templates)) [
          | inl e ↦ rw (e, expand_instances) tt
          | inr (template, e) ↦ elim (Bool-cases (ltb block inst.count)) [
            | inl over ↦ rw (e, over, expand_instances) tt
            | inr fits ↦
                let (devices, after) =
                  expand_devices template inst (start_of config.id_policy block idx) 0 inst.count
                    c in
                let room : inst.count ≤ block = ground (arith, fits) in
                let more : low + length (inst ∷ insts) * block
                    ≡ low + block + length insts * block =
                  omega (arith, suc-mul (length insts) block) in
                let same : start_of config.id_policy block idx ≡ low =
                  start_of-low idx low (omega (arith, small)) (omega (arith, h, more)) at in
                let mine : Rising low (device_ids devices) (low + block) =
                  Rising-weaken (device_ids devices) (omega (arith, same))
                    (omega (arith, same, room))
                    (expand_devices-Rising template inst (start_of config.id_policy block idx) 0
                      inst.count c (omega (arith, same, room, more, h))) in
                rw (e, fits, more, expand_instances)
                  (prepend-WhenOk
                    (λ ds.
                      Rising (low + block) (device_ids ds) (low + block + length insts * block))
                    (λ ds. Rising low (device_ids ds) (low + block + length insts * block)) devices
                    (expand_instances config block (suc idx) insts after)
                    (λ ds r. rw (map-append (λ d. d.device_id) devices ds) (
                      Rising-append low (low + block) (low + block + length insts * block)
                        (device_ids devices) (device_ids ds) mine r))
                    (expand_instances-Rising (suc idx) (low + block) insts after
                      (omega (arith, small)) (omega (arith, more, h))
                      (omega (arith, at, suc-mul (suc idx) block))))
          ]
        ]

le-mul_block : (n b : ℕ) → 1 ≤ b → n ≤ n * b
le-mul_block zero b h = omega arith
le-mul_block (suc n) b h = omega (arith, suc-mul n b, le-mul_block n b h, h)

-- Where the blocks of all instances fit into 32 bits, the devices that `expand` builds have strictly
-- increasing ids, so no id twice, and all lie in the blocks after the first one from the base.
pub expand-Rising :
    {Profile : Type 0} (config : SimulatorConfig Profile) {devices : List (DeviceSpec Profile)}
    → (let base = config.id_policy.device_id_base in
        let block = block_of config.id_policy in
        base + block + length config.instances * block ≤ u32)
    → expand config ≡ ok devices
    → (let base = config.id_policy.device_id_base in
        let block = block_of config.id_policy in
        Rising (base + block) (device_ids devices) (base + block + length config.instances * block))
expand-Rising config {devices} h e =
    let base = config.id_policy.device_id_base in
    let block = block_of config.id_policy in
    let built =
      expand_instances-Rising config 0 (base + block) config.instances []
        (omega (arith, h, le-mul_block (length config.instances) block (omega arith))) h
        (omega (arith, suc-mul 0 block)) in
    let same : expand_instances config block 0 config.instances [] ≡ ok devices =
      unfold expand in e in
    subst
      (WhenOk (λ ds.
        Rising (base + block) (device_ids ds) (base + block + length config.instances * block)))
      same built
