-- ===== src/Simulator/Failure.antt =====
-- `SimulatorConfig::expand` of crates/sim-core/src/config.rs: its errors.
use netix_protocol_core.Prelude.{
  ℕ, suc, ◌≡◌, refl, ◌∙◌, List, [], ◌∷◌, Option, none, some, or_else, ltb, Option-cases, Bool-cases,
  inl, inr, if◌then◌else◌,
}
use netix_protocol_core.Prelude.Eq.{nat_eq, list_eq}
use netix_protocol_core.Prelude.Maps.{get}
use netix_protocol_core.Simulator.{
  AssetInstanceSpec, SimulatorConfig, DeviceSpec, ConfigError, unknown_template,
  count_exceeds_block, Expanded, ok, err, Counters, block_of, prepend, expand_instances, expand,
}

-- The error of an instance, if it has one.
abbrev instance_error :
    {Profile : Type 0} → SimulatorConfig Profile → AssetInstanceSpec → Option ConfigError
instance_error config inst = elim (get inst.template config.templates) [
  | none ↦ some (unknown_template inst.template)
  | some template ↦
      if ltb (block_of config.id_policy) inst.count
      then some (count_exceeds_block inst.template inst.count (block_of config.id_policy))
      else none
]

abbrev first_error :
    {Profile : Type 0} → SimulatorConfig Profile → List AssetInstanceSpec → Option ConfigError
first_error config [] = none
first_error config (inst ∷ insts) = or_else (instance_error config inst) (first_error config insts)

abbrev error_of : {A : Type 0} → Expanded A → Option ConfigError
error_of (ok a) = none
error_of (err e) = some e

error_of-prepend :
    {Profile : Type 0} (devices : List (DeviceSpec Profile))
    (r : Expanded (List (DeviceSpec Profile)))
    → error_of (prepend devices r) ≡ error_of r
error_of-prepend devices (ok more) = refl
error_of-prepend devices (err e) = refl

expand_instances-error :
    {Profile : Type 0} (config : SimulatorConfig Profile) (idx : ℕ) (insts : List AssetInstanceSpec)
    (c : Counters)
    → error_of (expand_instances config (block_of config.id_policy) idx insts c)
      ≡ first_error config insts
unfolding expand_instances
expand_instances-error config idx [] c = refl
expand_instances-error config idx (inst ∷ insts) c =
    elim (Option-cases (get inst.template config.templates)) [
      | inl e ↦ rw (e, expand_instances, instance_error) refl
      | inr (template, e) ↦ elim (Bool-cases (ltb (block_of config.id_policy) inst.count)) [
        | inl over ↦ rw (e, over, expand_instances, instance_error) refl
        | inr fits ↦
            rw (e, fits, expand_instances, instance_error)
              (error_of-prepend _ _ ∙ expand_instances-error config (suc idx) insts _)
      ]
    ]

-- `expand` fails exactly if some instance names an unknown template or has more devices than a block
-- holds, and the error is that of the first such instance.
expand-first_error :
    {Profile : Type 0} (config : SimulatorConfig Profile)
    → error_of (expand config) ≡ first_error config config.instances
unfolding expand
expand-first_error config = expand_instances-error config 0 config.instances []
