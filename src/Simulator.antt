-- ===== src/Simulator.antt =====
-- crates/sim-core/src/config.rs: `SimulatorConfig::expand`, which builds the simulated devices from the
-- templates and instances. `Profile` is the type `ProfileSpec`, which `expand` only copies. Numbers of
-- type `u32` wrap around, as in a release build; the fields that `expand` does not read are left out.
pub mod Expansion
pub mod Failure
pub mod Numbering
pub mod Profiles
pub mod Points
pub mod Metrics
pub mod Keys
use netix_protocol_core.Prelude.{
  ℕ, zero, suc, ◌+◌, ◌*◌, ◌%◌, Bool, true, false, List, [], ◌∷◌, ◌++◌, Option, none, some, max, ltb,
  is_empty, unwrap_or, if◌then◌else◌,
}
use netix_protocol_core.Prelude.Eq.{nat_eq, list_eq}
use netix_protocol_core.Prelude.Maps.{HashMap, get, insert}
use netix_protocol_core.Text.{Text, lit}
use netix_protocol_core.Text.Numbers.{decimal}
use netix_protocol_core.Model.{Addressing}

pub record ProtocolInstanceConfig : Type 0 where
  pub id : Text
  pub port : Option ℕ
  pub options : Addressing

pub record IdPolicy : Type 0 where
  pub device_id_base : ℕ
  pub per_template_block : ℕ

pub record TemplatePointSpec (Profile : Type 0) : Type 0 where
  pub label : Text
  pub object_type : Text
  pub units : Option Text
  pub profile : Profile

pub record AssetTemplate (Profile : Type 0) : Type 0 where
  pub description : Text
  pub points : List (TemplatePointSpec Profile)

pub record AssetInstanceSpec : Type 0 where
  pub template : Text
  pub name_prefix : Text
  pub zone : Option Text
  pub count : ℕ

pub record SimulatorConfig (Profile : Type 0) : Type 0 where
  pub id_policy : IdPolicy
  pub templates : HashMap Text (AssetTemplate Profile)
  pub instances : List AssetInstanceSpec
  pub protocols : List ProtocolInstanceConfig

pub record PointSpec (Profile : Type 0) : Type 0 where
  pub label : Text
  pub object_type : Text
  pub units : Option Text
  pub instance_number : ℕ
  pub profile : Profile

pub record DeviceSpec (Profile : Type 0) : Type 0 where
  pub device_id : ℕ
  pub name : Text
  pub points : List (PointSpec Profile)

-- The errors that `expand` returns.
pub data ConfigError : Type 0 where
  unknown_template : Text → ConfigError
  count_exceeds_block : Text → ℕ → ℕ → ConfigError

pub data Expanded (A : Type 0) : Type 0 where
  ok : A → Expanded A
  err : ConfigError → Expanded A

abbrev pub u32 : ℕ
u32 = 4_294_967_296

abbrev default_protocol : ProtocolInstanceConfig
default_protocol = record { id = lit "bacnet"; port = some 47808; options = [] }

unfoldable effective_protocols : List ProtocolInstanceConfig → List ProtocolInstanceConfig
effective_protocols protocols = if is_empty protocols then default_protocol ∷ [] else protocols

abbrev pub Counters : Type 0
Counters = HashMap Text ℕ

-- `{:03}` of a number
unfoldable pub pad : ℕ → Text
pad n =
    let zeros = if ltb n 10 then lit "00" else if ltb n 100 then lit "0" else [] in
    zeros ++ decimal n

-- `*counter += 1`
abbrev pub count_up : Text → Counters → ℕ
count_up object_type counters = (unwrap_or (get object_type counters) 0 + 1) % u32

abbrev pub start_of : IdPolicy → ℕ → ℕ → ℕ
start_of policy block idx = (policy.device_id_base + (idx % u32 + 1) % u32 * block) % u32

abbrev pub block_of : IdPolicy → ℕ
block_of policy = max policy.per_template_block 1

module _ {Profile : Type 0} where
  abbrev pub new_point : TemplatePointSpec Profile → ℕ → PointSpec Profile
  new_point tp counter = record {
    label = tp.label;
    object_type = tp.object_type;
    units = tp.units;
    instance_number = counter;
    profile = tp.profile;
  }

  -- The loop over a template's points: the points of one device, and the counters after them.
  unfoldable pub expand_points :
      List (TemplatePointSpec Profile) → Counters → List (PointSpec Profile) × Counters
  expand_points [] counters = ([], counters)
  expand_points (tp ∷ tps) counters =
      let counter = count_up tp.object_type counters in
      let (points, after) = expand_points tps (insert tp.object_type counter counters) in
      (new_point tp counter ∷ points, after)

  abbrev pub new_device : AssetInstanceSpec → ℕ → ℕ → List (PointSpec Profile) → DeviceSpec Profile
  new_device inst block_start n points = record {
    device_id = (block_start + n) % u32;
    name = inst.name_prefix ++ (lit "-" ++ pad ((n + 1) % u32));
    points = points;
  }

  -- The loop over `n..count`, with `left` turns to go.
  unfoldable pub expand_devices :
      AssetTemplate Profile
      → AssetInstanceSpec
      → ℕ
      → ℕ
      → ℕ
      → Counters
      → List (DeviceSpec Profile) × Counters
  expand_devices template inst block_start n zero counters = ([], counters)
  expand_devices template inst block_start n (suc left) counters =
      let (points, between) = expand_points template.points counters in
      let (devices, after) = expand_devices template inst block_start (suc n) left between in
      (new_device inst block_start n points ∷ devices, after)

  abbrev pub prepend :
      List (DeviceSpec Profile)
      → Expanded (List (DeviceSpec Profile))
      → Expanded (List (DeviceSpec Profile))
  prepend devices (ok more) = ok (devices ++ more)
  prepend devices (err e) = err e

  -- The loop over the instances, from the one at `idx`.
  unfoldable pub expand_instances :
      SimulatorConfig Profile
      → ℕ
      → ℕ
      → List AssetInstanceSpec
      → Counters
      → Expanded (List (DeviceSpec Profile))
  expand_instances config block idx [] counters = ok []
  expand_instances config block idx (inst ∷ insts) counters =
      elim (get inst.template config.templates) [
        | none ↦ err (unknown_template inst.template)
        | some template ↦
            let (devices, after) =
              expand_devices template inst (start_of config.id_policy block idx) 0 inst.count
                counters in
            let rest = prepend devices (expand_instances config block (suc idx) insts after) in
            if ltb block inst.count
            then err (count_exceeds_block inst.template inst.count block)
            else rest
      ]

  unfoldable pub expand : SimulatorConfig Profile → Expanded (List (DeviceSpec Profile))
  expand config = expand_instances config (block_of config.id_policy) 0 config.instances []
