-- ===== src/Tests/Simulation.antt =====
-- Examples for the simulated points (crates/sim-core/src/simulation) and the keys of devices.
use netix_protocol_core.Prelude.{
  ◌+◌, ◌%◌, ltb, if◌then◌else◌, ℕ, ◌≡◌, refl, List, [], ◌∷◌, map, none, some,
}
use netix_protocol_core.Prelude.Maps.{get, insert}
use netix_protocol_core.Text.{lit}
use netix_protocol_core.Text.Numbers.{decimal}
use netix_protocol_core.Simulator.{
  SimulatorConfig, PointSpec, DeviceSpec, ok, expand, expand_instances, expand_devices,
  expand_points, pad,
}
use netix_protocol_core.Simulator.Keys.{base_key-new_device}
use netix_protocol_core.Model.Neutral.{base_key}
use netix_protocol_core.Simulator.{AssetInstanceSpec, new_device, u32}
use netix_protocol_core.Simulator.Profiles.{ProfileSpec, TickCtx, from_spec, initial_value}
use netix_protocol_core.Simulator.Profiles.Walking.{Gives, Keeps}
use netix_protocol_core.Simulator.Profiles.Runs.{ticks, from_spec-ticks}
use netix_protocol_core.Simulator.Points.{SimulatedDevice, new_simulation}
use netix_protocol_core.Simulator.Points.Updating.{Reading}
use netix_protocol_core.Simulator.Points.Layout.{device_layout, updates, new_simulation-updates}
use netix_protocol_core.Tests.Numerals.{numerals, numerals-Ordered}

-- A walk from 20 in steps of at most 3 between 10 and 21, of two ticks.
abbrev walk : ProfileSpec ℕ
walk = ProfileSpec.random_walk 20 3 10 21

abbrev context : TickCtx ℕ
context = record {
  dt = 1;
  now_secs = numerals.nat64 60;
  occupancy = 1;
  outside_temp = 25;
  siblings = [];
}

abbrev turns : List ((ℕ → ℕ → ℕ) × TickCtx ℕ)
turns = (λ lo hi. 2, context) ∷ (λ lo hi. 0, context) ∷ []

from_spec-ticks_example :
    Gives
      (λ t.
        Keeps numerals walk (initial_value numerals t)
        × Gives (λ p. Keeps numerals walk p.1) (ticks numerals turns t (initial_value numerals t)))
      (from_spec numerals walk)
from_spec-ticks_example = from_spec-ticks numerals numerals-Ordered walk turns (refl, (refl, refl))

abbrev plant : SimulatorConfig (ProfileSpec ℕ)
plant = record {
  id_policy = record { device_id_base = 1000; per_template_block = 10 };
  templates =
      (
        lit "ahu",
        record {
          description = [];
          points =
              record {
                label = lit "supply";
                object_type = lit "Analog_Input";
                units = none;
                profile = walk;
              }
              ∷ record {
                label = lit "fan";
                object_type = lit "binary_input";
                units = none;
                profile = ProfileSpec.binary_schedule 1;
              }
              ∷ [];
        },
      )
      ∷ [];
  instances = record { template = lit "ahu"; name_prefix = lit "AHU"; zone = none; count = 1 } ∷ [];
  protocols = [];
}

abbrev plant_points : List (PointSpec (ProfileSpec ℕ))
plant_points =
    record {
      label = lit "supply";
      object_type = lit "Analog_Input";
      units = none;
      instance_number = 1;
      profile = walk;
    }
    ∷ record {
      label = lit "fan";
      object_type = lit "binary_input";
      units = none;
      instance_number = 1;
      profile = ProfileSpec.binary_schedule 1;
    }
    ∷ []

abbrev plant_devices : List (DeviceSpec (ProfileSpec ℕ))
plant_devices = record { device_id = 1010; name = lit "AHU-001"; points = plant_points } ∷ []

plant_expanded : expand plant ≡ ok plant_devices
unfolding expand expand_instances expand_devices expand_points get pad decimal insert
plant_expanded = refl

abbrev readings : List ((ℕ → ℕ → ℕ → ℕ → ℕ) × Reading ℕ)
readings =
    (
      λ d i lo hi. 1,
      record { dt = 1; now_secs = numerals.nat64 60; occupancy = 1; outside_temp = 25 },
    )
    ∷ []

new_simulation-updates_example :
    (ds : List (SimulatedDevice ℕ)) × (new_simulation numerals plant ≡ ok (some ds))
    × Gives (λ es. map device_layout es ≡ map device_layout ds) (updates numerals readings ds)
new_simulation-updates_example =
    new_simulation-updates numerals numerals-Ordered plant plant_devices readings plant_expanded
      (((refl, (refl, refl)), (tt, tt)), tt)

abbrev vavs : AssetInstanceSpec
vavs = record { template = lit "vav"; name_prefix = lit "VAV-3"; zone = none; count = 1_200 }

base_key-new_device_example :
    let name = (new_device vavs 2_000 999 plant_points).name in
    base_key name ≡ (if ltb ((999 + 1) % u32) 1000 then vavs.name_prefix else name)
base_key-new_device_example = base_key-new_device vavs 2_000 999 plant_points
