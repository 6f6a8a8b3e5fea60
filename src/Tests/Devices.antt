-- ===== src/Tests/Devices.antt =====
-- Examples for imports (crates/republish-core/src/import.rs), device instances, and the expansion of a
-- simulator configuration (crates/sim-core/src/config.rs).
use netix_protocol_core.Prelude.{ℕ, ◌*◌, ◌≡◌, refl, List, [], ◌∷◌, none, some, arith, length}
use netix_protocol_core.Prelude.Eq.{nat_eq, list_eq, pair_eq}
use netix_protocol_core.Prelude.Maps.{HashMap, get, insert}
use netix_protocol_core.Text.{lit}
use netix_protocol_core.Text.Numbers.{decimal}
use netix_protocol_core.Model.{PointConfig, RefreshOutcome}
use netix_protocol_core.Backoff.{DeviceBackoff, second}
use netix_protocol_core.Import.{MergeImportResult, merge_imported_points}
use netix_protocol_core.Import.Merging.{IsMerge, merge_imported_points-IsMerge}
use netix_protocol_core.Worker.Refresh.{apply_refresh_state}
use netix_protocol_core.Worker.Refresh.Resolution.{Refreshed, apply_refresh_state-Refreshed}
use netix_protocol_core.Simulator.{
  SimulatorConfig, PointSpec, DeviceSpec, ok, expand, expand_instances, expand_devices,
  expand_points, pad,
}
use netix_protocol_core.Simulator.Expansion.{Rising, device_ids, expand-Rising}
use netix_protocol_core.Simulator.Numbering.{numbers, all_points, following, expand-numbers}
use netix_protocol_core.Tests.Fixtures.{supply, flow}

-- The point as it is configured, and as it is imported under another path.
abbrev renamed : PointConfig
renamed = record supply { tag_path = lit "plant/new" }

merge_imported_points-IsMerge_example :
    (r : MergeImportResult) × (merge_imported_points (supply ∷ []) (flow ∷ renamed ∷ flow ∷ [])
      ≡ some r)
    × IsMerge (supply ∷ []) (flow ∷ renamed ∷ flow ∷ []) r
merge_imported_points-IsMerge_example =
    merge_imported_points-IsMerge (supply ∷ []) (flow ∷ renamed ∷ flow ∷ [])

abbrev waiting : HashMap ℕ DeviceBackoff
waiting = (7, record { delay = 20 * second; until = 21 * second }) ∷ []

abbrev answer : RefreshOutcome
answer = record { resolved = 7 ∷ []; unresolved = 9 ∷ [] }

apply_refresh_state-Refreshed_example :
    Refreshed (7 ∷ []) waiting answer 7 (apply_refresh_state (7 ∷ []) waiting answer)
apply_refresh_state-Refreshed_example = apply_refresh_state-Refreshed (7 ∷ []) waiting answer 7

-- Two templates, instantiated twice and once; the profile of a point is a number.
abbrev plant : SimulatorConfig ℕ
plant = record {
  id_policy = record { device_id_base = 1000; per_template_block = 10 };
  templates =
      (
        lit "ahu",
        record {
          description = [];
          points =
              record {
                label = lit "supply";
                object_type = lit "analog_input";
                units = none;
                profile = 1;
              }
              ∷ record {
                label = lit "fan";
                object_type = lit "binary_input";
                units = none;
                profile = 2;
              }
              ∷ [];
        },
      )
      ∷ [];
  instances =
      record { template = lit "ahu"; name_prefix = lit "AHU"; zone = none; count = 2 }
      ∷ record { template = lit "ahu"; name_prefix = lit "ROOF"; zone = none; count = 1 }
      ∷ [];
  protocols = [];
}

abbrev two_points : ℕ → List (PointSpec ℕ)
two_points n =
    record {
      label = lit "supply";
      object_type = lit "analog_input";
      units = none;
      instance_number = n;
      profile = 1;
    }
    ∷ record {
      label = lit "fan";
      object_type = lit "binary_input";
      units = none;
      instance_number = n;
      profile = 2;
    }
    ∷ []

abbrev plant_devices : List (DeviceSpec ℕ)
plant_devices =
    record { device_id = 1010; name = lit "AHU-001"; points = two_points 1 }
    ∷ record { device_id = 1011; name = lit "AHU-002"; points = two_points 2 }
    ∷ record { device_id = 1020; name = lit "ROOF-001"; points = two_points 3 }
    ∷ []

plant_expanded : expand plant ≡ ok plant_devices
unfolding expand expand_instances expand_devices expand_points get pad decimal insert
plant_expanded = refl

expand-Rising_example : Rising 1010 (device_ids plant_devices) 1030
expand-Rising_example = expand-Rising plant (omega arith) plant_expanded

expand-numbers_example :
    numbers (lit "analog_input") (all_points plant_devices)
    ≡ following 0 (length (numbers (lit "analog_input") (all_points plant_devices)))
expand-numbers_example = expand-numbers plant (lit "analog_input") plant_expanded (omega arith)
