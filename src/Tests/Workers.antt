-- ===== src/Tests/Workers.antt =====
-- Examples for the threads that the worker starts (crates/republish-core/src/worker/mod.rs).
use netix_protocol_core.Prelude.{
  ℕ, ◌≡◌, refl, true, List, [], ◌∷◌, ◌++◌, none, some, ◌⊎◌, ◌==◌, if◌then◌else◌,
}
use netix_protocol_core.Text.{Text, lit}
use netix_protocol_core.Model.{DiscoveredDevice, DiscoveredPoint, PointConfig}
use netix_protocol_core.Import.{MergeImportResult, merge_imported_points}
use netix_protocol_core.Import.Identities.{identities, fresh}
use netix_protocol_core.Import.Merging.{DistinctIds}
use netix_protocol_core.Mqtt.Publisher.{Error}
use netix_protocol_core.Worker.Events.{WorkerEvent, bulk_tag_import, finished, ok, err}
use netix_protocol_core.Worker.Adapter.{RepublishProtocol, DiscoveryKind, BrowseKind}
use netix_protocol_core.Worker.Start.{
  scan_all_objects, scan_message, discover_points, default_poll_interval,
}
use netix_protocol_core.Worker.Start.Scanning.{
  browsed, failed_browses, numbered, progress, scan_all_objects-completes,
  discover_points-DistinctIds,
}
use netix_protocol_core.Worker.Republisher.{start_republisher}
use netix_protocol_core.Worker.Republisher.Starting.{Ran, NotRun, start_republisher-lifecycles}
use netix_protocol_core.Tests.Fixtures.{config, supply, disabled, broker}
use netix_protocol_core.Tests.Polls.{reads, boot, first_tick}

abbrev device : Text → DiscoveredDevice
device key = record {
  key = key;
  instance_id = none;
  address = lit "10.0.0.7";
  detail = [];
  vendor_id = none;
  vendor_name = none;
  model_name = none;
}

abbrev found : List DiscoveredDevice
found = device (lit "7") ∷ device (lit "8") ∷ device (lit "9") ∷ []

abbrev found_point : DiscoveredPoint
found_point = record {
  device_key = lit "7";
  name = none;
  description = none;
  units = none;
  value = none;
  addressing = supply.addressing;
  suggested_tag_path = lit "boiler/supply";
}

abbrev timeout : Error
timeout = record { message = lit "timeout"; chain = lit "browse: timeout" }

-- The second device does not answer; the first and the third report the same point.
abbrev adapter : RepublishProtocol
adapter = record {
  capabilities = record { discovery = DiscoveryKind.broadcast; browse = BrowseKind.object_list };
  discover = ok (record { devices = found; warnings = lit "one reply was malformed" ∷ [] });
  browse = λ idx d.
      if idx == 1 then err timeout else ok (record { points = found_point ∷ []; warnings = [] });
  poll = λ due. ok reads;
}

scan_all_objects-completes_example :
    (before : List WorkerEvent) × (merge : MergeImportResult) × (scan_all_objects adapter found
        (supply ∷ [])
      ≡ some (
          before
          ++ (bulk_tag_import merge
              ∷ finished (scan_message 3 (failed_browses adapter 0 found) merge)
              ∷ [])))
    × (merge_imported_points (supply ∷ []) (browsed 10 adapter 0 found) ≡ some merge)
    × (progress before ≡ ([], 0, 3) ∷ numbered 3 0 found)
scan_all_objects-completes_example = scan_all_objects-completes adapter found (supply ∷ [])

discover_points-DistinctIds_example :
    (points : List PointConfig) × (warnings : List Text) × (discover_points adapter
      ≡ ok (some (points, warnings)))
    × (identities points ≡ fresh [] (identities (browsed default_poll_interval adapter 0 found)))
    × DistinctIds (identities points)
discover_points-DistinctIds_example = discover_points-DistinctIds adapter refl

-- No configured point is enabled, so the points come from discovery.
start_republisher-lifecycles_example :
    (es : List WorkerEvent) × (start_republisher broker adapter config []
        (disabled ∷ [])
        true
        boot
        (first_tick ∷ [])
        (ok 0)
      ≡ some es)
    × (Ran broker config [] boot (first_tick ∷ []) (ok 0) es
        ⊎ NotRun {P = ℕ} (disabled ∷ []) (ok 0) es)
start_republisher-lifecycles_example =
    start_republisher-lifecycles broker adapter config [] (disabled ∷ []) boot (first_tick ∷ [])
      true (ok 0)
