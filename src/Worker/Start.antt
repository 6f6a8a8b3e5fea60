-- ===== src/Worker/Start.antt =====
-- crates/republish-core/src/worker/mod.rs: discovery, browsing and the scan of all objects, by the events
-- that the thread sends, and `discover_points`. `none` is a panic of the merge.
pub mod Scanning
use netix_protocol_core.Prelude.{
  ℕ, suc, ◌+◌, Bool, true, false, ◌&&◌, not, List, [], ◌∷◌, ◌++◌, map, Option, none, some, any,
  filter, is_empty, length, if◌then◌else◌,
}
use netix_protocol_core.Text.{Text, lit}
use netix_protocol_core.Text.Numbers.{decimal}
use netix_protocol_core.Model.{
  BrowseOutcome, DiscoverOutcome, DiscoveredDevice, DiscoveredPoint, PointConfig, PollOutcome,
}
use netix_protocol_core.Config.{MqttConfig}
use netix_protocol_core.Backoff.{LogLevel, info, warning, error}
use netix_protocol_core.Import.{MergeImportResult, merge_imported_points, point_from_discovered}
use netix_protocol_core.Mqtt.Publisher.{MqttPublisher, Error}
use netix_protocol_core.Worker.Events.{
  WorkerEvent, log, devices, points, scan_progress, bulk_tag_import, samples, failures,
  publish_status, lifecycle, finished, Result, ok, err,
}
use netix_protocol_core.Worker.Adapter.{RepublishProtocol, supports_discovery}
use netix_protocol_core.Worker.Publish.{publish_samples}
use netix_protocol_core.Worker.State.{Job, Tick, log_warnings, with_topic, poll_failed_message}
use netix_protocol_core.Worker.Boot.{Boot, run_republisher}

-- `spawn_discovery`
unfoldable pub discovery : RepublishProtocol → List WorkerEvent
discovery proto = elim proto.discover [
  | ok outcome ↦
      log_warnings outcome.warnings
      ++ (devices outcome
          ∷ finished
              (lit "Discovery found " ++ (decimal (length outcome.devices) ++ lit " device(s)"))
          ∷ [])
  | err e ↦ log error (lit "Discovery failed: " ++ e.chain) ∷ finished (lit "Discovery failed") ∷ []
]

-- `spawn_browse`
unfoldable pub browsing : RepublishProtocol → DiscoveredDevice → List WorkerEvent
browsing proto device = elim (proto.browse 0 device) [
  | ok outcome ↦
      log_warnings outcome.warnings
      ++ (points outcome.points
          ∷ finished (
              lit "Browsed "
              ++ (decimal (length outcome.points) ++ (lit " point(s) on " ++ device.key)))
          ∷ [])
  | err e ↦ log error (lit "Browse failed: " ++ e.chain) ∷ finished (lit "Browse failed") ∷ []
]

abbrev pub import_points : ℕ → List DiscoveredPoint → List PointConfig
import_points interval found = map (λ p. point_from_discovered p interval) found

-- The local variables of the loop of `spawn_scan_all_objects`, and the events sent.
pub record Scan : Type 0 where
  pub imported : List PointConfig
  pub failures : ℕ
  pub events : List WorkerEvent

pub scanned_message : ℕ → ℕ → DiscoveredDevice → ℕ → Text
scanned_message idx total device count =
    lit "["
    ++ (decimal (suc idx)
        ++ (lit "/"
            ++ (decimal total
                ++ (lit "] "
                    ++ (device.key ++ (lit ": " ++ (decimal count ++ lit " object(s)")))))))

pub scan_failed_message : DiscoveredDevice → Error → Text
scan_failed_message device e = device.key ++ (lit ": scan failed: " ++ e.chain)

unfoldable pub scan_device : ℕ → ℕ → DiscoveredDevice → Result BrowseOutcome → Scan → Scan
scan_device total idx device (ok outcome) s = record s {
  imported = s.imported ++ import_points 10 outcome.points;
  events =
      s.events
      ++ (log_warnings outcome.warnings
          ++ (log info (scanned_message idx total device (length outcome.points))
              ∷ scan_progress device.key (suc idx) total
              ∷ []));
}
scan_device total idx device (err e) s = record s {
  failures = s.failures + 1;
  events =
      s.events
      ++ (log warning (scan_failed_message device e)
          ∷ scan_progress device.key (suc idx) total
          ∷ []);
}

unfoldable pub scan_devices : RepublishProtocol → ℕ → ℕ → List DiscoveredDevice → Scan → Scan
scan_devices proto total idx [] s = s
scan_devices proto total idx (d ∷ ds) s =
    scan_devices proto total (suc idx) ds (scan_device total idx d (proto.browse idx d) s)

pub scan_message : ℕ → ℕ → MergeImportResult → Text
scan_message total failed merge =
    lit "Scanned "
    ++ (decimal total
        ++ (lit " device(s) ("
            ++ (decimal failed
                ++ (lit " failure(s)) — "
                    ++ (decimal merge.added
                        ++ (lit " point(s) added, "
                            ++ (decimal merge.updated
                                ++ (lit " updated, "
                                    ++ (decimal (length merge.points) ++ lit " total")))))))))

abbrev pub scan_start : ℕ → Scan
scan_start total = record {
  imported = [];
  failures = 0;
  events =
      log info (lit "Scanning object lists for " ++ (decimal total ++ lit " device(s)"))
      ∷ scan_progress [] 0 total
      ∷ [];
}

abbrev pub finish_scan : ℕ → Scan → Option MergeImportResult → Option (List WorkerEvent)
finish_scan total s none = none
finish_scan total s (some merge) =
    some (s.events ++ (bulk_tag_import merge ∷ finished (scan_message total s.failures merge) ∷ []))

-- `spawn_scan_all_objects`
unfoldable pub scan_all_objects :
    RepublishProtocol → List DiscoveredDevice → List PointConfig → Option (List WorkerEvent)
scan_all_objects proto found existing =
    let total = length found in
    let s = scan_devices proto total 0 found (scan_start total) in
    finish_scan total s (merge_imported_points existing s.imported)

-- `discover_points`: the points imported and the warnings of the loop over the devices.
pub record Discovery : Type 0 where
  pub imported : List PointConfig
  pub warnings : List Text

abbrev pub default_poll_interval : ℕ
default_poll_interval = 30

pub browse_failed_message : DiscoveredDevice → Error → Text
browse_failed_message device e = device.key ++ (lit ": browse failed: " ++ e.chain)

unfoldable pub discover_device : DiscoveredDevice → Result BrowseOutcome → Discovery → Discovery
discover_device device (ok outcome) s = record {
  imported = s.imported ++ import_points default_poll_interval outcome.points;
  warnings = s.warnings ++ outcome.warnings;
}
discover_device device (err e) s = record s {
  warnings = s.warnings ++ browse_failed_message device e ∷ [];
}

unfoldable pub discover_devices :
    RepublishProtocol → ℕ → List DiscoveredDevice → Discovery → Discovery
discover_devices proto idx [] s = s
discover_devices proto idx (d ∷ ds) s =
    discover_devices proto (suc idx) ds (discover_device d (proto.browse idx d) s)

-- `none` is the panic
abbrev pub finish_discovery :
    List Text → Option MergeImportResult → Option (List PointConfig × List Text)
finish_discovery warnings none = none
finish_discovery warnings (some merged) = some (merged.points, warnings)

abbrev pub browse_found :
    RepublishProtocol → Result DiscoverOutcome → Result (Option (List PointConfig × List Text))
browse_found proto (err e) = err e
browse_found proto (ok found) =
    let s =
      discover_devices proto 0 found.devices
        (record { imported = []; warnings = found.warnings }) in
    ok (finish_discovery s.warnings (merge_imported_points [] s.imported))

unfoldable pub discover_points : RepublishProtocol → Result (Option (List PointConfig × List Text))
discover_points proto = browse_found proto proto.discover
