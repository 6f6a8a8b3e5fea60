-- ===== src/Worker/Start/Scanning.antt =====
-- The scan of all objects and the discovery of points in crates/republish-core/src/worker/mod.rs.
use netix_protocol_core.Prelude.{
  ℕ, suc, ◌+◌, ◌≡◌, refl, sym, ap, ◌∙◌, List, [], ◌∷◌, ◌++◌, some, arith, length,
}
use mathlib.Core.List.{append_assoc, append-nil}
use netix_protocol_core.Text.{Text}
use netix_protocol_core.Model.{BrowseOutcome, DiscoverOutcome, DiscoveredDevice, PointConfig}
use netix_protocol_core.Import.{MergeImportResult, merge_imported_points}
use netix_protocol_core.Import.Identities.{identities, fresh}
use netix_protocol_core.Import.Merging.{
  DistinctIds, merge_imported_points-IsMerge, merge-DistinctIds,
}
use netix_protocol_core.Worker.Events.{
  WorkerEvent, scan_progress, bulk_tag_import, finished, Result, ok, err,
}
use netix_protocol_core.Worker.Adapter.{RepublishProtocol}
use netix_protocol_core.Worker.State.{log_warnings}
use netix_protocol_core.Worker.Start.{
  Scan, Discovery, scan_device, scan_devices, scan_start, scan_message, finish_scan,
  finish_discovery, browse_found, scan_all_objects, import_points, discover_device,
  discover_devices, discover_points, default_poll_interval,
}

-- The progress that events report.
abbrev pub progress : List WorkerEvent → List (Text × ℕ × ℕ)
progress [] = []
progress (scan_progress key current total ∷ es) = (key, current, total) ∷ progress es
progress (_ ∷ es) = progress es

progress-append : (xs ys : List WorkerEvent) → progress (xs ++ ys) ≡ progress xs ++ progress ys
progress-append [] ys = refl
progress-append (scan_progress key current total ∷ xs) ys =
    ap (λ r. (key, current, total) ∷ r) (progress-append xs ys)
progress-append (_ ∷ xs) ys = progress-append xs ys

progress-log_warnings :
    (ws : List Text) (es : List WorkerEvent) → progress (log_warnings ws ++ es) ≡ progress es
progress-log_warnings [] es = refl
progress-log_warnings (w ∷ ws) es = progress-log_warnings ws es

-- The points of an answer to `browse`, and 1 if it is an error.
abbrev points_of : ℕ → Result BrowseOutcome → List PointConfig
points_of interval (ok outcome) = import_points interval outcome.points
points_of interval (err e) = []

abbrev failure_of : Result BrowseOutcome → ℕ
failure_of (ok outcome) = 0
failure_of (err e) = 1

-- The points of all devices in order, the number that failed, and the devices numbered.
abbrev pub browsed : ℕ → RepublishProtocol → ℕ → List DiscoveredDevice → List PointConfig
browsed interval proto idx [] = []
browsed interval proto idx (d ∷ ds) =
    points_of interval (proto.browse idx d) ++ browsed interval proto (suc idx) ds

abbrev pub failed_browses : RepublishProtocol → ℕ → List DiscoveredDevice → ℕ
failed_browses proto idx [] = 0
failed_browses proto idx (d ∷ ds) =
    failure_of (proto.browse idx d) + failed_browses proto (suc idx) ds

abbrev pub numbered : ℕ → ℕ → List DiscoveredDevice → List (Text × ℕ × ℕ)
numbered total idx [] = []
numbered total idx (d ∷ ds) = (d.key, suc idx, total) ∷ numbered total (suc idx) ds

-- What the loop adds to the points, the failures and the progress.
record Scanned (found : List PointConfig) (failed : ℕ) (added : List (Text × ℕ × ℕ)) (s t : Scan)
    : Type 0 where
  imported : t.imported ≡ s.imported ++ found
  failures : t.failures ≡ s.failures + failed
  steps : progress t.events ≡ progress s.events ++ added

scan_device-Scanned :
    (total idx : ℕ) (d : DiscoveredDevice) (r : Result BrowseOutcome) (s : Scan)
    → Scanned
        (points_of 10 r)
        (failure_of r)
        ((d.key, suc idx, total) ∷ [])
        s
        (scan_device total idx d r s)
unfolding scan_device
scan_device-Scanned total idx d (ok outcome) s = record {
  imported = refl;
  failures = omega arith;
  steps =
      progress-append s.events _
      ∙ ap (λ r. progress s.events ++ r) (progress-log_warnings outcome.warnings _);
}
scan_device-Scanned total idx d (err e) s = record {
  imported = sym (append-nil s.imported);
  failures = omega arith;
  steps = progress-append s.events _;
}

scan_devices-Scanned :
    (proto : RepublishProtocol) (total idx : ℕ) (ds : List DiscoveredDevice) (s : Scan)
    → Scanned
        (browsed 10 proto idx ds)
        (failed_browses proto idx ds)
        (numbered total idx ds)
        s
        (scan_devices proto total idx ds s)
unfolding scan_devices
scan_devices-Scanned proto total idx [] s = record {
  imported = sym (append-nil s.imported);
  failures = omega arith;
  steps = sym (append-nil (progress s.events));
}
scan_devices-Scanned proto total idx (d ∷ ds) s =
    let answer = proto.browse idx d in
    let one = scan_device-Scanned total idx d answer s in
    let rest = scan_devices-Scanned proto total (suc idx) ds (scan_device total idx d answer s) in
    record {
      imported =
          rest.imported
          ∙ rw (one.imported)
              (append_assoc s.imported (points_of 10 answer) (browsed 10 proto (suc idx) ds));
      failures = omega (arith, one.failures, rest.failures);
      steps =
          rest.steps
          ∙ rw (one.steps) (
              append_assoc (progress s.events) ((d.key, suc idx, total) ∷ [])
                (numbered total (suc idx) ds));
    }

-- A scan always completes, whatever the devices answer: it reports a progress of 0 and then each
-- device in order with its number of the total, merges the points of all devices that answered into
-- the existing ones, and ends with the merge and a summary that counts the devices that failed.
pub scan_all_objects-completes :
    (proto : RepublishProtocol) (ds : List DiscoveredDevice) (existing : List PointConfig)
    → (before : List WorkerEvent) × (merge : MergeImportResult) × (scan_all_objects proto ds
          existing
        ≡ some (
            before
            ++ (bulk_tag_import merge
                ∷ finished (scan_message (length ds) (failed_browses proto 0 ds) merge)
                ∷ [])))
      × (merge_imported_points existing (browsed 10 proto 0 ds) ≡ some merge)
      × (progress before ≡ ([], 0, length ds) ∷ numbered (length ds) 0 ds)
unfolding scan_all_objects
scan_all_objects-completes proto ds existing =
    let scanned = scan_devices-Scanned proto (length ds) 0 ds (scan_start (length ds)) in
    let s = scan_devices proto (length ds) 0 ds (scan_start (length ds)) in
    let counted : s.failures ≡ failed_browses proto 0 ds = omega (arith, scanned.failures) in
    let (merge, e, _) = merge_imported_points-IsMerge existing (browsed 10 proto 0 ds) in
    (
      s.events,
      merge,
      ap (λ i. finish_scan (length ds) s (merge_imported_points existing i)) scanned.imported
          ∙ ap (finish_scan (length ds) s) e
          ∙ ap
              (λ n. some (
                s.events
                ++ (bulk_tag_import merge ∷ finished (scan_message (length ds) n merge) ∷ [])))
              counted,
      e,
      scanned.steps,
    )

imported-discover_devices :
    (proto : RepublishProtocol) (idx : ℕ) (ds : List DiscoveredDevice) (s : Discovery)
    → (discover_devices proto idx ds s).imported
      ≡ s.imported ++ browsed default_poll_interval proto idx ds
unfolding discover_devices discover_device
imported-discover_devices proto idx [] s = sym (append-nil s.imported)
imported-discover_devices proto idx (d ∷ ds) s =
    imported-discover_devices proto (suc idx) ds (discover_device d (proto.browse idx d) s)
    ∙ rw (one (proto.browse idx d)) (
        append_assoc s.imported (points_of default_poll_interval (proto.browse idx d))
          (browsed default_poll_interval proto (suc idx) ds))
  where
    one :
        (r : Result BrowseOutcome)
        → (discover_device d r s).imported ≡ s.imported ++ points_of default_poll_interval r
    one (ok outcome) = refl
    one (err e) = sym (append-nil s.imported)

-- When discovery answers, the points built from it are one for each distinct identity among the
-- points of the devices that could be browsed, in the order of discovery, without a panic.
pub discover_points-DistinctIds :
    (proto : RepublishProtocol) {found : DiscoverOutcome}
    → proto.discover ≡ ok found
    → (points : List PointConfig) × (warnings : List Text) × (discover_points proto
        ≡ ok (some (points, warnings)))
      × (identities points
          ≡ fresh [] (identities (browsed default_poll_interval proto 0 found.devices)))
      × DistinctIds (identities points)
discover_points-DistinctIds proto {found} h =
    let s =
      discover_devices proto 0 found.devices
        (record { imported = []; warnings = found.warnings }) in
    let all = browsed default_poll_interval proto 0 found.devices in
    let same : s.imported ≡ all =
      imported-discover_devices proto 0 found.devices
        (record { imported = []; warnings = found.warnings }) in
    let (merge, e, m) = merge_imported_points-IsMerge [] all in
    (
      merge.points,
      s.warnings,
      unfold discover_points in
          (ap (browse_found proto) h
            ∙ ap (λ i. ok (finish_discovery s.warnings (merge_imported_points [] i))) same
            ∙ ap (λ r. ok (finish_discovery s.warnings r)) e),
      m.ids,
      merge-DistinctIds [] all e tt,
    )
