-- ===== src/Worker/Republisher.antt =====
-- crates/republish-core/src/worker/mod.rs: `spawn_poll_once` and `spawn_republisher`, by the events
-- that the thread sends. `RumqttPublisher::new` is an argument, by its answer.
pub mod Starting
use netix_protocol_core.Prelude.{
  Bool, true, false, ◌&&◌, not, List, [], ◌∷◌, ◌++◌, map, Option, none, some, any, filter, is_empty,
  length, if◌then◌else◌,
}
use netix_protocol_core.Text.{Text, lit}
use netix_protocol_core.Text.Numbers.{decimal}
use netix_protocol_core.Model.{Addressing, PointConfig, PollOutcome}
use netix_protocol_core.Config.{MqttConfig}
use netix_protocol_core.Backoff.{LogLevel, info, warning, error}
use netix_protocol_core.Mqtt.Publisher.{MqttPublisher, Error}
use netix_protocol_core.Worker.Events.{
  WorkerEvent, log, samples, failures, publish_status, lifecycle, finished, starting, failed,
  Result, ok, err,
}
use netix_protocol_core.Worker.Adapter.{RepublishProtocol, supports_discovery}
use netix_protocol_core.Worker.Publish.{publish_samples}
use netix_protocol_core.Worker.Devices.{device_backoff_max, is_enabled}
use netix_protocol_core.Worker.State.{
  Job, Tick, default_intervals, log_warnings, with_topic, poll_failed_message,
}
use netix_protocol_core.Worker.Boot.{Boot, run_republisher}
use netix_protocol_core.Worker.Start.{discover_points}

abbrev mqtt_failed_message : Error → Text
mqtt_failed_message e = lit "MQTT publisher failed: " ++ e.chain

-- The poll of `spawn_poll_once` that succeeded; the per-point statuses start empty.
unfoldable publish_poll :
    {P : Type 0} → MqttPublisher P → MqttConfig → PollOutcome → P → List WorkerEvent
publish_poll broker mqtt outcome publisher =
    let sent = map (with_topic mqtt) outcome.samples in
    let p = publish_samples broker mqtt sent publisher [] in
    log_warnings outcome.warnings
    ++ ((if is_empty outcome.failures then [] else failures outcome.failures ∷ [])
        ++ ((if is_empty outcome.samples
              then []
              else p.events ++ (samples sent ∷ publish_status p.stats ∷ []))
            ++ finished (lit "Poll once complete") ∷ []))

-- `spawn_poll_once`
unfoldable poll_once :
    {P : Type 0}
    → MqttPublisher P
    → RepublishProtocol
    → MqttConfig
    → List PointConfig
    → Result P
    → List WorkerEvent
poll_once broker proto mqtt points connected =
    let enabled = filter is_enabled points in
    if is_empty enabled then finished (lit "No enabled points to poll") ∷ [] else elim connected [
      | err e ↦ log error (mqtt_failed_message e) ∷ finished (lit "Poll once failed") ∷ []
      | ok publisher ↦ elim (proto.poll enabled) [
        | err e ↦ log error (poll_failed_message e) ∷ finished (lit "Poll once failed") ∷ []
        | ok outcome ↦ publish_poll broker mqtt outcome publisher
      ]
    ]

unfoldable pub no_points_message : Bool → Bool → Text
no_points_message true true =
    lit "discover_on_start=true but discovery found no pollable points; nothing to publish"
no_points_message true false =
    lit
      "discover_on_start=true but the selected protocol does not support discovery; nothing to publish"
no_points_message false supported =
    lit "no enabled points and discover_on_start=false; nothing to publish"

pub discovery_failed_message : Error → Text
discovery_failed_message e = lit "discover_on_start discovery failed: " ++ e.chain

pub built_message : List PointConfig → Text
built_message found =
    lit "discover_on_start built " ++ (decimal (length found) ++ lit " point(s) from discovery")

-- The points to poll, or the message of the failed start, with what is logged of it.
pub data Resolved : Type 0 where
  resolved : List PointConfig → List WorkerEvent → Resolved
  failed_start : Text → List WorkerEvent → Resolved

abbrev pub need_enabled : Text → List PointConfig → List WorkerEvent → Resolved
need_enabled message points es =
    if any is_enabled points
    then resolved points es
    else failed_start message (es ++ log warning message ∷ [])

abbrev pub take_discovered :
    Text → Result (Option (List PointConfig × List Text)) → List WorkerEvent → Option Resolved
take_discovered message (err e) es =
    some (
      failed_start (discovery_failed_message e) (es ++ log error (discovery_failed_message e) ∷ []))
take_discovered message (ok none) es = none
take_discovered message (ok (some (found, warnings))) es = some (
    need_enabled message found
      (es ++ (log_warnings warnings ++ log info (built_message found) ∷ [])))

-- `none` is the panic of `discover_points`.
unfoldable pub resolve_points : RepublishProtocol → List PointConfig → Bool → Option Resolved
resolve_points proto points discover_on_start =
    let supported = supports_discovery proto.capabilities in
    let message = no_points_message discover_on_start supported in
    if any is_enabled points
    then some (resolved points [])
    else if discover_on_start && supported
    then take_discovered message (discover_points proto) (
        log info (lit "No enabled points; discover_on_start=true — discovering devices to poll")
        ∷ [])
    else some (need_enabled message points [])

abbrev pub job_of : MqttConfig → Addressing → List PointConfig → Job
job_of mqtt conn points = record {
  mqtt = mqtt;
  points = points;
  backoff_max = device_backoff_max conn;
  intervals = default_intervals;
}

-- The loop starts with the resolved points if the publisher can be built.
unfoldable pub start_loop :
    {P : Type 0}
    → MqttPublisher P
    → MqttConfig
    → Addressing
    → Boot
    → List (Tick P)
    → Result P
    → Resolved
    → List WorkerEvent
start_loop broker mqtt conn boot ticks connected (failed_start message es) =
    es ++ lifecycle (failed message) ∷ []
start_loop broker mqtt conn boot ticks (err e) (resolved points es) =
    es ++ lifecycle (failed e.message) ∷ []
start_loop broker mqtt conn boot ticks (ok publisher) (resolved points es) =
    es ++ run_republisher broker (job_of mqtt conn points) boot ticks publisher

-- `spawn_republisher`, on a runtime that starts, for a body that does not panic.
unfoldable pub start_republisher :
    {P : Type 0}
    → MqttPublisher P
    → RepublishProtocol
    → MqttConfig
    → Addressing
    → List PointConfig
    → Bool
    → Boot
    → List (Tick P)
    → Result P
    → Option (List WorkerEvent)
start_republisher broker proto mqtt conn points discover_on_start boot ticks connected =
    elim (resolve_points proto points discover_on_start) [
      | none ↦ none
      | some r ↦ some (lifecycle starting ∷ start_loop broker mqtt conn boot ticks connected r)
    ]
