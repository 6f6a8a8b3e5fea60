-- ===== src/Worker/Loop.antt =====
-- crates/republish-core/src/worker/mod.rs: `run_republisher`, one function for each part of a cycle.
-- What a cycle meets is a `Tick`: the clock at each reading, the adapter's answers, and what the
-- event loop of the broker did to the publisher since the last cycle.
pub mod Polling
pub mod Lifecycle
use netix_protocol_core.Prelude.{
  ℕ, suc, ◌+◌, ◌-◌, ◌*◌, ◌≤◌, Bool, true, false, ◌&&◌, not, List, [], ◌∷◌, ◌++◌, map, Option, none,
  some, filter, filter_map, is_empty, length, leb, is_some, or_else, if◌then◌else◌,
}
use netix_protocol_core.Prelude.Int.{ℤ}
use netix_protocol_core.Prelude.Eq.{nat_eq, list_eq, pair_eq}
use netix_protocol_core.Prelude.Maps.{HashMap, HashSet, add, insert, update_or}
use netix_protocol_core.Text.{Text, lit}
use netix_protocol_core.Text.Numbers.{decimal}
use netix_protocol_core.Model.{
  PointConfig, PointSample, PointStatus, PollOutcome, RefreshOutcome, default_status, record_sample,
}
use netix_protocol_core.Model.Identity.{PointIdentity, from_point}
use netix_protocol_core.Config.{MqttConfig}
use netix_protocol_core.Topic.{telemetry_topic}
use netix_protocol_core.Backoff.{
  DeviceBackoff, LogLevel, info, warning, error, second, as_secs, update_device_backoffs,
}
use netix_protocol_core.Mqtt.{HealthSnapshot}
use netix_protocol_core.Mqtt.Publisher.{MqttPublisher, Error, publish_health}
use netix_protocol_core.Worker.Events.{
  WorkerEvent, log, samples, failures, publish_status, lifecycle, running, stopping, stopped,
  Result, ok, err,
}
use netix_protocol_core.Worker.Devices.{device_instance, due_points, unique_device_instances}
use netix_protocol_core.Worker.Refresh.{
  Statuses, Resolving, apply_refresh_state, emit_refresh_state_change, record_failures,
  record_unresolved_failures,
}
use netix_protocol_core.Worker.Publish.{Publishing, publish_samples}
use netix_protocol_core.Worker.State.{
  LoopIntervals, default_intervals, Job, Tick, LoopState, elapsed, rejected_message,
  keepalive_failed_message, resolve_failed_message, poll_failed_message, health_failed_message,
  log_all, log_warnings, mark_polled, with_topic, record_samples, to_set, stale_points,
}

module _ {P : Type 0} (broker : MqttPublisher P) (job : Job) where
  abbrev send : List WorkerEvent → LoopState P → LoopState P
  send es s = record s { events = s.events ++ es }

  -- `fresh_fatal_rejection` and what follows it
  unfoldable pub report_fatal : LoopState P → LoopState P
  report_fatal s =
      elim (if s.fatal_reported then none else broker.connection_fatal_error s.publisher) [
        | none ↦ s
        | some message ↦ record s {
          last_error = some message;
          fatal_reported = true;
          events = s.events ++ log warning (rejected_message message) ∷ [];
        }
      ]

  -- A refresh that succeeded.
  unfoldable pub take_refresh : Text → RefreshOutcome → LoopState P → LoopState P
  take_refresh label refresh s =
      let r = apply_refresh_state s.unresolved s.backoffs refresh in
      let (statuses, es) = emit_refresh_state_change job.points label r.change s.statuses in
      record s {
        unresolved = r.unresolved;
        backoffs = r.backoffs;
        statuses = statuses;
        events = s.events ++ es;
      }

  unfoldable pub keepalive : Tick P → LoopState P → LoopState P
  keepalive t s =
      let s' : LoopState P = record s {
        last_full_refresh = t.full_refresh_at;
        last_resolve_attempt = t.resolve_at;
      } in
      elim (t.refresh (unique_device_instances job.points)) [
        | ok refresh ↦ take_refresh (lit "device table keepalive") refresh s'
        | err e ↦ send (log warning (keepalive_failed_message e) ∷ []) s'
      ]

  unfoldable pub reresolve : Tick P → LoopState P → LoopState P
  reresolve t s =
      let s' : LoopState P = record s { last_resolve_attempt = t.resolve_at } in
      elim (t.refresh s.unresolved) [
        | ok refresh ↦ take_refresh (lit "device re-resolution") refresh s'
        | err e ↦ send (log warning (resolve_failed_message e) ∷ []) s'
      ]

  -- The keepalive refresh if it is due, else the resolution of unresolved devices if that is.
  unfoldable pub refresh_devices : Tick P → LoopState P → LoopState P
  refresh_devices t s =
      if elapsed t.keepalive_checked s.last_full_refresh job.intervals.keepalive
      then keepalive t s
      else if not (is_empty s.unresolved)
          && elapsed t.resolve_checked s.last_resolve_attempt job.intervals.reresolve
      then reresolve t s
      else s

  -- The reads of a poll that succeeded: backoffs, poll times, warnings and failures.
  unfoldable pub take_reads : ℕ → List PointConfig → PollOutcome → LoopState P → LoopState P
  take_reads now due outcome s =
      let polled = to_set (filter_map device_instance due) in
      let (backoffs, messages) =
        update_device_backoffs s.backoffs polled outcome now job.backoff_max device_instance in
      record s {
        backoffs = backoffs;
        last_poll = mark_polled now due s.last_poll;
        statuses = record_failures outcome.failures s.statuses;
        cycle_failed_reads = s.cycle_failed_reads + length outcome.failures;
        events =
            s.events
            ++ (log_all messages
                ++ (log_warnings outcome.warnings
                    ++ (if is_empty outcome.failures then [] else failures outcome.failures ∷ [])));
      }

  -- Its samples: topics, statuses, publishing and the counters.
  unfoldable pub take_samples : List PointSample → LoopState P → LoopState P
  take_samples found s =
      let sent = map (with_topic job.mqtt) found in
      let p = publish_samples broker job.mqtt sent s.publisher (record_samples sent s.statuses) in
      record s {
        publisher = p.publisher;
        statuses = p.statuses;
        cycle_published = s.cycle_published + p.stats.published;
        cycle_failed_publishes = s.cycle_failed_publishes + p.stats.failed;
        reconnects = p.stats.reconnects;
        acked = p.stats.acked;
        last_error = or_else p.stats.last_error s.last_error;
        events = s.events ++ (p.events ++ (samples sent ∷ publish_status p.stats ∷ []));
      }

  unfoldable pub take_poll : ℕ → List PointConfig → Result PollOutcome → LoopState P → LoopState P
  take_poll now due (ok outcome) s =
      let s' = take_reads now due outcome s in
      if is_empty outcome.samples then s' else take_samples outcome.samples s'
  take_poll now due (err e) s = record s {
    last_error = some e.message;
    events = s.events ++ log error (poll_failed_message e) ∷ [];
  }

  abbrev pub due_now : Tick P → LoopState P → List PointConfig
  due_now t s = due_points t.now job.points s.unresolved s.backoffs s.last_poll

  unfoldable pub poll_due : Tick P → LoopState P → LoopState P
  poll_due t s =
      let due = due_now t s in if is_empty due then s else take_poll t.now due (t.poll due) s

  abbrev pub snapshot : LoopState P → HealthSnapshot
  snapshot s = record {
    published = s.cycle_published;
    acked = s.acked;
    failed_reads = s.cycle_failed_reads;
    failed_publishes = s.cycle_failed_publishes;
    stale_points = stale_points s.statuses;
    reconnects = s.reconnects;
    last_error = s.last_error;
  }

  abbrev pub health_events : Option Error → List WorkerEvent
  health_events none = []
  health_events (some e) = log warning (health_failed_message e) ∷ []

  unfoldable pub report_health : Tick P → LoopState P → LoopState P
  report_health t s =
      let (result, publisher) = publish_health broker job.mqtt (snapshot s) t.millis s.publisher in
      if elapsed t.health_checked s.last_health job.intervals.health
      then record s {
        publisher = publisher;
        last_health = t.health_at;
        cycle_published = 0;
        cycle_failed_reads = 0;
        cycle_failed_publishes = 0;
        events = s.events ++ health_events result;
      }
      else s

  -- A cycle up to its poll.
  unfoldable pub before_poll : Tick P → LoopState P → LoopState P
  before_poll t s = refresh_devices t (report_fatal (record s { publisher = t.link s.publisher }))

  -- One cycle of the loop.
  unfoldable pub cycle : Tick P → LoopState P → LoopState P
  cycle t s = report_health t (poll_due t (before_poll t s))

  -- The cycles until `stop` is set.
  unfoldable pub cycles : List (Tick P) → LoopState P → LoopState P
  cycles [] s = s
  cycles (t ∷ ts) s = cycles ts (cycle t s)
