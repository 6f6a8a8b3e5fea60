-- ===== src/Worker/Loop/Lifecycle.antt =====
-- The lifecycle events of the loop of crates/republish-core/src/worker/mod.rs.
use netix_protocol_core.Prelude.{
  ℕ, ◌≡◌, refl, ap, ◌∙◌, List, [], ◌∷◌, ◌++◌, Option, none, some, arith, is_empty, Option-cases,
  inl, inr, if◌then◌else◌,
}
use netix_protocol_core.Prelude.Eq.{nat_eq, list_eq, pair_eq}
use netix_protocol_core.Text.{Text, lit}
use netix_protocol_core.Model.{PointConfig, PointFailure, PointSample, PollOutcome, RefreshOutcome}
use netix_protocol_core.Mqtt.Publisher.{MqttPublisher, Error, publish_health}
use netix_protocol_core.Worker.Events.{
  failures, lifecycle, running, stopping, stopped, Result, ok, err, Result-cases,
}
use netix_protocol_core.Worker.State.{Job, Tick, LoopState}
use netix_protocol_core.Worker.Loop.{
  due_now, snapshot, report_fatal, take_refresh, keepalive, reresolve, refresh_devices, take_reads,
  take_samples, take_poll, poll_due, report_health, health_events, before_poll, cycle, cycles,
}
use netix_protocol_core.Worker.Boot.{Boot, first_refresh, boot_state, run_republisher}
use netix_protocol_core.Worker.Devices.{unique_device_instances}
use netix_protocol_core.Worker.Lifecycles.{
  lifecycles, lifecycles-append, lifecycles-Quiet, Quiet, Quiet-append, Quiet-log_warnings,
  Quiet-log_all, Quiet-record_unresolved_failures, Quiet-emit_refresh_state_change,
  Quiet-publish_samples,
}

module _ {P : Type 0} (broker : MqttPublisher P) (job : Job) where
  report_fatal-quiet :
      (s : LoopState P) → lifecycles (report_fatal broker job s).events ≡ lifecycles s.events
  unfolding report_fatal
  report_fatal-quiet s =
      elim (Option-cases
        (if s.fatal_reported then none else broker.connection_fatal_error s.publisher)) [
          | inl e ↦ rw (e, report_fatal) refl
          | inr (message, e) ↦
              rw (e, report_fatal) (lifecycles-Quiet s.events (record { silent = refl }))
        ]

  take_refresh-quiet :
      (label : Text) (refresh : RefreshOutcome) (s : LoopState P)
      → lifecycles (take_refresh broker job label refresh s).events ≡ lifecycles s.events
  unfolding take_refresh
  take_refresh-quiet label refresh s =
      lifecycles-Quiet s.events (Quiet-emit_refresh_state_change job.points label _ s.statuses)

  keepalive-quiet :
      (t : Tick P) (s : LoopState P)
      → lifecycles (keepalive broker job t s).events ≡ lifecycles s.events
  unfolding keepalive
  keepalive-quiet t s = elim (Result-cases (t.refresh (unique_device_instances job.points))) [
    | inl (refresh, e) ↦
        rw (e, keepalive)
          (take_refresh-quiet (lit "device table keepalive") refresh (record s {
            last_full_refresh = t.full_refresh_at;
            last_resolve_attempt = t.resolve_at;
          }))
    | inr (error, e) ↦ rw (e, keepalive) (lifecycles-Quiet s.events (record { silent = refl }))
  ]

  reresolve-quiet :
      (t : Tick P) (s : LoopState P)
      → lifecycles (reresolve broker job t s).events ≡ lifecycles s.events
  unfolding reresolve
  reresolve-quiet t s = elim (Result-cases (t.refresh s.unresolved)) [
    | inl (refresh, e) ↦
        rw (e, reresolve)
          (take_refresh-quiet (lit "device re-resolution") refresh
            (record s { last_resolve_attempt = t.resolve_at }))
    | inr (error, e) ↦ rw (e, reresolve) (lifecycles-Quiet s.events (record { silent = refl }))
  ]

  refresh_devices-quiet :
      (t : Tick P) (s : LoopState P)
      → lifecycles (refresh_devices broker job t s).events ≡ lifecycles s.events
  unfolding refresh_devices
  refresh_devices-quiet t s = ground (arith, keepalive-quiet t s, reresolve-quiet t s)

  take_reads-quiet :
      (now : ℕ) (due : List PointConfig) (outcome : PollOutcome) (s : LoopState P)
      → lifecycles (take_reads broker job now due outcome s).events ≡ lifecycles s.events
  unfolding take_reads
  take_reads-quiet now due outcome s = lifecycles-Quiet s.events (
      Quiet-append (Quiet-log_all _)
        (Quiet-append (Quiet-log_warnings outcome.warnings) (last outcome.failures)))
    where
      last : (fs : List PointFailure) → Quiet (if is_empty fs then [] else failures fs ∷ [])
      last [] = record { silent = refl }
      last (f ∷ fs) = record { silent = refl }

  take_samples-quiet :
      (found : List PointSample) (s : LoopState P)
      → lifecycles (take_samples broker job found s).events ≡ lifecycles s.events
  unfolding take_samples
  take_samples-quiet found s = lifecycles-Quiet s.events (
      Quiet-append (Quiet-publish_samples broker job.mqtt _ s.publisher _)
        (record { silent = refl }))

  take_poll-quiet :
      (now : ℕ) (due : List PointConfig) (r : Result PollOutcome) (s : LoopState P)
      → lifecycles (take_poll broker job now due r s).events ≡ lifecycles s.events
  unfolding take_poll
  take_poll-quiet now due (ok outcome) s = ground (
    arith,
    take_reads-quiet now due outcome s,
    take_samples-quiet outcome.samples (take_reads broker job now due outcome s),
  )
  take_poll-quiet now due (err e) s = lifecycles-Quiet s.events (record { silent = refl })

  poll_due-quiet :
      (t : Tick P) (s : LoopState P)
      → lifecycles (poll_due broker job t s).events ≡ lifecycles s.events
  unfolding poll_due
  poll_due-quiet t s =
      ground
        (arith, take_poll-quiet t.now (due_now broker job t s) (t.poll (due_now broker job t s)) s)

  Quiet-health_events : (r : Option Error) → Quiet (health_events broker job r)
  Quiet-health_events none = record { silent = refl }
  Quiet-health_events (some e) = record { silent = refl }

  report_health-quiet :
      (t : Tick P) (s : LoopState P)
      → lifecycles (report_health broker job t s).events ≡ lifecycles s.events
  unfolding report_health
  report_health-quiet t s =
      let result =
        (publish_health broker job.mqtt (snapshot broker job s) t.millis s.publisher).0 in
      ground (arith, lifecycles-Quiet s.events (Quiet-health_events result))

  cycle-quiet :
      (t : Tick P) (s : LoopState P)
      → lifecycles (cycle broker job t s).events ≡ lifecycles s.events
  unfolding cycle before_poll
  cycle-quiet t s =
      report_health-quiet t _
      ∙ poll_due-quiet t _
      ∙ refresh_devices-quiet t _
      ∙ report_fatal-quiet _

  cycles-quiet :
      (ts : List (Tick P)) (s : LoopState P)
      → lifecycles (cycles broker job ts s).events ≡ lifecycles s.events
  unfolding cycles
  cycles-quiet [] s = refl
  cycles-quiet (t ∷ ts) s = cycles-quiet ts (cycle broker job t s) ∙ cycle-quiet t s

  boot_state-lifecycles :
      (boot : Boot) (p : P) → lifecycles (boot_state job boot p).events ≡ running ∷ []
  unfolding boot_state first_refresh
  boot_state-lifecycles boot p =
      ap (λ r. running ∷ r)
        (Quiet-append (first (boot.refresh (unique_device_instances job.points)))
          (Quiet-record_unresolved_failures job.points _ [])).silent
    where
      first : (r : Result RefreshOutcome) → Quiet (first_refresh job r).1
      first (ok refresh) = record { silent = ground arith }
      first (err e) = record { silent = refl }

-- Whatever the adapter, the broker and the clock do in however many cycles, the loop reports that it
-- is running when it starts, that it is stopping and stopped when it ends, and no other lifecycle.
pub run_republisher-lifecycles :
    {P : Type 0} (broker : MqttPublisher P) (job : Job) (boot : Boot) (ts : List (Tick P)) (p : P)
    → lifecycles (run_republisher broker job boot ts p) ≡ running ∷ stopping ∷ stopped ∷ []
unfolding run_republisher
run_republisher-lifecycles broker job boot ts p =
    lifecycles-append (cycles broker job ts (boot_state job boot p)).events
      (lifecycle stopping ∷ lifecycle stopped ∷ [])
    ∙ ap (λ r. r ++ (stopping ∷ stopped ∷ []))
        (cycles-quiet broker job ts (boot_state job boot p)
          ∙ boot_state-lifecycles broker job boot p)
