-- ===== src/Worker/Boot.antt =====
-- The start of `run_republisher` (crates/republish-core/src/worker/mod.rs): the first refresh, the state
-- in which the loop starts, and the whole run.
use netix_protocol_core.Prelude.{
  ℕ, ◌-◌, false, List, [], ◌∷◌, ◌++◌, none, is_empty, length, leb, if◌then◌else◌,
}
use netix_protocol_core.Prelude.Eq.{nat_eq, list_eq, pair_eq}
use netix_protocol_core.Prelude.Maps.{HashSet}
use netix_protocol_core.Text.{Text, lit}
use netix_protocol_core.Text.Numbers.{decimal}
use netix_protocol_core.Model.{RefreshOutcome}
use netix_protocol_core.Backoff.{warning, as_secs}
use netix_protocol_core.Mqtt.Publisher.{MqttPublisher, Error}
use netix_protocol_core.Worker.Events.{
  WorkerEvent, log, lifecycle, running, stopping, stopped, Result, ok, err,
}
use netix_protocol_core.Worker.Devices.{unique_device_instances}
use netix_protocol_core.Worker.Refresh.{record_unresolved_failures}
use netix_protocol_core.Worker.State.{Job, Tick, LoopState, to_set}
use netix_protocol_core.Worker.Loop.{cycles}

-- The clock readings and the first refresh before the loop.
pub record Boot : Type 0 where
  pub refresh : List ℕ → Result RefreshOutcome
  pub resolve_at : ℕ
  pub full_refresh_at : ℕ
  pub health_now : ℕ
  pub health_fallback : ℕ

pub skipped_message : ℕ → ℕ → ℕ → Text
skipped_message missing total reresolve =
    decimal missing
    ++ (lit " of "
        ++ (decimal total
            ++ (lit
                  " device(s) not in I-Am cache; their points will be skipped (resolution retried every "
                ++ (decimal (as_secs reresolve) ++ lit "s)"))))

pub refresh_failed_message : Error → Text
refresh_failed_message e = lit "Device table refresh failed: " ++ e.chain

-- The unresolved devices after the first refresh, and what is logged of it.
unfoldable pub first_refresh : Job → Result RefreshOutcome → HashSet ℕ × List WorkerEvent
first_refresh job (ok refresh) = (
  to_set refresh.unresolved,
  if is_empty refresh.unresolved
      then []
      else log warning (
          skipped_message (length refresh.unresolved) (length (unique_device_instances job.points))
            job.intervals.reresolve)
        ∷ [],
)
first_refresh job (err e) = ([], log warning (refresh_failed_message e) ∷ [])

-- The state in which the loop starts.
unfoldable pub boot_state : {P : Type 0} → Job → Boot → P → LoopState P
boot_state job boot publisher =
    let (unresolved, logged) =
      first_refresh job (boot.refresh (unique_device_instances job.points)) in
    let (statuses, reported) = record_unresolved_failures job.points unresolved [] in
    record {
      publisher = publisher;
      unresolved = unresolved;
      backoffs = [];
      last_poll = [];
      statuses = statuses;
      last_resolve_attempt = boot.resolve_at;
      last_full_refresh = boot.full_refresh_at;
      last_health =
          if leb job.intervals.health boot.health_now
          then boot.health_now - job.intervals.health
          else boot.health_fallback;
      cycle_published = 0;
      cycle_failed_reads = 0;
      cycle_failed_publishes = 0;
      reconnects = 0;
      acked = 0;
      last_error = none;
      fatal_reported = false;
      events = lifecycle running ∷ (logged ++ reported);
    }

-- `run_republisher`: the events sent, if `stop` is found set after the cycles.
unfoldable pub run_republisher :
    {P : Type 0} → MqttPublisher P → Job → Boot → List (Tick P) → P → List WorkerEvent
run_republisher broker job boot ticks publisher =
    (cycles broker job ticks (boot_state job boot publisher)).events
    ++ (lifecycle stopping ∷ lifecycle stopped ∷ [])
