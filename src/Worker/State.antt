-- ===== src/Worker/State.antt =====
-- The state of the loop of crates/republish-core/src/worker/mod.rs (`run_republisher`): what stays the
-- same, what a cycle meets, the local variables, and the helpers on statuses and poll times.
use netix_protocol_core.Prelude.{
  ℕ, suc, ◌-◌, ◌*◌, Bool, List, [], ◌∷◌, ◌++◌, map, Option, leb, if◌then◌else◌,
}
use netix_protocol_core.Prelude.Int.{ℤ}
use netix_protocol_core.Prelude.Eq.{nat_eq, list_eq, pair_eq}
use netix_protocol_core.Prelude.Maps.{HashMap, HashSet, add, insert, update_or}
use netix_protocol_core.Text.{Text, lit}
use netix_protocol_core.Model.{
  PointConfig, PointSample, PollOutcome, RefreshOutcome, default_status, record_sample,
}
use netix_protocol_core.Model.Identity.{PointIdentity, from_point}
use netix_protocol_core.Config.{MqttConfig}
use netix_protocol_core.Topic.{telemetry_topic}
use netix_protocol_core.Backoff.{DeviceBackoff, LogLevel, warning, second}
use netix_protocol_core.Mqtt.Publisher.{Error}
use netix_protocol_core.Worker.Events.{WorkerEvent, log, Result}
use netix_protocol_core.Worker.Refresh.{Statuses}

pub record LoopIntervals : Type 0 where
  pub health : ℕ
  pub reresolve : ℕ
  pub keepalive : ℕ

abbrev pub default_intervals : LoopIntervals
default_intervals = record {
  health = 30 * second;
  reresolve = 60 * second;
  keepalive = 240 * second;
}

-- What stays the same through the loop.
pub record Job : Type 0 where
  pub mqtt : MqttConfig
  pub points : List PointConfig
  pub backoff_max : ℕ
  pub intervals : LoopIntervals

pub record Tick (P : Type 0) : Type 0 where
  pub link : P → P
  pub now : ℕ
  pub keepalive_checked : ℕ
  pub full_refresh_at : ℕ
  pub resolve_checked : ℕ
  pub resolve_at : ℕ
  pub health_checked : ℕ
  pub health_at : ℕ
  pub millis : ℤ
  pub refresh : List ℕ → Result RefreshOutcome
  pub poll : List PointConfig → Result PollOutcome

-- The local variables of the loop, the publisher, and the events sent.
pub record LoopState (P : Type 0) : Type 0 where
  pub publisher : P
  pub unresolved : HashSet ℕ
  pub backoffs : HashMap ℕ DeviceBackoff
  pub last_poll : HashMap PointIdentity ℕ
  pub statuses : Statuses
  pub last_resolve_attempt : ℕ
  pub last_full_refresh : ℕ
  pub last_health : ℕ
  pub cycle_published : ℕ
  pub cycle_failed_reads : ℕ
  pub cycle_failed_publishes : ℕ
  pub reconnects : ℕ
  pub acked : ℕ
  pub last_error : Option Text
  pub fatal_reported : Bool
  pub events : List WorkerEvent

-- `at.elapsed() >= interval` at a reading of the clock
abbrev pub elapsed : ℕ → ℕ → ℕ → Bool
elapsed reading at interval = leb interval (reading - at)

pub rejected_message : Text → Text
rejected_message message = lit "MQTT connection rejected by broker: " ++ message

pub keepalive_failed_message : Error → Text
keepalive_failed_message e = lit "Device table keepalive failed: " ++ e.chain

pub resolve_failed_message : Error → Text
resolve_failed_message e = lit "Device re-resolution failed: " ++ e.chain

pub poll_failed_message : Error → Text
poll_failed_message e = lit "Poll failed: " ++ e.chain

pub health_failed_message : Error → Text
health_failed_message e = lit "Health publish failed: " ++ e.chain

abbrev pub log_all : List (LogLevel × Text) → List WorkerEvent
log_all [] = []
log_all ((level, message) ∷ ms) = log level message ∷ log_all ms

abbrev pub log_warnings : List Text → List WorkerEvent
log_warnings warnings = map (λ w. log warning w) warnings

-- `last_poll.insert(id, now)` for each point that was polled
unfoldable pub mark_polled :
    ℕ → List PointConfig → HashMap PointIdentity ℕ → HashMap PointIdentity ℕ
mark_polled now [] m = m
mark_polled now (p ∷ ps) m = mark_polled now ps (insert (from_point p) now m)

abbrev pub with_topic : MqttConfig → PointSample → PointSample
with_topic mqtt sample = record sample { topic = telemetry_topic mqtt sample.point }

unfoldable pub record_samples : List PointSample → Statuses → Statuses
record_samples [] statuses = statuses
record_samples (s ∷ ss) statuses =
    record_samples ss (update_or (from_point s.point) default_status (record_sample s) statuses)

-- `collect::<HashSet<_>>()`
unfoldable pub to_set : List ℕ → HashSet ℕ
to_set [] = []
to_set (d ∷ ds) = add d (to_set ds)

-- The number of points whose status is stale.
unfoldable pub stale_points : Statuses → ℕ
stale_points [] = 0
stale_points ((id, s) ∷ m) = let rest = stale_points m in if s.stale then suc rest else rest
