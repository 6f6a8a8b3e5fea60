-- ===== src/Mqtt.antt =====
-- crates/republish-core/src/mqtt.rs: the connection state behind the publisher, its reconnect
-- backoff, and the interface of a publisher. The broker client of rumqttc is not under the source:
-- its event loop enters as the list of events that it hands to `apply_poll`.
pub mod Connection
pub mod Publisher
pub mod Samples
use netix_protocol_core.Prelude.{
  ℕ, ◌+◌, ◌*◌, ◌%◌, ◌≤◌, Bool, true, false, ◌&&◌, List, [], ◌∷◌, ◌++◌, Option, none, some, min,
  ◌==◌, if◌then◌else◌,
}
use netix_protocol_core.Text.{Text, lit}
use netix_protocol_core.Backoff.{second, double}

abbrev pub backoff_initial : ℕ
backoff_initial = 1 * second

abbrev pub backoff_max : ℕ
backoff_max = 30 * second

pub record ReconnectBackoff : Type 0 where
  pub current : ℕ
  pub limit : ℕ

abbrev default_backoff : ReconnectBackoff
default_backoff = record { current = backoff_initial; limit = backoff_max }

-- `next_delay`: the delay to wait now, and the backoff with the next one
unfoldable pub next_delay : ReconnectBackoff → ℕ × ReconnectBackoff
next_delay b = (b.current, record b { current = min (double b.current) b.limit })

unfoldable pub reset : ReconnectBackoff → ReconnectBackoff
reset b = record b { current = backoff_initial }

pub record HealthSnapshot : Type 0 where
  pub published : ℕ
  pub acked : ℕ
  pub failed_reads : ℕ
  pub failed_publishes : ℕ
  pub stale_points : ℕ
  pub reconnects : ℕ
  pub last_error : Option Text

unfoldable pub status : HealthSnapshot → Text
status s =
    if s.failed_reads == 0 && s.failed_publishes == 0 && s.stale_points == 0
    then lit "ok"
    else lit "degraded"

-- The atomics of the state; its lock is never poisoned, since no holder panics.
pub record ConnectionState : Type 0 where
  pub connected : Bool
  pub reconnects : ℕ
  pub acked : ℕ
  pub fatal : Bool
  pub last_error : Option Text

abbrev pub default_state : ConnectionState
default_state = record {
  connected = false;
  reconnects = 0;
  acked = 0;
  fatal = false;
  last_error = none;
}

pub data ConnectReturnCode : Type 0 where
  success refused_protocol_version bad_client_id service_unavailable : ConnectReturnCode
  bad_user_name_password not_authorized : ConnectReturnCode

-- `fetch_add(1)` on an `AtomicUsize` wraps.
abbrev pub usize_mod : ℕ
usize_mod = 18_446_744_073_709_551_616

abbrev reason : ConnectReturnCode → Text
reason success = lit "connection accepted"
reason refused_protocol_version = lit "unacceptable protocol version"
reason bad_client_id = lit "client identifier rejected"
reason service_unavailable = lit "service unavailable"
reason bad_user_name_password = lit "bad username or password"
reason not_authorized = lit "not authorized"

-- `{code:?}`
abbrev debug_code : ConnectReturnCode → Text
debug_code success = lit "Success"
debug_code refused_protocol_version = lit "RefusedProtocolVersion"
debug_code bad_client_id = lit "BadClientId"
debug_code service_unavailable = lit "ServiceUnavailable"
debug_code bad_user_name_password = lit "BadUserNamePassword"
debug_code not_authorized = lit "NotAuthorized"

pub connack_error_message : ConnectReturnCode → Text
connack_error_message code =
    lit "MQTT broker refused the connection: "
    ++ (reason code
        ++ (lit " (CONNACK "
            ++ (debug_code code ++ lit "); check credentials and broker permissions")))

unfoldable record_fatal : Text → ConnectionState → ConnectionState
record_fatal error s = record s { connected = false; fatal = true; last_error = some error }

unfoldable record_connack : ConnectReturnCode → ConnectionState → ConnectionState
unfolding record_fatal
record_connack success s = record s { connected = true; fatal = false; last_error = none }
record_connack code s = record_fatal (connack_error_message code) s

unfoldable record_puback : ConnectionState → ConnectionState
record_puback s = record s { acked = (s.acked + 1) % usize_mod }

unfoldable pub record_error : Text → ConnectionState → ConnectionState
record_error error s = record s {
  connected = false;
  reconnects = if s.connected then (s.reconnects + 1) % usize_mod else s.reconnects;
  last_error = some error;
}

-- What the event loop hands over: `Result<Event, ConnectionError>`.
pub data Polled : Type 0 where
  conn_ack : ConnectReturnCode → Polled
  pub_ack other : Polled
  failed : Text → Polled

pub record Link : Type 0 where
  pub state : ConnectionState
  pub backoff : ReconnectBackoff

abbrev pub default_link : Link
default_link = record { state = default_state; backoff = default_backoff }

-- `apply_poll`: the state and the backoff after the event, and the delay if the caller must wait
unfoldable pub apply_poll : Link → Polled → Link × Option ℕ
unfolding record_connack record_puback record_error next_delay reset
apply_poll l (conn_ack code) =
    (record { state = record_connack code l.state; backoff = reset l.backoff }, none)
apply_poll l pub_ack = (record l { state = record_puback l.state }, none)
apply_poll l other = (l, none)
apply_poll l (failed error) =
    let (delay, backoff) = next_delay l.backoff in
    (record { state = record_error error l.state; backoff = backoff }, some delay)

-- The event loop: the link after the events.
unfoldable pub run_events : Link → List Polled → Link
unfolding apply_poll
run_events l [] = l
run_events l (e ∷ es) = run_events (apply_poll l e).0 es

-- The delays that the event loop sleeps, in order.
unfoldable pub run_delays : Link → List Polled → List ℕ
unfolding apply_poll
run_delays l [] = []
run_delays l (e ∷ es) =
    let rest = run_delays (apply_poll l e).0 es in
    elim (apply_poll l e).1 [ none ↦ rest | some delay ↦ delay ∷ rest ]

unfoldable pub connection_fatal_error : ConnectionState → Option Text
connection_fatal_error s = if s.fatal then s.last_error else none
