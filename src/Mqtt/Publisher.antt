-- ===== src/Mqtt/Publisher.antt =====
-- The `MqttPublisher` trait of crates/republish-core/src/mqtt.rs, and the health message. A payload
-- is the JSON value that serde_json serialises, by what the code puts into it.
use netix_protocol_core.Prelude.{ℕ, Bool, true, List, Option}
use netix_protocol_core.Prelude.Int.{ℤ}
use netix_protocol_core.Text.{Text}
use netix_protocol_core.Model.{JsonValue}
use netix_protocol_core.Config.{MqttConfig}
use netix_protocol_core.Mqtt.{HealthSnapshot, status}

-- One element of an envelope's `points`; its `status` is always `ok`.
pub record EnvelopePoint : Type 0 where
  pub point_name : Text
  pub content : Text

pub data Payload : Type 0 where
  scalar : JsonValue → Payload
  envelope : ℤ → Text → List EnvelopePoint → Payload
  health : Text → HealthSnapshot → ℤ → Payload

-- `anyhow::Error` by its two renderings, `{error}` and `{error:#}`.
pub record Error : Type 0 where
  pub message : Text
  pub chain : Text

-- A publisher with its state `P`. `publish` gives the error, if there is one.
pub record MqttPublisher (P : Type 0) : Type 0 where
  pub publish : Text → Payload → Bool → P → Option Error × P
  pub reconnect_count : P → ℕ
  pub acked_count : P → ℕ
  pub last_connection_error : P → Option Text
  pub connection_fatal_error : P → Option Text

-- `now_millis()` is an argument.
unfoldable pub publish_health :
    {P : Type 0} → MqttPublisher P → MqttConfig → HealthSnapshot → ℤ → P → Option Error × P
publish_health publisher config snapshot now =
    publisher.publish config.health_topic (Payload.health (status snapshot) snapshot now) true
