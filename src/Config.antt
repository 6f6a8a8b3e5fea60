-- ===== src/Config.antt =====
-- The records of crates/republish-core/src/config.rs that the worker and the topics read.
pub mod App
pub mod Checks
use netix_protocol_core.Prelude.{ℕ, Bool, Option}
use netix_protocol_core.Text.{Text}

pub data PayloadFormat : Type 0 where
  scalar netix_envelope : PayloadFormat

pub record MqttConfig : Type 0 where
  pub host : Text
  pub port : ℕ
  pub use_tls : Bool
  pub client_id : Text
  pub topic_prefix : Text
  pub health_topic : Text
  pub username : Option Text
  pub password : Option Text
  pub password_env : Option Text
  pub ca_cert_path : Option Text
  pub client_cert_path : Option Text
  pub client_key_path : Option Text
  pub client_key_passphrase : Option Text
  pub remember_secrets : Bool
  pub retain : Bool
  pub keep_alive_secs : ℕ
  pub payload_format : PayloadFormat
  pub device_topic_prefix : Text
  pub autostart : Bool
