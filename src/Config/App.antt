-- ===== src/Config/App.antt =====
-- `AppConfig` of crates/republish-core/src/config.rs: migration, validation, and what is saved. The
-- interface preferences are left out; the environment and the file are not part of it.
use netix_protocol_core.Prelude.{
  ℕ, Bool, true, false, ◌&&◌, ◌||◌, not, List, [], ◌∷◌, ◌++◌, Option, none, some, is_some_and,
  unwrap_or, ltb, ◌==◌, if◌then◌else◌,
}
use netix_protocol_core.Prelude.Eq.{beq, nat_eq, list_eq}
use netix_protocol_core.Prelude.Maps.{HashMap, get, update}
use netix_protocol_core.Text.{Text, lit, is_blank}
use netix_protocol_core.Model.{JsonValue, Addressing, PointConfig, display_name}
use netix_protocol_core.Model.Identity.{text_leb}
use netix_protocol_core.Config.{PayloadFormat, MqttConfig}
use netix_protocol_core.Topic.{
  TopicError, Validation, ok, err, empty, wildcard, validate_publish_topic, telemetry_topic,
  device_envelope_topic,
}

pub record AppConfig : Type 0 where
  pub version : ℕ
  pub protocol : Text
  pub connections : HashMap Text Addressing
  pub mqtt : MqttConfig
  pub points : List PointConfig
  pub discover_on_start : Bool
  pub sim_config_checksum : Option Text

-- `connection`
unfoldable pub connection : AppConfig → Addressing
connection c = unwrap_or (get c.protocol c.connections) []

-- `BTreeMap::insert`
unfoldable pub insert_ordered : Text → JsonValue → Addressing → Addressing
insert_ordered k v [] = (k, v) ∷ []
insert_ordered k v ((j, w) ∷ m) =
    let rest = insert_ordered k v m in
    if beq j k then (k, v) ∷ m else if text_leb k j then (k, v) ∷ (j, w) ∷ m else (j, w) ∷ rest

abbrev as_port : JsonValue → Option ℕ
as_port (JsonValue.number n) = n.as_u64
as_port _ = none

-- The port of a connection before version 2.
abbrev pub legacy_port : Addressing → ℕ
legacy_port conn = elim (get (lit "port") conn) [
  | none ↦ 47808
  | some value ↦ unwrap_or (as_port value) 47808
]

abbrev pub zero_port : JsonValue
zero_port = JsonValue.number (record { as_u64 = some 0; display = lit "0" })

abbrev pub upgrade : Addressing → Addressing
upgrade conn =
    if legacy_port conn == 47808 then insert_ordered (lit "port") zero_port conn else conn

abbrev current_version : ℕ
current_version = 2

unfoldable pub migrate : AppConfig → AppConfig
migrate c = record c {
  version = current_version;
  connections =
      if ltb c.version 2 then update (lit "bacnet") upgrade c.connections else c.connections;
}

unfoldable sanitized_for_save : AppConfig → AppConfig
sanitized_for_save c =
    let mqtt = c.mqtt in
    let cleared : MqttConfig = record mqtt { password = none; client_key_passphrase = none } in
    record c { mqtt = if mqtt.remember_secrets then mqtt else cleared }

abbrev pub non_empty : Option Text → Bool
non_empty value = is_some_and value (λ v. not (is_blank v))

-- Whether `plaintext_secret_warning` warns.
unfoldable persists_plaintext : MqttConfig → Bool
persists_plaintext mqtt =
    mqtt.remember_secrets && (non_empty mqtt.password || non_empty mqtt.client_key_passphrase)

pub data Checked : Type 0 where
  valid : Checked
  invalid : Text → Checked

abbrev pub and_then : Checked → Checked → Checked
and_then valid next = next
and_then (invalid message) next = invalid message

-- `Display` of a topic error
abbrev show_topic_error : TopicError → Text
show_topic_error empty = lit "MQTT publish topic cannot be empty"
show_topic_error wildcard = lit "MQTT publish topic cannot contain # or +"

-- `map_err` with a prefix of the message
abbrev pub labelled : Text → Validation → Checked
labelled label ok = valid
labelled label (err e) = invalid (label ++ show_topic_error e)

abbrev pub is_envelope : MqttConfig → Bool
is_envelope mqtt = elim mqtt.payload_format [
  | PayloadFormat.netix_envelope ↦ true
  | PayloadFormat.scalar ↦ false
]

abbrev pub differ : Bool → Bool → Bool
differ a b = if a then not b else b

unfoldable pub check_envelope : MqttConfig → Checked
check_envelope mqtt =
    if is_envelope mqtt
    then if is_blank mqtt.device_topic_prefix
      then invalid (lit "MQTT device topic prefix cannot be empty")
      else labelled (lit "MQTT device topic is invalid: ")
          (validate_publish_topic (device_envelope_topic mqtt (lit "sample")))
    else valid

unfoldable pub check_point : MqttConfig → PointConfig → Checked
check_point mqtt point =
    if point.enabled && point.poll_interval_secs == 0
    then invalid (display_name point ++ lit " poll interval cannot be 0")
    else if point.enabled && not (is_envelope mqtt)
    then labelled (display_name point ++ lit " MQTT topic is invalid: ")
        (validate_publish_topic (telemetry_topic mqtt point))
    else valid

unfoldable pub check_points : MqttConfig → List PointConfig → Checked
check_points mqtt [] = valid
check_points mqtt (p ∷ ps) = and_then (check_point mqtt p) (check_points mqtt ps)

unfoldable pub validate : AppConfig → Checked
validate c =
    let mqtt = c.mqtt in
    if is_blank mqtt.host
    then invalid (lit "MQTT host cannot be empty")
    else if mqtt.port == 0
    then invalid (lit "MQTT port cannot be 0")
    else if is_blank mqtt.topic_prefix
    then invalid (lit "MQTT topic prefix cannot be empty")
    else and_then
        (labelled (lit "MQTT health topic is invalid: ") (validate_publish_topic mqtt.health_topic))
        (if differ (non_empty mqtt.client_cert_path) (non_empty mqtt.client_key_path)
          then invalid
              (lit "MQTT client certificate and client key paths must be configured together")
          else and_then (check_envelope mqtt) (check_points mqtt c.points))
