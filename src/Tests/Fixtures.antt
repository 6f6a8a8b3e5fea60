-- ===== src/Tests/Fixtures.antt =====
-- Inputs of the examples: a configuration, points on two devices with their samples, and a broker
-- client whose queue takes two messages.
use netix_protocol_core.Prelude.{ℕ, suc, true, false, List, [], ◌∷◌, none, some, ltb, if◌then◌else◌}
use netix_protocol_core.Prelude.Int.{pos}
use netix_protocol_core.Text.{lit}
use netix_protocol_core.Model.{JsonValue, PointConfig, PointSample, TelemetryValue}
use netix_protocol_core.Config.{MqttConfig, PayloadFormat}
use netix_protocol_core.Mqtt.Publisher.{MqttPublisher, Error}

abbrev pub config : MqttConfig
config = record {
  host = lit "broker.local";
  port = 8883;
  use_tls = true;
  client_id = lit "republisher-1";
  topic_prefix = lit "/netix/site a/#";
  health_topic = lit "netix/health";
  username = none;
  password = none;
  password_env = none;
  ca_cert_path = none;
  client_cert_path = none;
  client_key_path = none;
  client_key_passphrase = none;
  remember_secrets = false;
  retain = false;
  keep_alive_secs = 30;
  payload_format = PayloadFormat.netix_envelope;
  device_topic_prefix = lit "/Netix/Sim/Device/";
  autostart = false;
}

-- A point on device 7, and one on device 9, whose number is given as text.
abbrev pub supply : PointConfig
supply = record {
  enabled = true;
  device_key = lit "boiler";
  addressing =
      (lit "device_instance", JsonValue.number (record { as_u64 = some 7; display = lit "7" }))
      ∷ [];
  tag_path = lit "plant/supply temp";
  poll_interval_secs = 10;
}

abbrev pub flow : PointConfig
flow = record {
  enabled = true;
  device_key = lit "chiller";
  addressing = (lit "device_instance", JsonValue.string (lit " 9 ")) ∷ [];
  tag_path = [];
  poll_interval_secs = 30;
}

abbrev pub disabled : PointConfig
disabled = record supply { enabled = false }

abbrev sample_of : PointConfig → ℕ → PointSample
sample_of point time = record {
  point = point;
  value = TelemetryValue.text (lit "21.5");
  topic = lit "netix/x";
  timestamp_ms = pos time;
}

-- Two samples of device 7 around one of device 9.
abbrev pub samples : List PointSample
samples = sample_of supply 5 ∷ sample_of flow 6 ∷ sample_of supply 7 ∷ []

abbrev queue_full : Error
queue_full = record { message = lit "queue full"; chain = lit "publish: queue full" }

-- The state is the number of messages in the queue.
abbrev pub broker : MqttPublisher ℕ
broker = record {
  publish = λ topic payload retain queued.
      if ltb queued 2 then (none, suc queued) else (some queue_full, queued);
  reconnect_count = λ queued. 0;
  acked_count = λ queued. queued;
  last_connection_error = λ queued. none;
  connection_fatal_error = λ queued. none;
}
