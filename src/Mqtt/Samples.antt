-- ===== src/Mqtt/Samples.antt =====
-- Publishing in crates/republish-core/src/mqtt.rs: `RumqttPublisher` as an `MqttPublisher`, and the two
-- functions that publish samples. `try_publish` is the broker client's, with the text of its error; the
-- event loop, which runs beside them, does nothing while they run.
use netix_protocol_core.Prelude.{◌+◌, Bool, List, [], ◌∷◌, ◌++◌, Option, none, some, or_else}
use netix_protocol_core.Text.{Text, lit}
use netix_protocol_core.Model.{
  PointSample, PublishStats, as_json_value, empty_stats, record_failure,
}
use netix_protocol_core.Config.{MqttConfig}
use netix_protocol_core.Mqtt.{ConnectionState, connection_fatal_error}
use netix_protocol_core.Mqtt.Publisher.{MqttPublisher, Error, Payload}

pub record RumqttPublisher (C : Type 0) : Type 0 where
  pub client : C
  pub state : ConnectionState

-- What the loops make of a result.
abbrev pub settle : Option Error → PublishStats → PublishStats
settle none stats = record stats { queued = stats.queued + 1; published = stats.published + 1 }
settle (some error) stats =
    record_failure error.message (record stats { queued = stats.queued + 1 })

module _ {P : Type 0} (publisher : MqttPublisher P) where
  unfoldable pub publish_loop : MqttConfig → List PointSample → PublishStats → P → PublishStats × P
  publish_loop config [] stats p = (stats, p)
  publish_loop config (x ∷ xs) stats p =
      let (result, q) =
        publisher.publish x.topic (Payload.scalar (as_json_value x.value)) config.retain p in
      publish_loop config xs (settle result stats) q

  -- `publish_samples`
  unfoldable pub publish_samples : MqttConfig → List PointSample → P → PublishStats × P
  unfolding publish_loop
  publish_samples config samples p = publish_loop config samples empty_stats p

module _ {C : Type 0} (try_publish : Text → Payload → Bool → C → Option Text × C) where
  abbrev not_enqueued : Text → Option Text → Option Error
  not_enqueued topic none = none
  not_enqueued topic (some error) =
      let message = lit "failed to enqueue MQTT publish to " ++ (topic ++ (lit ": " ++ error)) in
      some (record { message = message; chain = message })

  unfoldable pub enqueue :
      Text → Payload → Bool → RumqttPublisher C → Option Error × RumqttPublisher C
  enqueue topic payload retain p =
      let (result, client) = try_publish topic payload retain p.client in
      (not_enqueued topic result, record p { client = client })

  -- `impl MqttPublisher for RumqttPublisher`
  abbrev pub rumqtt_publisher : MqttPublisher (RumqttPublisher C)
  rumqtt_publisher = record {
    publish = enqueue;
    reconnect_count = λ p. p.state.reconnects;
    acked_count = λ p. p.state.acked;
    last_connection_error = λ p. p.state.last_error;
    connection_fatal_error = λ p. connection_fatal_error p.state;
  }

  unfoldable pub enqueue_loop :
      MqttConfig
      → List PointSample
      → PublishStats
      → RumqttPublisher C
      → PublishStats × RumqttPublisher C
  unfolding enqueue
  enqueue_loop config [] stats p = (stats, p)
  enqueue_loop config (x ∷ xs) stats p =
      let (result, q) = enqueue x.topic (Payload.scalar (as_json_value x.value)) config.retain p in
      enqueue_loop config xs (settle result stats) q

  unfoldable pub enqueue_samples :
      MqttConfig → List PointSample → RumqttPublisher C → PublishStats × RumqttPublisher C
  unfolding enqueue_loop
  enqueue_samples config samples p =
      let (stats, q) = enqueue_loop config samples empty_stats p in
      (
        record stats {
          reconnects = q.state.reconnects;
          acked = q.state.acked;
          last_error = or_else stats.last_error q.state.last_error;
        },
        q,
      )
