-- ===== src/Worker/Publish/Agreement.antt =====
-- The ways to publish samples one by one, `publish_samples` of
-- crates/republish-core/src/worker/mod.rs and those of crates/republish-core/src/mqtt.rs.
use netix_protocol_core.Prelude.{
  ◌≡◌, refl, ap, ◌∙◌, sym, List, [], ◌∷◌, Option, or_else, Option-cases, inl, inr, Bool, Bool-cases,
}
use netix_protocol_core.Text.{Text}
use netix_protocol_core.Model.{PointSample, PublishStats, as_json_value, empty_stats}
use netix_protocol_core.Config.{MqttConfig}
use netix_protocol_core.Mqtt.{ConnectionState, connection_fatal_error}
use netix_protocol_core.Mqtt.Publisher.{MqttPublisher, Payload}
use netix_protocol_core.Mqtt.Samples.{
  RumqttPublisher, settle, publish_loop, publish_samples, rumqtt_publisher, enqueue_loop,
  enqueue_samples,
}
use netix_protocol_core.Worker.Refresh.{Statuses}
use netix_protocol_core.Worker.Publish.{
  Publishing, begin, note_success, note_failure, close_stats, publish_sample, publish_each,
  publish_scalars,
}

module _ {P : Type 0} (broker : MqttPublisher P) (mqtt : MqttConfig) where
  -- What both have at hand after some samples.
  abbrev held : Publishing P → PublishStats × P
  held s = (s.stats, s.publisher)

  held-publish_sample :
      (x : PointSample) (s : Publishing P)
      → let sent =
          broker.publish x.topic (Payload.scalar (as_json_value x.value)) mqtt.retain s.publisher in
        held (publish_sample broker mqtt x s) ≡ (settle sent.0 s.stats, sent.1)
  unfolding publish_sample note_success note_failure
  held-publish_sample x s =
      let payload = Payload.scalar (as_json_value x.value) in
      elim (Option-cases (broker.publish x.topic payload mqtt.retain s.publisher).0) [
        | inl e ↦ rw (e, publish_sample) refl
        | inr (error, e) ↦ rw (e, publish_sample) refl
      ]

  held-publish_each :
      (xs : List PointSample) (s : Publishing P)
      → held (publish_each broker mqtt xs s) ≡ publish_loop broker mqtt xs s.stats s.publisher
  unfolding publish_each publish_loop
  held-publish_each [] s = refl
  held-publish_each (x ∷ xs) s =
      held-publish_each xs (publish_sample broker mqtt x s)
      ∙ ap (λ h. publish_loop broker mqtt xs h.0 h.1) (held-publish_sample x s)

fatal_or_last :
    (s : ConnectionState) → or_else (connection_fatal_error s) s.last_error ≡ s.last_error
unfolding connection_fatal_error
fatal_or_last s = elim (Bool-cases s.fatal) [
  | inl f ↦ elim (Option-cases s.last_error) [
    | inl e ↦ rw (f, e) refl
    | inr (error, e) ↦ rw (f, e) refl
  ]
  | inr f ↦ rw (f) refl
]

module _ {C : Type 0} (try_publish : Text → Payload → Bool → C → Option Text × C) where
  enqueue_loop-publish_loop :
      (mqtt : MqttConfig) (xs : List PointSample) (stats : PublishStats) (p : RumqttPublisher C)
      → enqueue_loop try_publish mqtt xs stats p
        ≡ publish_loop (rumqtt_publisher try_publish) mqtt xs stats p
  unfolding enqueue_loop publish_loop
  enqueue_loop-publish_loop mqtt [] stats p = refl
  enqueue_loop-publish_loop mqtt (x ∷ xs) stats p = enqueue_loop-publish_loop mqtt xs _ _

  -- The three ways to publish samples one by one agree: over the broker client, the worker leaves the
  -- publisher and the statistics as `enqueue_samples` does, the error of a connection included, and
  -- `publish_samples` leaves the publisher and the counts of queued, published and failed samples so.
  pub publish_scalars-enqueue_samples :
      (mqtt : MqttConfig) (samples : List PointSample) (p : RumqttPublisher C) (statuses : Statuses)
      → let t = publish_scalars (rumqtt_publisher try_publish) mqtt samples p statuses in
        let u = publish_samples (rumqtt_publisher try_publish) mqtt samples p in
        ((t.stats, t.publisher) ≡ enqueue_samples try_publish mqtt samples p)
        × (u.1 ≡ t.publisher)
        × (u.0.queued ≡ t.stats.queued)
        × (u.0.published ≡ t.stats.published)
        × (u.0.failed ≡ t.stats.failed)
  unfolding publish_scalars close_stats enqueue_samples publish_samples
  publish_scalars-enqueue_samples mqtt samples p statuses =
      let e = held-publish_each (rumqtt_publisher try_publish) mqtt samples (begin p statuses) in
      let f = enqueue_loop-publish_loop mqtt samples empty_stats p in
      (
        rw (f, ← e, fatal_or_last) refl,
        ap (λ h. h.1) (sym e),
        ap (λ h. h.0.queued) (sym e),
        ap (λ h. h.0.published) (sym e),
        ap (λ h. h.0.failed) (sym e),
      )
