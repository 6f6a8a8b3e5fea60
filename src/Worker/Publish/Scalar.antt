-- ===== src/Worker/Publish/Scalar.antt =====
-- The accounts of publishing sample by sample, `publish_samples` of crates/republish-core/src/worker/mod.rs.
use netix_protocol_core.Prelude.{
  ◌+◌, ◌≡◌, refl, sym, ap, ◌∙◌, List, [], ◌∷◌, ◌++◌, map, none, some, arith, length, length-append,
  Option-cases, inl, inr,
}
use mathlib.Core.List.{append_assoc, append-nil, map-append}
use netix_protocol_core.Text.{Text}
use netix_protocol_core.Model.{PointSample, record_failure, as_json_value}
use netix_protocol_core.Model.Identity.{PointIdentity, from_point}
use netix_protocol_core.Config.{MqttConfig}
use netix_protocol_core.Mqtt.Publisher.{MqttPublisher, Payload}
use netix_protocol_core.Worker.Events.{WorkerEvent, point_publish}
use netix_protocol_core.Worker.Refresh.{Statuses}
use netix_protocol_core.Worker.Publish.{
  Publishing, begin, note_success, note_failure, close_stats, publish_sample, publish_each,
  publish_scalars,
}

-- The points that events report on.
abbrev pub reported : List WorkerEvent → List PointIdentity
reported [] = []
reported (WorkerEvent.point_publish id error ∷ es) = id ∷ reported es
reported (_ ∷ es) = reported es

abbrev pub sample_id : PointSample → PointIdentity
sample_id sample = from_point sample.point

reported-append : (xs ys : List WorkerEvent) → reported (xs ++ ys) ≡ reported xs ++ reported ys
reported-append [] ys = refl
reported-append (WorkerEvent.point_publish id error ∷ xs) ys =
    ap (λ r. id ∷ r) (reported-append xs ys)
reported-append (_ ∷ xs) ys = reported-append xs ys

-- The work on some samples: they are counted, published or failed, and reported in order.
pub record Accounts {P : Type 0} (samples : List PointSample) (s t : Publishing P) : Type 0 where
  pub settled :
      t.stats.published + t.stats.failed ≡ s.stats.published + s.stats.failed + length samples
  pub events : reported t.events ≡ reported s.events ++ map sample_id samples

module _ {P : Type 0} where
  pub Accounts-refl : (s : Publishing P) → Accounts [] s s
  Accounts-refl s = record { settled = omega arith; events = sym (append-nil (reported s.events)) }

  pub Accounts-trans :
      (xs ys : List PointSample) (s t u : Publishing P)
      → Accounts xs s t
      → Accounts ys t u
      → Accounts (xs ++ ys) s u
  Accounts-trans xs ys s t u a b = record {
    settled = omega (arith, a.settled, b.settled, length-append xs ys);
    events =
        b.events
        ∙ rw (a.events, map-append sample_id xs ys)
            (append_assoc (reported s.events) (map sample_id xs) (map sample_id ys));
  }

  pub note_success-reported :
      (x : PointSample) (s : Publishing P)
      → reported (note_success x s).events ≡ reported s.events ++ sample_id x ∷ []
  unfolding note_success
  note_success-reported x s = reported-append s.events (point_publish (sample_id x) none ∷ [])

  -- A sample is noted as failed: it is counted and reported.
  pub note_failure-Accounts :
      (message : Text) (x : PointSample) (s : Publishing P)
      → Accounts (x ∷ []) s (note_failure message x s)
  unfolding note_failure record_failure
  note_failure-Accounts message x s = record {
    settled = omega arith;
    events = reported-append s.events (point_publish (sample_id x) (some message) ∷ []);
  }

module _ {P : Type 0} (broker : MqttPublisher P) (mqtt : MqttConfig) where
  publish_sample-Accounts :
      (x : PointSample) (s : Publishing P) → Accounts (x ∷ []) s (publish_sample broker mqtt x s)
  publish_sample-Accounts x s =
      elim (Option-cases
        (broker.publish x.topic (Payload.scalar (as_json_value x.value)) mqtt.retain
          s.publisher).0) [
            | inl e ↦
                unfold publish_sample note_success in
                (rw (e, publish_sample)
                  (record {
                    settled = omega arith;
                    events = reported-append s.events (point_publish (sample_id x) none ∷ []);
                  }))
            | inr (error, e) ↦
                unfold publish_sample note_failure record_failure in
                (rw (e, publish_sample)
                  (record {
                    settled = omega arith;
                    events =
                        reported-append s.events
                          (point_publish (sample_id x) (some error.message) ∷ []);
                  }))
          ]

  publish_each-Accounts :
      (xs : List PointSample) (s : Publishing P) → Accounts xs s (publish_each broker mqtt xs s)
  unfolding publish_each
  publish_each-Accounts [] s = Accounts-refl s
  publish_each-Accounts (x ∷ xs) s =
      Accounts-trans (x ∷ []) xs s (publish_sample broker mqtt x s) _ (publish_sample-Accounts x s)
        (publish_each-Accounts xs (publish_sample broker mqtt x s))

  queued-publish_each :
      (xs : List PointSample) (s : Publishing P)
      → (publish_each broker mqtt xs s).stats.queued ≡ s.stats.queued + length xs
  unfolding publish_each publish_sample note_success note_failure record_failure
  queued-publish_each [] s = omega arith
  queued-publish_each (x ∷ xs) s =
      ground (arith, queued-publish_each xs (publish_sample broker mqtt x s))

  -- Every sample is queued once and then either published or counted as failed, and each is reported
  -- by one event, in the order of the samples.
  pub publish_scalars-Accounts :
      (samples : List PointSample) (publisher : P) (statuses : Statuses)
      → let t = publish_scalars broker mqtt samples publisher statuses in
        (t.stats.queued ≡ length samples)
        × (t.stats.published + t.stats.failed ≡ length samples)
        × (reported t.events ≡ map sample_id samples)
  unfolding publish_scalars close_stats
  publish_scalars-Accounts samples publisher statuses =
      let s : Publishing P = begin publisher statuses in
      let a : Accounts samples s (publish_each broker mqtt samples s) =
        publish_each-Accounts samples s in
      (omega (arith, queued-publish_each samples s), omega (arith, a.settled), a.events)
