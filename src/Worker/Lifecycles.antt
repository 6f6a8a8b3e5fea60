-- ===== src/Worker/Lifecycles.antt =====
-- The lifecycle events of refreshing and publishing in crates/republish-core/src/worker/mod.rs.
use netix_protocol_core.Prelude.{
  ℕ, ◌≡◌, refl, ap, ◌∙◌, List, [], ◌∷◌, ◌++◌, map, arith, Option-cases, inl, inr,
}
use mathlib.Core.List.{append-nil}
use netix_protocol_core.Prelude.Maps.{HashMap, HashSet, get}
use netix_protocol_core.Prelude.{unwrap_or}
use netix_protocol_core.Prelude.Eq.{nat_eq, list_eq, pair_eq}
use netix_protocol_core.Text.{Text}
use netix_protocol_core.Model.{PointConfig, PointSample, as_json_value}
use netix_protocol_core.Prelude.Int.{pos}
use netix_protocol_core.Config.{MqttConfig, PayloadFormat}
use netix_protocol_core.Topic.{device_envelope_topic}
use netix_protocol_core.Backoff.{LogLevel}
use netix_protocol_core.Mqtt.Publisher.{MqttPublisher, Payload}
use netix_protocol_core.Worker.Events.{RepublisherLifecycle, WorkerEvent, lifecycle}
use netix_protocol_core.Worker.Refresh.{
  Statuses, RefreshStateChange, record_unresolved_failures, emit_refresh_state_change,
}
use netix_protocol_core.Worker.Publish.{
  Publishing, begin, note_success, note_failure, note_successes, note_failures, close_stats,
  publish_sample, publish_each, publish_scalars, publish_group, publish_groups, publish_envelope,
  publish_samples, group_time, envelope_point,
}
use netix_protocol_core.Worker.State.{log_all, log_warnings}

abbrev pub lifecycles : List WorkerEvent → List RepublisherLifecycle
lifecycles [] = []
lifecycles (lifecycle l ∷ es) = l ∷ lifecycles es
lifecycles (_ ∷ es) = lifecycles es

pub lifecycles-append :
    (xs ys : List WorkerEvent) → lifecycles (xs ++ ys) ≡ lifecycles xs ++ lifecycles ys
lifecycles-append [] ys = refl
lifecycles-append (lifecycle l ∷ xs) ys = ap (λ r. l ∷ r) (lifecycles-append xs ys)
lifecycles-append (_ ∷ xs) ys = lifecycles-append xs ys

pub record Quiet (es : List WorkerEvent) : Type 0 where
  pub silent : lifecycles es ≡ []

pub lifecycles-Quiet :
    (xs : List WorkerEvent) {ys : List WorkerEvent}
    → Quiet ys
    → lifecycles (xs ++ ys) ≡ lifecycles xs
lifecycles-Quiet xs {ys} q = lifecycles-append xs ys ∙ rw (q.silent) (append-nil (lifecycles xs))

pub Quiet-append : {xs ys : List WorkerEvent} → Quiet xs → Quiet ys → Quiet (xs ++ ys)
Quiet-append {xs} {ys} p q = record { silent = lifecycles-Quiet xs q ∙ p.silent }

pub Quiet-log_warnings : (ws : List Text) → Quiet (log_warnings ws)
Quiet-log_warnings [] = record { silent = refl }
Quiet-log_warnings (w ∷ ws) = record { silent = (Quiet-log_warnings ws).silent }

pub Quiet-log_all : (ms : List (LogLevel × Text)) → Quiet (log_all ms)
Quiet-log_all [] = record { silent = refl }
Quiet-log_all ((level, message) ∷ ms) = record { silent = (Quiet-log_all ms).silent }

pub Quiet-record_unresolved_failures :
    (points : List PointConfig) (unresolved : HashSet ℕ) (statuses : Statuses)
    → Quiet (record_unresolved_failures points unresolved statuses).1
unfolding record_unresolved_failures
Quiet-record_unresolved_failures points unresolved statuses = record { silent = ground arith }

pub Quiet-emit_refresh_state_change :
    (points : List PointConfig) (label : Text) (change : RefreshStateChange) (statuses : Statuses)
    → Quiet (emit_refresh_state_change points label change statuses).1
unfolding emit_refresh_state_change
Quiet-emit_refresh_state_change points label change statuses = record {
  silent =
      ground
        (arith, (Quiet-record_unresolved_failures points change.newly_unresolved statuses).silent);
}

module _ {P : Type 0} where
  note_successes-quiet :
      (xs : List PointSample) (s : Publishing P)
      → lifecycles (note_successes xs s).events ≡ lifecycles s.events
  unfolding note_successes note_success
  note_successes-quiet [] s = refl
  note_successes-quiet (x ∷ xs) s =
      note_successes-quiet xs (note_success x s)
      ∙ lifecycles-Quiet s.events (record { silent = refl })

  note_failures-quiet :
      (message : Text) (xs : List PointSample) (s : Publishing P)
      → lifecycles (note_failures message xs s).events ≡ lifecycles s.events
  unfolding note_failures note_failure
  note_failures-quiet message [] s = refl
  note_failures-quiet message (x ∷ xs) s =
      note_failures-quiet message xs (note_failure message x s)
      ∙ lifecycles-Quiet s.events (record { silent = refl })

module _ {P : Type 0} (broker : MqttPublisher P) (mqtt : MqttConfig) where
  publish_sample-quiet :
      (x : PointSample) (s : Publishing P)
      → lifecycles (publish_sample broker mqtt x s).events ≡ lifecycles s.events
  unfolding publish_sample note_success note_failure
  publish_sample-quiet x s =
      elim (Option-cases
        (broker.publish x.topic (Payload.scalar (as_json_value x.value)) mqtt.retain
          s.publisher).0) [
            | inl e ↦ rw (e, publish_sample) (lifecycles-Quiet s.events (record { silent = refl }))
            | inr (error, e) ↦
                rw (e, publish_sample) (lifecycles-Quiet s.events (record { silent = refl }))
          ]

  publish_each-quiet :
      (xs : List PointSample) (s : Publishing P)
      → lifecycles (publish_each broker mqtt xs s).events ≡ lifecycles s.events
  unfolding publish_each
  publish_each-quiet [] s = refl
  publish_each-quiet (x ∷ xs) s =
      publish_each-quiet xs (publish_sample broker mqtt x s) ∙ publish_sample-quiet x s

  publish_group-quiet :
      (id : Text) (group : List PointSample) (s : Publishing P)
      → lifecycles (publish_group broker mqtt id group s).events ≡ lifecycles s.events
  unfolding publish_group
  publish_group-quiet id group s =
      elim (Option-cases
        (broker.publish (device_envelope_topic mqtt id)
          (Payload.envelope (group_time (pos 0) group) id (map envelope_point group)) mqtt.retain
          s.publisher).0) [
            | inl e ↦ rw (e, publish_group) (note_successes-quiet group _)
            | inr (error, e) ↦ rw (e, publish_group) (note_failures-quiet error.message group _)
          ]

  publish_groups-quiet :
      (groups : HashMap Text (List PointSample)) (ids : List Text) (s : Publishing P)
      → lifecycles (publish_groups broker mqtt groups ids s).events ≡ lifecycles s.events
  unfolding publish_groups
  publish_groups-quiet groups [] s = refl
  publish_groups-quiet groups (id ∷ ids) s =
      publish_groups-quiet groups ids
        (publish_group broker mqtt id (unwrap_or (get id groups) []) s)
      ∙ publish_group-quiet id (unwrap_or (get id groups) []) s

pub Quiet-publish_samples :
    {P : Type 0} (broker : MqttPublisher P) (mqtt : MqttConfig) (xs : List PointSample) (p : P)
    (statuses : Statuses)
    → Quiet (publish_samples broker mqtt xs p statuses).events
unfolding publish_samples publish_scalars publish_envelope close_stats
Quiet-publish_samples broker mqtt xs p statuses = by_format mqtt.payload_format refl
  where
    by_format :
        (f : PayloadFormat)
        → mqtt.payload_format ≡ f
        → Quiet (publish_samples broker mqtt xs p statuses).events
    by_format PayloadFormat.netix_envelope e =
        rw (e, publish_samples) (record { silent = publish_groups-quiet broker mqtt _ _ _ })
    by_format PayloadFormat.scalar e =
        rw (e, publish_samples)
          (record { silent = publish_each-quiet broker mqtt xs (begin p statuses) })
