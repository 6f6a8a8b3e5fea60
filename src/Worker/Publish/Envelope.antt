-- ===== src/Worker/Publish/Envelope.antt =====
-- The accounts of `publish_envelope` of crates/republish-core/src/worker/mod.rs.
use netix_protocol_core.Prelude.{
  ◌+◌, ◌≡◌, refl, sym, ap, ◌∙◌, true, List, [], ◌∷◌, ◌++◌, map, Option, arith, length, All,
  Option-cases, inl, inr, unwrap_or,
}
use mathlib.Core.List.{append_assoc, append-nil}
use netix_protocol_core.Prelude.Int.{pos}
use netix_protocol_core.Prelude.Eq.{nat_eq, list_eq}
use netix_protocol_core.Prelude.Maps.{HashMap, get, contains}
use netix_protocol_core.Text.{Text}
use netix_protocol_core.Model.{PointSample, PublishStats, empty_stats, record_failure}
use netix_protocol_core.Config.{MqttConfig}
use netix_protocol_core.Topic.{device_envelope_topic}
use netix_protocol_core.Mqtt.Publisher.{MqttPublisher, Error, Payload}
use netix_protocol_core.Worker.Refresh.{Statuses}
use netix_protocol_core.Worker.Publish.{
  Publishing, Groups, begin, publish_ok, note_success, note_failure, note_successes, note_failures,
  close_stats, group_samples, group_time, no_groups, envelope_point, publish_group, publish_groups,
  publish_envelope,
}
use netix_protocol_core.Worker.Publish.Scalar.{
  Accounts, Accounts-refl, Accounts-trans, note_failure-Accounts, note_success-reported, reported,
  sample_id,
}
use netix_protocol_core.Worker.Publish.Grouping.{
  IsGrouping, device_of, group_samples-IsGrouping_all,
}
use netix_protocol_core.Worker.Publish.Partition.{
  by_device, of_groups, of_groups-eq-by_device, length-by_device, covers,
}

module _ {P : Type 0} where
  stats-note_successes :
      (xs : List PointSample) (s : Publishing P) → (note_successes xs s).stats ≡ s.stats
  unfolding note_successes note_success
  stats-note_successes [] s = refl
  stats-note_successes (x ∷ xs) s = stats-note_successes xs (note_success x s)

  reported-note_successes :
      (xs : List PointSample) (s : Publishing P)
      → reported (note_successes xs s).events ≡ reported s.events ++ map sample_id xs
  unfolding note_successes
  reported-note_successes [] s = sym (append-nil (reported s.events))
  reported-note_successes (x ∷ xs) s =
      reported-note_successes xs (note_success x s)
      ∙ rw (note_success-reported x s)
          (append_assoc (reported s.events) (sample_id x ∷ []) (map sample_id xs))

  note_failures-Accounts :
      (message : Text) (xs : List PointSample) (s : Publishing P)
      → Accounts xs s (note_failures message xs s)
  unfolding note_failures
  note_failures-Accounts message [] s = Accounts-refl s
  note_failures-Accounts message (x ∷ xs) s =
      Accounts-trans (x ∷ []) xs s (note_failure message x s)
        (note_failures message xs (note_failure message x s)) (note_failure-Accounts message x s)
        (note_failures-Accounts message xs (note_failure message x s))

module _ {P : Type 0} where
  queued-note_failures :
      (message : Text) (xs : List PointSample) (s : Publishing P)
      → (note_failures message xs s).stats.queued ≡ s.stats.queued
  unfolding note_failures note_failure record_failure
  queued-note_failures message [] s = refl
  queued-note_failures message (x ∷ xs) s =
      queued-note_failures message xs (note_failure message x s)

module _ {P : Type 0} (broker : MqttPublisher P) (mqtt : MqttConfig) where
  publish_group-Accounts :
      (id : Text) (group : List PointSample) (s : Publishing P)
      → Accounts group s (publish_group broker mqtt id group s)
  publish_group-Accounts id group s = elim (Option-cases result.0) [
    | inl e ↦
        let sent : Publishing P = record s {
          publisher = result.1;
          stats = publish_ok (length group) s.stats;
        } in
        unfold publish_group in
        (rw (e, publish_group)
          (record {
            settled = rw (stats-note_successes group sent) (omega arith);
            events = reported-note_successes group sent;
          }))
    | inr (error, e) ↦
        let sent : Publishing P = record s { publisher = result.1 } in
        let a : Accounts group sent (note_failures error.message group sent) =
          note_failures-Accounts error.message group sent in
        unfold publish_group in
        (rw (e, publish_group) (record { settled = a.settled; events = a.events }))
  ]
    where
      result : Option Error × P
      result =
          broker.publish (device_envelope_topic mqtt id)
            (Payload.envelope (group_time (pos 0) group) id (map envelope_point group)) mqtt.retain
            s.publisher

  publish_groups-Accounts :
      (groups : HashMap Text (List PointSample)) (ids : List Text) (s : Publishing P)
      → Accounts (of_groups groups ids) s (publish_groups broker mqtt groups ids s)
  unfolding publish_groups
  publish_groups-Accounts groups [] s = Accounts-refl s
  publish_groups-Accounts groups (id ∷ ids) s =
      let group : List PointSample = unwrap_or (get id groups) [] in
      let t : Publishing P = publish_group broker mqtt id group s in
      Accounts-trans group (of_groups groups ids) s t (publish_groups broker mqtt groups ids t)
        (publish_group-Accounts id group s) (publish_groups-Accounts groups ids t)

module _ {P : Type 0} (broker : MqttPublisher P) (mqtt : MqttConfig) where
  queued-publish_group :
      (id : Text) (group : List PointSample) (s : Publishing P)
      → (publish_group broker mqtt id group s).stats.queued ≡ s.stats.queued
  queued-publish_group id group s = elim (Option-cases result.0) [
    | inl e ↦
        unfold publish_group in
        (rw (e, publish_group)
          (ap (λ (st : PublishStats). st.queued)
            (stats-note_successes group
              (record s { publisher = result.1; stats = publish_ok (length group) s.stats }))))
    | inr (error, e) ↦
        unfold publish_group in
        (rw (e, publish_group)
          (queued-note_failures error.message group (record s { publisher = result.1 })))
  ]
    where
      result : Option Error × P
      result =
          broker.publish (device_envelope_topic mqtt id)
            (Payload.envelope (group_time (pos 0) group) id (map envelope_point group)) mqtt.retain
            s.publisher

  queued-publish_groups :
      (groups : HashMap Text (List PointSample)) (ids : List Text) (s : Publishing P)
      → (publish_groups broker mqtt groups ids s).stats.queued ≡ s.stats.queued
  unfolding publish_groups
  queued-publish_groups groups [] s = refl
  queued-publish_groups groups (id ∷ ids) s =
      queued-publish_groups groups ids
        (publish_group broker mqtt id (unwrap_or (get id groups) []) s)
      ∙ queued-publish_group id (unwrap_or (get id groups) []) s

module _ {P : Type 0} (broker : MqttPublisher P) (mqtt : MqttConfig) where
  -- Publishing by device queues every sample once, counts each as published or failed, and reports
  -- each by one event, device by device and within a device in the order of arrival.
  pub publish_envelope-Accounts :
      (samples : List PointSample) (publisher : P) (statuses : Statuses)
      → let t = publish_envelope broker mqtt samples publisher statuses in
        (t.stats.queued ≡ length samples)
        × (t.stats.published + t.stats.failed ≡ length samples)
        × (reported t.events
            ≡ map sample_id (by_device (group_samples samples no_groups).order samples))
  unfolding publish_envelope close_stats
  publish_envelope-Accounts samples publisher statuses =
      let g : Groups = group_samples samples no_groups in
      let v : IsGrouping samples g = group_samples-IsGrouping_all samples in
      let empty : Publishing P = begin publisher statuses in
      let s : Publishing P = record empty { stats = record empty_stats { queued = g.queued } } in
      let a : Accounts (of_groups g.groups g.order) s
          (publish_groups broker mqtt g.groups g.order s) =
        publish_groups-Accounts broker mqtt g.groups g.order s in
      let same : of_groups g.groups g.order ≡ by_device g.order samples =
        of_groups-eq-by_device g.groups samples g.order v.grouped in
      let covered : All (λ x. contains (device_of x) g.order ≡ true) samples =
        covers samples samples g.order (λ id e. ground (arith, v.listed id, v.grouped id)) in
      (
        omega (arith, queued-publish_groups broker mqtt g.groups g.order s, v.counted),
        omega
            (arith, a.settled, ap length same, length-by_device samples g.order v.distinct covered),
        a.events ∙ ap (map sample_id) same,
      )
