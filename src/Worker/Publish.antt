-- ===== src/Worker/Publish.antt =====
-- crates/republish-core/src/worker/mod.rs: `publish_samples` and `publish_envelope`.
pub mod Scalar
pub mod Agreement
pub mod Grouping
pub mod Partition
pub mod Envelope
use netix_protocol_core.Prelude.{
  ℕ, ◌+◌, Bool, true, false, List, [], ◌∷◌, ◌++◌, map, Option, none, some, length, or_else,
  unwrap_or, if◌then◌else◌,
}
use netix_protocol_core.Prelude.Int.{ℤ, pos, max_ℤ}
use netix_protocol_core.Prelude.Eq.{nat_eq, list_eq, pair_eq}
use netix_protocol_core.Prelude.Maps.{HashMap, get, insert, update}
use netix_protocol_core.Text.{Text, trim}
use netix_protocol_core.Model.{
  PointConfig, PointSample, PointStatus, PublishStats, as_json_value, show_value, display_name,
  empty_stats, record_failure, record_publish_success, record_publish_failure,
}
use netix_protocol_core.Model.Identity.{PointIdentity, from_point}
use netix_protocol_core.Config.{MqttConfig, PayloadFormat}
use netix_protocol_core.Topic.{device_envelope_topic}
use netix_protocol_core.Mqtt.Publisher.{MqttPublisher, Error, Payload, EnvelopePoint}
use netix_protocol_core.Worker.Events.{WorkerEvent, point_publish}
use netix_protocol_core.Worker.Refresh.{Statuses}

-- The publisher, the statistics, the statuses and the events sent so far.
pub record Publishing (P : Type 0) : Type 0 where
  pub publisher : P
  pub stats : PublishStats
  pub statuses : Statuses
  pub events : List WorkerEvent

-- `stats.queued += 1`
abbrev pub queue : PublishStats → PublishStats
queue stats = record stats { queued = stats.queued + 1 }

-- `stats.published += n`
abbrev pub publish_ok : ℕ → PublishStats → PublishStats
publish_ok n stats = record stats { published = stats.published + n }

module _ {P : Type 0} where
  abbrev pub begin : P → Statuses → Publishing P
  begin publisher statuses = record {
    publisher = publisher;
    stats = empty_stats;
    statuses = statuses;
    events = [];
  }

  -- The status and the event of one sample that was published, or not.
  unfoldable pub note_success : PointSample → Publishing P → Publishing P
  note_success sample s = record s {
    statuses = update (from_point sample.point) record_publish_success s.statuses;
    events = s.events ++ point_publish (from_point sample.point) none ∷ [];
  }

  unfoldable pub note_failure : Text → PointSample → Publishing P → Publishing P
  note_failure message sample s = record s {
    stats = record_failure message s.stats;
    statuses = update (from_point sample.point) (record_publish_failure message) s.statuses;
    events = s.events ++ point_publish (from_point sample.point) (some message) ∷ [];
  }

  unfoldable pub note_successes : List PointSample → Publishing P → Publishing P
  note_successes [] s = s
  note_successes (x ∷ xs) s = note_successes xs (note_success x s)

  unfoldable pub note_failures : Text → List PointSample → Publishing P → Publishing P
  note_failures message [] s = s
  note_failures message (x ∷ xs) s = note_failures message xs (note_failure message x s)

module _ {P : Type 0} (broker : MqttPublisher P) where
  -- The end of both functions: the publisher's totals, and its error where no publish failed.
  unfoldable pub close_stats : Publishing P → Publishing P
  close_stats s = record s {
    stats = record s.stats {
      reconnects = broker.reconnect_count s.publisher;
      acked = broker.acked_count s.publisher;
      last_error = or_else s.stats.last_error (
          or_else (broker.connection_fatal_error s.publisher)
            (broker.last_connection_error s.publisher));
    };
  }

  -- The body of the loop of `publish_samples`.
  unfoldable pub publish_sample : MqttConfig → PointSample → Publishing P → Publishing P
  publish_sample mqtt sample s =
      let (result, publisher) =
        broker.publish sample.topic (Payload.scalar (as_json_value sample.value)) mqtt.retain
          s.publisher in
      let queued : Publishing P = record s { publisher = publisher; stats = queue s.stats } in
      elim result [
        | none ↦ note_success sample (record queued { stats = publish_ok 1 queued.stats })
        | some error ↦ note_failure error.message sample queued
      ]

  unfoldable pub publish_each : MqttConfig → List PointSample → Publishing P → Publishing P
  publish_each mqtt [] s = s
  publish_each mqtt (x ∷ xs) s = publish_each mqtt xs (publish_sample mqtt x s)

  unfoldable pub publish_scalars : MqttConfig → List PointSample → P → Statuses → Publishing P
  publish_scalars mqtt samples publisher statuses =
      close_stats (publish_each mqtt samples (begin publisher statuses))

unfoldable pub envelope_device_id : PointConfig → Text
envelope_device_id point = elim (trim point.device_key) [ [] ↦ display_name point | c ∷ s ↦ c ∷ s ]

unfoldable pub envelope_point_name : PointConfig → Text
envelope_point_name point = elim (trim point.tag_path) [ [] ↦ display_name point | c ∷ s ↦ c ∷ s ]

-- The samples by device, the devices in the order in which they were first seen, and the count of
-- the samples (`stats.queued`).
pub record Groups : Type 0 where
  pub queued : ℕ
  pub order : List Text
  pub groups : HashMap Text (List PointSample)

unfoldable pub group_sample : PointSample → Groups → Groups
group_sample sample g =
    let id = envelope_device_id sample.point in
    elim (get id g.groups) [
      | none ↦ record {
        queued = g.queued + 1;
        order = g.order ++ id ∷ [];
        groups = insert id (sample ∷ []) g.groups;
      }
      | some group ↦ record g {
        queued = g.queued + 1;
        groups = insert id (group ++ sample ∷ []) g.groups;
      }
    ]

unfoldable pub group_samples : List PointSample → Groups → Groups
group_samples [] g = g
group_samples (x ∷ xs) g = group_samples xs (group_sample x g)

abbrev pub no_groups : Groups
no_groups = record { queued = 0; order = []; groups = [] }

-- The latest time stamp of a group, and at least 0.
unfoldable pub group_time : ℤ → List PointSample → ℤ
group_time time [] = time
group_time time (x ∷ xs) = group_time (max_ℤ time x.timestamp_ms) xs

abbrev pub envelope_point : PointSample → EnvelopePoint
envelope_point sample = record {
  point_name = envelope_point_name sample.point;
  content = show_value sample.value;
}

module _ {P : Type 0} (broker : MqttPublisher P) where
  -- The body of the loop over the devices; a group is published as one message.
  unfoldable pub publish_group : MqttConfig → Text → List PointSample → Publishing P → Publishing P
  publish_group mqtt id group s =
      let (result, publisher) =
        broker.publish (device_envelope_topic mqtt id)
          (Payload.envelope (group_time (pos 0) group) id (map envelope_point group)) mqtt.retain
          s.publisher in
      let sent : Publishing P = record s { publisher = publisher } in
      elim result [
        | none ↦ note_successes group (record sent { stats = publish_ok (length group) sent.stats })
        | some error ↦ note_failures error.message group sent
      ]

  -- The loop over the devices. An id without a group, on which `&groups[id]` would panic, gets none.
  unfoldable pub publish_groups :
      MqttConfig → HashMap Text (List PointSample) → List Text → Publishing P → Publishing P
  publish_groups mqtt groups [] s = s
  publish_groups mqtt groups (id ∷ ids) s =
      publish_groups mqtt groups ids (publish_group mqtt id (unwrap_or (get id groups) []) s)

  unfoldable pub publish_envelope : MqttConfig → List PointSample → P → Statuses → Publishing P
  publish_envelope mqtt samples publisher statuses =
      let g = group_samples samples no_groups in
      let start : Publishing P = begin publisher statuses in
      close_stats broker (
        publish_groups mqtt g.groups g.order
          (record start { stats = record empty_stats { queued = g.queued } }))

  unfoldable pub publish_samples : MqttConfig → List PointSample → P → Statuses → Publishing P
  publish_samples mqtt samples publisher statuses = elim mqtt.payload_format [
    | PayloadFormat.netix_envelope ↦ publish_envelope mqtt samples publisher statuses
    | PayloadFormat.scalar ↦ publish_scalars broker mqtt samples publisher statuses
  ]
