-- ===== src/Config/Checks.antt =====
-- crates/republish-core/src/config.rs: lemmas on `AppConfig::validate` and `AppConfig::migrate`.
use netix_protocol_core.Prelude.{
  ℕ, ◌≤◌, ◌≡◌, refl, ◌∙◌, Bool, true, false, ◌&&◌, ◌||◌, List, [], ◌∷◌, ◌++◌, some, arith, is_empty,
  ◌==◌, All, if◌then◌else◌,
}
use netix_protocol_core.Prelude.Eq.{beq, beq_iff, nat_eq, list_eq}
use netix_protocol_core.Prelude.Maps.{get, get-insert, update}
use netix_protocol_core.Text.{
  Text, lit, is_whitespace, trim, trim_end, trim_end_matches, is_blank, has,
}
use netix_protocol_core.Text.Splitting.{any-append}
use netix_protocol_core.Model.{JsonValue, Addressing, PointConfig, display_name}
use netix_protocol_core.Config.{MqttConfig}
use netix_protocol_core.Topic.{
  Validation, ok, err, validate_publish_topic, is_slash, telemetry_topic, device_envelope_topic,
  sanitize_segment,
}
use netix_protocol_core.Topic.Segments.{is_forbidden}
use netix_protocol_core.Topic.Validity.{validate_publish_topic-ok_iff, sanitize_lacks, has-trim}
use netix_protocol_core.Config.App.{
  AppConfig, insert_ordered, legacy_port, zero_port, upgrade, migrate, Checked, valid, invalid,
  and_then, labelled, is_envelope, differ, non_empty, check_envelope, check_point, check_points,
  validate,
}

get-insert_ordered :
    (k j : Text) (v : JsonValue) (m : Addressing)
    → get j (insert_ordered k v m) ≡ (if beq k j then some v else get j m)
unfolding get insert_ordered
get-insert_ordered k j v [] = refl
get-insert_ordered k j v ((i, w) ∷ m) =
    ground (arith, beq_iff k j, beq_iff i k, beq_iff i j, get-insert_ordered k j v m)

first_valid : (a b : Checked) → and_then a b ≡ valid → (a ≡ valid) × (b ≡ valid)
first_valid valid b h = (refl, h)
first_valid (invalid message) b h = cc

labelled_valid : (label : Text) (v : Validation) → labelled label v ≡ valid → v ≡ ok
labelled_valid label ok h = refl
labelled_valid label (err e) h = cc

-- What a checked point guarantees.
pub record IsPollable (mqtt : MqttConfig) (p : PointConfig) : Type 0 where
  pub interval : p.enabled ≡ true → 1 ≤ p.poll_interval_secs
  pub topic :
      p.enabled ≡ true
      → is_envelope mqtt ≡ false
      → validate_publish_topic (telemetry_topic mqtt p) ≡ ok

check_point-IsPollable :
    (mqtt : MqttConfig) (p : PointConfig) → check_point mqtt p ≡ valid → IsPollable mqtt p
unfolding check_point
check_point-IsPollable mqtt p h = record {
  interval = λ e. ground arith;
  topic = λ e s.
      labelled_valid (display_name p ++ lit " MQTT topic is invalid: ")
        (validate_publish_topic (telemetry_topic mqtt p)) (ground arith);
}

check_points-All :
    (mqtt : MqttConfig) (ps : List PointConfig)
    → check_points mqtt ps ≡ valid
    → All (IsPollable mqtt) ps
unfolding check_points
check_points-All mqtt [] h = tt
check_points-All mqtt (p ∷ ps) h =
    let (a, b) = first_valid (check_point mqtt p) (check_points mqtt ps) h in
    (check_point-IsPollable mqtt p a, check_points-All mqtt ps b)

abbrev prefix_of : MqttConfig → Text
prefix_of mqtt = trim_end_matches is_slash (trim_end mqtt.device_topic_prefix)

-- A wildcard of an envelope topic stands in its prefix.
has-device_envelope_topic :
    (d : ℕ) (mqtt : MqttConfig) (id : Text)
    → is_forbidden d ≡ true
    → has d (lit "/telemetry") ≡ false
    → has d (device_envelope_topic mqtt id) ≡ (has d (prefix_of mqtt) || has d (lit "/"))
unfolding device_envelope_topic
has-device_envelope_topic d mqtt id f t =
    let q : ℕ → Bool = λ x. x == d in
    ground (
      arith,
      any-append q (prefix_of mqtt) (lit "/" ++ (sanitize_segment id ++ lit "/telemetry")),
      any-append q (lit "/") (sanitize_segment id ++ lit "/telemetry"),
      any-append q (sanitize_segment id) (lit "/telemetry"),
      sanitize_lacks d id f,
    )

shown_of_slash : (s : Text) → has b'/' s ≡ true → is_blank s ≡ false
unfolding is_blank
shown_of_slash s h = by_trimmed (trim s) (has-trim b'/' s (unfold is_whitespace in refl) ∙ h)
  where
    by_trimmed : (t : Text) → has b'/' t ≡ true → is_empty t ≡ false
    by_trimmed [] e = cc
    by_trimmed (c ∷ t) e = refl

slash_of_envelope :
    (mqtt : MqttConfig) (id : Text) → has b'/' (device_envelope_topic mqtt id) ≡ true
unfolding device_envelope_topic
slash_of_envelope mqtt id =
    let q : ℕ → Bool = λ x. x == b'/' in
    ground (
      arith,
      any-append q (prefix_of mqtt) (lit "/" ++ (sanitize_segment id ++ lit "/telemetry")),
      any-append q (lit "/") (sanitize_segment id ++ lit "/telemetry"),
    )

same_validity :
    (mqtt : MqttConfig) (a b : Text)
    → validate_publish_topic (device_envelope_topic mqtt a) ≡ ok
    → validate_publish_topic (device_envelope_topic mqtt b) ≡ ok
same_validity mqtt a b h =
    let (x, y, z) = (validate_publish_topic-ok_iff (device_envelope_topic mqtt a)).0 h in
    (validate_publish_topic-ok_iff (device_envelope_topic mqtt b)).1 (
      shown_of_slash _ (slash_of_envelope mqtt b),
      has-device_envelope_topic b'#' mqtt b refl refl
          ∙ rw (has-device_envelope_topic b'#' mqtt a refl refl) at y,
      has-device_envelope_topic b'+' mqtt b refl refl
          ∙ rw (has-device_envelope_topic b'+' mqtt a refl refl) at z,
    )

check_envelope-sample :
    (mqtt : MqttConfig)
    → is_envelope mqtt ≡ true
    → check_envelope mqtt ≡ valid
    → validate_publish_topic (device_envelope_topic mqtt (lit "sample")) ≡ ok
unfolding check_envelope
check_envelope-sample mqtt m e =
    labelled_valid (lit "MQTT device topic is invalid: ")
      (validate_publish_topic (device_envelope_topic mqtt (lit "sample"))) (ground arith)

-- What a validated configuration guarantees.
pub record IsPublishable (c : AppConfig) : Type 0 where
  pub health : validate_publish_topic c.mqtt.health_topic ≡ ok
  pub envelope :
      is_envelope c.mqtt ≡ true
      → (id : Text) → validate_publish_topic (device_envelope_topic c.mqtt id) ≡ ok
  pub points : All (IsPollable c.mqtt) c.points

-- In a configuration that passes `validate`, the health topic is accepted for publishing, in envelope
-- mode the topic of every device, whatever its id, and in scalar mode the topic of every enabled
-- point; and no enabled point has a poll interval of zero.
pub validate-IsPublishable : (c : AppConfig) → validate c ≡ valid → IsPublishable c
unfolding validate
validate-IsPublishable c h =
    let paired = differ (non_empty c.mqtt.client_cert_path) (non_empty c.mqtt.client_key_path) in
    let tested : Checked = and_then (check_envelope c.mqtt) (check_points c.mqtt c.points) in
    let keys =
      invalid (lit "MQTT client certificate and client key paths must be configured together") in
    let health =
      labelled (lit "MQTT health topic is invalid: ")
        (validate_publish_topic c.mqtt.health_topic) in
    let all : and_then health (if paired then keys else tested) ≡ valid = ground arith in
    let (a, b) = first_valid health (if paired then keys else tested) all in
    let (e, p) =
      first_valid (check_envelope c.mqtt) (check_points c.mqtt c.points) (ground (arith, b)) in
    record {
      health =
          labelled_valid (lit "MQTT health topic is invalid: ")
            (validate_publish_topic c.mqtt.health_topic) a;
      envelope = λ m id. same_validity c.mqtt (lit "sample") id (check_envelope-sample c.mqtt m e);
      points = check_points-All c.mqtt c.points p;
    }

-- Migrating a configuration from before version 2 sets the port of its BACnet connection to 0 if it was
-- 47808, missing or no number; otherwise the port stays, and so does every other setting of the
-- connection.
migrate-port :
    (c : AppConfig) (conn : Addressing) (k : Text)
    → c.version ≤ 1
    → get (lit "bacnet") c.connections ≡ some conn
    → get (lit "bacnet") (migrate c).connections ≡ some (upgrade conn)
      × (get k (upgrade conn) ≡ (
          if beq (lit "port") k && legacy_port conn == 47808 then some zero_port else get k conn))
unfolding migrate update
migrate-port c conn k old e = (
  ground (arith, e, get-insert (lit "bacnet") (lit "bacnet") (upgrade conn) c.connections),
  ground (arith, get-insert_ordered (lit "port") k zero_port conn),
)
