-- ===== src/Tests/Links.antt =====
-- Examples for the connection to the broker (crates/republish-core/src/mqtt.rs) and for the backoff of
-- devices (crates/republish-core/src/worker/backoff.rs).
use netix_protocol_core.Prelude.{
  ℕ, ◌*◌, Bool, Option, none, ◌==◌, ◌≡◌, refl, true, List, [], ◌∷◌, ◌++◌, some, arith, take,
  if◌then◌else◌,
}
use netix_protocol_core.Prelude.Eq.{nat_eq}
use netix_protocol_core.Prelude.Maps.{HashMap, HashSet, contains, get}
use netix_protocol_core.Text.{Text, lit}
use netix_protocol_core.Model.{PollOutcome}
use netix_protocol_core.Backoff.{
  DeviceBackoff, second, sampled_devices, failed_devices, update_device_backoffs,
}
use netix_protocol_core.Backoff.Schedule.{Bounds, Distinct, after_poll, get-update_device_backoffs}
use netix_protocol_core.Mqtt.{
  success, not_authorized, Polled, conn_ack, pub_ack, other, failed, Link, default_link, run_events,
  connection_fatal_error,
}
use netix_protocol_core.Mqtt.Connection.{
  IsConsistent, run_events-IsConsistent, fatal_message_replaced,
}
use netix_protocol_core.Mqtt.{default_state}
use netix_protocol_core.Mqtt.Publisher.{Payload}
use netix_protocol_core.Mqtt.Samples.{
  RumqttPublisher, rumqtt_publisher, publish_samples, enqueue_samples,
}
use netix_protocol_core.Worker.Publish.{publish_scalars}
use netix_protocol_core.Worker.Publish.Agreement.{publish_scalars-enqueue_samples}
use netix_protocol_core.Worker.Devices.{device_instance}
use netix_protocol_core.Tests.Fixtures.{flow, samples, config}

-- Accepted, acknowledged twice, dropped, and refused at the next attempt.
abbrev met : List Polled
met =
    conn_ack success
    ∷ pub_ack
    ∷ other
    ∷ pub_ack
    ∷ failed (lit "reset by peer")
    ∷ conn_ack not_authorized
    ∷ []

run_events-IsConsistent_example : IsConsistent (run_events default_link met)
run_events-IsConsistent_example = run_events-IsConsistent met

abbrev rejected : Link
rejected = run_events default_link met

rejected_fatal : rejected.state.fatal ≡ true
unfolding run_events
rejected_fatal = refl

fatal_message_replaced_example :
    connection_fatal_error (run_events rejected ((other ∷ []) ++ failed (lit "eof") ∷ [])).state
    ≡ some (lit "eof")
fatal_message_replaced_example =
    fatal_message_replaced rejected (other ∷ []) (lit "eof") rejected_fatal refl

-- Reads of device 7 succeed, those of device 9 fail.
abbrev half_failed : PollOutcome
half_failed = record {
  samples = take 1 samples;
  failures = record { point = flow; error = lit "timeout" } ∷ [];
  warnings = [];
}

abbrev polled : HashSet ℕ
polled = 7 ∷ 9 ∷ []

abbrev backed_off : HashMap ℕ DeviceBackoff
backed_off = (7, record { delay = 20 * second; until = 21 * second }) ∷ []

both-Distinct : Distinct polled
unfolding contains
both-Distinct = (refl, (refl, tt))

get-update_device_backoffs_example :
    get 9
      (update_device_backoffs backed_off polled half_failed
        (25 * second)
        (60 * second)
        device_instance).0
    ≡ (if contains 9 polled
        then after_poll
            (contains 9 (sampled_devices device_instance half_failed))
            (contains 9 (failed_devices device_instance half_failed))
            (25 * second)
            (60 * second)
            (get 9 backed_off)
        else get 9 backed_off)
get-update_device_backoffs_example =
    get-update_device_backoffs device_instance (60 * second) backed_off polled half_failed
      (25 * second) 9 both-Distinct

backed_off-Bounds : (d : ℕ) → Bounds device_instance (60 * second) (get d backed_off)
unfolding get
backed_off-Bounds d = ground arith

-- A client whose queue takes one message.
abbrev try_publish : Text → Payload → Bool → ℕ → Option Text × ℕ
try_publish topic payload retain n = if n == 0 then (none, 1) else (some (lit "channel full"), n)

abbrev rumqtt : RumqttPublisher ℕ
rumqtt = record { client = 0; state = default_state }

publish_scalars-enqueue_samples_example :
    let t = publish_scalars (rumqtt_publisher try_publish) config samples rumqtt [] in
    let u = publish_samples (rumqtt_publisher try_publish) config samples rumqtt in
    ((t.stats, t.publisher) ≡ enqueue_samples try_publish config samples rumqtt)
    × (u.1 ≡ t.publisher)
    × (u.0.queued ≡ t.stats.queued)
    × (u.0.published ≡ t.stats.published)
    × (u.0.failed ≡ t.stats.failed)
publish_scalars-enqueue_samples_example =
    publish_scalars-enqueue_samples try_publish config samples rumqtt []
