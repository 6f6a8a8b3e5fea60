-- ===== src/Tests/Polls.antt =====
-- Examples for the loop of crates/republish-core/src/worker/mod.rs and for publishing.
use mathlib.Core.List.{Memᴰ}
use netix_protocol_core.Prelude.{ℕ, ◌+◌, ◌-◌, ◌*◌, ◌≤◌, ◌≡◌, ◌↔◌, refl, false, [], ◌∷◌, map, none}
use netix_protocol_core.Prelude.Int.{pos}
use netix_protocol_core.Prelude.Maps.{contains, get, insert, add, remove}
use netix_protocol_core.Text.{trim}
use netix_protocol_core.Text.Numbers.{parse_unsigned}
use netix_protocol_core.Model.{PollOutcome}
use netix_protocol_core.Model.Identity.{from_point}
use netix_protocol_core.Backoff.{second, update_device_backoffs}
use netix_protocol_core.Worker.Events.{running, stopping, stopped, ok}
use netix_protocol_core.Worker.Devices.{device_instance, device_blocked, due_points}
use netix_protocol_core.Worker.Publish.{no_groups, group_samples, publish_envelope, publish_scalars}
use netix_protocol_core.Worker.Publish.Scalar.{reported, sample_id, publish_scalars-Accounts}
use netix_protocol_core.Worker.Publish.Grouping.{IsGrouping, group_samples-IsGrouping_all}
use netix_protocol_core.Worker.Publish.Partition.{by_device}
use netix_protocol_core.Worker.Publish.Envelope.{publish_envelope-Accounts}
use netix_protocol_core.Worker.State.{Job, Tick, LoopState, default_intervals, mark_polled, to_set}
use netix_protocol_core.Worker.Loop.{
  report_fatal, refresh_devices, take_reads, take_samples, take_poll, due_now, poll_due,
  report_health, before_poll, cycle,
}
use netix_protocol_core.Worker.Boot.{Boot, run_republisher}
use netix_protocol_core.Worker.Loop.Polling.{MayPoll, due_points-mem, polled_waits}
use netix_protocol_core.Worker.Loop.Lifecycle.{run_republisher-lifecycles}
use netix_protocol_core.Worker.Lifecycles.{lifecycles}
use netix_protocol_core.Tests.Fixtures.{config, supply, flow, disabled, samples, broker}

-- The queue takes two of the three samples, and one of the two envelopes where one waits already.
publish_scalars-Accounts_example :
    let t = publish_scalars broker config samples 0 [] in
    (t.stats.queued ≡ 3)
    × (t.stats.published + t.stats.failed ≡ 3)
    × (reported t.events ≡ map sample_id samples)
publish_scalars-Accounts_example = publish_scalars-Accounts broker config samples 0 []

publish_envelope-Accounts_example :
    let t = publish_envelope broker config samples 1 [] in
    (t.stats.queued ≡ 3)
    × (t.stats.published + t.stats.failed ≡ 3)
    × (reported t.events
        ≡ map sample_id (by_device (group_samples samples no_groups).order samples))
publish_envelope-Accounts_example = publish_envelope-Accounts broker config samples 1 []

group_samples-IsGrouping_all_example : IsGrouping samples (group_samples samples no_groups)
group_samples-IsGrouping_all_example = group_samples-IsGrouping_all samples

due_points-mem_example :
    Memᴰ supply (due_points (20 * second) (supply ∷ disabled ∷ []) (9 ∷ []) [] [])
    ↔ (MayPoll (20 * second) (9 ∷ []) [] [] supply × Memᴰ supply (supply ∷ disabled ∷ []))
due_points-mem_example = due_points-mem (20 * second) (9 ∷ []) [] [] supply (supply ∷ disabled ∷ [])

abbrev pub job : Job
job = record {
  mqtt = config;
  points = supply ∷ flow ∷ [];
  backoff_max = 300 * second;
  intervals = default_intervals;
}

-- The reads of all points succeed, and the device table never changes.
abbrev pub reads : PollOutcome
reads = record { samples = samples; failures = []; warnings = [] }

abbrev tick_at : ℕ → Tick ℕ
tick_at now = record {
  link = λ queued. 0;
  now = now;
  keepalive_checked = now;
  full_refresh_at = now;
  resolve_checked = now;
  resolve_at = now;
  health_checked = now;
  health_at = now;
  millis = pos 1000;
  refresh = λ devices. ok (record { resolved = devices; unresolved = [] });
  poll = λ due. ok reads;
}

abbrev idle : LoopState ℕ
idle = record {
  publisher = 0;
  unresolved = [];
  backoffs = [];
  last_poll = [];
  statuses = [];
  last_resolve_attempt = 0;
  last_full_refresh = 0;
  last_health = 0;
  cycle_published = 0;
  cycle_failed_reads = 0;
  cycle_failed_publishes = 0;
  reconnects = 0;
  acked = 0;
  last_error = none;
  fatal_reported = false;
  events = [];
}

abbrev pub first_tick : Tick ℕ
first_tick = tick_at (20 * second)

abbrev second_tick : Tick ℕ
second_tick = tick_at (31 * second)

supply_due : Memᴰ supply (due_now broker job first_tick (before_poll broker job first_tick idle))
unfolding due_points before_poll refresh_devices report_fatal device_blocked device_instance get
    contains
supply_due = Memᴰ.head refl

due_again : Memᴰ supply (
    due_now broker job second_tick
      (before_poll broker job second_tick (cycle broker job first_tick idle)))
unfolding due_points before_poll refresh_devices report_fatal device_blocked device_instance get
    contains cycle report_health poll_due take_poll take_samples take_reads update_device_backoffs
    to_set add parse_unsigned trim remove mark_polled insert from_point
due_again = Memᴰ.head refl

polled_waits_example : supply.poll_interval_secs * second ≤ second_tick.now - first_tick.now
polled_waits_example =
    polled_waits broker job first_tick second_tick idle supply reads supply_due refl due_again

abbrev pub boot : Boot
boot = record {
  refresh = λ devices. ok (record { resolved = devices; unresolved = 9 ∷ [] });
  resolve_at = 0;
  full_refresh_at = 0;
  health_now = second;
  health_fallback = second;
}

run_republisher-lifecycles_example :
    lifecycles (run_republisher broker job boot (first_tick ∷ second_tick ∷ []) 0)
    ≡ running ∷ stopping ∷ stopped ∷ []
run_republisher-lifecycles_example =
    run_republisher-lifecycles broker job boot (first_tick ∷ second_tick ∷ []) 0
