-- ===== src/Tests/Bacnets.antt =====
-- Examples for the BACnet adapter (crates/proto-bacnet).
use mathlib.Core.List.{Memᴰ}
use netix_protocol_core.Prelude.{
  ℕ, ◌⊎◌, ◌≡◌, refl, true, false, List, [], ◌∷◌, ◌++◌, Option, none, some, any, arith, ◌==◌, ◌+◌,
}
use netix_protocol_core.Prelude.Int.{pos}
use netix_protocol_core.Prelude.Eq.{nat_eq, list_eq}
use netix_protocol_core.Prelude.Maps.{contains}
use netix_protocol_core.Text.{lit}
use netix_protocol_core.Model.{DiscoverOutcome, RefreshOutcome, TelemetryValue}
use netix_protocol_core.Mqtt.Publisher.{Error}
use netix_protocol_core.Worker.Events.{Result, ok, err}
use netix_protocol_core.Worker.Devices.{sort_ℕ, dedup}
use netix_protocol_core.Bacnet.Value.{Decoded, decode_scalar_value}
use netix_protocol_core.Bacnet.Value.Framing.{frame}
use netix_protocol_core.Bacnet.Value.Decoding.{Kind, tag_of, value_of, decode-frame}
use netix_protocol_core.Bacnet.Refresh.{
  Client, refresh_device_table, targeted, unresolved_device_instances, partition_refresh_outcome,
  normalize_device_instances, device_instance_ranges, chunk_ranges, ask_ranges,
}
use netix_protocol_core.Bacnet.Refresh.Ranges.{within, device_instance_ranges-within}
use netix_protocol_core.Bacnet.Refresh.Partition.{Splits}
use netix_protocol_core.Bacnet.Refresh.Outcome.{IsLookedUp, refresh_device_table-IsLookedUp}
use netix_protocol_core.Bacnet.Requests.{Names}
use netix_protocol_core.Bacnet.Poll.{Reads, poll_with_client}
use netix_protocol_core.Bacnet.Poll.Answered.{IsAnswered, poll_with_client-IsAnswered}
use netix_protocol_core.Bacnet.Settings.{
  ConnCfg, BindFailurePolicy, target_interfaces, resolve_bind_interface,
}
use netix_protocol_core.Bacnet.Session.{ensure_poll_client, PollSession}
use netix_protocol_core.Bacnet.Session.Reuse.{
  session_for, Serves, Replaced, ensure_poll_client-IsEnsured,
}
use netix_protocol_core.Bacnet.Objects.{ScannedMetadata}
use netix_protocol_core.Bacnet.Polled
use netix_protocol_core.Simulator.Points.{lower_char}
use netix_protocol_core.Bacnet.Polled.{imported, from_point-discovered}
use netix_protocol_core.Bacnet.Requests.{from_point}
use netix_protocol_core.Bacnet.Discovery.{Answering, discover, scan_interfaces}
use netix_protocol_core.Bacnet.Discovery.Table.{instances}
use netix_protocol_core.Bacnet.Discovery.Distinct.{answered, heard_on, discover-IsDistinct}
use netix_protocol_core.Bacnet.Poll.Pigeonhole.{IsDistinct}
use netix_protocol_core.Tests.Numerals.{numerals}
use netix_protocol_core.Tests.Fixtures.{supply, flow}

-- The two bytes of 300, and a byte behind them.
decode-frame_example :
    decode_scalar_value numerals [] (frame (tag_of Kind.unsigned) (1 ∷ 44 ∷ []) ++ 62 ∷ [])
    ≡ Decoded.ok (value_of numerals [] Kind.unsigned (1 ∷ 44 ∷ []))
decode-frame_example =
    decode-frame numerals [] Kind.unsigned (1 ∷ 44 ∷ []) (62 ∷ []) (omega arith, (omega arith, tt))
      (omega arith)

device_instance_ranges-within_example :
    any (within 9) (device_instance_ranges (9 ∷ 4 ∷ 9 ∷ [])) ≡ true
unfolding contains
device_instance_ranges-within_example = device_instance_ranges-within (9 ∷ 4 ∷ 9 ∷ []) 9 refl

-- A client whose device table has device 7 only; its state counts the messages.
abbrev client : Client ℕ
client = record {
  who_is = λ range c. (none, c + 1);
  get_device = λ i c. (i == 7, c);
  sleep = λ c. c;
}

abbrev outcome : RefreshOutcome
outcome = record { resolved = 7 ∷ []; unresolved = 9 ∷ [] }

refresh_device_table-IsLookedUp_example :
    let after = (refresh_device_table client (9 ∷ 7 ∷ 9 ∷ []) 0).1 in
    Splits (9 ∷ 7 ∷ 9 ∷ []) outcome × IsLookedUp client (9 ∷ 7 ∷ 9 ∷ []) 0 after outcome
unfolding refresh_device_table targeted unresolved_device_instances partition_refresh_outcome
    normalize_device_instances device_instance_ranges chunk_ranges ask_ranges contains sort_ℕ dedup
refresh_device_table-IsLookedUp_example =
    refresh_device_table-IsLookedUp client (9 ∷ 7 ∷ 9 ∷ []) 0 refl

abbrev names : Names
names = record {
  object_types = (lit "ANALOG_INPUT", 0) ∷ [];
  properties = (lit "PRESENT_VALUE", 85) ∷ [];
  is_identifier = λ object_type n. true;
  to_lowercase = λ c. lower_char c ∷ [];
}

abbrev failed_read : Error
failed_read = record { message = lit "timeout"; chain = lit "timeout" }

abbrev reads : Reads
reads = record {
  multiple = λ device rs. err failed_read;
  single = λ device i. err failed_read;
  now = λ device i. pos 1_000;
  decode = λ bytes. decode_scalar_value numerals [] bytes;
}

poll_with_client-IsAnswered_example :
    IsAnswered flow (poll_with_client names reads (supply ∷ flow ∷ []))
poll_with_client-IsAnswered_example =
    poll_with_client-IsAnswered names reads (supply ∷ flow ∷ []) flow (Memᴰ.tail (Memᴰ.head refl))

abbrev cfg : ConnCfg
cfg = record {
  interface_addr = 167_772_169;
  discover_all_interfaces = false;
  bind_failure_policy = BindFailurePolicy.skip;
  port = 47_808;
  broadcast = 4_294_967_295;
  bbmd = none;
  discovery_window_ms = 3_000;
  apdu_timeout_ms = 6_000;
  poll_concurrency = 8;
}

abbrev build : ConnCfg → ℕ → Result ℕ
build c bind = ok 1

abbrev session : PollSession ℕ
session = session_for cfg 167_772_169 3

ensure_poll_client-IsEnsured_example :
    let after = ensure_poll_client build cfg [] (some session) in
    (Serves cfg (resolve_bind_interface cfg []) (some session)
      × (after ≡ record { session = some session; stops = []; failure = none }))
    ⊎ ((¬ Serves cfg (resolve_bind_interface cfg []) (some session))
        × Replaced cfg
            (resolve_bind_interface cfg [])
            (some session)
            (build cfg (resolve_bind_interface cfg []))
            after)
ensure_poll_client-IsEnsured_example = ensure_poll_client-IsEnsured build cfg [] (some session)

abbrev answering : ℕ → ℕ → Answering
answering n vendor = record {
  device_instance = n;
  mac = [];
  vendor = vendor;
  object_name = some (TelemetryValue.text (lit "ahu"));
  vendor_name = none;
  model_name = none;
}

-- Two devices of one name, one of which answers two passes.
abbrev bind : ℕ → Result (List (Option (List Answering)))
bind addr = ok (some (answering 7 5 ∷ []) ∷ some (answering 9 5 ∷ answering 7 5 ∷ []) ∷ none ∷ [])

abbrev outcome_of : Result DiscoverOutcome → DiscoverOutcome
outcome_of (ok o) = o
outcome_of (err e) = record { devices = []; warnings = [] }

discover-IsDistinct_example :
    let o = outcome_of (discover bind cfg []) in
    IsDistinct (instances o.devices)
    × ((i : ℕ)
        → contains i (instances o.devices)
          ≡ contains i (answered (heard_on bind (target_interfaces cfg []))))
unfolding discover scan_interfaces target_interfaces
discover-IsDistinct_example = discover-IsDistinct bind cfg [] refl

abbrev browsed : ScannedMetadata
browsed = record { name = some (lit "supply"); description = none; units = none; present = none }

documented : Polled.Documented names
unfolding lower_char
documented = record {
  types = record { plain = (refl, tt); capital = (refl, tt); apart = ((λ e. refl, tt), tt) };
  properties = record { plain = (refl, tt); capital = (refl, tt); apart = ((λ e. refl, tt), tt) };
  present_value = refl;
  lowers = λ c h. refl;
}

from_point-discovered_example :
    let p = imported names (lit "boiler") 7 0 1 30 browsed in
    from_point names p
    ≡ ok (record {
      point = p;
      device_instance = 7;
      object_identifier = (0, 1);
      property_identifier = 85;
    })
from_point-discovered_example =
    from_point-discovered names (lit "boiler") 7 0 1 30 browsed documented refl (omega arith)
      (omega arith) (omega arith)
