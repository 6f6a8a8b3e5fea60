-- ===== src/Bacnet/Settings.antt =====
-- The connection settings of crates/proto-bacnet/src/republish/mod.rs, and its choice of interfaces. An
-- IPv4 address is its 32-bit number, and `parse_ipv4` is `str::parse::<Ipv4Addr>`.
use netix_protocol_core.Prelude.{
  ℕ, ◌%◌, Bool, false, not, ◌||◌, List, [], ◌∷◌, ◌++◌, map, Option, none, some, unwrap_or, or_else,
  is_some_and, ◌==◌, if◌then◌else◌,
}
use netix_protocol_core.Prelude.Eq.{beq, nat_eq, list_eq}
use netix_protocol_core.Prelude.Maps.{get}
use netix_protocol_core.Text.{Text, lit}
use netix_protocol_core.Text.Numbers.{decimal, parse_unsigned, u32_max}
use netix_protocol_core.Model.{Addressing, DiscoveredDevice, JsonValue}
use netix_protocol_core.Simulator.Points.{to_ascii_lowercase}
use netix_protocol_core.Worker.Devices.{sort_ℕ, dedup}
use netix_protocol_core.Modbus.Params.{conn_u64}
use netix_protocol_core.Bacnet.Requests.{shown}

pub record NetworkInterface : Type 0 where
  pub name : Text
  pub addr : ℕ

pub data BindFailurePolicy : Type 0 where
  skip strict : BindFailurePolicy

pub record BbmdCfg : Type 0 where
  pub address : ℕ
  pub port : ℕ
  pub ttl_secs : ℕ

pub record ConnCfg : Type 0 where
  pub interface_addr : ℕ
  pub discover_all_interfaces : Bool
  pub bind_failure_policy : BindFailurePolicy
  pub port : ℕ
  pub broadcast : ℕ
  pub bbmd : Option BbmdCfg
  pub discovery_window_ms : ℕ
  pub apdu_timeout_ms : ℕ
  pub poll_concurrency : ℕ

abbrev bool_of : Option JsonValue → Bool
bool_of (some (JsonValue.bool v)) = v
bool_of (some (JsonValue.string s)) = beq (to_ascii_lowercase s) (lit "true") || beq s (lit "1")
bool_of (some (JsonValue.number n)) = is_some_and n.as_u64 (λ v. not (v == 0))
bool_of (some JsonValue.null) = false
bool_of (some (JsonValue.compound s)) = false
bool_of none = false

unfoldable conn_bool : Addressing → Text → Bool
unfolding get to_ascii_lowercase
conn_bool conn key = bool_of (get key conn)

-- Unlike the one of the Modbus adapter, a blank text counts as absent.
unfoldable pub conn_str : Addressing → Text → Option Text
unfolding get
conn_str conn key = shown (get key conn)

abbrev first_addr : List NetworkInterface → Option ℕ
first_addr [] = none
first_addr (i ∷ is) = some i.addr

module _ (parse_ipv4 : Text → Option ℕ) where
  abbrev parsed : Option Text → Option ℕ
  parsed none = none
  parsed (some s) = parse_ipv4 s

  abbrev bbmd_at : Addressing → Option ℕ → Option BbmdCfg
  bbmd_at conn none = none
  bbmd_at conn (some address) = some (record {
    address = address;
    port = unwrap_or (conn_u64 conn (lit "bbmd_port")) 47808 % 65_536;
    ttl_secs = unwrap_or (conn_u64 conn (lit "bbmd_ttl_secs")) 300 % 65_536;
  })

  abbrev policy_of : Text → BindFailurePolicy
  policy_of s =
      if beq (to_ascii_lowercase s) (lit "strict")
      then BindFailurePolicy.strict
      else BindFailurePolicy.skip

  unfoldable pub parse_conn : Addressing → List NetworkInterface → ConnCfg
  unfolding conn_str conn_bool conn_u64 to_ascii_lowercase
  parse_conn conn interfaces = record {
    interface_addr =
        unwrap_or (or_else (parsed (conn_str conn (lit "interface"))) (first_addr interfaces)) 0;
    discover_all_interfaces = conn_bool conn (lit "discover_all_interfaces");
    bind_failure_policy =
        policy_of (unwrap_or (conn_str conn (lit "bind_failure_policy")) (lit "skip"));
    port = unwrap_or (conn_u64 conn (lit "port")) 0 % 65_536;
    broadcast = unwrap_or (parsed (conn_str conn (lit "broadcast_address"))) u32_max;
    bbmd = bbmd_at conn (parsed (conn_str conn (lit "bbmd_address")));
    discovery_window_ms = unwrap_or (conn_u64 conn (lit "discovery_window_ms")) 3000;
    apdu_timeout_ms = unwrap_or (conn_u64 conn (lit "apdu_timeout_ms")) 2000;
    poll_concurrency = unwrap_or (conn_u64 conn (lit "poll_concurrency")) 8;
  }

abbrev addrs_of : List NetworkInterface → List ℕ
addrs_of interfaces = map (λ i. i.addr) interfaces

abbrev targets_among : List NetworkInterface → List ℕ
targets_among [] = 0 ∷ []
targets_among (i ∷ is) = dedup (sort_ℕ (addrs_of (i ∷ is)))

unfoldable pub target_interfaces : ConnCfg → List NetworkInterface → List ℕ
unfolding sort_ℕ dedup
target_interfaces cfg interfaces =
    if cfg.discover_all_interfaces then targets_among interfaces else cfg.interface_addr ∷ []

unfoldable pub resolve_bind_interface : ConnCfg → List NetworkInterface → ℕ
resolve_bind_interface cfg interfaces =
    if cfg.interface_addr == 0 then unwrap_or (first_addr interfaces) 0 else cfg.interface_addr

unfoldable pub device_key : ℕ → Text
unfolding decimal
device_key n = lit "device_" ++ decimal n

-- `strip_prefix`
unfoldable strip_prefix : Text → Text → Option Text
strip_prefix [] s = some s
strip_prefix (c ∷ p) [] = none
strip_prefix (c ∷ p) (d ∷ s) = let rest = strip_prefix p s in if c == d then rest else none

abbrev number_in : Option Text → Option ℕ
number_in none = none
number_in (some s) = parse_unsigned u32_max s

unfoldable instance_from_key : Text → Option ℕ
unfolding strip_prefix parse_unsigned
instance_from_key key = number_in (strip_prefix (lit "device_") key)

unfoldable resolve_device_instance : DiscoveredDevice → Option ℕ
unfolding instance_from_key
resolve_device_instance device = or_else device.instance_id (instance_from_key device.key)
