-- ===== src/Modbus/Scan.antt =====
-- crates/proto-modbus/src/republish/scan.rs: the hosts of a scan. An IPv4 address is its 32-bit number;
-- `parse_ipv4` is `str::parse::<Ipv4Addr>`, `resolve` the IPv4 addresses that the resolver returns, or
-- its error.
pub mod Hosts
use netix_protocol_core.Prelude.{
  ℕ, zero, suc, ◌+◌, ◌-◌, ◌*◌, ◌/◌, ◌%◌, ◌^◌, Bool, List, [], ◌∷◌, ◌++◌, map, Option, none, some,
  max, min, ltb, ◌==◌, range, is_empty, if◌then◌else◌,
}
use netix_protocol_core.Text.{Text, lit, trim}
use netix_protocol_core.Text.Numbers.{decimal, parse_unsigned, u32_max}
use netix_protocol_core.Worker.Events.{Result, ok, err}
use netix_protocol_core.Mqtt.Publisher.{Error}
use netix_protocol_core.Modbus.Params.{anyhow}

abbrev pub u32 : ℕ
u32 = 4_294_967_296

-- `1u32.checked_shl(bits).unwrap_or(u32::MAX)`
abbrev pub block_size : ℕ → ℕ
block_size bits = if ltb bits 32 then 2 ^ bits % u32 else u32_max

-- `base & (u32::MAX << bits)` for fewer than 32 bits: the mask clears the low bits.
abbrev pub masked : ℕ → ℕ → ℕ
masked base bits = base / 2 ^ bits * 2 ^ bits

-- `str::split_once('/')`
unfoldable split_slash : Text → Option (Text × Text)
split_slash [] = none
split_slash (c ∷ s) = elim (split_slash s) [
  | none ↦ if c == b'/' then some ([], s) else none
  | some (before, after) ↦ if c == b'/' then some ([], s) else some (c ∷ before, after)
]

module _ (parse_ipv4 : Text → Option ℕ) (resolve : Text → Result (List ℕ)) where
  abbrev pub address_at : ℕ → ℕ → ℕ
  address_at network offset = (network + offset) % u32

  abbrev cidr_hosts : ℕ → ℕ → ℕ → List ℕ
  cidr_hosts base prefix max_hosts =
      let host_bits = 32 - prefix in
      let cap = min (max max_hosts 1) (block_size host_bits) in
      let network = if prefix == 0 then 0 else masked base host_bits in
      map (address_at network) (range 0 cap)

  -- The error of a failed parse is the parser's.
  unfoldable pub expand_cidr : Error → Text → ℕ → ℕ → Result (List ℕ)
  expand_cidr syntax network prefix max_hosts =
      let hosts : Result (List ℕ) = elim (parse_ipv4 network) [
        | none ↦ err syntax
        | some base ↦ ok (cidr_hosts base prefix max_hosts)
      ] in
      if ltb 32 prefix then err (anyhow (lit "invalid CIDR prefix " ++ decimal prefix)) else hosts

  abbrev some_host : Text → Result (List ℕ) → Result (List ℕ)
  some_host host (err e) = err e
  some_host host (ok addrs) =
      if is_empty addrs
      then err (anyhow (lit "no IPv4 address found for Modbus host '" ++ (host ++ lit "'")))
      else ok addrs

  unfoldable resolve_host_ipv4 : Text → Result (List ℕ)
  resolve_host_ipv4 host = elim (parse_ipv4 host) [
    | some addr ↦ ok (addr ∷ [])
    | none ↦ some_host host (resolve host)
  ]

  abbrev targets_of : Error → ℕ → Text → Option (Text × Text) → Result (List ℕ)
  targets_of syntax max_hosts host none = resolve_host_ipv4 host
  targets_of syntax max_hosts host (some (network, prefix)) = elim (parse_unsigned 255 prefix) [
    | none ↦ err syntax
    | some p ↦ expand_cidr syntax network p max_hosts
  ]

  unfoldable pub parse_host_targets : Error → Text → ℕ → Result (List ℕ)
  unfolding trim split_slash resolve_host_ipv4 expand_cidr parse_unsigned
  parse_host_targets syntax host max_hosts =
      let targets = targets_of syntax max_hosts (trim host) (split_slash (trim host)) in
      if is_empty (trim host) then err (anyhow (lit "Modbus host is required")) else targets
