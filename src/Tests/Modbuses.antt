-- ===== src/Tests/Modbuses.antt =====
-- Examples for the Modbus adapter (crates/proto-modbus).
use netix_protocol_core.Prelude.{
  ℕ, ◌*◌, ◌/◌, ◌-◌, ◌^◌, ◌≡◌, ◌≢◌, refl, true, List, [], ◌∷◌, ◌++◌, Option, none, some, inr, All,
  arith, ◌==◌, if◌then◌else◌, range, min, max, filter_map,
}
use netix_protocol_core.Prelude.Eq.{beq_iff, nat_eq, list_eq}
use netix_protocol_core.Prelude.Maps.{get}
use netix_protocol_core.Text.{
  Text, lit, trim, trim_matches, trim_start_matches, trim_end_matches, is_whitespace,
}
use netix_protocol_core.Text.Numbers.{u32_max}
use netix_protocol_core.Model.{
  Addressing, JsonValue, PointConfig, DiscoveredDevice, TelemetryValue, json_scalar,
}
use netix_protocol_core.Model.Neutral.{PointKind}
use netix_protocol_core.Import.{point_from_discovered}
use netix_protocol_core.Mqtt.Publisher.{Error}
use netix_protocol_core.Worker.Events.{ok}
use netix_protocol_core.Simulator.Profiles.{PointValue, ProfileState}
use netix_protocol_core.Simulator.Points.{
  SimulatedPoint, SimulatedDevice, to_ascii_lowercase, point_value, lower_char,
}
use netix_protocol_core.Simulator.Points.Lookup.{Holds}
use netix_protocol_core.Simulator.Metrics.{new_metrics}
use netix_protocol_core.Modbus.Wire.{Answer}
use netix_protocol_core.Modbus.Image.{build_modbus_map}
use netix_protocol_core.Modbus.Service.{ModbusService, identity_objects, option_text}
use netix_protocol_core.Modbus.Client.{Context, addr_str, addr_u64, read_point, scale_of}
use netix_protocol_core.Modbus.Client.Served.{client_of, seen, read_point-served}
use netix_protocol_core.Modbus.Scan.{expand_cidr}
use netix_protocol_core.Modbus.Scan.Hosts.{expand_cidr-block}
use netix_protocol_core.Modbus.Discovery.{read_identity}
use netix_protocol_core.Modbus.Discovery.Named.{
  identify_with, names, read_identity-identity_objects,
}
use netix_protocol_core.Modbus.Browse.{scan_table, register_point}
use netix_protocol_core.Modbus.Browse.Gaps.{with_value, Stopped, scan_table-stops}
use netix_protocol_core.Modbus.Browse.Polled.{
  Table, name_of, type_of, polled_as, read_point-browsed,
}
use netix_protocol_core.Tests.Numerals.{numerals}

-- Two devices with an analog point and a fan; the second one's supply temperature is 21.
abbrev simulated : Text → ℕ → PointKind → PointValue ℕ → SimulatedPoint ℕ
simulated object_type n kind value = record {
  label = lit "point";
  kind = kind;
  object_type = object_type;
  instance_number = n;
  units = none;
  value = value;
  profile = ProfileState.constant 0;
}

abbrev supply : SimulatedPoint ℕ
supply = simulated (lit "analog_input") 1 PointKind.analog (PointValue.real 21)

abbrev fan : SimulatedPoint ℕ
fan = simulated (lit "binary_input") 1 PointKind.binary (PointValue.boolean true)

abbrev unit_of : ℕ → List (SimulatedPoint ℕ) → SimulatedDevice ℕ
unit_of id points = record { device_id = id; name = lit "AHU"; points = points }

abbrev first : SimulatedDevice ℕ
first = unit_of 1010 (supply ∷ fan ∷ [])

abbrev second : SimulatedDevice ℕ
second = unit_of 1011 (fan ∷ supply ∷ [])

abbrev service : ModbusService ℕ
service = record {
  image = build_modbus_map (first ∷ second ∷ []);
  identity = [];
  sim = first ∷ second ∷ [];
  peer = lit "10.0.0.9:4000";
}

-- The supply temperature of the second device.
abbrev configured : PointConfig
configured = record {
  enabled = true;
  device_key = lit "ahu-2";
  addressing =
      (lit "address", JsonValue.number (record { as_u64 = some 2; display = lit "2" }))
      ∷ (lit "datatype", JsonValue.string (lit "f32"))
      ∷ (lit "table", JsonValue.string (lit "input"))
      ∷ [];
  tag_path = [];
  poll_interval_secs = 10;
}

supply_lower : to_ascii_lowercase (trim supply.object_type) ≡ supply.object_type
unfolding to_ascii_lowercase trim trim_matches trim_start_matches trim_end_matches is_whitespace
    lower_char
supply_lower = refl

another_type : fan.object_type ≢ supply.object_type
another_type e = let same = (beq_iff fan.object_type supply.object_type).1 e in cc (same)

live : Holds service.sim 1011 supply.object_type supply.instance_number supply
live = record {
  earlier = first ∷ [];
  device = second;
  later = [];
  firsts = fan ∷ [];
  rest = [];
  devices = refl;
  other_ids = (λ e. omega (arith, e), tt);
  its_id = refl;
  points = refl;
  other_points = (λ e. another_type e.0, tt);
  its_type = refl;
  its_number = refl;
}

read_point-served_example :
    read_point numerals (client_of numerals service new_metrics) configured
    ≡ some (
        ok (
          TelemetryValue.number (
            seen numerals supply.kind
              (some (point_value numerals supply.value))
              (scale_of numerals configured))))
unfolding addr_str addr_u64 get json_scalar
read_point-served_example =
    read_point-served numerals service new_metrics configured (first ∷ []) [] second (fan ∷ []) []
      supply supply refl refl (inr refl, refl, refl, refl) live supply_lower

-- 192.168.1.6/30, of which the second block of four is scanned.
abbrev parse_ipv4 : Text → Option ℕ
parse_ipv4 s = some 3_232_235_782

abbrev unresolved : Error
unresolved = record { message = lit "unknown host"; chain = lit "unknown host" }

expand_cidr-block_example :
    let size = 2 ^ (32 - 30) in
    let hosts = range (3_232_235_782 / size * size) (min (max 1024 1) (min size u32_max)) in
    (expand_cidr parse_ipv4 (λ s. ok []) unresolved (lit "192.168.1.6") 30 1024 ≡ ok hosts)
    × All (λ a. a / size ≡ 3_232_235_782 / size) hosts
expand_cidr-block_example =
    expand_cidr-block parse_ipv4 (λ s. ok []) unresolved (lit "192.168.1.6") 3_232_235_782 30 1024
      refl (omega arith) (omega arith)

abbrev options : Addressing
options =
    (lit "product_code", JsonValue.string (lit "RTU-4"))
    ∷ (lit "vendor_name", JsonValue.string (lit " Netix "))
    ∷ []

read_identity-identity_objects_example :
    read_identity (identify_with (identity_objects options))
    ≡ names options (option_text options (lit "vendor_name"))
read_identity-identity_objects_example = read_identity-identity_objects options

abbrev found_at : Text → DiscoveredDevice
found_at address = record {
  key = lit "modbus-1";
  instance_id = none;
  address = address;
  detail = [];
  vendor_id = none;
  vendor_name = none;
  model_name = none;
}

-- Only register 1 can be read.
abbrev register : ℕ → Option ℕ
register a = if a == 1 then some 17 else none

scan_table-stops_example :
    (seen left : List ℕ) × (range 0 100 ≡ seen ++ left)
    × (scan_table register 0 (range 0 100) ≡ filter_map (with_value register) seen)
    × Stopped register 0 seen left
scan_table-stops_example = scan_table-stops register (range 0 100)

abbrev device_context : Context
device_context = record {
  read_holding_registers = λ a n. Answer.value (17 ∷ []);
  read_input_registers = λ a n. Answer.elapsed;
  read_coils = λ a n. Answer.value (true ∷ []);
  read_discrete_inputs = λ a n. Answer.elapsed;
}

read_point-browsed_example :
    read_point numerals device_context (
      point_from_discovered
        (register_point
          (found_at (lit "10.0.0.9"))
          (name_of Table.holding)
          (type_of Table.holding)
          (40, TelemetryValue.number (numerals.nat64 17)))
        30)
    ≡ some (ok (polled_as numerals Table.holding (TelemetryValue.number (numerals.nat64 17))))
read_point-browsed_example =
    read_point-browsed numerals device_context Table.holding 40 30 (found_at (lit "10.0.0.9"))
      (TelemetryValue.number (numerals.nat64 17)) (omega arith) (17, [], refl, refl)
