-- ===== src/Modbus/Browse.antt =====
-- `browse` of crates/proto-modbus/src/republish/mod.rs: the scan of the register and bit tables.
pub mod Gaps
pub mod Polled
use netix_protocol_core.Prelude.{
  ℕ, suc, ◌+◌, ◌-◌, Bool, List, [], ◌∷◌, ◌++◌, map, Option, none, some, min, leb, range,
  if◌then◌else◌,
}
use netix_protocol_core.Text.{Text, lit}
use netix_protocol_core.Text.Numbers.{decimal, u16_max}
use netix_protocol_core.Model.{
  Addressing, BrowseOutcome, DiscoveredDevice, DiscoveredPoint, Float, JsonValue, TelemetryValue,
}
use netix_protocol_core.Model.Floats.{Floats}
use netix_protocol_core.Worker.Events.{Result, ok, err}
use netix_protocol_core.Modbus.Wire.{Answer}
use netix_protocol_core.Modbus.Params.{ConnParams, parse_conn}
use netix_protocol_core.Modbus.Client.{Context}

-- The body of the inner loops over the addresses: the readable ones with what they gave, until
-- `MAX_CONSECUTIVE_GAPS` unreadable ones in a row.
unfoldable pub scan_table : {A : Type 0} → (ℕ → Option A) → ℕ → List ℕ → List (ℕ × A)
scan_table read gaps [] = []
scan_table read gaps (addr ∷ addrs) = elim (read addr) [
  | some v ↦ (addr, v) ∷ scan_table read 0 addrs
  | none ↦ let rest = scan_table read (gaps + 1) addrs in if leb 8 (gaps + 1) then [] else rest
]

abbrev browsed_range : ConnParams → List ℕ
browsed_range params =
    let end = min (params.browse_start + params.browse_count) u16_max in
    range params.browse_start (end - params.browse_start)

abbrev pub json_of : ℕ → JsonValue
json_of n = JsonValue.number (record { as_u64 = some n; display = decimal n })

-- `push_register_point`: the point that it pushes, its addressing in the order of the keys
unfoldable pub register_point :
    DiscoveredDevice → Text → Text → ℕ × TelemetryValue → DiscoveredPoint
unfolding decimal
register_point device table datatype (addr, value) = record {
  device_key = device.key;
  name = some (table ++ (b'[' ∷ decimal addr ++ (b']' ∷ [])));
  description = none;
  units = none;
  value = some value;
  addressing =
      (lit "address", json_of addr)
      ∷ (lit "datatype", JsonValue.string datatype)
      ∷ (lit "table", JsonValue.string table)
      ∷ (lit "word_order", JsonValue.string (lit "big"))
      ∷ [];
  suggested_tag_path = device.key ++ (b'/' ∷ table ++ (b'_' ∷ decimal addr));
}

module _ {F32 : Type 0} (fp : Floats F32) where
  abbrev first_register : List ℕ → TelemetryValue
  first_register [] = TelemetryValue.number (fp.nat64 0)
  first_register (r ∷ rs) = TelemetryValue.number (fp.nat64 r)

  abbrev first_bit : List Bool → TelemetryValue
  first_bit [] = TelemetryValue.number (fp.nat64 0)
  first_bit (b ∷ bs) = TelemetryValue.number (if b then fp.nat64 1 else fp.nat64 0)

  abbrev readable : {A : Type 0} → (A → TelemetryValue) → Answer A → Option TelemetryValue
  readable f (Answer.value a) = some (f a)
  readable f (Answer.exception e) = none
  readable f (Answer.failed e) = none
  readable f Answer.elapsed = none

  -- The points of one table, as `datatype`.
  abbrev table_points :
      DiscoveredDevice
      → ConnParams
      → Text
      → Text
      → (ℕ → Option TelemetryValue)
      → List DiscoveredPoint
  table_points device params table datatype read =
      map (register_point device table datatype) (scan_table read 0 (browsed_range params))

  unfoldable browse_tables : Context → ConnParams → DiscoveredDevice → List DiscoveredPoint
  unfolding scan_table register_point
  browse_tables ctx params device =
      table_points device params (lit "holding") (lit "u16")
        (λ a. readable first_register (ctx.read_holding_registers a 1))
      ++ (table_points device params (lit "input") (lit "u16")
            (λ a. readable first_register (ctx.read_input_registers a 1))
          ++ (table_points device params (lit "coil") (lit "bool")
                (λ a. readable first_bit (ctx.read_coils a 1))
              ++ table_points device params (lit "discrete") (lit "bool")
                  (λ a. readable first_bit (ctx.read_discrete_inputs a 1))))

  -- `connected` is the result of `connect`.
  unfoldable pub browse :
      (ConnParams → Result Context) → Addressing → DiscoveredDevice → Result BrowseOutcome
  unfolding browse_tables parse_conn
  browse connected conn device = elim (parse_conn conn) [
    | err e ↦ err e
    | ok params ↦ elim (connected params) [
      | err e ↦ err e
      | ok ctx ↦ ok (record { points = browse_tables ctx params device; warnings = [] })
    ]
  ]
