-- ===== src/Modbus/Browse/Polled.antt =====
-- A browsed register of crates/proto-modbus/src/republish/mod.rs, imported and polled.
use netix_protocol_core.Prelude.{
  ℕ, ◌%◌, ◌<◌, ◌≡◌, refl, Bool, List, ◌∷◌, some, arith, if◌then◌else◌,
}
use netix_protocol_core.Prelude.Eq.{nat_eq, list_eq}
use netix_protocol_core.Prelude.Maps.{get}
use netix_protocol_core.Text.{Text, lit}
use netix_protocol_core.Model.{DiscoveredDevice, TelemetryValue, json_scalar}
use netix_protocol_core.Model.Floats.{Floats}
use netix_protocol_core.Import.{point_from_discovered}
use netix_protocol_core.Worker.Events.{ok}
use netix_protocol_core.Modbus.{word}
use netix_protocol_core.Modbus.Wire.{Answer}
use netix_protocol_core.Modbus.Client.{Context, read_point, decode, scale_of, addr_str, addr_u64}
use netix_protocol_core.Modbus.Browse.{register_point}

-- The tables of a browse, with the names and types of their points.
pub data Table : Type 0 where
  holding input coil discrete : Table

abbrev pub name_of : Table → Text
name_of Table.holding = lit "holding"
name_of Table.input = lit "input"
name_of Table.coil = lit "coil"
name_of Table.discrete = lit "discrete"

abbrev pub type_of : Table → Text
type_of Table.holding = lit "u16"
type_of Table.input = lit "u16"
type_of Table.coil = lit "bool"
type_of Table.discrete = lit "bool"

module _ {F32 : Type 0} (fp : Floats F32) where
  abbrev IsRegister : Answer (List ℕ) → TelemetryValue → Type 0
  IsRegister answer v =
      (r : ℕ) × (rs : List ℕ) × (answer ≡ Answer.value (r ∷ rs))
      × (v ≡ TelemetryValue.number (fp.nat64 r))

  abbrev IsBit : Answer (List Bool) → TelemetryValue → Type 0
  IsBit answer v =
      (b : Bool) × (bs : List Bool) × (answer ≡ Answer.value (b ∷ bs))
      × (v ≡ TelemetryValue.number (if b then fp.nat64 1 else fp.nat64 0))

  -- A read of one register or bit of a table answers with the value.
  abbrev Shows : Context → Table → ℕ → TelemetryValue → Type 0
  Shows ctx Table.holding addr v = IsRegister (ctx.read_holding_registers addr 1) v
  Shows ctx Table.input addr v = IsRegister (ctx.read_input_registers addr 1) v
  Shows ctx Table.coil addr v = IsBit (ctx.read_coils addr 1) v
  Shows ctx Table.discrete addr v = IsBit (ctx.read_discrete_inputs addr 1) v

  -- A polled register is multiplied by the scale, which is 1.
  abbrev times_one : TelemetryValue → TelemetryValue
  times_one (TelemetryValue.number x) = TelemetryValue.number (fp.mul64 x (fp.nat64 1))
  times_one (TelemetryValue.text t) = TelemetryValue.text t

  abbrev pub polled_as : Table → TelemetryValue → TelemetryValue
  polled_as Table.holding v = times_one v
  polled_as Table.input v = times_one v
  polled_as Table.coil v = v
  polled_as Table.discrete v = v

-- A point that a browse finds at an address of a table, imported as it is, is polled from the same place
-- as the same type: while the device answers the read with the value that the browse saw, the poll gives
-- that value, a register times the default scale of 1.
pub read_point-browsed :
    {F32 : Type 0} (fp : Floats F32) (ctx : Context) (table : Table) (addr secs : ℕ)
    (device : DiscoveredDevice) (value : TelemetryValue)
    → addr < word
    → Shows fp ctx table addr value
    → read_point fp ctx (
        point_from_discovered
          (register_point device (name_of table) (type_of table) (addr, value))
          secs)
      ≡ some (ok (polled_as fp table value))
unfolding read_point point_from_discovered register_point addr_str addr_u64 json_scalar get decode
    scale_of
read_point-browsed fp ctx Table.holding addr secs device value h (r, rs, e, v) =
    let a : addr % word ≡ addr = omega (arith, h) in rw (a, e, v) refl
read_point-browsed fp ctx Table.input addr secs device value h (r, rs, e, v) =
    let a : addr % word ≡ addr = omega (arith, h) in rw (a, e, v) refl
read_point-browsed fp ctx Table.coil addr secs device value h (b, bs, e, v) =
    let a : addr % word ≡ addr = omega (arith, h) in rw (a, e, v) refl
read_point-browsed fp ctx Table.discrete addr secs device value h (b, bs, e, v) =
    let a : addr % word ≡ addr = omega (arith, h) in rw (a, e, v) refl
