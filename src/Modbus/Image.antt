-- ===== src/Modbus/Image.antt =====
-- crates/proto-modbus/src/sim/map.rs: the register image of the simulation. An index out of range
-- would be a panic, `none`.
pub mod Reading
pub mod Assembly
pub mod Placing
use netix_protocol_core.Prelude.{
  ℕ, ◌+◌, ◌-◌, ◌/◌, ◌%◌, Bool, true, false, List, [], ◌∷◌, ◌++◌, Option, none, some, get_elem?,
  length, ltb, unwrap_or, range, collect, if◌then◌else◌,
}
use netix_protocol_core.Text.{Text}
use netix_protocol_core.Model.{Float}
use netix_protocol_core.Model.Floats.{Floats}
use netix_protocol_core.Model.Neutral.{PointKind, PointValue, as_f64, as_bool}
use netix_protocol_core.Simulator.Points.{SimulatedPoint, SimulatedDevice, neutral_value}
use netix_protocol_core.Modbus.{word}

pub data RegEncoding : Type 0 where
  u16 f32_high f32_low : RegEncoding

pub record RegCell : Type 0 where
  pub device_id : ℕ
  pub object_type : Text
  pub instance_number : ℕ
  pub enc : RegEncoding

pub record BitCell : Type 0 where
  pub device_id : ℕ
  pub object_type : Text
  pub instance_number : ℕ

pub record ModbusMap : Type 0 where
  pub regs : List RegCell
  pub bits : List BitCell

unfoldable pub num_registers : ModbusMap → ℕ
num_registers m = length m.regs

unfoldable pub num_bits : ModbusMap → ℕ
num_bits m = length m.bits

module _ {F32 : Type 0} where
  abbrev pub reg_cell : SimulatedDevice F32 → SimulatedPoint F32 → RegEncoding → RegCell
  reg_cell d p enc = record {
    device_id = d.device_id;
    object_type = p.object_type;
    instance_number = p.instance_number;
    enc = enc;
  }

  abbrev pub bit_cell : SimulatedDevice F32 → SimulatedPoint F32 → BitCell
  bit_cell d p = record {
    device_id = d.device_id;
    object_type = p.object_type;
    instance_number = p.instance_number;
  }

  -- The body of the loop over the points, by kind.
  abbrev pub push_point :
      SimulatedDevice F32 → SimulatedPoint F32 → PointKind → ModbusMap → ModbusMap
  push_point d p PointKind.analog m = record m {
    regs =
        m.regs
        ++ (reg_cell d p RegEncoding.f32_high ∷ [])
        ++ (reg_cell d p RegEncoding.f32_low ∷ []);
  }
  push_point d p PointKind.multi_state m = record m {
    regs = m.regs ++ (reg_cell d p RegEncoding.u16 ∷ []);
  }
  push_point d p PointKind.binary m = record m { bits = m.bits ++ (bit_cell d p ∷ []) }
  push_point d p PointKind.text m = m

  unfoldable pub push_points :
      SimulatedDevice F32 → List (SimulatedPoint F32) → ModbusMap → ModbusMap
  push_points d [] m = m
  push_points d (p ∷ ps) m = push_points d ps (push_point d p p.kind m)

  unfoldable pub push_devices : List (SimulatedDevice F32) → ModbusMap → ModbusMap
  unfolding push_points
  push_devices [] m = m
  push_devices (d ∷ ds) m = push_devices ds (push_points d d.points m)

  -- `build_modbus_map`
  unfoldable pub build_modbus_map : List (SimulatedDevice F32) → ModbusMap
  unfolding push_devices
  build_modbus_map devices = push_devices devices (record { regs = []; bits = [] })

module _ {F32 : Type 0} (fp : Floats F32) where
  abbrev pub number_of : Option PointValue → Option Float
  number_of none = none
  number_of (some v) = as_f64 fp v

  abbrev pub bool_of : Option PointValue → Option Bool
  bool_of none = none
  bool_of (some v) = as_bool fp v

  abbrev pub rounded : Option Float → ℕ
  rounded none = 0
  rounded (some f) = fp.to_u16 f

  -- `bits >> 16` or `bits & 0xFFFF`, as a 16-bit word
  unfoldable pub f32_word : Option PointValue → Bool → ℕ
  unfolding as_f64
  f32_word value high =
      let bits = fp.to_bits (fp.narrow (unwrap_or (number_of value) (fp.nat64 0))) in
      if high then bits / word % word else bits % word

  abbrev encoded : Option PointValue → RegEncoding → ℕ
  encoded value RegEncoding.u16 = rounded (number_of value)
  encoded value RegEncoding.f32_high = f32_word value true
  encoded value RegEncoding.f32_low = f32_word value false

  module _ (sim : List (SimulatedDevice F32)) where
    unfoldable pub cell_word : RegCell → ℕ
    unfolding neutral_value f32_word as_f64
    cell_word c = encoded (neutral_value fp sim c.device_id c.object_type c.instance_number) c.enc

    unfoldable pub cell_bit : BitCell → Bool
    unfolding neutral_value as_bool
    cell_bit c =
        unwrap_or (bool_of (neutral_value fp sim c.device_id c.object_type c.instance_number)) false

    abbrev pub word_at : Option RegCell → Option ℕ
    word_at none = none
    word_at (some c) = some (cell_word c)

    abbrev pub bit_at : Option BitCell → Option Bool
    bit_at none = none
    bit_at (some c) = some (cell_bit c)

    -- `reg_word`
    unfoldable pub reg_word : ModbusMap → ℕ → Option ℕ
    unfolding cell_word
    reg_word m i = word_at (get_elem? m.regs i)

    -- `none` is an index out of range, `some none` a range out of bounds.
    unfoldable pub read_registers : ModbusMap → ℕ → ℕ → Option (Option (List ℕ))
    unfolding reg_word
    read_registers m addr qty =
        let words = collect (reg_word m) (range addr (addr + qty - addr)) in
        if ltb (length m.regs) (addr + qty)
        then some none
        else elim words [ none ↦ none | some ws ↦ some (some ws) ]

    unfoldable pub read_bits : ModbusMap → ℕ → ℕ → Option (Option (List Bool))
    unfolding cell_bit
    read_bits m addr qty =
        let bits = collect (λ i. bit_at (get_elem? m.bits i)) (range addr (addr + qty - addr)) in
        if ltb (length m.bits) (addr + qty)
        then some none
        else elim bits [ none ↦ none | some bs ↦ some (some bs) ]
