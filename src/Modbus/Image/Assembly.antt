-- ===== src/Modbus/Image/Assembly.antt =====
-- The image that `build_modbus_map` of crates/proto-modbus/src/sim/map.rs assembles, device by device.
use netix_protocol_core.Prelude.{
  ℕ, ◌+◌, ◌≡◌, refl, sym, ap, ◌∙◌, List, [], ◌∷◌, ◌++◌, length, length-append, arith,
}
use mathlib.Core.List.{append_assoc, append-nil}
use netix_protocol_core.Model.Neutral.{PointKind}
use netix_protocol_core.Simulator.Points.{SimulatedPoint, SimulatedDevice}
use netix_protocol_core.Modbus.Image.{
  RegCell, BitCell, ModbusMap, RegEncoding, reg_cell, bit_cell, push_point, push_points,
  push_devices, build_modbus_map,
}

-- Registers and bits that a point of a kind takes.
abbrev pub reg_width : PointKind → ℕ
reg_width PointKind.analog = 2
reg_width PointKind.multi_state = 1
reg_width PointKind.binary = 0
reg_width PointKind.text = 0

abbrev pub bit_width : PointKind → ℕ
bit_width PointKind.binary = 1
bit_width PointKind.analog = 0
bit_width PointKind.multi_state = 0
bit_width PointKind.text = 0

abbrev pub joined : ModbusMap → ModbusMap → ModbusMap
joined m n = record { regs = m.regs ++ n.regs; bits = m.bits ++ n.bits }

pub joined_assoc : (l m n : ModbusMap) → joined (joined l m) n ≡ joined l (joined m n)
joined_assoc l m n = rw (append_assoc l.regs m.regs n.regs, append_assoc l.bits m.bits n.bits) refl

joined_empty : (m : ModbusMap) → joined m (record { regs = []; bits = [] }) ≡ m
joined_empty m = rw (append-nil m.regs, append-nil m.bits) refl

module _ {F32 : Type 0} where
  abbrev pub point_registers : List (SimulatedPoint F32) → ℕ
  point_registers [] = 0
  point_registers (p ∷ ps) = reg_width p.kind + point_registers ps

  abbrev pub device_registers : List (SimulatedDevice F32) → ℕ
  device_registers [] = 0
  device_registers (d ∷ ds) = point_registers d.points + device_registers ds

  abbrev pub point_bits : List (SimulatedPoint F32) → ℕ
  point_bits [] = 0
  point_bits (p ∷ ps) = bit_width p.kind + point_bits ps

  abbrev pub device_bits : List (SimulatedDevice F32) → ℕ
  device_bits [] = 0
  device_bits (d ∷ ds) = point_bits d.points + device_bits ds

  abbrev pub regs_of : SimulatedDevice F32 → SimulatedPoint F32 → PointKind → List RegCell
  regs_of d p PointKind.analog =
      reg_cell d p RegEncoding.f32_high ∷ reg_cell d p RegEncoding.f32_low ∷ []
  regs_of d p PointKind.multi_state = reg_cell d p RegEncoding.u16 ∷ []
  regs_of d p PointKind.binary = []
  regs_of d p PointKind.text = []

  abbrev pub bits_of : SimulatedDevice F32 → SimulatedPoint F32 → PointKind → List BitCell
  bits_of d p PointKind.binary = bit_cell d p ∷ []
  bits_of d p PointKind.analog = []
  bits_of d p PointKind.multi_state = []
  bits_of d p PointKind.text = []

  abbrev pub point_image : SimulatedDevice F32 → List (SimulatedPoint F32) → ModbusMap
  point_image d [] = record { regs = []; bits = [] }
  point_image d (p ∷ ps) =
      let rest = point_image d ps in
      record { regs = regs_of d p p.kind ++ rest.regs; bits = bits_of d p p.kind ++ rest.bits }

  abbrev pub device_image : List (SimulatedDevice F32) → ModbusMap
  device_image [] = record { regs = []; bits = [] }
  device_image (d ∷ ds) = joined (point_image d d.points) (device_image ds)

  push_point-joined :
      (d : SimulatedDevice F32) (p : SimulatedPoint F32) (k : PointKind) (m : ModbusMap)
      → push_point d p k m ≡ joined m (record { regs = regs_of d p k; bits = bits_of d p k })
  push_point-joined d p PointKind.analog m = rw (append-nil m.bits, append_assoc m.regs) refl
  push_point-joined d p PointKind.multi_state m = rw (append-nil m.bits) refl
  push_point-joined d p PointKind.binary m = rw (append-nil m.regs) refl
  push_point-joined d p PointKind.text m = rw (append-nil m.bits, append-nil m.regs) refl

  push_points-joined :
      (d : SimulatedDevice F32) (ps : List (SimulatedPoint F32)) (m : ModbusMap)
      → push_points d ps m ≡ joined m (point_image d ps)
  unfolding push_points
  push_points-joined d [] m = sym (joined_empty m)
  push_points-joined d (p ∷ ps) m =
      push_points-joined d ps (push_point d p p.kind m)
      ∙ ap (λ n. joined n (point_image d ps)) (push_point-joined d p p.kind m)
      ∙ joined_assoc m (record { regs = regs_of d p p.kind; bits = bits_of d p p.kind })
          (point_image d ps)

  push_devices-joined :
      (ds : List (SimulatedDevice F32)) (m : ModbusMap)
      → push_devices ds m ≡ joined m (device_image ds)
  unfolding push_devices
  push_devices-joined [] m = sym (joined_empty m)
  push_devices-joined (d ∷ ds) m =
      push_devices-joined ds (push_points d d.points m)
      ∙ ap (λ n. joined n (device_image ds)) (push_points-joined d d.points m)
      ∙ joined_assoc m (point_image d d.points) (device_image ds)

  pub build-joined : (ds : List (SimulatedDevice F32)) → build_modbus_map ds ≡ device_image ds
  unfolding build_modbus_map
  build-joined ds = push_devices-joined ds (record { regs = []; bits = [] })

  pub regs-point_image :
      (d : SimulatedDevice F32) (ps : List (SimulatedPoint F32))
      → length (point_image d ps).regs ≡ point_registers ps
  regs-point_image d [] = refl
  regs-point_image d (p ∷ ps) =
      length-append (regs_of d p p.kind) (point_image d ps).regs
      ∙ omega (arith, regs-point_image d ps, width p.kind)
    where
      width : (k : PointKind) → length (regs_of d p k) ≡ reg_width k
      width PointKind.analog = refl
      width PointKind.multi_state = refl
      width PointKind.binary = refl
      width PointKind.text = refl

  pub regs-device_image :
      (ds : List (SimulatedDevice F32)) → length (device_image ds).regs ≡ device_registers ds
  regs-device_image [] = refl
  regs-device_image (d ∷ ds) =
      length-append (point_image d d.points).regs (device_image ds).regs
      ∙ omega (arith, regs-point_image d d.points, regs-device_image ds)

  pub bits-point_image :
      (d : SimulatedDevice F32) (ps : List (SimulatedPoint F32))
      → length (point_image d ps).bits ≡ point_bits ps
  bits-point_image d [] = refl
  bits-point_image d (p ∷ ps) =
      length-append (bits_of d p p.kind) (point_image d ps).bits
      ∙ omega (arith, bits-point_image d ps, width p.kind)
    where
      width : (k : PointKind) → length (bits_of d p k) ≡ bit_width k
      width PointKind.analog = refl
      width PointKind.multi_state = refl
      width PointKind.binary = refl
      width PointKind.text = refl

  pub bits-device_image :
      (ds : List (SimulatedDevice F32)) → length (device_image ds).bits ≡ device_bits ds
  bits-device_image [] = refl
  bits-device_image (d ∷ ds) =
      length-append (point_image d d.points).bits (device_image ds).bits
      ∙ omega (arith, bits-point_image d d.points, bits-device_image ds)

  pub point_image-append :
      (d : SimulatedDevice F32) (ps qs : List (SimulatedPoint F32))
      → point_image d (ps ++ qs) ≡ joined (point_image d ps) (point_image d qs)
  point_image-append d [] qs = refl
  point_image-append d (p ∷ ps) qs =
      let own : ModbusMap = record { regs = regs_of d p p.kind; bits = bits_of d p p.kind } in
      ap (joined own) (point_image-append d ps qs)
      ∙ sym (joined_assoc own (point_image d ps) (point_image d qs))

  pub device_image-append :
      (ds es : List (SimulatedDevice F32))
      → device_image (ds ++ es) ≡ joined (device_image ds) (device_image es)
  device_image-append [] es = refl
  device_image-append (d ∷ ds) es =
      ap (joined (point_image d d.points)) (device_image-append ds es)
      ∙ sym (joined_assoc (point_image d d.points) (device_image ds) (device_image es))
