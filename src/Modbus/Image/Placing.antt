-- ===== src/Modbus/Image/Placing.antt =====
-- Where the points of crates/proto-modbus/src/sim/map.rs stand in the image.
use netix_protocol_core.Prelude.{
  ℕ, ◌+◌, ◌≡◌, refl, sym, ap, ◌∙◌, Bool, true, false, List, [], ◌∷◌, ◌++◌, map, Option, none, some,
  length, length-append, take, drop, leb, arith, if◌then◌else◌, unwrap_or,
}
use netix_protocol_core.Model.Floats.{Floats}
use netix_protocol_core.Model.Neutral.{PointKind, PointValue}
use netix_protocol_core.Simulator.Points.{SimulatedPoint, SimulatedDevice, neutral_value}
use netix_protocol_core.Modbus.Image.{
  ModbusMap, build_modbus_map, num_registers, num_bits, f32_word, number_of, bool_of, rounded,
  cell_word, cell_bit, read_registers, read_bits,
}
use netix_protocol_core.Modbus.Image.Reading.{read_registers-slice, read_bits-slice}
use netix_protocol_core.Modbus.Image.Assembly.{
  reg_width, bit_width, point_registers, device_registers, point_bits, device_bits, regs_of,
  bits_of, point_image, joined, joined_assoc, device_image, build-joined, regs-point_image,
  regs-device_image, bits-point_image, bits-device_image, point_image-append, device_image-append,
}

-- The part of a list behind one part and before another.
take-drop :
    {A : Type 0} (before mid after : List A) (n : ℕ)
    → n ≡ length mid
    → take n (drop (length before) (before ++ (mid ++ after))) ≡ mid
take-drop [] [] after n h = rw (h) refl
take-drop [] (x ∷ mid) after n h =
    rw (h) (ap (λ l. x ∷ l) (take-drop [] mid after (length mid) refl))
take-drop (x ∷ before) mid after n h = take-drop before mid after n h

module _ {F32 : Type 0} where
  -- The image of a point between what stands before and after it.
  image-split :
      (before after : List (SimulatedDevice F32)) (d : SimulatedDevice F32)
      (ps qs : List (SimulatedPoint F32)) (p : SimulatedPoint F32)
      → d.points ≡ ps ++ p ∷ qs
      → (pre post : ModbusMap) × (build_modbus_map (before ++ d ∷ after)
          ≡ joined pre
              (joined (record { regs = regs_of d p p.kind; bits = bits_of d p p.kind }) post))
        × (length pre.regs ≡ device_registers before + point_registers ps)
        × (length pre.bits ≡ device_bits before + point_bits ps)
  image-split before after d ps qs p at =
      let own : ModbusMap = record { regs = regs_of d p p.kind; bits = bits_of d p p.kind } in
      let first = device_image before in
      let second = point_image d ps in
      let third = point_image d qs in
      let last = device_image after in
      let whole : point_image d d.points ≡ joined second (joined own third) =
        ap (point_image d) at ∙ point_image-append d ps (p ∷ qs) in
      (
        joined first second,
        joined third last,
        build-joined (before ++ d ∷ after)
            ∙ device_image-append before (d ∷ after)
            ∙ ap (λ m. joined first (joined m last)) whole
            ∙ ap (joined first) (
                joined_assoc second (joined own third) last
                ∙ ap (joined second) (joined_assoc own third last))
            ∙ sym (joined_assoc first second (joined own (joined third last))),
        length-append first.regs second.regs
            ∙ omega (arith, regs-device_image before, regs-point_image d ps),
        length-append first.bits second.bits
            ∙ omega (arith, bits-device_image before, bits-point_image d ps),
      )

-- The numbers of registers and bits of the image are those of its points: two registers for an analog
-- point, one for a multi-state and one bit for a binary one.
num_registers-build :
    {F32 : Type 0} (ds : List (SimulatedDevice F32))
    → (num_registers (build_modbus_map ds) ≡ device_registers ds)
      × (num_bits (build_modbus_map ds) ≡ device_bits ds)
unfolding num_registers num_bits
num_registers-build ds = (
  ap (λ m. length m.regs) (build-joined ds) ∙ regs-device_image ds,
  ap (λ m. length m.bits) (build-joined ds) ∙ bits-device_image ds,
)

slice_in_range :
    {A B : Type 0} (f : A → B) (pre mid post all : List A) (at n : ℕ)
    → all ≡ pre ++ (mid ++ post)
    → length pre ≡ at
    → length mid ≡ n
    → (if leb (at + n) (length all) then some (map f (take n (drop at all))) else none)
      ≡ some (map f mid)
slice_in_range f pre mid post all at n e a b =
    let fits : leb (at + n) (length all) ≡ true =
      rw (e, length-append, length-append) (ground (arith, a, b)) in
    rw (fits, e, ← a, take-drop pre mid post n (sym b)) refl

module _ {F32 : Type 0} (fp : Floats F32) where
  -- The words and bits that a value shows in the image, by the kind of its point.
  abbrev pub shown_words : PointKind → Option PointValue → List ℕ
  shown_words PointKind.analog v = f32_word fp v true ∷ f32_word fp v false ∷ []
  shown_words PointKind.multi_state v = rounded fp (number_of fp v) ∷ []
  shown_words PointKind.binary v = []
  shown_words PointKind.text v = []

  abbrev pub shown_bits : PointKind → Option PointValue → List Bool
  shown_bits PointKind.binary v = unwrap_or (bool_of fp v) false ∷ []
  shown_bits PointKind.analog v = []
  shown_bits PointKind.multi_state v = []
  shown_bits PointKind.text v = []

  module _ (sim : List (SimulatedDevice F32)) (d : SimulatedDevice F32)
      (p : SimulatedPoint F32) where
    abbrev pub current : Option PointValue
    current = neutral_value fp sim d.device_id p.object_type p.instance_number

    words_shown :
        (k : PointKind)
        → (map (cell_word fp sim) (regs_of d p k) ≡ shown_words k current)
          × (length (regs_of d p k) ≡ reg_width k)
    unfolding cell_word
    words_shown PointKind.analog = (refl, refl)
    words_shown PointKind.multi_state = (refl, refl)
    words_shown PointKind.binary = (refl, refl)
    words_shown PointKind.text = (refl, refl)

    bits_shown :
        (k : PointKind)
        → (map (cell_bit fp sim) (bits_of d p k) ≡ shown_bits k current)
          × (length (bits_of d p k) ≡ bit_width k)
    unfolding cell_bit
    bits_shown PointKind.analog = (refl, refl)
    bits_shown PointKind.multi_state = (refl, refl)
    bits_shown PointKind.binary = (refl, refl)
    bits_shown PointKind.text = (refl, refl)

-- A point is read at the address that the points before it leave: a read of as many registers or bits
-- as a point of its kind takes there gives the encoding of its current value, whatever the simulation
-- holds when it is read, and no index is out of range.
pub read-build :
    {F32 : Type 0} (fp : Floats F32) (sim before after : List (SimulatedDevice F32))
    (d : SimulatedDevice F32) (ps qs : List (SimulatedPoint F32)) (p : SimulatedPoint F32)
    → d.points ≡ ps ++ p ∷ qs
    → let m = build_modbus_map (before ++ d ∷ after) in
      (read_registers fp sim m (device_registers before + point_registers ps) (reg_width p.kind)
        ≡ some (some (shown_words fp p.kind (current fp sim d p))))
      × (read_bits fp sim m (device_bits before + point_bits ps) (bit_width p.kind)
          ≡ some (some (shown_bits fp p.kind (current fp sim d p))))
read-build fp sim before after d ps qs p at =
    let (pre, post, e, regs, bits) = image-split before after d ps qs p at in
    let (words, width) = words_shown fp sim d p p.kind in
    let (shown, size) = bits_shown fp sim d p p.kind in
    let m = build_modbus_map (before ++ d ∷ after) in
    (
      read_registers-slice fp sim m (device_registers before + point_registers ps)
            (reg_width p.kind)
          ∙ ap some (
              slice_in_range (cell_word fp sim) pre.regs (regs_of d p p.kind) post.regs m.regs _ _
                (ap (λ n. n.regs) e) regs width
              ∙ ap some words),
      read_bits-slice fp sim m (device_bits before + point_bits ps) (bit_width p.kind)
          ∙ ap some (
              slice_in_range (cell_bit fp sim) pre.bits (bits_of d p p.kind) post.bits m.bits _ _
                (ap (λ n. n.bits) e) bits size
              ∙ ap some shown),
    )
