-- ===== src/Modbus/Image/Reading.antt =====
-- Reads of the image of crates/proto-modbus/src/sim/map.rs.
use netix_protocol_core.Prelude.{
  ℕ, zero, suc, ◌+◌, ◌-◌, ◌≤◌, ◌<◌, ◌≡◌, refl, List, [], ◌∷◌, map, Option, none, some, false, true,
  get_elem?, length, take, drop, ltb, leb, range, collect, arith, Bool-cases, inl, inr,
  if◌then◌else◌,
}
use netix_protocol_core.Model.Floats.{Floats}
use netix_protocol_core.Simulator.Points.{SimulatedDevice}
use netix_protocol_core.Modbus.Image.{
  RegCell, BitCell, ModbusMap, cell_word, cell_bit, word_at, bit_at, reg_word, read_registers,
  read_bits,
}

-- An element in range is the first of the rest of the list.
drop-cons :
    {A : Type 0} (xs : List A) (i : ℕ)
    → i < length xs
    → (x : A) × (get_elem? xs i ≡ some x) × (drop i xs ≡ x ∷ drop (suc i) xs)
drop-cons [] i h = ground (arith, h)
drop-cons (x ∷ xs) zero h = (x, refl, refl)
drop-cons (x ∷ xs) (suc i) h = drop-cons xs i (omega (arith, h))

module _ {A B : Type 0} (f : A → B) where
  abbrev mapped : Option A → Option B
  mapped none = none
  mapped (some a) = some (f a)

  -- The elements at a range of indices are a slice of the list.
  collect-range :
      (g : Option A → Option B) (xs : List A) (first n : ℕ)
      → ((o : Option A) → g o ≡ mapped o)
      → first + n ≤ length xs
      → collect (λ i. g (get_elem? xs i)) (range first n) ≡ some (map f (take n (drop first xs)))
  collect-range g xs first zero same h = refl
  collect-range g xs first (suc n) same h =
      let (x, at, rest) = drop-cons xs first (omega (arith, h)) in
      let more = collect-range g xs (suc first) n same (omega (arith, h)) in
      rw (at, same (some x), more, rest) refl

module _ {F32 : Type 0} (fp : Floats F32) (sim : List (SimulatedDevice F32)) (m : ModbusMap) where
  same_word : (o : Option RegCell) → word_at fp sim o ≡ mapped (cell_word fp sim) o
  same_word none = refl
  same_word (some c) = refl

  same_bit : (o : Option BitCell) → bit_at fp sim o ≡ mapped (cell_bit fp sim) o
  same_bit none = refl
  same_bit (some c) = refl

  -- A read of registers gives the words of the cells at the addresses read, in order, and a range that
  -- goes beyond the image is refused; no index is out of range.
  pub read_registers-slice :
      (addr qty : ℕ)
      → read_registers fp sim m addr qty
        ≡ some (
            if leb (addr + qty) (length m.regs)
            then some (map (cell_word fp sim) (take qty (drop addr m.regs)))
            else none)
  unfolding read_registers reg_word
  read_registers-slice addr qty = elim (Bool-cases (ltb (length m.regs) (addr + qty))) [
    | inl over ↦
        let past : leb (addr + qty) (length m.regs) ≡ false = ground (arith, over) in
        rw (over, past) refl
    | inr fits ↦
        let within : leb (addr + qty) (length m.regs) ≡ true = ground (arith, fits) in
        let n : addr + qty - addr ≡ qty = omega arith in
        rw
          (
            fits,
            within,
            n,
            collect-range (cell_word fp sim) (word_at fp sim) m.regs addr qty same_word
                (ground (arith, fits)),
          )
          refl
  ]

  pub read_bits-slice :
      (addr qty : ℕ)
      → read_bits fp sim m addr qty
        ≡ some (
            if leb (addr + qty) (length m.bits)
            then some (map (cell_bit fp sim) (take qty (drop addr m.bits)))
            else none)
  unfolding read_bits
  read_bits-slice addr qty = elim (Bool-cases (ltb (length m.bits) (addr + qty))) [
    | inl over ↦
        let past : leb (addr + qty) (length m.bits) ≡ false = ground (arith, over) in
        rw (over, past) refl
    | inr fits ↦
        let within : leb (addr + qty) (length m.bits) ≡ true = ground (arith, fits) in
        let n : addr + qty - addr ≡ qty = omega arith in
        rw
          (
            fits,
            within,
            n,
            collect-range (cell_bit fp sim) (bit_at fp sim) m.bits addr qty same_bit
                (ground (arith, fits)),
          )
          refl
  ]
