-- ===== src/Bacnet/Value/Numbers.antt =====
-- The numbers that crates/proto-bacnet/src/republish/value.rs decodes.
use netix_protocol_core.Prelude.{
  ℕ, suc, ◌+◌, ◌-◌, ◌*◌, ◌%◌, ◌^◌, ◌≤◌, ◌<◌, ◌≡◌, refl, ap, ◌∙◌, true, false, List, [], ◌∷◌, All,
  length, ltb, leb, arith, Bool-cases, inl, inr, if◌then◌else◌,
}
use netix_protocol_core.Prelude.Int.{ℤ, pos, negsuc}
use native.Mathlib.Nat.{pow-suc, mul_assoc, mul_comm, add-mul, mul-le-mul_right, pow-le-pow_right}
use netix_protocol_core.Bacnet.Value.{u64, shift_in, big_endian, signed64, sign_extended}

first_byte : (b : ℕ) (bs : List ℕ) → big_endian 0 (b ∷ bs) ≡ big_endian b bs
first_byte b bs = let alone : 0 * 256 + b ≡ b = omega arith in ap (λ v. big_endian v bs) alone

-- A number in front of bytes counts as often as the bytes have values.
big_endian-add :
    (value : ℕ) (bytes : List ℕ)
    → big_endian value bytes ≡ value * 256 ^ length bytes + big_endian 0 bytes
big_endian-add value [] = omega arith
big_endian-add value (b ∷ bs) =
    let size = 256 ^ length bs in
    let front : (value * 256 + b) * size ≡ value * (size * 256) + b * size =
      add-mul (value * 256) b size
      ∙ ap (λ m. m + b * size)
          (mul_assoc value 256 size ∙ ap (λ m. value * m) (mul_comm 256 size)) in
    let grow : 256 ^ suc (length bs) ≡ size * 256 = pow-suc 256 (length bs) in
    big_endian-add (value * 256 + b) bs
    ∙ ap (λ m. m + big_endian 0 bs) front
    ∙ rw (grow) (omega (arith, big_endian-add b bs, first_byte b bs))

big_endian-cons :
    (b : ℕ) (bs : List ℕ) → big_endian 0 (b ∷ bs) ≡ b * 256 ^ length bs + big_endian 0 bs
big_endian-cons b bs = first_byte b bs ∙ big_endian-add b bs

big_endian-lt :
    (bytes : List ℕ) → All (λ b. b < 256) bytes → big_endian 0 bytes < 256 ^ length bytes
big_endian-lt [] h = omega arith
big_endian-lt (b ∷ bs) h =
    let size = 256 ^ length bs in
    let grow : 256 ^ suc (length bs) ≡ size * 256 = pow-suc 256 (length bs) in
    let rest = big_endian-lt bs h.1 in
    let part : b * size ≤ 255 * size = mul-le-mul_right size (omega (arith, h.0)) in
    omega (arith, grow, rest, part, big_endian-cons b bs)

-- Shifting bytes in wraps around at 64 bits.
big_endian-mod :
    (v w : ℕ) (bytes : List ℕ)
    → v % u64 ≡ w % u64
    → big_endian v bytes % u64 ≡ big_endian w bytes % u64
big_endian-mod v w [] h = h
big_endian-mod v w (b ∷ bs) h = big_endian-mod (v * 256 + b) (w * 256 + b) bs (omega (arith, h))

shift_in-mod :
    (v : ℕ) (bytes : List ℕ)
    → v < u64
    → All (λ b. b < 256) bytes
    → shift_in v bytes ≡ big_endian v bytes % u64
shift_in-mod v [] h all = omega (arith, h)
shift_in-mod v (b ∷ bs) h all =
    shift_in-mod (v * 256 % u64 + b) bs (omega (arith, all.0)) all.1
    ∙ big_endian-mod (v * 256 % u64 + b) (v * 256 + b) bs (omega arith)

size-le : (bytes : List ℕ) → length bytes ≤ 8 → 256 ^ length bytes ≤ u64
size-le bytes h = pow-le-pow_right {n = 256} (omega arith) {i = length bytes} {j = 8} h

-- At most eight bytes fit into 64 bits: they decode to the number they write, the highest byte first.
pub shift_in-big_endian :
    (bytes : List ℕ)
    → All (λ b. b < 256) bytes
    → length bytes ≤ 8
    → shift_in 0 bytes ≡ big_endian 0 bytes
shift_in-big_endian bytes all h =
    shift_in-mod 0 bytes (omega arith) all ∙ omega (arith, big_endian-lt bytes all, size-le bytes h)

-- The number that bytes write in two's complement of their length.
abbrev pub twos_complement : List ℕ → ℤ
twos_complement [] = pos 0
twos_complement (b ∷ bs) =
    let n = big_endian 0 (b ∷ bs) in
    if leb 128 b then negsuc (256 ^ length (b ∷ bs) - n - 1) else pos n

signed64-negative :
    (w n : ℕ) → w + n ≡ u64 → 1 ≤ n → n ≤ 9_223_372_036_854_775_808 → signed64 w ≡ negsuc (n - 1)
signed64-negative w n h lo hi =
    let high : ltb w 9_223_372_036_854_775_808 ≡ false = ground (arith, h, hi) in
    let same : u64 - w - 1 ≡ n - 1 = omega (arith, h) in rw (high, same) refl

below_half : (n : ℕ) → n < 9_223_372_036_854_775_808 → ltb n 9_223_372_036_854_775_808 ≡ true
below_half n h = ground (arith, h)

pub sign_extended-twos_complement :
    (bytes : List ℕ)
    → All (λ b. b < 256) bytes
    → length bytes ≤ 8
    → sign_extended bytes ≡ twos_complement bytes
sign_extended-twos_complement [] all h = refl
sign_extended-twos_complement (b ∷ bs) all h =
    let size = 256 ^ length bs in
    let grow : 256 ^ suc (length bs) ≡ size * 256 = pow-suc 256 (length bs) in
    let n = big_endian 0 (b ∷ bs) in
    let split : n ≡ b * size + big_endian 0 bs = big_endian-cons b bs in
    let below : n < 256 ^ suc (length bs) = big_endian-lt (b ∷ bs) all in
    let rest = big_endian-lt bs all.1 in
    let whole : 256 ^ suc (length bs) ≤ u64 = size-le (b ∷ bs) h in
    elim (Bool-cases (leb 128 b)) [
      | inl high ↦
          let part : 128 * size ≤ b * size = mul-le-mul_right size (ground (arith, high)) in
          let value : shift_in (u64 - 1) (b ∷ bs) + (256 ^ suc (length bs) - n) ≡ u64 = omega (
            arith,
            shift_in-mod (u64 - 1) (b ∷ bs) (omega arith) all,
            big_endian-add (u64 - 1) (b ∷ bs),
            grow,
            below,
            whole,
          ) in
          rw (high) (
            signed64-negative (shift_in (u64 - 1) (b ∷ bs)) (256 ^ suc (length bs) - n) value
              (omega (arith, below)) (omega (arith, grow, part, split, whole)))
      | inr low ↦
          let part : b * size ≤ 127 * size = mul-le-mul_right size (ground (arith, low)) in
          let value : shift_in 0 (b ∷ bs) ≡ n = shift_in-big_endian (b ∷ bs) all h in
          let small : ltb n 9_223_372_036_854_775_808 ≡ true =
            below_half n (omega (arith, grow, part, split, whole, rest)) in
          rw (low, value, small) refl
    ]
