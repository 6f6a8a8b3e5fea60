-- ===== src/Text/Digits.antt =====
-- The decimal text of a number is read back as the number (`to_string` and `parse`).
use netix_protocol_core.Prelude.{
  ℕ, zero, suc, ◌+◌, ◌-◌, ◌*◌, ◌/◌, ◌%◌, ◌<◌, ◌≤◌, ◌≡◌, refl, ap, ◌∙◌, inl, inr, true, false, not,
  ◌&&◌, [], ◌∷◌, any, some, is_empty, ◌==◌, leb, ltb, arith, Bool-cases,
}
use netix_protocol_core.Text.{Text}
use netix_protocol_core.Text.Numbers.{
  decimal, digits_onto, is_digit, read_digits, read_unsigned, parse_unsigned,
}

read_digit :
    (limit acc d : ℕ) (rest : Text)
    → d < 10
    → acc * 10 + d ≤ limit
    → read_digits limit acc ((d + b'0') ∷ rest) ≡ read_digits limit (acc * 10 + d) rest
unfolding read_digits is_digit
read_digit limit acc d rest h l =
    let digit : (leb b'0' (d + b'0') && leb (d + b'0') b'9') ≡ true = ground arith in
    let value : d + b'0' - b'0' ≡ d = omega arith in
    let fits : leb (acc * 10 + d) limit ≡ true = ground (arith, l) in rw (digit, value, fits) refl

-- The digits of a number are read back.
read_digits-onto :
    (limit f n : ℕ) (rest : Text)
    → n < f
    → n ≤ limit
    → read_digits limit 0 (digits_onto f n rest) ≡ read_digits limit n rest
unfolding digits_onto
read_digits-onto limit zero n rest h l = absurd (omega arith)
read_digits-onto limit (suc f) n rest h l = elim (Bool-cases (ltb n 10)) [
  | inl small ↦
      let below : n < 10 = ground (arith, small) in
      let whole : 0 * 10 + n ≡ n = omega arith in
      rw (small)
        (read_digit limit 0 n rest below (omega arith) ∙ ap (λ m. read_digits limit m rest) whole)
  | inr large ↦
      let above : 10 ≤ n = ground (arith, large) in
      let whole : n / 10 * 10 + n % 10 ≡ n = omega arith in
      rw (large) (
        read_digits-onto limit f (n / 10) ((n % 10 + b'0') ∷ rest) (omega arith) (omega arith)
        ∙ read_digit limit (n / 10) (n % 10) rest (omega arith) (omega arith)
        ∙ ap (λ m. read_digits limit m rest) whole)
]

abbrev pub IsDigits : Text → Type 0
IsDigits s = any (λ c. not (is_digit c)) s ≡ false

digits_onto-IsDigits :
    (f n : ℕ) (rest : Text)
    → n < f
    → IsDigits rest
    → IsDigits (digits_onto f n rest) × (is_empty (digits_onto f n rest) ≡ false)
unfolding digits_onto is_digit
digits_onto-IsDigits zero n rest l h = absurd (omega arith)
digits_onto-IsDigits (suc f) n rest l h = elim (Bool-cases (ltb n 10)) [
  | inl small ↦ rw (small) (ground (arith, small), refl)
  | inr large ↦
      let above : 10 ≤ n = ground (arith, large) in
      rw (large)
        (digits_onto-IsDigits f (n / 10) ((n % 10 + b'0') ∷ rest) (omega arith) (ground arith))
]

parse_of_digits :
    (limit : ℕ) (s : Text)
    → IsDigits s
    → is_empty s ≡ false
    → parse_unsigned limit s ≡ read_digits limit 0 s
unfolding parse_unsigned read_unsigned is_digit
parse_of_digits limit [] h e = cc
parse_of_digits limit (c ∷ s) h e =
    let other : (c == b'+') ≡ false = ground (arith, h) in rw (other) refl

pub decimal-IsDigits : (n : ℕ) → IsDigits (decimal n) × (is_empty (decimal n) ≡ false)
unfolding decimal
decimal-IsDigits n = digits_onto-IsDigits (suc n) n [] (omega arith) refl

pub parse-decimal : (limit n : ℕ) → n ≤ limit → parse_unsigned limit (decimal n) ≡ some n
parse-decimal limit n h =
    let (all, some_left) = decimal-IsDigits n in
    parse_of_digits limit (decimal n) all some_left
    ∙ unfold decimal in
      read_digits-onto limit (suc n) n [] (omega arith) h ∙ unfold read_digits in refl
