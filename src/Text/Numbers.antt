-- ===== src/Text/Numbers.antt =====
-- Decimal text: `to_string` and `{}` of an unsigned integer, and `parse::<u32>()`, `parse::<u64>()`.
use netix_protocol_core.Prelude.{
  ℕ, zero, suc, ◌+◌, ◌-◌, ◌*◌, ◌/◌, ◌%◌, Bool, ◌&&◌, [], ◌∷◌, Option, none, some, leb, ltb, ◌==◌,
  is_empty, if◌then◌else◌,
}
use netix_protocol_core.Text.{Text}

-- The digits, the highest first. A number has fewer digits than `suc n`, so the fuel suffices.
unfoldable pub digits_onto : ℕ → ℕ → Text → Text
digits_onto zero n rest = rest
digits_onto (suc f) n rest =
    let more = digits_onto f (n / 10) ((n % 10 + b'0') ∷ rest) in
    if ltb n 10 then (n + b'0') ∷ rest else more

unfoldable pub decimal : ℕ → Text
unfolding digits_onto
decimal n = digits_onto (suc n) n []

unfoldable pub is_digit : ℕ → Bool
is_digit c = leb b'0' c && leb c b'9'

-- The digits are read from the left; past `limit`, or at another character, there is no number.
unfoldable pub read_digits : ℕ → ℕ → Text → Option ℕ
unfolding is_digit
read_digits limit acc [] = some acc
read_digits limit acc (c ∷ s) =
    let next = acc * 10 + (c - b'0') in
    let rest = read_digits limit next s in if is_digit c && leb next limit then rest else none

-- Without the leading `+` that Rust allows.
unfoldable pub read_unsigned : ℕ → Text → Option ℕ
unfolding read_digits
read_unsigned limit s = if is_empty s then none else read_digits limit 0 s

-- `s.parse()` into an unsigned type whose greatest value is `limit`
unfoldable pub parse_unsigned : ℕ → Text → Option ℕ
unfolding read_unsigned
parse_unsigned limit [] = none
parse_unsigned limit (c ∷ s) =
    if c == b'+' then read_unsigned limit s else read_unsigned limit (c ∷ s)

abbrev pub u16_max : ℕ
u16_max = 65_535

abbrev pub u32_max : ℕ
u32_max = 4_294_967_295

abbrev pub u64_max : ℕ
u64_max = 18_446_744_073_709_551_615
