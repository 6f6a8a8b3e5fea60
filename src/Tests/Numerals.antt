-- ===== src/Tests/Numerals.antt =====
-- Natural numbers in place of floats, for the examples: a number that meets what the models take of
-- floats, with operations that can be evaluated.
use netix_protocol_core.Prelude.{
  ◌≤◌, ℕ, ◌+◌, ◌-◌, ◌*◌, ◌%◌, true, Option, none, some, ltb, leb, min, max, ◌==◌, unwrap_or, ◌++◌,
  arith,
}
use netix_protocol_core.Prelude.Int.{ℤ, pos, negsuc}
use netix_protocol_core.Text.{lit}
use netix_protocol_core.Text.Numbers.{u16_max, decimal}
use netix_protocol_core.Model.{Float}
use netix_protocol_core.Model.Floats.{Floats, Ordered}

abbrev float : ℕ → Float
float n = record {
  json = some (record { as_u64 = some n; display = decimal n });
  fixed = decimal n ++ lit ".000";
}

abbrev of_json : Option ℕ → ℕ
of_json n = unwrap_or n 0

abbrev number : Float → ℕ
number v = elim v.json [ none ↦ 0 | some n ↦ of_json n.as_u64 ]

abbrev magnitude : ℤ → ℕ
magnitude (pos n) = n
magnitude (negsuc n) = 0

pub min_le : (n : ℕ) → min n u16_max ≤ u16_max
min_le n = ground arith

abbrev pub numerals : Floats ℕ
numerals = record {
  literal32 = λ s. 0;
  add32 = λ a b. a + b;
  sub32 = λ a b. a - b;
  mul32 = λ a b. a * b;
  neg32 = λ a. 0;
  lt32 = ltb;
  le32 = leb;
  max32 = max;
  nat32 = λ n. n;
  is_finite32 = λ n. true;
  to_bits = λ n. n % 4_294_967_296;
  from_bits = λ n. n;
  widen = float;
  narrow = number;
  nat64 = float;
  int64 = λ i. float (magnitude i);
  from_bits64 = float;
  parse64 = λ s. none;
  tau = float 6;
  add64 = λ a b. float (number a + number b);
  mul64 = λ a b. float (number a * number b);
  div64 = λ a b. a;
  rem64 = λ a b. a;
  max64 = λ a b. float (max (number a) (number b));
  sin64 = λ a. float 0;
  is_zero = λ v. number v == 0;
  to_u16 = λ v. min (number v) u16_max;
  to_bits_lt = λ v. omega arith;
  to_u16_le = λ v. min_le (number v);
}

pub numerals-Ordered : Ordered numerals
numerals-Ordered = record {
  lt_irrefl = λ a b h. (ground (arith, h), ground (arith, h));
  le_not_lt = λ a b h. ground (arith, h);
}
