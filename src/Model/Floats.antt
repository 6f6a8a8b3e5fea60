-- ===== src/Model/Floats.antt =====
-- The floating-point operations of Rust that the crates call, as an interface. An `f64` is the `Float`
-- of the data model, `F32` the type of an `f32`.
use netix_protocol_core.Prelude.{ℕ, ◌<◌, ◌≤◌, ◌≡◌, Bool, true, false, Option}
use netix_protocol_core.Prelude.Int.{ℤ}
use netix_protocol_core.Text.{Text}
use netix_protocol_core.Text.Numbers.{u16_max}
use netix_protocol_core.Model.{Float}

pub record Floats (F32 : Type 0) : Type 0 where
  -- A decimal literal, `+`, `-`, `*`, unary `-`, `<`, `<=`, `max`, `as f32` of an unsigned number, and
  -- `is_finite`.
  pub literal32 : Text → F32
  pub add32 : F32 → F32 → F32
  pub sub32 : F32 → F32 → F32
  pub mul32 : F32 → F32 → F32
  pub neg32 : F32 → F32
  pub lt32 : F32 → F32 → Bool
  pub le32 : F32 → F32 → Bool
  pub max32 : F32 → F32 → F32
  pub nat32 : ℕ → F32
  pub is_finite32 : F32 → Bool
  -- `to_bits`, `f32::from_bits`, `as f64` and `as f32`.
  pub to_bits : F32 → ℕ
  pub from_bits : ℕ → F32
  pub widen : F32 → Float
  pub narrow : Float → F32
  -- `as f64` of an unsigned and of a signed number, `f64::from_bits`, and `parse::<f64>()`.
  pub nat64 : ℕ → Float
  pub int64 : ℤ → Float
  pub from_bits64 : ℕ → Float
  pub parse64 : Text → Option Float
  pub tau : Float
  pub add64 : Float → Float → Float
  pub mul64 : Float → Float → Float
  pub div64 : Float → Float → Float
  pub rem64 : Float → Float → Float
  pub max64 : Float → Float → Float
  pub sin64 : Float → Float
  -- `v == 0.0`, and `v.round().clamp(0.0, u16::MAX as f64) as u16`
  pub is_zero : Float → Bool
  pub to_u16 : Float → ℕ
  pub to_bits_lt : (v : F32) → to_bits v < 4_294_967_296
  pub to_u16_le : (v : Float) → to_u16 v ≤ u16_max

-- Documented facts on the order of the two bounds of a `clamp`: a bound is not below itself, and the
-- upper one is not below the lower one.
pub record Ordered {F32 : Type 0} (fp : Floats F32) : Type 0 where
  pub lt_irrefl : (a b : F32) → fp.le32 a b ≡ true → (fp.lt32 a a ≡ false) × (fp.lt32 b b ≡ false)
  pub le_not_lt : (a b : F32) → fp.le32 a b ≡ true → fp.lt32 b a ≡ false
