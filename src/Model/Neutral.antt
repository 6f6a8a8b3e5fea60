-- ===== src/Model/Neutral.antt =====
-- crates/proto-api/src/lib.rs: the neutral kinds and values of points, and `base_key`.
use netix_protocol_core.Prelude.{
  ℕ, suc, Bool, true, false, not, ◌&&◌, [], ◌∷◌, Option, none, some, ◌==◌, all, length,
  if◌then◌else◌,
}
use netix_protocol_core.Prelude.Int.{ℤ, pos, negsuc}
use netix_protocol_core.Text.{Text, lit}
use netix_protocol_core.Text.Numbers.{decimal, is_digit}
use netix_protocol_core.Model.{Float}
use netix_protocol_core.Model.Floats.{Floats}

pub data PointKind : Type 0 where
  analog binary multi_state text : PointKind

pub data PointValue : Type 0 where
  float : Float → PointValue
  bool : Bool → PointValue
  uint : ℕ → PointValue
  int : ℤ → PointValue
  text : Text → PointValue

abbrev show_bool : Bool → Text
show_bool true = lit "true"
show_bool false = lit "false"

abbrev show_int : ℤ → Text
show_int (pos n) = decimal n
show_int (negsuc n) = b'-' ∷ decimal (suc n)

abbrev int_is_zero : ℤ → Bool
int_is_zero (pos n) = n == 0
int_is_zero (negsuc n) = false

-- `PointValue::display`
unfoldable pub display : PointValue → Text
display (PointValue.float v) = v.fixed
display (PointValue.bool v) = show_bool v
display (PointValue.uint v) = decimal v
display (PointValue.int v) = show_int v
display (PointValue.text v) = v

module _ {F32 : Type 0} (fp : Floats F32) where
  -- `PointValue::as_f64`
  unfoldable pub as_f64 : PointValue → Option Float
  as_f64 (PointValue.float v) = some v
  as_f64 (PointValue.uint v) = some (fp.nat64 v)
  as_f64 (PointValue.int v) = some (fp.int64 v)
  as_f64 (PointValue.bool v) = some (if v then fp.nat64 1 else fp.nat64 0)
  as_f64 (PointValue.text v) = none

  -- `PointValue::as_bool`
  unfoldable pub as_bool : PointValue → Option Bool
  as_bool (PointValue.bool v) = some v
  as_bool (PointValue.uint v) = some (not (v == 0))
  as_bool (PointValue.int v) = some (not (int_is_zero v))
  as_bool (PointValue.float v) = some (not (fp.is_zero v))
  as_bool (PointValue.text v) = none

-- The texts before and after the last `-`, if there is one (`rfind`).
unfoldable pub rsplit_dash : Text → Option (Text × Text)
rsplit_dash [] = none
rsplit_dash (c ∷ s) = elim (rsplit_dash s) [
  | some (before, after) ↦ some (c ∷ before, after)
  | none ↦ if c == b'-' then some ([], s) else none
]

-- A text of digits has as many bytes as characters.
abbrev strips : Text → Bool
strips suffix = length suffix == 3 && all is_digit suffix

abbrev key_of : Text → Option (Text × Text) → Text
key_of name none = name
key_of name (some (before, suffix)) = if strips suffix then before else name

unfoldable pub base_key : Text → Text
unfolding rsplit_dash is_digit
base_key name = key_of name (rsplit_dash name)
