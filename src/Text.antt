-- ===== src/Text.antt =====
-- The operations of Rust's `str` and `char` that the crates call, over lists of code points.
pub mod Trimming
pub mod Splitting
pub mod Numbers
pub mod Digits
use netix_protocol_core.Prelude.{
  ℕ, Bool, true, false, ◌&&◌, ◌||◌, not, List, [], ◌∷◌, ◌++◌, ◌==◌, leb, is_empty, any,
  if◌then◌else◌,
}
use Prim.Native.Char.{code}
use Prim.Native.String.{String}

abbrev pub Text : Type 0
Text = List ℕ

-- A literal.
abbrev pub lit : String → Text
lit String.[] = []
lit (String.◌∷◌ c s) = code c ∷ lit s

-- `char::is_whitespace`: the Unicode property `White_Space`
unfoldable pub is_whitespace : ℕ → Bool
is_whitespace c =
    leb 9 c && leb c 13
    || (c == 32
        || (c == 0x85
            || (c == 0xa0
                || (c == 0x1680
                    || (leb 0x2000 c && leb c 0x200a
                        || (c == 0x2028
                            || (c == 0x2029 || (c == 0x202f || (c == 0x205f || c == 0x3000)))))))))

-- `char::is_control`: the general category `Cc`
unfoldable pub is_control : ℕ → Bool
is_control c = leb c 31 || leb 127 c && leb c 159

-- `trim_start_matches(p)`
unfoldable pub trim_start_matches : (ℕ → Bool) → Text → Text
trim_start_matches p [] = []
trim_start_matches p (c ∷ s) = let rest = trim_start_matches p s in if p c then rest else c ∷ s

-- `trim_end_matches(p)`
unfoldable pub trim_end_matches : (ℕ → Bool) → Text → Text
trim_end_matches p [] = []
trim_end_matches p (c ∷ s) =
    let rest = trim_end_matches p s in if p c && is_empty rest then [] else c ∷ rest

-- `trim_matches(p)`
unfoldable pub trim_matches : (ℕ → Bool) → Text → Text
unfolding trim_start_matches trim_end_matches
trim_matches p s = trim_end_matches p (trim_start_matches p s)

-- `trim()` and `trim_end()`
unfoldable pub trim : Text → Text
unfolding trim_matches is_whitespace
trim s = trim_matches is_whitespace s

unfoldable pub trim_end : Text → Text
unfolding trim_end_matches is_whitespace
trim_end s = trim_end_matches is_whitespace s

unfoldable pub is_blank : Text → Bool
unfolding trim
is_blank s = is_empty (trim s)

-- `contains(c)`
abbrev pub has : ℕ → Text → Bool
has c s = any (λ x. x == c) s

abbrev push_front : ℕ → List Text → List Text
push_front c [] = (c ∷ []) ∷ []
push_front c (s ∷ ss) = (c ∷ s) ∷ ss

-- `split(c)`: always at least one piece
unfoldable pub split : ℕ → Text → List Text
split d [] = [] ∷ []
split d (c ∷ s) = let rest = split d s in if c == d then [] ∷ rest else push_front c rest

-- `join(sep)`
unfoldable pub join : Text → List Text → Text
join sep [] = []
join sep (s ∷ ss) = elim ss [ [] ↦ s | _ ∷ _ ↦ s ++ (sep ++ join sep ss) ]
