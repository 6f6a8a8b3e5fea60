-- ===== src/Bacnet/Value/Utf8.antt =====
-- `std::str::from_utf8`, which crates/proto-bacnet/src/republish/value.rs calls.
use netix_protocol_core.Prelude.{
  ℕ, ◌+◌, ◌-◌, ◌*◌, ◌<◌, ◌≡◌, refl, Bool, true, ◌&&◌, List, [], ◌∷◌, Option, none, some, All, leb,
  arith, if◌then◌else◌, ◌==◌,
}
use netix_protocol_core.Text.{Text}

abbrev in_range : ℕ → ℕ → ℕ → Bool
in_range lo hi b = leb lo b && leb b hi

abbrev push_char : ℕ → Option Text → Option Text
push_char c none = none
push_char c (some s) = some (c ∷ s)

-- The least and greatest second byte behind a first one of three or four.
abbrev second_low : ℕ → ℕ
second_low b = if b == 0xe0 then 0xa0 else if b == 0xf0 then 0x90 else 0x80

abbrev second_high : ℕ → ℕ
second_high b = if b == 0xed then 0x9f else if b == 0xf4 then 0x8f else 0xbf

abbrev tail_byte : ℕ → Bool
tail_byte b = in_range 0x80 0xbf b

-- The characters of well-formed bytes; `none` for others.
unfoldable pub from_utf8 : List ℕ → Option Text
from_utf8 [] = some []
from_utf8 (a ∷ []) = if leb a 0x7f then some (a ∷ []) else none
from_utf8 (a ∷ b ∷ []) =
    let one = push_char a (from_utf8 (b ∷ [])) in
    if leb a 0x7f
    then one
    else if in_range 0xc2 0xdf a && tail_byte b
    then some (((a - 0xc0) * 64 + (b - 0x80)) ∷ [])
    else none
from_utf8 (a ∷ b ∷ c ∷ []) =
    let one = push_char a (from_utf8 (b ∷ c ∷ [])) in
    let two = push_char ((a - 0xc0) * 64 + (b - 0x80)) (from_utf8 (c ∷ [])) in
    if leb a 0x7f
    then one
    else if in_range 0xc2 0xdf a && tail_byte b
    then two
    else if in_range 0xe0 0xef a && (in_range (second_low a) (second_high a) b && tail_byte c)
    then some (((a - 0xe0) * 4096 + (b - 0x80) * 64 + (c - 0x80)) ∷ [])
    else none
from_utf8 (a ∷ b ∷ c ∷ d ∷ s) =
    let one = push_char a (from_utf8 (b ∷ c ∷ d ∷ s)) in
    let two = push_char ((a - 0xc0) * 64 + (b - 0x80)) (from_utf8 (c ∷ d ∷ s)) in
    let three = push_char ((a - 0xe0) * 4096 + (b - 0x80) * 64 + (c - 0x80)) (from_utf8 (d ∷ s)) in
    let four =
      push_char ((a - 0xf0) * 262_144 + (b - 0x80) * 4096 + (c - 0x80) * 64 + (d - 0x80))
        (from_utf8 s) in
    if leb a 0x7f
    then one
    else if in_range 0xc2 0xdf a && tail_byte b
    then two
    else if in_range 0xe0 0xef a && (in_range (second_low a) (second_high a) b && tail_byte c)
    then three
    else if in_range 0xf0 0xf4 a
        && (in_range (second_low a) (second_high a) b && (tail_byte c && tail_byte d))
    then four
    else none

-- Bytes below 128 are their characters.
pub from_utf8-ascii : (s : List ℕ) → All (λ b. b < 128) s → from_utf8 s ≡ some s
unfolding from_utf8
from_utf8-ascii [] h = refl
from_utf8-ascii (a ∷ []) h = ground (arith, h.0)
from_utf8-ascii (a ∷ b ∷ []) h =
    let e : leb a 0x7f ≡ true = ground (arith, h.0) in rw (e, from_utf8-ascii (b ∷ []) h.1) refl
from_utf8-ascii (a ∷ b ∷ c ∷ []) h =
    let e : leb a 0x7f ≡ true = ground (arith, h.0) in rw (e, from_utf8-ascii (b ∷ c ∷ []) h.1) refl
from_utf8-ascii (a ∷ b ∷ c ∷ d ∷ s) h =
    let e : leb a 0x7f ≡ true = ground (arith, h.0) in
    rw (e, from_utf8-ascii (b ∷ c ∷ d ∷ s) h.1) refl
