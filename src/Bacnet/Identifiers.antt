-- ===== src/Bacnet/Identifiers.antt =====
-- The names of object types and properties in crates/proto-bacnet/src/republish/value.rs.
use netix_protocol_core.Prelude.{
  ℕ, ◌<◌, ◌≤◌, ◌≡◌, refl, ap, ◌∙◌, inl, inr, Bool, true, false, not, ◌&&◌, ◌||◌, List, [], ◌∷◌, map,
  filter, any, All, none, some, is_empty, ◌==◌, ==_iff, leb, arith, Bool-cases, Option-cases,
}
use mathlib.Core.Path.{subst}
use netix_protocol_core.Prelude.Eq.{beq, beq_iff, nat_eq, list_eq}
use netix_protocol_core.Text.{Text, is_whitespace, is_blank, trim, trim_matches}
use netix_protocol_core.Text.Trimming.{starts, ends, trim_start-id, trim_end-id}
use netix_protocol_core.Text.Numbers.{
  decimal, is_digit, read_digits, read_unsigned, parse_unsigned, u32_max,
}
use netix_protocol_core.Text.Digits.{IsDigits, decimal-IsDigits, parse-decimal}
use netix_protocol_core.Simulator.Points.{lower_char, to_ascii_lowercase}
use netix_protocol_core.Bacnet.Value.{object_type_name, name_in}
use netix_protocol_core.Bacnet.Requests.{
  Names, normalize_identifier, flat, separates, named, or_named, object_type_from_text,
}

abbrev is_upper : ℕ → Bool
is_upper c = leb b'A' c && leb c b'Z'

-- A letter, a digit or an underscore.
abbrev is_plain : ℕ → Bool
is_plain c = leb b'0' c && leb c b'9' || (is_upper c || (leb b'a' c && leb c b'z' || c == b'_'))

abbrev IsPlain : Text → Type 0
IsPlain s = any (λ c. not (is_plain c)) s ≡ false

-- A name without its underscores, in lower case.
abbrev bare : Text → Text
bare s = map lower_char (filter (λ c. not (c == b'_')) s)

-- What the BACnet library's table of names and numbers is like: the names are of letters, digits and
-- underscores and start with a capital letter, and names of different numbers differ in more than
-- underscores and case.
pub record IsTable (table : List (Text × ℕ)) : Type 0 where
  pub plain : All (λ e. any (λ c. not (is_plain c)) e.0 ≡ false) table
  pub capital : All (λ e. starts is_upper e.0 ≡ true) table
  pub apart : All (λ e. All (λ f. bare f.0 ≡ bare e.0 → f.1 ≡ e.1) table) table

-- `char::to_lowercase` on ASCII.
abbrev pub LowersAscii : Names → Type 0
LowersAscii names = (c : ℕ) → c < 128 → names.to_lowercase c ≡ lower_char c ∷ []

-- Text of letters, digits and underscores.

plain_not_space : (c : ℕ) → is_plain c ≡ true → is_whitespace c ≡ false
unfolding is_whitespace
plain_not_space c h = ground arith

starts_plain : (s : Text) → IsPlain s → starts is_whitespace s ≡ false
starts_plain [] h = refl
starts_plain (c ∷ s) h = ground (arith, plain_not_space c)

ends_plain : (s : Text) → IsPlain s → ends is_whitespace s ≡ false
ends_plain [] h = refl
ends_plain (c ∷ s) h = ground (arith, plain_not_space c, ends_plain s)

trim_plain : (s : Text) → IsPlain s → trim s ≡ s
unfolding trim trim_matches
trim_plain s h =
    rw (trim_start-id is_whitespace s (starts_plain s h))
      (trim_end-id is_whitespace s (ends_plain s h))

shown_plain : (s : Text) → IsPlain s → is_empty s ≡ false → is_blank s ≡ false
unfolding is_blank
shown_plain s h e = rw (trim_plain s h) e

module _ (names : Names) (lowers : LowersAscii names) where
  flat_plain :
      (s : Text) → IsPlain s → flat names.to_lowercase (filter (λ c. not (separates c)) s) ≡ bare s
  unfolding lower_char
  flat_plain [] h = refl
  flat_plain (c ∷ s) h = ground (arith, lowers c, flat_plain s)

  normalize-plain : (s : Text) → IsPlain s → normalize_identifier names s ≡ bare s
  unfolding normalize_identifier
  normalize-plain s h = rw (trim_plain s h) (flat_plain s h)

lower-IsPlain : (s : Text) → IsPlain s → IsPlain (to_ascii_lowercase s)
unfolding to_ascii_lowercase lower_char
lower-IsPlain [] h = refl
lower-IsPlain (c ∷ s) h = ground (arith, lower-IsPlain s)

bare-lower : (s : Text) → IsPlain s → bare (to_ascii_lowercase s) ≡ bare s
unfolding to_ascii_lowercase lower_char
bare-lower [] h = refl
bare-lower (c ∷ s) h = ground (arith, bare-lower s)

-- Text that starts with a letter is no number.
parse-bare : (s : Text) → starts is_upper s ≡ true → parse_unsigned u32_max (bare s) ≡ none
unfolding parse_unsigned read_unsigned read_digits is_digit lower_char
parse-bare [] h = cc
parse-bare (c ∷ s) h = ground arith

bare_of_digits : (s : Text) → IsDigits s → IsPlain s × (bare s ≡ s)
unfolding is_digit lower_char
bare_of_digits [] h = (refl, refl)
bare_of_digits (c ∷ s) h = (ground (arith, bare_of_digits s), ground (arith, bare_of_digits s))

-- What holds for the entries of a table holds for one that is found by its number.
name_in-All :
    (P : Text × ℕ → Type 0) (raw : ℕ) (name : Text) (table : List (Text × ℕ))
    → All P table
    → name_in raw table ≡ some name
    → P (name, raw)
name_in-All P raw name [] a e = cc (e)
name_in-All P raw name ((first, n) ∷ table) (p, a) e = elim (Bool-cases (n == raw)) [
  | inl same ↦
      let this : first ≡ name = ground (arith, e, same) in
      subst (λ x. P (x, raw)) this (subst (λ m. P (first, m)) ((==_iff n raw).0 same) p)
  | inr other ↦ name_in-All P raw name table a (ground (arith, e, other))
]

module _ (names : Names) (lowers : LowersAscii names) where
  -- The first entry of the normalised name has the number.
  named-name_in :
      (raw : ℕ) (name : Text) (table : List (Text × ℕ))
      → IsPlain name
      → All (λ e. any (λ c. not (is_plain c)) e.0 ≡ false) table
      → All (λ f. bare f.0 ≡ bare name → f.1 ≡ raw) table
      → name_in raw table ≡ some name
      → named names (bare name) table ≡ some raw
  named-name_in raw name [] p a b e = cc (e)
  named-name_in raw name ((first, n) ∷ table) p (q, a) (apart, b) e =
      let normal : normalize_identifier names first ≡ bare first =
        normalize-plain names lowers first q in
      elim (Bool-cases (beq (bare first) (bare name))) [
        | inl same ↦
            rw (normal) (rw (same) (ap some (apart ((beq_iff (bare first) (bare name)).0 same))))
        | inr other ↦ rw (normal) (
            rw (other) (elim (Bool-cases (n == raw)) [
              | inl same ↦
                  let this : first ≡ name = ground (arith, e, same) in
                  let equal = (beq_iff (bare first) (bare name)).1 (ap bare this) in
                  ground (arith, equal, other)
              | inr differs ↦ named-name_in raw name table p a b (ground (arith, e, differs))
            ]))
      ]

  -- A name of the table, in lower case, is read back as its number.
  pub table-read :
      (raw : ℕ) (name : Text) (table : List (Text × ℕ))
      → IsTable table
      → name_in raw table ≡ some name
      → let normalized = normalize_identifier names (to_ascii_lowercase name) in
        (or_named names normalized table (parse_unsigned u32_max normalized) ≡ some raw)
        × (is_blank (to_ascii_lowercase name) ≡ false)
  table-read raw name table t e =
      let p : IsPlain name = name_in-All (λ e. IsPlain e.0) raw name table t.plain e in
      let c : starts is_upper name ≡ true =
        name_in-All (λ e. starts is_upper e.0 ≡ true) raw name table t.capital e in
      let b : All (λ f. bare f.0 ≡ bare name → f.1 ≡ raw) table =
        name_in-All (λ e. All (λ f. bare f.0 ≡ bare e.0 → f.1 ≡ e.1) table) raw name table t.apart
          e in
      let normal =
        normalize-plain names lowers (to_ascii_lowercase name) (lower-IsPlain name p)
        ∙ bare-lower name p in
      (
        rw (normal, parse-bare name c) (named-name_in raw name table p t.plain b e),
        shown_plain (to_ascii_lowercase name) (lower-IsPlain name p) (lower_shown name c),
      )
    where
      lower_shown : (s : Text) → starts is_upper s ≡ true → is_empty (to_ascii_lowercase s) ≡ false
      lower_shown [] h = cc
      lower_shown (c ∷ s) h = unfold to_ascii_lowercase in refl

  -- The text of an object type is not blank and is read back as the object type.
  pub object_type-read :
      (raw : ℕ)
      → IsTable names.object_types
      → raw ≤ u32_max
      → (object_type_from_text names (object_type_name names.object_types raw) ≡ some raw)
        × (is_blank (object_type_name names.object_types raw) ≡ false)
  unfolding object_type_from_text object_type_name
  object_type-read raw t h = elim (Option-cases (name_in raw names.object_types)) [
    | inr (name, found) ↦ rw (found) (table-read raw name names.object_types t found)
    | inl absent ↦
        let (all, some_left) = decimal-IsDigits raw in
        let (p, same) = bare_of_digits (decimal raw) all in
        rw (absent) (
          rw (normalize-plain names lowers (decimal raw) p, same, parse-decimal u32_max raw h) refl,
          shown_plain (decimal raw) p some_left,
        )
  ]
