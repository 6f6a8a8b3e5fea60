-- ===== src/Text/Trimming.antt =====
-- Lemmas on trimming.
use netix_protocol_core.Prelude.{
  ℕ, ◌≡◌, refl, ◌∙◌, Bool, true, false, [], ◌∷◌, arith, is_empty, any, if◌then◌else◌,
}
use netix_protocol_core.Text.{Text, trim_start_matches, trim_end_matches, trim_matches}

-- Whether the first, the last character passes a test.
abbrev pub starts : (ℕ → Bool) → Text → Bool
starts p [] = false
starts p (c ∷ s) = p c

abbrev pub ends : (ℕ → Bool) → Text → Bool
ends p [] = false
ends p (c ∷ s) = let rest = ends p s in if is_empty s then p c else rest

module _ (p : ℕ → Bool) where
  pub starts-trim_start : (s : Text) → starts p (trim_start_matches p s) ≡ false
  unfolding trim_start_matches
  starts-trim_start [] = refl
  starts-trim_start (c ∷ s) = ground (arith, starts-trim_start s)

  pub ends-trim_end : (s : Text) → ends p (trim_end_matches p s) ≡ false
  unfolding trim_end_matches
  ends-trim_end [] = refl
  ends-trim_end (c ∷ s) = ground (arith, ends-trim_end s)

  pub trim_start-id : (s : Text) → starts p s ≡ false → trim_start_matches p s ≡ s
  unfolding trim_start_matches
  trim_start-id [] h = refl
  trim_start-id (c ∷ s) h = ground arith

  pub trim_end-id : (s : Text) → ends p s ≡ false → trim_end_matches p s ≡ s
  unfolding trim_end_matches
  trim_end-id [] h = refl
  trim_end-id (c ∷ []) h = ground arith
  trim_end-id (c ∷ d ∷ s) h = ground (arith, trim_end-id (d ∷ s))

  module _ (q : ℕ → Bool) where
    pub starts-trim_end : (s : Text) → starts q s ≡ false → starts q (trim_end_matches p s) ≡ false
    unfolding trim_end_matches
    starts-trim_end [] h = refl
    starts-trim_end (c ∷ s) h = ground arith

    pub any-trim_start : (s : Text) → any q s ≡ false → any q (trim_start_matches p s) ≡ false
    unfolding trim_start_matches
    any-trim_start [] h = refl
    any-trim_start (c ∷ s) h = ground (arith, any-trim_start s)

    pub any-trim_end : (s : Text) → any q s ≡ false → any q (trim_end_matches p s) ≡ false
    unfolding trim_end_matches
    any-trim_end [] h = refl
    any-trim_end (c ∷ s) h = ground (arith, any-trim_end s)

-- A character that fails the test is never trimmed away.
module _ (p q : ℕ → Bool) (kept : (c : ℕ) → q c ≡ true → p c ≡ false) where
  any_trim_start_kept : (s : Text) → any q (trim_start_matches p s) ≡ any q s
  unfolding trim_start_matches
  any_trim_start_kept [] = refl
  any_trim_start_kept (c ∷ s) = ground (arith, any_trim_start_kept s, kept c)

  any_trim_end_kept : (s : Text) → any q (trim_end_matches p s) ≡ any q s
  unfolding trim_end_matches
  any_trim_end_kept [] = refl
  any_trim_end_kept (c ∷ s) = ground (arith, any_trim_end_kept s, kept c)

  pub any_trim_kept : (s : Text) → any q (trim_matches p s) ≡ any q s
  unfolding trim_matches
  any_trim_kept s = any_trim_end_kept (trim_start_matches p s) ∙ any_trim_start_kept s
