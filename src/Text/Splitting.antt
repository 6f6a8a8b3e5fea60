-- ===== src/Text/Splitting.antt =====
-- Lemmas on `split` and `join`.
use netix_protocol_core.Prelude.{
  ℕ, ◌≡◌, ◌≢◌, refl, ap, ◌∙◌, Bool, false, ◌||◌, List, [], ◌∷◌, ◌++◌, arith, any, All,
}
use netix_protocol_core.Text.{Text, has, split, join}

pub any-append : (q : ℕ → Bool) (s t : Text) → any q (s ++ t) ≡ (any q s || any q t)
any-append q [] t = refl
any-append q (c ∷ s) t = ground (arith, any-append q s t)

-- A joined text has a character only where a piece or the separator has it.
pub any-join :
    (q : ℕ → Bool) (sep : Text) (ss : List Text)
    → any q sep ≡ false
    → All (λ s. any q s ≡ false) ss
    → any q (join sep ss) ≡ false
unfolding join
any-join q sep [] h a = refl
any-join q sep (s ∷ []) h a = a.0
any-join q sep (s ∷ t ∷ ss) h a = ground (
  arith,
  any-append q s (sep ++ join sep (t ∷ ss)),
  any-append q sep (join sep (t ∷ ss)),
  any-join q sep (t ∷ ss) h a.1,
)

module _ (d : ℕ) where
  pub split_piece : (s : Text) → has d s ≡ false → split d s ≡ s ∷ []
  unfolding split
  split_piece [] h = refl
  split_piece (c ∷ s) h = ground (arith, split_piece s)

  pub split-append : (s t : Text) → has d s ≡ false → split d (s ++ d ∷ t) ≡ s ∷ split d t
  unfolding split
  split-append [] t h = ground arith
  split-append (c ∷ s) t h = ground (arith, split-append s t)

  -- The pieces of a joined text, if no piece has the separator.
  pub split-join :
      (s : Text) (ss : List Text)
      → All (λ s. has d s ≡ false) (s ∷ ss)
      → split d (join (d ∷ []) (s ∷ ss)) ≡ s ∷ ss
  unfolding join
  split-join s [] a = split_piece s a.0
  split-join s (t ∷ ss) a =
      split-append s (join (d ∷ []) (t ∷ ss)) a.0 ∙ ap (λ r. s ∷ r) (split-join t ss a.1)

  split-ne-nil : (s : Text) → split d s ≢ []
  unfolding split
  split-ne-nil [] h = cc
  split-ne-nil (c ∷ s) h = ground (arith, split-ne-nil s)

  -- A separator splits a text in two.
  pub split-append_both : (s t : Text) → split d (s ++ d ∷ t) ≡ split d s ++ split d t
  unfolding split
  split-append_both [] t = ground arith
  split-append_both (c ∷ s) t = ground (arith, split-append_both s t, split-ne-nil s)
