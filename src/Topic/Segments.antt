-- ===== src/Topic/Segments.antt =====
-- `sanitize_segment` of crates/republish-core/src/topic.rs: its loop, and the segments that it gives.
use netix_protocol_core.Prelude.{
  ℕ, zero, suc, ◌≤◌, ◌<◌, ◌≡◌, refl, sym, ◌∙◌, Bool, true, false, ◌&&◌, ◌||◌, [], ◌∷◌, map, arith,
  length, any, ==_iff, if◌then◌else◌,
}
use netix_protocol_core.Text.{
  Text, is_control, trim, trim_matches, trim_start_matches, trim_end_matches,
}
use netix_protocol_core.Text.Trimming.{
  starts, ends, starts-trim_start, ends-trim_end, starts-trim_end, any-trim_start, any-trim_end,
  trim_start-id, trim_end-id,
}
use netix_protocol_core.Topic.{
  is_underscore, is_reserved, clean, has_double, replace_double, collapse_loop, sanitize_segment,
}

-- One pass that drops an underscore before an underscore: what the loop is to compute.
abbrev pub squash : Text → Text
squash [] = []
squash (c ∷ s) =
    let rest = squash s in if is_underscore c && starts is_underscore s then rest else c ∷ rest

starts-squash : (s : Text) → starts is_underscore (squash s) ≡ starts is_underscore s
starts-squash [] = refl
starts-squash (c ∷ s) = ground (arith, starts-squash s)

length-replace_double-le : (s : Text) → length (replace_double s) ≤ length s
unfolding replace_double
length-replace_double-le [] = omega arith
length-replace_double-le (c ∷ []) = omega arith
length-replace_double-le (c ∷ d ∷ s) =
    ground (arith, length-replace_double-le s, length-replace_double-le (d ∷ s))

length-replace_double-lt : (s : Text) → has_double s ≡ true → length (replace_double s) < length s
unfolding replace_double has_double
length-replace_double-lt [] h = cc
length-replace_double-lt (c ∷ []) h = cc
length-replace_double-lt (c ∷ d ∷ s) h =
    ground (arith, length-replace_double-le s, length-replace_double-lt (d ∷ s))

-- With as much fuel as characters the loop ends by its test.
pub collapse_loop_ends : (f : ℕ) (s : Text) → length s ≤ f → has_double (collapse_loop f s) ≡ false
unfolding collapse_loop
collapse_loop_ends zero [] h = unfold has_double in refl
collapse_loop_ends zero (c ∷ s) h = absurd (omega arith)
collapse_loop_ends (suc f) s h =
    ground (arith, collapse_loop_ends f (replace_double s), length-replace_double-lt s)

starts-replace_double :
    (s : Text) → starts is_underscore (replace_double s) ≡ starts is_underscore s
unfolding replace_double
starts-replace_double [] = refl
starts-replace_double (c ∷ []) = refl
starts-replace_double (c ∷ d ∷ s) = ground arith

squash-replace_double : (s : Text) → squash (replace_double s) ≡ squash s
unfolding replace_double
squash-replace_double [] = refl
squash-replace_double (c ∷ []) = refl
squash-replace_double (c ∷ d ∷ s) = ground (
  arith,
  squash-replace_double s,
  squash-replace_double (d ∷ s),
  starts-replace_double s,
  starts-replace_double (d ∷ s),
  ==_iff c b'_',
  ==_iff d b'_',
)

squash_of_single : (s : Text) → has_double s ≡ false → squash s ≡ s
unfolding has_double
squash_of_single [] h = refl
squash_of_single (c ∷ []) h = ground arith
squash_of_single (c ∷ d ∷ s) h = ground (arith, squash_of_single (d ∷ s))

squash-collapse_loop : (f : ℕ) (s : Text) → squash (collapse_loop f s) ≡ squash s
unfolding collapse_loop
squash-collapse_loop zero s = refl
squash-collapse_loop (suc f) s =
    ground (arith, squash-collapse_loop f (replace_double s), squash-replace_double s)

-- The loop of replacements leaves one underscore of each run and every other character.
pub collapse_loop-eq-squash : (s : Text) → collapse_loop (length s) s ≡ squash s
collapse_loop-eq-squash s =
    sym (squash_of_single _ (collapse_loop_ends (length s) s (omega arith)))
    ∙ squash-collapse_loop (length s) s

module _ (q : ℕ → Bool) where
  pub any-squash : (s : Text) → any q s ≡ false → any q (squash s) ≡ false
  any-squash [] h = refl
  any-squash (c ∷ s) h = ground (arith, any-squash s)

has_double-squash : (s : Text) → has_double (squash s) ≡ false
unfolding has_double
has_double-squash [] = refl
has_double-squash (c ∷ s) = grow c s (squash s) (has_double-squash s) (starts-squash s)
  where
    grow :
        (c : ℕ) (s r : Text)
        → has_double r ≡ false
        → starts is_underscore r ≡ starts is_underscore s
        → has_double (if is_underscore c && starts is_underscore s then r else c ∷ r) ≡ false
    grow c s [] h e = ground arith
    grow c s (d ∷ r) h e = ground arith

has_double-trim_start :
    (s : Text) → has_double s ≡ false → has_double (trim_start_matches is_underscore s) ≡ false
unfolding has_double trim_start_matches
has_double-trim_start [] h = refl
has_double-trim_start (c ∷ []) h = ground arith
has_double-trim_start (c ∷ d ∷ s) h = ground (arith, has_double-trim_start (d ∷ s))

has_double-trim_end :
    (s : Text) → has_double s ≡ false → has_double (trim_end_matches is_underscore s) ≡ false
unfolding has_double trim_end_matches
has_double-trim_end [] h = refl
has_double-trim_end (c ∷ []) h = ground arith
has_double-trim_end (c ∷ d ∷ s) h = ground (arith, has_double-trim_end (d ∷ s))

-- What a sanitised segment never contains.
abbrev pub is_forbidden : ℕ → Bool
is_forbidden c = is_reserved c || is_control c

is_forbidden-clean : (c : ℕ) → is_forbidden (clean c) ≡ false
unfolding clean is_control
is_forbidden-clean c = ground arith

any-map-clean : (s : Text) → any is_forbidden (map clean s) ≡ false
any-map-clean [] = refl
any-map-clean (c ∷ s) = ground (arith, is_forbidden-clean c, any-map-clean s)

pub record IsClean (s : Text) : Type 0 where
  pub allowed : any is_forbidden s ≡ false
  pub single : has_double s ≡ false
  pub open_start : starts is_underscore s ≡ false
  pub open_end : ends is_underscore s ≡ false

trimmed-IsClean :
    (s : Text)
    → any is_forbidden s ≡ false
    → has_double s ≡ false
    → IsClean (trim_matches is_underscore s)
unfolding trim_matches
trimmed-IsClean s a d =
    let u = is_underscore in
    let t : Text = trim_start_matches u s in
    record {
      allowed = any-trim_end u is_forbidden t (any-trim_start u is_forbidden s a);
      single = has_double-trim_end t (has_double-trim_start s d);
      open_start = starts-trim_end u u t (starts-trim_start u s);
      open_end = ends-trim_end u t;
    }

-- A sanitised segment has no reserved and no control character, no two underscores in a row, and
-- no underscore at either end.
pub sanitize_segment-IsClean : (value : Text) → IsClean (sanitize_segment value)
unfolding sanitize_segment
sanitize_segment-IsClean value =
    let cleaned : Text = map clean (trim value) in
    rw (collapse_loop-eq-squash cleaned) (
      trimmed-IsClean (squash cleaned)
        (any-squash is_forbidden cleaned (any-map-clean (trim value))) (has_double-squash cleaned))

map-clean_of_allowed : (s : Text) → any is_forbidden s ≡ false → map clean s ≡ s
unfolding clean is_control
map-clean_of_allowed [] h = refl
map-clean_of_allowed (c ∷ s) h = ground (arith, map-clean_of_allowed s)

sanitize_of_clean : (s : Text) → IsClean s → trim s ≡ s → sanitize_segment s ≡ s
unfolding sanitize_segment trim_matches
sanitize_of_clean s c t =
    rw
      (
        t,
        map-clean_of_allowed s c.allowed,
        collapse_loop-eq-squash s,
        squash_of_single s c.single,
        trim_start-id is_underscore s c.open_start,
      )
      (trim_end-id is_underscore s c.open_end)

-- Sanitising a second time changes nothing, if the first result has no white space at its ends.
sanitize_segment_idem :
    (value : Text)
    → trim (sanitize_segment value) ≡ sanitize_segment value
    → sanitize_segment (sanitize_segment value) ≡ sanitize_segment value
sanitize_segment_idem value = sanitize_of_clean _ (sanitize_segment-IsClean value)
