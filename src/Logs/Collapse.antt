-- ===== src/Logs/Collapse.antt =====
-- `AppLog` of crates/sim-core/src/app/log.rs: lemmas on collapsing, the bound and the counts.
use netix_protocol_core.Prelude.{
  ℕ, ◌+◌, ◌≤◌, ◌<◌, ◌≡◌, refl, false, [], ◌∷◌, ◌++◌, none, some, arith, length, length-append,
  Option-cases, Bool-cases, ltb, inl, inr,
}
use netix_protocol_core.Prelude.Eq.{beq, nat_eq, list_eq}
use netix_protocol_core.Text.{Text}
use netix_protocol_core.Logs.{AppLog, log_capacity, shrink, bump_last, push_line}

abbrev line_of : Text × ℕ → Text
line_of (line, count) = line

-- No line stands directly after the same line.
abbrev NoRepeat : AppLog → Type 0
NoRepeat [] = Unit
NoRepeat (x ∷ []) = Unit
NoRepeat ((a, m) ∷ (b, n) ∷ log) = (beq a b ≡ false) × NoRepeat ((b, n) ∷ log)

abbrev pub total : AppLog → ℕ
total [] = 0
total ((line, count) ∷ log) = count + total log

total-append : (xs ys : AppLog) → total (xs ++ ys) ≡ total xs + total ys
total-append [] ys = omega arith
total-append ((line, count) ∷ xs) ys = omega (arith, total-append xs ys)

length-shrink : (log : AppLog) → length (shrink log) ≤ log_capacity
unfolding shrink
length-shrink [] = omega arith
length-shrink (x ∷ xs) = ground (arith, length-shrink xs)

NoRepeat-tail : (x : Text × ℕ) (log : AppLog) → NoRepeat (x ∷ log) → NoRepeat log
NoRepeat-tail x [] h = tt
NoRepeat-tail (a, m) ((b, n) ∷ log) h = h.1

NoRepeat-shrink : (log : AppLog) → NoRepeat log → NoRepeat (shrink log)
unfolding shrink
NoRepeat-shrink [] h = tt
NoRepeat-shrink (x ∷ xs) h = elim (Bool-cases (ltb log_capacity (length (x ∷ xs)))) [
  | inl long ↦ rw long (NoRepeat-shrink xs (NoRepeat-tail x xs h))
  | inr short ↦ rw short h
]

shrink_short : (log : AppLog) → length log ≤ log_capacity → shrink log ≡ log
unfolding shrink
shrink_short [] h = refl
shrink_short (x ∷ xs) h = ground arith

-- What bumping the last entry does, if its line is the same.
record Bumped (line : Text) (log bumped : AppLog) : Type 0 where
  same_length : length bumped ≡ length log
  one_more : total bumped ≡ total log + 1
  still : NoRepeat log → NoRepeat bumped
  same_first : (a : Text) (m : ℕ) → NoRepeat ((a, m) ∷ log) → NoRepeat ((a, m) ∷ bumped)

bump_last-Bumped :
    (line : Text) (log : AppLog) {bumped : AppLog}
    → bump_last line log ≡ some bumped
    → Bumped line log bumped
unfolding bump_last
bump_last-Bumped line [] h = cc
bump_last-Bumped line ((last, count) ∷ []) {bumped} h =
    let e : bumped ≡ (last, count + 1) ∷ [] = ground arith in
    rw e (record {
      same_length = refl;
      one_more = omega arith;
      still = λ n. tt;
      same_first = λ a m n. n;
    })
bump_last-Bumped line ((a, m) ∷ y ∷ log) {bumped} h =
    elim (Option-cases (bump_last line (y ∷ log))) [
      | inl e ↦ cc
      | inr (rest, e) ↦
          let v : Bumped line (y ∷ log) rest = bump_last-Bumped line (y ∷ log) e in
          let b : bumped ≡ (a, m) ∷ rest = ground arith in
          rw b (record {
            same_length = omega (arith, v.same_length);
            one_more = omega (arith, v.one_more);
            still = λ n. v.same_first a m n;
            same_first = λ c k n. (n.0, v.same_first a m n.1);
          })
    ]

NoRepeat-snoc :
    (line : Text) (log : AppLog)
    → bump_last line log ≡ none
    → NoRepeat log
    → NoRepeat (log ++ (line, 1) ∷ [])
unfolding bump_last
NoRepeat-snoc line [] h n = tt
NoRepeat-snoc line ((last, count) ∷ []) h n = ground arith
NoRepeat-snoc line ((a, m) ∷ (b, k) ∷ log) h n =
    (n.0, NoRepeat-snoc line ((b, k) ∷ log) (ground arith) n.1)

pub record IsAppLog (log : AppLog) : Type 0 where
  pub bounded : length log ≤ log_capacity
  pub collapsed : NoRepeat log

-- A push keeps the log within its capacity and collapsed: equal lines in a row are one entry.
pub push_line-IsAppLog : (line : Text) (log : AppLog) → IsAppLog log → IsAppLog (push_line line log)
unfolding push_line
push_line-IsAppLog line log v = elim (Option-cases (bump_last line log)) [
  | inl e ↦
      rw (e, push_line)
        (record {
          bounded = length-shrink (log ++ (line, 1) ∷ []);
          collapsed = NoRepeat-shrink _ (NoRepeat-snoc line log e v.collapsed);
        })
  | inr (bumped, e) ↦
      let b : Bumped line log bumped = bump_last-Bumped line log e in
      rw (e, push_line)
        (record {
          bounded = omega (arith, b.same_length, v.bounded);
          collapsed = b.still v.collapsed;
        })
]

-- Until the log is full every push adds one to the sum of the counts: no line is lost.
total-push_line :
    (line : Text) (log : AppLog)
    → length log < log_capacity
    → total (push_line line log) ≡ total log + 1
unfolding push_line
total-push_line line log h = elim (Option-cases (bump_last line log)) [
  | inl e ↦
      rw (e, push_line)
        (rw
          (shrink_short (log ++ (line, 1) ∷ []) (omega (arith, length-append log ((line, 1) ∷ []))))
          (omega (arith, total-append log ((line, 1) ∷ []))))
  | inr (bumped, e) ↦ rw (e, push_line) (bump_last-Bumped line log e).one_more
]
