-- ===== src/Logs/Ring.antt =====
-- `LogBuffer` of crates/republish-core/src/log.rs over runs of its operations, against an unbounded history.
use netix_protocol_core.Prelude.{
  ℕ, zero, suc, ◌+◌, ◌-◌, ◌≤◌, ◌<◌, ◌≡◌, refl, sym, true, false, List, [], ◌∷◌, ◌++◌, arith, length,
  length-append, leb, drop, length-drop, max, Bool-cases, inl, inr,
}
use native.Mathlib.Decide.{dec_le}
use native.Mathlib.Nat.{zero-sub}
use netix_protocol_core.Text.{Text}
use netix_protocol_core.Backoff.{LogLevel}
use netix_protocol_core.Logs.{LogEntry, LogBuffer, new, make_room, entry_of, push, clear}

pub data Op : Type 0 where
  pushes : LogLevel → Text → ℕ → Op
  clears : Op

unfoldable pub step : Op → LogBuffer → LogBuffer
unfolding push clear
step (pushes level message now) b = push level message now b
step clears b = clear b

unfoldable pub run : List Op → LogBuffer → LogBuffer
unfolding step
run [] b = b
run (op ∷ ops) b = run ops (step op b)

-- The entries of an unbounded log: what a buffer that never evicts would hold.
unfoldable pub history : List Op → LogBuffer → List LogEntry → List LogEntry
unfolding step
history [] b h = h
history (pushes level message now ∷ ops) b h =
    history ops (step (pushes level message now) b) (h ++ entry_of b level message now ∷ [])
history (clears ∷ ops) b h = history ops (step clears b) []

-- The latest n entries.
abbrev pub latest : ℕ → List LogEntry → List LogEntry
latest n h = drop (length h - n) h

drop-append : (n : ℕ) (xs ys : List LogEntry) → n ≤ length xs → drop n (xs ++ ys) ≡ drop n xs ++ ys
drop-append zero xs ys h = refl
drop-append (suc n) [] ys h = absurd (omega arith)
drop-append (suc n) (x ∷ xs) ys h = drop-append n xs ys (omega arith)

drop-drop_one : (n : ℕ) (xs : List LogEntry) → drop 1 (drop n xs) ≡ drop (suc n) xs
drop-drop_one zero xs = refl
drop-drop_one (suc n) [] = refl
drop-drop_one (suc n) (x ∷ xs) = drop-drop_one n xs

-- A full buffer drops its first entry.
push_full :
    (n : ℕ) (h : List LogEntry) (e : LogEntry)
    → n ≤ length h
    → 1 ≤ n
    → drop 1 (latest n h) ++ e ∷ [] ≡ latest n (h ++ e ∷ [])
push_full n h e full one =
    let k : ℕ = length h - n in
    let next : length (h ++ e ∷ []) - n ≡ suc k = omega (arith, length-append h (e ∷ [])) in
    rw next (rw (drop-drop_one k h) (sym (drop-append (suc k) h (e ∷ []) (omega arith))))

-- A buffer with room keeps all.
push_room :
    (n : ℕ) (h : List LogEntry) (e : LogEntry)
    → length h < n
    → latest n h ++ e ∷ [] ≡ latest n (h ++ e ∷ [])
push_room n h e room =
    let now : length h - n ≡ 0 = omega arith in
    let next : length (h ++ e ∷ []) - n ≡ 0 = omega (arith, length-append h (e ∷ [])) in
    rw (now, next)

length-latest : (n : ℕ) (h : List LogEntry) → length (latest n h) ≡ length h - (length h - n)
length-latest n h = length-drop (length h - n) h

cap_test :
    (cap : ℕ) (h : List LogEntry)
    → max 1 cap ≤ length h
    → leb cap (length (latest (max 1 cap) h)) ≡ true
cap_test cap h full = ground (arith, length-latest (max 1 cap) h)

push-latest :
    (cap : ℕ) (h : List LogEntry) (e : LogEntry)
    → make_room cap (latest (max 1 cap) h) ++ e ∷ [] ≡ latest (max 1 cap) (h ++ e ∷ [])
push-latest zero [] e = refl
push-latest zero (x ∷ h) e =
    let full : 1 ≤ length (x ∷ h) = omega arith in
    rw (cap_test 0 (x ∷ h) full) (push_full 1 (x ∷ h) e full (omega arith))
push-latest (suc cap) h e = elim (dec_le (max 1 (suc cap)) (length h)) [
  | yes full ↦ rw (cap_test (suc cap) h full) (push_full (max 1 (suc cap)) h e full (omega arith))
  | no room ↦
      let test : leb (suc cap) (length (latest (max 1 (suc cap)) h)) ≡ false =
        ground (arith, length-latest (max 1 (suc cap)) h) in
      rw test (push_room (max 1 (suc cap)) h e (omega arith))
]

-- What a buffer of a capacity holds of its history.
abbrev IsTail : LogBuffer → List LogEntry → Type 0
IsTail b h = b.entries ≡ latest (max 1 b.capacity) h

-- The entries are numbered without a gap, the last one just below `next`.
abbrev pub IsNumbered : ℕ → List LogEntry → Type 0
IsNumbered next [] = Unit
IsNumbered next (e ∷ es) = (e.sequence + length (e ∷ es) ≡ next) × IsNumbered next es

run-IsTail :
    (ops : List Op) (b : LogBuffer) (h : List LogEntry)
    → IsTail b h
    → IsTail (run ops b) (history ops b h)
unfolding run history
run-IsTail [] b h t = t
run-IsTail (pushes level message now ∷ ops) b h t =
    run-IsTail ops (push level message now b) (h ++ entry_of b level message now ∷ [])
      (unfold push in (rw t (push-latest b.capacity h (entry_of b level message now))))
run-IsTail (clears ∷ ops) b h t =
    run-IsTail ops (clear b) [] (unfold clear in (rw (zero-sub (max 1 b.capacity))))

-- A buffer always holds the latest entries pushed since the last `clear`, as many as its capacity,
-- but at least one: a capacity of zero also keeps one entry.
pub entries-run :
    (ops : List Op) (capacity now : ℕ)
    → (run ops (new capacity now)).entries
      ≡ latest (max 1 (run ops (new capacity now)).capacity) (history ops (new capacity now) [])
unfolding new
entries-run ops capacity now = run-IsTail ops (new capacity now) [] (rw (zero-sub (max 1 capacity)))

capacity-run : (ops : List Op) (b : LogBuffer) → (run ops b).capacity ≡ b.capacity
unfolding run step
capacity-run [] b = refl
capacity-run (pushes level message now ∷ ops) b = capacity-run ops _
capacity-run (clears ∷ ops) b = capacity-run ops _

IsNumbered-snoc :
    (next : ℕ) (es : List LogEntry) (e : LogEntry)
    → e.sequence ≡ next
    → IsNumbered next es
    → IsNumbered (next + 1) (es ++ e ∷ [])
IsNumbered-snoc next [] e q h = (omega arith, tt)
IsNumbered-snoc next (x ∷ xs) e q h =
    (omega (arith, length-append xs (e ∷ [])), IsNumbered-snoc next xs e q h.1)

IsNumbered-make_room :
    (next capacity : ℕ) (es : List LogEntry)
    → IsNumbered next es
    → IsNumbered next (make_room capacity es)
IsNumbered-make_room next capacity [] h = ground arith
IsNumbered-make_room next capacity (x ∷ xs) h = elim (Bool-cases (leb capacity (length (x ∷ xs)))) [
  | inl full ↦ rw full h.1
  | inr room ↦ rw room h
]

-- The sequence numbers of the entries are consecutive and end just below the next one, after any
-- pushes and clears.
run-IsNumbered :
    (ops : List Op) (b : LogBuffer)
    → IsNumbered b.next_sequence b.entries
    → IsNumbered (run ops b).next_sequence (run ops b).entries
unfolding run step
run-IsNumbered [] b h = h
run-IsNumbered (pushes level message now ∷ ops) b h =
    run-IsNumbered ops (push level message now b) (
      IsNumbered-snoc b.next_sequence (make_room b.capacity b.entries)
        (entry_of b level message now) refl
        (IsNumbered-make_room b.next_sequence b.capacity b.entries h))
run-IsNumbered (clears ∷ ops) b h = run-IsNumbered ops (clear b) tt
