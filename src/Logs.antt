-- ===== src/Logs.antt =====
-- The two bounded logs: `LogBuffer` of crates/republish-core/src/log.rs and `AppLog` of
-- crates/sim-core/src/app/log.rs. Sequence numbers (`u64`) and repeat counts (`u32`) are not bounded.
pub mod Ring
pub mod Collapse
use netix_protocol_core.Prelude.{
  ℕ, zero, suc, ◌+◌, ◌-◌, ◌≤◌, Bool, true, false, List, [], ◌∷◌, ◌++◌, map, Option, none, some,
  length, leb, ltb, drop, if◌then◌else◌,
}
use netix_protocol_core.Prelude.Eq.{beq, nat_eq, list_eq}
use netix_protocol_core.Text.{Text, lit}
use netix_protocol_core.Text.Numbers.{decimal}
use netix_protocol_core.Backoff.{LogLevel}

pub record LogEntry : Type 0 where
  pub sequence : ℕ
  pub elapsed : ℕ
  pub level : LogLevel
  pub message : Text

pub record LogBuffer : Type 0 where
  pub entries : List LogEntry
  pub next_sequence : ℕ
  pub started_at : ℕ
  pub capacity : ℕ

-- `Instant::now()` is an argument.
unfoldable pub new : ℕ → ℕ → LogBuffer
new capacity now = record { entries = []; next_sequence = 1; started_at = now; capacity = capacity }

-- `pop_front` on a full buffer
abbrev pub make_room : ℕ → List LogEntry → List LogEntry
make_room capacity entries = if leb capacity (length entries) then drop 1 entries else entries

abbrev pub entry_of : LogBuffer → LogLevel → Text → ℕ → LogEntry
entry_of b level message now = record {
  sequence = b.next_sequence;
  elapsed = now - b.started_at;
  level = level;
  message = message;
}

unfoldable pub push : LogLevel → Text → ℕ → LogBuffer → LogBuffer
push level message now b = record b {
  entries = make_room b.capacity b.entries ++ entry_of b level message now ∷ [];
  next_sequence = b.next_sequence + 1;
}

unfoldable pub clear : LogBuffer → LogBuffer
clear b = record b { entries = [] }

abbrev pub log_capacity : ℕ
log_capacity = 50

-- A line with how often it came in a row; the oldest line first. The lock is never poisoned.
abbrev pub AppLog : Type 0
AppLog = List (Text × ℕ)

-- `while guard.len() > LOG_CAPACITY { guard.pop_front(); }`
unfoldable pub shrink : AppLog → AppLog
shrink [] = []
shrink (x ∷ xs) =
    let rest = shrink xs in if ltb log_capacity (length (x ∷ xs)) then rest else x ∷ xs

-- The last entry counts one more if it has the line; otherwise a new entry follows it.
unfoldable pub bump_last : Text → AppLog → Option AppLog
bump_last line [] = none
bump_last line ((last, count) ∷ []) = if beq last line then some ((last, count + 1) ∷ []) else none
bump_last line (x ∷ y ∷ log) = elim (bump_last line (y ∷ log)) [
  | none ↦ none
  | some rest ↦ some (x ∷ rest)
]

unfoldable pub push_line : Text → AppLog → AppLog
push_line line log = elim (bump_last line log) [
  | some bumped ↦ bumped
  | none ↦ shrink (log ++ (line, 1) ∷ [])
]

abbrev show_line : Text × ℕ → Text
show_line (line, count) =
    if ltb 1 count then line ++ (lit " (x" ++ (decimal count ++ lit ")")) else line

unfoldable pub lines : AppLog → List Text
lines log = map show_line log
