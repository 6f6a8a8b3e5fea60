-- ===== src/Simulator/Metrics.antt =====
-- crates/sim-core/src/app/metrics.rs: the counters of a simulator. A lock is never poisoned, since no
-- holder panics; of the last client its name is kept, not the instant. Counters wrap around at 64 bits.
use netix_protocol_core.Prelude.{
  ℕ, ◌+◌, ◌%◌, ◌≡◌, refl, Bool, false, List, [], ◌∷◌, Option, none, some, arith, if◌then◌else◌,
}
use netix_protocol_core.Text.{Text}
use netix_protocol_core.Model.Identity.{text_leb, text_eqb}

abbrev pub u64 : ℕ
u64 = 18_446_744_073_709_551_616

pub record AppMetrics : Type 0 where
  pub requests : ℕ
  pub errors : ℕ
  pub listening : Bool
  pub named : List (Text × ℕ)
  pub last_client : Option Text

abbrev pub new_metrics : AppMetrics
new_metrics = record { requests = 0; errors = 0; listening = false; named = []; last_client = none }

-- `*named.entry(kind).or_insert(0) += 1`, the entries in the order of their kinds
unfoldable bump : Text → List (Text × ℕ) → List (Text × ℕ)
bump kind [] = (kind, 1) ∷ []
bump kind ((k, n) ∷ m) =
    let rest = bump kind m in
    if text_eqb k kind
    then (k, (n + 1) % u64) ∷ m
    else if text_leb kind k
    then (kind, 1) ∷ (k, n) ∷ m
    else (k, n) ∷ rest

unfoldable set_last_client : Text → AppMetrics → AppMetrics
set_last_client client m = record m { last_client = some client }

unfoldable pub record_request : Text → Option Text → AppMetrics → AppMetrics
unfolding bump set_last_client
record_request kind client m =
    let counted = record m { requests = (m.requests + 1) % u64; named = bump kind m.named } in
    elim client [ none ↦ counted | some c ↦ set_last_client c counted ]

unfoldable pub record_error : AppMetrics → AppMetrics
record_error m = record m { errors = (m.errors + 1) % u64 }

unfoldable set_listening : Bool → AppMetrics → AppMetrics
set_listening listening m = record m { listening = listening }

-- What changes the counters.
pub data Recorded : Type 0 where
  request : Text → Option Text → Recorded
  failure : Recorded
  listens : Bool → Recorded
  seen : Text → Recorded

abbrev apply : Recorded → AppMetrics → AppMetrics
apply (Recorded.request kind client) m = record_request kind client m
apply Recorded.failure m = record_error m
apply (Recorded.listens b) m = set_listening b m
apply (Recorded.seen client) m = set_last_client client m

abbrev apply_all : List Recorded → AppMetrics → AppMetrics
apply_all [] m = m
apply_all (e ∷ es) m = apply_all es (apply e m)

abbrev pub total : List (Text × ℕ) → ℕ
total [] = 0
total ((k, n) ∷ m) = n + total m

total-bump : (kind : Text) (m : List (Text × ℕ)) → total (bump kind m) % u64 ≡ (total m + 1) % u64
unfolding bump
total-bump kind [] = refl
total-bump kind ((k, n) ∷ m) = ground (arith, total-bump kind m)

-- The counts by kind add up to the number of requests, modulo 2^64.
abbrev IsBalanced : AppMetrics → Type 0
IsBalanced m = m.requests ≡ total m.named % u64

record_request-IsBalanced :
    (kind : Text) (client : Option Text) (m : AppMetrics)
    → IsBalanced m
    → IsBalanced (record_request kind client m)
unfolding record_request set_last_client
record_request-IsBalanced kind none m h = omega (arith, h, total-bump kind m.named)
record_request-IsBalanced kind (some c) m h = omega (arith, h, total-bump kind m.named)

apply_all-IsBalanced :
    (es : List Recorded) (m : AppMetrics) → IsBalanced m → IsBalanced (apply_all es m)
unfolding record_error set_listening set_last_client
apply_all-IsBalanced [] m h = h
apply_all-IsBalanced (Recorded.request kind client ∷ es) m h =
    apply_all-IsBalanced es (record_request kind client m)
      (record_request-IsBalanced kind client m h)
apply_all-IsBalanced (Recorded.failure ∷ es) m h = apply_all-IsBalanced es (record_error m) h
apply_all-IsBalanced (Recorded.listens b ∷ es) m h = apply_all-IsBalanced es (set_listening b m) h
apply_all-IsBalanced (Recorded.seen c ∷ es) m h = apply_all-IsBalanced es (set_last_client c m) h

-- In any sequence of records from the fresh counters on, the counts by kind add up to the number of
-- requests, modulo 2^64.
named-apply_all :
    (es : List Recorded)
    → (apply_all es new_metrics).requests ≡ total (apply_all es new_metrics).named % u64
named-apply_all es = apply_all-IsBalanced es new_metrics refl
