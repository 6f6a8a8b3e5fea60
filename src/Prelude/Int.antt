-- ===== src/Prelude/Int.antt =====
-- `i64` values, in range, under the library's names; the program only takes maxima of them.
use Prim.Native.Nat.{ℕ, min, max}

-- `negsuc n` is -(n + 1).
pub data ℤ : Type 0 where
  pos : ℕ → ℤ
  negsuc : ℕ → ℤ

-- `a.max(b)`
unfoldable pub max_ℤ : ℤ → ℤ → ℤ
max_ℤ (pos a) (pos b) = pos (max a b)
max_ℤ (pos a) (negsuc b) = pos a
max_ℤ (negsuc a) (pos b) = pos b
max_ℤ (negsuc a) (negsuc b) = negsuc (min a b)
