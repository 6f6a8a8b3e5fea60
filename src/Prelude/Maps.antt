-- ===== src/Prelude/Maps.antt =====
-- `HashMap` and `HashSet` over a key with equality, as association lists and lists.
-- The order of the entries stands for the unspecified order of iteration.
use mathlib.Core.Path.{◌≡◌, refl}
use mathlib.Core.Bool.{Bool, false, ◌||◌, ◌&&◌, not}
use mathlib.Core.List.{List, [], ◌∷◌}
use mathlib.Core.Option.{Option, none, some}
use native.Mathlib.Omega.{arith}
use netix_protocol_core.Prelude.Tests.{if◌then◌else◌}
use netix_protocol_core.Prelude.Eq.{Eq}

abbrev pub HashMap {ℓ} : Type ℓ → Type ℓ → Type ℓ
HashMap K V = List (K × V)

abbrev pub HashSet {ℓ} : Type ℓ → Type ℓ
HashSet K = List K

module _ {ℓ} {K : Type ℓ} ⦃e : Eq K⦄ where
  unfoldable pub contains : K → HashSet K → Bool
  contains k [] = false
  contains k (x ∷ xs) = e.beq x k || contains k xs

  unfoldable pub add : K → HashSet K → HashSet K
  unfolding contains
  add k s = if contains k s then s else k ∷ s

  unfoldable pub discard : K → HashSet K → HashSet K
  discard k [] = []
  discard k (x ∷ xs) = let rest = discard k xs in if e.beq x k then rest else x ∷ rest

  pub contains-add : (k j : K) (s : HashSet K) → contains j (add k s) ≡ (e.beq k j || contains j s)
  unfolding add contains
  contains-add k j s = ground (arith, e.beq_iff k j)

  pub contains-discard :
      (k j : K) (s : HashSet K) → contains j (discard k s) ≡ (not (e.beq k j) && contains j s)
  unfolding discard contains
  contains-discard k j [] = ground arith
  contains-discard k j (x ∷ xs) =
      ground (arith, contains-discard k j xs, e.beq_iff x k, e.beq_iff x j, e.beq_iff k j)

module _ {ℓ} {K V : Type ℓ} ⦃e : Eq K⦄ where
  unfoldable pub get : K → HashMap K V → Option V
  get k [] = none
  get k ((j, v) ∷ m) = if e.beq j k then some v else get k m

  unfoldable pub insert : K → V → HashMap K V → HashMap K V
  insert k v [] = (k, v) ∷ []
  insert k v ((j, w) ∷ m) = if e.beq j k then (k, v) ∷ m else (j, w) ∷ insert k v m

  unfoldable pub remove : K → HashMap K V → HashMap K V
  remove k [] = []
  remove k ((j, w) ∷ m) = let rest = remove k m in if e.beq j k then rest else (j, w) ∷ rest

  pub get-insert :
      (k j : K) (v : V) (m : HashMap K V)
      → get j (insert k v m) ≡ (if e.beq k j then some v else get j m)
  unfolding get insert
  get-insert k j v [] = refl
  get-insert k j v ((i, w) ∷ m) =
      ground (arith, e.beq_iff k j, e.beq_iff i k, e.beq_iff i j, get-insert k j v m)

  pub get-remove :
      (k j : K) (m : HashMap K V) → get j (remove k m) ≡ (if e.beq k j then none else get j m)
  unfolding get remove
  get-remove k j [] = ground arith
  get-remove k j ((i, w) ∷ m) =
      ground (arith, e.beq_iff k j, e.beq_iff i k, e.beq_iff i j, get-remove k j m)

  -- `entry(k).or_default()` followed by an update of the value
  unfoldable pub update_or : K → V → (V → V) → HashMap K V → HashMap K V
  unfolding get insert
  update_or k d f m = elim (get k m) [ none ↦ insert k (f d) m | some v ↦ insert k (f v) m ]

  -- `if let Some(v) = get_mut(k) { f(v) }`
  unfoldable pub update : K → (V → V) → HashMap K V → HashMap K V
  unfolding get insert
  update k f m = elim (get k m) [ none ↦ m | some v ↦ insert k (f v) m ]
