-- ===== src/Bacnet/Poll/Pigeonhole.antt =====
-- Sets of numbers below a bound, for the requests that crates/proto-bacnet/src/republish/mod.rs has seen.
use netix_protocol_core.Prelude.{
  ℕ, zero, suc, ◌≤◌, ◌<◌, ◌≡◌, refl, sym, ap, ◌∙◌, Bool, true, false, not, ◌&&◌, List, [], ◌∷◌,
  length, ◌==◌, ==_iff, arith, Bool-cases, inl, inr,
}
use netix_protocol_core.Prelude.Eq.{nat_eq}
use netix_protocol_core.Prelude.Maps.{HashSet, contains, add, discard, contains-discard}

abbrev pub IsDistinct : List ℕ → Type 0
IsDistinct [] = Unit
IsDistinct (x ∷ xs) = (contains x xs ≡ false) × IsDistinct xs

pub add-IsDistinct : (i : ℕ) (s : HashSet ℕ) → IsDistinct s → IsDistinct (add i s)
unfolding add
add-IsDistinct i s h = elim (Bool-cases (contains i s)) [ inl e ↦ rw (e) h | inr e ↦ rw (e) (e, h) ]

discard-IsDistinct : (n : ℕ) (xs : List ℕ) → IsDistinct xs → IsDistinct (discard n xs)
unfolding discard
discard-IsDistinct n [] h = tt
discard-IsDistinct n (x ∷ xs) h = elim (Bool-cases (x == n)) [
  | inl e ↦ rw (e) (discard-IsDistinct n xs h.1)
  | inr e ↦
      let absent : contains x (discard n xs) ≡ false =
        ground (arith, contains-discard n x xs, h.0) in
      rw (e) (absent, discard-IsDistinct n xs h.1)
]

length-discard :
    (n : ℕ) (xs : List ℕ)
    → (contains n xs ≡ false → length (discard n xs) ≡ length xs)
      × (IsDistinct xs → length xs ≤ suc (length (discard n xs)))
unfolding discard contains
length-discard n [] = (λ h. refl, λ h. omega arith)
length-discard n (x ∷ xs) =
    let (absent, rest) = length-discard n xs in
    elim (Bool-cases (x == n)) [
      | inl e ↦
          let same : x ≡ n = (==_iff x n).0 e in
          rw (e) (
            λ h. ground (arith, h),
            λ h. omega (arith, absent (ap (λ m. contains m xs) (sym same) ∙ h.0)),
          )
      | inr e ↦ rw (e) (λ h. ap suc (absent h), λ h. omega (arith, rest h.1))
    ]

both_true : (a b : Bool) → (not a && b) ≡ true → (a ≡ false) × (b ≡ true)
both_true a b h = ground (arith, h)

contains_first : (x : ℕ) (xs : List ℕ) → contains x (x ∷ xs) ≡ true
unfolding contains
contains_first x xs = ground arith

below_first :
    (i j : ℕ) (xs : List ℕ) (n : ℕ)
    → i < n
    → (contains j xs ≡ true → j < n)
    → contains j (i ∷ xs) ≡ true
    → j < n
unfolding contains
below_first i j xs n small h c = elim (Bool-cases (i == j)) [
  | inl e ↦ omega (arith, (==_iff i j).0 e, small)
  | inr e ↦ h (rw (e) at c)
]

length-IsDistinct :
    (n : ℕ) (xs : List ℕ) → IsDistinct xs → ((i : ℕ) → contains i xs ≡ true → i < n) → length xs ≤ n
length-IsDistinct n [] d h = omega arith
length-IsDistinct zero (x ∷ xs) d h =
    let here : contains x (x ∷ xs) ≡ true = contains_first x xs in omega (arith, h x here)
length-IsDistinct (suc n) (x ∷ xs) d h =
    let below : (i : ℕ) → contains i (discard n (x ∷ xs)) ≡ true → i < n = λ i c.
      let both : (not (n == i) && contains i (x ∷ xs)) ≡ true =
        sym (contains-discard n i (x ∷ xs)) ∙ c in
      let (other, inside) = both_true (n == i) (contains i (x ∷ xs)) both in
      ground (arith, other, h i inside) in
    omega (
      arith,
      (length-discard n (x ∷ xs)).1 d,
      length-IsDistinct n (discard n (x ∷ xs)) (discard-IsDistinct n (x ∷ xs) d) below,
    )

-- A set of as many numbers below `n` as there are has each of them.
pub pigeonhole :
    (n : ℕ) (xs : List ℕ)
    → IsDistinct xs
    → ((i : ℕ) → contains i xs ≡ true → i < n)
    → length xs ≡ n
    → (i : ℕ) → i < n
    → contains i xs ≡ true
pigeonhole n xs d h full i small = elim (Bool-cases (contains i xs)) [
  | inl e ↦ e
  | inr e ↦
      let more : (j : ℕ) → contains j (i ∷ xs) ≡ true → j < n =
        λ j c. below_first i j xs n small (h j) c in
      let most : length (i ∷ xs) ≤ n = length-IsDistinct n (i ∷ xs) (e, d) more in
      let no : ⊥ = omega (arith, most, full) in elim no [ ]
]
