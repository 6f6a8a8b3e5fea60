-- ===== src/Bacnet/Refresh/Ranges.antt =====
-- The ranges that crates/proto-bacnet/src/republish/refresh.rs asks for.
use netix_protocol_core.Prelude.{
  ℕ, zero, suc, ◌≤◌, ◌≡◌, refl, ◌∙◌, ◌⊎◌, inl, inr, Bool, true, false, ◌&&◌, ◌||◌, List, [], ◌∷◌,
  any, drop, leb, ◌==◌, ==_iff, arith, Bool-cases,
}
use netix_protocol_core.Prelude.Eq.{nat_eq}
use netix_protocol_core.Prelude.Maps.{contains}
use netix_protocol_core.Worker.Devices.{sort_ℕ, dedup}
use netix_protocol_core.Worker.Devices.Instances.{
  IsIncreasing, sort_ℕ-IsSorted, dedup-IsIncreasing, contains-sort_ℕ, contains-dedup,
}
use netix_protocol_core.Bacnet.Refresh.{
  count, last_of, chunk_ranges, normalize_device_instances, device_instance_ranges,
}

abbrev pub within : ℕ → ℕ × ℕ → Bool
within d (low, high) = leb low d && leb d high

or_left : (a b : Bool) → a ≡ true → (a || b) ≡ true
or_left true b h = refl
or_left false b h = ground (arith, h)

or_right : (a b : Bool) → b ≡ true → (a || b) ≡ true
or_right true b h = refl
or_right false b h = h

tail-IsIncreasing : (x : ℕ) (xs : List ℕ) → IsIncreasing (x ∷ xs) → IsIncreasing xs
tail-IsIncreasing x [] h = tt
tail-IsIncreasing x (y ∷ xs) h = h.1

drop-IsIncreasing : (n : ℕ) (xs : List ℕ) → IsIncreasing xs → IsIncreasing (drop n xs)
drop-IsIncreasing zero xs h = h
drop-IsIncreasing (suc n) [] h = tt
drop-IsIncreasing (suc n) (x ∷ xs) h = drop-IsIncreasing n xs (tail-IsIncreasing x xs h)

count-drop : (n : ℕ) (xs : List ℕ) → count (drop n xs) ≤ count xs
count-drop zero xs = omega arith
count-drop (suc n) [] = omega arith
count-drop (suc n) (x ∷ xs) = omega (arith, count-drop n xs)

first_le : (n x : ℕ) (xs : List ℕ) → IsIncreasing (x ∷ xs) → x ≤ last_of x n xs
first_le zero x xs h = omega arith
first_le (suc n) x [] h = omega arith
first_le (suc n) x (y ∷ xs) h = omega (arith, h.0, first_le n y xs h.1)

-- An element behind `x` lies in the chunk of `x`, or behind the chunk.
chunk-cases :
    (d n x : ℕ) (xs : List ℕ)
    → IsIncreasing (x ∷ xs)
    → contains d xs ≡ true
    → ((x ≤ d) × (d ≤ last_of x n xs)) ⊎ (contains d (drop n xs) ≡ true)
unfolding contains
chunk-cases d zero x xs h c = inr c
chunk-cases d (suc n) x [] h c = ground (arith, c)
chunk-cases d (suc n) x (y ∷ xs) h c = elim (Bool-cases (y == d)) [
  | inl e ↦
      let same : y ≡ d = (==_iff y d).0 e in
      inl (omega (arith, h.0, same), omega (arith, same, first_le n y xs h.1))
  | inr e ↦
      let rest : contains d xs ≡ true = ground (arith, c, e) in
      elim (chunk-cases d n y xs h.1 rest) [
        | inl (lo, hi) ↦ inl (omega (arith, h.0, lo), hi)
        | inr later ↦ inr later
      ]
]

chunk_ranges-within :
    (d fuel : ℕ) (xs : List ℕ)
    → IsIncreasing xs
    → count xs ≤ fuel
    → contains d xs ≡ true
    → any (within d) (chunk_ranges fuel xs) ≡ true
unfolding contains chunk_ranges
chunk_ranges-within d zero [] h f c = ground (arith, c)
chunk_ranges-within d zero (x ∷ xs) h f c = ground (arith, f)
chunk_ranges-within d (suc fuel) [] h f c = ground (arith, c)
chunk_ranges-within d (suc fuel) (x ∷ xs) h f c =
    let later : contains d (drop 24 xs) ≡ true
        → any (within d) (chunk_ranges fuel (drop 24 xs)) ≡ true =
      chunk_ranges-within d fuel (drop 24 xs) (drop-IsIncreasing 24 xs (tail-IsIncreasing x xs h))
        (omega (arith, f, count-drop 24 xs)) in
    let last = last_of x 24 xs in
    elim (Bool-cases (x == d)) [
      | inl e ↦
          let same : x ≡ d = (==_iff x d).0 e in
          or_left (within d (x, last)) _
            (within-true x last (omega (arith, same)) (omega (arith, same, first_le 24 x xs h)))
      | inr e ↦
          let rest : contains d xs ≡ true = ground (arith, c, e) in
          elim (chunk-cases d 24 x xs h rest) [
            | inl (lo, hi) ↦ or_left (within d (x, last)) _ (within-true x last lo hi)
            | inr more ↦ or_right (within d (x, last)) _ (later more)
          ]
    ]
  where
    within-true : (low high : ℕ) → low ≤ d → d ≤ high → within d (low, high) ≡ true
    within-true low high lo hi = ground (arith, lo, hi)

-- Every unresolved device lies in one of the ranges that a targeted pass asks for.
pub device_instance_ranges-within :
    (instances : List ℕ) (d : ℕ)
    → contains d instances ≡ true
    → any (within d) (device_instance_ranges instances) ≡ true
unfolding device_instance_ranges normalize_device_instances
device_instance_ranges-within instances d c =
    let xs = dedup (sort_ℕ instances) in
    chunk_ranges-within d (count xs) xs
      (dedup-IsIncreasing (sort_ℕ instances) (sort_ℕ-IsSorted instances)) (omega arith)
      (contains-dedup d (sort_ℕ instances) ∙ contains-sort_ℕ d instances ∙ c)
