-- ===== src/Worker/Devices/Instances.antt =====
-- `unique_device_instances` of crates/republish-core/src/worker/mod.rs.
use netix_protocol_core.Prelude.{
  ℕ, ◌+◌, Bool-cases, is_some_and, inl, inr, ◌≤◌, ◌<◌, ◌≡◌, refl, ◌∙◌, Bool, ◌&&◌, ◌||◌, List, [],
  ◌∷◌, arith, any, filter, filter_map, ◌==◌, ==_iff,
}
use netix_protocol_core.Prelude.Eq.{nat_eq}
use netix_protocol_core.Prelude.Maps.{contains}
use netix_protocol_core.Model.{PointConfig}
use netix_protocol_core.Worker.Devices.{
  device_instance, is_enabled, insert_ℕ, sort_ℕ, dedup, unique_device_instances,
}

-- The first element is not below a bound, and each is followed by greater ones only.
abbrev pub IsSorted : List ℕ → Type 0
IsSorted [] = Unit
IsSorted (x ∷ []) = Unit
IsSorted (x ∷ y ∷ xs) = (x ≤ y) × IsSorted (y ∷ xs)

abbrev pub IsIncreasing : List ℕ → Type 0
IsIncreasing [] = Unit
IsIncreasing (x ∷ []) = Unit
IsIncreasing (x ∷ y ∷ xs) = (x < y) × IsIncreasing (y ∷ xs)

insert_ℕ-IsSorted : (n : ℕ) (xs : List ℕ) → IsSorted xs → IsSorted (insert_ℕ n xs)
unfolding insert_ℕ
insert_ℕ-IsSorted n [] h = tt
insert_ℕ-IsSorted n (x ∷ []) h = ground arith
insert_ℕ-IsSorted n (x ∷ y ∷ xs) h = ground (arith, insert_ℕ-IsSorted n (y ∷ xs))

pub sort_ℕ-IsSorted : (xs : List ℕ) → IsSorted (sort_ℕ xs)
unfolding sort_ℕ
sort_ℕ-IsSorted [] = tt
sort_ℕ-IsSorted (x ∷ xs) = insert_ℕ-IsSorted x (sort_ℕ xs) (sort_ℕ-IsSorted xs)

contains-insert_ℕ : (d n : ℕ) (xs : List ℕ) → contains d (insert_ℕ n xs) ≡ (n == d || contains d xs)
unfolding contains insert_ℕ
contains-insert_ℕ d n [] = refl
contains-insert_ℕ d n (x ∷ xs) = ground (arith, contains-insert_ℕ d n xs)

pub contains-sort_ℕ : (d : ℕ) (xs : List ℕ) → contains d (sort_ℕ xs) ≡ contains d xs
unfolding contains sort_ℕ
contains-sort_ℕ d [] = refl
contains-sort_ℕ d (x ∷ xs) = ground (arith, contains-insert_ℕ d x (sort_ℕ xs), contains-sort_ℕ d xs)

pub contains-dedup : (d : ℕ) (xs : List ℕ) → contains d (dedup xs) ≡ contains d xs
unfolding contains dedup
contains-dedup d [] = refl
contains-dedup d (x ∷ []) = refl
contains-dedup d (x ∷ y ∷ xs) =
    ground (arith, contains-dedup d (y ∷ xs), ==_iff x y, ==_iff x d, ==_iff y d)

-- The first element of a deduplicated list is that of the list.
abbrev head_or : ℕ → List ℕ → ℕ
head_or d [] = d
head_or d (x ∷ xs) = x

head-dedup : (d x : ℕ) (xs : List ℕ) → head_or d (dedup (x ∷ xs)) ≡ x
unfolding dedup
head-dedup d x [] = refl
head-dedup d x (y ∷ xs) = ground (arith, head-dedup d y xs, ==_iff x y)

cons-IsIncreasing :
    (x : ℕ) (xs : List ℕ) → IsIncreasing xs → x < head_or (x + 1) xs → IsIncreasing (x ∷ xs)
cons-IsIncreasing x [] h l = tt
cons-IsIncreasing x (y ∷ ys) h l = (l, h)

pub dedup-IsIncreasing : (xs : List ℕ) → IsSorted xs → IsIncreasing (dedup xs)
unfolding dedup
dedup-IsIncreasing [] h = tt
dedup-IsIncreasing (x ∷ []) h = tt
dedup-IsIncreasing (x ∷ y ∷ xs) h = elim (Bool-cases (x == y)) [
  | inl same ↦ rw same (dedup-IsIncreasing (y ∷ xs) h.1)
  | inr other ↦ rw other (
      cons-IsIncreasing x (dedup (y ∷ xs)) (dedup-IsIncreasing (y ∷ xs) h.1)
        (ground (arith, head-dedup (x + 1) y xs)))
]

-- Whether an enabled point of the list is on the device.
abbrev has_device : ℕ → List PointConfig → Bool
has_device d points =
    any (λ (p : PointConfig). p.enabled && is_some_and (device_instance p) (λ i. i == d)) points

contains-instances :
    (d : ℕ) (points : List PointConfig)
    → contains d (filter_map device_instance (filter is_enabled points)) ≡ has_device d points
unfolding contains
contains-instances d [] = refl
contains-instances d (p ∷ points) = ground (arith, contains-instances d points)

-- The devices that are asked for are strictly increasing, so none twice, and exactly the devices of
-- the enabled points.
unique_device_instances_lem :
    (points : List PointConfig)
    → IsIncreasing (unique_device_instances points)
      × ((d : ℕ) → contains d (unique_device_instances points) ≡ has_device d points)
unfolding unique_device_instances
unique_device_instances_lem points =
    let found : List ℕ = filter_map device_instance (filter is_enabled points) in
    (
      dedup-IsIncreasing (sort_ℕ found) (sort_ℕ-IsSorted found),
      λ d. contains-dedup d (sort_ℕ found) ∙ contains-sort_ℕ d found ∙ contains-instances d points,
    )
