-- ===== src/Worker/Publish/Partition.antt =====
-- The samples device by device, for `publish_envelope` of crates/republish-core/src/worker/mod.rs.
use netix_protocol_core.Prelude.{
  ℕ, suc, ◌+◌, ◌≡◌, refl, ap, true, false, List, [], ◌∷◌, ◌++◌, arith, length, All, length-append,
  is_some, unwrap_or, if◌then◌else◌,
}
use netix_protocol_core.Prelude.Eq.{beq, beq_iff, beq_refl, nat_eq, list_eq}
use netix_protocol_core.Prelude.Maps.{HashMap, get, contains}
use netix_protocol_core.Text.{Text}
use netix_protocol_core.Model.{PointSample}
use netix_protocol_core.Worker.Publish.Grouping.{DistinctTexts, device_of, of_device, as_group}

-- The samples of the listed devices, device by device.
abbrev pub by_device : List Text → List PointSample → List PointSample
by_device [] samples = []
by_device (id ∷ ids) samples = of_device id samples ++ by_device ids samples

abbrev pub of_groups : HashMap Text (List PointSample) → List Text → List PointSample
of_groups groups [] = []
of_groups groups (id ∷ ids) = unwrap_or (get id groups) [] ++ of_groups groups ids

unwrap-as_group : (l : List PointSample) → unwrap_or (as_group l) [] ≡ l
unwrap-as_group [] = refl
unwrap-as_group (x ∷ xs) = refl

pub of_groups-eq-by_device :
    (groups : HashMap Text (List PointSample)) (samples : List PointSample) (ids : List Text)
    → ((id : Text) → get id groups ≡ as_group (of_device id samples))
    → of_groups groups ids ≡ by_device ids samples
of_groups-eq-by_device groups samples [] h = refl
of_groups-eq-by_device groups samples (id ∷ ids) h =
    rw (h id, unwrap-as_group (of_device id samples))
      (ap (λ r. of_device id samples ++ r) (of_groups-eq-by_device groups samples ids h))

abbrev occurrences : Text → List Text → ℕ
occurrences i [] = 0
occurrences i (id ∷ ids) = let rest = occurrences i ids in if beq i id then suc rest else rest

occurrences_absent : (i : Text) (ids : List Text) → contains i ids ≡ false → occurrences i ids ≡ 0
unfolding contains
occurrences_absent i [] h = refl
occurrences_absent i (id ∷ ids) h =
    ground (arith, occurrences_absent i ids, beq_iff i id, beq_iff id i)

occurrences_distinct :
    (i : Text) (ids : List Text) → DistinctTexts ids → contains i ids ≡ true → occurrences i ids ≡ 1
unfolding contains
occurrences_distinct i [] d h = cc
occurrences_distinct i (id ∷ ids) d h =
    ground
      (arith, occurrences_distinct i ids, occurrences_absent id ids d.0, beq_iff i id, beq_iff id i)

length-by_device_cons :
    (x : PointSample) (xs : List PointSample) (ids : List Text)
    → length (by_device ids (x ∷ xs)) ≡ length (by_device ids xs) + occurrences (device_of x) ids
length-by_device_cons x xs [] = omega arith
length-by_device_cons x xs (id ∷ ids) = ground (
  arith,
  length-by_device_cons x xs ids,
  length-append (of_device id (x ∷ xs)) (by_device ids (x ∷ xs)),
  length-append (of_device id xs) (by_device ids xs),
)

-- If the devices are listed once and cover the samples, no sample is lost and none is doubled.
pub length-by_device :
    (xs : List PointSample) (ids : List Text)
    → DistinctTexts ids
    → All (λ x. contains (device_of x) ids ≡ true) xs
    → length (by_device ids xs) ≡ length xs
length-by_device [] ids d a = none_left ids
  where
    none_left : (is : List Text) → length (by_device is []) ≡ 0
    none_left [] = refl
    none_left (i ∷ is) = none_left is
length-by_device (x ∷ xs) ids d a = omega (
  arith,
  length-by_device_cons x xs ids,
  length-by_device xs ids d a.1,
  occurrences_distinct (device_of x) ids d a.0,
)

pub covers :
    (xs samples : List PointSample) (ids : List Text)
    → ((id : Text) → is_some (as_group (of_device id xs)) ≡ true → contains id ids ≡ true)
    → All (λ x. contains (device_of x) ids ≡ true) xs
covers [] samples ids h = tt
covers (x ∷ xs) samples ids h = (
  h (device_of x) (rw (beq_refl (device_of x))),
  covers xs samples ids λ id e. h id (grows id (of_device id xs) e),
)
  where
    grows :
        (id : Text) (l : List PointSample)
        → is_some (as_group l) ≡ true
        → is_some (as_group (if beq (device_of x) id then x ∷ l else l)) ≡ true
    grows id l e = ground arith
