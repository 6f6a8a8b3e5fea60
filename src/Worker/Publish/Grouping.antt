-- ===== src/Worker/Publish/Grouping.antt =====
-- The groups of `publish_envelope` in crates/republish-core/src/worker/mod.rs.
use netix_protocol_core.Prelude.{
  ◌≡◌, refl, sym, false, ◌||◌, List, [], ◌∷◌, ◌++◌, Option, none, some, arith, length,
  length-append, filter, Option-cases, Bool-cases, inl, inr, is_some, if◌then◌else◌,
}
use mathlib.Core.List.{append_assoc, append-nil}
use netix_protocol_core.Prelude.Eq.{beq, beq_iff, nat_eq, list_eq}
use netix_protocol_core.Prelude.Maps.{HashMap, get, insert, get-insert, contains}
use netix_protocol_core.Text.{Text}
use netix_protocol_core.Model.{PointSample}
use netix_protocol_core.Worker.Publish.{
  Groups, envelope_device_id, group_sample, group_samples, no_groups,
}

abbrev pub device_of : PointSample → Text
device_of sample = envelope_device_id sample.point

-- The samples of one device.
abbrev pub of_device : Text → List PointSample → List PointSample
of_device id samples = filter (λ s. beq (device_of s) id) samples

-- An empty list is no group.
abbrev pub as_group : List PointSample → Option (List PointSample)
as_group [] = none
as_group (x ∷ xs) = some (x ∷ xs)

abbrev pub DistinctTexts : List Text → Type 0
DistinctTexts [] = Unit
DistinctTexts (x ∷ xs) = (contains x xs ≡ false) × DistinctTexts xs

-- The groups of the samples seen so far.
pub record IsGrouping (seen : List PointSample) (g : Groups) : Type 0 where
  pub counted : g.queued ≡ length seen
  pub grouped : (id : Text) → get id g.groups ≡ as_group (of_device id seen)
  pub listed : (id : Text) → contains id g.order ≡ is_some (get id g.groups)
  pub distinct : DistinctTexts g.order

of_device-snoc :
    (id : Text) (seen : List PointSample) (x : PointSample)
    → of_device id (seen ++ x ∷ [])
      ≡ (if beq (device_of x) id then of_device id seen ++ x ∷ [] else of_device id seen)
of_device-snoc id [] x = ground arith
of_device-snoc id (s ∷ seen) x = ground (arith, of_device-snoc id seen x)

contains-snoc :
    (id : Text) (xs : List Text) (x : Text)
    → contains id (xs ++ x ∷ []) ≡ (beq x id || contains id xs)
unfolding contains
contains-snoc id [] x = ground arith
contains-snoc id (y ∷ ys) x = ground (arith, contains-snoc id ys x)

DistinctTexts-snoc :
    (xs : List Text) (x : Text)
    → contains x xs ≡ false
    → DistinctTexts xs
    → DistinctTexts (xs ++ x ∷ [])
unfolding contains
DistinctTexts-snoc [] x h d = (refl, tt)
DistinctTexts-snoc (y ∷ ys) x h d = (
  ground (arith, contains-snoc y ys x, beq_iff x y, beq_iff y x),
  DistinctTexts-snoc ys x (ground arith) d.1,
)

as_group-snoc :
    (group : List PointSample) (x : PointSample)
    → as_group (group ++ x ∷ []) ≡ some (group ++ x ∷ [])
as_group-snoc [] x = refl
as_group-snoc (y ∷ ys) x = refl

get-insert_group :
    (m : HashMap Text (List PointSample)) (seen : List PointSample) (x : PointSample) (id : Text)
    → get id m ≡ as_group (of_device id seen)
    → get id (insert (device_of x) (of_device (device_of x) seen ++ x ∷ []) m)
      ≡ as_group (of_device id (seen ++ x ∷ []))
get-insert_group m seen x id h =
    rw
      (
        get-insert (device_of x) id (of_device (device_of x) seen ++ x ∷ []) m,
        of_device-snoc id seen x,
      )
      (elim (Bool-cases (beq (device_of x) id)) [
        | inl same ↦
            rw same
              (rw ((beq_iff (device_of x) id).0 same) (sym (as_group-snoc (of_device id seen) x)))
        | inr other ↦ rw other h
      ])

-- A sample of a device that has no group, or that has one.
group_new :
    (seen : List PointSample) (x : PointSample) (g : Groups)
    → IsGrouping seen g
    → get (device_of x) g.groups ≡ none
    → IsGrouping (seen ++ x ∷ []) (group_sample x g)
group_new seen x g v e =
    let i = device_of x in
    let nothing : of_device i seen ≡ [] = ground (arith, v.grouped i) in
    unfold group_sample in
    (rw (e, group_sample)
      (record {
        counted = omega (arith, v.counted, length-append seen (x ∷ []));
        grouped = λ id. rw nothing at (get-insert_group g.groups seen x id (v.grouped id));
        listed = λ id.
            ground
              (arith, contains-snoc id g.order i, v.listed id, get-insert i id (x ∷ []) g.groups);
        distinct = DistinctTexts-snoc g.order i (ground (arith, v.listed i)) v.distinct;
      }))

group_old :
    (seen : List PointSample) (x : PointSample) (g : Groups) (group : List PointSample)
    → IsGrouping seen g
    → get (device_of x) g.groups ≡ some group
    → IsGrouping (seen ++ x ∷ []) (group_sample x g)
group_old seen x g group v e =
    let i = device_of x in
    let same : of_device i seen ≡ group = ground (arith, v.grouped i) in
    unfold group_sample in
    (rw (e, group_sample)
      (record {
        counted = omega (arith, v.counted, length-append seen (x ∷ []));
        grouped = λ id. rw same at (get-insert_group g.groups seen x id (v.grouped id));
        listed = λ id.
            ground (arith, v.listed id, get-insert i id (group ++ x ∷ []) g.groups, beq_iff i id);
        distinct = v.distinct;
      }))

group_sample-IsGrouping :
    (seen : List PointSample) (x : PointSample) (g : Groups)
    → IsGrouping seen g
    → IsGrouping (seen ++ x ∷ []) (group_sample x g)
group_sample-IsGrouping seen x g v = elim (Option-cases (get (device_of x) g.groups)) [
  | inl e ↦ group_new seen x g v e
  | inr (group, e) ↦ group_old seen x g group v e
]

group_samples-IsGrouping :
    (xs seen : List PointSample) (g : Groups)
    → IsGrouping seen g
    → IsGrouping (seen ++ xs) (group_samples xs g)
unfolding group_samples
group_samples-IsGrouping [] seen g v = rw append-nil v
group_samples-IsGrouping (x ∷ xs) seen g v = rw (← append_assoc seen (x ∷ []) xs) (
    group_samples-IsGrouping xs (seen ++ x ∷ []) (group_sample x g)
      (group_sample-IsGrouping seen x g v))

-- The groups partition the samples: each device of a sample is listed once, and has as its group
-- exactly its samples in the order of arrival; a listed device always has a group.
pub group_samples-IsGrouping_all :
    (samples : List PointSample) → IsGrouping samples (group_samples samples no_groups)
group_samples-IsGrouping_all samples = group_samples-IsGrouping samples [] no_groups (
    unfold get contains in
    (record { counted = refl; grouped = λ id. refl; listed = λ id. refl; distinct = tt }))
