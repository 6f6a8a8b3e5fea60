-- ===== src/Import/Merging.antt =====
-- crates/republish-core/src/import.rs: `merge_imported_points` as a whole.
use netix_protocol_core.Prelude.{
  ◌+◌, ◌≤◌, ◌≡◌, refl, sym, ap, ◌∙◌, true, false, ◌||◌, List, [], ◌∷◌, ◌++◌, some, arith, length,
  length-map, Bool-cases, inl, inr,
}
use mathlib.Core.List.{append_assoc, append-nil}
use netix_protocol_core.Prelude.Eq.{beq_refl, beq_iff, nat_eq, list_eq, pair_eq}
use netix_protocol_core.Prelude.Maps.{contains}
use netix_protocol_core.Model.{PointConfig}
use netix_protocol_core.Model.Identity.{PointIdentity, from_point}
use netix_protocol_core.Import.{MergeImportResult, start, result_of, merge_imported_points}
use netix_protocol_core.Import.Identities.{
  identities, fresh, IsIndex-start, merge_points-MergedAll, contains-append,
}

-- What a merge returns.
pub record IsMerge (existing imported : List PointConfig) (r : MergeImportResult) : Type 0 where
  pub ids :
      identities r.points ≡ identities existing ++ fresh (identities existing) (identities imported)
  pub counted : length existing + r.added ≡ length r.points
  pub changes : r.added + r.updated ≤ length imported

-- A merge always returns, no index being out of range: the points keep the existing identities in
-- their order, followed by each imported identity that is new, once, in the order of its first
-- import. `added` is their number, and every import adds or updates at most one point.
pub merge_imported_points-IsMerge :
    (existing imported : List PointConfig)
    → (r : MergeImportResult) × (merge_imported_points existing imported ≡ some r)
      × IsMerge existing imported r
unfolding merge_imported_points
merge_imported_points-IsMerge existing imported =
    let (t, e, m) = merge_points-MergedAll imported (start existing) (IsIndex-start existing) in
    (
      record { points = t.points; added = t.added; updated = t.updated },
      rw (e, result_of),
      record {
        ids = m.ids;
        counted = omega (arith, m.counted);
        changes = omega (arith, m.changes);
      },
    )

abbrev pub DistinctIds : List PointIdentity → Type 0
DistinctIds [] = Unit
DistinctIds (x ∷ xs) = (contains x xs ≡ false) × DistinctIds xs

contains-append_both :
    (a : PointIdentity) (xs ys : List PointIdentity)
    → contains a (xs ++ ys) ≡ (contains a xs || contains a ys)
unfolding contains
contains-append_both a [] ys = refl
contains-append_both a (x ∷ xs) ys = ground (arith, contains-append_both a xs ys)

-- A new identity is none of those seen before.
fresh_unseen :
    (a : PointIdentity) (seen is : List PointIdentity)
    → contains a seen ≡ true
    → contains a (fresh seen is) ≡ false
unfolding contains
fresh_unseen a seen [] h = refl
fresh_unseen a seen (i ∷ is) h = ground (
  arith,
  fresh_unseen a seen is,
  fresh_unseen a (seen ++ i ∷ []) is,
  contains-append a seen i,
  beq_iff i a,
)

fresh-DistinctIds : (seen is : List PointIdentity) → DistinctIds (fresh seen is)
fresh-DistinctIds seen [] = tt
fresh-DistinctIds seen (i ∷ is) = elim (Bool-cases (contains i seen)) [
  | inl old ↦ rw old (fresh-DistinctIds seen is)
  | inr new ↦ rw new (
    fresh_unseen i (seen ++ i ∷ []) is (ground (arith, contains-append i seen i, beq_refl i)),
    fresh-DistinctIds (seen ++ i ∷ []) is,
  )
]

DistinctIds-append :
    (xs ys : List PointIdentity)
    → DistinctIds xs
    → DistinctIds ys
    → ((a : PointIdentity) → contains a xs ≡ true → contains a ys ≡ false)
    → DistinctIds (xs ++ ys)
DistinctIds-append [] ys dx dy apart = dy
DistinctIds-append (x ∷ xs) ys dx dy apart = (
  ground (arith, contains-append_both x xs ys, apart x here),
  DistinctIds-append xs ys dx.1 dy later,
)
  where
    here : contains x (x ∷ xs) ≡ true
    here = unfold contains in (ground (arith, beq_refl x))

    later : (a : PointIdentity) → contains a xs ≡ true → contains a ys ≡ false
    later a h = apart a (unfold contains in (ground arith))

-- If the existing points have distinct identities, so have the merged ones, also where one identity
-- is imported many times.
pub merge-DistinctIds :
    (existing imported : List PointConfig) {r : MergeImportResult}
    → merge_imported_points existing imported ≡ some r
    → DistinctIds (identities existing)
    → DistinctIds (identities r.points)
merge-DistinctIds existing imported {r} e d =
    let (t, f, m) = merge_imported_points-IsMerge existing imported in
    let same : t ≡ r = cc in
    rw (← same, m.ids)
      (DistinctIds-append (identities existing) (fresh (identities existing) (identities imported))
        d (fresh-DistinctIds (identities existing) (identities imported))
        (λ a. fresh_unseen a (identities existing) (identities imported)))

fresh_known :
    (known seen is : List PointIdentity)
    → ((a : PointIdentity) → contains a (seen ++ fresh seen is) ≡ true → contains a known ≡ true)
    → fresh known is ≡ []
fresh_known known seen [] h = refl
fresh_known known seen (i ∷ is) h = elim (Bool-cases (contains i seen)) [
  | inl old ↦
      rw (h i (rw (contains-append_both i seen (fresh seen (i ∷ is)), old)))
        (fresh_known known seen is (λ a e. h a (rw old e)))
  | inr new ↦ rw (h i (rw (contains-append_both i seen (fresh seen (i ∷ is)), new) (first i _))) (
      fresh_known known (seen ++ i ∷ []) is
        (λ a e. h a (rw new (rw (append_assoc seen (i ∷ []) (fresh (seen ++ i ∷ []) is)) at e))))
]
  where
    first : (a : PointIdentity) (r : List PointIdentity) → contains a (a ∷ r) ≡ true
    first a r = unfold contains in (ground (arith, beq_refl a))

-- Importing the same points a second time adds none.
merge_again :
    (existing imported : List PointConfig) {r s : MergeImportResult}
    → merge_imported_points existing imported ≡ some r
    → merge_imported_points r.points imported ≡ some s
    → (s.added ≡ 0) × (identities s.points ≡ identities r.points)
merge_again existing imported {r} {s} e f =
    let (r', e', m) = merge_imported_points-IsMerge existing imported in
    let (s', f', n) = merge_imported_points-IsMerge r.points imported in
    let r_same : r' ≡ r = cc in
    let s_same : s' ≡ s = cc in
    let ids : identities r.points
        ≡ identities existing ++ fresh (identities existing) (identities imported) =
      rw (← r_same) m.ids in
    let none_new : fresh (identities r.points) (identities imported) ≡ [] =
      fresh_known (identities r.points) (identities existing) (identities imported)
        (λ a h. rw ids h) in
    let kept : identities s.points ≡ identities r.points =
      rw (← s_same, n.ids, none_new) (append-nil (identities r.points)) in
    let lengths : length s.points ≡ length r.points =
      sym (length-map from_point s.points) ∙ ap length kept ∙ length-map from_point r.points in
    (ground (arith, n.counted, s_same, lengths), kept)
