-- ===== src/Import/Identities.antt =====
-- crates/republish-core/src/import.rs: the index of the merge, and the identities of its points.
use netix_protocol_core.Prelude.{
  ℕ, zero, suc, ◌+◌, ◌≤◌, ◌≡◌, refl, sym, ap, ◌∙◌, ◌||◌, List, [], ◌∷◌, ◌++◌, map, none, some,
  arith, length, get_elem?, set, is_some, length-set, length-append, length-map, Option-cases,
  Bool-cases, inl, inr, if◌then◌else◌,
}
use mathlib.Core.List.{append_assoc, append-nil, map-append}
use netix_protocol_core.Prelude.Eq.{beq, beq_iff, nat_eq, list_eq, pair_eq}
use netix_protocol_core.Prelude.Maps.{HashMap, get, insert, get-insert, contains}
use netix_protocol_core.Model.{PointConfig}
use netix_protocol_core.Model.Identity.{PointIdentity, from_point}
use netix_protocol_core.Import.{
  Merge, index_points, relabel, update_existing, append_point, update_at, merge_point, merge_points,
  start,
}

abbrev pub identities : List PointConfig → List PointIdentity
identities points = map from_point points

-- The identities of a list that are not among those seen before, each once.
abbrev pub fresh : List PointIdentity → List PointIdentity → List PointIdentity
fresh seen [] = []
fresh seen (i ∷ is) =
    let rest = fresh seen is in
    let more = i ∷ fresh (seen ++ i ∷ []) is in if contains i seen then rest else more

get_elem?-append_old :
    (xs : List PointIdentity) (y : PointIdentity) (i : ℕ) {x : PointIdentity}
    → get_elem? xs i ≡ some x
    → get_elem? (xs ++ y ∷ []) i ≡ some x
get_elem?-append_old [] y i h = cc
get_elem?-append_old (x ∷ xs) y zero h = h
get_elem?-append_old (x ∷ xs) y (suc i) h = get_elem?-append_old xs y i h

get_elem?-append_new :
    (xs : List PointIdentity) (y : PointIdentity) → get_elem? (xs ++ y ∷ []) (length xs) ≡ some y
get_elem?-append_new [] y = refl
get_elem?-append_new (x ∷ xs) y = get_elem?-append_new xs y

pub contains-append :
    (a : PointIdentity) (xs : List PointIdentity) (y : PointIdentity)
    → contains a (xs ++ y ∷ []) ≡ (beq y a || contains a xs)
unfolding contains
contains-append a [] y = ground arith
contains-append a (x ∷ xs) y = ground (arith, contains-append a xs y)

-- The index map and the identities of the points agree.
pub record IsIndex (m : HashMap PointIdentity ℕ) (ids : List PointIdentity) : Type 0 where
  pub sound : (id : PointIdentity) (i : ℕ) → get id m ≡ some i → get_elem? ids i ≡ some id
  pub complete : (id : PointIdentity) → is_some (get id m) ≡ contains id ids

IsIndex-insert :
    (m : HashMap PointIdentity ℕ) (ids : List PointIdentity) (id : PointIdentity)
    → IsIndex m ids
    → IsIndex (insert id (length ids) m) (ids ++ id ∷ [])
IsIndex-insert m ids id v = record {
  sound = λ j i e. sound_at j i e;
  complete =
      λ j. ground (arith, get-insert id j (length ids) m, v.complete j, contains-append j ids id);
}
  where
    sound_at :
        (j : PointIdentity) (i : ℕ)
        → get j (insert id (length ids) m) ≡ some i
        → get_elem? (ids ++ id ∷ []) i ≡ some j
    sound_at j i e = elim (Bool-cases (beq id j)) [
      | inl same ↦
          let here : length ids ≡ i = ground (arith, get-insert id j (length ids) m) in
          rw (← here, ← (beq_iff id j).0 same) (get_elem?-append_new ids id)
      | inr other ↦
          get_elem?-append_old ids id i
            (v.sound j i (ground (arith, get-insert id j (length ids) m)))
    ]

IsIndex-index_points :
    (i : ℕ) (ps : List PointConfig) (ids : List PointIdentity) (m : HashMap PointIdentity ℕ)
    → length ids ≡ i
    → IsIndex m ids
    → IsIndex (index_points i ps m) (ids ++ identities ps)
unfolding index_points
IsIndex-index_points i [] ids m h v = rw append-nil v
IsIndex-index_points i (p ∷ ps) ids m h v =
    rw (← append_assoc ids (from_point p ∷ []) (identities ps)) (
      IsIndex-index_points (suc i) ps (ids ++ from_point p ∷ []) (insert (from_point p) i m)
        (omega (arith, length-append ids (from_point p ∷ [])))
        (rw (← h) (IsIndex-insert m ids (from_point p) v)))

pub IsIndex-start :
    (existing : List PointConfig) → IsIndex (start existing).index_by_id (identities existing)
unfolding get contains
IsIndex-start existing =
    IsIndex-index_points 0 existing [] [] refl
      (record { sound = λ id i e. cc; complete = λ id. refl })

get_elem?-identities :
    (ps : List PointConfig) (i : ℕ) {id : PointIdentity}
    → get_elem? (identities ps) i ≡ some id
    → (e : PointConfig) × (get_elem? ps i ≡ some e)
get_elem?-identities [] i h = cc
get_elem?-identities (p ∷ ps) zero h = (p, refl)
get_elem?-identities (p ∷ ps) (suc i) h = get_elem?-identities ps i h

identities-set :
    (ps : List PointConfig) (i : ℕ) (x : PointConfig) {e : PointConfig}
    → get_elem? ps i ≡ some e
    → from_point x ≡ from_point e
    → identities (set ps i x) ≡ identities ps
identities-set [] i x h q = refl
identities-set (p ∷ ps) zero x h q = cc
identities-set (p ∷ ps) (suc i) x h q = ap (λ r. from_point p ∷ r) (identities-set ps i x h q)

identity-relabel : (p e : PointConfig) → from_point (relabel p e).0 ≡ from_point e
unfolding from_point relabel
identity-relabel p e = refl

-- What one round of the loop does.
record Merged (p : PointConfig) (s t : Merge) : Type 0 where
  indexed : IsIndex t.index_by_id (identities t.points)
  ids : identities t.points ≡ (
      if contains (from_point p) (identities s.points)
      then identities s.points
      else identities s.points ++ from_point p ∷ [])
  counted : t.added + length s.points ≡ s.added + length t.points
  changes : t.added + t.updated ≤ s.added + s.updated + 1

merge_new :
    (p : PointConfig) (s : Merge)
    → IsIndex s.index_by_id (identities s.points)
    → get (from_point p) s.index_by_id ≡ none
    → (t : Merge) × (merge_point p s ≡ some t) × Merged p s t
unfolding merge_point
merge_new p s v e = (
  append_point p s,
  rw (e, merge_point),
  record {
    indexed =
        rw (map-append from_point s.points (p ∷ []), ← length-map from_point s.points)
          (IsIndex-insert s.index_by_id (identities s.points) (from_point p) v);
    ids = rw (map-append from_point s.points (p ∷ [])) (ground (arith, v.complete (from_point p)));
    counted = omega (arith, length-append s.points (p ∷ []));
    changes = omega arith;
  },
)

merge_old :
    (p : PointConfig) (s : Merge) (i : ℕ)
    → IsIndex s.index_by_id (identities s.points)
    → get (from_point p) s.index_by_id ≡ some i
    → (t : Merge) × (merge_point p s ≡ some t) × Merged p s t
merge_old p s i v e =
    let (old, found) = get_elem?-identities s.points i (v.sound (from_point p) i e) in
    (
      update_existing p i old s,
      unfold merge_point in (rw (e, merge_point) (rw (found, update_at))),
      keeps old found,
    )
  where
    keeps :
        (old : PointConfig)
        → get_elem? s.points i ≡ some old
        → Merged p s (update_existing p i old s)
    keeps old found =
        let same : identities (update_existing p i old s).points ≡ identities s.points =
          identities-set s.points i (relabel p old).0 found (identity-relabel p old) in
        record {
          indexed = rw same v;
          ids = rw same (ground (arith, v.complete (from_point p)));
          counted = omega (arith, length-set s.points i (relabel p old).0);
          changes = ground arith;
        }

merge_point-Merged :
    (p : PointConfig) (s : Merge)
    → IsIndex s.index_by_id (identities s.points)
    → (t : Merge) × (merge_point p s ≡ some t) × Merged p s t
merge_point-Merged p s v = elim (Option-cases (get (from_point p) s.index_by_id)) [
  | inl e ↦ merge_new p s v e
  | inr (i, e) ↦ merge_old p s i v e
]

fresh_step :
    (seen : List PointIdentity) (i : PointIdentity) (is : List PointIdentity)
    → (let now = if contains i seen then seen else seen ++ i ∷ [] in
        now ++ fresh now is ≡ seen ++ fresh seen (i ∷ is))
fresh_step seen i is = elim (Bool-cases (contains i seen)) [
  | inl old ↦ rw old
  | inr new ↦ rw new (append_assoc seen (i ∷ []) (fresh (seen ++ i ∷ []) is))
]

-- What the whole loop does.
pub record MergedAll (ps : List PointConfig) (s t : Merge) : Type 0 where
  pub ids : identities t.points ≡ identities s.points ++ fresh (identities s.points) (identities ps)
  pub counted : t.added + length s.points ≡ s.added + length t.points
  pub changes : t.added + t.updated ≤ s.added + s.updated + length ps

pub merge_points-MergedAll :
    (ps : List PointConfig) (s : Merge)
    → IsIndex s.index_by_id (identities s.points)
    → (t : Merge) × (merge_points ps s ≡ some t) × MergedAll ps s t
unfolding merge_points
merge_points-MergedAll [] s v = (
  s,
  refl,
  record { ids = sym (append-nil (identities s.points)); counted = refl; changes = omega arith },
)
merge_points-MergedAll (p ∷ ps) s v =
    let (t, e, m) = merge_point-Merged p s v in
    let (u, f, n) = merge_points-MergedAll ps t m.indexed in
    (
      u,
      rw (e, merge_points) f,
      record {
        ids = n.ids ∙ rw m.ids (fresh_step (identities s.points) (from_point p) (identities ps));
        counted = omega arith;
        changes = omega arith;
      },
    )
