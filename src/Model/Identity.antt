-- ===== src/Model/Identity.antt =====
-- `PointIdentity` of crates/republish-core/src/model.rs: the key of poll and status history.
use netix_protocol_core.Prelude.{
  Bool, true, false, ◌&&◌, ◌||◌, List, [], ◌∷◌, map, ltb, ◌==◌, if◌then◌else◌,
}
use netix_protocol_core.Text.{Text}
use netix_protocol_core.Model.{JsonValue, PointConfig, json_scalar}

-- A key with the text of its value.
abbrev Entry : Type 0
Entry = Text × Text

abbrev pub PointIdentity : Type 0
PointIdentity = List Entry

-- `Ord` of `str`: by code points, which is the order of the UTF-8 bytes
abbrev pub text_leb : Text → Text → Bool
text_leb [] t = true
text_leb (c ∷ s) [] = false
text_leb (c ∷ s) (d ∷ t) = ltb c d || c == d && text_leb s t

abbrev pub text_eqb : Text → Text → Bool
text_eqb [] [] = true
text_eqb [] (d ∷ t) = false
text_eqb (c ∷ s) [] = false
text_eqb (c ∷ s) (d ∷ t) = c == d && text_eqb s t

-- `Ord` of a pair: the second components decide where the first are equal
unfoldable entry_leb : Entry → Entry → Bool
entry_leb (k, v) (j, w) = if text_eqb k j then text_leb v w else text_leb k j

-- `sort()`, by insertion
unfoldable insert_sorted : Entry → List Entry → List Entry
unfolding entry_leb
insert_sorted e [] = e ∷ []
insert_sorted e (x ∷ xs) =
    let rest = insert_sorted e xs in if entry_leb e x then e ∷ x ∷ xs else x ∷ rest

unfoldable sort : List Entry → List Entry
unfolding insert_sorted
sort [] = []
sort (x ∷ xs) = insert_sorted x (sort xs)

abbrev identity_entry : Text × JsonValue → Entry
identity_entry (k, v) = (k, json_scalar v)

-- `PointIdentity::from_point`
unfoldable pub from_point : PointConfig → PointIdentity
unfolding sort json_scalar
from_point p = sort (map identity_entry p.addressing)
