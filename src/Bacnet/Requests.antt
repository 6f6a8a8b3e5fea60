-- ===== src/Bacnet/Requests.antt =====
-- The requests of a poll in crates/proto-bacnet/src/republish/mod.rs, with the identifiers of value.rs.
-- `Names` is what the BACnet library knows: the named object types and properties with their numbers,
-- and whether `ObjectIdentifier::new` accepts a type and an instance.
use netix_protocol_core.Prelude.{
  ℕ, ◌%◌, Bool, not, ◌||◌, List, [], ◌∷◌, ◌++◌, filter, Option, none, some, unwrap_or, ◌==◌,
  if◌then◌else◌,
}
use netix_protocol_core.Prelude.Eq.{beq, nat_eq, list_eq}
use netix_protocol_core.Prelude.Maps.{get}
use netix_protocol_core.Text.{Text, lit, trim, is_blank}
use netix_protocol_core.Text.Numbers.{parse_unsigned, u32_max}
use netix_protocol_core.Model.{JsonValue, PointConfig, json_scalar}
use netix_protocol_core.Worker.Events.{Result, ok, err}
use netix_protocol_core.Modbus.Params.{anyhow}

pub record Names : Type 0 where
  pub object_types : List (Text × ℕ)
  pub properties : List (Text × ℕ)
  pub is_identifier : ℕ → ℕ → Bool
  -- `char::to_lowercase`
  pub to_lowercase : ℕ → Text

pub record PollRequest : Type 0 where
  pub point : PointConfig
  pub device_instance : ℕ
  pub object_identifier : ℕ × ℕ
  pub property_identifier : ℕ

abbrev pub separates : ℕ → Bool
separates c = c == b'_' || (c == b'-' || c == b' ')

abbrev pub flat : (ℕ → Text) → Text → Text
flat f [] = []
flat f (c ∷ s) = f c ++ flat f s

-- `normalize_identifier`
unfoldable pub normalize_identifier : Names → Text → Text
unfolding trim
normalize_identifier names value =
    flat names.to_lowercase (filter (λ c. not (separates c)) (trim value))

abbrev pub named : Names → Text → List (Text × ℕ) → Option ℕ
named names normalized [] = none
named names normalized ((name, raw) ∷ rest) =
    let later = named names normalized rest in
    if beq (normalize_identifier names name) normalized then some raw else later

abbrev pub or_named : Names → Text → List (Text × ℕ) → Option ℕ → Option ℕ
or_named names normalized table (some raw) = some raw
or_named names normalized table none = named names normalized table

unfoldable pub object_type_from_text : Names → Text → Option ℕ
unfolding normalize_identifier parse_unsigned
object_type_from_text names value =
    let normalized = normalize_identifier names value in
    or_named names normalized names.object_types (parse_unsigned u32_max normalized)

unfoldable pub property_identifier_from_text : Names → Text → Option ℕ
unfolding normalize_identifier parse_unsigned
property_identifier_from_text names value =
    let normalized = normalize_identifier names value in
    or_named names normalized names.properties (parse_unsigned u32_max normalized)

abbrev pub shown : Option JsonValue → Option Text
shown none = none
shown (some v) = if is_blank (json_scalar v) then none else some (json_scalar v)

unfoldable pub addr_str : PointConfig → Text → Option Text
unfolding get is_blank json_scalar
addr_str p key = shown (get key p.addressing)

abbrev u32_of : Option JsonValue → Option ℕ
u32_of (some (JsonValue.number n)) = elim n.as_u64 [
  | none ↦ none
  | some v ↦ some (v % 4_294_967_296)
]
u32_of (some (JsonValue.string s)) = parse_unsigned u32_max (trim s)
u32_of (some JsonValue.null) = none
u32_of (some (JsonValue.bool b)) = none
u32_of (some (JsonValue.compound s)) = none
u32_of none = none

unfoldable pub addr_u32 : PointConfig → Text → Option ℕ
unfolding get parse_unsigned trim
addr_u32 p key = u32_of (get key p.addressing)

abbrev request_of : Names → PointConfig → ℕ → ℕ → ℕ → ℕ → Result PollRequest
request_of names p device object_type object_instance property =
    if names.is_identifier object_type object_instance
    then ok (record {
      point = p;
      device_instance = device;
      object_identifier = (object_type, object_instance);
      property_identifier = property;
    })
    else err (anyhow (lit "invalid object identifier"))

-- `PollRequest::from_point`
unfoldable pub from_point : Names → PointConfig → Result PollRequest
unfolding addr_u32 addr_str object_type_from_text property_identifier_from_text
from_point names p = elim (addr_u32 p (lit "device_instance")) [
  | none ↦ err (anyhow (lit "missing device_instance"))
  | some device ↦
      let type_text = unwrap_or (addr_str p (lit "object_type")) [] in
      elim (object_type_from_text names type_text) [
        | none ↦ err (anyhow (lit "unknown object type '" ++ (type_text ++ lit "'")))
        | some object_type ↦
            let object_instance = unwrap_or (addr_u32 p (lit "object_instance")) 0 in
            let prop_text = unwrap_or (addr_str p (lit "property")) (lit "present_value") in
            elim (property_identifier_from_text names prop_text) [
              | none ↦ err (anyhow (lit "unknown property '" ++ (prop_text ++ lit "'")))
              | some property ↦ request_of names p device object_type object_instance property
            ]
      ]
]
