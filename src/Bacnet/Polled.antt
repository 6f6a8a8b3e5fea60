-- ===== src/Bacnet/Polled.antt =====
-- A browsed object of crates/proto-bacnet/src/republish/mod.rs, imported and polled.
use netix_protocol_core.Prelude.{
  ℕ, ◌%◌, ◌<◌, ◌≡◌, refl, ap, ◌∙◌, true, false, [], some, unwrap_or, arith,
}
use mathlib.Core.Path.{subst}
use netix_protocol_core.Prelude.Eq.{nat_eq, list_eq}
use netix_protocol_core.Prelude.Maps.{get}
use netix_protocol_core.Text.{
  Text, lit, is_blank, trim, trim_matches, trim_start_matches, trim_end_matches, is_whitespace,
}
use netix_protocol_core.Model.{PointConfig, json_scalar}
use netix_protocol_core.Simulator.Points.{lower_char, to_ascii_lowercase}
use netix_protocol_core.Text.Numbers.{parse_unsigned, u32_max}
use netix_protocol_core.Import.{point_from_discovered}
use netix_protocol_core.Worker.Events.{ok}
use netix_protocol_core.Bacnet.Value.{object_type_name, name_in}
use netix_protocol_core.Bacnet.Identifiers.{IsTable, LowersAscii, table-read, object_type-read}
use netix_protocol_core.Bacnet.Requests.{
  Names, normalize_identifier, or_named, from_point, addr_str, addr_u32, object_type_from_text,
  property_identifier_from_text,
}
use netix_protocol_core.Bacnet.Objects.{ScannedMetadata, discovered_point_from_object}

-- What the BACnet library's tables are like, with the present value as property 85, and
-- `char::to_lowercase` on ASCII.
pub record Documented (names : Names) : Type 0 where
  pub types : IsTable names.object_types
  pub properties : IsTable names.properties
  pub present_value : name_in 85 names.properties ≡ some (lit "PRESENT_VALUE")
  pub lowers : LowersAscii names

present_value-read :
    (names : Names)
    → Documented names
    → property_identifier_from_text names (lit "present_value") ≡ some 85
unfolding property_identifier_from_text
present_value-read names h =
    let lower : to_ascii_lowercase (lit "PRESENT_VALUE") ≡ lit "present_value" =
      unfold to_ascii_lowercase lower_char in refl in
    subst
      (λ t.
        or_named names (normalize_identifier names t) names.properties
          (parse_unsigned u32_max (normalize_identifier names t))
        ≡ some 85)
      lower
      (table-read names h.lowers 85 (lit "PRESENT_VALUE") names.properties h.properties
        h.present_value).0

module _ (names : Names) (dev_key : Text) (device object_type n secs : ℕ)
    (meta : ScannedMetadata) where
  -- The point that an import makes of a browsed object.
  abbrev pub imported : PointConfig
  imported =
      point_from_discovered
        (discovered_point_from_object names dev_key device (object_type, n) meta) secs

  device_read : device < 4_294_967_296 → addr_u32 imported (lit "device_instance") ≡ some device
  unfolding addr_u32 get point_from_discovered discovered_point_from_object
  device_read h = let e : device % 4_294_967_296 ≡ device = omega (arith, h) in rw (e) refl

  instance_read : n < 4_294_967_296 → addr_u32 imported (lit "object_instance") ≡ some n
  unfolding addr_u32 get point_from_discovered discovered_point_from_object
  instance_read h = let e : n % 4_294_967_296 ≡ n = omega (arith, h) in rw (e) refl

  type_text :
      is_blank (object_type_name names.object_types object_type) ≡ false
      → addr_str imported (lit "object_type")
        ≡ some (object_type_name names.object_types object_type)
  unfolding addr_str get point_from_discovered discovered_point_from_object json_scalar
  type_text h = rw (h) refl

  property_text : addr_str imported (lit "property") ≡ some (lit "present_value")
  unfolding addr_str get point_from_discovered discovered_point_from_object json_scalar is_blank
      trim trim_matches trim_start_matches trim_end_matches is_whitespace
  property_text = refl

-- An object that a browse finds, imported as it is, is polled by the request for the present value of
-- that object on that device: its type's text, a name of the table or a number, is read back as the
-- type. The numbers are of 32 bits, the library accepts the identifier and names property 85
-- PRESENT_VALUE, its tables have names of letters, digits and underscores that start with a capital and
-- differ in more than underscores and case, and `char::to_lowercase` is the usual one on ASCII.
pub from_point-discovered :
    (names : Names) (dev_key : Text) (device object_type n secs : ℕ) (meta : ScannedMetadata)
    → Documented names
    → names.is_identifier object_type n ≡ true
    → device < 4_294_967_296
    → object_type < 4_294_967_296
    → n < 4_294_967_296
    → let p = imported names dev_key device object_type n secs meta in
      from_point names p
      ≡ ok (record {
        point = p;
        device_instance = device;
        object_identifier = (object_type, n);
        property_identifier = 85;
      })
unfolding from_point
from_point-discovered names dev_key device object_type n secs meta h valid d t i =
    let (type_read, type_shown) =
      object_type-read names h.lowers object_type h.types (omega (arith, t)) in
    let p = imported names dev_key device object_type n secs meta in
    let kind : object_type_from_text names (unwrap_or (addr_str p (lit "object_type")) [])
        ≡ some object_type =
      ap (λ t. object_type_from_text names (unwrap_or t []))
        (type_text names dev_key device object_type n secs meta type_shown)
      ∙ type_read in
    let property : property_identifier_from_text names
          (unwrap_or (addr_str p (lit "property")) (lit "present_value"))
        ≡ some 85 =
      ap (λ t. property_identifier_from_text names (unwrap_or t (lit "present_value")))
        (property_text names dev_key device object_type n secs meta)
      ∙ present_value-read names h in
    rw
      (
        device_read names dev_key device object_type n secs meta d,
        kind,
        property,
        instance_read names dev_key device object_type n secs meta i,
        valid,
        from_point,
      )
      refl
