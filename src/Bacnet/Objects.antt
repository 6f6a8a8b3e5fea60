-- ===== src/Bacnet/Objects.antt =====
-- Browsing in crates/proto-bacnet/src/republish/mod.rs: `scan_objects`. The answers of the client are
-- arguments, `Scan`; a count or an index has 32 bits where it is sent.
pub mod Entries
use netix_protocol_core.Prelude.{
  ℕ, zero, suc, ◌+◌, ◌%◌, Bool, true, false, List, [], ◌∷◌, ◌++◌, map, Option, none, some, min, ltb,
  or_else, unwrap_or, range, take, drop, length, ◌==◌, if◌then◌else◌,
}
use netix_protocol_core.Prelude.Eq.{nat_eq, pair_eq}
use netix_protocol_core.Prelude.Maps.{HashMap, get, insert}
use netix_protocol_core.Text.{Text, lit, is_blank}
use netix_protocol_core.Text.Numbers.{decimal}
use netix_protocol_core.Model.{
  BrowseOutcome, DiscoveredPoint, JsonValue, TelemetryValue, show_value,
}
use netix_protocol_core.Mqtt.Publisher.{Error}
use netix_protocol_core.Worker.Events.{Result, ok, err}
use netix_protocol_core.Modbus.Params.{anyhow}
use netix_protocol_core.Modbus.Browse.{json_of}
use netix_protocol_core.Bacnet.Value.{
  Decoded, decode_unsigned, decode_object_id, object_type_name, show_error,
}
use netix_protocol_core.Bacnet.Requests.{Names}

-- An object with its type and instance.
abbrev pub Object : Type 0
Object = ℕ × ℕ

-- The properties that a browse reads.
pub data Metadata : Type 0 where
  object_name description units present_value : Metadata

-- The object list at an index, a chunk's properties at once (an object and a property may be missing),
-- one property, and how bytes decode. `ObjectIdentifier::new` is that of `Names`.
pub record Scan : Type 0 where
  pub object_list : ℕ → Result (List ℕ)
  pub multiple : List Object → Result (Object → Metadata → Option (List ℕ))
  pub single : Object → Metadata → Option (List ℕ)
  pub decode : List ℕ → Decoded TelemetryValue

pub record ScannedMetadata : Type 0 where
  pub name : Option Text
  pub description : Option Text
  pub units : Option Text
  pub present : Option TelemetryValue

abbrev max_browse_objects : ℕ
max_browse_objects = 512

unfoldable pub object_list_truncation_warning : ℕ → Option Text
unfolding decimal
object_list_truncation_warning count =
    if ltb max_browse_objects count
    then some (lit "Object list has " ++ (decimal count ++ lit " objects; browse capped at 512."))
    else none

-- `discovered_point_from_object`, the addressing in the order of the keys
unfoldable pub discovered_point_from_object :
    Names → Text → ℕ → Object → ScannedMetadata → DiscoveredPoint
unfolding object_type_name decimal
discovered_point_from_object names dev_key device (object_type, n) meta =
    let type_name = object_type_name names.object_types object_type in
    record {
      device_key = dev_key;
      name = meta.name;
      description = meta.description;
      units = meta.units;
      value = meta.present;
      addressing =
          (lit "device_instance", json_of device)
          ∷ (lit "object_instance", json_of n)
          ∷ (lit "object_type", JsonValue.string type_name)
          ∷ (lit "property", JsonValue.string (lit "present_value"))
          ∷ [];
      suggested_tag_path =
          unwrap_or (or_else meta.description meta.name) (type_name ++ (b'_' ∷ decimal n));
    }

module _ (names : Names) (scan : Scan) where
  abbrev decoded_value : Option (List ℕ) → Option TelemetryValue
  decoded_value none = none
  decoded_value (some bytes) = elim (scan.decode bytes) [
    | Decoded.ok v ↦ some v
    | Decoded.err e ↦ none
  ]

  abbrev text_value : Option TelemetryValue → Option Text
  text_value none = none
  text_value (some v) = if is_blank (show_value v) then none else some (show_value v)

  -- What the code makes of the properties of one object, read at once or one by one.
  abbrev pub metadata_of : (Metadata → Option (List ℕ)) → ScannedMetadata
  metadata_of props = record {
    name = text_value (decoded_value (props Metadata.object_name));
    description = text_value (decoded_value (props Metadata.description));
    units = text_value (decoded_value (props Metadata.units));
    present = decoded_value (props Metadata.present_value);
  }

  abbrev listed : Result (List ℕ) → Option Object
  listed (err e) = none
  listed (ok bytes) = elim (decode_object_id bytes) [
    | Decoded.err e ↦ none
    | Decoded.ok object ↦ some object
  ]

  abbrev invalid : Error
  invalid = anyhow (lit "invalid object identifier")

  abbrev add_entry : Object → Result (List Object) → Result (List Object)
  add_entry o (err e) = err e
  add_entry o (ok entries) = ok (o ∷ entries)

  -- The body of the loop over the object list: unreadable entries and the device itself (type 8) are
  -- left out.
  abbrev pub entry_of : Option Object → Result (List Object) → Result (List Object)
  entry_of none rest = rest
  entry_of (some (object_type, n)) rest =
      let added = add_entry (object_type, n) rest in
      if object_type == 8
      then rest
      else if names.is_identifier object_type n
      then added
      else err invalid

  unfoldable read_entries : List ℕ → Result (List Object)
  unfolding decode_object_id
  read_entries [] = ok []
  read_entries (index ∷ indices) = entry_of (listed (scan.object_list index)) (read_entries indices)

  abbrev fallback_warning : ℕ → Error → Text
  fallback_warning device e =
      lit "RPM failed for device "
      ++ (decimal device ++ (lit " browse chunk; used fallback: " ++ e.chain))

  abbrev pub chunk_points :
      Text → ℕ → List Object → Result (Object → Metadata → Option (List ℕ)) → List DiscoveredPoint
  chunk_points dev_key device chunk (ok props) =
      map (λ o. discovered_point_from_object names dev_key device o (metadata_of (props o))) chunk
  chunk_points dev_key device chunk (err e) =
      map (λ o. discovered_point_from_object names dev_key device o (metadata_of (scan.single o)))
        chunk

  abbrev chunk_warnings : ℕ → Result (Object → Metadata → Option (List ℕ)) → List Text
  chunk_warnings device (ok props) = []
  chunk_warnings device (err e) = fallback_warning device e ∷ []

  -- The loop over `chunks(32)`. A chunk takes at least one entry, so as much fuel as there are entries
  -- suffices.
  unfoldable pub scan_chunks : ℕ → Text → ℕ → List Object → BrowseOutcome
  unfolding discovered_point_from_object decimal
  scan_chunks zero dev_key device entries = record { points = []; warnings = [] }
  scan_chunks (suc fuel) dev_key device [] = record { points = []; warnings = [] }
  scan_chunks (suc fuel) dev_key device (e ∷ es) =
      let chunk = e ∷ take 31 es in
      let read = scan.multiple chunk in
      let rest = scan_chunks fuel dev_key device (drop 31 es) in
      record {
        points = chunk_points dev_key device chunk read ++ rest.points;
        warnings = chunk_warnings device read ++ rest.warnings;
      }

  abbrev warned : Option Text → List Text
  warned none = []
  warned (some w) = w ∷ []

  abbrev pub scanned : Text → ℕ → ℕ → Result (List Object) → Result BrowseOutcome
  scanned dev_key device count (err e) = err e
  scanned dev_key device count (ok entries) =
      let read = scan_chunks (length entries) dev_key device entries in
      ok (record read { warnings = warned (object_list_truncation_warning count) ++ read.warnings })

  abbrev counted : Text → ℕ → Decoded ℕ → Result BrowseOutcome
  counted dev_key device (Decoded.err e) = err (record {
    message = lit "decode objectList length";
    chain = lit "decode objectList length: " ++ show_error e;
  })
  counted dev_key device (Decoded.ok count) =
      scanned dev_key device count (read_entries (range 1 (min count max_browse_objects)))

  abbrev object_count : Text → ℕ → Result (List ℕ) → Result BrowseOutcome
  object_count dev_key device (err e) = err (record {
    message = lit "failed to read objectList length";
    chain = lit "failed to read objectList length: " ++ e.chain;
  })
  object_count dev_key device (ok bytes) = counted dev_key device (decode_unsigned bytes)

  unfoldable scan_objects : Text → ℕ → Result BrowseOutcome
  unfolding read_entries scan_chunks object_list_truncation_warning decode_unsigned show_error
  scan_objects dev_key device =
      if names.is_identifier 8 device
      then object_count dev_key device (scan.object_list 0)
      else err invalid
