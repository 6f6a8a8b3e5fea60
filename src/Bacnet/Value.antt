-- ===== src/Bacnet/Value.antt =====
-- crates/proto-bacnet/src/republish/value.rs: application-tagged values. An `ObjectType` is its raw
-- number; `named` is `ObjectType::ALL_NAMED`. An index out of range is a panic, which no branch reaches,
-- so the patterns stand for the checked lengths.
pub mod Utf8
pub mod Framing
pub mod Numbers
pub mod Decoding
use netix_protocol_core.Prelude.{
  ℕ, zero, suc, ◌+◌, ◌-◌, ◌*◌, ◌/◌, ◌%◌, ◌^◌, Bool, not, ◌||◌, List, [], ◌∷◌, ◌++◌, map, filter,
  Option, none, some, drop, take, length, ltb, leb, ◌==◌, if◌then◌else◌,
}
use netix_protocol_core.Prelude.Int.{ℤ, pos, negsuc}
use netix_protocol_core.Text.{Text, lit, trim}
use netix_protocol_core.Text.Numbers.{decimal, parse_unsigned, u32_max}
use netix_protocol_core.Model.{TelemetryValue}
use netix_protocol_core.Model.Floats.{Floats}
use netix_protocol_core.Simulator.Points.{to_ascii_lowercase}
use netix_protocol_core.Bacnet.Value.Utf8.{from_utf8}

pub data DecodeError : Type 0 where
  empty : DecodeError
  unsupported_tag : ℕ → DecodeError
  truncated invalid_utf8 : DecodeError

pub data Decoded (A : Type 0) : Type 0 where
  ok : A → Decoded A
  err : DecodeError → Decoded A

-- `Display` of an error
unfoldable pub show_error : DecodeError → Text
unfolding decimal
show_error DecodeError.empty = lit "empty BACnet value"
show_error (DecodeError.unsupported_tag tag) =
    lit "unsupported BACnet application tag " ++ decimal tag
show_error DecodeError.truncated = lit "truncated BACnet value"
show_error DecodeError.invalid_utf8 = lit "invalid BACnet character string"

abbrev pub mapped : {A B : Type 0} → (A → B) → Decoded A → Decoded B
mapped f (ok a) = ok (f a)
mapped f (err e) = err e

abbrev pub and_then : {A B : Type 0} → Decoded A → (A → Decoded B) → Decoded B
and_then (ok a) f = f a
and_then (err e) f = err e

-- The bytes from `offset` to `offset + length`.
abbrev pub slice : List ℕ → ℕ → ℕ → Decoded (List ℕ)
slice bytes offset n =
    if ltb (length bytes) (offset + n)
    then err DecodeError.truncated
    else ok (take n (drop offset bytes))

abbrev pub extended : List ℕ → List ℕ → Decoded (List ℕ)
extended bytes [] = err DecodeError.truncated
extended bytes (n ∷ rest) = slice bytes 2 n

unfoldable pub application_payload : List ℕ → Decoded (List ℕ)
application_payload [] = err DecodeError.empty
application_payload (first ∷ rest) =
    let code = first % 8 in
    let bytes = first ∷ rest in
    if leb code 4
    then slice bytes 1 code
    else if code == 5
    then extended bytes rest
    else err (DecodeError.unsupported_tag (first / 16))

abbrev pub u64 : ℕ
u64 = 18_446_744_073_709_551_616

-- `(value << 8) | byte` at 64 bits
abbrev pub shift_in : ℕ → List ℕ → ℕ
shift_in value [] = value
shift_in value (byte ∷ bytes) = shift_in (value * 256 % u64 + byte) bytes

unfoldable pub decode_unsigned : List ℕ → Decoded ℕ
unfolding application_payload
decode_unsigned bytes = mapped (shift_in 0) (application_payload bytes)

-- An `i64` is its bit pattern until the end.
abbrev pub signed64 : ℕ → ℤ
signed64 w = if ltb w 9_223_372_036_854_775_808 then pos w else negsuc (u64 - w - 1)

abbrev pub sign_extended : List ℕ → ℤ
sign_extended [] = pos 0
sign_extended (byte ∷ bytes) =
    signed64 (shift_in (if leb 128 byte then u64 - 1 else 0) (byte ∷ bytes))

unfoldable pub decode_signed : List ℕ → Decoded ℤ
unfolding application_payload
decode_signed bytes = mapped sign_extended (application_payload bytes)

-- `from_be_bytes` of as many bytes as there are
abbrev pub big_endian : ℕ → List ℕ → ℕ
big_endian value [] = value
big_endian value (byte ∷ bytes) = big_endian (value * 256 + byte) bytes

abbrev pub of_length : ℕ → List ℕ → Decoded ℕ
of_length n payload =
    if length payload == n then ok (big_endian 0 payload) else err DecodeError.truncated

unfoldable pub decode_object_id : List ℕ → Decoded (ℕ × ℕ)
unfolding application_payload
decode_object_id bytes =
    mapped (λ raw. (raw / 4_194_304 % 1024, raw % 4_194_304))
      (and_then (application_payload bytes) (of_length 4))

abbrev hex_digit : ℕ → ℕ
hex_digit d = if ltb d 10 then d + b'0' else d - 10 + b'A'

unfoldable pub hex : List ℕ → Text
hex [] = []
hex (byte ∷ bytes) = hex_digit (byte / 16) ∷ hex_digit (byte % 16) ∷ hex bytes

abbrev utf8_text : Option Text → Decoded TelemetryValue
utf8_text none = err DecodeError.invalid_utf8
utf8_text (some s) = ok (TelemetryValue.text s)

abbrev character_string : List ℕ → Decoded TelemetryValue
character_string [] = ok (TelemetryValue.text [])
character_string (encoding ∷ data_bytes) =
    if encoding == 0 || (encoding == 3 || (encoding == 4 || encoding == 5))
    then utf8_text (from_utf8 data_bytes)
    else ok (TelemetryValue.text (hex data_bytes))

unfoldable pub decode_character_string : List ℕ → Decoded TelemetryValue
unfolding application_payload from_utf8 hex
decode_character_string bytes = and_then (application_payload bytes) character_string

-- `ALL_NAMED.iter().find(…)` by number
abbrev pub name_in : ℕ → List (Text × ℕ) → Option Text
name_in raw [] = none
name_in raw ((name, value) ∷ named) =
    let rest = name_in raw named in if value == raw then some name else rest

abbrev named_or_raw : ℕ → Option Text → Text
named_or_raw raw none = decimal raw
named_or_raw raw (some name) = to_ascii_lowercase name

unfoldable pub object_type_name : List (Text × ℕ) → ℕ → Text
unfolding decimal to_ascii_lowercase
object_type_name named raw = named_or_raw raw (name_in raw named)

abbrev show_bool_code : ℕ → Text
show_bool_code code = if code == 0 then lit "false" else lit "true"

module _ {F32 : Type 0} (fp : Floats F32) where
  unfoldable pub decode_real : List ℕ → Decoded TelemetryValue
  unfolding application_payload
  decode_real bytes =
      mapped (λ raw. TelemetryValue.number (fp.widen (fp.from_bits raw)))
        (and_then (application_payload bytes) (of_length 4))

  unfoldable pub decode_double : List ℕ → Decoded TelemetryValue
  unfolding application_payload
  decode_double bytes =
      mapped (λ raw. TelemetryValue.number (fp.from_bits64 raw))
        (and_then (application_payload bytes) (of_length 8))

  abbrev object_text : List (Text × ℕ) → ℕ × ℕ → TelemetryValue
  object_text named (object_type, n) =
      TelemetryValue.text (object_type_name named object_type ++ (b',' ∷ decimal n))

  -- The match on the tag.
  abbrev pub decode_tag : List (Text × ℕ) → ℕ → ℕ → List ℕ → Decoded TelemetryValue
  decode_tag named tag code bytes =
      if tag == 0
      then ok (TelemetryValue.text (lit "null"))
      else if tag == 1
      then ok (TelemetryValue.text (show_bool_code code))
      else if tag == 2
      then mapped (λ n. TelemetryValue.number (fp.nat64 n)) (decode_unsigned bytes)
      else if tag == 3
      then mapped (λ n. TelemetryValue.number (fp.int64 n)) (decode_signed bytes)
      else if tag == 4
      then decode_real bytes
      else if tag == 5
      then decode_double bytes
      else if tag == 7
      then decode_character_string bytes
      else if tag == 9
      then mapped (λ n. TelemetryValue.text (decimal n)) (decode_unsigned bytes)
      else if tag == 12
      then mapped (object_text named) (decode_object_id bytes)
      else err (DecodeError.unsupported_tag tag)

  unfoldable pub decode_scalar_value : List (Text × ℕ) → List ℕ → Decoded TelemetryValue
  unfolding decode_unsigned decode_signed decode_real decode_double decode_character_string
      decode_object_id object_type_name decimal
  decode_scalar_value named [] = err DecodeError.empty
  decode_scalar_value named (first ∷ rest) =
      decode_tag named (first / 16) (first % 8) (first ∷ rest)
