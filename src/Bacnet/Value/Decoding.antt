-- ===== src/Bacnet/Value/Decoding.antt =====
-- What `decode_scalar_value` of crates/proto-bacnet/src/republish/value.rs makes of a framed value.
use netix_protocol_core.Prelude.{
  ℕ, ◌+◌, ◌*◌, ◌/◌, ◌%◌, ◌≤◌, ◌<◌, ◌≡◌, refl, sym, ap, ◌∙◌, true, List, [], ◌∷◌, ◌++◌, All, length,
  leb, ◌==◌, arith, Bool-cases, inl, inr,
}
use mathlib.Core.List.{append_assoc}
use netix_protocol_core.Text.{Text}
use netix_protocol_core.Text.Numbers.{decimal}
use netix_protocol_core.Model.{TelemetryValue}
use netix_protocol_core.Model.Floats.{Floats}
use netix_protocol_core.Bacnet.Value.{
  ok, of_length, big_endian, application_payload, decode_unsigned, decode_signed, decode_real,
  decode_double, decode_object_id, decode_character_string, decode_tag, decode_scalar_value,
  object_type_name,
}
use netix_protocol_core.Bacnet.Value.Utf8.{from_utf8-ascii}
use netix_protocol_core.Bacnet.Value.Framing.{header, frame, application_payload-frame}
use netix_protocol_core.Bacnet.Value.Numbers.{
  twos_complement, shift_in-big_endian, sign_extended-twos_complement,
}

-- The kinds of values that have a payload.
pub data Kind : Type 0 where
  unsigned signed real double ascii enumerated object_id : Kind

abbrev pub tag_of : Kind → ℕ
tag_of Kind.unsigned = 2
tag_of Kind.signed = 3
tag_of Kind.real = 4
tag_of Kind.double = 5
tag_of Kind.ascii = 7
tag_of Kind.enumerated = 9
tag_of Kind.object_id = 12

-- The bytes of a value of the kind: numbers of at most eight bytes, a real of four, a double of eight,
-- an object identifier of four, and the encoding 0 with characters below 128.
abbrev IsPayload : Kind → List ℕ → Type 0
IsPayload Kind.unsigned bytes = length bytes ≤ 8
IsPayload Kind.signed bytes = length bytes ≤ 8
IsPayload Kind.real bytes = length bytes ≡ 4
IsPayload Kind.double bytes = length bytes ≡ 8
IsPayload Kind.ascii bytes = (s : Text) × (bytes ≡ 0 ∷ s) × (length s ≤ 252) × All (λ c. c < 128) s
IsPayload Kind.enumerated bytes = length bytes ≤ 8
IsPayload Kind.object_id bytes = length bytes ≡ 4

abbrev characters : List ℕ → Text
characters [] = []
characters (encoding ∷ s) = s

module _ {F32 : Type 0} (fp : Floats F32) (named : List (Text × ℕ)) where
  -- The value that the bytes write.
  abbrev pub value_of : Kind → List ℕ → TelemetryValue
  value_of Kind.unsigned bytes = TelemetryValue.number (fp.nat64 (big_endian 0 bytes))
  value_of Kind.signed bytes = TelemetryValue.number (fp.int64 (twos_complement bytes))
  value_of Kind.real bytes = TelemetryValue.number (fp.widen (fp.from_bits (big_endian 0 bytes)))
  value_of Kind.double bytes = TelemetryValue.number (fp.from_bits64 (big_endian 0 bytes))
  value_of Kind.ascii bytes = TelemetryValue.text (characters bytes)
  value_of Kind.enumerated bytes = TelemetryValue.text (decimal (big_endian 0 bytes))
  value_of Kind.object_id bytes =
      let raw = big_endian 0 bytes in
      TelemetryValue.text
        (object_type_name named (raw / 4_194_304 % 1024) ++ (b',' ∷ decimal (raw % 4_194_304)))

  of_length-ok :
      (n : ℕ) (bytes : List ℕ) → length bytes ≡ n → of_length n bytes ≡ ok (big_endian 0 bytes)
  of_length-ok n bytes h = let e : (length bytes == n) ≡ true = ground (arith, h) in rw (e) refl

  short : (k : Kind) (bytes : List ℕ) → IsPayload k bytes → length bytes ≤ 253
  short Kind.unsigned bytes h = omega (arith, h)
  short Kind.signed bytes h = omega (arith, h)
  short Kind.real bytes h = omega (arith, h)
  short Kind.double bytes h = omega (arith, h)
  short Kind.ascii bytes (s, e, h, a) = rw (e) (omega (arith, h))
  short Kind.enumerated bytes h = omega (arith, h)
  short Kind.object_id bytes h = omega (arith, h)

  decode_tag-value :
      (k : Kind) (code : ℕ) (bytes payload : List ℕ)
      → All (λ b. b < 256) payload
      → IsPayload k payload
      → application_payload bytes ≡ ok payload
      → decode_tag fp named (tag_of k) code bytes ≡ ok (value_of k payload)
  unfolding decode_unsigned decode_signed decode_real decode_double decode_object_id
      decode_character_string
  decode_tag-value Kind.unsigned code bytes payload all h e =
      rw (e, shift_in-big_endian payload all h) refl
  decode_tag-value Kind.signed code bytes payload all h e =
      rw (e, sign_extended-twos_complement payload all h) refl
  decode_tag-value Kind.real code bytes payload all h e = rw (e, of_length-ok 4 payload h) refl
  decode_tag-value Kind.double code bytes payload all h e = rw (e, of_length-ok 8 payload h) refl
  decode_tag-value Kind.ascii code bytes payload all (s, p, n, a) e =
      rw (e, p, from_utf8-ascii s a) refl
  decode_tag-value Kind.enumerated code bytes payload all h e =
      rw (e, shift_in-big_endian payload all h) refl
  decode_tag-value Kind.object_id code bytes payload all h e = rw (e, of_length-ok 4 payload h) refl

  decode_scalar_value-frame :
      (tag n : ℕ) (body : List ℕ)
      → let bytes = header tag n ++ body in
        (code : ℕ) × (decode_scalar_value fp named bytes ≡ decode_tag fp named tag code bytes)
  unfolding decode_scalar_value
  decode_scalar_value-frame tag n body = elim (Bool-cases (leb n 4)) [
    | inl few ↦
        let high : (tag * 16 + n) / 16 ≡ tag = ground (arith, few) in rw (few, high) (_, refl)
    | inr many ↦ let high : (tag * 16 + 5) / 16 ≡ tag = omega arith in rw (many, high) (_, refl)
  ]

-- A framed value decodes to what its bytes write: an unsigned number or an enumeration in base 256 and a
-- signed one in two's complement, without overflow up to eight bytes, a real or a double from its bits,
-- a character string of encoding 0 with characters below 128 to them, and an object identifier to the
-- name of its type and its instance. Bytes after the value are not read.
pub decode-frame :
    {F32 : Type 0} (fp : Floats F32) (named : List (Text × ℕ)) (k : Kind) (payload rest : List ℕ)
    → All (λ b. b < 256) payload
    → IsPayload k payload
    → decode_scalar_value fp named (frame (tag_of k) payload ++ rest)
      ≡ ok (value_of fp named k payload)
decode-frame fp named k payload rest all h =
    let tag = tag_of k in
    let bytes = frame tag payload ++ rest in
    let (code, e) = decode_scalar_value-frame fp named tag (length payload) (payload ++ rest) in
    let same = append_assoc (header tag (length payload)) payload rest in
    let framed = application_payload-frame tag payload rest (short fp named k payload h) in
    ap (decode_scalar_value fp named) same
    ∙ e
    ∙ decode_tag-value fp named k code (header tag (length payload) ++ (payload ++ rest)) payload
        all h (ap application_payload (sym same) ∙ framed)
