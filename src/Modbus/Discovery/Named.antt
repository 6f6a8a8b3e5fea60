-- ===== src/Modbus/Discovery/Named.antt =====
-- The identity of a simulated server, crates/proto-modbus/src/sim, as src/republish reads it.
use netix_protocol_core.Prelude.{
  ℕ, ◌≡◌, refl, ◌∙◌, ap, false, List, Option, none, some, is_empty, or_else, unwrap_or, Bool-cases,
  Option-cases, inl, inr,
}
use mathlib.Core.Path.{subst}
use netix_protocol_core.Prelude.Eq.{nat_eq, list_eq}
use netix_protocol_core.Prelude.Maps.{get, insert}
use netix_protocol_core.Text.{
  Text, lit, trim, trim_matches, trim_start_matches, trim_end_matches, is_whitespace,
}
use netix_protocol_core.Text.Trimming.{
  starts-trim_start, ends-trim_end, trim_start-id, trim_end-id, starts-trim_end,
}
use netix_protocol_core.Model.{Addressing, JsonValue}
use netix_protocol_core.Modbus.Wire.{Answer, ReadDeviceIdentificationResponse, Reply, Response}
use netix_protocol_core.Modbus.Service.{
  identify, identity_objects, identity_of, option_text, text_of, nonempty,
}
use netix_protocol_core.Modbus.Discovery.{
  Identify, read_identity, read_identification, collect_objects,
}

-- The client's view of a reply.
abbrev answer_of : Reply → Answer ReadDeviceIdentificationResponse
answer_of (Reply.ok (Response.read_device_identification r)) = Answer.value r
answer_of (Reply.ok _) = Answer.failed (lit "unexpected response")
answer_of (Reply.err code) = Answer.exception (lit "exception")

abbrev pub identify_with : List (ℕ × Text) → Identify
identify_with objects code left object_id = answer_of (identify objects code object_id)

-- A text that is not blank and has no blanks around it.
abbrev IsClean : Text → Type 0
IsClean t = (trim t ≡ t) × (is_empty t ≡ false)

abbrev AllClean : Option Text → Type 0
AllClean none = Unit
AllClean (some t) = IsClean t

trim_idem : (s : Text) → trim (trim s) ≡ trim s
unfolding trim trim_matches
trim_idem s =
    let start = trim_start_matches is_whitespace s in
    let all = trim_end_matches is_whitespace start in
    ap (trim_end_matches is_whitespace) (
      trim_start-id is_whitespace all
        (starts-trim_end is_whitespace is_whitespace start (starts-trim_start is_whitespace s)))
    ∙ trim_end-id is_whitespace all (ends-trim_end is_whitespace start)

text_of-IsClean : (value : Option JsonValue) → AllClean (text_of value)
text_of-IsClean none = tt
text_of-IsClean (some JsonValue.null) = tt
text_of-IsClean (some (JsonValue.bool b)) = tt
text_of-IsClean (some (JsonValue.number n)) = tt
text_of-IsClean (some (JsonValue.compound s)) = tt
text_of-IsClean (some (JsonValue.string s)) = elim (Bool-cases (is_empty (trim s))) [
  | inl e ↦ rw (e, nonempty) tt
  | inr e ↦ rw (e, nonempty) (trim_idem s, e)
]

option_text-IsClean : (options : Addressing) (key : Text) → AllClean (option_text options key)
unfolding option_text
option_text-IsClean options key = text_of-IsClean (get key options)

identity-names :
    (v r : Text) (product_code product_name model_name : Option Text)
    → IsClean v
    → IsClean r
    → AllClean product_code
    → AllClean product_name
    → AllClean model_name
    → read_identity
        (identify_with (identity_of (some v) product_code (some r) product_name model_name))
      ≡ (some v, or_else model_name (or_else product_name product_code))
unfolding read_identity read_identification collect_objects identify get insert
identity-names v r none none none a b c d e = rw (a.0, a.1, b.0, b.1) refl
identity-names v r none none (some m) a b c d e = rw (a.0, a.1, b.0, b.1, e.0, e.1) refl
identity-names v r none (some n) none a b c d e = rw (a.0, a.1, b.0, b.1, d.0, d.1) refl
identity-names v r none (some n) (some m) a b c d e =
    rw (a.0, a.1, b.0, b.1, d.0, d.1, e.0, e.1) refl
identity-names v r (some k) none none a b c d e = rw (a.0, a.1, b.0, b.1, c.0, c.1) refl
identity-names v r (some k) none (some m) a b c d e =
    rw (a.0, a.1, b.0, b.1, c.0, c.1, e.0, e.1) refl
identity-names v r (some k) (some n) none a b c d e =
    rw (a.0, a.1, b.0, b.1, c.0, c.1, d.0, d.1) refl
identity-names v r (some k) (some n) (some m) a b c d e =
    rw (a.0, a.1, b.0, b.1, c.0, c.1, d.0, d.1, e.0, e.1) refl

abbrev pub names : Addressing → Option Text → Option Text × Option Text
names options none = (none, none)
names options (some vendor) = (
  some vendor,
  or_else (option_text options (lit "model_name")) (
      or_else (option_text options (lit "product_name"))
        (option_text options (lit "product_code"))),
)

revision-IsClean :
    (options : Addressing) → IsClean (unwrap_or (option_text options (lit "revision")) (lit "1.0"))
revision-IsClean options =
    clean (option_text options (lit "revision")) (option_text-IsClean options (lit "revision"))
  where
    clean : (o : Option Text) → AllClean o → IsClean (unwrap_or o (lit "1.0"))
    clean none h =
        (unfold trim trim_matches trim_start_matches trim_end_matches is_whitespace in refl, refl)
    clean (some t) h = h

-- A client that reads the identity of a simulated server gets what its options give it: the vendor, and
-- as the model the model name, else the product name, else the product code, each trimmed and a blank
-- one counting as absent. Without a vendor it gets neither.
pub read_identity-identity_objects :
    (options : Addressing)
    → read_identity (identify_with (identity_objects options))
      ≡ names options (option_text options (lit "vendor_name"))
unfolding identity_objects
read_identity-identity_objects options =
    elim (Option-cases (option_text options (lit "vendor_name"))) [
      | inl e ↦ rw (e) (unfold read_identity read_identification identify get in refl)
      | inr (v, e) ↦ rw (e) (
          identity-names v (unwrap_or (option_text options (lit "revision")) (lit "1.0"))
            (option_text options (lit "product_code")) (option_text options (lit "product_name"))
            (option_text options (lit "model_name"))
            (subst AllClean e (option_text-IsClean options (lit "vendor_name")))
            (revision-IsClean options) (option_text-IsClean options (lit "product_code"))
            (option_text-IsClean options (lit "product_name"))
            (option_text-IsClean options (lit "model_name")))
    ]
