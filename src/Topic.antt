-- ===== src/Topic.antt =====
-- crates/republish-core/src/topic.rs: MQTT topics from prefixes, tag paths and addressing.
pub mod Segments
pub mod Validity
use netix_protocol_core.Prelude.{
  ℕ, zero, suc, Bool, true, false, ◌&&◌, ◌||◌, not, List, [], ◌∷◌, ◌++◌, map, ◌==◌, is_empty,
  filter, length, if◌then◌else◌,
}
use netix_protocol_core.Text.{
  Text, lit, is_control, trim, trim_end, trim_matches, trim_end_matches, is_blank, has, split, join,
}
use netix_protocol_core.Model.{JsonValue, PointConfig, json_scalar}
use netix_protocol_core.Config.{MqttConfig}

pub data TopicError : Type 0 where
  empty wildcard : TopicError

pub data Validation : Type 0 where
  ok : Validation
  err : TopicError → Validation

unfoldable pub validate_publish_topic : Text → Validation
unfolding trim
validate_publish_topic topic =
    let trimmed = trim topic in
    if is_empty trimmed
    then err empty
    else if has b'#' trimmed || has b'+' trimmed
    then err wildcard
    else ok

abbrev pub is_slash : ℕ → Bool
is_slash c = c == b'/'

abbrev is_hash : ℕ → Bool
is_hash c = c == b'#'

abbrev pub is_underscore : ℕ → Bool
is_underscore c = c == b'_'

-- The characters of the first arm of `sanitize_segment`'s match.
abbrev pub is_reserved : ℕ → Bool
is_reserved c =
    c == b'/' || (c == b'#' || (c == b'+' || (c == 32 || (c == 9 || (c == 10 || c == 13)))))

unfoldable pub clean : ℕ → ℕ
unfolding is_control
clean c = if is_reserved c then b'_' else if is_control c then b'_' else c

-- `contains("__")`
unfoldable pub has_double : Text → Bool
has_double [] = false
has_double (c ∷ []) = false
has_double (c ∷ d ∷ s) = is_underscore c && is_underscore d || has_double (d ∷ s)

-- `replace("__", "_")`: matches do not overlap
unfoldable pub replace_double : Text → Text
replace_double [] = []
replace_double (c ∷ []) = c ∷ []
replace_double (c ∷ d ∷ s) =
    let matched = b'_' ∷ replace_double s in
    let passed = c ∷ replace_double (d ∷ s) in
    if is_underscore c && is_underscore d then matched else passed

-- The `while` loop, on fuel: a round makes the text shorter.
unfoldable pub collapse_loop : ℕ → Text → Text
unfolding has_double replace_double
collapse_loop zero s = s
collapse_loop (suc f) s = elim (has_double s) [
  | true ↦ collapse_loop f (replace_double s)
  | false ↦ s
]

unfoldable pub sanitize_segment : Text → Text
unfolding trim clean collapse_loop trim_matches
sanitize_segment value =
    let cleaned = map clean (trim value) in
    trim_matches is_underscore (collapse_loop (length cleaned) cleaned)

abbrev pub not_blank : Text → Bool
not_blank s = not (is_blank s)

unfoldable pub normalize_prefix : Text → Text
unfolding trim trim_end_matches trim_matches split sanitize_segment join is_blank
normalize_prefix prefix =
    let stripped = trim_matches is_slash (trim_end_matches is_hash (trim prefix)) in
    join (lit "/") (map sanitize_segment (filter not_blank (split b'/' stripped)))

abbrev pub split_all : List Text → List Text
split_all [] = []
split_all (p ∷ ps) = split b'/' p ++ split_all ps

-- The segments that `join_topic` joins.
unfoldable pub topic_segments : List Text → List Text
topic_segments parts = map sanitize_segment (filter not_blank (split_all parts))

unfoldable pub join_topic : List Text → Text
join_topic parts = join (lit "/") (topic_segments parts)

abbrev addressing_values : List (Text × JsonValue) → List Text
addressing_values [] = []
addressing_values ((k, v) ∷ m) = json_scalar v ∷ addressing_values m

unfoldable default_tag_path : PointConfig → Text
unfolding is_blank json_scalar join sanitize_segment
default_tag_path point =
    let device = if is_blank point.device_key then lit "device" else point.device_key in
    let addr =
      join (lit "_") (filter (λ s. not (is_empty s)) (addressing_values point.addressing)) in
    if is_empty addr
    then sanitize_segment device
    else sanitize_segment device ++ (lit "/" ++ sanitize_segment addr)

-- An explicit tag path wins over the default one.
unfoldable pub effective_tag_path : PointConfig → Text
unfolding is_blank default_tag_path
effective_tag_path point =
    if is_blank point.tag_path then default_tag_path point else point.tag_path

unfoldable pub telemetry_topic : MqttConfig → PointConfig → Text
unfolding effective_tag_path normalize_prefix join_topic
telemetry_topic config point =
    join_topic (normalize_prefix config.topic_prefix ∷ effective_tag_path point ∷ [])

unfoldable pub device_envelope_topic : MqttConfig → Text → Text
unfolding trim_end trim_end_matches sanitize_segment
device_envelope_topic config id =
    let prefix = trim_end_matches is_slash (trim_end config.device_topic_prefix) in
    prefix ++ (lit "/" ++ (sanitize_segment id ++ lit "/telemetry"))
