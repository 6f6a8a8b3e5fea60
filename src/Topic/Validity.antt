-- ===== src/Topic/Validity.antt =====
-- crates/republish-core/src/topic.rs: the validation of a topic, and the levels of the topics that the worker builds.
use netix_protocol_core.Prelude.{
  ℕ, ◌≡◌, ◌↔◌, ◌||◌, not, is_empty, refl, Bool, true, false, List, [], ◌∷◌, ◌++◌, map, arith, ◌==◌,
  ==_iff, any, All, filter, ap, ◌∙◌,
}
use netix_protocol_core.Text.{
  Text, lit, is_whitespace, is_control, trim, trim_end, trim_matches, trim_start_matches,
  trim_end_matches, is_blank, has, split, join,
}
use netix_protocol_core.Text.Trimming.{any_trim_kept, any-trim_start, any-trim_end}
use netix_protocol_core.Text.Splitting.{
  any-join, split-join, split-append, split-append_both, split_piece,
}
use netix_protocol_core.Model.{PointConfig}
use netix_protocol_core.Config.{MqttConfig}
use netix_protocol_core.Topic.{
  ok, validate_publish_topic, is_slash, is_reserved, is_underscore, clean, not_blank,
  sanitize_segment, topic_segments, split_all, join_topic, normalize_prefix, effective_tag_path,
  telemetry_topic, device_envelope_topic,
}
use netix_protocol_core.Topic.Segments.{
  is_forbidden, squash, any-squash, collapse_loop-eq-squash, sanitize_segment-IsClean,
}

has_weaken :
    (p q : ℕ → Bool) (weaker : (c : ℕ) → q c ≡ true → p c ≡ true) (s : Text)
    → any p s ≡ false
    → any q s ≡ false
has_weaken p q weaker [] h = refl
has_weaken p q weaker (c ∷ s) h = ground (arith, weaker c, has_weaken p q weaker s)

-- A separator or wildcard character is none of a sanitised segment.
pub sanitize_lacks : (d : ℕ) (s : Text) → is_forbidden d ≡ true → has d (sanitize_segment s) ≡ false
sanitize_lacks d s h =
    has_weaken is_forbidden (λ x. x == d) (λ c e. ground (arith, ==_iff c d)) (sanitize_segment s)
      (sanitize_segment-IsClean s).allowed

sanitized_lack :
    (d : ℕ) (ss : List Text)
    → is_forbidden d ≡ true
    → All (λ s. has d s ≡ false) (map sanitize_segment ss)
sanitized_lack d [] h = tt
sanitized_lack d (s ∷ ss) h = (sanitize_lacks d s h, sanitized_lack d ss h)

pub has-trim : (d : ℕ) (s : Text) → is_whitespace d ≡ false → has d (trim s) ≡ has d s
unfolding trim
has-trim d s h = any_trim_kept is_whitespace (λ x. x == d) (λ c e. ground (arith, ==_iff c d)) s

-- A topic is accepted exactly when something is left after trimming and no `#` or `+` stands in it.
pub validate_publish_topic-ok_iff :
    (topic : Text)
    → (validate_publish_topic topic ≡ ok)
      ↔ ((is_blank topic ≡ false) × (has b'#' topic ≡ false) × (has b'+' topic ≡ false))
unfolding validate_publish_topic is_blank
validate_publish_topic-ok_iff topic =
    rw
      (
        has-trim b'#' topic (unfold is_whitespace in refl),
        has-trim b'+' topic (unfold is_whitespace in refl),
      )
      (λ e. ground arith, λ h. ground arith)

join_topic_lacks :
    (d : ℕ) (parts : List Text)
    → is_forbidden d ≡ true
    → has d (lit "/") ≡ false
    → has d (join_topic parts) ≡ false
unfolding join_topic topic_segments
join_topic_lacks d parts h e =
    let kept : List Text = filter not_blank (split_all parts) in
    any-join (λ x. x == d) (lit "/") (map sanitize_segment kept) e (sanitized_lack d kept h)

telemetry_topic_lacks :
    (d : ℕ) (config : MqttConfig) (point : PointConfig)
    → is_forbidden d ≡ true
    → has d (lit "/") ≡ false
    → has d (telemetry_topic config point) ≡ false
unfolding telemetry_topic
telemetry_topic_lacks d config point h e =
    join_topic_lacks d (normalize_prefix config.topic_prefix ∷ effective_tag_path point ∷ []) h e

-- A telemetry topic is accepted by the validation unless it is blank: it never has a wildcard.
pub validate-telemetry_topic :
    (config : MqttConfig) (point : PointConfig)
    → is_blank (telemetry_topic config point) ≡ false
    → validate_publish_topic (telemetry_topic config point) ≡ ok
validate-telemetry_topic config point h =
    (validate_publish_topic-ok_iff (telemetry_topic config point)).1 (
      h,
      telemetry_topic_lacks b'#' config point refl refl,
      telemetry_topic_lacks b'+' config point refl refl,
    )

-- Where a part has a segment that is not blank, the levels of the joined topic are the segments of
-- all parts, without the blank ones, sanitised and in order.
pub split-join_topic :
    (parts : List Text)
    → is_empty (filter not_blank (split_all parts)) ≡ false
    → split b'/' (join_topic parts) ≡ map sanitize_segment (filter not_blank (split_all parts))
unfolding join_topic topic_segments
split-join_topic parts = levels (filter not_blank (split_all parts))
  where
    levels :
        (ss : List Text)
        → is_empty ss ≡ false
        → split b'/' (join (lit "/") (map sanitize_segment ss)) ≡ map sanitize_segment ss
    levels [] h = cc
    levels (s ∷ ss) h =
        split-join b'/' (sanitize_segment s) (map sanitize_segment ss)
          (sanitized_lack b'/' (s ∷ ss) refl)

-- The last two levels of an envelope topic are the sanitised device id and `telemetry`, whatever the
-- id; the levels before them are those of the trimmed prefix.
split-device_envelope_topic :
    (config : MqttConfig) (id : Text)
    → split b'/' (device_envelope_topic config id)
      ≡ split b'/' (trim_end_matches is_slash (trim_end config.device_topic_prefix))
        ++ sanitize_segment id ∷ lit "telemetry" ∷ []
unfolding device_envelope_topic
split-device_envelope_topic config id =
    let prefix : Text = trim_end_matches is_slash (trim_end config.device_topic_prefix) in
    rw (
      split-append_both b'/' prefix (sanitize_segment id ++ lit "/telemetry"),
      split-append b'/' (sanitize_segment id) (lit "telemetry") (sanitize_lacks b'/' id refl),
      split_piece b'/' (lit "telemetry") refl,
    )

-- A character that is cleaned to an underscore.
abbrev pub is_replaced : ℕ → Bool
is_replaced c = is_reserved c || is_control c || is_underscore c

underscore-clean : (c : ℕ) → is_replaced c ≡ true → is_underscore (clean c) ≡ true
unfolding clean
underscore-clean c h = ground (arith, h)

all_underscores :
    (s : Text)
    → any (λ c. not (is_replaced c)) s ≡ false
    → any (λ c. not (is_underscore c)) (map clean s) ≡ false
all_underscores [] h = refl
all_underscores (c ∷ s) h = ground (arith, underscore-clean c, all_underscores s)

trim_underscores :
    (s : Text)
    → any (λ c. not (is_underscore c)) s ≡ false
    → trim_start_matches is_underscore s ≡ []
unfolding trim_start_matches
trim_underscores [] h = refl
trim_underscores (c ∷ s) h = ground (arith, trim_underscores s)

-- A segment of such characters alone is sanitised to nothing.
sanitize_of_replaced :
    (s : Text) → any (λ c. not (is_replaced c)) s ≡ false → sanitize_segment s ≡ []
unfolding sanitize_segment trim trim_matches
sanitize_of_replaced s h =
    let other : ℕ → Bool = λ c. not (is_replaced c) in
    let trimmed : any other (trim s) ≡ false =
      any-trim_end is_whitespace other (trim_start_matches is_whitespace s)
        (any-trim_start is_whitespace other s h) in
    let cleaned : Text = map clean (trim s) in
    let under : any (λ c. not (is_underscore c)) cleaned ≡ false =
      all_underscores (trim s) trimmed in
    rw
      (
        collapse_loop-eq-squash cleaned,
        trim_underscores (squash cleaned) (any-squash (λ c. not (is_underscore c)) cleaned under),
      )
      (unfold trim_end_matches in refl)

-- Between two segments that are not blank, a segment of reserved or control characters or underscores
-- alone, itself not blank, becomes an empty level of the topic: the topic of a path `a/#/b` has the
-- levels of a, an empty one, and of b.
pub empty_level :
    (a r b : Text)
    → is_blank a ≡ false
    → is_blank r ≡ false
    → is_blank b ≡ false
    → has b'/' a ≡ false
    → has b'/' r ≡ false
    → has b'/' b ≡ false
    → any (λ c. not (is_replaced c)) r ≡ false
    → split b'/' (join_topic ((a ++ b'/' ∷ (r ++ b'/' ∷ b)) ∷ []))
      ≡ sanitize_segment a ∷ [] ∷ sanitize_segment b ∷ []
empty_level a r b x y z p q t h =
    let pieces : split b'/' (a ++ b'/' ∷ (r ++ b'/' ∷ b)) ≡ a ∷ r ∷ b ∷ [] =
      split-append b'/' a (r ++ b'/' ∷ b) p
      ∙ ap (λ l. a ∷ l) (split-append b'/' r b q ∙ ap (λ l. r ∷ l) (split_piece b'/' b t)) in
    let kept : filter not_blank (split_all ((a ++ b'/' ∷ (r ++ b'/' ∷ b)) ∷ [])) ≡ a ∷ r ∷ b ∷ [] =
      rw (pieces) (rw (x, y, z) refl) in
    split-join_topic ((a ++ b'/' ∷ (r ++ b'/' ∷ b)) ∷ []) (rw (kept) refl)
    ∙ rw (kept) (rw (sanitize_of_replaced r h) refl)
