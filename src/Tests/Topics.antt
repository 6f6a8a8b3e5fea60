-- ===== src/Tests/Topics.antt =====
-- Examples for the topics (crates/republish-core/src/topic.rs) and the two logs.
use netix_protocol_core.Prelude.{
  ◌≡◌, refl, false, not, List, [], ◌∷◌, ◌++◌, arith, max, map, any, filter, is_empty,
}
use netix_protocol_core.Text.{Text, lit, is_blank, is_control, split}
use netix_protocol_core.Backoff.{info, warning}
use netix_protocol_core.Topic.{
  ok, validate_publish_topic, has_double, collapse_loop, sanitize_segment, topic_segments,
  not_blank, split_all, join_topic, telemetry_topic,
}
use netix_protocol_core.Topic.Segments.{IsClean, collapse_loop_ends, sanitize_segment-IsClean}
use netix_protocol_core.Topic.Validity.{
  validate-telemetry_topic, split-join_topic, is_replaced, empty_level,
}
use netix_protocol_core.Logs.{AppLog, new, push_line}
use netix_protocol_core.Logs.Ring.{
  Op, pushes, clears, run, history, latest, IsNumbered, entries-run,
}
use netix_protocol_core.Logs.Collapse.{IsAppLog, push_line-IsAppLog}
use netix_protocol_core.Tests.Fixtures.{config, supply}

sanitize_segment-IsClean_example : IsClean (sanitize_segment (lit " supply__temp / #1 "))
sanitize_segment-IsClean_example = sanitize_segment-IsClean (lit " supply__temp / #1 ")

supply_not_blank : is_blank (telemetry_topic config supply) ≡ false
unfolding is_blank telemetry_topic topic_segments
supply_not_blank = refl

validate-telemetry_topic_example : validate_publish_topic (telemetry_topic config supply) ≡ ok
validate-telemetry_topic_example = validate-telemetry_topic config supply supply_not_blank

abbrev two_parts : List Text
two_parts = lit "netix/a" ∷ lit "b#c" ∷ []

two_parts_shown : is_empty (filter not_blank (split_all two_parts)) ≡ false
unfolding is_blank split
two_parts_shown = refl

split-join_topic_example :
    split b'/' (join_topic two_parts)
    ≡ map sanitize_segment (filter not_blank (split_all two_parts))
split-join_topic_example = split-join_topic two_parts two_parts_shown

collapse_loop_ends_example : has_double (collapse_loop 6 (lit "a____b")) ≡ false
collapse_loop_ends_example = collapse_loop_ends 6 (lit "a____b") (omega arith)

a_shown : is_blank (lit "a") ≡ false
unfolding is_blank
a_shown = refl

b_shown : is_blank (lit "b") ≡ false
unfolding is_blank
b_shown = refl

signs_shown : is_blank (lit "#_+") ≡ false
unfolding is_blank
signs_shown = refl

signs_replaced : any (λ c. not (is_replaced c)) (lit "#_+") ≡ false
unfolding is_control
signs_replaced = refl

empty_level_example :
    split b'/' (join_topic ((lit "a" ++ b'/' ∷ (lit "#_+" ++ b'/' ∷ lit "b")) ∷ []))
    ≡ sanitize_segment (lit "a") ∷ [] ∷ sanitize_segment (lit "b") ∷ []
empty_level_example =
    empty_level (lit "a") (lit "#_+") (lit "b") a_shown signs_shown b_shown refl refl refl
      signs_replaced

abbrev logged : List Op
logged =
    pushes info (lit "start") 5
    ∷ pushes info (lit "one") 6
    ∷ clears
    ∷ pushes warning (lit "two") 7
    ∷ pushes info (lit "three") 8
    ∷ []

entries-run_example :
    (run logged (new 1 0)).entries
    ≡ latest (max 1 (run logged (new 1 0)).capacity) (history logged (new 1 0) [])
entries-run_example = entries-run logged 1 0

new-IsNumbered : IsNumbered (new 1 0).next_sequence (new 1 0).entries
unfolding new
new-IsNumbered = tt

abbrev two_lines : AppLog
two_lines = (lit "tick", 2) ∷ (lit "tock", 1) ∷ []

push_line-IsAppLog_example : IsAppLog (push_line (lit "tock") two_lines)
push_line-IsAppLog_example =
    push_line-IsAppLog (lit "tock") two_lines
      (record { bounded = omega arith; collapsed = (refl, tt) })
