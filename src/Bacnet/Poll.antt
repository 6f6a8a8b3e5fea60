-- ===== src/Bacnet/Poll.antt =====
-- Polling in crates/proto-bacnet/src/republish/mod.rs: the points grouped by device, each group read at
-- once or, where that fails, one by one. The answers of the client and the clock are arguments, `reads`.
pub mod Pigeonhole
pub mod Gathering
pub mod Answered
use netix_protocol_core.Prelude.{
  ℕ, suc, ◌+◌, Bool, true, false, not, ◌&&◌, List, [], ◌∷◌, ◌++◌, map, Option, none, some, length,
  ◌==◌, if◌then◌else◌,
}
use netix_protocol_core.Prelude.Int.{ℤ}
use netix_protocol_core.Prelude.Eq.{beq, nat_eq, list_eq, pair_eq}
use netix_protocol_core.Prelude.Maps.{HashMap, HashSet, add}
use netix_protocol_core.Text.{Text, lit}
use netix_protocol_core.Text.Numbers.{decimal}
use netix_protocol_core.Model.{
  PointConfig, PointSample, PointFailure, PollOutcome, TelemetryValue, display_name,
}
use netix_protocol_core.Mqtt.Publisher.{Error}
use netix_protocol_core.Worker.Events.{Result, ok, err}
use netix_protocol_core.Modbus.Params.{anyhow}
use netix_protocol_core.Bacnet.Value.{Decoded, show_error}
use netix_protocol_core.Bacnet.Requests.{Names, PollRequest, from_point}

-- An element of a read-access result: the object, the property and the value, if there is one.
pub record Element : Type 0 where
  pub object_identifier : ℕ × ℕ
  pub property_identifier : ℕ
  pub property_value : Option (List ℕ)

-- What the client answers: to a device's group at once, flattened, and to the request at a position of
-- it; what the clock shows to the sample at a position; and how bytes decode.
pub record Reads : Type 0 where
  pub multiple : ℕ → List PollRequest → Result (List Element)
  pub single : ℕ → ℕ → Result (List ℕ)
  pub now : ℕ → ℕ → ℤ
  pub decode : List ℕ → Decoded TelemetryValue

abbrev pub sample : PointConfig → TelemetryValue → ℤ → PointSample
sample p value now = record { point = p; value = value; topic = []; timestamp_ms = now }

abbrev matches : Element → PollRequest → Bool
matches e r =
    beq r.object_identifier e.object_identifier && r.property_identifier == e.property_identifier

-- `enumerate().find(…)`, from position `i` on
unfoldable pub find_request : Element → ℕ → List PollRequest → Option (ℕ × PollRequest)
find_request e i [] = none
find_request e i (r ∷ rs) =
    let later = find_request e (suc i) rs in if matches e r then some (i, r) else later

-- The samples and the requests seen so far.
pub record Group : Type 0 where
  pub samples : List PointSample
  pub seen : HashSet ℕ

abbrev pub push_sample : ℕ → PollRequest → TelemetryValue → ℤ → Group → Group
push_sample i r value now g = record {
  samples = g.samples ++ sample r.point value now ∷ [];
  seen = add i g.seen;
}

abbrev undecoded : PollRequest → Text → Error
undecoded r e =
    let message = lit "failed to decode " ++ display_name r.point in
    record { message = message; chain = message ++ (lit ": " ++ e) }

module _ (reads : Reads) (device : ℕ) where
  abbrev pub decoded : ℕ → PollRequest → Group → Decoded TelemetryValue → Result Group
  decoded i r g (Decoded.ok value) =
      ok (push_sample i r value (reads.now device (length g.samples)) g)
  decoded i r g (Decoded.err e) = err (undecoded r (show_error e))

  abbrev pub taken : Element → Group → Option (ℕ × PollRequest) → Result Group
  taken e g none = ok g
  taken e g (some (i, r)) = elim e.property_value [
    | none ↦ ok g
    | some bytes ↦ decoded i r g (reads.decode bytes)
  ]

  -- The loops over the results and their elements.
  unfoldable pub take_elements : List PollRequest → List Element → Group → Result Group
  unfolding find_request add display_name show_error
  take_elements requests [] g = ok g
  take_elements requests (e ∷ es) g = elim (taken e g (find_request e 0 requests)) [
    | err f ↦ err f
    | ok h ↦ take_elements requests es h
  ]

  abbrev pub complete : List PollRequest → Result Group → Result (List PointSample)
  complete requests (err e) = err e
  complete requests (ok g) =
      if length g.seen == length requests
      then ok g.samples
      else err (
          anyhow (
            lit "RPM returned "
            ++ (decimal (length g.seen)
                ++ (lit " of " ++ (decimal (length requests) ++ lit " properties")))))

  abbrev pub gathered : List PollRequest → Result (List Element) → Result (List PointSample)
  gathered requests (err e) = err e
  gathered requests (ok elements) =
      complete requests (take_elements requests elements (record { samples = []; seen = [] }))

  unfoldable pub read_group_rpm : List PollRequest → Result (List PointSample)
  unfolding take_elements decimal
  read_group_rpm requests = gathered requests (reads.multiple device requests)

  abbrev pub read_value : Result (List ℕ) → Result TelemetryValue
  read_value (err e) = err e
  read_value (ok bytes) = elim (reads.decode bytes) [
    | Decoded.ok value ↦ ok value
    | Decoded.err e ↦ err (anyhow (show_error e))
  ]

  abbrev pub read_one :
      ℕ
      → PollRequest
      → Result TelemetryValue
      → List PointSample × List PointFailure
      → List PointSample × List PointFailure
  read_one i r (ok value) (samples, failures) =
      (sample r.point value (reads.now device i) ∷ samples, failures)
  read_one i r (err e) (samples, failures) =
      (samples, record { point = r.point; error = e.message } ∷ failures)

  -- From the request at position `i` on.
  unfoldable pub read_group_individual : ℕ → List PollRequest → List PointSample × List PointFailure
  unfolding show_error
  read_group_individual i [] = ([], [])
  read_group_individual i (r ∷ rs) =
      read_one i r (read_value (reads.single device i)) (read_group_individual (suc i) rs)

  abbrev pub group_outcome : List PollRequest → Result (List PointSample) → PollOutcome
  group_outcome requests (ok samples) = record { samples = samples; failures = []; warnings = [] }
  group_outcome requests (err e) =
      let (samples, failures) = read_group_individual 0 requests in
      record {
        samples = samples;
        failures = failures;
        warnings =
            (lit "RPM failed for device "
              ++ (decimal device ++ (lit "; used fallback: " ++ e.chain)))
            ∷ [];
      }

  unfoldable pub read_group : List PollRequest → PollOutcome
  unfolding read_group_rpm read_group_individual decimal
  read_group requests = group_outcome requests (read_group_rpm requests)

-- `by_device.entry(device).or_default().push(request)`
unfoldable pub push_request :
    PollRequest → HashMap ℕ (List PollRequest) → HashMap ℕ (List PollRequest)
push_request r [] = (r.device_instance, r ∷ []) ∷ []
push_request r ((d, rs) ∷ m) =
    let rest = push_request r m in
    if d == r.device_instance then (d, rs ++ r ∷ []) ∷ m else (d, rs) ∷ rest

-- The first loop of `poll_with_client`: the groups and the points that are no requests.
unfoldable pub group_requests :
    Names
    → List PointConfig
    → HashMap ℕ (List PollRequest)
    → HashMap ℕ (List PollRequest) × List PointFailure
unfolding from_point push_request
group_requests names [] groups = (groups, [])
group_requests names (p ∷ ps) groups = elim (from_point names p) [
  | ok r ↦ group_requests names ps (push_request r groups)
  | err e ↦
      let (after, failures) = group_requests names ps groups in
      (after, record { point = p; error = e.message } ∷ failures)
]

-- The groups' outcomes one after the other; they arrive in any order.
unfoldable pub read_groups : Reads → HashMap ℕ (List PollRequest) → PollOutcome
unfolding read_group
read_groups reads [] = record { samples = []; failures = []; warnings = [] }
read_groups reads ((d, rs) ∷ groups) =
    let mine = read_group reads d rs in
    let rest = read_groups reads groups in
    record {
      samples = mine.samples ++ rest.samples;
      failures = mine.failures ++ rest.failures;
      warnings = mine.warnings ++ rest.warnings;
    }

unfoldable pub poll_with_client : Names → Reads → List PointConfig → PollOutcome
unfolding group_requests read_groups
poll_with_client names reads points =
    let (groups, failures) = group_requests names points [] in
    let read = read_groups reads groups in record read { failures = failures ++ read.failures }
