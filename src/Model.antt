-- ===== src/Model.antt =====
-- crates/republish-core/src/model.rs: points, samples, failures, per-point status and statistics.
-- Values of serde_json and of `f64` are what the code asks of them: a number is its `as_u64` and its
-- text, an array or object its text, a float its JSON number (`from_f64`) and its `{:.3}` text.
pub mod Floats
pub mod Identity
pub mod Neutral
use netix_protocol_core.Prelude.{
  ℕ, suc, ◌+◌, ◌-◌, Bool, true, false, List, [], ◌∷◌, ◌++◌, map, Option, none, some, min, is_empty,
  if◌then◌else◌,
}
use netix_protocol_core.Prelude.Int.{ℤ}
use netix_protocol_core.Text.{Text, lit, is_blank, join}
use netix_protocol_core.Text.Numbers.{u32_max}

pub record JsonNumber : Type 0 where
  pub as_u64 : Option ℕ
  pub display : Text

-- `serde_json::Value`
pub data JsonValue : Type 0 where
  null : JsonValue
  bool : Bool → JsonValue
  number : JsonNumber → JsonValue
  string : Text → JsonValue
  compound : Text → JsonValue

-- `proto_api::Addressing`, a `BTreeMap`: its entries in the order of their keys
abbrev pub Addressing : Type 0
Addressing = List (Text × JsonValue)

pub record PointConfig : Type 0 where
  pub enabled : Bool
  pub device_key : Text
  pub addressing : Addressing
  pub tag_path : Text
  pub poll_interval_secs : ℕ

pub record DiscoveredDevice : Type 0 where
  pub key : Text
  pub instance_id : Option ℕ
  pub address : Text
  pub detail : Text
  pub vendor_id : Option ℕ
  pub vendor_name : Option Text
  pub model_name : Option Text

pub record Float : Type 0 where
  pub json : Option JsonNumber
  pub fixed : Text

pub data TelemetryValue : Type 0 where
  number : Float → TelemetryValue
  text : Text → TelemetryValue

pub record DiscoveredPoint : Type 0 where
  pub device_key : Text
  pub name : Option Text
  pub description : Option Text
  pub units : Option Text
  pub value : Option TelemetryValue
  pub addressing : Addressing
  pub suggested_tag_path : Text

pub record PointSample : Type 0 where
  pub point : PointConfig
  pub value : TelemetryValue
  pub topic : Text
  pub timestamp_ms : ℤ

pub record PointFailure : Type 0 where
  pub point : PointConfig
  pub error : Text

pub record PollOutcome : Type 0 where
  pub samples : List PointSample
  pub failures : List PointFailure
  pub warnings : List Text

pub record DiscoverOutcome : Type 0 where
  pub devices : List DiscoveredDevice
  pub warnings : List Text

pub record BrowseOutcome : Type 0 where
  pub points : List DiscoveredPoint
  pub warnings : List Text

pub record RefreshOutcome : Type 0 where
  pub resolved : List ℕ
  pub unresolved : List ℕ

pub record PublishStats : Type 0 where
  pub queued : ℕ
  pub published : ℕ
  pub acked : ℕ
  pub failed : ℕ
  pub reconnects : ℕ
  pub last_error : Option Text

pub record PointStatus : Type 0 where
  pub last_value : Option TelemetryValue
  pub last_sample_ms : Option ℤ
  pub stale : Bool
  pub consecutive_failures : ℕ
  pub last_error : Option Text
  pub last_publish_error : Option Text

-- `json_scalar`
unfoldable pub json_scalar : JsonValue → Text
json_scalar (JsonValue.string s) = s
json_scalar JsonValue.null = []
json_scalar (JsonValue.bool true) = lit "true"
json_scalar (JsonValue.bool false) = lit "false"
json_scalar (JsonValue.number n) = n.display
json_scalar (JsonValue.compound s) = s

unfoldable pub as_json_value : TelemetryValue → JsonValue
as_json_value (TelemetryValue.number v) = elim v.json [
  | none ↦ JsonValue.null
  | some n ↦ JsonValue.number n
]
as_json_value (TelemetryValue.text v) = JsonValue.string v

-- `Display` of a telemetry value
unfoldable pub show_value : TelemetryValue → Text
show_value (TelemetryValue.number v) = v.fixed
show_value (TelemetryValue.text v) = v

abbrev summary_entry : Text × JsonValue → Text
summary_entry (k, v) = k ++ (lit "=" ++ json_scalar v)

unfoldable addressing_summary : PointConfig → Text
unfolding json_scalar join
addressing_summary p = join (lit " ") (map summary_entry p.addressing)

unfoldable pub display_name : PointConfig → Text
unfolding addressing_summary is_blank
display_name p =
    let key = if is_blank p.device_key then lit "(device)" else p.device_key in
    key ++ (lit " [" ++ (addressing_summary p ++ lit "]"))

abbrev pub empty_stats : PublishStats
empty_stats = record {
  queued = 0;
  published = 0;
  acked = 0;
  failed = 0;
  reconnects = 0;
  last_error = none;
}

-- `PublishStats::record_failure`
unfoldable pub record_failure : Text → PublishStats → PublishStats
record_failure error s = record s { failed = s.failed + 1; last_error = some error }

abbrev pub default_status : PointStatus
default_status = record {
  last_value = none;
  last_sample_ms = none;
  stale = true;
  consecutive_failures = 0;
  last_error = none;
  last_publish_error = none;
}

unfoldable pub record_sample : PointSample → PointStatus → PointStatus
record_sample sample s = record s {
  last_value = some sample.value;
  last_sample_ms = some sample.timestamp_ms;
  stale = false;
  consecutive_failures = 0;
  last_error = none;
}

-- `saturating_add(1)` on a `u32`
unfoldable pub record_read_failure : Text → PointStatus → PointStatus
record_read_failure error s = record s {
  stale = true;
  consecutive_failures = min (s.consecutive_failures + 1) u32_max;
  last_error = some error;
}

unfoldable pub record_publish_success : PointStatus → PointStatus
record_publish_success s = record s { last_publish_error = none }

unfoldable pub record_publish_failure : Text → PointStatus → PointStatus
record_publish_failure error s = record s { last_publish_error = some error }
