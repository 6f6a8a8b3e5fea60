-- ===== src/Modbus/Params.antt =====
-- The connection parameters of crates/proto-modbus/src/republish/mod.rs. A timeout is in milliseconds.
use netix_protocol_core.Prelude.{
  ℕ, ◌%◌, ◌∷◌, ◌++◌, Option, none, some, max, min, unwrap_or, if◌then◌else◌,
}
use netix_protocol_core.Prelude.Eq.{nat_eq, list_eq}
use netix_protocol_core.Prelude.Maps.{get}
use netix_protocol_core.Text.{Text, lit, trim, is_blank}
use netix_protocol_core.Text.Numbers.{decimal, parse_unsigned, u16_max, u64_max}
use netix_protocol_core.Model.{Addressing, JsonValue, json_scalar}
use netix_protocol_core.Mqtt.Publisher.{Error}
use netix_protocol_core.Worker.Events.{Result, ok, err}
use netix_protocol_core.Modbus.{word}

pub record ConnParams : Type 0 where
  pub host : Text
  pub port : ℕ
  pub unit_id : ℕ
  pub timeout : ℕ
  pub scan_concurrency : ℕ
  pub max_hosts : ℕ
  pub browse_start : ℕ
  pub browse_count : ℕ

-- `anyhow!(…)`
abbrev pub anyhow : Text → Error
anyhow message = record { message = message; chain = message }

abbrev pub scalar_of : Option JsonValue → Option Text
scalar_of none = none
scalar_of (some v) = some (json_scalar v)

unfoldable pub conn_str : Addressing → Text → Option Text
unfolding json_scalar get
conn_str conn key = scalar_of (get key conn)

abbrev pub u64_of : Option JsonValue → Option ℕ
u64_of (some (JsonValue.number n)) = n.as_u64
u64_of (some (JsonValue.string s)) = parse_unsigned u64_max (trim s)
u64_of (some JsonValue.null) = none
u64_of (some (JsonValue.bool b)) = none
u64_of (some (JsonValue.compound s)) = none
u64_of none = none

unfoldable pub conn_u64 : Addressing → Text → Option ℕ
unfolding parse_unsigned trim get
conn_u64 conn key = u64_of (get key conn)

abbrev params_for : Addressing → Text → ConnParams
params_for conn host = record {
  host = trim host;
  port = unwrap_or (conn_u64 conn (lit "port")) 502 % word;
  unit_id = unwrap_or (conn_u64 conn (lit "unit_id")) 1 % 256;
  timeout = max (unwrap_or (conn_u64 conn (lit "timeout_ms")) 1000) 100;
  scan_concurrency = max (unwrap_or (conn_u64 conn (lit "scan_concurrency")) 32) 1;
  max_hosts = max (unwrap_or (conn_u64 conn (lit "max_hosts")) 256) 1 % 4_294_967_296;
  browse_start = min (unwrap_or (conn_u64 conn (lit "browse_start")) 0) u16_max;
  browse_count = min (max (unwrap_or (conn_u64 conn (lit "browse_count")) 32) 1) u16_max;
}

abbrev params_or : Addressing → Option Text → Result ConnParams
params_or conn none = err (anyhow (lit "Modbus host is required"))
params_or conn (some host) =
    if is_blank host
    then err (anyhow (lit "Modbus host is required"))
    else ok (params_for conn host)

unfoldable pub parse_conn : Addressing → Result ConnParams
unfolding conn_str conn_u64 is_blank trim
parse_conn conn = params_or conn (conn_str conn (lit "host"))

unfoldable pub endpoint_label : Text → ℕ → Text
unfolding decimal
endpoint_label host port = host ++ (b':' ∷ decimal port)
