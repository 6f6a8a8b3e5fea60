-- ===== src/Modbus/Service.antt =====
-- crates/proto-modbus/src/sim/mod.rs: the answers of the simulated server. `none` is a panic.
use netix_protocol_core.Prelude.{
  ℕ, Bool, true, false, ◌&&◌, ◌==◌, leb, List, [], ◌∷◌, ◌++◌, map, filter, Option, none, some,
  is_empty, unwrap_or, if◌then◌else◌,
}
use netix_protocol_core.Prelude.Eq.{nat_eq, list_eq}
use netix_protocol_core.Prelude.Maps.{get}
use netix_protocol_core.Text.{Text, lit, trim}
use netix_protocol_core.Model.{Addressing, JsonValue}
use netix_protocol_core.Model.Floats.{Floats}
use netix_protocol_core.Simulator.Points.{SimulatedDevice}
use netix_protocol_core.Simulator.Metrics.{AppMetrics, record_request}
use netix_protocol_core.Modbus.{illegal_function, illegal_data_address}
use netix_protocol_core.Modbus.Wire.{ReadCode, Request, DeviceIdObject, Response, Reply}
use netix_protocol_core.Modbus.Image.{ModbusMap, read_registers, read_bits}

abbrev pub nonempty : Text → Option Text
nonempty t = if is_empty t then none else some t

abbrev pub text_of : Option JsonValue → Option Text
text_of (some (JsonValue.string s)) = nonempty (trim s)
text_of (some JsonValue.null) = none
text_of (some (JsonValue.bool b)) = none
text_of (some (JsonValue.number n)) = none
text_of (some (JsonValue.compound s)) = none
text_of none = none

-- The closure `text` of `identity_objects`
unfoldable pub option_text : Addressing → Text → Option Text
unfolding trim get
option_text options key = text_of (get key options)

abbrev pub tagged : ℕ → Option Text → List (ℕ × Text)
tagged id none = []
tagged id (some t) = (id, t) ∷ []

abbrev pub identity_of :
    Option Text → Option Text → Option Text → Option Text → Option Text → List (ℕ × Text)
identity_of none product_code revision product_name model_name = []
identity_of (some vendor_name) product_code revision product_name model_name =
    ((0, vendor_name) ∷ (1, unwrap_or product_code []) ∷ (2, unwrap_or revision (lit "1.0")) ∷ [])
    ++ (tagged 4 product_name ++ tagged 5 model_name)

unfoldable pub identity_objects : Addressing → List (ℕ × Text)
unfolding option_text
identity_objects options =
    identity_of (option_text options (lit "vendor_name")) (option_text options (lit "product_code"))
      (option_text options (lit "revision")) (option_text options (lit "product_name"))
      (option_text options (lit "model_name"))

abbrev in_category : ReadCode → ℕ → ℕ → Bool
in_category ReadCode.basic object_id id = leb id 2
in_category ReadCode.specific object_id id = id == object_id
in_category ReadCode.regular object_id id = true
in_category ReadCode.extended object_id id = true

abbrev as_object : ℕ × Text → DeviceIdObject
as_object (id, value) = record { id = id; value = some value }

abbrev identified : ReadCode → List DeviceIdObject → Reply
identified read_code objects =
    if is_empty objects
    then Reply.err illegal_data_address
    else Reply.ok (
        Response.read_device_identification (record {
          read_code = read_code;
          more_follows = false;
          next_object_id = 0;
          device_id_objects = objects;
        }))

unfoldable pub identify : List (ℕ × Text) → ReadCode → ℕ → Reply
identify objects read_code object_id =
    let chosen : ℕ × Text → Bool = λ o. leb object_id o.0 && in_category read_code object_id o.0 in
    if is_empty objects
    then Reply.err illegal_function
    else identified read_code (map as_object (filter chosen objects))

-- What the service holds. The lock of the simulation is held for the whole of a read.
pub record ModbusService (F32 : Type 0) : Type 0 where
  pub image : ModbusMap
  pub identity : List (ℕ × Text)
  pub sim : List (SimulatedDevice F32)
  pub peer : Text

module _ {F32 : Type 0} (fp : Floats F32) where
  abbrev replied : {A : Type 0} → (A → Response) → Option (Option A) → Option Reply
  replied f none = none
  replied f (some none) = some (Reply.err illegal_data_address)
  replied f (some (some words)) = some (Reply.ok (f words))

  unfoldable pub handle_request :
      ModbusService F32 → Request → AppMetrics → AppMetrics × Option Reply
  unfolding read_registers read_bits record_request
  handle_request s (Request.read_holding_registers addr qty) metrics = (
    record_request (lit "read_holding_registers") (some s.peer) metrics,
    replied Response.read_holding_registers (read_registers fp s.sim s.image addr qty),
  )
  handle_request s (Request.read_input_registers addr qty) metrics = (
    record_request (lit "read_input_registers") (some s.peer) metrics,
    replied Response.read_input_registers (read_registers fp s.sim s.image addr qty),
  )
  handle_request s (Request.read_coils addr qty) metrics = (
    record_request (lit "read_coils") (some s.peer) metrics,
    replied Response.read_coils (read_bits fp s.sim s.image addr qty),
  )
  handle_request s (Request.read_discrete_inputs addr qty) metrics = (
    record_request (lit "read_discrete_inputs") (some s.peer) metrics,
    replied Response.read_discrete_inputs (read_bits fp s.sim s.image addr qty),
  )
  handle_request s (Request.read_device_identification read_code object_id) metrics =
      (metrics, some (Reply.err illegal_function))
  handle_request s Request.other metrics = (metrics, some (Reply.err illegal_function))

  -- `Service::call`
  unfoldable pub call : ModbusService F32 → Request → AppMetrics → AppMetrics × Option Reply
  unfolding handle_request identify record_request
  call s (Request.read_device_identification read_code object_id) metrics = (
    record_request (lit "read_device_identification") (some s.peer) metrics,
    some (identify s.identity read_code object_id),
  )
  call s (Request.read_holding_registers addr qty) metrics =
      handle_request s (Request.read_holding_registers addr qty) metrics
  call s (Request.read_input_registers addr qty) metrics =
      handle_request s (Request.read_input_registers addr qty) metrics
  call s (Request.read_coils addr qty) metrics =
      handle_request s (Request.read_coils addr qty) metrics
  call s (Request.read_discrete_inputs addr qty) metrics =
      handle_request s (Request.read_discrete_inputs addr qty) metrics
  call s Request.other metrics = handle_request s Request.other metrics
