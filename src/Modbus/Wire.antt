-- ===== src/Modbus/Wire.antt =====
-- The values of the Modbus library that crates/proto-modbus exchanges: requests, responses and what a
-- client call returns. The bytes of an identification object are those of its text in UTF-8.
use netix_protocol_core.Prelude.{ℕ, Bool, List, Option}
use netix_protocol_core.Text.{Text}
use netix_protocol_core.Modbus.{ExceptionCode}

pub data ReadCode : Type 0 where
  basic regular extended specific : ReadCode

-- The last one stands for the requests that the simulator does not tell apart.
pub data Request : Type 0 where
  read_coils : ℕ → ℕ → Request
  read_discrete_inputs : ℕ → ℕ → Request
  read_input_registers : ℕ → ℕ → Request
  read_holding_registers : ℕ → ℕ → Request
  read_device_identification : ReadCode → ℕ → Request
  other : Request

-- An object whose bytes are no UTF-8 has no text.
pub record DeviceIdObject : Type 0 where
  pub id : ℕ
  pub value : Option Text

pub record ReadDeviceIdentificationResponse : Type 0 where
  pub read_code : ReadCode
  pub more_follows : Bool
  pub next_object_id : ℕ
  pub device_id_objects : List DeviceIdObject

pub data Response : Type 0 where
  read_coils : List Bool → Response
  read_discrete_inputs : List Bool → Response
  read_input_registers : List ℕ → Response
  read_holding_registers : List ℕ → Response
  read_device_identification : ReadDeviceIdentificationResponse → Response

pub data Reply : Type 0 where
  ok : Response → Reply
  err : ExceptionCode → Reply

-- A client call under a timeout: an elapsed timeout, a transport error with its text, an exception with
-- its `Debug` text, or the value.
pub data Answer (A : Type 0) : Type 0 where
  elapsed : Answer A
  failed : Text → Answer A
  exception : Text → Answer A
  value : A → Answer A
