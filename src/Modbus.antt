-- ===== src/Modbus.antt =====
-- The Modbus adapter, crates/proto-modbus: the simulated image and its service, and the client that
-- scans, browses and polls. Registers are 16-bit words and addresses 16-bit numbers.
pub mod Image
pub mod Service
pub mod Wire
pub mod Params
pub mod Scan
pub mod Discovery
pub mod Browse
pub mod Client
use netix_protocol_core.Prelude.{ℕ}

abbrev pub word : ℕ
word = 65_536

-- `ExceptionCode` of the protocol: the codes that the service answers with.
pub data ExceptionCode : Type 0 where
  illegal_function illegal_data_address : ExceptionCode
