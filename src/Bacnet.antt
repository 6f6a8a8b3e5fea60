-- ===== src/Bacnet.antt =====
-- The BACnet republisher adapter, crates/proto-bacnet/src/republish: values, the device refresh, and the
-- keys of devices. The client of the BACnet library is a parameter; a byte is a number below 256.
pub mod Value
pub mod Identifiers
pub mod Refresh
pub mod Requests
pub mod Poll
pub mod Settings
pub mod Session
pub mod Objects
pub mod Polled
pub mod Discovery
