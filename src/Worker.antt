-- ===== src/Worker.antt =====
-- crates/republish-core/src/worker: the poll and publish loop, its events and its parts.
pub mod Events
pub mod Devices
pub mod Refresh
pub mod Publish
pub mod Adapter
pub mod State
pub mod Loop
pub mod Boot
pub mod Lifecycles
pub mod Start
pub mod Republisher
