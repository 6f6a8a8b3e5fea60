-- ===== src/Tests.antt =====
-- Examples: the theorems at concrete inputs, with their hypotheses met.
pub mod Fixtures
pub mod Topics
pub mod Links
pub mod Polls
pub mod Workers
pub mod Devices
pub mod Configs
pub mod Numerals
pub mod Simulation
pub mod Modbuses
pub mod Bacnets
