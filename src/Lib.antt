-- ===== src/Lib.antt =====
-- The core of netix-protocol-core: the republisher that polls points of building-automation devices
-- and publishes them over MQTT (crates/republish-core), the device simulator (crates/sim-core), and the
-- Modbus and BACnet adapters (crates/proto-modbus, crates/proto-bacnet).
--
-- Parts and files. Each file names at its top the code that it is about.
--   Model, Model/Identity: crates/republish-core/src/model.rs. `from_point` is the identity of a point,
--     its addressing as sorted text; every history and status is keyed by it.
--   Config: the MQTT settings of crates/republish-core/src/config.rs. Config/App: `AppConfig`, its
--     validation and migration. Config/Checks: what they guarantee.
--   Topic: crates/republish-core/src/topic.rs. Topic/Segments: sanitised segments. Topic/Validity:
--     validation, and the levels of the topics.
--   Backoff: crates/republish-core/src/worker/backoff.rs. Backoff/Schedule: what updates do.
--   Mqtt: crates/republish-core/src/mqtt.rs, the state that the event loop of the broker client keeps.
--     Mqtt/Connection: what it is after any events. Mqtt/Publisher: the `MqttPublisher` trait as a
--     record of operations, which the worker takes as a parameter, and the health message. Mqtt/Samples:
--     `RumqttPublisher` and the functions that publish samples over it.
--   Import: crates/republish-core/src/import.rs. Import/Identities and Import/Merging: the merge.
--   Logs: crates/republish-core/src/log.rs (Logs/Ring) and crates/sim-core/src/app/log.rs
--     (Logs/Collapse).
--   Worker: crates/republish-core/src/worker. Events: events.rs. Of mod.rs, Devices has the tests for
--     due points, Refresh the resolution of devices, Publish `publish_samples` and `publish_envelope`,
--     State and Loop the body of `run_republisher`, Boot its start and the whole run, Start discovery,
--     browsing and the scan, Republisher `spawn_poll_once` and `spawn_republisher`. Adapter is the
--     interface of a protocol adapter (crates/republish-core/src/protocol.rs, crates/proto-api).
--     Worker/Lifecycles and the files below Loop, Publish, Refresh, Start and Republisher hold proofs;
--     Publish/Agreement compares the worker's publishing with that of mqtt.rs.
--   Simulator: `SimulatorConfig::expand` of crates/sim-core/src/config.rs. Simulator/Expansion: device
--     ids. Simulator/Failure: errors. Simulator/Numbering: point numbers. Simulator/Profiles: the signal
--     profiles of simulation/profiles.rs, Ticking their `tick`, Walking and Runs what ticks keep.
--     Simulator/Points: models.rs and mod.rs, Updating their ticks, Layout what updates keep, Lookup
--     which point a value is of.
--     Simulator/Metrics: app/metrics.rs. Simulator/Keys: the keys that `base_key` makes of device names.
--   Model/Neutral: the neutral kinds and values of crates/proto-api/src/lib.rs, with `base_key`.
--     Model/Floats: the interface of float operations.
--   Modbus: Image is sim/map.rs of crates/proto-modbus (Reading, Assembly and Placing say what is read
--     where), Service is sim/mod.rs, Wire the values of the Modbus library. Of republish/mod.rs, Params
--     has the settings, Client the reads and polls (Words: pairs of registers; Served: a read of the
--     simulated service), Discovery the probes (Named: identification; Ascending: the sorted outcome),
--     Browse the scan of tables (Gaps, Polled). Scan is republish/scan.rs, Scan/Hosts its blocks.
--   Bacnet: Value is republish/value.rs of crates/proto-bacnet (Utf8, Framing, Numbers, Decoding;
--     Identifiers its names), Refresh is refresh.rs (Ranges, Partition, Rounds, Outcome). Of
--     republish/mod.rs, Settings has the settings, Session the client that polls share (Reuse), Requests
--     and Poll the polls (Pigeonhole, Gathering, Answered), Objects the browse (Entries), Polled a browsed
--     object that is polled, Discovery the discovery (Table, Distinct).
--   Prelude, Text: Boolean tests, lists, maps and text shared by all (Text/Digits: decimal text). Tests:
--     examples; Tests/Numerals has natural numbers in place of floats.
--
-- How they interact: `run_republisher` reads the adapter's answers, tests points with Devices, keeps
-- device states with Backoff and Refresh, builds topics with Topic, publishes through Publish on an
-- `MqttPublisher`, and sends Events; `spawn_republisher` resolves its points by Start, which merges
-- discovered points with Import. A simulated device's points (Simulator/Points) are laid out in the
-- Modbus image; the service answers from it, and Modbus/Client reads such answers. What a browse finds is
-- imported by Import and polled by the same adapter's poll.
--
-- Parameters. What the adapters get from outside is an argument: the answers of a Modbus client as
-- functions of the request (Context, Identify, Connect), those of a BACnet client (Reads, Scan, Bind, and
-- Client with a state of its own), the names that the BACnet library knows (Names), the parser of IPv4
-- addresses and the resolver. Floats are a record of operations (Floats) with two laws, that `to_bits`
-- has 32 bits and that the clamped conversion to u16 has 16; Ordered adds what `<=` says of `<`.
--
-- Correspondence. Mutable locals are the fields of a state record (LoopState, Publishing, Merge, Scan)
-- that each function takes and returns; the publisher's own state is a parameter `P`. A channel is the
-- list of events sent. What a cycle meets from outside is a Tick: the clock at each reading, the
-- answers of the adapter as functions of the request, and what the event loop did to the publisher in
-- between. Text is a list of code points. A map is an association list and a set a list, whose
-- order stands for the unspecified order of iteration. A panic is `none`.
--
-- Bounds and fuel. Counters of the connection wrap at 2 ^ 64 and simulator numbers at 2 ^ 32, written
-- out; durations are nanoseconds that saturate at Duration::MAX; instants, sequence numbers, repeat
-- counts and the counters of a cycle are not bounded, since they do not reach their width. The loop
-- that collapses underscores runs on fuel, as much as the text has characters: a round that replaces
-- makes the text shorter. Decimal output has fuel for more digits than the number has. A chunk
-- takes at least one element, so a loop over chunks has as much fuel as there are elements. Casts to u16,
-- u8 and u32 wrap, written out.
--
-- Not modelled: the broker client, TLS, sockets, threads and runtimes; serde decoding, files and the
-- GUI; the seasonality engine, which reads calendars; the listeners of the simulators, the BACnet
-- simulator and the OPC UA adapter, which call other libraries; the vendored BACnet transport. A float is
-- its JSON number and its text with three decimals.
pub mod Prelude
pub mod Text
pub mod Model
pub mod Config
pub mod Topic
pub mod Backoff
pub mod Mqtt
pub mod Import
pub mod Logs
pub mod Worker
pub mod Simulator
pub mod Modbus
pub mod Bacnet
pub mod Tests
