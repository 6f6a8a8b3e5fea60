-- ===== src/Worker/Adapter.antt =====
-- What the worker asks of a protocol: the trait `RepublishProtocol` of
-- crates/republish-core/src/protocol.rs, with the kinds of crates/proto-api/src/lib.rs. An adapter is
-- given by its answers to one job; `browse` gets the position of the device in the list browsed. The
-- refreshes and polls of the loop, which differ from cycle to cycle, are in Worker/State and Worker/Boot.
use netix_protocol_core.Prelude.{ℕ, Bool, true, false, List, ◌&&◌}
use netix_protocol_core.Model.{
  BrowseOutcome, DiscoverOutcome, DiscoveredDevice, PointConfig, PollOutcome,
}
use netix_protocol_core.Worker.Events.{Result}

pub data DiscoveryKind : Type 0 where
  broadcast endpoint_query subnet_scan manual_only : DiscoveryKind

pub data BrowseKind : Type 0 where
  object_list address_space register_scan none : BrowseKind

pub record Capabilities : Type 0 where
  pub discovery : DiscoveryKind
  pub browse : BrowseKind

pub record RepublishProtocol : Type 0 where
  pub capabilities : Capabilities
  pub discover : Result DiscoverOutcome
  pub browse : ℕ → DiscoveredDevice → Result BrowseOutcome
  pub poll : List PointConfig → Result PollOutcome

abbrev discovers : DiscoveryKind → Bool
discovers DiscoveryKind.manual_only = false
discovers DiscoveryKind.broadcast = true
discovers DiscoveryKind.endpoint_query = true
discovers DiscoveryKind.subnet_scan = true

abbrev browses : BrowseKind → Bool
browses BrowseKind.none = false
browses BrowseKind.object_list = true
browses BrowseKind.address_space = true
browses BrowseKind.register_scan = true

unfoldable pub supports_discovery : Capabilities → Bool
supports_discovery caps = discovers caps.discovery && browses caps.browse
