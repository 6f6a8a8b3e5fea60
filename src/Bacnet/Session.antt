-- ===== src/Bacnet/Session.antt =====
-- The poll session of crates/proto-bacnet/src/republish/mod.rs: `ensure_poll_client`, with the client
-- kept between polls. `build` is `build_client` at the moment of the call.
pub mod Reuse
use netix_protocol_core.Prelude.{
  ℕ, Bool, true, false, not, ◌&&◌, ◌||◌, List, [], ◌∷◌, Option, none, some, ◌==◌, if◌then◌else◌,
}
use netix_protocol_core.Mqtt.Publisher.{Error}
use netix_protocol_core.Worker.Events.{Result, ok, err}
use netix_protocol_core.Bacnet.Settings.{BbmdCfg, ConnCfg, NetworkInterface, resolve_bind_interface}

pub record ConnFingerprint : Type 0 where
  pub interface_addr : ℕ
  pub port : ℕ
  pub broadcast : ℕ
  pub discovery_window_ms : ℕ
  pub apdu_timeout_ms : ℕ
  pub bbmd : Option BbmdCfg

-- `ConnFingerprint::from_cfg`
unfoldable pub from_cfg : ConnCfg → ConnFingerprint
from_cfg cfg = record {
  interface_addr = cfg.interface_addr;
  port = cfg.port;
  broadcast = cfg.broadcast;
  discovery_window_ms = cfg.discovery_window_ms;
  apdu_timeout_ms = cfg.apdu_timeout_ms;
  bbmd = cfg.bbmd;
}

abbrev pub same_bbmd : Option BbmdCfg → Option BbmdCfg → Bool
same_bbmd none none = true
same_bbmd none (some b) = false
same_bbmd (some a) none = false
same_bbmd (some a) (some b) =
    a.address == b.address && (a.port == b.port && a.ttl_secs == b.ttl_secs)

-- The derived `PartialEq`
abbrev pub same_fingerprint : ConnFingerprint → ConnFingerprint → Bool
same_fingerprint a b =
    a.interface_addr == b.interface_addr
    && (a.port == b.port
        && (a.broadcast == b.broadcast
            && (a.discovery_window_ms == b.discovery_window_ms
                && (a.apdu_timeout_ms == b.apdu_timeout_ms && same_bbmd a.bbmd b.bbmd))))

pub record PollSession (Client : Type 0) : Type 0 where
  pub fingerprint : ConnFingerprint
  pub bind_interface : ℕ
  pub client : Client

-- The session afterwards, the clients that were stopped, and the error of `build_client`.
pub record Ensured (Client : Type 0) : Type 0 where
  pub session : Option (PollSession Client)
  pub stops : List Client
  pub failure : Option Error

module _ {Client : Type 0} where
  abbrev pub needs_rebuild : ConnFingerprint → ℕ → Option (PollSession Client) → Bool
  needs_rebuild fingerprint bind none = true
  needs_rebuild fingerprint bind (some session) =
      not (same_fingerprint session.fingerprint fingerprint) || not (session.bind_interface == bind)

  abbrev pub held : Option (PollSession Client) → List Client
  held none = []
  held (some session) = session.client ∷ []

  abbrev rebuilt :
      ConnFingerprint → ℕ → Option (PollSession Client) → Result Client → Ensured Client
  rebuilt fingerprint bind session (err e) = record {
    session = none;
    stops = held session;
    failure = some e;
  }
  rebuilt fingerprint bind session (ok client) = record {
    session = some (record { fingerprint = fingerprint; bind_interface = bind; client = client });
    stops = held session;
    failure = none;
  }

  unfoldable pub ensure_poll_client :
      (ConnCfg → ℕ → Result Client)
      → ConnCfg
      → List NetworkInterface
      → Option (PollSession Client)
      → Ensured Client
  unfolding from_cfg resolve_bind_interface
  ensure_poll_client build cfg interfaces session =
      let bind = resolve_bind_interface cfg interfaces in
      let fingerprint = from_cfg cfg in
      if needs_rebuild fingerprint bind session
      then rebuilt fingerprint bind session (build cfg bind)
      else record { session = session; stops = []; failure = none }
