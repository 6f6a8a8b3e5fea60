-- ===== src/Bacnet/Session/Reuse.antt =====
-- Sessions over polls in crates/proto-bacnet/src/republish/mod.rs.
use netix_protocol_core.Prelude.{
  ℕ, ◌≡◌, refl, ◌⊎◌, inl, inr, ◌↔◌, true, false, List, [], Option, none, some, ◌==◌, ==_iff, arith,
  Bool-cases,
}
use netix_protocol_core.Worker.Events.{Result, ok, err, Result-cases}
use netix_protocol_core.Bacnet.Settings.{BbmdCfg, ConnCfg, NetworkInterface, resolve_bind_interface}
use netix_protocol_core.Bacnet.Session.{
  ConnFingerprint, from_cfg, same_fingerprint, same_bbmd, PollSession, Ensured, needs_rebuild, held,
  ensure_poll_client,
}

same_bbmd_iff : (a b : Option BbmdCfg) → (same_bbmd a b ≡ true) ↔ (a ≡ b)
same_bbmd_iff none none = ground arith
same_bbmd_iff none (some b) = ground arith
same_bbmd_iff (some a) none = ground arith
same_bbmd_iff (some a) (some b) =
    ground (arith, ==_iff a.address b.address, ==_iff a.port b.port, ==_iff a.ttl_secs b.ttl_secs)

same_fingerprint_iff : (a b : ConnFingerprint) → (same_fingerprint a b ≡ true) ↔ (a ≡ b)
same_fingerprint_iff a b = ground (
  arith,
  ==_iff a.interface_addr b.interface_addr,
  ==_iff a.port b.port,
  ==_iff a.broadcast b.broadcast,
  ==_iff a.discovery_window_ms b.discovery_window_ms,
  ==_iff a.apdu_timeout_ms b.apdu_timeout_ms,
  same_bbmd_iff a.bbmd b.bbmd,
)

module _ {Client : Type 0} where
  -- A session with a client for the settings, bound to an interface.
  abbrev pub session_for : ConnCfg → ℕ → Client → PollSession Client
  session_for cfg bind client = record {
    fingerprint = record {
      interface_addr = cfg.interface_addr;
      port = cfg.port;
      broadcast = cfg.broadcast;
      discovery_window_ms = cfg.discovery_window_ms;
      apdu_timeout_ms = cfg.apdu_timeout_ms;
      bbmd = cfg.bbmd;
    };
    bind_interface = bind;
    client = client;
  }

  -- There is a session, and it is for the settings.
  abbrev pub Serves : ConnCfg → ℕ → Option (PollSession Client) → Type 0
  Serves cfg bind before = (client : Client) × (before ≡ some (session_for cfg bind client))

  -- The client of the session before was stopped, and the session is one with the client that was
  -- built, or none with the error.
  abbrev pub Replaced :
      ConnCfg → ℕ → Option (PollSession Client) → Result Client → Ensured Client → Type 0
  Replaced cfg bind before (ok client) after =
      after
      ≡ record { session = some (session_for cfg bind client); stops = held before; failure = none }
  Replaced cfg bind before (err e) after =
      after ≡ record { session = none; stops = held before; failure = some e }

  kept-Serves :
      (cfg : ConnCfg) (bind : ℕ) (before : Option (PollSession Client))
      → needs_rebuild (from_cfg cfg) bind before ≡ false
      → Serves cfg bind before
  unfolding from_cfg
  kept-Serves cfg bind none h = ground (arith, h)
  kept-Serves cfg bind (some session) h =
      let same : same_fingerprint session.fingerprint (from_cfg cfg) ≡ true = ground (arith, h) in
      let bound : (session.bind_interface == bind) ≡ true = ground (arith, h) in
      let print = (same_fingerprint_iff session.fingerprint (from_cfg cfg)).0 same in
      let at = (==_iff session.bind_interface bind).0 bound in
      (
        session.client,
        λ i.
            some (record { fingerprint = print i; bind_interface = at i; client = session.client }),
      )

  Serves-kept :
      (cfg : ConnCfg) (bind : ℕ) (before : Option (PollSession Client))
      → Serves cfg bind before
      → needs_rebuild (from_cfg cfg) bind before ≡ false
  unfolding from_cfg
  Serves-kept cfg bind before (client, e) =
      let same = (same_fingerprint_iff (from_cfg cfg) (from_cfg cfg)).1 refl in
      let bound = (==_iff bind bind).1 refl in rw (e, same, bound) refl

-- A poll keeps the session and its client, and stops none, exactly if the session is for the settings at
-- hand and the interface to bind. Otherwise a new client is built, the one before being stopped, and
-- serves the new session, or there is no session and the error of the build.
pub ensure_poll_client-IsEnsured :
    {Client : Type 0} (build : ConnCfg → ℕ → Result Client) (cfg : ConnCfg)
    (interfaces : List NetworkInterface) (before : Option (PollSession Client))
    → let bind = resolve_bind_interface cfg interfaces in
      let after = ensure_poll_client build cfg interfaces before in
      (Serves cfg bind before × (after ≡ record { session = before; stops = []; failure = none }))
      ⊎ ((¬ Serves cfg bind before) × Replaced cfg bind before (build cfg bind) after)
unfolding ensure_poll_client from_cfg
ensure_poll_client-IsEnsured build cfg interfaces before =
    let bind = resolve_bind_interface cfg interfaces in
    elim (Bool-cases (needs_rebuild (from_cfg cfg) bind before)) [
      | inl new ↦
          let other : ¬ Serves cfg bind before =
            λ s. ground (arith, new, Serves-kept cfg bind before s) in
          elim (Result-cases (build cfg bind)) [
            | inl (client, e) ↦ rw (new, e) (inr (other, refl))
            | inr (f, e) ↦ rw (new, e) (inr (other, refl))
          ]
      | inr kept ↦ rw (kept) (inl (kept-Serves cfg bind before kept, refl))
    ]
