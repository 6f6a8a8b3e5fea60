-- ===== src/Mqtt/Connection.antt =====
-- crates/republish-core/src/mqtt.rs: the connection state after any events, and the delays of reconnects.
use netix_protocol_core.Prelude.{
  ℕ, zero, suc, ◌+◌, ◌*◌, ◌%◌, ◌^◌, ◌≤◌, ◌<◌, ◌≡◌, refl, Bool, true, false, List, [], ◌∷◌, ◌++◌,
  map, length, none, some, min, arith, is_some, if◌then◌else◌,
}
use native.Mathlib.Nat.{pow-suc}
use netix_protocol_core.Text.{Text}
use netix_protocol_core.Mqtt.{
  ConnectReturnCode, success, Polled, conn_ack, pub_ack, other, failed, Link, backoff_initial,
  backoff_max, default_link, usize_mod, apply_poll, run_events, run_delays, connection_fatal_error,
}

-- What holds of the link after any events.
pub record IsConsistent (l : Link) : Type 0 where
  pub limit : l.backoff.limit ≡ backoff_max
  pub delay_floor : backoff_initial ≤ l.backoff.current
  pub delay_bound : l.backoff.current ≤ backoff_max
  pub live : l.state.connected ≡ true → (l.state.fatal ≡ false) × (l.state.last_error ≡ none)
  pub explained : l.state.fatal ≡ true → is_some l.state.last_error ≡ true
  pub counted : (l.state.acked < usize_mod) × (l.state.reconnects < usize_mod)

apply_poll-IsConsistent : (l : Link) (e : Polled) → IsConsistent l → IsConsistent (apply_poll l e).0
unfolding apply_poll
apply_poll-IsConsistent l (conn_ack ConnectReturnCode.success) v = ground arith
apply_poll-IsConsistent l (conn_ack c) v = ground arith
apply_poll-IsConsistent l pub_ack v = ground arith
apply_poll-IsConsistent l other v = v
apply_poll-IsConsistent l (failed error) v = ground arith

run_events-keeps : (l : Link) (es : List Polled) → IsConsistent l → IsConsistent (run_events l es)
unfolding run_events
run_events-keeps l [] v = v
run_events-keeps l (e ∷ es) v =
    run_events-keeps (apply_poll l e).0 es (apply_poll-IsConsistent l e v)

-- After any events a live link has no error and is not fatal, a fatal rejection has a message, and
-- the next delay lies between one and thirty seconds.
pub run_events-IsConsistent : (es : List Polled) → IsConsistent (run_events default_link es)
run_events-IsConsistent es = run_events-keeps default_link es (ground arith)

abbrev is_pub_ack : Polled → Bool
is_pub_ack pub_ack = true
is_pub_ack _ = false

abbrev is_success : Polled → Bool
is_success (conn_ack success) = true
is_success _ = false

abbrev count_if : (Polled → Bool) → List Polled → ℕ
count_if p [] = 0
count_if p (e ∷ es) = let rest = count_if p es in if p e then suc rest else rest

acked-apply_poll :
    (l : Link) (e : Polled)
    → (apply_poll l e).0.state.acked
      ≡ (if is_pub_ack e then (l.state.acked + 1) % usize_mod else l.state.acked)
unfolding apply_poll
acked-apply_poll l (conn_ack ConnectReturnCode.success) = refl
acked-apply_poll l (conn_ack c) = refl
acked-apply_poll l pub_ack = refl
acked-apply_poll l other = refl
acked-apply_poll l (failed error) = refl

acked_grows :
    (l : Link) (es : List Polled)
    → l.state.acked < usize_mod
    → (run_events l es).state.acked ≡ (l.state.acked + count_if is_pub_ack es) % usize_mod
unfolding run_events
acked_grows l [] h = omega arith
acked_grows l (e ∷ es) h = ground (arith, acked_grows (apply_poll l e).0 es, acked-apply_poll l e)

-- `acked` counts the broker's acknowledgements, modulo the width of the counter, and nothing else.
acked-run_events :
    (es : List Polled)
    → (run_events default_link es).state.acked ≡ count_if is_pub_ack es % usize_mod
acked-run_events es = omega (arith, acked_grows default_link es)

-- The failures that end a live link: those that follow a success with no rejection or failure in
-- between.
abbrev pub drops : Bool → List Polled → ℕ
drops live [] = 0
drops live (conn_ack ConnectReturnCode.success ∷ es) = drops true es
drops live (conn_ack c ∷ es) = drops false es
drops live (pub_ack ∷ es) = drops live es
drops live (other ∷ es) = drops live es
drops live (failed error ∷ es) = let rest = drops false es in if live then suc rest else rest

reconnects_grow :
    (l : Link) (es : List Polled)
    → l.state.reconnects < usize_mod
    → (run_events l es).state.reconnects
      ≡ (l.state.reconnects + drops l.state.connected es) % usize_mod
unfolding run_events apply_poll
reconnects_grow l [] h = omega arith
reconnects_grow l (conn_ack ConnectReturnCode.success ∷ es) h = reconnects_grow _ es h
reconnects_grow l (conn_ack ConnectReturnCode.refused_protocol_version ∷ es) h =
    reconnects_grow _ es h
reconnects_grow l (conn_ack ConnectReturnCode.bad_client_id ∷ es) h = reconnects_grow _ es h
reconnects_grow l (conn_ack ConnectReturnCode.service_unavailable ∷ es) h = reconnects_grow _ es h
reconnects_grow l (conn_ack ConnectReturnCode.bad_user_name_password ∷ es) h =
    reconnects_grow _ es h
reconnects_grow l (conn_ack ConnectReturnCode.not_authorized ∷ es) h = reconnects_grow _ es h
reconnects_grow l (pub_ack ∷ es) h = reconnects_grow _ es h
reconnects_grow l (other ∷ es) h = reconnects_grow l es h
reconnects_grow l (failed error ∷ es) h =
    ground (arith, reconnects_grow (apply_poll l (failed error)).0 es)

-- `reconnects` counts the drops of a live link, modulo the width of the counter; a failure of a link
-- that is down, or that the broker rejected, is not counted.
reconnects-run_events :
    (es : List Polled) → (run_events default_link es).state.reconnects ≡ drops false es % usize_mod
reconnects-run_events es = omega (arith, reconnects_grow default_link es)

fatal-apply_poll :
    (l : Link) (e : Polled)
    → l.state.fatal ≡ true
    → is_success e ≡ false
    → (apply_poll l e).0.state.fatal ≡ true
unfolding apply_poll
fatal-apply_poll l (conn_ack ConnectReturnCode.success) h n = cc
fatal-apply_poll l (conn_ack c) h n = refl
fatal-apply_poll l pub_ack h n = h
fatal-apply_poll l other h n = h
fatal-apply_poll l (failed error) h n = h

-- A fatal rejection lasts until the broker accepts a connection: no failure, acknowledgement or
-- further rejection clears it.
fatal-run_events :
    (l : Link) (es : List Polled)
    → l.state.fatal ≡ true
    → count_if is_success es ≡ 0
    → (run_events l es).state.fatal ≡ true
unfolding run_events
fatal-run_events l [] h n = h
fatal-run_events l (e ∷ es) h n =
    ground (arith, fatal-run_events (apply_poll l e).0 es, fatal-apply_poll l e)

run_events-append :
    (l : Link) (es fs : List Polled) → run_events l (es ++ fs) ≡ run_events (run_events l es) fs
unfolding run_events
run_events-append l [] fs = refl
run_events-append l (e ∷ es) fs = run_events-append (apply_poll l e).0 es fs

-- While a rejection lasts, a transport failure replaces its message: what is then reported as the
-- fatal rejection is the text of that failure.
pub fatal_message_replaced :
    (l : Link) (es : List Polled) (error : Text)
    → l.state.fatal ≡ true
    → count_if is_success es ≡ 0
    → connection_fatal_error (run_events l (es ++ failed error ∷ [])).state ≡ some error
fatal_message_replaced l es error h n =
    rw (run_events-append l es (failed error ∷ []))
      (last (run_events l es) (fatal-run_events l es h n))
  where
    last :
        (k : Link)
        → k.state.fatal ≡ true
        → connection_fatal_error (run_events k (failed error ∷ [])).state ≡ some error
    last k f = unfold run_events connection_fatal_error in (rw f)

abbrev power_delays : ℕ → ℕ → List ℕ
power_delays k zero = []
power_delays k (suc n) = min (backoff_initial * 2 ^ k) backoff_max ∷ power_delays (suc k) n

delays_from :
    (k : ℕ) (l : Link) (errors : List Text)
    → l.backoff.limit ≡ backoff_max
    → l.backoff.current ≡ min (backoff_initial * 2 ^ k) backoff_max
    → run_delays l (map failed errors) ≡ power_delays k (length errors)
unfolding run_delays
delays_from k l [] m c = refl
delays_from k l (error ∷ errors) m c =
    ground (arith, delays_from (suc k) (apply_poll l (failed error)).0 errors, pow-suc 2 k)

-- After the broker's answer, consecutive failures wait one second, then twice as long each time, and
-- never longer than thirty seconds.
delays_after_answer :
    (l : Link) (code : ConnectReturnCode) (errors : List Text)
    → IsConsistent l
    → run_delays (apply_poll l (conn_ack code)).0 (map failed errors)
      ≡ power_delays 0 (length errors)
delays_after_answer l code errors v =
    delays_from 0 _ errors (unfold apply_poll in v.limit) (unfold apply_poll in refl)
