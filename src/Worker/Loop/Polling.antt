-- ===== src/Worker/Loop/Polling.antt =====
-- Which points a cycle of crates/republish-core/src/worker/mod.rs polls, and when it polls them again.
use netix_protocol_core.Prelude.{
  ℕ, ◌-◌, ◌*◌, ◌≤◌, ◌≡◌, ◌↔◌, refl, Bool, true, false, List, [], ◌∷◌, some, arith, filter, is_empty,
  Bool-cases, inl, inr, Option-cases,
}
use mathlib.Core.List.{Memᴰ}
use netix_protocol_core.Prelude.Eq.{beq_refl, nat_eq, list_eq, pair_eq}
use netix_protocol_core.Prelude.Maps.{HashMap, HashSet, contains, get, insert, get-insert}
use netix_protocol_core.Model.{PointConfig, PollOutcome}
use netix_protocol_core.Model.Identity.{PointIdentity, from_point}
use netix_protocol_core.Backoff.{DeviceBackoff, second}
use netix_protocol_core.Mqtt.Publisher.{MqttPublisher}
use netix_protocol_core.Worker.Events.{ok}
use netix_protocol_core.Worker.Devices.{
  device_instance, device_blocked, interval_passed, is_due, is_enabled, due_points,
}
use netix_protocol_core.Worker.State.{Job, Tick, LoopState, mark_polled}
use netix_protocol_core.Worker.Loop.{
  take_refresh, keepalive, reresolve, refresh_devices, report_fatal, take_reads, take_samples,
  take_poll, due_now, poll_due, before_poll, report_health, cycle,
}

module _ {A : Type 0} (q : A → Bool) where
  Memᴰ-filter : {a : A} (xs : List A) → Memᴰ a xs → q a ≡ true → Memᴰ a (filter q xs)
  Memᴰ-filter [] m h = elim m [ ]
  Memᴰ-filter (x ∷ xs) (Memᴰ.head e) h = rw (← e, h) (Memᴰ.head refl)
  Memᴰ-filter (x ∷ xs) (Memᴰ.tail m) h = elim (Bool-cases (q x)) [
    | inl t ↦ rw t (Memᴰ.tail (Memᴰ-filter xs m h))
    | inr f ↦ rw f (Memᴰ-filter xs m h)
  ]

  Memᴰ_of_cons :
      {a : A} (x : A) (l xs : List A)
      → q x ≡ true
      → Memᴰ a (x ∷ l)
      → (Memᴰ a l → (q a ≡ true) × Memᴰ a xs)
      → (q a ≡ true) × Memᴰ a (x ∷ xs)
  Memᴰ_of_cons x l xs t (Memᴰ.head e) ih = (rw e t, Memᴰ.head e)
  Memᴰ_of_cons x l xs t (Memᴰ.tail m) ih = ((ih m).0, Memᴰ.tail (ih m).1)

  Memᴰ_of_filter : {a : A} (xs : List A) → Memᴰ a (filter q xs) → (q a ≡ true) × Memᴰ a xs
  Memᴰ_of_filter [] m = elim m [ ]
  Memᴰ_of_filter (x ∷ xs) m = elim (Bool-cases (q x)) [
    | inl t ↦ Memᴰ_of_cons x (filter q xs) xs t (rw t at m) (λ k. Memᴰ_of_filter xs k)
    | inr f ↦
        let r : (q _ ≡ true) × Memᴰ _ xs = Memᴰ_of_filter xs (rw f at m) in (r.0, Memᴰ.tail r.1)
  ]

module _ (now : ℕ) (unresolved : HashSet ℕ) (backoffs : HashMap ℕ DeviceBackoff)
    (last_poll : HashMap PointIdentity ℕ) where
  -- A point may be polled: it is enabled, its device is resolved and out of backoff, and its poll
  -- interval has passed.
  pub record MayPoll (p : PointConfig) : Type 0 where
    pub enabled : p.enabled ≡ true
    pub resolved : (i : ℕ) → device_instance p ≡ some i → contains i unresolved ≡ false
    pub rested :
        (i : ℕ) (b : DeviceBackoff)
        → device_instance p ≡ some i
        → get i backoffs ≡ some b
        → b.until ≤ now
    pub interval :
        (at : ℕ) → get (from_point p) last_poll ≡ some at → p.poll_interval_secs * second ≤ now - at

  due-MayPoll :
      (p : PointConfig)
      → p.enabled ≡ true
      → is_due now unresolved backoffs last_poll p ≡ true
      → MayPoll p
  unfolding device_blocked
  due-MayPoll p e d = record {
    enabled = e;
    resolved = λ i q. ground arith;
    rested = λ i b q r. ground arith;
    interval = λ at q. ground arith;
  }

  interval_of_MayPoll :
      (p : PointConfig) → MayPoll p → interval_passed p now (get (from_point p) last_poll) ≡ true
  interval_of_MayPoll p m = elim (Option-cases (get (from_point p) last_poll)) [
    | inl e ↦ rw e
    | inr (at, e) ↦ rw e (ground (arith, m.interval at e))
  ]

  unblocked_of_MayPoll :
      (p : PointConfig) → MayPoll p → device_blocked p now unresolved backoffs ≡ false
  unfolding device_blocked
  unblocked_of_MayPoll p m = elim (Option-cases (device_instance p)) [
    | inl e ↦ rw e
    | inr (i, e) ↦
        rw (e, m.resolved i e)
          (elim (Option-cases (get i backoffs)) [
            | inl f ↦ rw f
            | inr (b, f) ↦ rw f (ground (arith, m.rested i b e f))
          ])
  ]

  due_of_MayPoll : (p : PointConfig) → MayPoll p → is_due now unresolved backoffs last_poll p ≡ true
  due_of_MayPoll p m = rw (unblocked_of_MayPoll p m, interval_of_MayPoll p m)

  abbrev due : List PointConfig → List PointConfig
  due points = due_points now points unresolved backoffs last_poll

  mem-MayPoll :
      (p : PointConfig) (points : List PointConfig)
      → Memᴰ p (filter (is_due now unresolved backoffs last_poll) (filter is_enabled points))
      → MayPoll p × Memᴰ p points
  mem-MayPoll p points h =
      let (d, h') =
        Memᴰ_of_filter (is_due now unresolved backoffs last_poll) (filter is_enabled points) h in
      let (e, k) = Memᴰ_of_filter is_enabled points h' in (due-MayPoll p e d, k)

  -- The points that are polled are exactly the configured points that may be polled.
  pub due_points-mem :
      (p : PointConfig) (points : List PointConfig)
      → Memᴰ p (due points) ↔ (MayPoll p × Memᴰ p points)
  unfolding due_points
  due_points-mem p points = (
    mem-MayPoll p points,
    λ h.
        Memᴰ-filter (is_due now unresolved backoffs last_poll) (filter is_enabled points)
          (Memᴰ-filter is_enabled points h.1 h.0.enabled) (due_of_MayPoll p h.0),
  )

mark_polled_kept :
    (now : ℕ) (p : PointConfig) (ps : List PointConfig) (m : HashMap PointIdentity ℕ)
    → get (from_point p) m ≡ some now
    → get (from_point p) (mark_polled now ps m) ≡ some now
unfolding mark_polled
mark_polled_kept now p [] m h = h
mark_polled_kept now p (x ∷ ps) m h =
    mark_polled_kept now p ps (insert (from_point x) now m)
      (ground (arith, get-insert (from_point x) (from_point p) now m))

get-mark_polled :
    (now : ℕ) (p : PointConfig) (ps : List PointConfig) (m : HashMap PointIdentity ℕ)
    → Memᴰ p ps
    → get (from_point p) (mark_polled now ps m) ≡ some now
unfolding mark_polled
get-mark_polled now p [] m h = elim h [ ]
get-mark_polled now p (x ∷ ps) m (Memᴰ.head e) =
    mark_polled_kept now p ps (insert (from_point x) now m)
      (rw (← e, get-insert (from_point p) (from_point p) now m, beq_refl (from_point p)))
get-mark_polled now p (x ∷ ps) m (Memᴰ.tail h) =
    get-mark_polled now p ps (insert (from_point x) now m) h

is_empty_of_mem : {p : PointConfig} (ps : List PointConfig) → Memᴰ p ps → is_empty ps ≡ false
is_empty_of_mem [] m = elim m [ ]
is_empty_of_mem (x ∷ ps) m = refl

module _ {P : Type 0} (broker : MqttPublisher P) (job : Job) where
  last_poll-take_poll :
      (now : ℕ) (due : List PointConfig) (outcome : PollOutcome) (s : LoopState P)
      → (take_poll broker job now due (ok outcome) s).last_poll ≡ mark_polled now due s.last_poll
  unfolding take_poll take_reads take_samples
  last_poll-take_poll now due outcome s = ground arith

  last_poll-poll_due :
      (t : Tick P) (s : LoopState P) (p : PointConfig) (outcome : PollOutcome)
      → Memᴰ p (due_now broker job t s)
      → t.poll (due_now broker job t s) ≡ ok outcome
      → (poll_due broker job t s).last_poll ≡ mark_polled t.now (due_now broker job t s) s.last_poll
  unfolding poll_due
  last_poll-poll_due t s p outcome m e =
      rw (is_empty_of_mem (due_now broker job t s) m, e)
        (last_poll-take_poll t.now (due_now broker job t s) outcome s)

  last_poll-before_poll :
      (t : Tick P) (s : LoopState P) → (before_poll broker job t s).last_poll ≡ s.last_poll
  unfolding before_poll refresh_devices keepalive reresolve take_refresh report_fatal
  last_poll-before_poll t s = ground arith

  last_poll-report_health :
      (t : Tick P) (s : LoopState P) → (report_health broker job t s).last_poll ≡ s.last_poll
  unfolding report_health
  last_poll-report_health t s = ground arith

  -- A point whose poll succeeded in a cycle is polled in the next one only if its interval has passed
  -- since, whatever the adapter, the broker and the refreshes do.
  pub polled_waits :
      (t u : Tick P) (s : LoopState P) (p : PointConfig) (outcome : PollOutcome)
      → Memᴰ p (due_now broker job t (before_poll broker job t s))
      → t.poll (due_now broker job t (before_poll broker job t s)) ≡ ok outcome
      → Memᴰ p (due_now broker job u (before_poll broker job u (cycle broker job t s)))
      → p.poll_interval_secs * second ≤ u.now - t.now
  unfolding cycle
  polled_waits t u s p outcome m e again =
      let r : LoopState P = before_poll broker job t s in
      let next : LoopState P = before_poll broker job u (cycle broker job t s) in
      let may : MayPoll u.now next.unresolved next.backoffs next.last_poll p =
        ((due_points-mem u.now next.unresolved next.backoffs next.last_poll p job.points).0
          again).0 in
      may.interval t.now (
        rw
          (
            last_poll-before_poll u (cycle broker job t s),
            last_poll-report_health t (poll_due broker job t r),
            last_poll-poll_due t r p outcome m e,
          )
          (get-mark_polled t.now p (due_now broker job t r) r.last_poll m))
