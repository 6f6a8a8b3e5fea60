-- ===== src/Worker/Republisher/Starting.antt =====
-- `spawn_republisher` of crates/republish-core/src/worker/mod.rs: what a start resolves, runs and reports.
use netix_protocol_core.Prelude.{
  ◌≡◌, refl, ap, ◌∙◌, Bool, true, false, ◌&&◌, List, [], ◌∷◌, ◌++◌, some, any, Bool-cases, ◌⊎◌, inl,
  inr,
}
use netix_protocol_core.Text.{Text, lit}
use netix_protocol_core.Model.{Addressing, PointConfig}
use netix_protocol_core.Config.{MqttConfig}
use netix_protocol_core.Backoff.{info}
use netix_protocol_core.Mqtt.Publisher.{MqttPublisher, Error}
use netix_protocol_core.Worker.Events.{
  WorkerEvent, log, lifecycle, starting, running, stopping, stopped, failed, Result, ok, err,
  Result-cases,
}
use netix_protocol_core.Worker.Adapter.{RepublishProtocol, supports_discovery}
use netix_protocol_core.Worker.Devices.{is_enabled}
use netix_protocol_core.Worker.State.{Tick}
use netix_protocol_core.Worker.Boot.{Boot, run_republisher}
use netix_protocol_core.Worker.Loop.Lifecycle.{run_republisher-lifecycles}
use netix_protocol_core.Worker.Lifecycles.{
  lifecycles, lifecycles-append, Quiet, Quiet-append, Quiet-log_warnings,
}
use netix_protocol_core.Worker.Start.{browse_found, discover_points}
use netix_protocol_core.Worker.Start.Scanning.{discover_points-DistinctIds}
use netix_protocol_core.Worker.Republisher.{
  Resolved, resolved, failed_start, need_enabled, no_points_message, take_discovered,
  resolve_points, start_loop, job_of, start_republisher,
}

-- The points to poll are some, or the start fails for want of an enabled point.
abbrev IsResolved : List PointConfig → Resolved → Type 0
IsResolved configured (resolved points es) = (any is_enabled points ≡ true) × Quiet es
IsResolved configured (failed_start message es) = (any is_enabled configured ≡ false) × Quiet es

need_enabled-IsResolved :
    (configured points : List PointConfig) (message : Text) (es : List WorkerEvent)
    → any is_enabled configured ≡ false
    → Quiet es
    → IsResolved configured (need_enabled message points es)
need_enabled-IsResolved configured points message es h q =
    elim (Bool-cases (any is_enabled points)) [
      | inl e ↦ rw (e, need_enabled) (e, q)
      | inr e ↦ rw (e, need_enabled) (h, Quiet-append q (record { silent = refl }))
    ]

discover_points-answers :
    (proto : RepublishProtocol)
    → ((e : Error) × (discover_points proto ≡ err e))
      ⊎ ((found : List PointConfig) × (warnings : List Text) × (discover_points proto
            ≡ ok (some (found, warnings))))
discover_points-answers proto = elim (Result-cases proto.discover) [
  | inl (found, h) ↦
      let (points, warnings, e, _, _) = discover_points-DistinctIds proto h in
      inr (points, warnings, e)
  | inr (error, h) ↦ inl (error, unfold discover_points in (ap (browse_found proto) h))
]

-- What is resolved where nothing configured is enabled.
take_discovered-IsResolved :
    (proto : RepublishProtocol) (points : List PointConfig) (message : Text) (es : List WorkerEvent)
    → any is_enabled points ≡ false
    → Quiet es
    → (r : Resolved) × (take_discovered message (discover_points proto) es ≡ some r)
      × IsResolved points r
take_discovered-IsResolved proto points message es h q = elim (discover_points-answers proto) [
  | inl (e, d) ↦ (
    failed_start _ _,
    ap (λ a. take_discovered message a es) d,
    (h, Quiet-append q (record { silent = refl })),
  )
  | inr (found, warnings, d) ↦ (
    need_enabled message found _,
    ap (λ a. take_discovered message a es) d,
    need_enabled-IsResolved points found message _ h
        (Quiet-append q (Quiet-append (Quiet-log_warnings warnings) (record { silent = refl }))),
  )
]

-- Resolving the points never panics. It leaves points of which one is enabled, or fails; it fails
-- only where no configured point is enabled.
resolve_points-IsResolved :
    (proto : RepublishProtocol) (points : List PointConfig) (discover_on_start : Bool)
    → (r : Resolved) × (resolve_points proto points discover_on_start ≡ some r)
      × IsResolved points r
unfolding resolve_points
resolve_points-IsResolved proto points discover_on_start =
    let message = no_points_message discover_on_start (supports_discovery proto.capabilities) in
    let discovering =
      log info (lit "No enabled points; discover_on_start=true — discovering devices to poll")
      ∷ [] in
    elim (Bool-cases (any is_enabled points)) [
      | inl e ↦ (resolved points [], rw (e, resolve_points) refl, (e, record { silent = refl }))
      | inr e ↦ elim (Bool-cases (discover_on_start && supports_discovery proto.capabilities)) [
        | inl d ↦
            let (r, f, v) =
              take_discovered-IsResolved proto points message discovering e
                (record { silent = refl }) in
            (r, rw (e, d, resolve_points) f, v)
        | inr d ↦ (
          need_enabled message points [],
          rw (e, d, resolve_points) refl,
          need_enabled-IsResolved points points message [] e (record { silent = refl }),
        )
      ]
    ]

-- The loop was run, on points of which one is enabled.
pub record Ran {P : Type 0} (broker : MqttPublisher P) (mqtt : MqttConfig) (conn : Addressing)
    (boot : Boot) (ts : List (Tick P)) (connected : Result P) (es : List WorkerEvent) : Type 0 where
  polled : List PointConfig
  publisher : P
  logged : List WorkerEvent
  built : connected ≡ ok publisher
  enabled : any is_enabled polled ≡ true
  loop :
      es
      ≡ lifecycle starting
        ∷ (logged ++ run_republisher broker (job_of mqtt conn polled) boot ts publisher)
  order : lifecycles es ≡ starting ∷ running ∷ stopping ∷ stopped ∷ []

-- The loop was not run.
pub record NotRun {P : Type 0} (points : List PointConfig) (connected : Result P)
    (es : List WorkerEvent) : Type 0 where
  message : Text
  order : lifecycles es ≡ starting ∷ failed message ∷ []
  reason : (any is_enabled points ≡ false) ⊎ ((e : Error) × (connected ≡ err e))

module _ {P : Type 0} (broker : MqttPublisher P) (proto : RepublishProtocol) (mqtt : MqttConfig)
    (conn : Addressing) (points : List PointConfig) (boot : Boot) (ts : List (Tick P)) where
  start_loop-ended :
      (connected : Result P) (r : Resolved)
      → IsResolved points r
      → let es = lifecycle starting ∷ start_loop broker mqtt conn boot ts connected r in
        Ran broker mqtt conn boot ts connected es ⊎ NotRun points connected es
  unfolding start_loop
  start_loop-ended connected (failed_start message es) (none_enabled, q) = inr (record {
    message = message;
    order =
        ap (λ l. starting ∷ l)
          (lifecycles-append es _ ∙ ap (λ l. l ++ failed message ∷ []) q.silent);
    reason = inl none_enabled;
  })
  start_loop-ended (err e) (resolved polled es) (enabled, q) = inr (record {
    message = e.message;
    order =
        ap (λ l. starting ∷ l)
          (lifecycles-append es _ ∙ ap (λ l. l ++ failed e.message ∷ []) q.silent);
    reason = inr (e, refl);
  })
  start_loop-ended (ok p) (resolved polled es) (enabled, q) =
      let run = run_republisher broker (job_of mqtt conn polled) boot ts p in
      inl (record {
        polled = polled;
        publisher = p;
        logged = es;
        built = refl;
        enabled = enabled;
        loop = refl;
        order =
            ap (λ l. starting ∷ l)
              (lifecycles-append es run
                ∙ ap (λ l. l ++ lifecycles run) q.silent
                ∙ run_republisher-lifecycles broker (job_of mqtt conn polled) boot ts p);
      })

  -- A start does not panic. Either the loop runs, on points of which one is enabled, and the lifecycle
  -- is starting, running, stopping, stopped; or the start fails with a message and never runs, which
  -- it does only if the publisher cannot be built or no configured point is enabled.
  pub start_republisher-lifecycles :
      (discover_on_start : Bool) (connected : Result P)
      → (es : List WorkerEvent) × (start_republisher broker proto mqtt conn points discover_on_start
            boot ts connected
          ≡ some es)
        × (Ran broker mqtt conn boot ts connected es ⊎ NotRun points connected es)
  unfolding start_republisher
  start_republisher-lifecycles discover_on_start connected =
      let (r, e, v) = resolve_points-IsResolved proto points discover_on_start in
      (
        lifecycle starting ∷ start_loop broker mqtt conn boot ts connected r,
        rw (e, start_republisher) refl,
        start_loop-ended connected r v,
      )
