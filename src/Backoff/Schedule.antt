-- ===== src/Backoff/Schedule.antt =====
-- crates/republish-core/src/worker/backoff.rs: updates device by device, and the delays over cycles.
use netix_protocol_core.Prelude.{
  ℕ, suc, ◌+◌, ◌*◌, ◌^◌, ◌≤◌, ◌≡◌, refl, Bool, true, false, List, [], ◌∷◌, Option, none, some, min,
  arith, length, ==_iff, if◌then◌else◌,
}
use netix_protocol_core.Prelude.Eq.{beq, nat_eq}
use netix_protocol_core.Prelude.Maps.{HashMap, HashSet, contains, get, get-insert, get-remove}
use native.Mathlib.Nat.{pow-suc}
use netix_protocol_core.Model.{PointConfig, PollOutcome}
use netix_protocol_core.Backoff.{
  DeviceBackoff, device_backoff_initial, next_delay, update_device, update_devices, sampled_devices,
  failed_devices, update_device_backoffs, duration_max,
}

abbrev backoff_at : ℕ → ℕ → DeviceBackoff
backoff_at now delay = record { delay = delay; until = now + delay }

-- What becomes of a device that was polled, by the outcome of its reads.
abbrev pub after_poll : Bool → Bool → ℕ → ℕ → Option DeviceBackoff → Option DeviceBackoff
after_poll healthy failed now max_delay old =
    if healthy
    then none
    else if failed
    then some (backoff_at now (next_delay max_delay old))
    else old

-- A set holds no element twice.
abbrev pub Distinct : HashSet ℕ → Type 0
Distinct [] = Unit
Distinct (x ∷ xs) = (contains x xs ≡ false) × Distinct xs

module _ (healthy failed : HashSet ℕ) (now max_delay : ℕ) where
  get-update_device :
      (device d : ℕ) (m : HashMap ℕ DeviceBackoff)
      → get d (update_device healthy failed now max_delay device m).0 ≡ (
          if beq device d
          then after_poll (contains d healthy) (contains d failed) now max_delay (get d m)
          else get d m)
  unfolding update_device
  get-update_device device d m = ground (
    arith,
    get-remove device d m,
    ==_iff device d,
    get-insert device d (backoff_at now (next_delay max_delay (get device m))) m,
  )

  get-update_devices :
      (devices : List ℕ) (d : ℕ) (m : HashMap ℕ DeviceBackoff)
      → Distinct devices
      → get d (update_devices healthy failed now max_delay devices m).0 ≡ (
          if contains d devices
          then after_poll (contains d healthy) (contains d failed) now max_delay (get d m)
          else get d m)
  unfolding update_devices contains
  get-update_devices [] d m h = refl
  get-update_devices (x ∷ xs) d m h =
      let m' : HashMap ℕ DeviceBackoff = (update_device healthy failed now max_delay x m).0 in
      ground (arith, get-update_devices xs d m' h.1, get-update_device x d m, ==_iff x d)

module _ (device_instance : PointConfig → Option ℕ) (max_delay : ℕ) where
  -- One update decides each polled device by its own reads: a sample clears its backoff, failures
  -- alone set a new one, and neither leaves it; a device that was not polled is left. The order in
  -- which the set of polled devices is visited does not matter.
  pub get-update_device_backoffs :
      (m : HashMap ℕ DeviceBackoff) (polled : HashSet ℕ) (outcome : PollOutcome) (now d : ℕ)
      → Distinct polled
      → get d (update_device_backoffs m polled outcome now max_delay device_instance).0 ≡ (
          if contains d polled
          then after_poll
              (contains d (sampled_devices device_instance outcome))
              (contains d (failed_devices device_instance outcome))
              now
              max_delay
              (get d m)
          else get d m)
  unfolding update_device_backoffs
  get-update_device_backoffs m polled outcome now d h =
      get-update_devices (sampled_devices device_instance outcome)
        (failed_devices device_instance outcome) now max_delay polled d m h

  -- The arguments of one update.
  pub record Cycle : Type 0 where
    pub polled : HashSet ℕ
    pub outcome : PollOutcome
    pub now : ℕ

  abbrev run_cycle : Cycle → HashMap ℕ DeviceBackoff → HashMap ℕ DeviceBackoff
  run_cycle c m = (update_device_backoffs m c.polled c.outcome c.now max_delay device_instance).0

  unfoldable run_cycles : List Cycle → HashMap ℕ DeviceBackoff → HashMap ℕ DeviceBackoff
  run_cycles [] m = m
  run_cycles (c ∷ cs) m = run_cycles cs (run_cycle c m)

  -- Every read of the device fails in the cycle.
  abbrev FailsIn : ℕ → Cycle → Type 0
  FailsIn d c =
      Distinct c.polled
      × (contains d c.polled ≡ true)
      × (contains d (sampled_devices device_instance c.outcome) ≡ false)
      × (contains d (failed_devices device_instance c.outcome) ≡ true)

  abbrev AllFail : ℕ → List Cycle → Type 0
  AllFail d [] = Unit
  AllFail d (c ∷ cs) = FailsIn d c × AllFail d cs

  get-run_cycle :
      (d : ℕ) (c : Cycle) (m : HashMap ℕ DeviceBackoff)
      → FailsIn d c
      → get d (run_cycle c m) ≡ some (backoff_at c.now (next_delay max_delay (get d m)))
  get-run_cycle d c m f =
      ground (arith, get-update_device_backoffs m c.polled c.outcome c.now d f.0)

  abbrev delay_of : Option DeviceBackoff → ℕ
  delay_of none = 0
  delay_of (some b) = b.delay

  next_power :
      (k delay : ℕ)
      → max_delay ≤ duration_max
      → delay ≡ min (device_backoff_initial * 2 ^ k) max_delay
      → min (min (delay * 2) duration_max) max_delay
        ≡ min (device_backoff_initial * 2 ^ suc k) max_delay
  next_power k delay h e = rw (pow-suc 2 k) (omega arith)

  growth :
      (d k j : ℕ) (cs : List Cycle) (m : HashMap ℕ DeviceBackoff) (b : DeviceBackoff)
      → max_delay ≤ duration_max
      → AllFail d cs
      → k + length cs ≡ j
      → get d m ≡ some b
      → b.delay ≡ min (device_backoff_initial * 2 ^ k) max_delay
      → delay_of (get d (run_cycles cs m)) ≡ min (device_backoff_initial * 2 ^ j) max_delay
  unfolding run_cycles
  growth d k j [] m b h f q g e = let kj : k ≡ j = omega arith in rw (g, ← kj) e
  growth d k j (c ∷ cs) m b h f q g e =
      growth d (suc k) j cs (run_cycle c m) (backoff_at c.now (next_delay max_delay (some b))) h f.1
        (omega arith) (rw (get-run_cycle d c m f.0, g)) (next_power k b.delay h e)

  -- The delay set by the first failure of a device is doubled by each further one, up to the maximum:
  -- after n + 1 cycles that all fail it is the least of 10 s times 2 ^ n and the maximum.
  delay-run_cycles :
      (d : ℕ) (c : Cycle) (cs : List Cycle) (m : HashMap ℕ DeviceBackoff)
      → max_delay ≤ duration_max
      → AllFail d (c ∷ cs)
      → get d m ≡ none
      → delay_of (get d (run_cycles (c ∷ cs) m))
        ≡ min (device_backoff_initial * 2 ^ length cs) max_delay
  unfolding run_cycles
  delay-run_cycles d c cs m h f g =
      growth d 0 (length cs) cs (run_cycle c m) (backoff_at c.now (next_delay max_delay none)) h f.1
        (omega arith) (rw (get-run_cycle d c m f.0, g)) refl

  abbrev pub Bounds : Option DeviceBackoff → Type 0
  Bounds none = Unit
  Bounds (some b) =
      (min device_backoff_initial max_delay ≤ b.delay) × (b.delay ≤ max_delay) × (b.delay ≤ b.until)

  next_delay-Bounds :
      (now : ℕ) (old : Option DeviceBackoff)
      → max_delay ≤ duration_max
      → Bounds old
      → Bounds (some (backoff_at now (next_delay max_delay old)))
  next_delay-Bounds now none h b = omega arith
  next_delay-Bounds now (some old) h b = omega arith

  after_poll-Bounds :
      (healthy failed : Bool) (now : ℕ) (old : Option DeviceBackoff)
      → max_delay ≤ duration_max
      → Bounds old
      → Bounds (after_poll healthy failed now max_delay old)
  after_poll-Bounds true failed now old h b = tt
  after_poll-Bounds false true now old h b = next_delay-Bounds now old h b
  after_poll-Bounds false false now old h b = b

  if_Bounds :
      (test : Bool) (x y : Option DeviceBackoff)
      → Bounds x
      → Bounds y
      → Bounds (if test then x else y)
  if_Bounds true x y bx by_else = bx
  if_Bounds false x y bx by_else = by_else

  -- An update keeps every delay between the initial delay and the maximum, and no device waits
  -- until an instant before its delay has passed.
  update_device_backoffs-Bounds :
      (m : HashMap ℕ DeviceBackoff) (polled : HashSet ℕ) (outcome : PollOutcome) (now : ℕ)
      → max_delay ≤ duration_max
      → Distinct polled
      → ((d : ℕ) → Bounds (get d m))
      → (d : ℕ)
      → Bounds (get d (update_device_backoffs m polled outcome now max_delay device_instance).0)
  update_device_backoffs-Bounds m polled outcome now h q v d =
      rw (get-update_device_backoffs m polled outcome now d q) (
        if_Bounds (contains d polled) _ (get d m)
          (after_poll-Bounds (contains d (sampled_devices device_instance outcome))
            (contains d (failed_devices device_instance outcome)) now (get d m) h (v d))
          (v d))
