-- ===== src/Backoff.antt =====
-- crates/republish-core/src/worker/backoff.rs: the backoff of devices whose reads all fail.
-- Durations and instants are counts of nanoseconds; an instant is not bounded.
pub mod Schedule
use netix_protocol_core.Prelude.{
  ℕ, ◌+◌, ◌-◌, ◌*◌, ◌/◌, ◌^◌, Bool, List, [], ◌∷◌, ◌++◌, Option, none, some, min, filter_map,
  if◌then◌else◌,
}
use netix_protocol_core.Prelude.Eq.{nat_eq}
use netix_protocol_core.Prelude.Maps.{HashMap, HashSet, contains, get, insert, remove}
use netix_protocol_core.Text.{Text, lit}
use netix_protocol_core.Text.Numbers.{decimal}
use netix_protocol_core.Model.{PointConfig, PointSample, PointFailure, PollOutcome}

pub data LogLevel : Type 0 where
  info warning error : LogLevel

abbrev pub second : ℕ
second = 1_000_000_000

-- `Duration::MAX`
abbrev pub duration_max : ℕ
duration_max = 18_446_744_073_709_551_615_999_999_999

-- `saturating_mul(2)`
abbrev pub double : ℕ → ℕ
double d = min (d * 2) duration_max

-- `Duration::as_secs`
abbrev pub as_secs : ℕ → ℕ
as_secs d = d / second

abbrev pub device_backoff_initial : ℕ
device_backoff_initial = 10 * second

pub record DeviceBackoff : Type 0 where
  pub delay : ℕ
  pub until : ℕ

pub cleared_message : ℕ → Text
cleared_message device =
    lit "device " ++ (decimal device ++ lit " responding again; backoff cleared")

pub failed_message : ℕ → ℕ → Text
failed_message device delay =
    lit "device "
    ++ (decimal device
        ++ (lit ": all reads failed; next attempt in " ++ (decimal (as_secs delay) ++ lit "s")))

abbrev pub next_delay : ℕ → Option DeviceBackoff → ℕ
next_delay max_delay none = min device_backoff_initial max_delay
next_delay max_delay (some backoff) = min (double backoff.delay) max_delay

-- `backoffs.remove(&device).is_some()`
abbrev recovery_messages : ℕ → Option DeviceBackoff → List (LogLevel × Text)
recovery_messages device none = []
recovery_messages device (some backoff) = (info, cleared_message device) ∷ []

module _ (healthy failed : HashSet ℕ) (now max_delay : ℕ) where
  -- The body of the loop over the polled devices.
  unfoldable pub update_device :
      ℕ → HashMap ℕ DeviceBackoff → HashMap ℕ DeviceBackoff × List (LogLevel × Text)
  update_device device backoffs =
      let delay = next_delay max_delay (get device backoffs) in
      if contains device healthy
      then (remove device backoffs, recovery_messages device (get device backoffs))
      else if contains device failed
      then (
        insert device (record { delay = delay; until = now + delay }) backoffs,
        (warning, failed_message device delay) ∷ [],
      )
      else (backoffs, [])

  unfoldable pub update_devices :
      List ℕ → HashMap ℕ DeviceBackoff → HashMap ℕ DeviceBackoff × List (LogLevel × Text)
  unfolding update_device
  update_devices [] backoffs = (backoffs, [])
  update_devices (device ∷ rest) backoffs =
      let (backoffs', messages) = update_device device backoffs in
      let (backoffs'', more) = update_devices rest backoffs' in (backoffs'', messages ++ more)

abbrev pub sampled_devices : (PointConfig → Option ℕ) → PollOutcome → HashSet ℕ
sampled_devices device_instance outcome =
    filter_map (λ (s : PointSample). device_instance s.point) outcome.samples

abbrev pub failed_devices : (PointConfig → Option ℕ) → PollOutcome → HashSet ℕ
failed_devices device_instance outcome =
    filter_map (λ (f : PointFailure). device_instance f.point) outcome.failures

unfoldable pub update_device_backoffs :
    HashMap ℕ DeviceBackoff
    → HashSet ℕ
    → PollOutcome
    → ℕ
    → ℕ
    → (PointConfig → Option ℕ)
    → HashMap ℕ DeviceBackoff × List (LogLevel × Text)
unfolding update_devices
update_device_backoffs backoffs polled_devices outcome now max_delay device_instance =
    update_devices (sampled_devices device_instance outcome)
      (failed_devices device_instance outcome) now max_delay polled_devices backoffs
