-- ===== src/Worker/Events.antt =====
-- crates/republish-core/src/worker/events.rs: the events that the worker sends. The channel is
-- unbounded and its receiver outlives the worker, so the events sent are a list.
use netix_protocol_core.Prelude.{ℕ, List, Option, ◌≡◌, refl, ◌⊎◌, inl, inr}
use netix_protocol_core.Text.{Text}
use netix_protocol_core.Model.{
  DiscoverOutcome, DiscoveredPoint, PointFailure, PointSample, PublishStats,
}
use netix_protocol_core.Model.Identity.{PointIdentity}
use netix_protocol_core.Import.{MergeImportResult}
use netix_protocol_core.Backoff.{LogLevel}
use netix_protocol_core.Mqtt.Publisher.{Error}

pub data RepublisherLifecycle : Type 0 where
  starting running stopping stopped : RepublisherLifecycle
  failed : Text → RepublisherLifecycle

pub data WorkerEvent : Type 0 where
  log : LogLevel → Text → WorkerEvent
  devices : DiscoverOutcome → WorkerEvent
  points : List DiscoveredPoint → WorkerEvent
  scan_progress : Text → ℕ → ℕ → WorkerEvent
  bulk_tag_import : MergeImportResult → WorkerEvent
  samples : List PointSample → WorkerEvent
  failures : List PointFailure → WorkerEvent
  publish_status : PublishStats → WorkerEvent
  point_publish : PointIdentity → Option Text → WorkerEvent
  lifecycle : RepublisherLifecycle → WorkerEvent
  finished : Text → WorkerEvent

pub data Result {ℓ} (A : Type ℓ) : Type ℓ where
  ok : A → Result A
  err : Error → Result A

-- A property of the value, if there is no error.
abbrev pub OnOk : {A : Type 0} → (A → Type 0) → Result A → Type 0
OnOk P (ok a) = P a
OnOk P (err e) = Unit

pub Result-cases {ℓ} :
    {A : Type ℓ} (r : Result A) → ((a : A) × (r ≡ ok a)) ⊎ ((e : Error) × (r ≡ err e))
Result-cases (ok a) = inl (a, refl)
Result-cases (err e) = inr (e, refl)
