-- ===== src/Relay/Health.antt =====
-- The health reports of services/relayer/src/services/relayService.ts. `uptime` and `timestamp` are
-- left out. A message is what it says, or the text of the error that was caught.
use ancore.Common.{
  ℕ, Bool, true, false, ◌&&◌, Option, none, some, get_or, Text, ◌≡◌, ◌↔◌, if◌then◌else◌, arith,
}

pub data Status : Type 0 where
  ok degraded : Status

pub data HealthMessage : Type 0 where
  queue_not_initialized storage_not_initialized mock_mode no_submitter no_signature_service
        not_implemented :
      HealthMessage
  rpc_unreachable rpc_check_failed signature_unreachable : HealthMessage
  signature_check_failed : Text → HealthMessage

pub record DependencyStatus : Type 0 where
  pub status : Status
  pub message : Option HealthMessage
  pub latency_ms : Option ℕ

-- What an `isHealthy` returns.
pub record Healthy : Type 0 where
  pub healthy : Bool
  pub latency_ms : Option ℕ

-- A call of it resolves, or throws a message.
pub data Probe : Type 0 where
  answers : Healthy → Probe
  fails : Text → Probe

-- The constructor's arguments, where they are there: the signature service has a check or not, and
-- what the checks give is what they would give now.
pub record Deployment : Type 0 where
  pub queue : Bool
  pub store : Bool
  pub use_mock_submission : Bool
  pub transaction_submitter : Option Probe
  pub signature_service : Option (Option Probe)

pub record HealthResponse : Type 0 where
  pub status : Status
  pub queue : DependencyStatus
  pub rpc : DependencyStatus
  pub storage : DependencyStatus
  pub signature_service : DependencyStatus

abbrev pub is_ok : Status → Bool
is_ok ok = true
is_ok degraded = false

abbrev pub well : DependencyStatus
well = record { status = ok; message = none; latency_ms = none }

abbrev pub down : HealthMessage → DependencyStatus
down message = record { status = degraded; message = some message; latency_ms = none }

abbrev pub mocked : DependencyStatus
mocked = record { status = ok; message = some mock_mode; latency_ms = some 12 }

unfoldable pub resolve_rpc_status : Deployment → DependencyStatus
resolve_rpc_status d =
    if d.use_mock_submission
    then mocked
    else elim d.transaction_submitter [ none ↦ down no_submitter | some probe ↦ well ]

unfoldable pub resolve_signature_service_status : Deployment → DependencyStatus
resolve_signature_service_status d = elim d.signature_service [
  | none ↦ down no_signature_service
  | some none ↦ record well { message = some not_implemented }
  | some (some probe) ↦ well
]

unfoldable pub health : Deployment → HealthResponse
unfolding resolve_rpc_status resolve_signature_service_status
health d =
    let queue_status = if d.queue then well else down queue_not_initialized in
    let rpc_status = resolve_rpc_status d in
    let storage_status = if d.store then well else down storage_not_initialized in
    let signature_status = resolve_signature_service_status d in
    record {
      status =
          if is_ok queue_status.status
            && is_ok rpc_status.status
            && is_ok storage_status.status
            && is_ok signature_status.status
          then ok
          else degraded;
      queue = queue_status;
      rpc = rpc_status;
      storage = storage_status;
      signature_service = signature_status;
    }

unfoldable pub check_rpc_health : Deployment → DependencyStatus
check_rpc_health d = if d.use_mock_submission then mocked else elim d.transaction_submitter [
  | none ↦ down no_submitter
  | some (fails message) ↦ down rpc_check_failed
  | some (answers result) ↦
      if result.healthy
      then record { status = ok; message = none; latency_ms = result.latency_ms }
      else record {
        status = degraded;
        message = some rpc_unreachable;
        latency_ms = result.latency_ms;
      }
]

-- The race with the timeout is in the probe: a timeout throws. `elapsed` is the time that was measured.
unfoldable pub check_signature_service_health : Option Probe → ℕ → DependencyStatus
check_signature_service_health none elapsed = record well { message = some not_implemented }
check_signature_service_health (some (fails message)) elapsed =
    down (signature_check_failed message)
check_signature_service_health (some (answers result)) elapsed =
    let latency = some (get_or result.latency_ms elapsed) in
    if result.healthy
    then record { status = ok; message = none; latency_ms = latency }
    else record { status = degraded; message = some signature_unreachable; latency_ms = latency }

-- The service reports itself healthy exactly where the queue, the store, the signature service and,
-- outside mock mode, the submitter are configured. Where the probe of the submitter then says so too,
-- the two reports on the network agree.
pub health_lem :
    (d : Deployment)
    → (((health d).status ≡ ok) ↔ (
        (d.queue ≡ true)
        × (d.store ≡ true)
        × ((resolve_rpc_status d).status ≡ ok)
        × ((resolve_signature_service_status d).status ≡ ok)))
      × (((resolve_rpc_status d).status ≡ degraded)
          ↔ ((d.use_mock_submission ≡ false) × (d.transaction_submitter ≡ none)))
      × ((check_rpc_health d).status ≡ ok → (resolve_rpc_status d).status ≡ ok)
unfolding health resolve_rpc_status resolve_signature_service_status check_rpc_health
health_lem d = ground arith
