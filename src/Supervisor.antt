-- ===== src/Supervisor.antt =====
-- crates/resonance-agent/src/supervisor.rs: the supervisor of one capture intent, its data, and what
-- it observes of the events and of the completion of its owner. The owner and its factory are trait
-- objects in the source, and an interface here.
pub mod Evaluation
pub mod Attempts
pub mod Advice
pub mod Completion
pub mod Operations
pub mod Inv
pub mod Histories
pub mod Outcomes
pub mod CaptureOwners
mod Scenarios
use resonance_signal.Base.{ℕ, Bool, true, false, Option, none, some, List, is_some, Result}
use Prim.Native.String.{String}
use resonance_signal.Contract.{ErrorKind, ProviderError, StreamEndReason, StreamEvent}
use resonance_signal.RecoveryConfig.{RecoveryConfigurationSnapshot}
use resonance_signal.Recovery.Types.{
  RetryHint, RecoveryCause, RecoveryEvidence, RecoveryDecision, invalidated,
}
use resonance_signal.RetryState.{AttemptId, RetryFailureCause, RetrySnapshot, RetryState}
use resonance_signal.Windows.{
  Duration, CaptureEnd, CaptureReport, CaptureRunError, kind, retry_hint,
}
use resonance_signal.Windows.Owner.{
  Panics, CaptureOwnerCompletion, CaptureOwnerStart, CaptureOwnerStartError,
  CaptureOwnerShutdownTimeout,
}

pub record CaptureOwnerConstructionError : Type 0 where
  pub message : String

-- The traits `SupervisedCaptureOwner` and `CaptureOwnerFactory`. What happens around a call, in the
-- operating system and in the threads of the owner, is an argument of the call.
pub record SupervisedCaptureOwner (Sample : Type 0) : Type 1 where
  pub Owner : Type 0
  pub Factory : Type 0
  pub Callback : Type 0
  pub World : Type 0
  pub create : Callback → World → Factory → Result CaptureOwnerConstructionError Owner × Factory
  pub start : World → Owner → Panics (Result CaptureOwnerStartError CaptureOwnerStart × Owner)
  pub request_stop : Owner → Owner
  pub wait_for_completion :
      Duration
      → World
      → Owner
      → Panics (Result CaptureOwnerShutdownTimeout (CaptureOwnerCompletion Sample) × Owner)

pub data CaptureSupervisorState : Type 0 where
  idle running stopping completed : CaptureSupervisorState

pub data CaptureSupervisorStart : Type 0 where
  started stopped_before_start : CaptureSupervisorStart

pub data CaptureSupervisorStartError : Type 0 where
  not_idle : CaptureSupervisorState → CaptureSupervisorStartError
  construction : CaptureOwnerConstructionError → CaptureSupervisorStartError
  owner : CaptureOwnerStartError → CaptureSupervisorStartError

pub data CaptureSupervisorWaitError : Type 0 where
  not_started : CaptureSupervisorWaitError
  timeout : CaptureOwnerShutdownTimeout → CaptureSupervisorWaitError

pub data CaptureSupervisorCompletion : Type 0 where
  stopped_before_start construction_failed : CaptureSupervisorCompletion
  finished : CaptureEnd → CaptureSupervisorCompletion
  failed : ErrorKind → RetryHint → CaptureSupervisorCompletion
  start_failed panicked : CaptureSupervisorCompletion

-- `CaptureSupervisorCompletion::from`
unfoldable pub completion_from :
    {Sample : Type 0} → CaptureOwnerCompletion Sample → CaptureSupervisorCompletion
completion_from CaptureOwnerCompletion.stopped_before_start =
    CaptureSupervisorCompletion.stopped_before_start
completion_from (CaptureOwnerCompletion.finished report) = finished report.end
completion_from (CaptureOwnerCompletion.failed e) = failed (kind e) (retry_hint e)
completion_from (CaptureOwnerCompletion.start_failed message) = start_failed
completion_from CaptureOwnerCompletion.panicked = panicked

pub record CaptureTerminalObservation : Type 0 where
  pub started : Bool
  pub error : Option (ErrorKind × RetryHint)
  pub end_reason : Option StreamEndReason

abbrev pub no_observation : CaptureTerminalObservation
no_observation = record { started = false; error = none; end_reason = none }

abbrev pub terminal_event_delivered : CaptureTerminalObservation → Bool
terminal_event_delivered o = is_some o.end_reason

-- What the callback of the owner does after it has called the consumer.
unfoldable pub observe :
    {Sample : Type 0} → StreamEvent Sample → CaptureTerminalObservation → CaptureTerminalObservation
observe (StreamEvent.started d) o = record o { started = true }
observe (StreamEvent.error e) o = record o { error = some (e.kind, e.retry_hint) }
observe (StreamEvent.ended stream_id reason) o = record o { end_reason = some reason }
observe (StreamEvent.signal packet) o = o

-- `retry_failure_for`
abbrev failure_of_kind : ErrorKind → RetryFailureCause
failure_of_kind ErrorKind.source_unavailable = RetryFailureCause.device_unavailable invalidated
failure_of_kind ErrorKind.stream_interrupted = RetryFailureCause.interrupted
failure_of_kind ErrorKind.unsupported_format = RetryFailureCause.unsupported_format
failure_of_kind ErrorKind.resource_exhausted = RetryFailureCause.resource_exhausted
failure_of_kind _ = RetryFailureCause.internal_failure

unfoldable pub retry_failure_for : CaptureSupervisorCompletion → Option RetryFailureCause
retry_failure_for construction_failed = some RetryFailureCause.owner_construction_failure
retry_failure_for start_failed = some RetryFailureCause.startup_failure
retry_failure_for panicked = some RetryFailureCause.worker_panic
retry_failure_for (failed kind hint) = some (failure_of_kind kind)
retry_failure_for CaptureSupervisorCompletion.stopped_before_start = none
retry_failure_for (finished end) = none

pub record RecoveryLifecycleSnapshot : Type 0 where
  pub attempt_id : AttemptId
  pub stream_started : Bool
  pub terminal_event_delivered : Bool
  pub owner_completed : Bool
  pub resources_released : Bool
  pub completion : CaptureSupervisorCompletion

pub record RecoveryEvaluationSnapshot : Type 0 where
  pub configuration : RecoveryConfigurationSnapshot
  pub retry_state : RetrySnapshot
  pub lifecycle : RecoveryLifecycleSnapshot
  pub cause : RecoveryCause
  pub policy_evidence : RecoveryEvidence

pub record RecordedRecoveryEvaluation : Type 0 where
  pub snapshot : RecoveryEvaluationSnapshot
  pub decision : RecoveryDecision

abbrev pub retry_history_capacity : ℕ
retry_history_capacity = 16

abbrev pub recovery_disabled_configuration_version : ℕ
recovery_disabled_configuration_version = 1

-- The observation is shared with the callback; what the callback changes is a step of its own.
pub record CaptureSupervisor {Sample : Type 0} (i : SupervisedCaptureOwner Sample) : Type 0 where
  pub factory : i.Factory
  pub on_event : Option i.Callback
  pub observation : CaptureTerminalObservation
  pub owner : Option i.Owner
  pub state : CaptureSupervisorState
  pub recovery_configuration : RecoveryConfigurationSnapshot
  pub retry_state : RetryState
  pub resources_released : Bool
  pub completion : Option CaptureSupervisorCompletion
  pub recovery_evaluation : Option RecordedRecoveryEvaluation
