-- ===== src/RetryState.antt =====
-- crates/resonance-agent/src/retry_state.rs: the state that the supervisor keeps of its capture
-- attempts, its failures and its recovery episodes. An operation on `&mut self` returns its result
-- and the state that it leaves, also on an error. The operations are in the modules below.
pub mod Checks
pub mod Intent
pub mod Attempt
pub mod Evidence
pub mod Episode
pub mod Machine
pub mod Inv
pub mod Reachable
pub mod Freshness
pub mod Authorization
pub mod Halting
pub mod Tally
pub mod History
mod Scenarios
use resonance_signal.Base.{
  ℕ, Bool, true, false, Option, none, some, List, [], ◌==◌, Result, ok, err, checked_add, ok_or,
  is_some, not, ◌&&◌, ◌||◌, ◌>>=◌, if◌then◌else◌,
}
use resonance_signal.RecoveryConfig.{RecoveryConfigurationIdentity}
use resonance_signal.Recovery.Types.{
  DeviceUnavailableCause, SourceReconfigurationCause, RecoveryDecisionReason,
}

-- The one-field structs over u64.
abbrev pub IntentGeneration : Type 0
IntentGeneration = ℕ

abbrev pub StateRevision : Type 0
StateRevision = ℕ

pub record AttemptId : Type 0 where
  pub intent_generation : IntentGeneration
  pub ordinal : ℕ

pub data AttemptKind : Type 0 where
  explicit_start automatic_recovery : AttemptKind

pub data AttemptLifecycle : Type 0 where
  committed owner_created running failed completed cleanup_complete : AttemptLifecycle

pub data RetryPhase : Type 0 where
  idle attempting running failed waiting exhausted stopped : RetryPhase

pub data RetryFailureCause : Type 0 where
  owner_construction_failure : RetryFailureCause
  device_unavailable : DeviceUnavailableCause → RetryFailureCause
  source_reconfigured : SourceReconfigurationCause → RetryFailureCause
  interrupted resource_exhausted unsupported_format internal_failure : RetryFailureCause
  startup_failure worker_panic : RetryFailureCause

pub record AttemptState : Type 0 where
  pub id : AttemptId
  pub kind : AttemptKind
  pub lifecycle : AttemptLifecycle
  pub stream_started : Bool
  pub terminal_event_delivered : Bool
  pub resources_released : Bool
  pub failure : Option RetryFailureCause

unfoldable pub ready_for_evaluation : AttemptState → Bool
ready_for_evaluation a =
    is_some a.failure
    && (a.resources_released && (not a.stream_started || a.terminal_event_delivered))

pub record RecoveryEpisodeId : Type 0 where
  pub intent_generation : IntentGeneration
  pub ordinal : ℕ

pub data ExhaustionReason : Type 0 where
  automatic_recovery_budget policy_veto : ExhaustionReason

pub record ExhaustionRecord : Type 0 where
  pub intent_generation : IntentGeneration
  pub recovery_episode : RecoveryEpisodeId
  pub evaluated_revision : StateRevision
  pub attempt_id : AttemptId
  pub reason : ExhaustionReason
  pub configuration_id : RecoveryConfigurationIdentity

pub record RecoveryEpisodeState : Type 0 where
  pub id : RecoveryEpisodeId
  pub automatic_recovery_attempts_started : ℕ
  pub exhaustion : Option ExhaustionRecord

abbrev pub CooldownEligibilityMarker : Type 0
CooldownEligibilityMarker = ℕ

abbrev pub CooldownEvidenceId : Type 0
CooldownEvidenceId = ℕ

pub record CooldownRequirement : Type 0 where
  pub attempt_id : AttemptId
  pub marker : CooldownEligibilityMarker

pub data CooldownState : Type 0 where
  not_required : CooldownState
  pending : CooldownRequirement → CooldownState
  satisfied : CooldownRequirement → CooldownEvidenceId → CooldownState
  invalidated : CooldownRequirement → CooldownState

abbrev pub permits_progression : CooldownState → Bool
permits_progression not_required = true
permits_progression (satisfied requirement evidence) = true
permits_progression _ = false

pub record FailureRecord : Type 0 where
  pub attempt_id : AttemptId
  pub recovery_episode : RecoveryEpisodeId
  pub cause : RetryFailureCause
  pub stream_started : Bool

pub record FailureTotals : Type 0 where
  pub total : ℕ
  pub owner_construction_failure : ℕ
  pub device_unavailable : ℕ
  pub source_reconfigured : ℕ
  pub interrupted : ℕ
  pub resource_exhausted : ℕ
  pub unsupported_format : ℕ
  pub internal_failure : ℕ
  pub startup_failure : ℕ
  pub worker_panic : ℕ

pub data RecoveryEpisodeResetEvidence : Type 0 where
  stable_run changed_precondition : ℕ → RecoveryEpisodeResetEvidence

pub record RetrySnapshot : Type 0 where
  pub desired_running : Bool
  pub intent_generation : IntentGeneration
  pub state_revision : StateRevision
  pub configuration_id : RecoveryConfigurationIdentity
  pub phase : RetryPhase
  pub attempts_started : ℕ
  pub current_attempt : Option AttemptState
  pub recovery_episode : Option RecoveryEpisodeState
  pub last_failure : Option FailureRecord
  pub recent_failures : List FailureRecord
  pub failure_totals : FailureTotals
  pub consecutive_failed_attempts : ℕ
  pub cooldown : CooldownState

pub record RecoveryAuthorization : Type 0 where
  pub intent_generation : IntentGeneration
  pub state_revision : StateRevision
  pub configuration_id : RecoveryConfigurationIdentity
  pub recovery_episode : Option RecoveryEpisodeId
  pub prior_attempt_id : Option AttemptId
  pub reason : RecoveryDecisionReason

pub data RetryTransitionError : Type 0 where
  history_capacity_zero no_active_intent intent_already_running : RetryTransitionError
  stale_intent : (current supplied : IntentGeneration) → RetryTransitionError
  stale_snapshot decision_does_not_permit_recovery : RetryTransitionError
  invalid_phase : RetryPhase → RetryTransitionError
  no_current_attempt : RetryTransitionError
  attempt_mismatch : (current supplied : AttemptId) → RetryTransitionError
  invalid_attempt_lifecycle : AttemptLifecycle → RetryTransitionError
  failure_already_recorded terminal_event_not_applicable cleanup_pending : RetryTransitionError
  terminal_evidence_pending no_recovery_episode episode_exhausted : RetryTransitionError
  cooldown_pending cooldown_evidence_mismatch : RetryTransitionError
  invalid_episode_reset_evidence counter_exhausted : RetryTransitionError

abbrev pub Checked : Type 0 → Type 0
Checked A = Result RetryTransitionError A

-- `HISTORY_CAPACITY` is a parameter of the operations that read it.
pub record RetryState : Type 0 where
  pub last_intent_generation : ℕ
  pub intent_generation : Option IntentGeneration
  pub state_revision : StateRevision
  pub configuration_id : Option RecoveryConfigurationIdentity
  pub desired_running : Bool
  pub phase : RetryPhase
  pub attempts_started : ℕ
  pub current_attempt : Option AttemptState
  pub recovery_episode : Option RecoveryEpisodeState
  pub last_failure : Option FailureRecord
  pub recent_failures : List FailureRecord
  pub failure_totals : FailureTotals
  pub consecutive_failed_attempts : ℕ
  pub cooldown : CooldownState

abbrev pub no_failures : FailureTotals
no_failures = record {
  total = 0;
  owner_construction_failure = 0;
  device_unavailable = 0;
  source_reconfigured = 0;
  interrupted = 0;
  resource_exhausted = 0;
  unsupported_format = 0;
  internal_failure = 0;
  startup_failure = 0;
  worker_panic = 0;
}
