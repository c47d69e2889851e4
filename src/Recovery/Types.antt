-- ===== src/Recovery/Types.antt =====
-- crates/resonance-agent/src/recovery.rs: the causes, evidence and decisions of recovery, and the
-- provider's retry hint of crates/resonance-api/src/contract.rs.
use resonance_signal.Base.{ℕ, Bool, Option, none}

pub data RetryHint : Type 0 where
  retry_now retry_later wait_for_source request_permission change_format do_not_retry : RetryHint

pub record RecoveryContext : Type 0 where
  pub desired_running : Bool
  pub current_intent_generation : ℕ  -- u64
  pub evaluated_intent_generation : ℕ  -- u64

pub data DeviceUnavailableCause : Type 0 where
  removed invalidated : DeviceUnavailableCause

pub data SourceReconfigurationCause : Type 0 where
  default_endpoint_changed format_changed : SourceReconfigurationCause

pub data RecoveryCause : Type 0 where
  explicit_stop normal_shutdown : RecoveryCause
  device_unavailable : DeviceUnavailableCause → RecoveryCause
  source_reconfigured : SourceReconfigurationCause → RecoveryCause
  interrupted resource_exhausted unsupported_format internal_failure : RecoveryCause
  startup_failure worker_panic : RecoveryCause

pub data RecoverySourcePolicy : Type 0 where
  pinned follow_default : RecoverySourcePolicy

pub record RecoveryEvidence : Type 0 where
  pub stream_started : Option Bool
  pub terminal_event_delivered : Option Bool
  pub owner_completed : Option Bool
  pub resources_released : Option Bool
  pub retry_hint : Option RetryHint
  pub attempts_remaining : Option Bool
  pub cooldown_complete : Option Bool
  pub source_available : Option Bool
  pub source_policy : Option RecoverySourcePolicy
  pub replacement_source_resolved : Option Bool
  pub supported_format_available : Option Bool
  pub pressure_cleared : Option Bool
  pub changed_precondition : Option Bool

-- `RecoveryEvidence::default()`
abbrev pub no_evidence : RecoveryEvidence
no_evidence = record {
  stream_started = none;
  terminal_event_delivered = none;
  owner_completed = none;
  resources_released = none;
  retry_hint = none;
  attempts_remaining = none;
  cooldown_complete = none;
  source_available = none;
  source_policy = none;
  replacement_source_resolved = none;
  supported_format_available = none;
  pressure_cleared = none;
  changed_precondition = none;
}

pub data RecoveryDecisionReason : Type 0 where
  explicit_stop stale_intent stale_configuration cleanup_pending : RecoveryDecisionReason
  terminal_boundary_pending missing_evidence inconsistent_evidence : RecoveryDecisionReason
  retry_vetoed configured_non_retryable normal_shutdown : RecoveryDecisionReason
  source_unavailable source_available pinned_source : RecoveryDecisionReason
  replacement_source_pending replacement_source_ready : RecoveryDecisionReason
  supported_format_unavailable supported_format_available : RecoveryDecisionReason
  retry_budget_exhausted cooldown_pending retry_eligible : RecoveryDecisionReason
  pressure_clearance_pending pressure_cleared changed_precondition_pending : RecoveryDecisionReason
  unsupported_format internal_failure startup_failure worker_panic : RecoveryDecisionReason

pub data RecoveryDecision : Type 0 where
  remain_stopped wait permit_replacement : RecoveryDecisionReason → RecoveryDecision
