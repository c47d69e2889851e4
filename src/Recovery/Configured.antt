-- ===== src/Recovery/Configured.antt =====
-- crates/resonance-agent/src/recovery.rs: the evaluation of the policy under a validated
-- configuration and a snapshot of the retry state.
use resonance_signal.Base.{
  ℕ, Bool, true, false, not, ◌&&◌, ◌||◌, Option, none, some, ◌==◌, ltb, is_some, bool_eq,
}
use resonance_signal.RecoveryConfig.{
  identity_eq, RecoveryConfigurationIdentity, RecoveryConfigurationSnapshot, CooldownConfiguration,
  BackoffConfiguration, AdditionalEvidenceRequirement, FailureDisposition,
  additional_evidence_required, is_non_retryable, RecoveryFailureClass,
}
use resonance_signal.Recovery.Types.{
  RecoveryContext, DeviceUnavailableCause, removed, invalidated, SourceReconfigurationCause,
  default_endpoint_changed, format_changed, RecoveryCause, RecoveryEvidence, RecoveryDecisionReason,
  RecoveryDecision, remain_stopped, wait,
}
use resonance_signal.RetryState.{
  RetryFailureCause, RecoveryEpisodeState, CooldownState, satisfied, RetrySnapshot, FailureRecord,
}
use resonance_signal.Recovery.Policy.{
  first, when, missing_evidence, is_explicit_stop, retry_veto, evaluate_common_preconditions,
  evaluate_recovery,
}

unfoldable pub failure_class : RetryFailureCause → RecoveryFailureClass
failure_class RetryFailureCause.owner_construction_failure =
    RecoveryFailureClass.owner_construction_failure
failure_class (RetryFailureCause.device_unavailable _) = RecoveryFailureClass.device_unavailable
failure_class (RetryFailureCause.source_reconfigured _) = RecoveryFailureClass.source_reconfigured
failure_class RetryFailureCause.interrupted = RecoveryFailureClass.interrupted
failure_class RetryFailureCause.resource_exhausted = RecoveryFailureClass.resource_exhausted
failure_class RetryFailureCause.unsupported_format = RecoveryFailureClass.unsupported_format
failure_class RetryFailureCause.internal_failure = RecoveryFailureClass.internal_failure
failure_class RetryFailureCause.startup_failure = RecoveryFailureClass.startup_failure
failure_class RetryFailureCause.worker_panic = RecoveryFailureClass.worker_panic

abbrev device_cause_eq : DeviceUnavailableCause → DeviceUnavailableCause → Bool
device_cause_eq removed removed = true
device_cause_eq invalidated invalidated = true
device_cause_eq _ _ = false

abbrev source_cause_eq : SourceReconfigurationCause → SourceReconfigurationCause → Bool
source_cause_eq default_endpoint_changed default_endpoint_changed = true
source_cause_eq format_changed format_changed = true
source_cause_eq _ _ = false

unfoldable pub cause_matches_failure : RecoveryCause → RetryFailureCause → Bool
cause_matches_failure RecoveryCause.startup_failure RetryFailureCause.owner_construction_failure =
    true
cause_matches_failure RecoveryCause.startup_failure RetryFailureCause.startup_failure = true
cause_matches_failure RecoveryCause.interrupted RetryFailureCause.interrupted = true
cause_matches_failure RecoveryCause.resource_exhausted RetryFailureCause.resource_exhausted = true
cause_matches_failure RecoveryCause.unsupported_format RetryFailureCause.unsupported_format = true
cause_matches_failure RecoveryCause.internal_failure RetryFailureCause.internal_failure = true
cause_matches_failure RecoveryCause.worker_panic RetryFailureCause.worker_panic = true
cause_matches_failure (RecoveryCause.device_unavailable e)
      (RetryFailureCause.device_unavailable a) =
    device_cause_eq e a
cause_matches_failure (RecoveryCause.source_reconfigured e)
      (RetryFailureCause.source_reconfigured a) =
    source_cause_eq e a
cause_matches_failure _ _ = false

-- `RecoveryCause::from`, of crates/resonance-agent/src/retry_state.rs
unfoldable pub recovery_cause : RetryFailureCause → RecoveryCause
recovery_cause RetryFailureCause.owner_construction_failure = RecoveryCause.startup_failure
recovery_cause (RetryFailureCause.device_unavailable c) = RecoveryCause.device_unavailable c
recovery_cause (RetryFailureCause.source_reconfigured c) = RecoveryCause.source_reconfigured c
recovery_cause RetryFailureCause.interrupted = RecoveryCause.interrupted
recovery_cause RetryFailureCause.resource_exhausted = RecoveryCause.resource_exhausted
recovery_cause RetryFailureCause.unsupported_format = RecoveryCause.unsupported_format
recovery_cause RetryFailureCause.internal_failure = RecoveryCause.internal_failure
recovery_cause RetryFailureCause.startup_failure = RecoveryCause.startup_failure
recovery_cause RetryFailureCause.worker_panic = RecoveryCause.worker_panic

abbrev pub evidence_value : AdditionalEvidenceRequirement → RecoveryEvidence → Option Bool
evidence_value AdditionalEvidenceRequirement.source_available e = e.source_available
evidence_value AdditionalEvidenceRequirement.supported_format_available e =
    e.supported_format_available
evidence_value AdditionalEvidenceRequirement.resource_pressure_cleared e = e.pressure_cleared
evidence_value AdditionalEvidenceRequirement.changed_precondition e = e.changed_precondition

abbrev pending_reason : AdditionalEvidenceRequirement → RecoveryDecisionReason
pending_reason AdditionalEvidenceRequirement.source_available =
    RecoveryDecisionReason.source_unavailable
pending_reason AdditionalEvidenceRequirement.supported_format_available =
    RecoveryDecisionReason.supported_format_unavailable
pending_reason AdditionalEvidenceRequirement.resource_pressure_cleared =
    RecoveryDecisionReason.pressure_clearance_pending
pending_reason AdditionalEvidenceRequirement.changed_precondition =
    RecoveryDecisionReason.changed_precondition_pending

abbrev evidence_decision : Option Bool → RecoveryDecisionReason → Option RecoveryDecision
evidence_decision (some true) reason = none
evidence_decision (some false) reason = some (wait reason)
evidence_decision none reason = some missing_evidence

unfoldable pub evaluate_additional_evidence :
    AdditionalEvidenceRequirement → RecoveryEvidence → Option RecoveryDecision
evaluate_additional_evidence requirement evidence =
    evidence_decision (evidence_value requirement evidence) (pending_reason requirement)

-- The last check, of the disposition's own requirement.
abbrev pub disposition_evidence : FailureDisposition → RecoveryEvidence → Option RecoveryDecision
disposition_evidence (additional_evidence_required requirement) evidence =
    evaluate_additional_evidence requirement evidence
disposition_evidence _ evidence = none

abbrev pub episode_attempts : Option RecoveryEpisodeState → ℕ
episode_attempts none = 0
episode_attempts (some episode) = episode.automatic_recovery_attempts_started

abbrev pub episode_open : Option RecoveryEpisodeState → Bool
episode_open none = true
episode_open (some episode) = not (is_some episode.exhaustion)

abbrev cooldown_required : CooldownConfiguration → Bool
cooldown_required (CooldownConfiguration.required m r) = true
cooldown_required _ = false

abbrev backoff_required : BackoffConfiguration → Bool
backoff_required (BackoffConfiguration.required s m j r) = true
backoff_required _ = false

abbrev pub is_satisfied : CooldownState → Bool
is_satisfied (satisfied requirement evidence) = true
is_satisfied _ = false

abbrev pub maximum_attempts : RecoveryConfigurationSnapshot → ℕ
maximum_attempts c = c.configuration.attempt_budget.maximum_automatic_recovery_attempts

-- A delay is configured, so the cooldown must have been satisfied.
abbrev pub delay_required : RecoveryConfigurationSnapshot → Bool
delay_required c =
    cooldown_required c.configuration.cooldown || backoff_required c.configuration.backoff

unfoldable pub attempts_remain : RecoveryConfigurationSnapshot → RetrySnapshot → Bool
attempts_remain c s =
    episode_open s.recovery_episode
    && ltb (episode_attempts s.recovery_episode) (maximum_attempts c)

unfoldable pub cooldown_complete : RecoveryConfigurationSnapshot → RetrySnapshot → Bool
cooldown_complete c s = not (delay_required c) || is_satisfied s.cooldown

-- From the failure's disposition on.
unfoldable pub evaluate_failure :
    RecoveryConfigurationSnapshot
    → RetrySnapshot
    → RecoveryContext
    → RecoveryCause
    → RecoveryEvidence
    → FailureRecord
    → RecoveryDecision
evaluate_failure configuration s context cause evidence failure =
    let disposition =
      configuration.configuration.failure_classification (failure_class failure.cause) in
    let remaining = attempts_remain configuration s in
    let complete = cooldown_complete configuration s in
    let updated = record evidence {
      attempts_remaining = some remaining;
      cooldown_complete = some complete;
    } in
    first
      (when (not (cause_matches_failure cause failure.cause))
        (remain_stopped RecoveryDecisionReason.inconsistent_evidence))
      (first
        (when (is_non_retryable disposition)
          (remain_stopped RecoveryDecisionReason.configured_non_retryable))
        (first (retry_veto evidence.retry_hint) (
          first
            (when (not remaining) (remain_stopped RecoveryDecisionReason.retry_budget_exhausted))
            (first (when (not complete) (wait RecoveryDecisionReason.cooldown_pending)) (
              first (disposition_evidence disposition updated)
                (evaluate_recovery context cause updated))))))

unfoldable pub evaluate_recovery_policy :
    RecoveryConfigurationSnapshot
    → RecoveryConfigurationIdentity
    → RetrySnapshot
    → RecoveryContext
    → RecoveryCause
    → RecoveryEvidence
    → RecoveryDecision
unfolding evaluate_failure
evaluate_recovery_policy configuration current_configuration_id s context cause evidence =
    first
      (when (not context.desired_running || is_explicit_stop cause)
        (remain_stopped RecoveryDecisionReason.explicit_stop))
      (first
        (when (not (context.evaluated_intent_generation == context.current_intent_generation))
          (remain_stopped RecoveryDecisionReason.stale_intent))
        (first
          (when
            (not (identity_eq configuration.identity current_configuration_id)
              || not (identity_eq s.configuration_id configuration.identity))
            (remain_stopped RecoveryDecisionReason.stale_configuration))
          (first
            (when
              (not (bool_eq s.desired_running context.desired_running)
                || not (s.intent_generation == context.evaluated_intent_generation))
              (remain_stopped RecoveryDecisionReason.inconsistent_evidence))
            (first (evaluate_common_preconditions context cause evidence) (elim s.last_failure [
              | none ↦ evaluate_recovery context cause evidence
              | some failure ↦ evaluate_failure configuration s context cause evidence failure
            ])))))
