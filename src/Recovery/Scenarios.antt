-- ===== src/Recovery/Scenarios.antt =====
-- A device that comes back: the policy's theorems applied to it.
use resonance_signal.Base.{ℕ, ◌≡◌, ◌≢◌, ◌↔◌, ◌≤◌, refl, true, none, some, [], ◌∷◌}
use resonance_signal.RecoveryConfig.{
  RecoveryConfigurationIdentity, RecoveryConfiguration, RecoveryConfigurationSnapshot,
  RecoveryFailureClass, remain_stopped_until_new_intent, CooldownConfiguration,
  BackoffConfiguration, fixed, forbidden, new_intent, new_intent_only, non_retryable,
  additional_evidence_required, AdditionalEvidenceRequirement, uniform, with_classification,
  recovery_disabled, permits_any_automatic_recovery,
}
use resonance_signal.RecoveryConfig.Fingerprint.{identity}
use resonance_signal.RecoveryConfig.Validate.{validate, validate_configuration}
use resonance_signal.Recovery.Types.{
  wait_for_source, RecoveryContext, removed, RecoveryCause, follow_default, RecoveryEvidence,
  no_evidence, RecoveryDecisionReason, permit_replacement,
}
use resonance_signal.RetryState.Checks.{snapshot, require_current_authorization}
use resonance_signal.RetryState.Attempt.{commit_attempt, commit_recovery_attempt}
use resonance_signal.Recovery.Budget.{Implies, permitted_commit-bounded}
use resonance_signal.RetryState.{
  RetryState, AttemptState, AttemptKind, AttemptLifecycle, RecoveryAuthorization,
  ready_for_evaluation, RetrySnapshot, FailureRecord, RetryFailureCause, RetryPhase, no_failures,
  satisfied, AttemptId,
}
use resonance_signal.Recovery.Policy.{
  evaluate_common_preconditions, evaluate_cause, evaluate_recovery,
}
use resonance_signal.Recovery.Configured.{
  episode_attempts, delay_required, is_satisfied, maximum_attempts, evaluate_recovery_policy,
  cause_matches_failure, failure_class, attempts_remain, cooldown_complete,
  evaluate_additional_evidence, recovery_cause,
}
use resonance_signal.Recovery.Causes.{cause_matches_failure_iff}
use resonance_signal.Recovery.Disabled.{recovery_disabled-never_permits}
use resonance_signal.Recovery.Guards.{LifecycleEnded, Permits, evaluate_recovery-Permits}
use resonance_signal.Recovery.Allowed.{completed, ConfigurationAllows, RetryAllows, policy-Permits}

abbrev current : RecoveryConfigurationIdentity
current = record { schema_version = 1; version = 7; fingerprint = 99 }

-- Removed devices are waited for, twice at most, a second apart.
abbrev configuration : ℕ → RecoveryConfigurationSnapshot
unfolding with_classification
configuration attempts = record {
  identity = current;
  configuration = record {
    version = 7;
    attempt_budget = record {
      maximum_automatic_recovery_attempts = attempts;
      exhaustion_behavior = remain_stopped_until_new_intent;
    };
    cooldown = CooldownConfiguration.required 1000000000 new_intent;
    backoff = BackoffConfiguration.required (fixed 1000000000) 2000000000 forbidden new_intent;
    failure_classification =
        with_classification (uniform non_retryable) RecoveryFailureClass.device_unavailable
          (additional_evidence_required AdditionalEvidenceRequirement.source_available);
    stable_run_reset = new_intent_only;
  };
}

abbrev first_attempt : AttemptId
first_attempt = record { intent_generation = 1; ordinal = 1 }

abbrev device_removed : FailureRecord
device_removed = record {
  attempt_id = first_attempt;
  recovery_episode = record { intent_generation = 1; ordinal = 1 };
  cause = RetryFailureCause.device_unavailable removed;
  stream_started = true;
}

abbrev cleaned_up : AttemptState
cleaned_up = record {
  id = first_attempt;
  kind = AttemptKind.explicit_start;
  lifecycle = AttemptLifecycle.cleanup_complete;
  stream_started = true;
  terminal_event_delivered = true;
  resources_released = true;
  failure = some (RetryFailureCause.device_unavailable removed);
}

abbrev state : RetrySnapshot
state = record {
  desired_running = true;
  intent_generation = 1;
  state_revision = 9;
  configuration_id = current;
  phase = RetryPhase.waiting;
  attempts_started = 1;
  current_attempt = some cleaned_up;
  recovery_episode = some (record {
    id = record { intent_generation = 1; ordinal = 1 };
    automatic_recovery_attempts_started = 0;
    exhaustion = none;
  });
  last_failure = some device_removed;
  recent_failures = device_removed ∷ [];
  failure_totals = record no_failures { total = 1; device_unavailable = 1 };
  consecutive_failed_attempts = 1;
  cooldown = satisfied (record { attempt_id = first_attempt; marker = 5 }) 6;
}

abbrev context : RecoveryContext
context = record {
  desired_running = true;
  current_intent_generation = 1;
  evaluated_intent_generation = 1;
}

abbrev returned : RecoveryEvidence
returned = record no_evidence {
  stream_started = some true;
  terminal_event_delivered = some true;
  owner_completed = some true;
  resources_released = some true;
  retry_hint = some wait_for_source;
  source_available = some true;
  source_policy = some follow_default;
}

abbrev cause : RecoveryCause
cause = RecoveryCause.device_unavailable removed

abbrev reason : RecoveryDecisionReason
reason = RecoveryDecisionReason.source_available

evaluate_recovery-Permits_example :
    (evaluate_recovery context cause (completed (configuration 2) state returned)
      ≡ permit_replacement reason)
    ↔ (LifecycleEnded context (completed (configuration 2) state returned)
        × Permits cause (completed (configuration 2) state returned) reason)
evaluate_recovery-Permits_example =
    evaluate_recovery-Permits context cause (completed (configuration 2) state returned) reason

policy-Permits_example :
    ConfigurationAllows (configuration 2) current state context cause returned device_removed
    × RetryAllows (configuration 2) state
    × LifecycleEnded context returned
    × Permits cause (completed (configuration 2) state returned) reason
unfolding evaluate_recovery_policy configuration evaluate_common_preconditions evaluate_cause
    cause_matches_failure failure_class attempts_remain cooldown_complete
    evaluate_additional_evidence evaluate_recovery
policy-Permits_example =
    policy-Permits (configuration 2) current state context cause returned device_removed reason refl
      refl

cause_matches_failure_iff_example :
    (cause_matches_failure cause device_removed.cause ≡ true)
    ↔ (recovery_cause device_removed.cause ≡ cause)
cause_matches_failure_iff_example = cause_matches_failure_iff cause device_removed.cause

abbrev recovery_off : RecoveryConfiguration
recovery_off = record {
  version = 7;
  attempt_budget = record {
    maximum_automatic_recovery_attempts = 0;
    exhaustion_behavior = remain_stopped_until_new_intent;
  };
  cooldown = CooldownConfiguration.disabled;
  backoff = BackoffConfiguration.disabled;
  failure_classification = uniform non_retryable;
  stable_run_reset = new_intent_only;
}

recovery_disabled-never_permits_example :
    evaluate_recovery_policy
      (record { identity = identity recovery_off; configuration = recovery_off })
      current
      state
      context
      cause
      returned
    ≢ permit_replacement reason
unfolding validate recovery_disabled validate_configuration permits_any_automatic_recovery
recovery_disabled-never_permits_example =
    recovery_disabled-never_permits 7
      (record { identity = identity recovery_off; configuration = recovery_off }) current state
      context cause returned device_removed reason refl refl

abbrev keeper : RetryState
keeper = record {
  last_intent_generation = 1;
  intent_generation = some 1;
  state_revision = 9;
  configuration_id = some current;
  desired_running = true;
  phase = RetryPhase.waiting;
  attempts_started = 1;
  current_attempt = some cleaned_up;
  recovery_episode = state.recovery_episode;
  last_failure = state.last_failure;
  recent_failures = state.recent_failures;
  failure_totals = state.failure_totals;
  consecutive_failed_attempts = 1;
  cooldown = state.cooldown;
}

abbrev permission : RecoveryAuthorization
permission = record {
  intent_generation = 1;
  state_revision = 9;
  configuration_id = current;
  recovery_episode = some (record { intent_generation = 1; ordinal = 1 });
  prior_attempt_id = some first_attempt;
  reason = reason;
}

permitted_commit-bounded_example :
    (episode_attempts (commit_recovery_attempt permission keeper).1.recovery_episode
      ≤ maximum_attempts (configuration 2))
    × Implies (delay_required (configuration 2)) (is_satisfied keeper.cooldown)
unfolding evaluate_recovery_policy configuration evaluate_common_preconditions evaluate_cause
    cause_matches_failure failure_class attempts_remain cooldown_complete
    evaluate_additional_evidence evaluate_recovery snapshot commit_recovery_attempt commit_attempt
    require_current_authorization ready_for_evaluation
permitted_commit-bounded_example =
    permitted_commit-bounded (configuration 2) current keeper state context cause returned
      device_removed reason permission (record { intent_generation = 1; ordinal = 2 }) refl refl
      refl refl
