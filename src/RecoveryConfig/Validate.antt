-- ===== src/RecoveryConfig/Validate.antt =====
-- crates/resonance-agent/src/recovery_config.rs: validation of a configuration, from the checks on
-- one policy to the snapshot of a whole input.
use resonance_signal.Base.{
  ℕ, Bool, true, false, ◌||◌, List, [], ◌∷◌, ltb, ◌==◌, bool_eq, Result, ok, err, ok_or, ensure,
  ◌>>=◌, ◌>>◌, if◌then◌else◌,
}
use resonance_signal.RecoveryConfig.{
  Duration, is_zero, DelayResetBehavior, new_intent, new_recovery_episode_after_stable_run,
  CooldownConfiguration, BackoffDelayStrategy, fixed, linear, exponential, JitterRequirement,
  forbidden, BackoffConfiguration, AdditionalEvidenceRequirement, source_available,
  supported_format_available, resource_pressure_cleared, changed_precondition, FailureDisposition,
  retryable, non_retryable, additional_evidence_required, RecoveryFailureClass,
  FailureClassificationPolicy, permits_any_automatic_recovery, StableRunResetPolicy,
  new_intent_only, stable_run_required, RecoveryConfigurationInput, RecoveryConfiguration,
  RecoveryConfigurationSnapshot, RecoveryConfigurationField, RecoveryDurationField,
  cooldown_minimum, backoff_initial, backoff_increment, backoff_maximum, jitter_maximum,
  RecoveryConfigurationError, missing_required_field, budget_classification_conflict,
  disabled_recovery_has_active_policy, recovery_requires_cooldown, recovery_requires_backoff,
  zero_duration, backoff_initial_exceeds_maximum, backoff_increment_exceeds_maximum,
  exponential_multiplier_too_small, jitter_exceeds_maximum_delay, cooldown_exceeds_maximum_delay,
  delay_reset_conflict, stable_run_reset_conflict, failure_evidence_conflict,
}
use resonance_signal.RecoveryConfig.Fingerprint.{identity}

abbrev Checked : Type 0 → Type 0
Checked A = Result RecoveryConfigurationError A

abbrev requirement_index : AdditionalEvidenceRequirement → ℕ
requirement_index source_available = 0
requirement_index supported_format_available = 1
requirement_index resource_pressure_cleared = 2
requirement_index changed_precondition = 3

abbrev contains : List AdditionalEvidenceRequirement → AdditionalEvidenceRequirement → Bool
contains [] r = false
contains (x ∷ xs) r = requirement_index x == requirement_index r || contains xs r

abbrev guarded_classes : List (RecoveryFailureClass × List AdditionalEvidenceRequirement)
guarded_classes =
    (RecoveryFailureClass.device_unavailable, source_available ∷ changed_precondition ∷ [])
    ∷ (
      RecoveryFailureClass.source_reconfigured,
      supported_format_available ∷ changed_precondition ∷ [],
    )
    ∷ (
      RecoveryFailureClass.resource_exhausted,
      resource_pressure_cleared ∷ changed_precondition ∷ [],
    )
    ∷ (
      RecoveryFailureClass.unsupported_format,
      supported_format_available ∷ changed_precondition ∷ [],
    )
    ∷ []

abbrev allows : List AdditionalEvidenceRequirement → FailureDisposition → Bool
allows allowed_evidence non_retryable = true
allows allowed_evidence (additional_evidence_required requirement) =
    contains allowed_evidence requirement
allows allowed_evidence retryable = false

validate_classes :
    FailureClassificationPolicy
    → List (RecoveryFailureClass × List AdditionalEvidenceRequirement)
    → Checked Unit
validate_classes policy [] = ok tt
validate_classes policy ((class, allowed_evidence) ∷ rest) =
    if allows allowed_evidence (policy class)
    then validate_classes policy rest
    else err (failure_evidence_conflict class)

unfoldable pub validate_failure_classification : FailureClassificationPolicy → Checked Unit
unfolding validate_classes
validate_failure_classification policy = validate_classes policy guarded_classes

abbrev validate_nonzero : Duration → RecoveryDurationField → Checked Unit
validate_nonzero duration field = if is_zero duration then err (zero_duration field) else ok tt

abbrev fail_if : Bool → RecoveryConfigurationError → Checked Unit
fail_if true e = err e
fail_if false e = ok tt

validate_strategy : BackoffDelayStrategy → Duration → Checked Unit
validate_strategy (fixed delay) maximum_delay = do
  validate_nonzero delay backoff_initial
  fail_if (ltb maximum_delay delay) backoff_initial_exceeds_maximum
validate_strategy (linear initial_delay increment) maximum_delay = do
  validate_nonzero initial_delay backoff_initial
  validate_nonzero increment backoff_increment
  fail_if (ltb maximum_delay initial_delay) backoff_initial_exceeds_maximum
  fail_if (ltb maximum_delay increment) backoff_increment_exceeds_maximum
validate_strategy (exponential initial_delay multiplier) maximum_delay = do
  validate_nonzero initial_delay backoff_initial
  fail_if (ltb maximum_delay initial_delay) backoff_initial_exceeds_maximum
  fail_if (ltb multiplier 2) exponential_multiplier_too_small

validate_jitter : JitterRequirement → Duration → Checked Unit
validate_jitter forbidden maximum_delay = ok tt
validate_jitter (JitterRequirement.required maximum) maximum_delay = do
  validate_nonzero maximum jitter_maximum
  fail_if (ltb maximum_delay maximum) jitter_exceeds_maximum_delay

unfoldable pub validate_backoff : BackoffDelayStrategy → Duration → JitterRequirement → Checked Unit
unfolding validate_strategy validate_jitter
validate_backoff strategy maximum_delay jitter = do
  validate_nonzero maximum_delay backoff_maximum
  validate_strategy strategy maximum_delay
  validate_jitter jitter maximum_delay

-- The two matches that read the delay bounds.
cooldown_minimum_delay : CooldownConfiguration → Checked (Duration × DelayResetBehavior)
cooldown_minimum_delay CooldownConfiguration.disabled = err recovery_requires_cooldown
cooldown_minimum_delay (CooldownConfiguration.required minimum_delay reset) =
    if is_zero minimum_delay
    then err (zero_duration cooldown_minimum)
    else ok (minimum_delay, reset)

backoff_maximum_delay : BackoffConfiguration → Checked (Duration × DelayResetBehavior)
unfolding validate_backoff
backoff_maximum_delay BackoffConfiguration.disabled = err recovery_requires_backoff
backoff_maximum_delay (BackoffConfiguration.required strategy maximum_delay jitter reset) = do
  validate_backoff strategy maximum_delay jitter
  ok (maximum_delay, reset)

abbrev reset_eq : DelayResetBehavior → DelayResetBehavior → Bool
reset_eq new_intent new_intent = true
reset_eq new_recovery_episode_after_stable_run new_recovery_episode_after_stable_run = true
reset_eq _ _ = false

validate_stable_run : StableRunResetPolicy → DelayResetBehavior → Checked Unit
validate_stable_run new_intent_only new_intent = ok tt
validate_stable_run (stable_run_required evidence minimum) new_recovery_episode_after_stable_run =
    if is_zero minimum then err stable_run_reset_conflict else ok tt
validate_stable_run _ _ = err stable_run_reset_conflict

abbrev cooldown_is_disabled : CooldownConfiguration → Bool
cooldown_is_disabled CooldownConfiguration.disabled = true
cooldown_is_disabled _ = false

abbrev backoff_is_disabled : BackoffConfiguration → Bool
backoff_is_disabled BackoffConfiguration.disabled = true
backoff_is_disabled _ = false

abbrev is_new_intent_only : StableRunResetPolicy → Bool
is_new_intent_only new_intent_only = true
is_new_intent_only _ = false

abbrev pub recovery_enabled : RecoveryConfiguration → Bool
recovery_enabled c = ltb 0 c.attempt_budget.maximum_automatic_recovery_attempts

unfoldable pub validate_disabled : RecoveryConfiguration → Checked Unit
validate_disabled c =
    if cooldown_is_disabled c.cooldown
    then (if backoff_is_disabled c.backoff
        then (if is_new_intent_only c.stable_run_reset
            then ok tt
            else err disabled_recovery_has_active_policy)
        else err disabled_recovery_has_active_policy)
    else err disabled_recovery_has_active_policy

unfoldable pub validate_enabled : RecoveryConfiguration → Checked Unit
unfolding cooldown_minimum_delay backoff_maximum_delay validate_stable_run
validate_enabled c = do
  (minimum_delay, cooldown_reset) ← cooldown_minimum_delay c.cooldown
  (maximum_delay, backoff_reset) ← backoff_maximum_delay c.backoff
  fail_if (ltb maximum_delay minimum_delay) cooldown_exceeds_maximum_delay
  ensure (reset_eq cooldown_reset backoff_reset) delay_reset_conflict
  validate_stable_run c.stable_run_reset cooldown_reset

unfoldable pub validate_configuration : RecoveryConfiguration → Checked Unit
unfolding validate_disabled validate_enabled validate_failure_classification
validate_configuration c = do
  ensure (bool_eq (recovery_enabled c) (permits_any_automatic_recovery c.failure_classification))
      budget_classification_conflict
  validate_failure_classification c.failure_classification
  if recovery_enabled c then validate_enabled c else validate_disabled c

unfoldable pub validate : RecoveryConfigurationInput → Checked RecoveryConfigurationSnapshot
validate input = do
  v ← ok_or input.version (missing_required_field RecoveryConfigurationField.version)
  b ← ok_or input.attempt_budget (missing_required_field RecoveryConfigurationField.attempt_budget)
  c ← ok_or input.cooldown (missing_required_field RecoveryConfigurationField.cooldown)
  k ← ok_or input.backoff (missing_required_field RecoveryConfigurationField.backoff)
  f ←
      ok_or input.failure_classification
        (missing_required_field RecoveryConfigurationField.failure_classification)
  r ←
      ok_or input.stable_run_reset
        (missing_required_field RecoveryConfigurationField.stable_run_reset)
  let configuration : RecoveryConfiguration = record {
    version = v;
    attempt_budget = b;
    cooldown = c;
    backoff = k;
    failure_classification = f;
    stable_run_reset = r;
  }
  validate_configuration configuration
  ok (record { identity = identity configuration; configuration = configuration })
