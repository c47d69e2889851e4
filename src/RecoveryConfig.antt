-- ===== src/RecoveryConfig.antt =====
-- crates/resonance-agent/src/recovery_config.rs: the recovery policy configuration, its untrusted
-- input, and the errors of its validation. A `Duration` is its count of nanoseconds.
-- An array indexed by the failure classes is a function of the class.
pub mod Validate
pub mod Fingerprint
pub mod WellFormed
pub mod Snapshots
mod Scenarios
use resonance_signal.Base.{
  ℕ, Bool, true, false, Option, none, some, List, [], ◌∷◌, ◌||◌, ◌==◌, if◌then◌else◌,
}

abbrev pub Duration : Type 0
Duration = ℕ

abbrev pub is_zero : Duration → Bool
is_zero d = d == 0

abbrev pub configuration_schema_version : ℕ
configuration_schema_version = 1

pub record RecoveryConfigurationIdentity : Type 0 where
  pub schema_version : ℕ  -- u16
  pub version : ℕ  -- a nonzero u64
  pub fingerprint : ℕ  -- u128

pub data ExhaustionBehavior : Type 0 where
  remain_stopped_until_new_intent : ExhaustionBehavior
  remain_stopped_until_configuration_change : ExhaustionBehavior

pub record AutomaticRecoveryAttemptBudget : Type 0 where
  pub maximum_automatic_recovery_attempts : ℕ  -- u32
  pub exhaustion_behavior : ExhaustionBehavior

pub data DelayResetBehavior : Type 0 where
  new_intent new_recovery_episode_after_stable_run : DelayResetBehavior

pub data CooldownConfiguration : Type 0 where
  disabled : CooldownConfiguration
  required : (minimum_delay : Duration) → (reset : DelayResetBehavior) → CooldownConfiguration

pub data BackoffDelayStrategy : Type 0 where
  fixed : (delay : Duration) → BackoffDelayStrategy
  linear : (initial_delay increment : Duration) → BackoffDelayStrategy
  exponential : (initial_delay : Duration) → (multiplier : ℕ) → BackoffDelayStrategy

pub data JitterRequirement : Type 0 where
  forbidden : JitterRequirement
  required : (maximum : Duration) → JitterRequirement

pub data BackoffConfiguration : Type 0 where
  disabled : BackoffConfiguration
  required :
      (strategy : BackoffDelayStrategy)
      → (maximum_delay : Duration) → (jitter : JitterRequirement) → (reset : DelayResetBehavior)
      → BackoffConfiguration

pub data AdditionalEvidenceRequirement : Type 0 where
  source_available supported_format_available : AdditionalEvidenceRequirement
  resource_pressure_cleared changed_precondition : AdditionalEvidenceRequirement

pub data FailureDisposition : Type 0 where
  retryable non_retryable : FailureDisposition
  additional_evidence_required : AdditionalEvidenceRequirement → FailureDisposition

pub data RecoveryFailureClass : Type 0 where
  owner_construction_failure device_unavailable source_reconfigured : RecoveryFailureClass
  interrupted resource_exhausted unsupported_format : RecoveryFailureClass
  internal_failure startup_failure worker_panic : RecoveryFailureClass

-- `class as usize`
abbrev pub class_index : RecoveryFailureClass → ℕ
class_index owner_construction_failure = 0
class_index device_unavailable = 1
class_index source_reconfigured = 2
class_index interrupted = 3
class_index resource_exhausted = 4
class_index unsupported_format = 5
class_index internal_failure = 6
class_index startup_failure = 7
class_index worker_panic = 8

abbrev pub failure_classes : List RecoveryFailureClass
failure_classes =
    owner_construction_failure ∷ device_unavailable ∷ source_reconfigured ∷ interrupted
    ∷ resource_exhausted ∷ unsupported_format ∷ internal_failure ∷ startup_failure ∷ worker_panic
    ∷ []

abbrev pub FailureClassificationPolicy : Type 0
FailureClassificationPolicy = RecoveryFailureClass → FailureDisposition

abbrev pub uniform : FailureDisposition → FailureClassificationPolicy
uniform disposition class = disposition

unfoldable pub with_classification :
    FailureClassificationPolicy
    → RecoveryFailureClass
    → FailureDisposition
    → FailureClassificationPolicy
with_classification policy class disposition c =
    if class_index c == class_index class then disposition else policy c

abbrev pub is_non_retryable : FailureDisposition → Bool
is_non_retryable non_retryable = true
is_non_retryable _ = false

abbrev pub any_retryable : FailureClassificationPolicy → List RecoveryFailureClass → Bool
any_retryable policy [] = false
any_retryable policy (class ∷ rest) =
    (if is_non_retryable (policy class) then false else true) || any_retryable policy rest

unfoldable pub permits_any_automatic_recovery : FailureClassificationPolicy → Bool
permits_any_automatic_recovery policy = any_retryable policy failure_classes

pub data StableRunEvidence : Type 0 where
  supervisor_running_state continuous_frame_delivery : StableRunEvidence

pub data StableRunResetPolicy : Type 0 where
  new_intent_only : StableRunResetPolicy
  stable_run_required :
      (evidence : StableRunEvidence) → (minimum_duration : Duration) → StableRunResetPolicy

pub record RecoveryConfigurationInput : Type 0 where
  pub version : Option ℕ
  pub attempt_budget : Option AutomaticRecoveryAttemptBudget
  pub cooldown : Option CooldownConfiguration
  pub backoff : Option BackoffConfiguration
  pub failure_classification : Option FailureClassificationPolicy
  pub stable_run_reset : Option StableRunResetPolicy

pub record RecoveryConfiguration : Type 0 where
  pub version : ℕ
  pub attempt_budget : AutomaticRecoveryAttemptBudget
  pub cooldown : CooldownConfiguration
  pub backoff : BackoffConfiguration
  pub failure_classification : FailureClassificationPolicy
  pub stable_run_reset : StableRunResetPolicy

pub record RecoveryConfigurationSnapshot : Type 0 where
  pub identity : RecoveryConfigurationIdentity
  pub configuration : RecoveryConfiguration

pub data RecoveryConfigurationField : Type 0 where
  version attempt_budget cooldown backoff : RecoveryConfigurationField
  failure_classification stable_run_reset : RecoveryConfigurationField

pub data RecoveryDurationField : Type 0 where
  cooldown_minimum backoff_initial backoff_increment : RecoveryDurationField
  backoff_maximum jitter_maximum : RecoveryDurationField

pub data RecoveryConfigurationError : Type 0 where
  missing_required_field : RecoveryConfigurationField → RecoveryConfigurationError
  budget_classification_conflict disabled_recovery_has_active_policy : RecoveryConfigurationError
  recovery_requires_cooldown recovery_requires_backoff : RecoveryConfigurationError
  zero_duration : RecoveryDurationField → RecoveryConfigurationError
  backoff_initial_exceeds_maximum backoff_increment_exceeds_maximum : RecoveryConfigurationError
  exponential_multiplier_too_small jitter_exceeds_maximum_delay : RecoveryConfigurationError
  cooldown_exceeds_maximum_delay delay_reset_conflict : RecoveryConfigurationError
  stable_run_reset_conflict : RecoveryConfigurationError
  failure_evidence_conflict : RecoveryFailureClass → RecoveryConfigurationError

-- The explicit fail-closed definition that the supervisor runs with.
unfoldable pub recovery_disabled : ℕ → RecoveryConfigurationInput
recovery_disabled v = record {
  version = some v;
  attempt_budget = some (record {
    maximum_automatic_recovery_attempts = 0;
    exhaustion_behavior = remain_stopped_until_new_intent;
  });
  cooldown = some CooldownConfiguration.disabled;
  backoff = some BackoffConfiguration.disabled;
  failure_classification = some (uniform non_retryable);
  stable_run_reset = some new_intent_only;
}

-- Equality of identities is that of their three numbers.
abbrev pub identity_eq : RecoveryConfigurationIdentity → RecoveryConfigurationIdentity → Bool
identity_eq a b =
    if a.schema_version == b.schema_version
    then (if a.version == b.version then a.fingerprint == b.fingerprint else false)
    else false
