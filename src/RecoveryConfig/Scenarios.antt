-- ===== src/RecoveryConfig/Scenarios.antt =====
-- A configuration that recovers from a removed device, validated.
use resonance_signal.Base.{◌≡◌, ◌↔◌, refl, ok}
use resonance_signal.RecoveryConfig.{
  RecoveryConfiguration, RecoveryConfigurationSnapshot, RecoveryFailureClass,
  remain_stopped_until_new_intent, CooldownConfiguration, BackoffConfiguration, fixed, forbidden,
  new_intent, new_intent_only, non_retryable, additional_evidence_required,
  AdditionalEvidenceRequirement, uniform, with_classification, permits_any_automatic_recovery,
}
use resonance_signal.RecoveryConfig.Fingerprint.{
  identity, finish, fingerprint_of, encode_budget, encode_cooldown, encode_backoff, encode_strategy,
  encode_jitter, encode_classes, encode_disposition, encode_stable_run_reset, write, write_byte,
  to_le_bytes,
}
use resonance_signal.RecoveryConfig.Validate.{validate, validate_configuration}
use resonance_signal.RecoveryConfig.WellFormed.{WellFormed, validate_configuration_iff}
use resonance_signal.RecoveryConfig.Snapshots.{stated, validate_iff}

abbrev configuration : RecoveryConfiguration
unfolding with_classification
configuration = record {
  version = 7;
  attempt_budget = record {
    maximum_automatic_recovery_attempts = 2;
    exhaustion_behavior = remain_stopped_until_new_intent;
  };
  cooldown = CooldownConfiguration.required 1000000000 new_intent;
  backoff = BackoffConfiguration.required (fixed 1000000000) 2000000000 forbidden new_intent;
  failure_classification =
      with_classification (uniform non_retryable) RecoveryFailureClass.device_unavailable
        (additional_evidence_required AdditionalEvidenceRequirement.source_available);
  stable_run_reset = new_intent_only;
}

abbrev validated : RecoveryConfigurationSnapshot
validated = record { identity = identity configuration; configuration = configuration }

-- The fingerprint, as the code computes it.
identity_test : identity configuration ≡ record {
  schema_version = 1;
  version = 7;
  fingerprint = 34711186045676488894875392133871032268;
}
unfolding configuration identity finish fingerprint_of encode_budget encode_cooldown encode_backoff
    encode_strategy encode_jitter encode_classes encode_disposition encode_stable_run_reset write
    write_byte to_le_bytes
identity_test = refl

validate_configuration_test : validate_configuration configuration ≡ ok tt
unfolding configuration validate_configuration permits_any_automatic_recovery
validate_configuration_test = refl

validate_configuration_iff_example :
    (validate_configuration configuration ≡ ok tt) ↔ WellFormed configuration
validate_configuration_iff_example = validate_configuration_iff configuration

validate_iff_example : (validate (stated configuration) ≡ ok validated) ↔ (
    (stated configuration ≡ stated validated.configuration)
    × (validated.identity ≡ identity validated.configuration)
    × WellFormed validated.configuration)
validate_iff_example = validate_iff (stated configuration) validated
