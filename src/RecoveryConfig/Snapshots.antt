-- ===== src/RecoveryConfig/Snapshots.antt =====
-- The validation of a whole input, and of the one that disables recovery.
use resonance_signal.Base.{ℕ, ◌≡◌, ◌↔◌, refl, some, Result, ok, err, arith}
use resonance_signal.RecoveryConfig.{
  RecoveryConfigurationInput, RecoveryConfiguration, RecoveryConfigurationSnapshot,
  RecoveryConfigurationError, recovery_disabled, permits_any_automatic_recovery,
}
use resonance_signal.RecoveryConfig.Fingerprint.{identity}
use resonance_signal.RecoveryConfig.Validate.{
  validate_configuration, validate, validate_failure_classification, validate_disabled,
}
use resonance_signal.RecoveryConfig.WellFormed.{WellFormed, validate_configuration_iff}

-- The input that states every field.
abbrev pub stated : RecoveryConfiguration → RecoveryConfigurationInput
stated c = record {
  version = some c.version;
  attempt_budget = some c.attempt_budget;
  cooldown = some c.cooldown;
  backoff = some c.backoff;
  failure_classification = some c.failure_classification;
  stable_run_reset = some c.stable_run_reset;
}

-- The snapshot of an input that states every field follows its validation.
abbrev snapshot_after :
    RecoveryConfiguration
    → Result RecoveryConfigurationError (Unit {0})
    → Result RecoveryConfigurationError RecoveryConfigurationSnapshot
snapshot_after c (ok u) = ok (record { identity = identity c; configuration = c })
snapshot_after c (err e) = err e

validate-stated :
    (c : RecoveryConfiguration) → validate (stated c) ≡ snapshot_after c (validate_configuration c)
unfolding validate
validate-stated c = ground arith

states_all :
    (input : RecoveryConfigurationInput) (s : RecoveryConfigurationSnapshot)
    → validate input ≡ ok s
    → input ≡ stated s.configuration
unfolding validate
states_all input s h = ground arith

snapshot_of :
    (c : RecoveryConfiguration) (r : Result RecoveryConfigurationError (Unit {0}))
    (s : RecoveryConfigurationSnapshot)
    → snapshot_after c r ≡ ok s
    → (r ≡ ok tt) × (s.identity ≡ identity c)
snapshot_of c (ok u) s h = ground arith
snapshot_of c (err e) s h = cc

-- An input validates to a snapshot exactly when it states every field, the snapshot holds these
-- fields with the identity computed from them, and they are well formed.
pub validate_iff :
    (input : RecoveryConfigurationInput) (s : RecoveryConfigurationSnapshot)
    → (validate input ≡ ok s) ↔ (
        (input ≡ stated s.configuration)
        × (s.identity ≡ identity s.configuration)
        × WellFormed s.configuration)
validate_iff input s = (
  λ h.
      let all = states_all input s h in
      let (valid, same) =
        snapshot_of s.configuration (validate_configuration s.configuration) s
          (rw (all, validate-stated) at h) in
      (all, same, (validate_configuration_iff s.configuration).0 valid),
  λ (all, same, well_formed).
      let valid = (validate_configuration_iff s.configuration).1 well_formed in
      rw (all, validate-stated, valid, ← same),
)

-- The configuration that disables recovery validates, to a snapshot with no automatic attempts.
pub recovery_disabled-validates :
    (v : ℕ)
    → (c : RecoveryConfigurationSnapshot) × (validate (recovery_disabled v) ≡ ok c)
      × (c.configuration.attempt_budget.maximum_automatic_recovery_attempts ≡ 0)
unfolding validate recovery_disabled validate_configuration permits_any_automatic_recovery
    validate_failure_classification validate_disabled
recovery_disabled-validates v = (_, refl, refl)
