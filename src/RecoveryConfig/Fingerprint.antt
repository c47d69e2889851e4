-- ===== src/RecoveryConfig/Fingerprint.antt =====
-- crates/resonance-agent/src/recovery_config.rs: the fingerprint of two 64-bit lanes, the encoding
-- of a configuration into it, and the identity of a configuration.
use resonance_signal.Base.{ℕ, zero, suc, ◌+◌, ◌*◌, ◌/◌, ◌%◌, ◌^◌, bit_xor, List, [], ◌∷◌}
use resonance_signal.RecoveryConfig.{
  Duration, configuration_schema_version, RecoveryConfigurationIdentity, ExhaustionBehavior,
  remain_stopped_until_new_intent, remain_stopped_until_configuration_change,
  AutomaticRecoveryAttemptBudget, DelayResetBehavior, new_intent,
  new_recovery_episode_after_stable_run, CooldownConfiguration, BackoffDelayStrategy, fixed, linear,
  exponential, JitterRequirement, forbidden, BackoffConfiguration, AdditionalEvidenceRequirement,
  source_available, supported_format_available, resource_pressure_cleared, changed_precondition,
  FailureDisposition, retryable, non_retryable, additional_evidence_required, RecoveryFailureClass,
  class_index, failure_classes, FailureClassificationPolicy, StableRunEvidence,
  supervisor_running_state, continuous_frame_delivery, StableRunResetPolicy, new_intent_only,
  stable_run_required, RecoveryConfiguration,
}

pub record StableFingerprint : Type 0 where
  pub first : ℕ  -- u64
  pub second : ℕ  -- u64

abbrev u64_modulus : ℕ
u64_modulus = 2 ^ 64

abbrev pub new : StableFingerprint
new = record { first = 0xcbf29ce484222325; second = 0x84222325cbf29ce4 }

unfoldable pub write_byte : StableFingerprint → ℕ → StableFingerprint
write_byte f byte = record {
  first = (bit_xor f.first byte * 0x00000100000001b3) % u64_modulus;
  second = (bit_xor f.second (bit_xor byte 0xa5) * 0x00000100000001e7) % u64_modulus;
}

unfoldable pub write : StableFingerprint → List ℕ → StableFingerprint
write f [] = f
write f (byte ∷ bytes) = write (write_byte f byte) bytes

-- `to_le_bytes` of an unsigned integer of the given number of bytes
unfoldable pub to_le_bytes : ℕ → ℕ → List ℕ
to_le_bytes zero value = []
to_le_bytes (suc n) value = (value % 256) ∷ to_le_bytes n (value / 256)

abbrev pub write_u8 : StableFingerprint → ℕ → StableFingerprint
write_u8 f value = write f (value ∷ [])

abbrev pub write_u16 : StableFingerprint → ℕ → StableFingerprint
write_u16 f value = write f (to_le_bytes 2 value)

abbrev pub write_u32 : StableFingerprint → ℕ → StableFingerprint
write_u32 f value = write f (to_le_bytes 4 value)

abbrev pub nanos_per_second : ℕ
nanos_per_second = 1000000000

abbrev pub write_duration : StableFingerprint → Duration → StableFingerprint
write_duration f value =
    write (write f (to_le_bytes 8 (value / nanos_per_second)))
      (to_le_bytes 4 (value % nanos_per_second))

unfoldable pub finish : StableFingerprint → ℕ
finish f = f.first * 2 ^ 64 + f.second

abbrev pub behavior_byte : ExhaustionBehavior → ℕ
behavior_byte remain_stopped_until_new_intent = 0
behavior_byte remain_stopped_until_configuration_change = 1

unfoldable pub encode_budget :
    StableFingerprint → AutomaticRecoveryAttemptBudget → StableFingerprint
encode_budget f budget =
    write_u8 (write_u32 f budget.maximum_automatic_recovery_attempts)
      (behavior_byte budget.exhaustion_behavior)

abbrev pub encode_delay_reset : DelayResetBehavior → ℕ
encode_delay_reset new_intent = 0
encode_delay_reset new_recovery_episode_after_stable_run = 1

unfoldable pub encode_cooldown : StableFingerprint → CooldownConfiguration → StableFingerprint
encode_cooldown f CooldownConfiguration.disabled = write_u8 f 0
encode_cooldown f (CooldownConfiguration.required minimum_delay reset) =
    write_u8 (write_duration (write_u8 f 1) minimum_delay) (encode_delay_reset reset)

unfoldable pub encode_strategy : StableFingerprint → BackoffDelayStrategy → StableFingerprint
encode_strategy f (fixed delay) = write_duration (write_u8 f 0) delay
encode_strategy f (linear initial_delay increment) =
    write_duration (write_duration (write_u8 f 1) initial_delay) increment
encode_strategy f (exponential initial_delay multiplier) =
    write_u32 (write_duration (write_u8 f 2) initial_delay) multiplier

unfoldable pub encode_jitter : StableFingerprint → JitterRequirement → StableFingerprint
encode_jitter f forbidden = write_u8 f 0
encode_jitter f (JitterRequirement.required maximum) = write_duration (write_u8 f 1) maximum

unfoldable pub encode_backoff : StableFingerprint → BackoffConfiguration → StableFingerprint
encode_backoff f BackoffConfiguration.disabled = write_u8 f 0
encode_backoff f (BackoffConfiguration.required strategy maximum_delay jitter reset) =
    write_u8
      (encode_jitter (write_duration (encode_strategy (write_u8 f 1) strategy) maximum_delay)
        jitter)
      (encode_delay_reset reset)

abbrev pub requirement_byte : AdditionalEvidenceRequirement → ℕ
requirement_byte source_available = 0
requirement_byte supported_format_available = 1
requirement_byte resource_pressure_cleared = 2
requirement_byte changed_precondition = 3

unfoldable pub encode_disposition : StableFingerprint → FailureDisposition → StableFingerprint
encode_disposition f retryable = write_u8 f 0
encode_disposition f non_retryable = write_u8 f 1
encode_disposition f (additional_evidence_required requirement) =
    write_u8 (write_u8 f 2) (requirement_byte requirement)

abbrev pub stable_run_evidence_byte : StableRunEvidence → ℕ
stable_run_evidence_byte supervisor_running_state = 0
stable_run_evidence_byte continuous_frame_delivery = 1

unfoldable pub encode_stable_run_reset :
    StableFingerprint → StableRunResetPolicy → StableFingerprint
encode_stable_run_reset f new_intent_only = write_u8 f 0
encode_stable_run_reset f (stable_run_required evidence minimum_duration) =
    write_duration (write_u8 (write_u8 f 1) (stable_run_evidence_byte evidence)) minimum_duration

-- The loop over the failure classes.
unfoldable pub encode_classes :
    StableFingerprint → FailureClassificationPolicy → List RecoveryFailureClass → StableFingerprint
encode_classes f policy [] = f
encode_classes f policy (class ∷ rest) =
    encode_classes (encode_disposition (write_u8 f (class_index class)) (policy class)) policy rest

unfoldable pub fingerprint_of : RecoveryConfiguration → StableFingerprint
fingerprint_of c =
    let schema = write_u16 new configuration_schema_version in
    let budget = encode_budget schema c.attempt_budget in
    let cooldown = encode_cooldown budget c.cooldown in
    let backoff = encode_backoff cooldown c.backoff in
    let classes = encode_classes backoff c.failure_classification failure_classes in
    encode_stable_run_reset classes c.stable_run_reset

unfoldable pub identity : RecoveryConfiguration → RecoveryConfigurationIdentity
identity c = record {
  schema_version = configuration_schema_version;
  version = c.version;
  fingerprint = finish (fingerprint_of c);
}
