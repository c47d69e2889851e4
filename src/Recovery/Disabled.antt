-- ===== src/Recovery/Disabled.antt =====
-- The configuration that disables recovery, and the policy under it.
use resonance_signal.Base.{ℕ, ◌≡◌, ◌≢◌, some, ok, arith}
use resonance_signal.RecoveryConfig.{
  RecoveryConfigurationIdentity, RecoveryConfigurationSnapshot, recovery_disabled,
}
use resonance_signal.RecoveryConfig.Validate.{validate}
use resonance_signal.RecoveryConfig.Snapshots.{recovery_disabled-validates}
use resonance_signal.Recovery.Types.{
  RecoveryContext, RecoveryCause, RecoveryEvidence, RecoveryDecisionReason, permit_replacement,
}
use resonance_signal.RetryState.{RetrySnapshot, FailureRecord}
use resonance_signal.Recovery.Configured.{maximum_attempts, evaluate_recovery_policy}
use resonance_signal.Recovery.Allowed.{policy-Permits}

-- A configuration whose budget has no automatic attempts permits no replacement after a recorded
-- failure, whatever the retry state, the cause and the evidence.
no_budget-never_permits :
    (c : RecoveryConfigurationSnapshot) (current : RecoveryConfigurationIdentity)
    (s : RetrySnapshot) (context : RecoveryContext) (cause : RecoveryCause)
    (evidence : RecoveryEvidence) (failure : FailureRecord) (reason : RecoveryDecisionReason)
    → maximum_attempts c ≡ 0
    → s.last_failure ≡ some failure
    → evaluate_recovery_policy c current s context cause evidence ≢ permit_replacement reason
no_budget-never_permits c current s context cause evidence failure reason z f p =
    let (_, retry, _, _) = policy-Permits c current s context cause evidence failure reason f p in
    let budget = retry.budget in omega arith

-- Under the configuration that disables recovery, no replacement is permitted after a recorded
-- failure, whatever the retry state, the cause and the evidence.
pub recovery_disabled-never_permits :
    (v : ℕ) (c : RecoveryConfigurationSnapshot) (current : RecoveryConfigurationIdentity)
    (s : RetrySnapshot) (context : RecoveryContext) (cause : RecoveryCause)
    (evidence : RecoveryEvidence) (failure : FailureRecord) (reason : RecoveryDecisionReason)
    → validate (recovery_disabled v) ≡ ok c
    → s.last_failure ≡ some failure
    → evaluate_recovery_policy c current s context cause evidence ≢ permit_replacement reason
recovery_disabled-never_permits v c current s context cause evidence failure reason valid f =
    let (disabled, e, z) = recovery_disabled-validates v in
    let same : disabled ≡ c = cc in
    no_budget-never_permits c current s context cause evidence failure reason (rw same at z) f
