-- ===== src/Recovery/Causes.antt =====
-- The cause that a failure is evaluated under is the one that the failure itself names.
use resonance_signal.Base.{◌≡◌, ◌↔◌, true, arith}
use resonance_signal.Recovery.Types.{RecoveryCause}
use resonance_signal.RetryState.{RetryFailureCause}
use resonance_signal.Recovery.Configured.{cause_matches_failure, recovery_cause}

-- The policy takes a cause for a recorded failure exactly when it is the cause that the failure
-- converts to.
pub cause_matches_failure_iff :
    (cause : RecoveryCause) (failure : RetryFailureCause)
    → (cause_matches_failure cause failure ≡ true) ↔ (recovery_cause failure ≡ cause)
unfolding cause_matches_failure recovery_cause
cause_matches_failure_iff cause failure = (λ p. ground arith, λ p. ground arith)
