-- ===== src/Recovery/Budget.antt =====
-- The policy and the retry state together: an attempt that the policy permits stays in the budget.
use resonance_signal.Base.{◌+◌, ◌≤◌, ◌<◌, ◌≡◌, refl, Bool, true, false, some, ok, arith}
use resonance_signal.RecoveryConfig.{RecoveryConfigurationIdentity, RecoveryConfigurationSnapshot}
use resonance_signal.Recovery.Types.{
  RecoveryContext, RecoveryCause, RecoveryEvidence, RecoveryDecisionReason, permit_replacement,
}
use resonance_signal.RetryState.{
  RetryState, RetrySnapshot, FailureRecord, RecoveryAuthorization, AttemptId,
}
use resonance_signal.RetryState.Checks.{snapshot}
use resonance_signal.RetryState.Attempt.{commit_attempt, commit_recovery_attempt}
use resonance_signal.Recovery.Configured.{
  evaluate_recovery_policy, episode_attempts, maximum_attempts, delay_required, is_satisfied,
}
use resonance_signal.Recovery.Allowed.{policy-Permits}

-- Where the first holds, so does the second.
abbrev pub Implies : Bool → Bool → Type 0
Implies true b = b ≡ true
Implies false b = Unit

implied : (a b : Bool) → (a ≡ true → b ≡ true) → Implies a b
implied true b h = h refl
implied false b h = tt

-- A commit counts one attempt in the episode.
commit_counts :
    (s : RetryState) (a : RecoveryAuthorization) (id : AttemptId)
    → (commit_recovery_attempt a s).0 ≡ ok id
    → episode_attempts (commit_recovery_attempt a s).1.recovery_episode
      ≡ episode_attempts s.recovery_episode + 1
unfolding commit_recovery_attempt commit_attempt
commit_counts s a id h = ground arith

snapshot_fields :
    (s : RetryState) (evaluated : RetrySnapshot)
    → snapshot s ≡ ok evaluated
    → (evaluated.recovery_episode ≡ s.recovery_episode) × (evaluated.cooldown ≡ s.cooldown)
unfolding snapshot
snapshot_fields s evaluated h = ground arith

-- If the policy, on the snapshot of a state with a recorded failure, permits a replacement, and a
-- recovery attempt is committed in that state, then the attempts of the recovery episode, this one
-- counted, are within the configured maximum, and a configured delay had been satisfied.
pub permitted_commit-bounded :
    (c : RecoveryConfigurationSnapshot) (current : RecoveryConfigurationIdentity) (s : RetryState)
    (evaluated : RetrySnapshot) (context : RecoveryContext) (cause : RecoveryCause)
    (evidence : RecoveryEvidence) (failure : FailureRecord) (reason : RecoveryDecisionReason)
    (a : RecoveryAuthorization) (id : AttemptId)
    → snapshot s ≡ ok evaluated
    → evaluated.last_failure ≡ some failure
    → evaluate_recovery_policy c current evaluated context cause evidence
      ≡ permit_replacement reason
    → (commit_recovery_attempt a s).0 ≡ ok id
    → (episode_attempts (commit_recovery_attempt a s).1.recovery_episode ≤ maximum_attempts c)
      × Implies (delay_required c) (is_satisfied s.cooldown)
permitted_commit-bounded c current s evaluated context cause evidence failure reason a id snap f p
      h =
    let (_, allowed, _, _) =
      policy-Permits c current evaluated context cause evidence failure reason f p in
    let (episode, cooldown) = snapshot_fields s evaluated snap in
    let budget : episode_attempts s.recovery_episode < maximum_attempts c =
      rw episode at allowed.budget in
    (omega (arith, commit_counts s a id h), implied _ _ (rw cooldown at allowed.delay))
