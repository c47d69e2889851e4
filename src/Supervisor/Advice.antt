-- ===== src/Supervisor/Advice.antt =====
-- The evaluation that a supervisor records of a settled attempt.
use resonance_signal.Base.{
  ◌≡◌, ◌≢◌, refl, Bool, true, false, Option, none, some, ok, err, inl, inr, Bool-cases,
  Option-cases, arith,
}
use resonance_signal.RecoveryConfig.{
  RecoveryConfigurationIdentity, RecoveryConfigurationSnapshot, recovery_disabled,
}
use resonance_signal.RecoveryConfig.Validate.{validate}
use resonance_signal.Recovery.Types.{
  RecoveryContext, RecoveryCause, RecoveryEvidence, RecoveryDecision, RecoveryDecisionReason,
  permit_replacement,
}
use resonance_signal.Recovery.Policy.{evaluate_recovery}
use resonance_signal.Recovery.Configured.{evaluate_recovery_policy}
use resonance_signal.Recovery.Guards.{preconditions_never_permit, evaluate_recovery-Permits}
use resonance_signal.Recovery.Disabled.{recovery_disabled-never_permits}
use resonance_signal.RetryState.{AttemptState, RetryFailureCause, RetrySnapshot, RetryState}
use resonance_signal.RetryState.Checks.{snapshot}
use resonance_signal.Windows.Owner.{Panics}
use resonance_signal.Supervisor.{
  CaptureSupervisorCompletion, CaptureTerminalObservation, RecordedRecoveryEvaluation,
  recovery_disabled_configuration_version,
}
use resonance_signal.Supervisor.Evaluation.{
  cause_for, evaluation_snapshot, recovery_snapshot, evaluate, evaluation_of,
}
use resonance_signal.Supervisor.Attempts.{Settled}

abbrev pub NeverPermits : RecoveryDecision → Type 0
NeverPermits d = (reason : RecoveryDecisionReason) → d ≢ permit_replacement reason

-- The policy permits nothing to an intent that is not running.
stopped-NeverPermits :
    (c : RecoveryConfigurationSnapshot) (id : RecoveryConfigurationIdentity) (s : RetrySnapshot)
    (context : RecoveryContext) (cause : RecoveryCause) (evidence : RecoveryEvidence)
    → context.desired_running ≡ false
    → NeverPermits (evaluate_recovery_policy c id s context cause evidence)
unfolding evaluate_recovery_policy
stopped-NeverPermits c id s context cause evidence h reason = ground arith

-- Nor after a normal shutdown, where no failure was recorded.
normal-NeverPermits :
    (c : RecoveryConfigurationSnapshot) (id : RecoveryConfigurationIdentity) (s : RetrySnapshot)
    (context : RecoveryContext) (evidence : RecoveryEvidence)
    → s.last_failure ≡ none
    → NeverPermits (evaluate_recovery_policy c id s context RecoveryCause.normal_shutdown evidence)
unfolding evaluate_recovery_policy
normal-NeverPermits c id s context evidence h reason p =
    let never : evaluate_recovery context RecoveryCause.normal_shutdown evidence
        ≢ permit_replacement reason =
      λ q.
        ((evaluate_recovery-Permits context RecoveryCause.normal_shutdown evidence reason).0 q).1 in
    ground (
      arith,
      preconditions_never_permit context RecoveryCause.normal_shutdown evidence reason,
      never,
    )

-- What the recorded evaluation says, and that it permits nothing.
abbrev pub Advises : CaptureSupervisorCompletion → RecordedRecoveryEvaluation → Type 0
Advises completion r =
    (r.snapshot.lifecycle.completion ≡ completion)
    × (r.snapshot.lifecycle.resources_released ≡ true)
    × NeverPermits r.decision

-- An evaluation was recorded.
abbrev pub Records :
    CaptureSupervisorCompletion → Panics (Option RecordedRecoveryEvaluation) → Type 0
Records completion (ok (some r)) = Advises completion r
Records completion (ok none) = ⊥
Records completion (err message) = ⊥

module _ (c : RecoveryConfigurationSnapshot)
    (disabled : validate (recovery_disabled recovery_disabled_configuration_version) ≡ ok c)
    (o : CaptureTerminalObservation) (completion : CaptureSupervisorCompletion) where
  settled_snapshot : RetryState → AttemptState → RetrySnapshot
  settled_snapshot s a = record {
    desired_running = s.desired_running;
    intent_generation = 1;
    state_revision = s.state_revision;
    configuration_id = c.identity;
    phase = s.phase;
    attempts_started = s.attempts_started;
    current_attempt = some a;
    recovery_episode = s.recovery_episode;
    last_failure = s.last_failure;
    recent_failures = s.recent_failures;
    failure_totals = s.failure_totals;
    consecutive_failed_attempts = s.consecutive_failed_attempts;
    cooldown = s.cooldown;
  }

  snapshot-settled :
      (s : RetryState) (a : AttemptState)
      → s.intent_generation ≡ some 1
      → s.configuration_id ≡ some c.identity
      → s.current_attempt ≡ some a
      → snapshot s ≡ ok (settled_snapshot s a)
  unfolding snapshot settled_snapshot
  snapshot-settled s a g i e = ground arith

  decision-NeverPermits :
      (s : RetryState) (a : AttemptState)
      → NeverPermits (
          evaluate
            (evaluation_snapshot c o (settled_snapshot s a) a completion)
            c
            s.desired_running
            1)
  unfolding evaluate settled_snapshot
  decision-NeverPermits s a = elim (Bool-cases s.desired_running) [
    | inr stopped ↦ stopped-NeverPermits c c.identity _ _ _ _ stopped
    | inl running ↦ elim (Option-cases s.last_failure) [
      | inl no_failure ↦
          let cause : cause_for s.desired_running s.last_failure ≡ RecoveryCause.normal_shutdown =
            simp (running, no_failure) in
          rw cause (normal-NeverPermits c c.identity (settled_snapshot s a) _ _ no_failure)
      | inr (failure, f) ↦ λ reason.
          recovery_disabled-never_permits 1 c c.identity (settled_snapshot s a) _ _ _ failure reason
            disabled f
    ]
  ]

  recovery_snapshot-settled :
      (s : RetryState) (a : AttemptState)
      → s.intent_generation ≡ some 1
      → s.configuration_id ≡ some c.identity
      → s.current_attempt ≡ some a
      → recovery_snapshot c o s (some completion)
        ≡ some (evaluation_snapshot c o (settled_snapshot s a) a completion)
  unfolding recovery_snapshot settled_snapshot
  recovery_snapshot-settled s a g i e = rw (snapshot-settled s a g i e, recovery_snapshot) refl

  -- The evaluation of a settled attempt is recorded, and under the configuration that disables
  -- recovery it permits nothing.
  pub evaluation_of-Records :
      (d started terminal : Bool) (failure : Option RetryFailureCause) (s : RetryState)
      → Settled d c.identity started terminal failure s
      → Records completion (evaluation_of c s (recovery_snapshot c o s (some completion)))
  unfolding evaluation_of settled_snapshot
  evaluation_of-Records d started terminal failure s (des, g, i, r, l, (a, e, id, st, t, rel, f)) =
      rw (recovery_snapshot-settled s a g i e, Records)
        (rw (g, Records) (refl, rel, decision-NeverPermits s a))
