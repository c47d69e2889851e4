-- ===== src/RetryState/Machine.antt =====
-- The retry state as a machine: each call of a method that changes it is a command, and a history
-- is a list of commands.
use resonance_signal.Base.{ℕ, List, [], ◌∷◌, ok, err}
use resonance_signal.RecoveryConfig.{RecoveryConfigurationIdentity}
use resonance_signal.RetryState.{
  IntentGeneration, AttemptId, RetryFailureCause, ExhaustionReason, RecoveryEpisodeId,
  CooldownEligibilityMarker, CooldownEvidenceId, RecoveryEpisodeResetEvidence, RetrySnapshot,
  RecoveryAuthorization, Checked, RetryState,
}
use resonance_signal.RetryState.Intent.{explicit_start, explicit_stop}
use resonance_signal.RetryState.Attempt.{
  commit_initial_attempt, commit_recovery_attempt, record_owner_created, record_stream_started,
  record_normal_completion,
}
use resonance_signal.RetryState.Evidence.{
  record_failure, record_terminal_event_delivered, record_cleanup_complete,
}
use resonance_signal.RetryState.Episode.{
  require_cooldown, satisfy_cooldown, mark_exhausted, advance_recovery_episode,
}

pub data Command : Type 0 where
  start : RecoveryConfigurationIdentity → Command
  stop : IntentGeneration → Command
  commit_initial : IntentGeneration → Command
  commit_recovery : RecoveryAuthorization → Command
  owner_created stream_started normal_completion : AttemptId → Command
  failure : AttemptId → RetryFailureCause → Command
  terminal_event cleanup_complete : AttemptId → Command
  cooldown_required : RetrySnapshot → CooldownEligibilityMarker → Command
  cooldown_satisfied : IntentGeneration → CooldownEligibilityMarker → CooldownEvidenceId → Command
  exhausted : RetrySnapshot → ExhaustionReason → Command
  advance_episode : IntentGeneration → RecoveryEpisodeResetEvidence → Command

-- What a command returns: which of the methods' results it is does not matter to a history.
pub data Reply : Type 0 where
  done : Reply
  generation : IntentGeneration → Reply
  attempt : AttemptId → Reply
  episode : RecoveryEpisodeId → Reply

abbrev pub reply : {A : Type 0} → (A → Reply) → Checked A × RetryState → Checked Reply × RetryState
reply f (ok a, s) = (ok (f a), s)
reply f (err e, s) = (err e, s)

unfoldable pub step : ℕ → Command → RetryState → Checked Reply × RetryState
step capacity (start configuration) s = reply generation (explicit_start configuration s)
step capacity (stop g) s = reply (λ _. done) (explicit_stop g s)
step capacity (commit_initial g) s = reply attempt (commit_initial_attempt g s)
step capacity (commit_recovery a) s = reply attempt (commit_recovery_attempt a s)
step capacity (owner_created id) s = reply (λ _. done) (record_owner_created id s)
step capacity (stream_started id) s = reply (λ _. done) (record_stream_started id s)
step capacity (normal_completion id) s = reply (λ _. done) (record_normal_completion id s)
step capacity (failure id cause) s = reply (λ _. done) (record_failure capacity id cause s)
step capacity (terminal_event id) s = reply (λ _. done) (record_terminal_event_delivered id s)
step capacity (cleanup_complete id) s = reply (λ _. done) (record_cleanup_complete id s)
step capacity (cooldown_required e m) s = reply (λ _. done) (require_cooldown e m s)
step capacity (cooldown_satisfied g m i) s = reply (λ _. done) (satisfy_cooldown g m i s)
step capacity (exhausted e reason) s = reply (λ _. done) (mark_exhausted e reason s)
step capacity (advance_episode g e) s = reply episode (advance_recovery_episode g e s)

unfoldable pub run : ℕ → List Command → RetryState → RetryState
run capacity [] s = s
run capacity (c ∷ cs) s = run capacity cs (step capacity c s).1
