-- ===== src/RetryState/Inv/Keeps.antt =====
-- Each operation keeps the invariant.
use resonance_signal.Base.{ℕ, ◌≡◌, arith}
use resonance_signal.RecoveryConfig.{RecoveryConfigurationIdentity}
use resonance_signal.RetryState.{
  IntentGeneration, AttemptId, ready_for_evaluation, RetryState, RecoveryAuthorization,
  RetrySnapshot, RetryPhase, automatic_recovery, CooldownEligibilityMarker, CooldownEvidenceId,
  ExhaustionReason, RecoveryEpisodeResetEvidence,
}
use resonance_signal.RetryState.Intent.{explicit_start, explicit_stop}
use resonance_signal.RetryState.Attempt.{
  commit_attempt, commit_initial_attempt, commit_recovery_attempt, record_owner_created,
  record_stream_started, record_normal_completion,
}
use resonance_signal.RetryState.Checks.{refresh_post_failure_phase}
use resonance_signal.RetryState.Evidence.{record_terminal_event_delivered, record_cleanup_complete}
use resonance_signal.RetryState.Episode.{
  require_cooldown, satisfy_cooldown, mark_exhausted, advance_recovery_episode,
}
use resonance_signal.RetryState.Inv.{Inv}

module _ (capacity : ℕ) (s : RetryState) (v : Inv capacity s) where
  pub explicit_start-Inv : (c : RecoveryConfigurationIdentity) → Inv capacity (explicit_start c s).1
  unfolding explicit_start
  explicit_start-Inv c = ground arith

  pub explicit_stop-Inv : (g : IntentGeneration) → Inv capacity (explicit_stop g s).1
  unfolding explicit_stop
  explicit_stop-Inv g = ground arith

  pub commit_initial_attempt-Inv :
      (g : IntentGeneration) → Inv capacity (commit_initial_attempt g s).1
  unfolding commit_initial_attempt
  commit_initial_attempt-Inv g = ground arith

  commit_attempt-Inv :
      s.phase ≡ RetryPhase.waiting → Inv capacity (commit_attempt automatic_recovery s).1
  unfolding commit_attempt ready_for_evaluation
  commit_attempt-Inv w = ground arith

  pub commit_recovery_attempt-Inv :
      (a : RecoveryAuthorization) → Inv capacity (commit_recovery_attempt a s).1
  unfolding commit_recovery_attempt
  commit_recovery_attempt-Inv a = ground (arith, commit_attempt-Inv)

  pub record_owner_created-Inv : (id : AttemptId) → Inv capacity (record_owner_created id s).1
  unfolding record_owner_created ready_for_evaluation
  record_owner_created-Inv id = ground arith

  pub record_stream_started-Inv : (id : AttemptId) → Inv capacity (record_stream_started id s).1
  unfolding record_stream_started ready_for_evaluation
  record_stream_started-Inv id = ground arith

  pub record_normal_completion-Inv :
      (id : AttemptId) → Inv capacity (record_normal_completion id s).1
  unfolding record_normal_completion ready_for_evaluation
  record_normal_completion-Inv id = ground arith

  pub record_terminal_event_delivered-Inv :
      (id : AttemptId) → Inv capacity (record_terminal_event_delivered id s).1
  unfolding record_terminal_event_delivered ready_for_evaluation refresh_post_failure_phase
  record_terminal_event_delivered-Inv id = ground arith

  pub record_cleanup_complete-Inv : (id : AttemptId) → Inv capacity (record_cleanup_complete id s).1
  unfolding record_cleanup_complete ready_for_evaluation refresh_post_failure_phase
  record_cleanup_complete-Inv id = ground arith

  pub require_cooldown-Inv :
      (e : RetrySnapshot) (m : CooldownEligibilityMarker) → Inv capacity (require_cooldown e m s).1
  unfolding require_cooldown
  require_cooldown-Inv e m = ground arith

  pub satisfy_cooldown-Inv :
      (g : IntentGeneration) (m : CooldownEligibilityMarker) (i : CooldownEvidenceId)
      → Inv capacity (satisfy_cooldown g m i s).1
  unfolding satisfy_cooldown
  satisfy_cooldown-Inv g m i = ground arith

  pub mark_exhausted-Inv :
      (e : RetrySnapshot) (reason : ExhaustionReason) → Inv capacity (mark_exhausted e reason s).1
  unfolding mark_exhausted
  mark_exhausted-Inv e reason = ground arith

  pub advance_recovery_episode-Inv :
      (g : IntentGeneration) (e : RecoveryEpisodeResetEvidence)
      → Inv capacity (advance_recovery_episode g e s).1
  unfolding advance_recovery_episode ready_for_evaluation
  advance_recovery_episode-Inv g e = ground arith
