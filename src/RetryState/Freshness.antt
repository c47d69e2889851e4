-- ===== src/RetryState/Freshness.antt =====
-- Errors change nothing, and every success makes the state newer: what was evaluated before it is
-- stale after it.
use resonance_signal.Base.{ℕ, ◌+◌, ◌≡◌, ◌⊎◌, some, ok, err, arith}
use resonance_signal.RecoveryConfig.{RecoveryConfigurationIdentity}
use resonance_signal.RetryState.{
  RetryState, Checked, IntentGeneration, AttemptKind, AttemptId, RecoveryAuthorization,
  RetryFailureCause, RetrySnapshot, CooldownEligibilityMarker, CooldownEvidenceId, ExhaustionReason,
  RecoveryEpisodeResetEvidence,
}
use resonance_signal.RetryState.Checks.{refresh_post_failure_phase}
use resonance_signal.RetryState.Intent.{explicit_start, explicit_stop}
use resonance_signal.RetryState.Attempt.{
  commit_attempt, commit_initial_attempt, commit_recovery_attempt, record_owner_created,
  record_stream_started, record_normal_completion,
}
use resonance_signal.RetryState.Evidence.{
  record_failure, record_terminal_event_delivered, record_cleanup_complete,
}
use resonance_signal.RetryState.Episode.{
  require_cooldown, satisfy_cooldown, mark_exhausted, advance_recovery_episode,
}
use resonance_signal.RetryState.Machine.{
  Command, start, stop, commit_initial, commit_recovery, owner_created, stream_started,
  normal_completion, failure, terminal_event, cleanup_complete, cooldown_required,
  cooldown_satisfied, exhausted, advance_episode, Reply, reply, step,
}

-- A later intent, or the same intent at the next revision.
abbrev pub Advances : RetryState → RetryState → Type 0
Advances s t =
    ((t.last_intent_generation ≡ s.last_intent_generation + 1)
      × (t.intent_generation ≡ some t.last_intent_generation)
      × (t.state_revision ≡ 1))
    ⊎ ((t.last_intent_generation ≡ s.last_intent_generation)
        × (t.intent_generation ≡ s.intent_generation)
        × (t.state_revision ≡ s.state_revision + 1))

-- A refused call leaves the state as it was; a successful one advances it.
abbrev pub Effect : {A : Type 0} → RetryState → Checked A × RetryState → Type 0
Effect s (ok a, t) = Advances s t
Effect s (err e, t) = t ≡ s

module _ (s : RetryState) where
  explicit_start-Effect : (c : RecoveryConfigurationIdentity) → Effect s (explicit_start c s)
  unfolding explicit_start
  explicit_start-Effect c = ground arith

  explicit_stop-Effect : (g : IntentGeneration) → Effect s (explicit_stop g s)
  unfolding explicit_stop
  explicit_stop-Effect g = ground arith

  commit_attempt-Effect : (kind : AttemptKind) → Effect s (commit_attempt kind s)
  unfolding commit_attempt
  commit_attempt-Effect kind = ground arith

  commit_initial_attempt-Effect : (g : IntentGeneration) → Effect s (commit_initial_attempt g s)
  unfolding commit_initial_attempt
  commit_initial_attempt-Effect g = ground (arith, commit_attempt-Effect AttemptKind.explicit_start)

  pub commit_recovery_attempt-Effect :
      (a : RecoveryAuthorization) → Effect s (commit_recovery_attempt a s)
  unfolding commit_recovery_attempt
  commit_recovery_attempt-Effect a =
      ground (arith, commit_attempt-Effect AttemptKind.automatic_recovery)

  record_owner_created-Effect : (id : AttemptId) → Effect s (record_owner_created id s)
  unfolding record_owner_created
  record_owner_created-Effect id = ground arith

  record_stream_started-Effect : (id : AttemptId) → Effect s (record_stream_started id s)
  unfolding record_stream_started
  record_stream_started-Effect id = ground arith

  record_normal_completion-Effect : (id : AttemptId) → Effect s (record_normal_completion id s)
  unfolding record_normal_completion
  record_normal_completion-Effect id = ground arith

  record_failure-Effect :
      (capacity : ℕ) (id : AttemptId) (cause : RetryFailureCause)
      → Effect s (record_failure capacity id cause s)
  unfolding record_failure refresh_post_failure_phase
  record_failure-Effect capacity id cause = ground arith

  record_terminal_event_delivered-Effect :
      (id : AttemptId) → Effect s (record_terminal_event_delivered id s)
  unfolding record_terminal_event_delivered refresh_post_failure_phase
  record_terminal_event_delivered-Effect id = ground arith

  record_cleanup_complete-Effect : (id : AttemptId) → Effect s (record_cleanup_complete id s)
  unfolding record_cleanup_complete refresh_post_failure_phase
  record_cleanup_complete-Effect id = ground arith

  require_cooldown-Effect :
      (e : RetrySnapshot) (m : CooldownEligibilityMarker) → Effect s (require_cooldown e m s)
  unfolding require_cooldown
  require_cooldown-Effect e m = ground arith

  satisfy_cooldown-Effect :
      (g : IntentGeneration) (m : CooldownEligibilityMarker) (i : CooldownEvidenceId)
      → Effect s (satisfy_cooldown g m i s)
  unfolding satisfy_cooldown
  satisfy_cooldown-Effect g m i = ground arith

  mark_exhausted-Effect :
      (e : RetrySnapshot) (reason : ExhaustionReason) → Effect s (mark_exhausted e reason s)
  unfolding mark_exhausted
  mark_exhausted-Effect e reason = ground arith

  advance_recovery_episode-Effect :
      (g : IntentGeneration) (e : RecoveryEpisodeResetEvidence)
      → Effect s (advance_recovery_episode g e s)
  unfolding advance_recovery_episode
  advance_recovery_episode-Effect g e = ground arith

reply-Effect :
    {A : Type 0} (s : RetryState) (f : A → Reply) (r : Checked A × RetryState)
    → Effect s r
    → Effect s (reply f r)
reply-Effect s f (ok a, t) h = h
reply-Effect s f (err e, t) h = h

-- A command that is refused leaves the retry state exactly as it was. A command that succeeds
-- either opens the next intent generation at revision 1, or keeps the generation and adds exactly
-- one to the state revision.
pub step-Effect : (capacity : ℕ) (s : RetryState) (c : Command) → Effect s (step capacity c s)
unfolding step
step-Effect capacity s (start c) = reply-Effect s _ _ (explicit_start-Effect s c)
step-Effect capacity s (stop g) = reply-Effect s _ _ (explicit_stop-Effect s g)
step-Effect capacity s (commit_initial g) = reply-Effect s _ _ (commit_initial_attempt-Effect s g)
step-Effect capacity s (commit_recovery a) = reply-Effect s _ _ (commit_recovery_attempt-Effect s a)
step-Effect capacity s (owner_created id) = reply-Effect s _ _ (record_owner_created-Effect s id)
step-Effect capacity s (stream_started id) = reply-Effect s _ _ (record_stream_started-Effect s id)
step-Effect capacity s (normal_completion id) =
    reply-Effect s _ _ (record_normal_completion-Effect s id)
step-Effect capacity s (failure id cause) =
    reply-Effect s _ _ (record_failure-Effect s capacity id cause)
step-Effect capacity s (terminal_event id) =
    reply-Effect s _ _ (record_terminal_event_delivered-Effect s id)
step-Effect capacity s (cleanup_complete id) =
    reply-Effect s _ _ (record_cleanup_complete-Effect s id)
step-Effect capacity s (cooldown_required e m) = reply-Effect s _ _ (require_cooldown-Effect s e m)
step-Effect capacity s (cooldown_satisfied g m i) =
    reply-Effect s _ _ (satisfy_cooldown-Effect s g m i)
step-Effect capacity s (exhausted e r) = reply-Effect s _ _ (mark_exhausted-Effect s e r)
step-Effect capacity s (advance_episode g e) =
    reply-Effect s _ _ (advance_recovery_episode-Effect s g e)
