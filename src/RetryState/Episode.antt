-- ===== src/RetryState/Episode.antt =====
-- crates/resonance-agent/src/retry_state.rs: cooldown, exhaustion, and the episodes of recovery.
use resonance_signal.Base.{
  Bool, true, false, none, some, not, ◌&&◌, ◌==◌, is_some, is_some_and, ok, err, ok_or, ensure, try,
  if◌then◌else◌,
}
use resonance_signal.RetryState.{
  IntentGeneration, RetryPhase, AttemptState, ready_for_evaluation, RecoveryEpisodeId,
  ExhaustionReason, CooldownEligibilityMarker, CooldownEvidenceId, CooldownRequirement,
  CooldownState, not_required, pending, satisfied, RecoveryEpisodeResetEvidence, stable_run,
  changed_precondition, RetrySnapshot, no_active_intent, invalid_phase, no_current_attempt,
  cleanup_pending, no_recovery_episode, episode_exhausted, cooldown_evidence_mismatch,
  invalid_episode_reset_evidence, Checked, RetryState,
}
use resonance_signal.RetryState.Checks.{
  is_waiting, is_exhausted, checked_increment, next_revision, require_generation,
  require_current_snapshot,
}
use resonance_signal.RetryState.Attempt.{has_exhaustion}

unfoldable pub require_cooldown :
    RetrySnapshot → CooldownEligibilityMarker → RetryState → Checked Unit × RetryState
unfolding next_revision require_current_snapshot
require_cooldown evaluated marker s = try (require_current_snapshot s evaluated) s λ _.
    try (ensure (is_waiting s.phase) (invalid_phase s.phase)) s λ _.
      try (next_revision s) s λ revision.
        try (ok_or s.current_attempt no_current_attempt) s λ attempt. (
          ok tt,
          record s {
            cooldown = pending (record { attempt_id = attempt.id; marker = marker });
            state_revision = revision;
          },
        )

pending_requirement : CooldownState → Checked CooldownRequirement
pending_requirement (pending requirement) = ok requirement
pending_requirement _ = err cooldown_evidence_mismatch

unfoldable pub satisfy_cooldown :
    IntentGeneration
    → CooldownEligibilityMarker
    → CooldownEvidenceId
    → RetryState
    → Checked Unit × RetryState
unfolding next_revision require_generation pending_requirement
satisfy_cooldown generation marker evidence s = try (require_generation s generation) s λ _.
    try (pending_requirement s.cooldown) s λ requirement.
      try (ensure (requirement.marker == marker) cooldown_evidence_mismatch) s λ _.
        try (next_revision s) s λ revision.
          (ok tt, record s { cooldown = satisfied requirement evidence; state_revision = revision })

unfoldable pub mark_exhausted :
    RetrySnapshot → ExhaustionReason → RetryState → Checked Unit × RetryState
unfolding next_revision require_current_snapshot
mark_exhausted evaluated reason s = try (require_current_snapshot s evaluated) s λ _.
    try (ensure (not (is_some_and s.recovery_episode has_exhaustion)) episode_exhausted) s λ _.
      try (ensure (is_waiting s.phase) (invalid_phase s.phase)) s λ _.
        try (next_revision s) s λ revision.
          try (ok_or s.current_attempt no_current_attempt) s λ attempt.
            try (ok_or s.configuration_id no_active_intent) s λ configuration.
              try (ok_or s.recovery_episode no_recovery_episode) s λ episode. (
                ok tt,
                record s {
                  recovery_episode = some (record episode {
                    exhaustion = some (record {
                      intent_generation = evaluated.intent_generation;
                      recovery_episode = episode.id;
                      evaluated_revision = evaluated.state_revision;
                      attempt_id = attempt.id;
                      reason = reason;
                      configuration_id = configuration;
                    });
                  });
                  phase = RetryPhase.exhausted;
                  state_revision = revision;
                },
              )

-- The phases in which each kind of evidence may end an episode.
pub resets : RetryPhase → RecoveryEpisodeResetEvidence → Bool
resets RetryPhase.running (stable_run _) = true
resets RetryPhase.waiting (changed_precondition _) = true
resets RetryPhase.exhausted (changed_precondition _) = true
resets _ _ = false

-- A failed attempt whose failure cannot be evaluated yet.
awaits_evidence : AttemptState → Bool
unfolding ready_for_evaluation
awaits_evidence attempt = is_some attempt.failure && not (ready_for_evaluation attempt)

unfoldable pub advance_recovery_episode :
    IntentGeneration
    → RecoveryEpisodeResetEvidence
    → RetryState
    → Checked RecoveryEpisodeId × RetryState
unfolding next_revision require_generation resets awaits_evidence
advance_recovery_episode generation evidence s = try (require_generation s generation) s λ _.
    try (ensure (resets s.phase evidence) invalid_episode_reset_evidence) s λ _.
      try (ensure (not (is_some_and s.current_attempt awaits_evidence)) cleanup_pending) s λ _.
        try (ok_or s.recovery_episode no_recovery_episode) s λ previous.
          try (checked_increment previous.id.ordinal) s λ ordinal.
            try (next_revision s) s λ revision.
              let id : RecoveryEpisodeId = record {
                intent_generation = generation;
                ordinal = ordinal;
              } in
              (
                ok id,
                record s {
                  recovery_episode = some (record {
                    id = id;
                    automatic_recovery_attempts_started = 0;
                    exhaustion = none;
                  });
                  consecutive_failed_attempts = 0;
                  cooldown = not_required;
                  phase = if is_exhausted s.phase then RetryPhase.waiting else s.phase;
                  state_revision = revision;
                },
              )
