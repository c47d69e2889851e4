-- ===== src/RetryState/Inv/Failure.antt =====
-- Recording a failure keeps the invariant: the totals, the bounded history, and the attempt.
use resonance_signal.Base.{
  ℕ, ◌+◌, ◌≤◌, ◌<◌, ◌≡◌, List, [], ◌∷◌, length, length-append, length-drop, drop, u64_max, ok, err,
  arith,
}
use resonance_signal.RetryState.{
  AttemptId, RetryFailureCause, ready_for_evaluation, FailureTotals, FailureRecord, Checked,
  RetryState,
}
use resonance_signal.RetryState.Checks.{
  count_cause, checked_with_record, refresh_post_failure_phase,
}
use resonance_signal.RetryState.Evidence.{push_history, record_failure}
use resonance_signal.RetryState.Inv.{
  Inv, sum_of_classes, IntentFits, AttemptFits, EpisodeFits, PhaseFits, CooldownFits, unfailed,
}

-- The new totals count one more failure, in one class.
abbrev pub CountsOne : FailureTotals → Checked FailureTotals → Type 0
CountsOne t (ok t') = (t'.total ≡ t.total + 1) × (sum_of_classes t' ≡ sum_of_classes t + 1)
CountsOne t (err e) = Unit

pub checked_with_record-CountsOne :
    (t : FailureTotals) (cause : RetryFailureCause) → CountsOne t (checked_with_record t cause)
unfolding checked_with_record count_cause
checked_with_record-CountsOne t RetryFailureCause.interrupted = ground arith
checked_with_record-CountsOne t _ = ground arith

pub length-push_history :
    (capacity : ℕ) (h : List FailureRecord) (r : FailureRecord)
    → 0 < capacity
    → length h ≤ capacity
    → length (push_history capacity h r) ≤ capacity
unfolding push_history
length-push_history capacity h r pos le =
    ground (arith, length-append h (r ∷ []), length-append (drop 1 h) (r ∷ []), length-drop 1 h)

-- The history is bounded after a failure, whatever the outcome.
record_failure-history :
    (capacity : ℕ) (s : RetryState) (id : AttemptId) (cause : RetryFailureCause)
    → 0 < capacity
    → length s.recent_failures ≤ capacity
    → length (record_failure capacity id cause s).1.recent_failures ≤ capacity
unfolding record_failure refresh_post_failure_phase
record_failure-history capacity s id cause pos v = grind (arith, length-push_history)

module _ (capacity : ℕ) (s : RetryState) (id : AttemptId) (cause : RetryFailureCause) where
  abbrev after : RetryState
  after = (record_failure capacity id cause s).1

  failure-intent : IntentFits s s.intent_generation → IntentFits after after.intent_generation
  unfolding record_failure refresh_post_failure_phase
  failure-intent h = ground arith

  failure-attempt :
      AttemptFits s.intent_generation s.attempts_started s.current_attempt
      → AttemptFits after.intent_generation after.attempts_started after.current_attempt
  unfolding record_failure refresh_post_failure_phase ready_for_evaluation
  failure-attempt h = ground arith

  failure-episode :
      EpisodeFits s.intent_generation s.attempts_started s.recovery_episode
      → s.failure_totals.total + unfailed s.current_attempt ≤ s.attempts_started
      → EpisodeFits after.intent_generation after.attempts_started after.recovery_episode
  unfolding record_failure refresh_post_failure_phase
  failure-episode h k = ground arith

  failure-phase :
      PhaseFits s.phase s.desired_running s.current_attempt s.recovery_episode
      → PhaseFits after.phase after.desired_running after.current_attempt after.recovery_episode
  unfolding record_failure refresh_post_failure_phase ready_for_evaluation
  failure-phase h = ground arith

  failure-cooldown :
      PhaseFits s.phase s.desired_running s.current_attempt s.recovery_episode
      → CooldownFits s.cooldown s.phase s.current_attempt
      → CooldownFits after.cooldown after.phase after.current_attempt
  unfolding record_failure refresh_post_failure_phase ready_for_evaluation
  failure-cooldown h k = ground arith

  failure-total :
      s.failure_totals.total ≡ sum_of_classes s.failure_totals
      → after.failure_totals.total ≡ sum_of_classes after.failure_totals
  unfolding record_failure refresh_post_failure_phase
  failure-total h = ground (arith, checked_with_record-CountsOne s.failure_totals cause)

  failure-consecutive :
      s.consecutive_failed_attempts ≤ s.failure_totals.total
      → after.consecutive_failed_attempts ≤ after.failure_totals.total
  unfolding record_failure refresh_post_failure_phase
  failure-consecutive h = ground (arith, checked_with_record-CountsOne s.failure_totals cause)

  failure-failures :
      s.failure_totals.total + unfailed s.current_attempt ≤ s.attempts_started
      → after.failure_totals.total + unfailed after.current_attempt ≤ after.attempts_started
  unfolding record_failure refresh_post_failure_phase
  failure-failures h = ground (arith, checked_with_record-CountsOne s.failure_totals cause)

  abbrev Bounded : RetryState → Type 0
  Bounded t =
      (t.last_intent_generation ≤ u64_max)
      × (t.state_revision ≤ u64_max)
      × (t.attempts_started ≤ u64_max)

  failure-bounds : Bounded s → Bounded after
  unfolding record_failure refresh_post_failure_phase
  failure-bounds h = ground arith

  pub record_failure-Inv : 0 < capacity → Inv capacity s → Inv capacity after
  record_failure-Inv pos v = record {
    intent = failure-intent v.intent;
    attempt = failure-attempt v.attempt;
    episode = failure-episode v.episode v.failures;
    phase = failure-phase v.phase;
    cooldown = failure-cooldown v.phase v.cooldown;
    history = record_failure-history capacity s id cause pos v.history;
    total = failure-total v.total;
    consecutive = failure-consecutive v.consecutive;
    failures = failure-failures v.failures;
    bounds = failure-bounds v.bounds;
  }
