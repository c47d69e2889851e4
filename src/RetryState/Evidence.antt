-- ===== src/RetryState/Evidence.antt =====
-- crates/resonance-agent/src/retry_state.rs: the failure of an attempt, its terminal event, and the
-- release of its resources.
use resonance_signal.Base.{
  ℕ, Bool, true, Option, none, some, List, [], ◌∷◌, ◌++◌, not, ◌&&◌, ◌||◌, ◌==◌, length, drop,
  is_some, ok, ok_or, ensure, try, ◌>>=◌, if◌then◌else◌,
}
use resonance_signal.RetryState.{
  IntentGeneration, AttemptId, AttemptLifecycle, RetryPhase, RetryFailureCause, AttemptState,
  RecoveryEpisodeState, FailureRecord, no_active_intent, invalid_attempt_lifecycle,
  failure_already_recorded, terminal_event_not_applicable, Checked, RetryState,
}
use resonance_signal.RetryState.Checks.{
  is_committed, is_owner_created, is_running, is_failed, is_completed, checked_increment,
  checked_with_record, next_revision, require_attempt, refresh_post_failure_phase,
}

-- The episode of a failure: the current one, or the intent's first.
episode_for_failure :
    Option RecoveryEpisodeState → Option IntentGeneration → Checked RecoveryEpisodeState
episode_for_failure (some episode) generation = ok episode
episode_for_failure none generation = do
  g ← ok_or generation no_active_intent
  ok (record {
    id = record { intent_generation = g; ordinal = 1 };
    automatic_recovery_attempts_started = 0;
    exhaustion = none;
  })

-- `pop_front` when the history is full, then `push_back`
unfoldable pub push_history : ℕ → List FailureRecord → FailureRecord → List FailureRecord
push_history capacity history r =
    (if length history == capacity then drop 1 history else history) ++ r ∷ []

-- The fields that `record_failure` sets before it looks the attempt up again.
with_failure : ℕ → RetryState → RecoveryEpisodeState → FailureRecord → RetryState
with_failure capacity s episode r = record s {
  recovery_episode = if is_some s.recovery_episode then s.recovery_episode else some episode;
  recent_failures = push_history capacity s.recent_failures r;
  last_failure = some r;
}

unfoldable pub record_failure :
    ℕ → AttemptId → RetryFailureCause → RetryState → Checked Unit × RetryState
unfolding next_revision require_attempt episode_for_failure with_failure
record_failure capacity attempt_id cause s = try (require_attempt s attempt_id) s λ attempt.
    try (ensure (not (is_some attempt.failure)) failure_already_recorded) s λ _.
      try
        (ensure
          (is_committed attempt.lifecycle
            || (is_owner_created attempt.lifecycle || is_running attempt.lifecycle))
          (invalid_attempt_lifecycle attempt.lifecycle))
        s
        λ _. try (episode_for_failure s.recovery_episode s.intent_generation) s λ episode.
          try (checked_with_record s.failure_totals cause) s λ totals.
            try (checked_increment s.consecutive_failed_attempts) s λ consecutive.
              try (next_revision s) s λ revision.
                let r : FailureRecord = record {
                  attempt_id = attempt_id;
                  recovery_episode = episode.id;
                  cause = cause;
                  stream_started = attempt.stream_started;
                } in
                let s' = record (with_failure capacity s episode r) {
                  failure_totals = totals;
                  consecutive_failed_attempts = consecutive;
                } in
                try (require_attempt s' attempt_id) s' λ current. (
                  ok tt,
                  refresh_post_failure_phase (record s' {
                    current_attempt = some (record current {
                      failure = some cause;
                      lifecycle = AttemptLifecycle.failed;
                    });
                    phase = if s.desired_running then RetryPhase.failed else s.phase;
                    state_revision = revision;
                  }),
                )

unfoldable pub record_terminal_event_delivered : AttemptId → RetryState → Checked Unit × RetryState
unfolding next_revision require_attempt
record_terminal_event_delivered attempt_id s = try (next_revision s) s λ revision.
    try (require_attempt s attempt_id) s λ attempt.
      try
        (ensure
          (attempt.stream_started
            && (is_running attempt.lifecycle
                || (is_failed attempt.lifecycle || is_completed attempt.lifecycle)))
          terminal_event_not_applicable)
        s
        λ _. (
          ok tt,
          refresh_post_failure_phase (record s {
            current_attempt = some (record attempt { terminal_event_delivered = true });
            state_revision = revision;
          }),
        )

-- The lifecycle that the release of the resources leaves an attempt in.
lifecycle_after_cleanup : Bool → AttemptState → AttemptLifecycle
lifecycle_after_cleanup desired_running attempt =
    if is_completed attempt.lifecycle
      || (is_some attempt.failure
          && (not attempt.stream_started || attempt.terminal_event_delivered))
    then AttemptLifecycle.cleanup_complete
    else (if desired_running then attempt.lifecycle else AttemptLifecycle.cleanup_complete)

unfoldable pub record_cleanup_complete : AttemptId → RetryState → Checked Unit × RetryState
unfolding next_revision require_attempt lifecycle_after_cleanup
record_cleanup_complete attempt_id s = try (next_revision s) s λ revision.
    try (require_attempt s attempt_id) s λ attempt. (
      ok tt,
      refresh_post_failure_phase (record s {
        current_attempt = some (record attempt {
          resources_released = true;
          lifecycle = lifecycle_after_cleanup s.desired_running attempt;
        });
        state_revision = revision;
      }),
    )
