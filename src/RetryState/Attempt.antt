-- ===== src/RetryState/Attempt.antt =====
-- crates/resonance-agent/src/retry_state.rs: committing an attempt, and its life up to its outcome.
use resonance_signal.Base.{
  ℕ, Bool, true, false, Option, none, some, not, ◌&&◌, ◌||◌, is_some, is_some_and, ok, ok_or,
  ensure, try, ◌>>=◌, if◌then◌else◌,
}
use resonance_signal.RetryState.{
  IntentGeneration, AttemptId, AttemptKind, explicit_start, automatic_recovery, AttemptLifecycle,
  RetryPhase, RecoveryEpisodeState, not_required, permits_progression, RecoveryAuthorization,
  no_active_intent, invalid_phase, no_current_attempt, invalid_attempt_lifecycle, cleanup_pending,
  terminal_evidence_pending, no_recovery_episode, episode_exhausted, cooldown_pending, Checked,
  RetryState,
}
use resonance_signal.RetryState.Checks.{
  is_idle, is_waiting, is_committed, is_owner_created, is_running, checked_increment, next_revision,
  require_generation, require_current_authorization, require_attempt,
}

abbrev pub has_exhaustion : RecoveryEpisodeState → Bool
has_exhaustion episode = is_some episode.exhaustion

-- The recovery attempts that the commit is going to have counted, for an automatic recovery.
automatic_attempts : AttemptKind → Option RecoveryEpisodeState → Checked (Option ℕ)
automatic_attempts explicit_start episode = ok none
automatic_attempts automatic_recovery episode = do
  e ← ok_or episode no_recovery_episode
  n ← checked_increment e.automatic_recovery_attempts_started
  ok (some n)

set_automatic_attempts :
    Option ℕ → Option RecoveryEpisodeState → Checked (Option RecoveryEpisodeState)
set_automatic_attempts none episode = ok episode
set_automatic_attempts (some n) episode = do
  e ← ok_or episode no_recovery_episode
  ok (some (record e { automatic_recovery_attempts_started = n }))

unfoldable pub commit_attempt : AttemptKind → RetryState → Checked AttemptId × RetryState
unfolding automatic_attempts set_automatic_attempts next_revision
commit_attempt kind s = try (ok_or s.intent_generation no_active_intent) s λ generation.
    try (checked_increment s.attempts_started) s λ attempts_started.
      try (automatic_attempts kind s.recovery_episode) s λ automatic.
        try (next_revision s) s λ revision.
          try (set_automatic_attempts automatic s.recovery_episode) s λ episode.
            let id : AttemptId = record {
              intent_generation = generation;
              ordinal = attempts_started;
            } in
            (
              ok id,
              record s {
                recovery_episode = episode;
                attempts_started = attempts_started;
                current_attempt = some (record {
                  id = id;
                  kind = kind;
                  lifecycle = AttemptLifecycle.committed;
                  stream_started = false;
                  terminal_event_delivered = false;
                  resources_released = false;
                  failure = none;
                });
                phase = RetryPhase.attempting;
                cooldown = not_required;
                state_revision = revision;
              },
            )

unfoldable pub commit_initial_attempt :
    IntentGeneration → RetryState → Checked AttemptId × RetryState
unfolding require_generation commit_attempt
commit_initial_attempt generation s = try (require_generation s generation) s λ _.
    try (ensure (s.desired_running && is_idle s.phase) (invalid_phase s.phase)) s
      λ _. commit_attempt explicit_start s

unfoldable pub commit_recovery_attempt :
    RecoveryAuthorization → RetryState → Checked AttemptId × RetryState
commit_recovery_attempt authorization s = try (require_current_authorization s authorization) s λ _.
    try (ensure (not (is_some_and s.recovery_episode has_exhaustion)) episode_exhausted) s λ _.
      try (ok_or s.current_attempt no_current_attempt) s λ attempt.
        try (ensure attempt.resources_released cleanup_pending) s λ _.
          try
            (ensure (not attempt.stream_started || attempt.terminal_event_delivered)
              terminal_evidence_pending)
            s
            λ _.
              try (ensure (s.desired_running && is_waiting s.phase) (invalid_phase s.phase)) s λ _.
                try (ok_or s.recovery_episode no_recovery_episode) s λ episode.
                  try (ensure (not (has_exhaustion episode)) episode_exhausted) s λ _.
                    try (ensure (permits_progression s.cooldown) cooldown_pending) s
                      λ _. commit_attempt automatic_recovery s

unfoldable pub record_owner_created : AttemptId → RetryState → Checked Unit × RetryState
unfolding next_revision require_attempt
record_owner_created attempt_id s = try (next_revision s) s λ revision.
    try (require_attempt s attempt_id) s λ attempt.
      try (ensure (is_committed attempt.lifecycle) (invalid_attempt_lifecycle attempt.lifecycle)) s
        λ _. (
          ok tt,
          record s {
            current_attempt = some (record attempt { lifecycle = AttemptLifecycle.owner_created });
            state_revision = revision;
          },
        )

unfoldable pub record_stream_started : AttemptId → RetryState → Checked Unit × RetryState
unfolding next_revision require_attempt
record_stream_started attempt_id s = try (next_revision s) s λ revision.
    try (require_attempt s attempt_id) s λ attempt.
      try
        (ensure (is_owner_created attempt.lifecycle) (invalid_attempt_lifecycle attempt.lifecycle))
        s
        λ _. (
          ok tt,
          record s {
            current_attempt =
                some
                  (record attempt { lifecycle = AttemptLifecycle.running; stream_started = true });
            phase = if s.desired_running then RetryPhase.running else s.phase;
            state_revision = revision;
          },
        )

unfoldable pub record_normal_completion : AttemptId → RetryState → Checked Unit × RetryState
unfolding next_revision require_attempt
record_normal_completion attempt_id s = try (next_revision s) s λ revision.
    try (require_attempt s attempt_id) s λ attempt.
      try
        (ensure
          (not (is_some attempt.failure)
            && (is_owner_created attempt.lifecycle || is_running attempt.lifecycle))
          (invalid_attempt_lifecycle attempt.lifecycle))
        s
        λ _. (
          ok tt,
          record s {
            current_attempt = some (record attempt { lifecycle = AttemptLifecycle.completed });
            state_revision = revision;
          },
        )
