-- ===== src/RetryState/Scenarios.antt =====
-- Concrete runs of the retry state, and the theorems about it applied to them.
use resonance_signal.Base.{ℕ, ◌≡◌, ◌≢◌, ◌↔◌, refl, true, some, List, [], ◌∷◌, ◌++◌, ok, err, arith}
use resonance_signal.RecoveryConfig.{RecoveryConfigurationIdentity}
use resonance_signal.Recovery.Types.{RecoveryDecisionReason}
use resonance_signal.RetryState.{
  RetryState, RetryPhase, RetrySnapshot, RecoveryAuthorization, AttemptId, RetryFailureCause,
  ExhaustionReason, stale_snapshot, permits_progression,
}
use resonance_signal.RetryState.Checks.{
  snapshot, authorize, require_current_authorization, require_current_snapshot, checked_with_record,
  count_cause, refresh_post_failure_phase,
}
use resonance_signal.RetryState.Intent.{initial, new, explicit_start, explicit_stop}
use resonance_signal.RetryState.Attempt.{
  commit_attempt, commit_initial_attempt, commit_recovery_attempt, record_owner_created,
  record_stream_started,
}
use resonance_signal.RetryState.Evidence.{
  record_failure, record_terminal_event_delivered, record_cleanup_complete,
}
use resonance_signal.RetryState.Episode.{mark_exhausted}
use resonance_signal.RetryState.Machine.{
  Command, start, stop, commit_initial, commit_recovery, owner_created, stream_started, failure,
  terminal_event, cleanup_complete, exhausted, Reply, step, run,
}
use resonance_signal.RetryState.Inv.{Inv}
use resonance_signal.RetryState.Reachable.{run-Inv, reachable-Inv}
use resonance_signal.RetryState.Freshness.{Effect, step-Effect}
use resonance_signal.RetryState.Authorization.{
  HasRoom, authorization_expires, authorization_single_use, snapshot_authorize_commit,
}
use resonance_signal.RetryState.Halting.{HeldIn, exhaustion_persists, stop_persists}
use resonance_signal.RetryState.History.{Records, run_log, reachable-Records}

abbrev configuration : RecoveryConfigurationIdentity
configuration = record { schema_version = 1; version = 7; fingerprint = 99 }

abbrev first_attempt : AttemptId
first_attempt = record { intent_generation = 1; ordinal = 1 }

abbrev second_attempt : AttemptId
second_attempt = record { intent_generation = 1; ordinal = 2 }

abbrev capacity : ℕ
capacity = 1

-- An attempt starts its stream, is interrupted, and is cleaned up.
abbrev interruption : List Command
interruption =
    start configuration
    ∷ commit_initial 1
    ∷ owner_created first_attempt
    ∷ stream_started first_attempt
    ∷ failure first_attempt RetryFailureCause.interrupted
    ∷ terminal_event first_attempt
    ∷ cleanup_complete first_attempt
    ∷ []

abbrev waiting : RetryState
unfolding run step explicit_start explicit_stop commit_attempt commit_initial_attempt
    commit_recovery_attempt require_current_authorization record_owner_created record_stream_started
    record_failure record_terminal_event_delivered record_cleanup_complete mark_exhausted
    require_current_snapshot refresh_post_failure_phase checked_with_record count_cause
waiting = run capacity interruption initial

-- The permission that the waiting state's snapshot gives.
abbrev permission : RecoveryAuthorization
permission = record {
  intent_generation = 1;
  state_revision = 7;
  configuration_id = configuration;
  recovery_episode = some (record { intent_generation = 1; ordinal = 1 });
  prior_attempt_id = some first_attempt;
  reason = RecoveryDecisionReason.retry_eligible;
}

-- A second attempt, recovered from the first, fails before its stream starts.
abbrev second_failure : List Command
second_failure =
    commit_recovery permission
    ∷ failure second_attempt RetryFailureCause.resource_exhausted
    ∷ cleanup_complete second_attempt
    ∷ []

abbrev evaluated : RetrySnapshot
unfolding waiting
evaluated = record {
  desired_running = true;
  intent_generation = 1;
  state_revision = 7;
  configuration_id = configuration;
  phase = RetryPhase.waiting;
  attempts_started = 1;
  current_attempt = waiting.current_attempt;
  recovery_episode = waiting.recovery_episode;
  last_failure = waiting.last_failure;
  recent_failures = waiting.recent_failures;
  failure_totals = waiting.failure_totals;
  consecutive_failed_attempts = 1;
  cooldown = waiting.cooldown;
}

-- The waiting state is given up.
abbrev given_up : RetryState
unfolding waiting
given_up = run capacity (exhausted evaluated ExhaustionReason.policy_veto ∷ []) waiting

-- Late events of the first attempt, and a commit that is refused.
abbrev late_events : List Command
late_events =
    terminal_event first_attempt ∷ commit_recovery permission ∷ cleanup_complete first_attempt ∷ []

waiting-phase : waiting.phase ≡ RetryPhase.waiting
unfolding waiting
waiting-phase = refl

given_up-phase : given_up.phase ≡ RetryPhase.exhausted
unfolding given_up
given_up-phase = refl

waiting-Inv : Inv capacity waiting
unfolding new waiting
waiting-Inv = reachable-Inv capacity initial interruption refl

given_up-Inv : Inv capacity given_up
unfolding given_up
given_up-Inv =
    run-Inv capacity waiting (exhausted evaluated ExhaustionReason.policy_veto ∷ []) (omega arith)
      waiting-Inv

reachable-Inv_example : Inv capacity (run capacity (interruption ++ second_failure) initial)
unfolding new
reachable-Inv_example = reachable-Inv capacity initial (interruption ++ second_failure) refl

reachable-Records_example :
    Records capacity
      (run_log capacity (interruption ++ second_failure) initial [])
      (run capacity (interruption ++ second_failure) initial)
unfolding new
reachable-Records_example = reachable-Records capacity initial (interruption ++ second_failure) refl

-- Two failures on a history of one.
recent_failures_test :
    run_log capacity (interruption ++ second_failure) initial []
    ≡ (first_attempt, RetryFailureCause.interrupted)
      ∷ (second_attempt, RetryFailureCause.resource_exhausted)
      ∷ []
unfolding waiting run_log
recent_failures_test = refl

authorization_single_use_example :
    (commit_recovery_attempt permission (
      run capacity
        (failure second_attempt RetryFailureCause.interrupted ∷ [])
        (commit_recovery_attempt permission waiting).1)).0
    ≡ err stale_snapshot
unfolding waiting
authorization_single_use_example =
    authorization_single_use capacity waiting permission second_attempt
      (failure second_attempt RetryFailureCause.interrupted ∷ []) waiting-Inv refl

authorization_expires_example :
    (commit_recovery_attempt permission
      (run capacity late_events (step capacity (stop 1) waiting).1)).0
    ≡ err stale_snapshot
unfolding waiting
authorization_expires_example =
    authorization_expires capacity waiting permission (stop 1) Reply.done late_events waiting-Inv
      refl refl

step-Effect_example : Effect waiting (step capacity (commit_recovery permission) waiting)
step-Effect_example = step-Effect capacity waiting (commit_recovery permission)

snapshot_authorize_commit_example :
    ((id : AttemptId) × ((commit_recovery_attempt permission waiting).0 ≡ ok id)) ↔ (
      (waiting.phase ≡ RetryPhase.waiting)
      × (permits_progression waiting.cooldown ≡ true)
      × HasRoom waiting waiting.recovery_episode)
unfolding waiting snapshot authorize evaluated
snapshot_authorize_commit_example =
    snapshot_authorize_commit capacity waiting evaluated permission
      RecoveryDecisionReason.retry_eligible waiting-Inv refl refl

exhaustion_persists_example :
    HeldIn RetryPhase.exhausted given_up (run capacity late_events given_up)
    × ((commit_recovery_attempt permission (run capacity late_events given_up)).0
        ≢ ok second_attempt)
exhaustion_persists_example =
    exhaustion_persists capacity given_up late_events permission second_attempt (omega arith)
      given_up-Inv given_up-phase (refl, (refl, (refl, tt)))

stop_persists_example :
    ((run capacity late_events (explicit_stop 1 waiting).1).phase ≡ RetryPhase.stopped)
    × ((run capacity late_events (explicit_stop 1 waiting).1).attempts_started
        ≡ waiting.attempts_started)
unfolding waiting
stop_persists_example = stop_persists capacity waiting 1 late_events refl (refl, (refl, (refl, tt)))
