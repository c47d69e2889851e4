-- ===== src/RetryState/Checks.antt =====
-- crates/resonance-agent/src/retry_state.rs: the tests on identities and phases, the counters, and
-- the `require_*` checks that the operations start with.
use resonance_signal.Base.{
  ℕ, Bool, true, false, Option, none, some, not, ◌&&◌, ◌||◌, ◌==◌, option_eq, is_some_and, ok, err,
  ok_or, ensure, checked_add, ◌>>=◌, if◌then◌else◌,
}
use mathlib.Core.Option
use resonance_signal.RecoveryConfig.{identity_eq}
use resonance_signal.Recovery.Types.{RecoveryDecision, permit_replacement}
use resonance_signal.RetryState.{
  IntentGeneration, StateRevision, AttemptId, AttemptLifecycle, RetryPhase, RetryFailureCause,
  AttemptState, ready_for_evaluation, RecoveryEpisodeId, RecoveryEpisodeState, FailureTotals,
  RetrySnapshot, RecoveryAuthorization, no_active_intent, stale_intent, stale_snapshot,
  decision_does_not_permit_recovery, no_current_attempt, attempt_mismatch, counter_exhausted,
  Checked, RetryState,
}

abbrev pub is_idle : RetryPhase → Bool
is_idle RetryPhase.idle = true
is_idle _ = false

abbrev pub is_waiting : RetryPhase → Bool
is_waiting RetryPhase.waiting = true
is_waiting _ = false

abbrev pub is_exhausted : RetryPhase → Bool
is_exhausted RetryPhase.exhausted = true
is_exhausted _ = false

abbrev pub is_committed : AttemptLifecycle → Bool
is_committed AttemptLifecycle.committed = true
is_committed _ = false

abbrev pub is_owner_created : AttemptLifecycle → Bool
is_owner_created AttemptLifecycle.owner_created = true
is_owner_created _ = false

abbrev pub is_running : AttemptLifecycle → Bool
is_running AttemptLifecycle.running = true
is_running _ = false

abbrev pub is_failed : AttemptLifecycle → Bool
is_failed AttemptLifecycle.failed = true
is_failed _ = false

abbrev pub is_completed : AttemptLifecycle → Bool
is_completed AttemptLifecycle.completed = true
is_completed _ = false

abbrev pub attempt_id_eq : AttemptId → AttemptId → Bool
attempt_id_eq a b =
    if a.intent_generation == b.intent_generation then a.ordinal == b.ordinal else false

abbrev pub episode_id_eq : RecoveryEpisodeId → RecoveryEpisodeId → Bool
episode_id_eq a b =
    if a.intent_generation == b.intent_generation then a.ordinal == b.ordinal else false

abbrev pub attempt_id_of : Option AttemptState → Option AttemptId
attempt_id_of none = none
attempt_id_of (some a) = some a.id

abbrev pub episode_id_of : Option RecoveryEpisodeState → Option RecoveryEpisodeId
episode_id_of none = none
episode_id_of (some e) = some e.id

abbrev pub checked_increment : ℕ → Checked ℕ
checked_increment n = ok_or (checked_add n 1) counter_exhausted

unfoldable pub count_cause : FailureTotals → RetryFailureCause → Checked FailureTotals
count_cause t RetryFailureCause.owner_construction_failure = do
  n ← checked_increment t.owner_construction_failure
  ok (record t { owner_construction_failure = n })
count_cause t (RetryFailureCause.device_unavailable _) = do
  n ← checked_increment t.device_unavailable
  ok (record t { device_unavailable = n })
count_cause t (RetryFailureCause.source_reconfigured _) = do
  n ← checked_increment t.source_reconfigured
  ok (record t { source_reconfigured = n })
count_cause t RetryFailureCause.interrupted = do
  n ← checked_increment t.interrupted
  ok (record t { interrupted = n })
count_cause t RetryFailureCause.resource_exhausted = do
  n ← checked_increment t.resource_exhausted
  ok (record t { resource_exhausted = n })
count_cause t RetryFailureCause.unsupported_format = do
  n ← checked_increment t.unsupported_format
  ok (record t { unsupported_format = n })
count_cause t RetryFailureCause.internal_failure = do
  n ← checked_increment t.internal_failure
  ok (record t { internal_failure = n })
count_cause t RetryFailureCause.startup_failure = do
  n ← checked_increment t.startup_failure
  ok (record t { startup_failure = n })
count_cause t RetryFailureCause.worker_panic = do
  n ← checked_increment t.worker_panic
  ok (record t { worker_panic = n })

unfoldable pub checked_with_record : FailureTotals → RetryFailureCause → Checked FailureTotals
checked_with_record t cause = do
  total ← checked_increment t.total
  count_cause (record t { total = total }) cause

unfoldable pub next_revision : RetryState → Checked StateRevision
next_revision s = checked_increment s.state_revision

unfoldable pub require_generation : RetryState → IntentGeneration → Checked Unit
require_generation s supplied = do
  current ← ok_or s.intent_generation no_active_intent
  if current == supplied then ok tt else err (stale_intent current supplied)

unfoldable pub require_current_snapshot : RetryState → RetrySnapshot → Checked Unit
require_current_snapshot s evaluated = do
  current ← ok_or s.intent_generation no_active_intent
  ensure
      (evaluated.intent_generation == current
        && (evaluated.state_revision == s.state_revision
            && (option_eq identity_eq (some evaluated.configuration_id) s.configuration_id
                && (option_eq episode_id_eq (episode_id_of evaluated.recovery_episode)
                      (episode_id_of s.recovery_episode)
                    && option_eq attempt_id_eq (attempt_id_of evaluated.current_attempt)
                        (attempt_id_of s.current_attempt)))))
      stale_snapshot

unfoldable pub require_current_authorization : RetryState → RecoveryAuthorization → Checked Unit
require_current_authorization s authorization = do
  current ← ok_or s.intent_generation no_active_intent
  ensure
      (authorization.intent_generation == current
        && (authorization.state_revision == s.state_revision
            && (option_eq identity_eq (some authorization.configuration_id) s.configuration_id
                && (option_eq episode_id_eq authorization.recovery_episode
                      (episode_id_of s.recovery_episode)
                    && option_eq attempt_id_eq authorization.prior_attempt_id
                        (attempt_id_of s.current_attempt)))))
      stale_snapshot

-- `require_attempt` and `require_attempt_mut`: the latter's caller writes the attempt back.
unfoldable pub require_attempt : RetryState → AttemptId → Checked AttemptState
require_attempt s supplied = do
  current ← ok_or s.current_attempt no_current_attempt
  if attempt_id_eq current.id supplied
      then ok current
      else err (attempt_mismatch current.id supplied)

unfoldable pub snapshot : RetryState → Checked RetrySnapshot
snapshot s = do
  generation ← ok_or s.intent_generation no_active_intent
  configuration ← ok_or s.configuration_id no_active_intent
  ok (record {
    desired_running = s.desired_running;
    intent_generation = generation;
    state_revision = s.state_revision;
    configuration_id = configuration;
    phase = s.phase;
    attempts_started = s.attempts_started;
    current_attempt = s.current_attempt;
    recovery_episode = s.recovery_episode;
    last_failure = s.last_failure;
    recent_failures = s.recent_failures;
    failure_totals = s.failure_totals;
    consecutive_failed_attempts = s.consecutive_failed_attempts;
    cooldown = s.cooldown;
  })

unfoldable pub authorize : RetrySnapshot → RecoveryDecision → Checked RecoveryAuthorization
authorize evaluated (permit_replacement reason) = ok (record {
  intent_generation = evaluated.intent_generation;
  state_revision = evaluated.state_revision;
  configuration_id = evaluated.configuration_id;
  recovery_episode = episode_id_of evaluated.recovery_episode;
  prior_attempt_id = attempt_id_of evaluated.current_attempt;
  reason = reason;
})
authorize evaluated _ = err decision_does_not_permit_recovery

mark_ready : AttemptState → AttemptState
mark_ready a = record a { lifecycle = AttemptLifecycle.cleanup_complete }

unfoldable pub refresh_post_failure_phase : RetryState → RetryState
unfolding ready_for_evaluation mark_ready
refresh_post_failure_phase s =
    if not s.desired_running || is_exhausted s.phase
    then s
    else (if is_some_and s.current_attempt ready_for_evaluation
        then record s {
          phase = RetryPhase.waiting;
          current_attempt = Option.map mark_ready s.current_attempt;
        }
        else s)
