-- ===== src/Supervisor/Attempts.antt =====
-- The retry state of the one attempt that a supervisor makes.
use resonance_signal.Base.{
  ◌+◌, ◌≤◌, if◌then◌else◌, ◌≡◌, refl, Bool, true, false, ◌&&◌, is_some, Option, none, some, ok, err,
  arith,
}
use mathlib.Core.Option
use resonance_signal.Contract.{ErrorKind, StreamEndReason}
use resonance_signal.Recovery.Types.{RetryHint}
use resonance_signal.RecoveryConfig.{RecoveryConfigurationIdentity}
use resonance_signal.RetryState.{
  AttemptId, AttemptLifecycle, AttemptKind, RetryPhase, RetryFailureCause, AttemptState,
  FailureRecord, FailureTotals, no_failures, RetryState,
}
use resonance_signal.RetryState.Checks.{
  checked_with_record, count_cause, snapshot, refresh_post_failure_phase,
}
use resonance_signal.RetryState.Intent.{initial, explicit_start, explicit_stop, invalidate_cooldown}
use resonance_signal.RetryState.Attempt.{
  commit_initial_attempt, record_owner_created, record_stream_started, record_normal_completion,
}
use resonance_signal.RetryState.Evidence.{
  push_history, record_failure, record_terminal_event_delivered, record_cleanup_complete,
}
use resonance_signal.Windows.Owner.{Panics}
use resonance_signal.Supervisor.{
  CaptureSupervisorCompletion, CaptureTerminalObservation, terminal_event_delivered,
  retry_failure_for,
}
use resonance_signal.Supervisor.Evaluation.{
  record_construction_failure, record_attempt, record_attempt_completion,
}

abbrev pub first_id : AttemptId
first_id = record { intent_generation = 1; ordinal = 1 }

abbrev first_attempt : AttemptLifecycle → AttemptState
first_attempt lifecycle = record {
  id = first_id;
  kind = AttemptKind.explicit_start;
  lifecycle = lifecycle;
  stream_started = false;
  terminal_event_delivered = false;
  resources_released = false;
  failure = none;
}

-- The intent has begun, under a configuration.
abbrev pub begun : RecoveryConfigurationIdentity → RetryState
begun c = record initial {
  last_intent_generation = 1;
  intent_generation = some 1;
  state_revision = 1;
  configuration_id = some c;
  desired_running = true;
}

abbrev pub committed : RecoveryConfigurationIdentity → RetryState
committed c = record (begun c) {
  state_revision = 2;
  attempts_started = 1;
  phase = RetryPhase.attempting;
  current_attempt = some (first_attempt AttemptLifecycle.committed);
}

-- The attempt has its owner; the intent is still there, or was stopped.
abbrev pub owned : Bool → RecoveryConfigurationIdentity → RetryState
owned true c = record (committed c) {
  state_revision = 3;
  current_attempt = some (first_attempt AttemptLifecycle.owner_created);
}
owned false c = record (committed c) {
  state_revision = 4;
  current_attempt = some (first_attempt AttemptLifecycle.owner_created);
  desired_running = false;
  phase = RetryPhase.stopped;
}

pub explicit_start-initial :
    (c : RecoveryConfigurationIdentity) → explicit_start c initial ≡ (ok 1, begun c)
unfolding explicit_start
explicit_start-initial c = refl

pub commit_initial_attempt-begun :
    (c : RecoveryConfigurationIdentity)
    → commit_initial_attempt 1 (begun c) ≡ (ok first_id, committed c)
unfolding commit_initial_attempt
commit_initial_attempt-begun c = refl

pub record_owner_created-committed :
    (c : RecoveryConfigurationIdentity)
    → record_owner_created first_id (committed c) ≡ (ok tt, owned true c)
unfolding record_owner_created
record_owner_created-committed c = refl

pub explicit_stop-owned :
    (c : RecoveryConfigurationIdentity) → explicit_stop 1 (owned true c) ≡ (ok tt, owned false c)
unfolding explicit_stop
explicit_stop-owned c = refl

counted :
    (cause : RetryFailureCause)
    → (t : FailureTotals) × (checked_with_record no_failures cause ≡ ok t)
unfolding checked_with_record count_cause
counted RetryFailureCause.owner_construction_failure = (_, refl)
counted (RetryFailureCause.device_unavailable c) = (_, refl)
counted (RetryFailureCause.source_reconfigured c) = (_, refl)
counted RetryFailureCause.interrupted = (_, refl)
counted RetryFailureCause.resource_exhausted = (_, refl)
counted RetryFailureCause.unsupported_format = (_, refl)
counted RetryFailureCause.internal_failure = (_, refl)
counted RetryFailureCause.startup_failure = (_, refl)
counted RetryFailureCause.worker_panic = (_, refl)

-- The attempt was completed and its resources released, in the state of its intent.
abbrev pub Settled :
    Bool
    → RecoveryConfigurationIdentity
    → Bool
    → Bool
    → Option RetryFailureCause
    → RetryState
    → Type 0
Settled d c started terminal failure s =
    (s.desired_running ≡ d)
    × (s.intent_generation ≡ some 1)
    × (s.configuration_id ≡ some c)
    × (s.state_revision ≤ (if d then 7 else 8))
    × (Option.map (λ (r : FailureRecord). r.cause) s.last_failure ≡ failure)
    × ((a : AttemptState) × (s.current_attempt ≡ some a)
        × (a.id ≡ first_id)
        × (a.stream_started ≡ started)
        × (a.terminal_event_delivered ≡ terminal)
        × (a.resources_released ≡ true)
        × (a.failure ≡ failure))

abbrev pub Settles :
    Bool
    → RecoveryConfigurationIdentity
    → Bool
    → Bool
    → Option RetryFailureCause
    → Panics RetryState
    → Type 0
Settles d c started terminal failure (ok s) = Settled d c started terminal failure s
Settles d c started terminal failure (err message) = ⊥

abbrev observed :
    Bool → Option (ErrorKind × RetryHint) → Option StreamEndReason → CaptureTerminalObservation
observed started e r = record { started = started; error = e; end_reason = r }

module _ (e : Option (ErrorKind × RetryHint)) (c : RecoveryConfigurationIdentity) where
  normal-Settles :
      (d started : Bool) (r : Option StreamEndReason)
      → Settles d c started
          (started && is_some r)
          none
          (record_attempt (observed started e r) none (owned d c))
  unfolding record_attempt snapshot record_stream_started record_normal_completion
      record_terminal_event_delivered record_cleanup_complete refresh_post_failure_phase
  normal-Settles true true (some r) =
      (refl, refl, refl, omega arith, refl, (_, refl, refl, refl, refl, refl, refl))
  normal-Settles true true none =
      (refl, refl, refl, omega arith, refl, (_, refl, refl, refl, refl, refl, refl))
  normal-Settles true false r =
      (refl, refl, refl, omega arith, refl, (_, refl, refl, refl, refl, refl, refl))
  normal-Settles false true (some r) =
      (refl, refl, refl, omega arith, refl, (_, refl, refl, refl, refl, refl, refl))
  normal-Settles false true none =
      (refl, refl, refl, omega arith, refl, (_, refl, refl, refl, refl, refl, refl))
  normal-Settles false false r =
      (refl, refl, refl, omega arith, refl, (_, refl, refl, refl, refl, refl, refl))

  failure-Settles :
      (d started : Bool) (r : Option StreamEndReason) (cause : RetryFailureCause)
      → Settles d c started
          (started && is_some r)
          (some cause)
          (record_attempt (observed started e r) (some cause) (owned d c))
  unfolding record_attempt snapshot record_stream_started record_failure
      record_terminal_event_delivered record_cleanup_complete refresh_post_failure_phase
      push_history
  failure-Settles true true (some r) cause =
      let (t, h) = counted cause in
      rw (h, Settles) (refl, refl, refl, omega arith, refl, (_, refl, refl, refl, refl, refl, refl))
  failure-Settles true true none cause =
      let (t, h) = counted cause in
      rw (h, Settles) (refl, refl, refl, omega arith, refl, (_, refl, refl, refl, refl, refl, refl))
  failure-Settles true false r cause =
      let (t, h) = counted cause in
      rw (h, Settles) (refl, refl, refl, omega arith, refl, (_, refl, refl, refl, refl, refl, refl))
  failure-Settles false true (some r) cause =
      let (t, h) = counted cause in
      rw (h, Settles) (refl, refl, refl, omega arith, refl, (_, refl, refl, refl, refl, refl, refl))
  failure-Settles false true none cause =
      let (t, h) = counted cause in
      rw (h, Settles) (refl, refl, refl, omega arith, refl, (_, refl, refl, refl, refl, refl, refl))
  failure-Settles false false r cause =
      let (t, h) = counted cause in
      rw (h, Settles) (refl, refl, refl, omega arith, refl, (_, refl, refl, refl, refl, refl, refl))

  record_attempt-Settles :
      (d started : Bool) (r : Option StreamEndReason) (failure : Option RetryFailureCause)
      → Settles d c started
          (started && is_some r)
          failure
          (record_attempt (observed started e r) failure (owned d c))
  record_attempt-Settles d started r none = normal-Settles d started r
  record_attempt-Settles d started r (some cause) = failure-Settles d started r cause

-- Recording the completion of the first attempt, which has its owner, does not panic, whatever was
-- observed and whether its intent was stopped meanwhile. The attempt is then released, with the
-- failure that the completion stands for, or none; it has started where the observation says so, and
-- has its terminal event where it started and an end was observed.
pub record_attempt_completion-Settles :
    (c : RecoveryConfigurationIdentity) (d : Bool) (o : CaptureTerminalObservation)
    (completion : CaptureSupervisorCompletion)
    → Settles d c o.started
        (o.started && terminal_event_delivered o)
        (retry_failure_for completion)
        (record_attempt_completion o completion (owned d c))
unfolding record_attempt_completion
record_attempt_completion-Settles c d o completion =
    record_attempt-Settles o.error c d o.started o.end_reason (retry_failure_for completion)

-- A construction that failed, before the attempt had an owner.
pub construction-Settles :
    (c : RecoveryConfigurationIdentity)
    → Settles true c false false
        (some RetryFailureCause.owner_construction_failure)
        (record_construction_failure first_id (committed c))
unfolding record_construction_failure record_failure record_cleanup_complete
    refresh_post_failure_phase push_history checked_with_record count_cause
construction-Settles c =
    (refl, refl, refl, omega arith, refl, (_, refl, refl, refl, refl, refl, refl))

abbrev pub stopped : RetryState → RetryState
stopped s = record s {
  desired_running = false;
  phase = RetryPhase.stopped;
  cooldown = invalidate_cooldown s.cooldown;
  state_revision = s.state_revision + 1;
}

-- The stop of an intent that has its attempt settled.
pub explicit_stop-Settled :
    (c : RecoveryConfigurationIdentity) (started terminal : Bool)
    (failure : Option RetryFailureCause) (s : RetryState)
    → Settled true c started terminal failure s
    → (explicit_stop 1 s ≡ (ok tt, stopped s))
      × Settled false c started terminal failure (stopped s)
unfolding explicit_stop
explicit_stop-Settled c started terminal failure s (d, g, i, r, l, a) =
    (ground arith, (refl, g, i, omega arith, l, a))
