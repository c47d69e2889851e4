-- ===== src/Supervisor/Scenarios.antt =====
-- A supervisor of a capture owner that starts, sees its stream begin and fail, and is stopped twice.
use resonance_signal.Base.{ℕ, ◌≡◌, ◌⊎◌, refl, true, none, some, List, [], ◌∷◌, ok, err}
use resonance_signal.Contract.{StreamEvent, StreamEndReason}
use resonance_signal.RecoveryConfig.{
  RecoveryConfigurationIdentity, recovery_disabled, permits_any_automatic_recovery,
}
use resonance_signal.RecoveryConfig.Validate.{validate, validate_configuration}
use resonance_signal.RetryState.Intent.{new, explicit_start, explicit_stop}
use resonance_signal.RetryState.Attempt.{
  commit_initial_attempt, record_owner_created, record_stream_started, record_normal_completion,
}
use resonance_signal.RetryState.Evidence.{
  record_failure, record_terminal_event_delivered, record_cleanup_complete, push_history,
}
use resonance_signal.RetryState.Checks.{
  checked_with_record, count_cause, snapshot, refresh_post_failure_phase,
}
use resonance_signal.Windows.Owner
use resonance_signal.Windows.{CaptureRunError, kind, retry_hint}
use resonance_signal.Windows.Owner.{RunnerOutcome, Surroundings, RecvTimeout, received, timed_out}
use resonance_signal.Supervisor.{
  observe, SupervisedCaptureOwner, CaptureSupervisor, RecordedRecoveryEvaluation,
  CaptureTerminalObservation, panicked, retry_failure_for,
}
use resonance_signal.Supervisor.Operations.{
  with_factory, start, deliver_event, wait_for_completion, stop, disable_recovery_intent,
}
use resonance_signal.Supervisor.Advice.{NeverPermits}
use resonance_signal.Supervisor.Inv.{Inv, SupervisedLaws}
use resonance_signal.Supervisor.Inv.Stopping.{StopReturns, stop-Returns}
use resonance_signal.Supervisor.Evaluation.{record_attempt_completion}
use resonance_signal.Supervisor.Attempts.{owned, Settles, record_attempt_completion-Settles}
use resonance_signal.Supervisor.Histories.{
  SupervisorCall, start_call, wait_call, stop_call, event_call, run_calls, CalledOnce,
}
use resonance_signal.Supervisor.Outcomes.{
  with_factory-returns, run_calls-Inv, recorded-NeverPermits, run_calls-CalledOnce,
}
use resonance_signal.Supervisor.CaptureOwners.{
  capture_owner, capture_owner-laws, supervised_capture-returns,
}

abbrev world : RecvTimeout ℕ → Surroundings ℕ
world answer = record { spawned = ok tt; recv_timeout = answer; joined = true }

abbrev i : SupervisedCaptureOwner ℕ
i = capture_owner ℕ ℕ ℕ

abbrev life : List (SupervisorCall i)
life =
    start_call (world timed_out)
    ∷ event_call (StreamEvent.ended "stream-1-1" StreamEndReason.failed)
    ∷ wait_call 5 (world timed_out)
    ∷ wait_call 5 (world (received (some (err CaptureRunError.capture_channel_closed))))
    ∷ stop_call 5 (world timed_out)
    ∷ stop_call 5 (world timed_out)
    ∷ []

history :
    (first last : CaptureSupervisor i) × (r : RecordedRecoveryEvaluation) × (with_factory i 7 8
      ≡ ok first)
    × (run_calls i life first ≡ ok last)
    × (last.recovery_evaluation ≡ some r)
unfolding with_factory validate recovery_disabled validate_configuration
    permits_any_automatic_recovery new start explicit_start commit_initial_attempt
    record_owner_created deliver_event wait_for_completion stop disable_recovery_intent
    explicit_stop record_stream_started record_failure record_normal_completion
    record_terminal_event_delivered record_cleanup_complete checked_with_record count_cause snapshot
    refresh_post_failure_phase push_history kind retry_hint observe Owner.start Owner.with_runner
    Owner.wait_for_completion Owner.request_stop
history = (_, _, _, refl, refl, refl)

abbrev laws : SupervisedLaws i
laws = capture_owner-laws ℕ ℕ ℕ

abbrev first : CaptureSupervisor i
first = (with_factory-returns i laws 7 8).0

abbrev first-Inv : Inv i laws first
first-Inv = (with_factory-returns i laws 7 8).2

run_calls-Inv_example :
    (s : CaptureSupervisor i) × (run_calls i life first ≡ ok s)
    × Inv i laws s
    × ((first.completion ≡ none) ⊎ (s.completion ≡ first.completion))
run_calls-Inv_example = run_calls-Inv i laws life first first-Inv

-- A supervisor that was started.
abbrev running : CaptureSupervisor i
running = (run_calls-Inv i laws (start_call (world timed_out) ∷ []) first first-Inv).0

stop-Returns_example : StopReturns i laws 5 (world timed_out) running
stop-Returns_example =
    stop-Returns i laws 5 (world timed_out) running
      (run_calls-Inv i laws (start_call (world timed_out) ∷ []) first first-Inv).2

recorded-NeverPermits_example : NeverPermits history.2.decision
recorded-NeverPermits_example =
    recorded-NeverPermits i laws life 7 8 history.0 history.1 history.2 history.3 history.4
      history.5

run_calls-CalledOnce_example : CalledOnce i 7 history.1.factory
run_calls-CalledOnce_example =
    run_calls-CalledOnce i laws life 7 8 history.0 history.1 history.3 history.4

supervised_capture-returns_example :
    (begun end : CaptureSupervisor i) × (with_factory i 7 8 ≡ ok begun)
    × (run_calls i life begun ≡ ok end)
    × Inv i laws end
supervised_capture-returns_example = supervised_capture-returns ℕ ℕ ℕ 7 8 life

abbrev configuration : RecoveryConfigurationIdentity
configuration = record { schema_version = 1; version = 1; fingerprint = 11 }

-- The stream began and ended, and its worker panicked.
abbrev seen : CaptureTerminalObservation
seen = record { started = true; error = none; end_reason = some StreamEndReason.failed }

record_attempt_completion-Settles_example :
    Settles true configuration true true
      (retry_failure_for panicked)
      (record_attempt_completion seen panicked (owned true configuration))
record_attempt_completion-Settles_example =
    record_attempt_completion-Settles configuration true seen panicked
