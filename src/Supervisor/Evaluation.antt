-- ===== src/Supervisor/Evaluation.antt =====
-- crates/resonance-agent/src/supervisor.rs: the evaluation of the recovery policy on a completed
-- attempt, and the record of the completion in the retry state.
use resonance_signal.Base.{
  Bool, true, false, ◌&&◌, Option, none, some, ok, err, ok_or, ◌>>=◌, if◌then◌else◌,
}
use Prim.Native.String.{String}
use mathlib.Core.Option
use resonance_signal.RecoveryConfig.{RecoveryConfigurationSnapshot}
use resonance_signal.Recovery.Types.{RetryHint, RecoveryCause, no_evidence, RecoveryDecision}
use resonance_signal.Recovery.Configured.{evaluate_recovery_policy, recovery_cause}
use resonance_signal.RetryState.{
  IntentGeneration, AttemptId, AttemptState, RetryFailureCause, FailureRecord, RetrySnapshot,
  Checked, RetryState,
}
use resonance_signal.RetryState.Checks.{snapshot}
use resonance_signal.RetryState.Attempt.{record_stream_started, record_normal_completion}
use resonance_signal.RetryState.Evidence.{
  record_failure, record_terminal_event_delivered, record_cleanup_complete,
}
use resonance_signal.Windows.Owner.{Panics}
use resonance_signal.Supervisor.{
  CaptureSupervisorCompletion, failed, CaptureTerminalObservation, terminal_event_delivered,
  retry_failure_for, retry_history_capacity, RecoveryEvaluationSnapshot, RecordedRecoveryEvaluation,
}

-- `expect` on the result of a transition of the retry state.
abbrev pub expect : {A : Type 0} → Checked A × RetryState → String → Panics (A × RetryState)
expect (ok a, s) message = ok (a, s)
expect (err e, s) message = err message

-- The current attempt of a snapshot that has to be there.
abbrev pub expect_attempt : RetryState → Panics AttemptState
expect_attempt s = elim (snapshot s) [
  | ok evaluated ↦ ok_or evaluated.current_attempt "a started supervisor has one committed attempt"
  | err e ↦ err "a started supervisor has retry state"
]

-- The start that was observed, unless it is recorded already.
unfoldable pub record_started :
    CaptureTerminalObservation → AttemptId → RetryState → Panics RetryState
record_started observation id s =
    if observation.started
    then (expect_attempt s >>= λ attempt.
        if attempt.stream_started
        then ok s
        else (expect (record_stream_started id s) "Started belongs to the current attempt"
            >>= λ (u, s'). ok s'))
    else ok s

unfoldable pub record_outcome :
    Option RetryFailureCause → AttemptId → RetryState → Panics RetryState
record_outcome (some cause) id s =
    expect (record_failure retry_history_capacity id cause s)
      "one terminal failure belongs to the current attempt"
    >>= λ (u, s'). ok s'
record_outcome none id s =
    expect (record_normal_completion id s) "one normal completion belongs to the current attempt"
    >>= λ (u, s'). ok s'

unfoldable pub record_terminal :
    CaptureTerminalObservation → AttemptId → RetryState → Panics RetryState
record_terminal observation id s =
    if observation.started && terminal_event_delivered observation
    then (expect (record_terminal_event_delivered id s)
          "terminal delivery belongs to the current started attempt"
        >>= λ (u, s'). ok s')
    else ok s

-- The completion, with the failure that it stands for.
unfoldable pub record_attempt :
    CaptureTerminalObservation → Option RetryFailureCause → RetryState → Panics RetryState
unfolding record_started record_outcome record_terminal
record_attempt observation failure s = do
  attempt ← expect_attempt s
  begun ← record_started observation attempt.id s
  outcome ← record_outcome failure attempt.id begun
  terminal ← record_terminal observation attempt.id outcome
  (u, cleaned) ←
      expect (record_cleanup_complete attempt.id terminal)
        "joined completion releases the current attempt"
  ok cleaned

-- `record_attempt_completion`, on the retry state of the supervisor.
unfoldable pub record_attempt_completion :
    CaptureTerminalObservation → CaptureSupervisorCompletion → RetryState → Panics RetryState
unfolding record_attempt retry_failure_for
record_attempt_completion observation completion s =
    record_attempt observation (retry_failure_for completion) s

-- The failure of a construction, which leaves nothing to release.
unfoldable pub record_construction_failure : AttemptId → RetryState → Panics RetryState
record_construction_failure attempt_id s = do
  (u, recorded) ←
      expect
        (record_failure retry_history_capacity attempt_id
          RetryFailureCause.owner_construction_failure s)
        "construction failure belongs to the committed attempt"
  (v, cleaned) ←
      expect (record_cleanup_complete attempt_id recorded)
        "failed construction leaves no owner resources"
  ok cleaned

-- The hint of a failure, or else of the last error that was observed.
abbrev pub hint_for : CaptureSupervisorCompletion → CaptureTerminalObservation → Option RetryHint
hint_for (failed kind hint) observation = some hint
hint_for _ observation = Option.map (λ e. e.1) observation.error

abbrev pub cause_for : Bool → Option FailureRecord → RecoveryCause
cause_for false failure = RecoveryCause.explicit_stop
cause_for true (some failure) = recovery_cause failure.cause
cause_for true none = RecoveryCause.normal_shutdown

-- What `recovery_snapshot` makes of its parts.
abbrev pub evaluation_snapshot :
    RecoveryConfigurationSnapshot
    → CaptureTerminalObservation
    → RetrySnapshot
    → AttemptState
    → CaptureSupervisorCompletion
    → RecoveryEvaluationSnapshot
evaluation_snapshot configuration observation retry_state attempt completion = record {
  configuration = configuration;
  retry_state = retry_state;
  lifecycle = record {
    attempt_id = attempt.id;
    stream_started = attempt.stream_started;
    terminal_event_delivered = attempt.terminal_event_delivered;
    owner_completed = true;
    resources_released = attempt.resources_released;
    completion = completion;
  };
  cause = cause_for retry_state.desired_running retry_state.last_failure;
  policy_evidence = record no_evidence {
    stream_started = some attempt.stream_started;
    terminal_event_delivered = some attempt.terminal_event_delivered;
    owner_completed = some true;
    resources_released = some attempt.resources_released;
    retry_hint = hint_for completion observation;
  };
}

-- `recovery_snapshot`: none where there is no intent, no attempt or no completion.
unfoldable pub recovery_snapshot :
    RecoveryConfigurationSnapshot
    → CaptureTerminalObservation
    → RetryState
    → Option CaptureSupervisorCompletion
    → Option RecoveryEvaluationSnapshot
recovery_snapshot configuration observation s completion = elim (snapshot s) [
  | err e ↦ none
  | ok retry_state ↦ elim retry_state.current_attempt [
    | none ↦ none
    | some attempt ↦ elim completion [
      | none ↦ none
      | some c ↦ some (evaluation_snapshot configuration observation retry_state attempt c)
    ]
  ]
]

-- `RecoveryEvaluationSnapshot::evaluate`
unfoldable pub evaluate :
    RecoveryEvaluationSnapshot
    → RecoveryConfigurationSnapshot
    → Bool
    → IntentGeneration
    → RecoveryDecision
evaluate s current_configuration desired_running generation =
    evaluate_recovery_policy s.configuration current_configuration.identity s.retry_state
      (record {
        desired_running = desired_running;
        current_intent_generation = generation;
        evaluated_intent_generation = s.retry_state.intent_generation;
      })
      s.cause s.policy_evidence

-- The evaluation that `record_recovery_evaluation` retains; none where there is no snapshot.
unfoldable pub evaluation_of :
    RecoveryConfigurationSnapshot
    → RetryState
    → Option RecoveryEvaluationSnapshot
    → Panics (Option RecordedRecoveryEvaluation)
unfolding evaluate
evaluation_of configuration s none = ok none
evaluation_of configuration s (some evaluated) =
    ok_or s.intent_generation "an evaluation snapshot has an intent generation" >>= λ generation.
    ok (
      some (record {
        snapshot = evaluated;
        decision = evaluate evaluated configuration s.desired_running generation;
      }))
