-- ===== src/Supervisor/Operations.antt =====
-- crates/resonance-agent/src/supervisor.rs: the operations of the supervisor. A panic, of an `expect`
-- here or in the owner, is an error with its message. The `debug_assert!` on the configuration of an
-- evaluation, which release builds leave out, is not modelled.
use resonance_signal.Base.{
  Bool, true, false, not, ◌&&◌, Option, none, some, is_some, Result, ok, err, ok_or, ◌>>=◌,
  if◌then◌else◌,
}
use Prim.Native.String.{String}
use resonance_signal.RecoveryConfig.{RecoveryConfigurationSnapshot, recovery_disabled}
use resonance_signal.RecoveryConfig.Validate.{validate}
use resonance_signal.RetryState.{IntentGeneration, AttemptId, RetryState}
use resonance_signal.RetryState.Intent.{new, explicit_start, explicit_stop}
use resonance_signal.RetryState.Attempt.{commit_initial_attempt, record_owner_created}
use resonance_signal.Contract.{StreamEvent}
use resonance_signal.Windows.{Duration}
use resonance_signal.Windows.Owner.{
  Panics, CaptureOwnerStart, CaptureOwnerStartError, CaptureOwnerShutdownTimeout,
}
use resonance_signal.Supervisor.{
  CaptureOwnerConstructionError, SupervisedCaptureOwner, CaptureSupervisorState, idle, running,
  stopping, completed, CaptureSupervisorStart, CaptureSupervisorStartError, not_idle, construction,
  owner, CaptureSupervisorWaitError, not_started, timeout, CaptureSupervisorCompletion,
  construction_failed, no_observation, terminal_event_delivered, observe, retry_history_capacity,
  recovery_disabled_configuration_version, CaptureSupervisor,
}
use resonance_signal.Supervisor.Evaluation.{expect, record_construction_failure}
use resonance_signal.Supervisor.Completion.{
  record_recovery_evaluation, give_completion, record_owner_completion,
}

abbrev pub is_idle : CaptureSupervisorState → Bool
is_idle idle = true
is_idle _ = false

abbrev expect_ok : {E A : Type 0} → Result E A → String → Panics A
expect_ok (ok a) message = ok a
expect_ok (err e) message = err message

-- The configuration that disables recovery.
unfoldable pub disabled_configuration : Panics RecoveryConfigurationSnapshot
disabled_configuration =
    expect_ok (validate (recovery_disabled recovery_disabled_configuration_version))
      "the explicit recovery-disabled configuration is valid"

unfoldable pub new_retry_state : Panics RetryState
new_retry_state = expect_ok (new retry_history_capacity) "retry history capacity is nonzero"

abbrev disable_from : Option IntentGeneration → RetryState → Panics RetryState
disable_from none s = ok s
disable_from (some generation) s =
    if s.desired_running
    then (expect (explicit_stop generation s) "the supervisor stops only its current intent"
        >>= λ (u, s'). ok s')
    else ok s

-- `disable_recovery_intent`, on the retry state.
unfoldable pub disable_recovery_intent : RetryState → Panics RetryState
disable_recovery_intent s = disable_from s.intent_generation s

module _ {Sample : Type 0} (i : SupervisedCaptureOwner Sample) where
  unfoldable pub with_factory : i.Factory → i.Callback → Panics (CaptureSupervisor i)
  unfolding disabled_configuration new_retry_state
  with_factory factory on_event = do
    configuration ← disabled_configuration
    retry_state ← new_retry_state
    ok (record {
      factory = factory;
      on_event = some on_event;
      observation = no_observation;
      owner = none;
      state = idle;
      recovery_configuration = configuration;
      retry_state = retry_state;
      resources_released = false;
      completion = none;
      recovery_evaluation = none;
    })

  unfoldable pub replacement_eligible : CaptureSupervisor i → Bool
  replacement_eligible s =
      s.retry_state.desired_running
      && (terminal_event_delivered s.observation && (is_some s.completion && s.resources_released))

  -- An event is delivered: the callback of the owner observes it.
  unfoldable pub deliver_event : StreamEvent Sample → CaptureSupervisor i → CaptureSupervisor i
  unfolding observe
  deliver_event event s = record s { observation = observe event s.observation }

  -- The factory has failed.
  unfoldable pub construction_failure :
      AttemptId
      → CaptureOwnerConstructionError
      → CaptureSupervisor i
      → Panics (Result CaptureSupervisorStartError CaptureSupervisorStart × CaptureSupervisor i)
  unfolding record_recovery_evaluation record_construction_failure
  construction_failure attempt_id e s =
      record_construction_failure attempt_id s.retry_state >>= λ cleaned.
      record_recovery_evaluation i (record s {
        retry_state = cleaned;
        resources_released = true;
        completion = some construction_failed;
        state = completed;
      })
      >>= λ s'. ok (err (construction e), s')

  -- A completion that has to be immediate.
  abbrev pub completes_at_once :
      String
      → Result CaptureSupervisorStartError CaptureSupervisorStart
      → Panics
          (Result CaptureOwnerShutdownTimeout CaptureSupervisorCompletion × CaptureSupervisor i)
      → Panics (Result CaptureSupervisorStartError CaptureSupervisorStart × CaptureSupervisor i)
  completes_at_once message result call =
      call >>= λ (answer, s). elim answer [ ok c ↦ ok (result, s) | err e ↦ err message ]

  -- What the start of the owner leads to.
  unfoldable pub after_start :
      Result CaptureOwnerStartError CaptureOwnerStart
      → i.World
      → CaptureSupervisor i
      → Panics (Result CaptureSupervisorStartError CaptureSupervisorStart × CaptureSupervisor i)
  unfolding record_owner_completion
  after_start (ok CaptureOwnerStart.started) w s =
      ok (ok CaptureSupervisorStart.started, record s { state = running })
  after_start (ok CaptureOwnerStart.stop_already_requested) w s =
      completes_at_once "a pre-stopped owner has immediate completion"
        (ok CaptureSupervisorStart.stopped_before_start) (record_owner_completion i 0 w s)
  after_start (err e) w s =
      completes_at_once "an owner start failure has immediate completion" (err (owner e))
        (record_owner_completion i 0 w s)

  unfoldable pub with_created :
      AttemptId
      → i.World
      → Result CaptureOwnerConstructionError i.Owner
      → CaptureSupervisor i
      → Panics (Result CaptureSupervisorStartError CaptureSupervisorStart × CaptureSupervisor i)
  unfolding construction_failure after_start
  with_created attempt_id w (err e) s = construction_failure attempt_id e s
  with_created attempt_id w (ok o) s = do
    (u, retry_state) ←
        expect (record_owner_created attempt_id s.retry_state)
          "factory success belongs to the committed attempt"
    (start, o') ← i.start w o
    after_start start w (record s { retry_state = retry_state; owner = some o' })

  unfoldable pub start :
      i.World
      → CaptureSupervisor i
      → Panics (Result CaptureSupervisorStartError CaptureSupervisorStart × CaptureSupervisor i)
  unfolding with_created
  start w s =
      if not (is_idle s.state)
      then ok (err (not_idle s.state), s)
      else (expect (explicit_start s.recovery_configuration.identity s.retry_state)
            "an idle supervisor can begin a new capture intent"
          >>= λ (generation, intent).
              expect (commit_initial_attempt generation intent)
                "the first factory call commits exactly one attempt"
              >>= λ (attempt_id, attempting).
                  ok_or s.on_event "an idle supervisor retains its event callback" >>= λ consumer.
                  let (created, factory) = i.create consumer w s.factory in
                  with_created attempt_id w created
                    (record s { factory = factory; on_event = none; retry_state = attempting }))

  abbrev pub map_timeout :
      Panics (Result CaptureOwnerShutdownTimeout CaptureSupervisorCompletion × CaptureSupervisor i)
      → Panics (Result CaptureSupervisorWaitError CaptureSupervisorCompletion × CaptureSupervisor i)
  map_timeout call =
      call >>= λ (answer, s). elim answer [ ok c ↦ ok (ok c, s) | err e ↦ ok (err (timeout e), s) ]

  unfoldable pub wait_for_completion :
      Duration
      → i.World
      → CaptureSupervisor i
      → Panics (Result CaptureSupervisorWaitError CaptureSupervisorCompletion × CaptureSupervisor i)
  unfolding record_owner_completion
  wait_for_completion limit w s =
      if is_idle s.state
      then ok (err not_started, s)
      else map_timeout (record_owner_completion i limit w s)

  -- By the state of the supervisor, its intent disabled.
  abbrev pub stop_from :
      CaptureSupervisorState
      → Duration
      → i.World
      → CaptureSupervisor i
      → Panics
          (Result CaptureOwnerShutdownTimeout CaptureSupervisorCompletion × CaptureSupervisor i)
  stop_from idle limit w s = give_completion i (record s {
    resources_released = true;
    completion = some CaptureSupervisorCompletion.stopped_before_start;
    state = completed;
  })
  stop_from running limit w s = ok_or s.owner "a running supervisor retains its owner" >>= λ o.
      record_owner_completion i limit w
        (record s { state = stopping; owner = some (i.request_stop o) })
  stop_from stopping limit w s = ok_or s.owner "a running supervisor retains its owner" >>= λ o.
      record_owner_completion i limit w
        (record s { state = stopping; owner = some (i.request_stop o) })
  stop_from completed limit w s = record_recovery_evaluation i s >>= λ s'. give_completion i s'

  unfoldable pub stop :
      Duration
      → i.World
      → CaptureSupervisor i
      → Panics
          (Result CaptureOwnerShutdownTimeout CaptureSupervisorCompletion × CaptureSupervisor i)
  unfolding disable_recovery_intent record_owner_completion record_recovery_evaluation
  stop limit w s = disable_recovery_intent s.retry_state >>= λ retry_state.
      stop_from s.state limit w (record s { retry_state = retry_state })
