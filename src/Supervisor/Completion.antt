-- ===== src/Supervisor/Completion.antt =====
-- crates/resonance-agent/src/supervisor.rs: the completion of the owner, as
-- the supervisor records it. A panic, of an `expect`
-- here or in the owner, is an error with its message. The `debug_assert!` on the configuration of an
-- evaluation, which release builds leave out, is not modelled.
use resonance_signal.Base.{true, Option, none, some, Result, ok, err, ok_or, ◌>>=◌}
use resonance_signal.Windows.{Duration}
use resonance_signal.Windows.Owner.{Panics, CaptureOwnerCompletion, CaptureOwnerShutdownTimeout}
use resonance_signal.Supervisor.{
  SupervisedCaptureOwner, completed, CaptureSupervisorCompletion, completion_from,
  CaptureSupervisor, RecordedRecoveryEvaluation,
}
use resonance_signal.Supervisor.Evaluation.{
  record_attempt_completion, recovery_snapshot, evaluation_of,
}

module _ {Sample : Type 0} (i : SupervisedCaptureOwner Sample) where
  abbrev set_evaluation :
      Option RecordedRecoveryEvaluation → CaptureSupervisor i → CaptureSupervisor i
  set_evaluation none s = s
  set_evaluation (some recorded) s = record s { recovery_evaluation = some recorded }

  unfoldable pub record_recovery_evaluation : CaptureSupervisor i → Panics (CaptureSupervisor i)
  unfolding recovery_snapshot evaluation_of
  record_recovery_evaluation s =
      evaluation_of s.recovery_configuration s.retry_state
        (recovery_snapshot s.recovery_configuration s.observation s.retry_state s.completion)
      >>= λ evaluation. ok (set_evaluation evaluation s)

  -- The end of an operation that gives the completion.
  abbrev pub give_completion :
      CaptureSupervisor i
      → Panics
          (Result CaptureOwnerShutdownTimeout CaptureSupervisorCompletion × CaptureSupervisor i)
  give_completion s =
      ok_or s.completion "a completed supervisor retains its outcome" >>= λ c. ok (ok c, s)

  -- `record_owner_completion` after the owner has answered.
  unfoldable pub complete_with :
      Result CaptureOwnerShutdownTimeout (CaptureOwnerCompletion Sample)
      → CaptureSupervisor i
      → Panics
          (Result CaptureOwnerShutdownTimeout CaptureSupervisorCompletion × CaptureSupervisor i)
  unfolding record_recovery_evaluation record_attempt_completion completion_from
  complete_with (err e) s = ok (err e, s)
  complete_with (ok owner_completion) s =
      let completion = completion_from owner_completion in
      record_attempt_completion s.observation completion s.retry_state >>= λ retry_state.
      record_recovery_evaluation (record s {
        completion = some completion;
        resources_released = true;
        state = completed;
        retry_state = retry_state;
      })
      >>= λ s'. give_completion s'

  abbrev pub owner_completion :
      Option CaptureSupervisorCompletion
      → Duration
      → i.World
      → CaptureSupervisor i
      → Panics
          (Result CaptureOwnerShutdownTimeout CaptureSupervisorCompletion × CaptureSupervisor i)
  owner_completion (some c) limit w s = give_completion s
  owner_completion none limit w s = ok_or s.owner "a started supervisor retains its owner" >>= λ o.
      i.wait_for_completion limit w o >>= λ (answer, o').
      complete_with answer (record s { owner = some o' })

  unfoldable pub record_owner_completion :
      Duration
      → i.World
      → CaptureSupervisor i
      → Panics
          (Result CaptureOwnerShutdownTimeout CaptureSupervisorCompletion × CaptureSupervisor i)
  unfolding complete_with
  record_owner_completion limit w s = owner_completion s.completion limit w s
