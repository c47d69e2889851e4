-- ===== src/Supervisor/Inv/Completing.antt =====
-- The record of a completion keeps the invariant.
use resonance_signal.Base.{
  ◌≡◌, refl, Bool, true, false, ◌&&◌, Option, none, some, Result, ok, err, inl, inr, ap, ◌∙◌,
}
use resonance_signal.RetryState.{RetryFailureCause, RetryState}
use resonance_signal.Windows.{Duration}
use resonance_signal.Windows.Owner.{Panics, CaptureOwnerCompletion, CaptureOwnerShutdownTimeout}
use resonance_signal.RecoveryConfig.{RecoveryConfigurationIdentity, recovery_disabled}
use resonance_signal.RecoveryConfig.Validate.{validate}
use resonance_signal.Supervisor.{
  SupervisedCaptureOwner, CaptureSupervisorState, completed, CaptureSupervisorCompletion,
  completion_from, terminal_event_delivered, retry_failure_for, RecordedRecoveryEvaluation,
  CaptureSupervisor, recovery_disabled_configuration_version,
}
use resonance_signal.Supervisor.Evaluation.{
  record_attempt_completion, recovery_snapshot, evaluation_of,
}
use resonance_signal.Supervisor.Attempts.{
  owned, Settled, Settles, record_attempt_completion-Settles,
}
use resonance_signal.Supervisor.Advice.{Advises, Records, evaluation_of-Records}
use resonance_signal.Supervisor.Completion.{
  record_recovery_evaluation, complete_with, record_owner_completion,
}
use resonance_signal.Supervisor.Inv.{SupervisedLaws, Held, InvAt, Inv}

pub Settles-to :
    (d : Bool) (c : RecoveryConfigurationIdentity) (began terminal : Bool)
    (failure : Option RetryFailureCause) (r : Panics RetryState)
    → Settles d c began terminal failure r
    → (s : RetryState) × (r ≡ ok s) × Settled d c began terminal failure s
Settles-to d c began terminal failure (ok s) h = (s, refl, h)
Settles-to d c began terminal failure (err message) h = absurd h

pub Records-to :
    (k : CaptureSupervisorCompletion) (r : Panics (Option RecordedRecoveryEvaluation))
    → Records k r
    → (e : RecordedRecoveryEvaluation) × (r ≡ ok (some e)) × Advises k e
Records-to k (ok (some e)) h = (e, refl, h)
Records-to k (ok none) h = absurd h
Records-to k (err message) h = absurd h

module _ {Sample : Type 0} (i : SupervisedCaptureOwner Sample) (laws : SupervisedLaws i) where
  pub record_recovery_evaluation-eq :
      (s : CaptureSupervisor i) (e : RecordedRecoveryEvaluation)
      → evaluation_of s.recovery_configuration s.retry_state
          (recovery_snapshot s.recovery_configuration s.observation s.retry_state s.completion)
        ≡ ok (some e)
      → record_recovery_evaluation i s ≡ ok (record s { recovery_evaluation = some e })
  unfolding record_recovery_evaluation
  record_recovery_evaluation-eq s e h = simp h

  -- The supervisor after a completion.
  abbrev completed_with :
      CaptureSupervisorCompletion
      → RetryState
      → RecordedRecoveryEvaluation
      → CaptureSupervisor i
      → CaptureSupervisor i
  completed_with k retry_state e s = record s {
    completion = some k;
    resources_released = true;
    state = completed;
    retry_state = retry_state;
    recovery_evaluation = some e;
  }

  complete_with-eq :
      (answer : CaptureOwnerCompletion Sample) (s : CaptureSupervisor i) (retry_state : RetryState)
      (e : RecordedRecoveryEvaluation)
      → let k = completion_from answer in
        record_attempt_completion s.observation k s.retry_state ≡ ok retry_state
        → evaluation_of s.recovery_configuration retry_state (
            recovery_snapshot s.recovery_configuration s.observation retry_state
              (some (completion_from answer)))
          ≡ ok (some e)
        → complete_with i (ok answer) s
          ≡ ok
              (ok (completion_from answer), completed_with (completion_from answer) retry_state e s)
  unfolding complete_with
  complete_with-eq answer s retry_state e h k = simp (h, k)

  -- A held supervisor whose owner has answered with its completion.
  pub complete_with-held :
      (d : Bool) (answer : CaptureOwnerCompletion Sample) (s : CaptureSupervisor i)
      → validate (recovery_disabled recovery_disabled_configuration_version)
        ≡ ok s.recovery_configuration
      → s.retry_state ≡ owned d s.recovery_configuration.identity
      → (s' : CaptureSupervisor i) × (complete_with i (ok answer) s
          ≡ ok (ok (completion_from answer), s'))
        × Inv i laws s'
        × (s'.retry_state.desired_running ≡ d)
        × (s'.state ≡ completed)
        × (s'.completion ≡ some (completion_from answer))
        × (s'.factory ≡ s.factory)
  complete_with-held d answer s disabled owns =
      let k = completion_from answer in
      let o = s.observation in
      let c = s.recovery_configuration in
      let (retry_state, recorded, settled) =
        Settles-to d c.identity o.started (o.started && terminal_event_delivered o)
          (retry_failure_for k) _ (record_attempt_completion-Settles c.identity d o k) in
      let (e, evaluated, advises) = Records-to k _ (
        evaluation_of-Records c disabled o k d o.started (o.started && terminal_event_delivered o)
          (retry_failure_for k) retry_state settled) in
      (
        completed_with k retry_state e s,
        complete_with-eq answer s retry_state e (rw owns recorded) evaluated,
        record {
          state = completed;
          at = refl;
          fits = (
            refl,
            (
              k,
              refl,
              inr (
                d,
                o.started,
                o.started && terminal_event_delivered o,
                settled,
                (e, refl, advises),
              ),
            ),
          );
          disabled = disabled;
        },
        settled.0,
        refl,
        refl,
        refl,
      )

  desired_owned :
      (d : Bool) (s : CaptureSupervisor i)
      → s.retry_state ≡ owned d s.recovery_configuration.identity
      → s.retry_state.desired_running ≡ d
  desired_owned true s h = ap (λ (r : RetryState). r.desired_running) h
  desired_owned false s h = ap (λ (r : RetryState). r.desired_running) h

  pub record_owner_completion-eq :
      (limit : Duration) (w : i.World) (s : CaptureSupervisor i) (o o' : i.Owner)
      (r : Result CaptureOwnerShutdownTimeout (CaptureOwnerCompletion Sample))
      → s.completion ≡ none
      → s.owner ≡ some o
      → i.wait_for_completion limit w o ≡ ok (r, o')
      → record_owner_completion i limit w s ≡ complete_with i r (record s { owner = some o' })
  unfolding record_owner_completion
  record_owner_completion-eq limit w s o o' r none_yet at call = simp (none_yet, at, call)

  complete_with-timeout :
      (e : CaptureOwnerShutdownTimeout) (s : CaptureSupervisor i)
      → complete_with i (err e) s ≡ ok (err e, s)
  unfolding complete_with
  complete_with-timeout e s = refl

  -- What a wait on a held owner leads to: the completion, or a timeout that changes nothing else.
  abbrev pub Waited :
      Bool
      → CaptureSupervisorState
      → Result CaptureOwnerShutdownTimeout CaptureSupervisorCompletion
      → CaptureSupervisor i
      → Type 0
  Waited d state (ok k) s = (s.state ≡ completed) × (s.completion ≡ some k)
  Waited d state (err e) s = (s.state ≡ state) × (s.completion ≡ none)

  pub record_owner_completion-Held :
      (limit : Duration) (w : i.World) (d : Bool) (state : CaptureSupervisorState)
      (s : CaptureSupervisor i)
      → ((x : CaptureSupervisor i) → Held i laws d x → InvAt i laws state x)
      → s.state ≡ state
      → Held i laws d s
      → validate (recovery_disabled recovery_disabled_configuration_version)
        ≡ ok s.recovery_configuration
      → (r : Result CaptureOwnerShutdownTimeout CaptureSupervisorCompletion)
        × (s' : CaptureSupervisor i) × (record_owner_completion i limit w s ≡ ok (r, s'))
        × Inv i laws s'
        × (s'.retry_state.desired_running ≡ d)
        × Waited d state r s'
        × (s'.factory ≡ s.factory)
  record_owner_completion-Held limit w d state s holds at ((o, has, live), owns, k, e, rel) valid =
      let (r, o', call, ends) = laws.wait-Live limit w o live in
      let eq = record_owner_completion-eq limit w s o o' r k has call in
      elim ends [
        | inl (c, ok_c) ↦
            let (s', done, inv, desired, completed', kept, factory) =
              complete_with-held d c (record s { owner = some o' }) valid owns in
            (
              ok (completion_from c),
              s',
              eq ∙ rw ok_c done,
              inv,
              desired,
              (completed', kept),
              factory,
            )
        | inr (x, err_x, live') ↦ (
          err x,
          record s { owner = some o' },
          eq ∙ rw err_x (complete_with-timeout x (record s { owner = some o' })),
          record {
            state = state;
            at = at;
            fits = holds (record s { owner = some o' }) ((o', refl, live'), owns, k, e, rel);
            disabled = valid;
          },
          desired_owned d s owns,
          (at, k),
          refl,
        )
      ]
