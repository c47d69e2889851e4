-- ===== src/Supervisor/Inv/Starting.antt =====
-- The start of a supervisor keeps the invariant.
use resonance_signal.Base.{
  ◌≡◌, ◌≢◌, ◌⊎◌, refl, true, false, none, some, Result, ok, err, inl, inr, sym, ◌∙◌,
}
use Prim.Native.String.{String}
use resonance_signal.RecoveryConfig.{RecoveryConfigurationIdentity, recovery_disabled}
use resonance_signal.RecoveryConfig.Validate.{validate}
use resonance_signal.RetryState.{RetryState}
use resonance_signal.RetryState.Intent.{initial}
use resonance_signal.Windows.Owner.{
  Panics, CaptureOwnerCompletion, CaptureOwnerStart, started, stop_already_requested,
  CaptureOwnerStartError, CaptureOwnerShutdownTimeout,
}
use resonance_signal.Supervisor.{
  SupervisedCaptureOwner, CaptureOwnerConstructionError, CaptureSupervisorState, idle, running,
  stopping, completed, CaptureSupervisorStart, CaptureSupervisorStartError, not_idle, construction,
  CaptureSupervisorCompletion, construction_failed, completion_from, retry_failure_for,
  RecordedRecoveryEvaluation, CaptureSupervisor, recovery_disabled_configuration_version,
}
use resonance_signal.Supervisor.Evaluation.{
  record_construction_failure, recovery_snapshot, evaluation_of,
}
use resonance_signal.Supervisor.Attempts.{
  first_id, committed, owned, Settles, explicit_start-initial, commit_initial_attempt-begun,
  record_owner_created-committed, construction-Settles,
}
use resonance_signal.Supervisor.Advice.{evaluation_of-Records}
use resonance_signal.Supervisor.Completion.{record_owner_completion}
use resonance_signal.Supervisor.Operations.{
  construction_failure, completes_at_once, after_start, with_created, start,
}
use resonance_signal.Supervisor.Inv.{
  completed-ne-idle, running-ne-idle, stopping-ne-idle, SupervisedLaws, InvAt, Inv,
}
use resonance_signal.Supervisor.Inv.Completing.{
  Settles-to, Records-to, complete_with-held, record_owner_completion-eq,
}

constructed :
    (c : RecoveryConfigurationIdentity)
    → Settles true c false false
        (retry_failure_for construction_failed)
        (record_construction_failure first_id (committed c))
unfolding retry_failure_for
constructed c = construction-Settles c

module _ {Sample : Type 0} (i : SupervisedCaptureOwner Sample) (laws : SupervisedLaws i) where
  -- The supervisor whose attempt is committed and whose factory was called.
  abbrev calling : i.Callback → i.World → CaptureSupervisor i → CaptureSupervisor i
  calling callback w s = record s {
    factory = (i.create callback w s.factory).1;
    on_event = none;
    retry_state = committed s.recovery_configuration.identity;
  }

  start-inert :
      (w : i.World) (s : CaptureSupervisor i) (callback : i.Callback)
      → s.state ≡ idle
      → s.retry_state ≡ initial
      → s.on_event ≡ some callback
      → start i w s
        ≡ with_created i first_id w (i.create callback w s.factory).0 (calling callback w s)
  unfolding start
  start-inert w s callback at retry has =
      simp (at, retry, explicit_start-initial, commit_initial_attempt-begun, has)

  start-busy :
      (w : i.World) (s : CaptureSupervisor i) (state : CaptureSupervisorState)
      → s.state ≡ state
      → state ≢ idle
      → start i w s ≡ ok (err (not_idle s.state), s)
  unfolding start
  start-busy w s idle at h = absurd (h refl)
  start-busy w s running at h = simp at
  start-busy w s stopping at h = simp at
  start-busy w s completed at h = simp at

  with_created-ok :
      (w : i.World) (o o' : i.Owner) (s : CaptureSupervisor i)
      (r : Result CaptureOwnerStartError CaptureOwnerStart)
      → s.retry_state ≡ committed s.recovery_configuration.identity
      → i.start w o ≡ ok (r, o')
      → with_created i first_id w (ok o) s
        ≡ after_start i r w (record s {
          retry_state = owned true s.recovery_configuration.identity;
          owner = some o';
        })
  unfolding with_created
  with_created-ok w o o' s r retry call = simp (retry, record_owner_created-committed, call)

  with_created-err :
      (w : i.World) (x : CaptureOwnerConstructionError) (s : CaptureSupervisor i)
      → with_created i first_id w (err x) s ≡ construction_failure i first_id x s
  unfolding with_created
  with_created-err w x s = refl

  construction_failure-eq :
      (e : CaptureOwnerConstructionError) (s : CaptureSupervisor i) (retry_state : RetryState)
      (r : RecordedRecoveryEvaluation)
      → record_construction_failure first_id s.retry_state ≡ ok retry_state
      → evaluation_of s.recovery_configuration retry_state (
          recovery_snapshot s.recovery_configuration s.observation retry_state
            (some construction_failed))
        ≡ ok (some r)
      → construction_failure i first_id e s
        ≡ ok (
          err (construction e),
          record s {
            retry_state = retry_state;
            resources_released = true;
            completion = some construction_failed;
            state = completed;
            recovery_evaluation = some r;
          },
        )
  unfolding construction_failure
  construction_failure-eq e s retry_state r h k = simp (h, k)

  -- A start that has come as far as this returns; the supervisor is no longer idle, and its factory
  -- is the one that is given.
  abbrev Returned :
      i.Factory
      → Panics (Result CaptureSupervisorStartError CaptureSupervisorStart × CaptureSupervisor i)
      → Type 0
  Returned factory call =
      (r : Result CaptureSupervisorStartError CaptureSupervisorStart) × (s' : CaptureSupervisor i)
      × (call ≡ ok (r, s'))
      × Inv i laws s'
      × (s'.state ≢ idle)
      × (s'.factory ≡ factory)

  construction_failure-Returned :
      (e : CaptureOwnerConstructionError) (s : CaptureSupervisor i)
      → s.retry_state ≡ committed s.recovery_configuration.identity
      → validate (recovery_disabled recovery_disabled_configuration_version)
        ≡ ok s.recovery_configuration
      → Returned s.factory (construction_failure i first_id e s)
  construction_failure-Returned e s retry valid =
      let c = s.recovery_configuration in
      let (retry_state, recorded, settled) =
        Settles-to true c.identity false false (retry_failure_for construction_failed) _
          (constructed c.identity) in
      let (r, evaluated, advises) = Records-to construction_failed _ (
        evaluation_of-Records c valid s.observation construction_failed true false false
          (retry_failure_for construction_failed) retry_state settled) in
      (
        err (construction e),
        _,
        construction_failure-eq e s retry_state r (rw retry recorded) evaluated,
        record {
          state = completed;
          at = refl;
          fits = (
            refl,
            (construction_failed, refl, inr (true, false, false, settled, (r, refl, advises))),
          );
          disabled = valid;
        },
        completed-ne-idle,
        refl,
      )

  -- An owner that was not left started is done, and its completion is recorded at once.
  completes_at_once-eq :
      (message : String) (result : Result CaptureSupervisorStartError CaptureSupervisorStart)
      (call : Panics
        (Result CaptureOwnerShutdownTimeout CaptureSupervisorCompletion × CaptureSupervisor i))
      (k : CaptureSupervisorCompletion) (s : CaptureSupervisor i)
      → call ≡ ok (ok k, s)
      → completes_at_once i message result call ≡ ok (result, s)
  completes_at_once-eq message result call k s h = simp h

  done-Returned :
      (message : String) (result : Result CaptureSupervisorStartError CaptureSupervisorStart)
      (w : i.World) (s : CaptureSupervisor i) (o : i.Owner) (answer : CaptureOwnerCompletion Sample)
      → s.completion ≡ none
      → s.owner ≡ some o
      → laws.Done answer o
      → s.retry_state ≡ owned true s.recovery_configuration.identity
      → validate (recovery_disabled recovery_disabled_configuration_version)
        ≡ ok s.recovery_configuration
      → Returned s.factory (completes_at_once i message result (record_owner_completion i 0 w s))
  done-Returned message result w s o answer k has done owns valid =
      let (o', call) = laws.wait-Done 0 w o answer done in
      let eq = record_owner_completion-eq i laws 0 w s o o' (ok answer) k has call in
      let (s', ended, inv, desired, at, kept, factory) =
        complete_with-held i laws true answer (record s { owner = some o' }) valid owns in
      (
        result,
        s',
        completes_at_once-eq message result _ (completion_from answer) s' (eq ∙ ended),
        inv,
        λ h. completed-ne-idle (sym at ∙ h),
        factory,
      )

  after_start-Returned :
      (r : Result CaptureOwnerStartError CaptureOwnerStart) (w : i.World) (s : CaptureSupervisor i)
      (o : i.Owner)
      → s.completion ≡ none
      → s.recovery_evaluation ≡ none
      → s.resources_released ≡ false
      → s.owner ≡ some o
      → s.retry_state ≡ owned true s.recovery_configuration.identity
      → validate (recovery_disabled recovery_disabled_configuration_version)
        ≡ ok s.recovery_configuration
      → ((r ≡ ok started) × laws.Live o)
        ⊎ ((r ≢ ok started) × ((c : CaptureOwnerCompletion Sample) × laws.Done c o))
      → Returned s.factory (after_start i r w s)
  unfolding after_start
  after_start-Returned r w s o k e rel has owns valid (inl (is_started, live)) = rw is_started (
    ok CaptureSupervisorStart.started,
    record s { state = running },
    refl,
    record {
      state = running;
      at = refl;
      fits = ((o, has, live), owns, k, e, rel);
      disabled = valid;
    },
    running-ne-idle,
    refl,
  )
  after_start-Returned (ok started) w s o k e rel has owns valid (inr (other, done)) =
      absurd (other refl)
  after_start-Returned (ok stop_already_requested) w s o k e rel has owns valid
        (inr (other, (c, done))) =
      done-Returned _ _ w s o c k has done owns valid
  after_start-Returned (err x) w s o k e rel has owns valid (inr (other, (c, done))) =
      done-Returned _ _ w s o c k has done owns valid

  with_created-Returned :
      (w : i.World) (s : CaptureSupervisor i)
      (created : Result CaptureOwnerConstructionError i.Owner)
      → ((o : i.Owner) → created ≡ ok o → laws.Fresh o)
      → s.completion ≡ none
      → s.recovery_evaluation ≡ none
      → s.resources_released ≡ false
      → s.retry_state ≡ committed s.recovery_configuration.identity
      → validate (recovery_disabled recovery_disabled_configuration_version)
        ≡ ok s.recovery_configuration
      → Returned s.factory (with_created i first_id w created s)
  with_created-Returned w s (err x) fresh k e rel retry valid =
      rw (with_created-err w x s) (construction_failure-Returned x s retry valid)
  with_created-Returned w s (ok o) fresh k e rel retry valid =
      let (r, o', call, ends) = laws.start-Fresh w o (fresh o refl) in
      let (result, s', eq, inv, busy, factory) =
        after_start-Returned r w
          (record s { retry_state = owned true s.recovery_configuration.identity; owner = some o' })
          o' k e rel refl refl valid ends in
      (result, s', with_created-ok w o o' s r retry call ∙ eq, inv, busy, factory)

  -- A start returns and keeps the invariant and the completion. The factory is called where the
  -- supervisor was idle, and then the supervisor no longer is.
  abbrev pub StartReturns : i.World → CaptureSupervisor i → Type 0
  StartReturns w s =
      (r : Result CaptureSupervisorStartError CaptureSupervisorStart) × (s' : CaptureSupervisor i)
      × (start i w s ≡ ok (r, s'))
      × Inv i laws s'
      × (((s.state ≡ idle)
            × (s.completion ≡ none)
            × (s'.state ≢ idle)
            × ((callback : i.Callback) × (s'.factory ≡ (i.create callback w s.factory).1)))
          ⊎ (s' ≡ s))

  busy : (w : i.World) (s : CaptureSupervisor i) → Inv i laws s → s.state ≢ idle → StartReturns w s
  busy w s inv h = (_, s, start-busy w s s.state refl h, inv, inr refl)

  start-from :
      (w : i.World) (s : CaptureSupervisor i) (state : CaptureSupervisorState)
      → s.state ≡ state
      → InvAt i laws state s
      → Inv i laws s
      → StartReturns w s
  start-from w s idle at (retry, (callback, has), k, e, rel) inv =
      let (r, s', eq, inv', moved, factory) =
        with_created-Returned w (calling callback w s) (i.create callback w s.factory).0
          (laws.create-Fresh callback w s.factory) k e rel refl inv.disabled in
      (
        r,
        s',
        start-inert w s callback at retry has ∙ eq,
        inv',
        inl (at, k, moved, (callback, factory)),
      )
  start-from w s running at fits inv = busy w s inv (λ h. running-ne-idle (sym at ∙ h))
  start-from w s stopping at fits inv = busy w s inv (λ h. stopping-ne-idle (sym at ∙ h))
  start-from w s completed at fits inv = busy w s inv (λ h. completed-ne-idle (sym at ∙ h))

  pub start-Returns : (w : i.World) (s : CaptureSupervisor i) → Inv i laws s → StartReturns w s
  start-Returns w s inv = start-from w s inv.state inv.at inv.fits inv
