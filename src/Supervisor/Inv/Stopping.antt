-- ===== src/Supervisor/Inv/Stopping.antt =====
-- A wait on a supervisor, and its stop.
use resonance_signal.Base.{
  ◌≡◌, ◌≢◌, ◌⊎◌, refl, Bool, true, false, Option, none, some, Result, ok, err, inl, inr, sym, ◌∙◌,
}
use resonance_signal.RecoveryConfig.{RecoveryConfigurationIdentity}
use resonance_signal.RetryState.{RetryFailureCause, RetryState}
use resonance_signal.RetryState.Checks.{snapshot}
use resonance_signal.RetryState.Intent.{initial, explicit_stop}
use resonance_signal.Windows.{Duration}
use resonance_signal.Windows.Owner.{CaptureOwnerShutdownTimeout}
use resonance_signal.Supervisor.{
  SupervisedCaptureOwner, CaptureSupervisorState, idle, running, stopping, completed, not_started,
  CaptureSupervisorCompletion, retry_failure_for, CaptureSupervisor,
}
use resonance_signal.Supervisor.Attempts.{owned, Settled, stopped, explicit_stop-Settled}
use resonance_signal.Supervisor.Advice.{evaluation_of-Records}
use resonance_signal.Supervisor.Completion.{
  record_recovery_evaluation, give_completion, record_owner_completion,
}
use resonance_signal.Supervisor.Operations.{
  disable_recovery_intent, map_timeout, wait_for_completion, stop_from, stop,
}
use resonance_signal.Supervisor.Inv.{
  completed-ne-idle, stopping-ne-idle, SupervisedLaws, Inert, Held, InvAt, Inv, NeverStarted,
  Attempted,
}
use resonance_signal.Supervisor.Inv.Completing.{
  Records-to, record_recovery_evaluation-eq, record_owner_completion-Held, Waited,
}

disable-initial : disable_recovery_intent initial ≡ ok initial
unfolding disable_recovery_intent
disable-initial = refl

disable-owned :
    (d : Bool) (c : RecoveryConfigurationIdentity)
    → disable_recovery_intent (owned d c) ≡ ok (owned false c)
unfolding disable_recovery_intent explicit_stop
disable-owned true c = refl
disable-owned false c = refl

-- The intent of a settled attempt is stopped, if it was not.
disable-Settled :
    (c : RecoveryConfigurationIdentity) (d began terminal : Bool)
    (failure : Option RetryFailureCause) (s : RetryState)
    → Settled d c began terminal failure s
    → (s' : RetryState) × (disable_recovery_intent s ≡ ok s')
      × Settled false c began terminal failure s'
unfolding disable_recovery_intent
disable-Settled c true began terminal failure s h =
    let (e, settled) = explicit_stop-Settled c began terminal failure s h in
    (stopped s, simp (h.1, h.0, e), settled)
disable-Settled c false began terminal failure s h = (s, simp (h.1, h.0), h)

pub none-some :
    (o : Option CaptureSupervisorCompletion) (k : CaptureSupervisorCompletion)
    → o ≡ none
    → o ≡ some k
    → ⊥
none-some o k h h' = cc

module _ {Sample : Type 0} (i : SupervisedCaptureOwner Sample) (laws : SupervisedLaws i) where
  give_completion-eq :
      (s : CaptureSupervisor i) (k : CaptureSupervisorCompletion)
      → s.completion ≡ some k
      → give_completion i s ≡ ok (ok k, s)
  give_completion-eq s k h = simp h

  pub record_owner_completion-completed :
      (limit : Duration) (w : i.World) (s : CaptureSupervisor i) (k : CaptureSupervisorCompletion)
      → s.completion ≡ some k
      → record_owner_completion i limit w s ≡ ok (ok k, s)
  unfolding record_owner_completion
  record_owner_completion-completed limit w s k h = simp h

  pub wait-idle :
      (limit : Duration) (w : i.World) (s : CaptureSupervisor i)
      → s.state ≡ idle
      → wait_for_completion i limit w s ≡ ok (err not_started, s)
  unfolding wait_for_completion
  wait-idle limit w s at = simp at

  pub wait-busy :
      (limit : Duration) (w : i.World) (s : CaptureSupervisor i) (state : CaptureSupervisorState)
      → s.state ≡ state
      → state ≢ idle
      → wait_for_completion i limit w s ≡ map_timeout i (record_owner_completion i limit w s)
  unfolding wait_for_completion
  wait-busy limit w s idle at h = absurd (h refl)
  wait-busy limit w s running at h = simp at
  wait-busy limit w s stopping at h = simp at
  wait-busy limit w s completed at h = simp at

  stop-eq :
      (limit : Duration) (w : i.World) (s : CaptureSupervisor i) (state : CaptureSupervisorState)
      (retry_state : RetryState)
      → s.state ≡ state
      → disable_recovery_intent s.retry_state ≡ ok retry_state
      → stop i limit w s ≡ stop_from i state limit w (record s { retry_state = retry_state })
  unfolding stop
  stop-eq limit w s state retry_state at h = simp (at, h)

  released :
      (s : CaptureSupervisor i) (state : CaptureSupervisorState)
      → s.state ≡ state
      → InvAt i laws state s
      → s.state ≡ completed
      → s.resources_released ≡ true
  released s idle at fits h = cc
  released s running at fits h = cc
  released s stopping at fits h = cc
  released s completed at fits h = fits.0

  -- What a stop gives and leaves: no intent, and the completion or, after a timeout, an owner that was
  -- asked to stop.
  abbrev pub Stops :
      Result CaptureOwnerShutdownTimeout CaptureSupervisorCompletion → CaptureSupervisor i → Type 0
  Stops (ok k) s = (s.state ≡ completed) × (s.completion ≡ some k) × (s.resources_released ≡ true)
  Stops (err e) s = (s.state ≡ stopping) × (s.completion ≡ none)

  -- What a stop from a state that the invariant describes does.
  abbrev pub StopReturns : Duration → i.World → CaptureSupervisor i → Type 0
  StopReturns limit w s =
      (r : Result CaptureOwnerShutdownTimeout CaptureSupervisorCompletion) × (s' : CaptureSupervisor
        i)
      × (stop i limit w s ≡ ok (r, s'))
      × Inv i laws s'
      × (s'.retry_state.desired_running ≡ false)
      × Stops r s'
      × ((k : CaptureSupervisorCompletion) → s.completion ≡ some k → s'.completion ≡ some k)
      × (s'.factory ≡ s.factory)
      × (s'.state ≢ idle)

  Waited-Stops :
      (r : Result CaptureOwnerShutdownTimeout CaptureSupervisorCompletion) (s : CaptureSupervisor i)
      → Inv i laws s
      → Waited i laws false stopping r s
      → Stops r s × (s.state ≢ idle)
  Waited-Stops (ok k) s inv (at, c) =
      ((at, c, released s inv.state inv.at inv.fits at), λ h. completed-ne-idle (sym at ∙ h))
  Waited-Stops (err e) s inv (at, c) = ((at, c), λ h. stopping-ne-idle (sym at ∙ h))

  stop-idle :
      (limit : Duration) (w : i.World) (s : CaptureSupervisor i)
      → s.state ≡ idle
      → Inert i laws s
      → Inv i laws s
      → StopReturns limit w s
  stop-idle limit w s at (retry, has, k, e, rel) inv =
      let s' = record s {
        retry_state = initial;
        resources_released = true;
        completion = some CaptureSupervisorCompletion.stopped_before_start;
        state = completed;
      } in
      let disabled : disable_recovery_intent s.retry_state ≡ ok initial =
        rw retry disable-initial in
      (
        ok CaptureSupervisorCompletion.stopped_before_start,
        s',
        stop-eq limit w s idle initial at disabled ∙ refl,
        record {
          state = completed;
          at = refl;
          fits =
              (refl, (CaptureSupervisorCompletion.stopped_before_start, refl, inl (refl, refl, e)));
          disabled = inv.disabled;
        },
        refl,
        (refl, refl, refl),
        λ c h. absurd (none-some s.completion _ k h),
        refl,
        completed-ne-idle,
      )

  -- The supervisor that has asked its owner to stop.
  abbrev asked : i.Owner → CaptureSupervisor i → CaptureSupervisor i
  asked o s = record s {
    retry_state = owned false s.recovery_configuration.identity;
    state = stopping;
    owner = some (i.request_stop o);
  }

  stop_from-held :
      (limit : Duration) (w : i.World) (s : CaptureSupervisor i) (o : i.Owner)
      (state : CaptureSupervisorState)
      → s.owner ≡ some o
      → (state ≡ running) ⊎ (state ≡ stopping)
      → stop_from i state limit w
          (record s { retry_state = owned false s.recovery_configuration.identity })
        ≡ record_owner_completion i limit w (asked o s)
  stop_from-held limit w s o idle has (inl h) = cc
  stop_from-held limit w s o idle has (inr h) = cc
  stop_from-held limit w s o completed has (inl h) = cc
  stop_from-held limit w s o completed has (inr h) = cc
  stop_from-held limit w s o running has h = simp has
  stop_from-held limit w s o stopping has h = simp has

  stop-Held :
      (limit : Duration) (w : i.World) (s : CaptureSupervisor i) (d : Bool)
      (state : CaptureSupervisorState)
      → (state ≡ running) ⊎ (state ≡ stopping)
      → s.state ≡ state
      → Held i laws d s
      → Inv i laws s
      → StopReturns limit w s
  stop-Held limit w s d state which at ((o, has, live), owns, k, e, rel) inv =
      let c = s.recovery_configuration.identity in
      let disabled : disable_recovery_intent s.retry_state ≡ ok (owned false c) =
        rw owns (disable-owned d c) in
      let (r, s', call, inv', desired, waited, factory) =
        record_owner_completion-Held i laws limit w false stopping (asked o s) (λ x h. h) refl
          ((i.request_stop o, refl, laws.request_stop-Live o live), refl, k, e, rel) inv.disabled in
      let (stops, moved) = Waited-Stops r s' inv' waited in
      (
        r,
        s',
        stop-eq limit w s state (owned false c) at disabled
            ∙ stop_from-held limit w s o state has which
            ∙ call,
        inv',
        desired,
        stops,
        λ x h. absurd (none-some s.completion _ k h),
        factory,
        moved,
      )

  stop_from-completed :
      (limit : Duration) (w : i.World) (s s' : CaptureSupervisor i)
      (k : CaptureSupervisorCompletion)
      → record_recovery_evaluation i s ≡ ok s'
      → s'.completion ≡ some k
      → stop_from i completed limit w s ≡ ok (ok k, s')
  stop_from-completed limit w s s' k h kept = simp (h, kept)

  -- The evaluation again, of an attempt whose intent is now stopped.
  stop-Attempted :
      (limit : Duration) (w : i.World) (s : CaptureSupervisor i) (k : CaptureSupervisorCompletion)
      → s.state ≡ completed
      → s.resources_released ≡ true
      → s.completion ≡ some k
      → Attempted i laws k s
      → Inv i laws s
      → StopReturns limit w s
  stop-Attempted limit w s k at rel kept (d, began, terminal, settled, evaluated) inv =
      let c = s.recovery_configuration in
      let failure = retry_failure_for k in
      let (retry_state, disabled, settled') =
        disable-Settled c.identity d began terminal failure s.retry_state settled in
      let (e, records, advises) = Records-to k _ (
        evaluation_of-Records c inv.disabled s.observation k false began terminal failure
          retry_state settled') in
      let s' = record s { retry_state = retry_state; recovery_evaluation = some e } in
      let recorded : record_recovery_evaluation i (record s { retry_state = retry_state }) ≡ ok s' =
        record_recovery_evaluation-eq i laws (record s { retry_state = retry_state }) e
          (rw kept records) in
      (
        ok k,
        s',
        stop-eq limit w s completed retry_state at disabled
            ∙ stop_from-completed limit w _ s' k recorded kept,
        record {
          state = completed;
          at = at;
          fits = (rel, (k, kept, inr (false, began, terminal, settled', (e, refl, advises))));
          disabled = inv.disabled;
        },
        settled'.0,
        (at, kept, rel),
        λ x h. h,
        refl,
        λ h. completed-ne-idle (sym at ∙ h),
      )

  record_recovery_evaluation-initial :
      (s : CaptureSupervisor i) → s.retry_state ≡ initial → record_recovery_evaluation i s ≡ ok s
  unfolding record_recovery_evaluation snapshot
  record_recovery_evaluation-initial s h = simp h

  stop-NeverStarted :
      (limit : Duration) (w : i.World) (s : CaptureSupervisor i) (k : CaptureSupervisorCompletion)
      → s.state ≡ completed
      → s.resources_released ≡ true
      → s.completion ≡ some k
      → NeverStarted i laws k s
      → Inv i laws s
      → StopReturns limit w s
  stop-NeverStarted limit w s k at rel kept (stopped_k, retry, e) inv =
      let disabled : disable_recovery_intent s.retry_state ≡ ok initial =
        rw retry disable-initial in
      let s' = record s { retry_state = initial } in
      let recorded : record_recovery_evaluation i s' ≡ ok s' =
        record_recovery_evaluation-initial s' refl in
      (
        ok k,
        s',
        stop-eq limit w s completed initial at disabled
            ∙ stop_from-completed limit w _ s' k recorded kept,
        record {
          state = completed;
          at = at;
          fits = (rel, (k, kept, inl (stopped_k, refl, e)));
          disabled = inv.disabled;
        },
        refl,
        (at, kept, rel),
        λ x h. h,
        refl,
        λ h. completed-ne-idle (sym at ∙ h),
      )

  stop-ended :
      (limit : Duration) (w : i.World) (s : CaptureSupervisor i) (k : CaptureSupervisorCompletion)
      → s.state ≡ completed
      → s.resources_released ≡ true
      → s.completion ≡ some k
      → NeverStarted i laws k s ⊎ Attempted i laws k s
      → Inv i laws s
      → StopReturns limit w s
  stop-ended limit w s k at rel kept (inl never) inv =
      stop-NeverStarted limit w s k at rel kept never inv
  stop-ended limit w s k at rel kept (inr attempted) inv =
      stop-Attempted limit w s k at rel kept attempted inv

  stop-from :
      (limit : Duration) (w : i.World) (s : CaptureSupervisor i) (state : CaptureSupervisorState)
      → s.state ≡ state
      → InvAt i laws state s
      → Inv i laws s
      → StopReturns limit w s
  stop-from limit w s idle at fits inv = stop-idle limit w s at fits inv
  stop-from limit w s running at fits inv = stop-Held limit w s true running (inl refl) at fits inv
  stop-from limit w s stopping at fits inv =
      stop-Held limit w s false stopping (inr refl) at fits inv
  stop-from limit w s completed at (rel, (k, kept, ends)) inv =
      stop-ended limit w s k at rel kept ends inv

  -- A stop returns from every state of the supervisor. Its intent is then stopped, its completion is
  -- the one that it had, if it had one, and its factory was not called. Where the stop gives a
  -- completion, the supervisor is completed with it and its resources are released; where the wait
  -- times out, it is stopping.
  pub stop-Returns :
      (limit : Duration) (w : i.World) (s : CaptureSupervisor i)
      → Inv i laws s
      → StopReturns limit w s
  stop-Returns limit w s inv = stop-from limit w s inv.state inv.at inv.fits inv
