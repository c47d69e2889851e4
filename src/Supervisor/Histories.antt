-- ===== src/Supervisor/Histories.antt =====
-- The life of a supervisor, over all sequences of its calls and of the events of its owner.
use resonance_signal.Base.{
  ◌≡◌, ◌≢◌, ◌⊎◌, refl, Bool, true, false, some, List, [], ◌∷◌, Result, ok, err, ◌>>=◌, inl, inr, ap,
  sym, ◌∙◌,
}
use mathlib.Core.Path.{subst}
use resonance_signal.Contract.{StreamEvent}
use resonance_signal.Windows.{Duration}
use resonance_signal.Windows.Owner.{Panics, CaptureOwnerShutdownTimeout}
use resonance_signal.Supervisor.{
  SupervisedCaptureOwner, CaptureSupervisorState, idle, running, stopping, completed,
  CaptureSupervisorCompletion, CaptureSupervisor,
}
use resonance_signal.Supervisor.Completion.{record_owner_completion}
use resonance_signal.Supervisor.Operations.{
  deliver_event, start, wait_for_completion, stop, map_timeout,
}
use resonance_signal.Supervisor.Inv.{
  completed-ne-idle, running-ne-idle, stopping-ne-idle, SupervisedLaws, Held, InvAt, Inv,
}
use resonance_signal.Supervisor.Inv.Starting.{StartReturns, start-Returns}
use resonance_signal.Supervisor.Inv.Completing.{Waited, record_owner_completion-Held}
use resonance_signal.Supervisor.Inv.Stopping.{
  stop-Returns, wait-idle, wait-busy, record_owner_completion-completed, none-some,
}

module _ {Sample : Type 0} (i : SupervisedCaptureOwner Sample) where
  -- A call by the client of the supervisor, or an event of its owner.
  pub data SupervisorCall : Type 0 where
    start_call : i.World → SupervisorCall
    wait_call stop_call : Duration → i.World → SupervisorCall
    event_call : StreamEvent Sample → SupervisorCall

  abbrev pub left_by :
      {R : Type 0} → Panics (R × CaptureSupervisor i) → Panics (CaptureSupervisor i)
  left_by call = call >>= λ (r, s). ok s

  abbrev pub run_call : SupervisorCall → CaptureSupervisor i → Panics (CaptureSupervisor i)
  run_call (start_call w) s = left_by (start i w s)
  run_call (wait_call limit w) s = left_by (wait_for_completion i limit w s)
  run_call (stop_call limit w) s = left_by (stop i limit w s)
  run_call (event_call event) s = ok (deliver_event i event s)

  abbrev pub run_calls : List SupervisorCall → CaptureSupervisor i → Panics (CaptureSupervisor i)
  run_calls [] s = ok s
  run_calls (call ∷ calls) s = run_call call s >>= λ s'. run_calls calls s'

  -- The factory was called at most once, and not by an idle supervisor.
  abbrev pub CalledOnce : i.Factory → i.Factory → Type 0
  CalledOnce factory now =
      (now ≡ factory)
      ⊎ ((callback : i.Callback) × (w : i.World) × (now ≡ (i.create callback w factory).1))

  abbrev pub Made : i.Factory → CaptureSupervisor i → Type 0
  Made factory s =
      ((s.state ≡ idle) × (s.factory ≡ factory)) ⊎ ((s.state ≢ idle) × CalledOnce factory s.factory)

  Made-busy :
      (factory : i.Factory) (s s' : CaptureSupervisor i)
      → s'.factory ≡ s.factory
      → s'.state ≢ idle
      → Made factory s
      → Made factory s'
  Made-busy factory s s' same busy (inl (at, f)) = inr (busy, inl (same ∙ f))
  Made-busy factory s s' same busy (inr (b, inl f)) = inr (busy, inl (same ∙ f))
  Made-busy factory s s' same busy (inr (b, inr (callback, w, f))) =
      inr (busy, inr (callback, w, same ∙ f))

  module _ (laws : SupervisedLaws i) where
    -- Where a call leaves a supervisor.
    abbrev pub Lives : CaptureSupervisor i → Panics (CaptureSupervisor i) → Type 0
    Lives s call =
        (s' : CaptureSupervisor i) × (call ≡ ok s')
        × Inv i laws s'
        × ((k : CaptureSupervisorCompletion) → s.completion ≡ some k → s'.completion ≡ some k)
        × ((factory : i.Factory) → Made factory s → Made factory s')

    unchanged : (s : CaptureSupervisor i) → Inv i laws s → Lives s (ok s)
    unchanged s inv = (s, refl, inv, λ k h. h, λ f m. m)

    Made-start :
        (w : i.World) (s s' : CaptureSupervisor i) (callback : i.Callback) (factory : i.Factory)
        → s.state ≡ idle
        → s'.state ≢ idle
        → s'.factory ≡ (i.create callback w s.factory).1
        → Made factory s
        → Made factory s'
    Made-start w s s' callback factory at busy created (inl (a, f)) =
        inr (busy, inr (callback, w, created ∙ ap (λ g. (i.create callback w g).1) f))
    Made-start w s s' callback factory at busy created (inr (b, m)) = absurd (b at)

    StartReturns-Lives :
        (w : i.World) (s : CaptureSupervisor i)
        → StartReturns i laws w s
        → Lives s (left_by (start i w s))
    StartReturns-Lives w s (r, s', call, inv, inl (at, k, busy, (callback, created))) = (
      s',
      simp call,
      inv,
      λ x h. absurd (none-some s.completion x k h),
      λ f m. Made-start w s s' callback f at busy created m,
    )
    StartReturns-Lives w s (r, s', call, inv, inr same) = (
      s',
      simp call,
      inv,
      λ x h. subst (λ (t : CaptureSupervisor i). t.completion ≡ some x) (sym same) h,
      λ f m. subst (Made f) (sym same) m,
    )

    stop-Lives :
        (limit : Duration) (w : i.World) (s : CaptureSupervisor i)
        → Inv i laws s
        → Lives s (left_by (stop i limit w s))
    stop-Lives limit w s inv =
        let (r, s', call, inv', off, stops, keeps, factory, busy) =
          stop-Returns i laws limit w s inv in
        (s', simp call, inv', keeps, λ f m. Made-busy f s s' factory busy m)

    deliver-fits :
        (event : StreamEvent Sample) (s : CaptureSupervisor i) (state : CaptureSupervisorState)
        → InvAt i laws state s
        → InvAt i laws state (deliver_event i event s)
    unfolding deliver_event
    deliver-fits event s idle h = h
    deliver-fits event s running h = h
    deliver-fits event s stopping h = h
    deliver-fits event s completed h = h

    event-Lives :
        (event : StreamEvent Sample) (s : CaptureSupervisor i)
        → Inv i laws s
        → Lives s (ok (deliver_event i event s))
    unfolding deliver_event
    event-Lives event s inv = (
      deliver_event i event s,
      refl,
      record {
        state = inv.state;
        at = inv.at;
        fits = deliver-fits event s inv.state inv.fits;
        disabled = inv.disabled;
      },
      λ k h. h,
      λ f m. m,
    )

    -- What a wait that is not refused leads to, by the wait on the owner.
    waited :
        (limit : Duration) (w : i.World) (s s' : CaptureSupervisor i)
        (r : Result CaptureOwnerShutdownTimeout CaptureSupervisorCompletion)
        → record_owner_completion i limit w s ≡ ok (r, s')
        → left_by (map_timeout i (record_owner_completion i limit w s)) ≡ ok s'
    waited limit w s s' (ok k) h = simp h
    waited limit w s s' (err e) h = simp h

    Waited-busy :
        (d : Bool) (state : CaptureSupervisorState)
        (r : Result CaptureOwnerShutdownTimeout CaptureSupervisorCompletion)
        (s : CaptureSupervisor i)
        → state ≢ idle
        → Waited i laws d state r s
        → s.state ≢ idle
    Waited-busy d state (ok k) s busy (at, c) h = completed-ne-idle (sym at ∙ h)
    Waited-busy d state (err e) s busy (at, c) h = busy (sym at ∙ h)

    wait-Held :
        (limit : Duration) (w : i.World) (s : CaptureSupervisor i) (d : Bool)
        (state : CaptureSupervisorState)
        → ((x : CaptureSupervisor i) → Held i laws d x → InvAt i laws state x)
        → state ≢ idle
        → s.state ≡ state
        → Held i laws d s
        → Inv i laws s
        → Lives s (left_by (wait_for_completion i limit w s))
    wait-Held limit w s d state holds busy at held inv =
        let (r, s', call, inv', desired, waits, factory) =
          record_owner_completion-Held i laws limit w d state s holds at held inv.disabled in
        (
          s',
          ap left_by (wait-busy i laws limit w s state at busy) ∙ waited limit w s s' r call,
          inv',
          λ k h. absurd (none-some s.completion k (held.2) h),
          λ f m. Made-busy f s s' factory (Waited-busy d state r s' busy waits) m,
        )

    wait-from :
        (limit : Duration) (w : i.World) (s : CaptureSupervisor i) (state : CaptureSupervisorState)
        → s.state ≡ state
        → InvAt i laws state s
        → Inv i laws s
        → Lives s (left_by (wait_for_completion i limit w s))
    wait-from limit w s idle at fits inv = rw (wait-idle i laws limit w s at) (unchanged s inv)
    wait-from limit w s running at fits inv =
        wait-Held limit w s true running (λ x h. h) running-ne-idle at fits inv
    wait-from limit w s stopping at fits inv =
        wait-Held limit w s false stopping (λ x h. h) stopping-ne-idle at fits inv
    wait-from limit w s completed at (rel, (k, kept, ends)) inv =
        rw (wait-busy i laws limit w s completed at completed-ne-idle) (
          rw (waited limit w s s (ok k) (record_owner_completion-completed i laws limit w s k kept))
            (unchanged s inv))

    run_call-Lives :
        (call : SupervisorCall) (s : CaptureSupervisor i) → Inv i laws s → Lives s (run_call call s)
    run_call-Lives (start_call w) s inv = StartReturns-Lives w s (start-Returns i laws w s inv)
    run_call-Lives (wait_call limit w) s inv = wait-from limit w s inv.state inv.at inv.fits inv
    run_call-Lives (stop_call limit w) s inv = stop-Lives limit w s inv
    run_call-Lives (event_call event) s inv = event-Lives event s inv

    pub run_calls-Lives :
        (calls : List SupervisorCall) (s : CaptureSupervisor i)
        → Inv i laws s
        → Lives s (run_calls calls s)
    run_calls-Lives [] s inv = unchanged s inv
    run_calls-Lives (call ∷ calls) s inv =
        let (s', first, inv', keeps, made) = run_call-Lives call s inv in
        let (s'', rest, inv'', keeps', made') = run_calls-Lives calls s' inv' in
        (
          s'',
          ap (λ m. m >>= λ t. run_calls calls t) first ∙ rest,
          inv'',
          λ k h. keeps' k (keeps k h),
          λ f m. made' f (made f m),
        )
