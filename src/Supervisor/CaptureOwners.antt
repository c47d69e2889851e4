-- ===== src/Supervisor/CaptureOwners.antt =====
-- The owner of crates/resonance-agent/src/windows.rs behind the interface of the supervisor, and its
-- factory: `WasapiCaptureOwnerFactory`, whose runner stands for the capture of its source intent.
use resonance_signal.Base.{◌≡◌, ◌≢◌, ◌⊎◌, refl, some, List, Result, ok, err, inl, inr, ok-injective}
use mathlib.Core.Path.{subst}
use resonance_signal.Windows.Owner.{
  Panics, CaptureOwner, CaptureOwnerCompletion, CaptureOwnerStart, CaptureOwnerStartError, started,
  stop_already_requested, CaptureOwnerShutdownTimeout, Surroundings, with_runner,
}
use resonance_signal.Windows.Owner
use resonance_signal.Windows.Owner.Inv.{
  inert, live, Fits, Returns, Starts, Waits, start-inert, wait_for_completion-live,
  wait_for_completion-done, done-completion,
}
use resonance_signal.Supervisor.{
  CaptureOwnerConstructionError, SupervisedCaptureOwner, CaptureSupervisor,
}
use resonance_signal.Supervisor.Operations.{with_factory}
use resonance_signal.Supervisor.Inv.{SupervisedLaws, Inv}
use resonance_signal.Supervisor.Histories.{SupervisorCall, run_calls}
use resonance_signal.Supervisor.Outcomes.{with_factory-returns, run_calls-Inv}

module _ (Runner Callback Sample : Type 0) where
  abbrev pub capture_owner : SupervisedCaptureOwner Sample
  capture_owner = record {
    Owner = CaptureOwner Runner Callback Sample;
    Factory = Runner;
    Callback = Callback;
    World = Surroundings Sample;
    create = λ callback w runner. (ok (with_runner callback runner), runner);
    start = Owner.start;
    request_stop = Owner.request_stop;
    wait_for_completion = Owner.wait_for_completion;
  }

  returns_to :
      {R : Type 0} (P : R → CaptureOwner Runner Callback Sample → Type 0)
      (call : Panics (R × CaptureOwner Runner Callback Sample))
      → Returns call P
      → (r : R) × (o : CaptureOwner Runner Callback Sample) × (call ≡ ok (r, o)) × P r o
  returns_to P (ok (r, o)) h = (r, o, refl, h)
  returns_to P (err message) h = absurd h

  abbrev Ends : CaptureOwnerCompletion Sample → CaptureOwner Runner Callback Sample → Type 0
  Ends c o = o.completion ≡ some c

  started_or_done :
      (r : Result CaptureOwnerStartError CaptureOwnerStart)
      (o : CaptureOwner Runner Callback Sample)
      → Starts r o
      → ((r ≡ ok started) × Fits live o)
        ⊎ ((r ≢ ok started) × ((c : CaptureOwnerCompletion Sample) × Ends c o))
  started_or_done (ok started) o h = inl (refl, h)
  started_or_done (ok stop_already_requested) o h = inr (λ e. cc, done-completion o h)
  started_or_done (err x) o h = inr (λ e. cc, done-completion o h)

  completed_or_live :
      (r : Result CaptureOwnerShutdownTimeout (CaptureOwnerCompletion Sample))
      (o : CaptureOwner Runner Callback Sample)
      → Waits r o
      → ((c : CaptureOwnerCompletion Sample) × (r ≡ ok c))
        ⊎ ((e : CaptureOwnerShutdownTimeout) × (r ≡ err e) × Fits live o)
  completed_or_live (ok c) o h = inl (c, refl)
  completed_or_live (err e) o h = inr (e, refl, h)

  fresh :
      (callback : Callback) (runner : Runner) (o : CaptureOwner Runner Callback Sample)
      → ◌≡◌ {A = Result CaptureOwnerConstructionError (CaptureOwner Runner Callback Sample)}
          (ok (with_runner callback runner))
          (ok o)
      → Fits inert o
  unfolding with_runner
  fresh callback runner o h =
      subst (Fits inert) (ok-injective (with_runner callback runner) o h)
        (refl, refl, refl, refl, refl, refl)

  still_live :
      (o : CaptureOwner Runner Callback Sample) → Fits live o → Fits live (Owner.request_stop o)
  unfolding Owner.request_stop
  still_live o h = h

  -- The owner of a capture run keeps what its supervisor relies on: one that was made is inert, a start
  -- leaves it live or done with a completion, a request to stop leaves it live, a wait on a live one
  -- completes it or leaves it live, and one that is done answers every wait with its completion.
  pub capture_owner-laws : SupervisedLaws capture_owner
  capture_owner-laws = record {
    Fresh = Fits inert;
    Live = Fits live;
    Done = Ends;
    create-Fresh = λ callback w runner o h. fresh callback runner o h;
    start-Fresh = λ w o h.
        let (r, o', call, starts) = returns_to Starts (Owner.start w o) (start-inert w o h) in
        (r, o', call, started_or_done r o' starts);
    request_stop-Live = still_live;
    wait-Live = λ limit w o h.
        let (r, o', call, waits) =
          returns_to Waits (Owner.wait_for_completion limit w o)
            (wait_for_completion-live limit w o h) in
        (r, o', call, completed_or_live r o' waits);
    wait-Done = λ limit w o c h. (o, wait_for_completion-done limit w o c h);
  }

  -- The supervisor of a capture owner is made without a panic, and no call of it panics, in whatever
  -- order its client makes them, whatever the operating system does, and whatever events come: it
  -- reaches a state in which its invariant holds, in terms of the phases of that owner.
  pub supervised_capture-returns :
      (runner : Runner) (callback : Callback) (calls : List (SupervisorCall capture_owner))
      → (first : CaptureSupervisor capture_owner) × (last : CaptureSupervisor capture_owner)
        × (with_factory capture_owner runner callback ≡ ok first)
        × (run_calls capture_owner calls first ≡ ok last)
        × Inv capture_owner capture_owner-laws last
  supervised_capture-returns runner callback calls =
      let (first, at_first, inv) =
        with_factory-returns capture_owner capture_owner-laws runner callback in
      let (last, ran, inv', kept) =
        run_calls-Inv capture_owner capture_owner-laws calls first inv in
      (first, last, at_first, ran, inv')
