-- ===== src/Windows/Owner/Inv.antt =====
-- The phases of the owner of a capture run.
use resonance_signal.Base.{
  ◌≡◌, refl, Bool, true, false, is_some, none, some, Result, ok, err, inl, inr, Bool-cases,
  Option-cases, arith,
}
use Prim.Native.String.{String}
use resonance_signal.Windows.{Duration}
use resonance_signal.Windows.Owner.{
  Panics, CaptureOwner, CaptureOwnerCompletion, CaptureOwnerStart, started, stop_already_requested,
  CaptureOwnerStartError, Surroundings, RecvTimeout, received, timed_out, disconnected,
  CaptureOwnerShutdownTimeout, start, wait_for_completion, receive, complete, retained,
  spawn_worker, stop_before_start, join_worker, worker_completion,
}

pub data OwnerPhase : Type 0 where
  inert live done : OwnerPhase

module _ {Runner Callback Sample : Type 0} where
  -- Before the start; while the worker runs; after the worker is joined, or was never spawned.
  abbrev pub Fits : OwnerPhase → CaptureOwner Runner Callback Sample → Type 0
  Fits inert o =
      (o.start_called ≡ false)
      × (is_some o.runner ≡ true)
      × (is_some o.on_event ≡ true)
      × (o.worker ≡ none)
      × (o.completion_rx ≡ none)
      × (o.completion ≡ none)
  Fits live o =
      (o.start_called ≡ true)
      × (o.worker ≡ some tt)
      × (o.completion_rx ≡ some tt)
      × (o.completion ≡ none)
  Fits done o =
      (o.start_called ≡ true)
      × (o.worker ≡ none)
      × (o.completion_rx ≡ none)
      × (is_some o.completion ≡ true)

  abbrev pub HasPhase : CaptureOwner Runner Callback Sample → Type 0
  HasPhase o = (phase : OwnerPhase) × Fits phase o

  -- The call returns, and what it returns is related to the owner that it leaves.
  abbrev pub Returns :
      {R : Type 0}
      → Panics (R × CaptureOwner Runner Callback Sample)
      → (R → CaptureOwner Runner Callback Sample → Type 0)
      → Type 0
  Returns (ok (r, o)) P = P r o
  Returns (err message) P = ⊥

  -- A start leaves a worker, or where it does not, a completion.
  abbrev pub Starts :
      Result CaptureOwnerStartError CaptureOwnerStart → CaptureOwner Runner Callback Sample → Type 0
  Starts (ok started) o = Fits live o
  Starts (ok stop_already_requested) o = Fits done o
  Starts (err e) o = Fits done o

  -- A wait gives the completion of an owner that is done, or times out and leaves it live.
  abbrev pub Waits :
      Result CaptureOwnerShutdownTimeout (CaptureOwnerCompletion Sample)
      → CaptureOwner Runner Callback Sample
      → Type 0
  Waits (ok c) o = Fits done o × (o.completion ≡ some c)
  Waits (err e) o = Fits live o

  join_complete :
      (joined : Bool) (c : CaptureOwnerCompletion Sample) (o : CaptureOwner Runner Callback Sample)
      → Fits live o
      → Fits done (complete joined c o)
  unfolding join_worker
  join_complete true c o h = rw (h.1) (h.0, refl, refl, refl)
  join_complete false c o h = rw (h.1) (h.0, refl, refl, refl)

  pub done-completion :
      (o : CaptureOwner Runner Callback Sample)
      → Fits done o
      → (c : CaptureOwnerCompletion Sample) × (o.completion ≡ some c)
  done-completion o h = elim (Option-cases o.completion) [
    | inl e ↦ absurd (ground arith)
    | inr some_c ↦ some_c
  ]

  retained-done :
      (o : CaptureOwner Runner Callback Sample) → Fits done o → Returns (retained o) Waits
  retained-done o h =
      let (c, e) = done-completion o h in
      let kept : retained o ≡ ok (ok c, o) = simp e in rw kept (h, e)

  receive-live :
      (timeout : Duration) (joined : Bool) (rt : RecvTimeout Sample)
      (o : CaptureOwner Runner Callback Sample)
      → Fits live o
      → Returns (receive timeout joined rt o) Waits
  receive-live timeout joined (received outcome) o h =
      retained-done (complete joined (worker_completion outcome) o)
        (join_complete joined (worker_completion outcome) o h)
  receive-live timeout joined timed_out o h = h
  receive-live timeout joined disconnected o h =
      retained-done (complete joined CaptureOwnerCompletion.panicked o)
        (join_complete joined CaptureOwnerCompletion.panicked o h)

  wait_for_completion-receive :
      (timeout : Duration) (w : Surroundings Sample) (o : CaptureOwner Runner Callback Sample)
      → Fits live o
      → wait_for_completion timeout w o ≡ receive timeout w.joined w.recv_timeout o
  unfolding wait_for_completion
  wait_for_completion-receive timeout w o h = simp (h.3, h.2)

  pub wait_for_completion-live :
      (timeout : Duration) (w : Surroundings Sample) (o : CaptureOwner Runner Callback Sample)
      → Fits live o
      → Returns (wait_for_completion timeout w o) Waits
  wait_for_completion-live timeout w o h =
      rw (wait_for_completion-receive timeout w o h)
        (receive-live timeout w.joined w.recv_timeout o h)

  pub wait_for_completion-done :
      (timeout : Duration) (w : Surroundings Sample) (o : CaptureOwner Runner Callback Sample)
      (c : CaptureOwnerCompletion Sample)
      → o.completion ≡ some c
      → wait_for_completion timeout w o ≡ ok (ok c, o)
  unfolding wait_for_completion
  wait_for_completion-done timeout w o c h = simp h

  -- An inert owner whose stop was requested is done at once.
  start-stopped :
      (w : Surroundings Sample) (o : CaptureOwner Runner Callback Sample)
      → o.start_called ≡ false
      → o.stop ≡ true
      → start w o
        ≡ ok (ok stop_already_requested, stop_before_start (record o { start_called = true }))
  unfolding start
  start-stopped w o h k = simp (h, k)

  start-spawns :
      (w : Surroundings Sample) (o : CaptureOwner Runner Callback Sample)
      → Fits inert o
      → o.stop ≡ false
      → start w o
        ≡ ok (
            spawn_worker w.spawned
              (record o { start_called = true; runner = none; on_event = none }))
  unfolding start
  start-spawns w o h k = ground arith

  spawn_worker-Starts :
      (spawned : Result String (Unit {0})) (o : CaptureOwner Runner Callback Sample)
      → o.start_called ≡ true
      → o.worker ≡ none
      → o.completion_rx ≡ none
      → o.completion ≡ none
      → Starts (spawn_worker spawned o).0 (spawn_worker spawned o).1
  spawn_worker-Starts (ok u) o s w r c = (s, refl, refl, c)
  spawn_worker-Starts (err e) o s w r c = (s, w, r, refl)

  pub start-inert :
      (w : Surroundings Sample) (o : CaptureOwner Runner Callback Sample)
      → Fits inert o
      → Returns (start w o) Starts
  start-inert w o (called, r, e, worker, rx, c) = elim (Bool-cases o.stop) [
    | inl stop ↦ rw (start-stopped w o called stop) (refl, worker, rx, refl)
    | inr go ↦
        rw (start-spawns w o (called, r, e, worker, rx, c) go)
          (spawn_worker-Starts w.spawned _ refl worker rx c)
  ]
