-- ===== src/Windows/Owner/Calls.antt =====
-- The life of the owner of a capture run, over all sequences of calls.
use resonance_signal.Base.{
  ℕ, ◌≤◌, ◌≡◌, ◌⊎◌, ◌∙◌, sym, inl, inr, Option-cases, refl, true, false, none, some, List, [], ◌∷◌,
  Result, ok, err, ◌>>=◌, arith,
}
use resonance_signal.Windows.{Duration}
use resonance_signal.Windows.Owner.{
  Panics, CaptureOwner, CaptureOwnerCompletion, CaptureOwnerStart, CaptureOwnerStartError,
  already_started, started, stop_already_requested, Surroundings, CaptureOwnerShutdownTimeout,
  start, request_stop, wait_for_completion, shutdown, stop_before_start,
}
use resonance_signal.Windows.Owner.Inv.{
  OwnerPhase, inert, live, done, Fits, Returns, Starts, Waits, start-inert,
  wait_for_completion-live, wait_for_completion-done, done-completion,
}

-- The phase moves on, and never out of `done`.
abbrev rank : OwnerPhase → ℕ
rank inert = 0
rank live = 1
rank done = 2

abbrev pub Moves : OwnerPhase → OwnerPhase → Type 0
Moves a b = rank a ≤ rank b

-- A call of the owner by its client.
pub data OwnerCall (Sample : Type 0) : Type 0 where
  start_call : Surroundings Sample → OwnerCall Sample
  stop_call : OwnerCall Sample
  wait_call shutdown_call : Duration → Surroundings Sample → OwnerCall Sample

module _ {Runner Callback Sample : Type 0} where
  abbrev left_by :
      {R : Type 0}
      → Panics (R × CaptureOwner Runner Callback Sample)
      → Panics (CaptureOwner Runner Callback Sample)
  left_by call = call >>= λ (r, o). ok o

  abbrev pub run_call :
      OwnerCall Sample
      → CaptureOwner Runner Callback Sample
      → Panics (CaptureOwner Runner Callback Sample)
  run_call (start_call w) o = left_by (start w o)
  run_call stop_call o = ok (request_stop o)
  run_call (wait_call timeout w) o = left_by (wait_for_completion timeout w o)
  run_call (shutdown_call timeout w) o = left_by (shutdown timeout w o)

  abbrev pub run_calls :
      List (OwnerCall Sample)
      → CaptureOwner Runner Callback Sample
      → Panics (CaptureOwner Runner Callback Sample)
  run_calls [] o = ok o
  run_calls (call ∷ calls) o = run_call call o >>= λ o'. run_calls calls o'

  -- Where a call leaves an owner: its phase has moved on, and the completion it had is kept.
  abbrev pub Lives :
      CaptureOwner Runner Callback Sample
      → OwnerPhase
      → Panics (CaptureOwner Runner Callback Sample)
      → Type 0
  Lives o phase (ok o') =
      (phase' : OwnerPhase) × Fits phase' o'
      × Moves phase phase'
      × ((c : CaptureOwnerCompletion Sample) → o.completion ≡ some c → o'.completion ≡ some c)
  Lives o phase (err message) = ⊥

  Returns-Lives :
      {R : Type 0} (call : Panics (R × CaptureOwner Runner Callback Sample))
      (P : R → CaptureOwner Runner Callback Sample → Type 0)
      (o : CaptureOwner Runner Callback Sample) (phase : OwnerPhase)
      → ((r : R) (o' : CaptureOwner Runner Callback Sample) → P r o' → Lives o phase (ok o'))
      → Returns call P
      → Lives o phase (left_by call)
  Returns-Lives (ok (r, o')) P o phase k h = k r o' h
  Returns-Lives (err message) P o phase k h = absurd h

  keeps_none :
      (o o' : CaptureOwner Runner Callback Sample) (c : CaptureOwnerCompletion Sample)
      → o.completion ≡ none
      → o.completion ≡ some c
      → o'.completion ≡ some c
  keeps_none o o' c h k = cc

  unchanged :
      (o : CaptureOwner Runner Callback Sample) (phase : OwnerPhase)
      → Fits phase o
      → Lives o phase (ok o)
  unchanged o inert h = (inert, h, omega arith, λ c k. k)
  unchanged o live h = (live, h, omega arith, λ c k. k)
  unchanged o done h = (done, h, omega arith, λ c k. k)

  Starts-Lives :
      (o : CaptureOwner Runner Callback Sample)
      (r : Result CaptureOwnerStartError CaptureOwnerStart)
      (o' : CaptureOwner Runner Callback Sample)
      → o.completion ≡ none
      → Starts r o'
      → Lives o inert (ok o')
  Starts-Lives o (ok started) o' e h = (live, h, omega arith, λ c. keeps_none o o' c e)
  Starts-Lives o (ok stop_already_requested) o' e h =
      (done, h, omega arith, λ c. keeps_none o o' c e)
  Starts-Lives o (err x) o' e h = (done, h, omega arith, λ c. keeps_none o o' c e)

  Waits-Lives :
      (o : CaptureOwner Runner Callback Sample)
      (r : Result CaptureOwnerShutdownTimeout (CaptureOwnerCompletion Sample))
      (o' : CaptureOwner Runner Callback Sample)
      → o.completion ≡ none
      → Waits r o'
      → Lives o live (ok o')
  Waits-Lives o (ok c) o' e h = (done, h.0, omega arith, λ c. keeps_none o o' c e)
  Waits-Lives o (err x) o' e h = (live, h, omega arith, λ c. keeps_none o o' c e)

  start-again :
      (w : Surroundings Sample) (o : CaptureOwner Runner Callback Sample)
      → o.start_called ≡ true
      → start w o ≡ ok (err already_started, o)
  unfolding start
  start-again w o h = simp h

  start-Lives :
      (w : Surroundings Sample) (o : CaptureOwner Runner Callback Sample) (phase : OwnerPhase)
      → Fits phase o
      → Lives o phase (left_by (start w o))
  start-Lives w o inert h =
      Returns-Lives (start w o) Starts o inert (λ r o'. Starts-Lives o r o' (h.5))
        (start-inert w o h)
  start-Lives w o live h = rw (start-again w o (h.0)) (unchanged o live h)
  start-Lives w o done h = rw (start-again w o (h.0)) (unchanged o done h)

  wait-inert :
      (timeout : Duration) (w : Surroundings Sample) (o : CaptureOwner Runner Callback Sample)
      → Fits inert o
      → wait_for_completion timeout w o ≡ ok (err (record { timeout = timeout }), o)
  unfolding wait_for_completion
  wait-inert timeout w o h = simp (h.5, h.4)

  wait-Lives :
      (timeout : Duration) (w : Surroundings Sample) (o : CaptureOwner Runner Callback Sample)
      (phase : OwnerPhase)
      → Fits phase o
      → Lives o phase (left_by (wait_for_completion timeout w o))
  wait-Lives timeout w o inert h = rw (wait-inert timeout w o h) (unchanged o inert h)
  wait-Lives timeout w o live h =
      Returns-Lives (wait_for_completion timeout w o) Waits o live
        (λ r o'. Waits-Lives o r o' (h.3)) (wait_for_completion-live timeout w o h)
  wait-Lives timeout w o done h =
      let (c, e) = done-completion o h in
      rw (wait_for_completion-done timeout w o c e) (unchanged o done h)

  stop-Lives :
      (o : CaptureOwner Runner Callback Sample) (phase : OwnerPhase)
      → Fits phase o
      → Lives o phase (ok (request_stop o))
  unfolding request_stop
  stop-Lives o inert h = (inert, h, omega arith, λ c k. k)
  stop-Lives o live h = (live, h, omega arith, λ c k. k)
  stop-Lives o done h = (done, h, omega arith, λ c k. k)

  shutdown-called :
      (timeout : Duration) (w : Surroundings Sample) (o : CaptureOwner Runner Callback Sample)
      → o.start_called ≡ true
      → shutdown timeout w o ≡ wait_for_completion timeout w (request_stop o)
  unfolding shutdown request_stop
  shutdown-called timeout w o h = simp h

  -- The owner that a shutdown before the start leaves.
  abbrev shut : CaptureOwner Runner Callback Sample → CaptureOwner Runner Callback Sample
  shut o = stop_before_start (record o { stop = true; start_called = true })

  shutdown-inert :
      (timeout : Duration) (w : Surroundings Sample) (o : CaptureOwner Runner Callback Sample)
      → o.start_called ≡ false
      → shutdown timeout w o ≡ ok (ok CaptureOwnerCompletion.stopped_before_start, shut o)
  unfolding shutdown
  shutdown-inert timeout w o h = simp h

  shutdown-Lives :
      (timeout : Duration) (w : Surroundings Sample) (o : CaptureOwner Runner Callback Sample)
      (phase : OwnerPhase)
      → Fits phase o
      → Lives o phase (left_by (shutdown timeout w o))
  unfolding request_stop
  shutdown-Lives timeout w o inert h =
      rw (shutdown-inert timeout w o (h.0))
        (done, (refl, h.3, h.4, refl), omega arith, λ c. keeps_none o (shut o) c (h.5))
  shutdown-Lives timeout w o live h =
      rw (shutdown-called timeout w o (h.0)) (wait-Lives timeout w (request_stop o) live h)
  shutdown-Lives timeout w o done h =
      rw (shutdown-called timeout w o (h.0)) (wait-Lives timeout w (request_stop o) done h)

  run_call-Lives :
      (call : OwnerCall Sample) (o : CaptureOwner Runner Callback Sample) (phase : OwnerPhase)
      → Fits phase o
      → Lives o phase (run_call call o)
  run_call-Lives (start_call w) o phase h = start-Lives w o phase h
  run_call-Lives stop_call o phase h = stop-Lives o phase h
  run_call-Lives (wait_call timeout w) o phase h = wait-Lives timeout w o phase h
  run_call-Lives (shutdown_call timeout w) o phase h = shutdown-Lives timeout w o phase h

  Lives-trans :
      (o o' : CaptureOwner Runner Callback Sample) (a b : OwnerPhase)
      (end : Panics (CaptureOwner Runner Callback Sample))
      → Moves a b
      → ((c : CaptureOwnerCompletion Sample) → o.completion ≡ some c → o'.completion ≡ some c)
      → Lives o' b end
      → Lives o a end
  Lives-trans o o' a b (ok o'') m keeps (phase, fits, moves, kept) =
      (phase, fits, omega arith, λ c h. kept c (keeps c h))
  Lives-trans o o' a b (err message) m keeps h = h

  run_calls-on :
      (o : CaptureOwner Runner Callback Sample) (phase : OwnerPhase)
      (next : Panics (CaptureOwner Runner Callback Sample)) (calls : List (OwnerCall Sample))
      → ((o' : CaptureOwner Runner Callback Sample) (phase' : OwnerPhase)
          → Fits phase' o'
          → Lives o' phase' (run_calls calls o'))
      → Lives o phase next
      → Lives o phase (next >>= λ o'. run_calls calls o')
  run_calls-on o phase (err message) calls ih h = h
  run_calls-on o phase (ok o') calls ih (phase', fits, moves, keeps) =
      Lives-trans o o' phase phase' (run_calls calls o') moves keeps (ih o' phase' fits)

  run_calls-Lives :
      (calls : List (OwnerCall Sample)) (o : CaptureOwner Runner Callback Sample)
      (phase : OwnerPhase)
      → Fits phase o
      → Lives o phase (run_calls calls o)
  run_calls-Lives [] o phase h = unchanged o phase h
  run_calls-Lives (call ∷ calls) o phase h =
      run_calls-on o phase (run_call call o) calls (λ o' phase'. run_calls-Lives calls o' phase')
        (run_call-Lives call o phase h)

  Lives-to :
      (o : CaptureOwner Runner Callback Sample) (phase : OwnerPhase)
      (call : Panics (CaptureOwner Runner Callback Sample))
      → Lives o phase call
      → (o' : CaptureOwner Runner Callback Sample) × (phase' : OwnerPhase) × (call ≡ ok o')
        × Fits phase' o'
        × Moves phase phase'
        × ((o.completion ≡ none) ⊎ (o'.completion ≡ o.completion))
  Lives-to o phase (err message) h = absurd h
  Lives-to o phase (ok o') (phase', fits, moves, keeps) = (
    o',
    phase',
    refl,
    fits,
    moves,
    elim (Option-cases o.completion) [ inl e ↦ inl e | inr (c, e) ↦ inr (keeps c e ∙ sym e) ],
  )

  -- No call of an owner panics, in whatever order its client makes them and whatever the operating
  -- system does meanwhile: its phase moves from `inert` to `live`, where its worker and the receiver
  -- of its completion are held, and to `done`, where the worker is joined or was never spawned; it
  -- stays `done`, with the completion that it then has.
  pub run_calls-Fits :
      (calls : List (OwnerCall Sample)) (o : CaptureOwner Runner Callback Sample)
      (phase : OwnerPhase)
      → Fits phase o
      → (o' : CaptureOwner Runner Callback Sample) × (phase' : OwnerPhase) × (run_calls calls o
          ≡ ok o')
        × Fits phase' o'
        × Moves phase phase'
        × ((o.completion ≡ none) ⊎ (o'.completion ≡ o.completion))
  run_calls-Fits calls o phase h =
      Lives-to o phase (run_calls calls o) (run_calls-Lives calls o phase h)
