-- ===== src/Scheduling/Batches.antt =====
-- The whole of `push_batch`, from one state between two pushes to the next.
use resonance_signal.Base.{
  ℕ, ◌*◌, ◌<◌, ◌≤◌, ◌≡◌, refl, Bool, true, false, Option, none, some, List, [], ◌∷◌, not, ◌||◌, leb,
  option_eq, Result, ok, try, try-cases, ok_or, ensure, ensure-false, checked_mul, if◌then◌else◌,
  Eq, beq, arith,
}
use resonance_signal.Signal.{channel_count, FrameTimestamp, AudioFrame}
use resonance_signal.Scheduling.{
  SchedulingError, window_frame_count, format_changed_within_stream, input_frame_count_overflow,
  oversized_input,
}
use resonance_signal.Scheduling.Time.{window_frame_count_iff}
use resonance_signal.Scheduling.Scheduler.{
  StreamBoundary, SchedulingResult, WindowScheduler, Failure, error, raised, invalidate,
  buffered_frame_count, input_frame_count, check_frames,
}
use resonance_signal.Scheduling.Push.{
  Format, emit, stream_changed, format_changed, entered, boundary, push_format, push_batch,
}
use resonance_signal.Scheduling.Windows.{ValidFormat}
use resonance_signal.Scheduling.Emission.{emit-Emits}
use resonance_signal.Scheduling.Continuity.{WholeFrames, Checked, check_frames-Checked}
use resonance_signal.Scheduling.Pushes.{
  raised-IsError, raised_ok, ok_or-IsError, ensure-IsError, SchedulerInv, invalidate-SchedulerInv,
  buffered_frame_count-error,
}
use resonance_signal.Scheduling.Outcome.{
  Ready-entered, PushEnd, refused, step-PushEnd, finished-PushEnd,
}

or_true : (b : Bool) → b || true ≡ true
or_true true = refl
or_true false = refl

passed_false :
    {Sample : Type 0} (b : Bool) (e : SchedulingError Sample) (u : Unit {0})
    → raised (ensure (not b) e) ≡ ok u
    → b ≡ false
passed_false b e u h = ensure-false b e u (raised_ok _ u h)

-- The test that the input is not too large.
input_fits :
    {E : Type 0} (input maximum frames most : ℕ) (e e' : E) (u : Unit {0})
    → ok_or (checked_mul frames most) e ≡ ok maximum
    → ensure (leb input maximum) e' ≡ ok u
    → input ≤ frames * most
input_fits input maximum frames most e e' u h k = ground arith

window_frame_count-ValidFormat :
    {Stream Sample : Type 0} (g : Format Stream) (duration_ns : ℕ)
    → window_frame_count {Sample = Sample} duration_ns g.sample_rate ≡ ok g.window_frames
    → 0 < channel_count g.channels
    → ValidFormat g
window_frame_count-ValidFormat {Sample = Sample} g duration_ns h k =
    let (low, high, some_frames, bounded, fits) =
      (window_frame_count_iff {Sample = Sample} duration_ns g.sample_rate g.window_frames).0 h in
    record { frames = some_frames; bounded = bounded; channels = k }

module _ {Stream Sample : Type 0} ⦃eq : Eq Stream⦄ (is_finite : Sample → Bool) where
  -- The frames have passed all the checks.
  checked-PushEnd :
      (g : Format Stream) (frame : AudioFrame Sample) (rest : List (AudioFrame Sample))
      (s : WindowScheduler Stream Sample) (next : FrameTimestamp) (input : ℕ)
      (edge : Option (StreamBoundary Stream)) (expected : Option FrameTimestamp)
      → ValidFormat g
      → window_frame_count {Sample = Sample} s.config.target_window_duration g.sample_rate
        ≡ ok g.window_frames
      → SchedulerInv is_finite s
      → option_eq beq s.invalid_stream (some g.stream_identity) ≡ false
      → format_changed g.stream_identity g.sample_rate g.channels s ≡ false
      → input_frame_count 0 (frame ∷ rest) ≡ ok input
      → input ≤ g.window_frames * s.config.max_windows_per_push
      → expected ≡ some next
      → Checked is_finite g
          (if stream_changed g.stream_identity s then none else s.expected_next)
          (frame ∷ rest)
          next
      → PushEnd is_finite g (frame ∷ rest) frame.window.start s (
          let emitted = emit is_finite g (frame ∷ rest) [] (entered g frame.window.start s) in
          try emitted.0 emitted.1 λ windows. (
            ok (record { windows = windows; stream_boundary = edge }),
            record emitted.1 { expected_next = expected },
          ))
  checked-PushEnd g frame rest s next input edge expected v computed inv usable same counted fits
        is_next passed =
      let (h, at, n, ready) =
        Ready-entered is_finite g s frame rest next v computed inv usable same passed in
      rw is_next (
        finished-PushEnd is_finite h g (frame ∷ rest) frame.window.start next s _ at n input edge _
          v computed counted fits ready
          (emit-Emits is_finite g at n next.frame_index [] (frame ∷ rest) _ v ready.buffers
            ready.small ready.follow))

  push_format-PushEnd :
      (g : Format Stream) (frame : AudioFrame Sample) (rest : List (AudioFrame Sample))
      (s : WindowScheduler Stream Sample)
      → ValidFormat g
      → window_frame_count {Sample = Sample} s.config.target_window_duration g.sample_rate
        ≡ ok g.window_frames
      → SchedulerInv is_finite s
      → option_eq beq s.invalid_stream (some g.stream_identity) ≡ false
      → WholeFrames is_finite (frame ∷ rest)
      → PushEnd is_finite g
          (frame ∷ rest)
          frame.window.start
          s
          (push_format is_finite g frame rest s)
  unfolding push_format
  push_format-PushEnd g frame rest s v computed inv usable whole =
      let all = frame ∷ rest in
      let start = frame.window.start in
      let halted = invalidate-SchedulerInv is_finite g.stream_identity s in
      let format =
        ensure (not (format_changed g.stream_identity g.sample_rate g.channels s))
          format_changed_within_stream in
      let counted = input_frame_count 0 (frame ∷ rest) in
      let most = checked_mul g.window_frames s.config.max_windows_per_push in
      let frames =
        check_frames g.sample_rate g.channels
          (if stream_changed g.stream_identity s then none else s.expected_next) (frame ∷ rest) in
      step-PushEnd is_finite g all start s (invalidate g.stream_identity s) (raised format) _ halted
        (raised-IsError format)
        λ u same.
          step-PushEnd is_finite g all start s s (raised counted) _ inv (raised-IsError counted)
            λ input is_input.
              step-PushEnd is_finite g all start s s (ok_or most (error input_frame_count_overflow))
                _ inv (ok_or-IsError most _)
                λ maximum is_most.
                  step-PushEnd is_finite g all start s s
                    (ensure (leb input maximum) (error (oversized_input input maximum))) _ inv
                    (ensure-IsError (leb input maximum) _)
                    λ ok_input fits.
                      step-PushEnd is_finite g all start s (invalidate g.stream_identity s)
                        (raised frames) _ halted (raised-IsError frames)
                        λ expected h.
                          let (next, is_next, passed) =
                            check_frames-Checked is_finite g _ expected (frame ∷ rest) whole
                              (or_true _) (raised_ok frames expected h) in
                          step-PushEnd is_finite g all start s s (buffered_frame_count s) _ inv
                            (λ e h'. absurd (buffered_frame_count-error is_finite s e inv h'))
                            λ discarded _.
                              checked-PushEnd g frame rest s next input
                                (boundary g.stream_identity discarded s) expected v computed inv
                                usable (passed_false _ _ u same) (raised_ok counted input is_input)
                                (input_fits input maximum _ _ _ _ ok_input is_most fits) is_next
                                passed

  -- What a push of frames does, for the computed length of its windows.
  abbrev pub Pushes :
      Stream
      → List (AudioFrame Sample)
      → WindowScheduler Stream Sample
      → Result (Failure Sample) (SchedulingResult Stream Sample) × WindowScheduler Stream Sample
      → Type 0
  Pushes stream_identity [] s r = r ≡ (ok (record { windows = []; stream_boundary = none }), s)
  Pushes stream_identity (frame ∷ rest) s r =
      (window_frames : ℕ) × PushEnd is_finite
        (record {
          stream_identity = stream_identity;
          sample_rate = frame.sample_rate;
          channels = frame.channels;
          window_frames = window_frames;
        })
        (frame ∷ rest) frame.window.start s r

  -- From a consistent state, a push of whole frames that is accepted returns full windows of the
  -- computed length with consecutive frame indexes, at most `max_windows_per_push`; their samples and
  -- then those that stay, less than a window, are the samples that waited (none where a stream begins)
  -- and then those of the frames. The state is consistent after it, and after every error but a
  -- timestamp overflow; a push does not panic and its loops end. The empty push changes nothing.
  pub push_batch-Pushes :
      (stream_identity : Stream) (frames : List (AudioFrame Sample))
      (s : WindowScheduler Stream Sample)
      → SchedulerInv is_finite s
      → WholeFrames is_finite frames
      → Pushes stream_identity frames s (push_batch is_finite stream_identity frames s)
  unfolding push_batch
  push_batch-Pushes stream_identity [] s inv whole = refl
  push_batch-Pushes stream_identity (frame ∷ rest) s inv whole =
      let P = Pushes stream_identity (frame ∷ rest) s in
      try-cases P _ _ _ (λ e h. (0, refused is_finite _ _ _ s s e inv (ensure-IsError _ _ e h)))
        λ u h.
          try-cases P _ _ _ (λ e h'. (0, refused is_finite _ _ _ s s e inv (raised-IsError _ e h')))
            λ n h'.
              let computed = raised_ok _ n h' in
              (
                n,
                push_format-PushEnd _ frame rest s
                    (window_frame_count-ValidFormat _ s.config.target_window_duration computed
                      whole.0.channels)
                    computed inv (ensure-false _ _ u h) whole,
              )
