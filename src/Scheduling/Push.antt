-- ===== src/Scheduling/Push.antt =====
-- crates/resonance-core/src/scheduling.rs: the loops that cut windows out of the buffer, and the
-- whole of `push_batch`.
use resonance_signal.Base.{
  ℕ, zero, suc, ◌*◌, Bool, true, false, Option, none, some, List, [], ◌∷◌, ◌++◌, length, take, drop,
  not, ◌&&◌, ◌||◌, ◌==◌, leb, is_some, is_some_and, option_eq, Result, ok, err, try, ok_or, ensure,
  checked_add, checked_mul, if◌then◌else◌, Eq, beq,
}
use resonance_signal.Signal.{
  SampleRate, ChannelLayout, channel_count, FrameTimestamp, AudioFrame, audio_frame,
}
use resonance_signal.Scheduling.{
  input_frame_count_overflow, oversized_input, stream_identity_invalidated,
  format_changed_within_stream, timestamp_overflow, invalid_signal_data, window_frame_count,
  timestamp_for_frame_index,
}
use resonance_signal.Scheduling.Scheduler.{
  layout_eq, ScheduledWindow, StreamBoundary, SchedulingResult, WindowScheduler, Failure, error,
  panic, out_of_fuel, lift, raised, clear_stream_state, invalidate, buffered_frame_count,
  input_frame_count, check_frames,
}

abbrev pub number_eq : ℕ → ℕ → Bool
number_eq m n = m == n

abbrev pub is_empty : {A : Type 0} → List A → Bool
is_empty [] = true
is_empty (x ∷ xs) = false

-- What the loops know of the stream that is pushed.
pub record Format (Stream : Type 0) : Type 0 where
  pub stream_identity : Stream
  pub sample_rate : SampleRate
  pub channels : ChannelLayout
  pub window_frames : ℕ

abbrev pub samples_per_window : {Stream : Type 0} → Format Stream → ℕ
samples_per_window f = f.window_frames * channel_count f.channels

module _ {Stream Sample : Type 0} where
  -- The start of the buffer after a window that began at `start`.
  unfoldable pub next_start :
      Format Stream
      → FrameTimestamp
      → WindowScheduler Stream Sample
      → Result (Failure Sample) (Option FrameTimestamp)
  next_start f start s =
      if is_empty s.samples then ok none else elim (checked_add start.frame_index f.window_frames) [
        | none ↦ err (error timestamp_overflow)
        | some index ↦ elim s.timeline_origin [
          | none ↦ err panic
          | some origin ↦
              elim (timestamp_for_frame_index {Sample = Sample} origin index f.sample_rate) [
                | ok t ↦ ok (some t)
                | err e ↦ err (error e)
              ]
        ]
      ]

  -- A frame goes to the end of the buffer, which it starts if there was none.
  unfoldable pub accept :
      AudioFrame Sample → WindowScheduler Stream Sample → WindowScheduler Stream Sample
  accept frame s = record s {
    buffer_start = if is_empty s.samples then some frame.window.start else s.buffer_start;
    samples = s.samples ++ frame.samples;
  }

module _ {Stream Sample : Type 0} (is_finite : Sample → Bool) where
  -- One round of the loop, where the buffer starts at `start`: the scheduler without the samples of
  -- the window, then the frame of the window, then the start of what is left.
  unfoldable pub cut_from :
      Format Stream
      → FrameTimestamp
      → WindowScheduler Stream Sample
      → Result (Failure Sample) (ScheduledWindow Stream Sample) × WindowScheduler Stream Sample
  cut_from f start s =
      let s' = record s { samples = drop (samples_per_window f) s.samples } in
      try
        (lift invalid_signal_data (
          audio_frame is_finite start f.sample_rate f.channels
            (take (samples_per_window f) s.samples)))
        s'
        λ output. try (next_start f start s') s' λ next. (
          ok (record { stream_identity = f.stream_identity; frame = output }),
          record s' { buffer_start = next },
        )

  unfoldable pub cut_window :
      Format Stream
      → WindowScheduler Stream Sample
      → Result (Failure Sample) (ScheduledWindow Stream Sample) × WindowScheduler Stream Sample
  cut_window f s = try (ok_or s.buffer_start panic) s λ start. cut_from f start s

  -- `while self.samples.len() >= samples_per_window`
  unfoldable pub cut_windows :
      ℕ
      → Format Stream
      → List (ScheduledWindow Stream Sample)
      → WindowScheduler Stream Sample
      → Result (Failure Sample) (List (ScheduledWindow Stream Sample))
        × WindowScheduler Stream Sample
  cut_windows zero f windows s = (err out_of_fuel, s)
  cut_windows (suc fuel) f windows s = elim (leb (samples_per_window f) (length s.samples)) [
    | true ↦
        try (cut_window f s).0 (cut_window f s).1
          λ window. cut_windows fuel f (windows ++ window ∷ []) (cut_window f s).1
    | false ↦ (ok windows, s)
  ]

  -- The loop over the frames.
  unfoldable pub emit :
      Format Stream
      → List (AudioFrame Sample)
      → List (ScheduledWindow Stream Sample)
      → WindowScheduler Stream Sample
      → Result (Failure Sample) (List (ScheduledWindow Stream Sample))
        × WindowScheduler Stream Sample
  emit f [] windows s = (ok windows, s)
  emit f (frame ∷ frames) windows s =
      let accepted = accept frame s in
      let cut = cut_windows (suc (length accepted.samples)) f windows accepted in
      try cut.0 cut.1 λ windows'. emit f frames windows' cut.1

module _ {Stream Sample : Type 0} ⦃eq : Eq Stream⦄ where
  unfoldable pub stream_changed : Stream → WindowScheduler Stream Sample → Bool
  stream_changed stream_identity s =
      is_some_and s.active_stream (λ active. not (beq active stream_identity))

  -- The active stream has another format.
  unfoldable pub format_changed :
      Stream → SampleRate → ChannelLayout → WindowScheduler Stream Sample → Bool
  unfolding stream_changed
  format_changed stream_identity sample_rate channels s =
      not (stream_changed stream_identity s)
      && (is_some s.active_stream
          && (not (option_eq number_eq s.sample_rate (some sample_rate))
              || not (option_eq layout_eq s.channels (some channels))))

  -- The scheduler that the frames go to: a new stream starts from nothing.
  unfoldable pub entered :
      Format Stream → FrameTimestamp → WindowScheduler Stream Sample → WindowScheduler Stream Sample
  unfolding stream_changed
  entered f start s =
      if stream_changed f.stream_identity s || not (is_some s.active_stream)
      then record (clear_stream_state s) {
        active_stream = some f.stream_identity;
        invalid_stream = none;
        sample_rate = some f.sample_rate;
        channels = some f.channels;
        timeline_origin = some start;
      }
      else s

  unfoldable pub boundary :
      Stream → ℕ → WindowScheduler Stream Sample → Option (StreamBoundary Stream)
  boundary stream_identity discarded s = elim s.active_stream [
    | none ↦ none
    | some active ↦
        if beq active stream_identity
        then none
        else some (record {
          previous_stream = active;
          current_stream = stream_identity;
          discarded_partial_frames = discarded;
        })
  ]

module _ {Stream Sample : Type 0} ⦃eq : Eq Stream⦄ (is_finite : Sample → Bool) where
  -- From the computed length of a window on.
  unfoldable pub push_format :
      Format Stream
      → AudioFrame Sample
      → List (AudioFrame Sample)
      → WindowScheduler Stream Sample
      → Result (Failure Sample) (SchedulingResult Stream Sample) × WindowScheduler Stream Sample
  push_format f first rest s =
      let frames = first ∷ rest in
      try
        (raised (
          ensure (not (format_changed f.stream_identity f.sample_rate f.channels s))
            format_changed_within_stream))
        (invalidate f.stream_identity s)
        λ _. try (raised (input_frame_count 0 frames)) s λ input.
          try
            (ok_or (checked_mul f.window_frames s.config.max_windows_per_push)
              (error input_frame_count_overflow))
            s
            λ maximum.
              try (ensure (leb input maximum) (error (oversized_input input maximum))) s λ _.
                try
                  (raised (
                    check_frames f.sample_rate f.channels
                      (if stream_changed f.stream_identity s then none else s.expected_next)
                      frames))
                  (invalidate f.stream_identity s)
                  λ expected. try (buffered_frame_count s) s λ discarded.
                    let emitted = emit is_finite f frames [] (entered f first.window.start s) in
                    try emitted.0 emitted.1 λ windows. (
                      ok (record {
                        windows = windows;
                        stream_boundary = boundary f.stream_identity discarded s;
                      }),
                      record emitted.1 { expected_next = expected },
                    )

  unfoldable pub push_batch :
      Stream
      → List (AudioFrame Sample)
      → WindowScheduler Stream Sample
      → Result (Failure Sample) (SchedulingResult Stream Sample) × WindowScheduler Stream Sample
  push_batch stream_identity [] s = (ok (record { windows = []; stream_boundary = none }), s)
  push_batch stream_identity (first ∷ rest) s =
      try
        (ensure (not (option_eq beq s.invalid_stream (some stream_identity)))
          (error stream_identity_invalidated))
        s
        λ _.
          try (raised (window_frame_count s.config.target_window_duration first.sample_rate)) s
            λ frames.
              push_format
                (record {
                  stream_identity = stream_identity;
                  sample_rate = first.sample_rate;
                  channels = first.channels;
                  window_frames = frames;
                })
                first rest s

  -- `push`
  unfoldable pub push :
      Stream
      → AudioFrame Sample
      → WindowScheduler Stream Sample
      → Result (Failure Sample) (SchedulingResult Stream Sample) × WindowScheduler Stream Sample
  push stream_identity frame s = push_batch stream_identity (frame ∷ []) s
