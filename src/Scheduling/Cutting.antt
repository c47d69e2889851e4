-- ===== src/Scheduling/Cutting.antt =====
-- The loop that cuts windows out of the buffer.
use resonance_signal.Base.{
  ℕ, zero, suc, ◌+◌, ◌*◌, ◌-◌, ◌≤◌, ◌<◌, ◌≡◌, refl, sym, ap, ◌∙◌, Bool, true, false, Option, none,
  some, List, [], ◌∷◌, ◌++◌, append-nil, append_assoc, length, length-take, length-drop,
  take-append-drop, take, drop, is_some, leb, ok_or, try, Result, ok, err, tests, arith,
}
use mathlib.Core.Path.{subst}
use native.Mathlib.Decide.{dec_lt}
use resonance_signal.Signal.{
  channel_count, FrameTimestamp, AudioFrame, audio_frame, SignalDataError,
}
use resonance_signal.Signal.Frames.{AllFinite-take, AllFinite-drop, AllFinite, audio_frame_iff}
use resonance_signal.Scheduling.{invalid_signal_data, timestamp_overflow, timestamp_for_frame_index}
use resonance_signal.Scheduling.Scheduler.{
  ScheduledWindow, WindowScheduler, Failure, error, panic, lift,
}
use resonance_signal.Scheduling.Push.{
  Format, samples_per_window, next_start, cut_from, cut_window, cut_windows,
}
use resonance_signal.Scheduling.Windows.{
  ValidFormat, window_samples, FullWindow, WindowsFrom, SameStream, unchanged, SameStream-trans,
  StartsAt, Buffers,
}

module _ {Stream Sample : Type 0} (is_finite : Sample → Bool) (f : Format Stream) where
  -- What is known of the start of what is left.
  abbrev NextFits : ℕ → List Sample → Result (Failure Sample) (Option FrameTimestamp) → Type 0
  NextFits at samples (ok next) = StartsAt at samples next
  NextFits at samples (err e) = e ≡ error timestamp_overflow

  next_start-NextFits :
      (start : FrameTimestamp) (s : WindowScheduler Stream Sample)
      → is_some s.timeline_origin ≡ true
      → NextFits (start.frame_index + f.window_frames) s.samples (next_start f start s)
  unfolding next_start timestamp_for_frame_index
  next_start-NextFits start s o = ground arith

  -- The frame of a window is constructed.
  audio_frame-window :
      (start : FrameTimestamp) (samples : List Sample)
      → ValidFormat f
      → length samples ≡ samples_per_window f
      → AllFinite is_finite samples
      → audio_frame is_finite start f.sample_rate f.channels samples
        ≡ ok (record {
          window = record { start = start; frame_count = f.window_frames };
          sample_rate = f.sample_rate;
          channels = f.channels;
          samples = samples;
        })
  audio_frame-window start samples v len fin =
      (audio_frame_iff is_finite start f.sample_rate f.channels samples _ v.channels).1 (record {
        start = refl;
        sample_rate = refl;
        channels = refl;
        samples = refl;
        whole = len;
        some_frames = v.frames;
        bounded = v.bounded;
        finite = fin;
      })

  -- The effect of a round: a full window is cut off, or a timestamp overflows.
  abbrev CutsOne :
      ℕ
      → ℕ
      → WindowScheduler Stream Sample
      → Result (Failure Sample) (ScheduledWindow Stream Sample) × WindowScheduler Stream Sample
      → Type 0
  CutsOne at n s (ok w, t) =
      FullWindow f at w
      × (w.frame.samples ++ t.samples ≡ s.samples)
      × Buffers is_finite f (at + f.window_frames) (n - f.window_frames) t
      × SameStream s t
  CutsOne at n s (err e, t) = e ≡ error timestamp_overflow

  cut_end-CutsOne :
      (at n : ℕ) (s s' : WindowScheduler Stream Sample) (w : ScheduledWindow Stream Sample)
      (r : Result (Failure Sample) (Option FrameTimestamp))
      → FullWindow f at w
      → w.frame.samples ++ s'.samples ≡ s.samples
      → length s'.samples ≡ (n - f.window_frames) * channel_count f.channels
      → AllFinite is_finite s'.samples
      → is_some s'.timeline_origin ≡ true
      → SameStream s s'
      → NextFits (at + f.window_frames) s'.samples r
      → CutsOne at n s (try r s' λ next. (ok w, record s' { buffer_start = next }))
  cut_end-CutsOne at n s s' w (ok next) full all len fin o same fits = (
    full,
    all,
    record { whole = len; finite = fin; start = fits; origin = o },
    record {
      config = same.config;
      active_stream = same.active_stream;
      invalid_stream = same.invalid_stream;
      sample_rate = same.sample_rate;
      channels = same.channels;
      timeline_origin = same.timeline_origin;
      expected_next = same.expected_next;
    },
  )
  cut_end-CutsOne at n s s' w (err e) full all len fin o same fits = fits

  -- Whole frames, counted in samples.
  whole_le : (m n c : ℕ) → m ≤ n → m * c ≤ n * c
  whole_le m n c h = grind arith

  pub whole_lt : (m n c : ℕ) → m < n → 0 < c → m * c < n * c
  whole_lt m n c h k = grind arith

  at_least : (m n c : ℕ) → 0 < c → m * c ≤ n * c → m ≤ n
  at_least m n c k h = elim (dec_lt n m) [
    | yes p ↦ absurd (omega (arith, whole_lt n m c p k))
    | no p ↦ omega arith
  ]

  whole_pos : (n c : ℕ) → 0 < n → 0 < c → 0 < n * c
  whole_pos n c h k = grind arith

  whole_rest : (m n c : ℕ) → m ≤ n → n * c - m * c ≡ (n - m) * c
  whole_rest m n c h = grind arith

  -- A buffer that is not empty has a start.
  buffer_start_lem :
      (at : ℕ) (samples : List Sample) (o : Option FrameTimestamp)
      → 0 < length samples
      → StartsAt at samples o
      → (t : FrameTimestamp) × (o ≡ some t) × (t.frame_index ≡ at)
  buffer_start_lem at [] o h st = absurd (omega arith)
  buffer_start_lem at (x ∷ samples) none h st = absurd st
  buffer_start_lem at (x ∷ samples) (some t) h st = (t, refl, st)

  -- The frame is constructed, and the round goes on.
  framed-CutsOne :
      (at n : ℕ) (s s' : WindowScheduler Stream Sample)
      (r : Result (SignalDataError Sample) (AudioFrame Sample)) (frame : AudioFrame Sample)
      (k : AudioFrame Sample
        → Result (Failure Sample) (ScheduledWindow Stream Sample) × WindowScheduler Stream Sample)
      → r ≡ ok frame
      → CutsOne at n s (k frame)
      → CutsOne at n s (try (lift invalid_signal_data r) s' k)
  framed-CutsOne at n s s' r frame k e h = rw e h

  started-CutsOne :
      (at n : ℕ) (s s' : WindowScheduler Stream Sample) (o : Option FrameTimestamp)
      (start : FrameTimestamp)
      (k : FrameTimestamp
        → Result (Failure Sample) (ScheduledWindow Stream Sample) × WindowScheduler Stream Sample)
      → o ≡ some start
      → CutsOne at n s (k start)
      → CutsOne at n s (try (ok_or o panic) s' k)
  started-CutsOne at n s s' o start k e h = rw e h

  cut_from-CutsOne :
      (at n : ℕ) (start : FrameTimestamp) (s : WindowScheduler Stream Sample)
      → ValidFormat f
      → Buffers is_finite f at n s
      → f.window_frames ≤ n
      → start.frame_index ≡ at
      → CutsOne at n s (cut_from is_finite f start s)
  unfolding cut_from
  cut_from-CutsOne at n start s v b enough i =
      let s' = record s { samples = drop (samples_per_window f) s.samples } in
      let len : length (take (samples_per_window f) s.samples) ≡ samples_per_window f = omega (
        arith,
        length-take (samples_per_window f) s.samples,
        b.whole,
        whole_le f.window_frames n (channel_count f.channels) enough,
      ) in
      framed-CutsOne at n s s' _ _ _
        (audio_frame-window start (take (samples_per_window f) s.samples) v len
          (AllFinite-take is_finite (samples_per_window f) s.samples b.finite))
        (cut_end-CutsOne at n s s' _ (next_start f start s')
          (record {
            stream_identity = refl;
            sample_rate = refl;
            channels = refl;
            frame_count = refl;
            frame_index = i;
            full = len;
          })
          (take-append-drop (samples_per_window f) s.samples)
          (omega (
            arith,
            length-drop (samples_per_window f) s.samples,
            b.whole,
            whole_rest f.window_frames n (channel_count f.channels) enough,
          ))
          (AllFinite-drop is_finite (samples_per_window f) s.samples b.finite) b.origin
          (record {
            config = refl;
            active_stream = refl;
            invalid_stream = refl;
            sample_rate = refl;
            channels = refl;
            timeline_origin = refl;
            expected_next = refl;
          })
          (subst (λ k. NextFits (k + f.window_frames) s'.samples (next_start f start s')) i
            (next_start-NextFits start s' b.origin)))

  cut_window-CutsOne :
      (at n : ℕ) (s : WindowScheduler Stream Sample)
      → ValidFormat f
      → Buffers is_finite f at n s
      → f.window_frames ≤ n
      → CutsOne at n s (cut_window is_finite f s)
  unfolding cut_window
  cut_window-CutsOne at n s v b enough =
      let pos = whole_pos n (channel_count f.channels) (omega (arith, v.frames)) v.channels in
      let (start, e, i) =
        buffer_start_lem at s.samples s.buffer_start (omega (arith, b.whole, pos)) b.start in
      started-CutsOne at n s s s.buffer_start start _ e (cut_from-CutsOne at n start s v b enough i)

  -- The effect of the loop: full windows are cut off until less than one is left.
  abbrev pub Cuts :
      ℕ
      → ℕ
      → List (ScheduledWindow Stream Sample)
      → WindowScheduler Stream Sample
      → Result (Failure Sample) (List (ScheduledWindow Stream Sample))
        × WindowScheduler Stream Sample
      → Type 0
  Cuts at n windows s (ok windows', t) =
      (new : List (ScheduledWindow Stream Sample)) × (m : ℕ) × (to : ℕ) × (windows'
        ≡ windows ++ new)
      × WindowsFrom f at new to
      × (window_samples new ++ t.samples ≡ s.samples)
      × Buffers is_finite f to m t
      × (m < f.window_frames)
      × (to + m ≡ at + n)
      × SameStream s t
  Cuts at n windows s (err e, t) = e ≡ error timestamp_overflow

  -- A first window, and the cuts after it.
  window-Cuts :
      (at n : ℕ) (windows : List (ScheduledWindow Stream Sample))
      (w : ScheduledWindow Stream Sample) (s t : WindowScheduler Stream Sample)
      (r : Result (Failure Sample) (List (ScheduledWindow Stream Sample))
        × WindowScheduler Stream Sample)
      → f.window_frames ≤ n
      → CutsOne at n s (ok w, t)
      → Cuts (at + f.window_frames) (n - f.window_frames) (windows ++ w ∷ []) t r
      → Cuts at n windows s r
  window-Cuts at n windows w s t (err e, u) enough one rest = rest
  window-Cuts at n windows w s t (ok windows', u) enough (full, all, _, same) rest =
      let (new, m, to, e, from, kept, b, small, count, same') = rest in
      (
        w ∷ new,
        m,
        to,
        e ∙ append_assoc windows (w ∷ []) new,
        (full, from),
        append_assoc w.frame.samples (window_samples new) u.samples
            ∙ ap (λ xs. w.frame.samples ++ xs) kept
            ∙ all,
        b,
        small,
        omega arith,
        SameStream-trans s t u same same',
      )

  round-Cuts :
      (at n : ℕ) (windows : List (ScheduledWindow Stream Sample))
      (s : WindowScheduler Stream Sample)
      (one : Result (Failure Sample) (ScheduledWindow Stream Sample)
        × WindowScheduler Stream Sample)
      (k : ScheduledWindow Stream Sample
        → Result (Failure Sample) (List (ScheduledWindow Stream Sample))
          × WindowScheduler Stream Sample)
      → f.window_frames ≤ n
      → CutsOne at n s one
      → ((w : ScheduledWindow Stream Sample)
          → Buffers is_finite f (at + f.window_frames) (n - f.window_frames) one.1
          → Cuts (at + f.window_frames) (n - f.window_frames) (windows ++ w ∷ []) one.1 (k w))
      → Cuts at n windows s (try one.0 one.1 k)
  round-Cuts at n windows s (err e, t) k enough one rest = one
  round-Cuts at n windows s (ok w, t) k enough one rest =
      window-Cuts at n windows w s t (k w) enough one (rest w one.2)

  -- Fewer samples than a window's are fewer frames.
  fewer_frames : (m n c : ℕ) → n * c < m * c → n < m
  fewer_frames m n c h = elim (dec_lt n m) [
    | yes p ↦ p
    | no p ↦ absurd (omega (arith, whole_le m n c (omega arith)))
  ]

  tested-Cuts :
      (at n : ℕ) (windows : List (ScheduledWindow Stream Sample))
      (s : WindowScheduler Stream Sample) (b : Bool)
      (x y : Result (Failure Sample) (List (ScheduledWindow Stream Sample))
        × WindowScheduler Stream Sample)
      → (b ≡ true → Cuts at n windows s x)
      → (b ≡ false → Cuts at n windows s y)
      → Cuts at n windows s (elim b [ true ↦ x | false ↦ y ])
  tested-Cuts at n windows s true x y h k = h refl
  tested-Cuts at n windows s false x y h k = k refl

  -- Fuel above the number of buffered frames is enough: from a buffer of whole frames the loop ends with
  -- less than a window left, the windows that it adds are full and consecutive and hold the samples that
  -- it takes, and it changes nothing else of the stream; or a timestamp overflows.
  pub cut_windows-Cuts :
      (fuel at n : ℕ) (windows : List (ScheduledWindow Stream Sample))
      (s : WindowScheduler Stream Sample)
      → ValidFormat f
      → Buffers is_finite f at n s
      → n < fuel
      → Cuts at n windows s (cut_windows is_finite fuel f windows s)
  unfolding cut_windows
  cut_windows-Cuts zero at n windows s v b h = absurd (omega arith)
  cut_windows-Cuts (suc fuel) at n windows s v b h =
      tested-Cuts at n windows s (leb (samples_per_window f) (length s.samples)) _ _
        (λ full.
          let enough : f.window_frames ≤ n =
            at_least f.window_frames n (channel_count f.channels) v.channels
              (omega (tests, b.whole)) in
          round-Cuts at n windows s (cut_window is_finite f s) _ enough
            (cut_window-CutsOne at n s v b enough)
            (λ w b'.
              cut_windows-Cuts fuel (at + f.window_frames) (n - f.window_frames) (windows ++ w ∷ [])
                (cut_window is_finite f s).1 v b' (omega (arith, v.frames))))
        (λ part. (
          [],
          n,
          at,
          sym (append-nil windows),
          refl,
          refl,
          b,
          fewer_frames f.window_frames n (channel_count f.channels) (ground (arith, b.whole)),
          refl,
          unchanged s,
        ))
