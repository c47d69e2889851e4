-- ===== src/Scheduling/Outcome.antt =====
-- What the loops over the frames of a push leave, where the frames have passed its checks.
use resonance_signal.Base.{
  ℕ, ◌+◌, ◌*◌, ◌<◌, ◌≤◌, ◌≡◌, ◌⊎◌, refl, sym, ap, ◌∙◌, inl, inr, Bool, false, Bool-cases, Option,
  none, some, List, [], ◌∷◌, ◌++◌, length, option_eq, Result, ok, err, try, try-cases,
  if◌then◌else◌, Eq, beq, arith,
}
use mathlib.Core.Path.{subst}
use native.Mathlib.Decide.{dec_lt}
use native.Mathlib.Nat.{add-mul}
use resonance_signal.Signal.{channel_count, FrameTimestamp, AudioFrame}
use resonance_signal.Scheduling.{window_frame_count, timestamp_overflow}
use resonance_signal.Scheduling.Scheduler.{
  StreamBoundary, ScheduledWindow, SchedulingResult, WindowScheduler, Failure, error, panic,
  out_of_fuel, input_frame_count,
}
use resonance_signal.Scheduling.Push.{
  Format, samples_per_window, stream_changed, format_changed, entered,
}
use resonance_signal.Scheduling.Windows.{
  ValidFormat, window_samples, WindowsFrom, SameStream, Buffers,
}
use resonance_signal.Scheduling.Cutting.{whole_lt}
use resonance_signal.Scheduling.Emission.{frame_samples, FramesFrom, Emits}
use resonance_signal.Scheduling.Continuity.{Checked, Expects}
use resonance_signal.Scheduling.Pushes.{IsError, OnStream, SchedulerInv}
use resonance_signal.Scheduling.Entering.{Holds, is_fresh, carried, Ready, fresh-Ready, kept-Ready}

-- So many windows are cut out of the frames that wait and those that come.
windows_bound :
    (windows wait frames input most left : ℕ)
    → wait < frames
    → input ≤ frames * most
    → windows * frames + left ≡ wait + input
    → windows ≤ most
windows_bound windows wait frames input most left h k e = elim (dec_lt most windows) [
  | yes p ↦ absurd (grind arith)
  | no p ↦ omega arith
]

module _ {Stream Sample : Type 0} ⦃eq : Eq Stream⦄ (is_finite : Sample → Bool) where
  expected_kept :
      (g : Format Stream) (s : WindowScheduler Stream Sample)
      → is_fresh is_finite g s ≡ false
      → (if stream_changed g.stream_identity s then none else s.expected_next) ≡ s.expected_next
  expected_kept g s e = ground arith

  -- Whether a push goes on with a stream or begins one, its frames extend what waits for them.
  pub Ready-entered :
      (g : Format Stream) (s : WindowScheduler Stream Sample) (frame : AudioFrame Sample)
      (rest : List (AudioFrame Sample)) (last : FrameTimestamp)
      → ValidFormat g
      → window_frame_count {Sample = Sample} s.config.target_window_duration g.sample_rate
        ≡ ok g.window_frames
      → SchedulerInv is_finite s
      → option_eq beq s.invalid_stream (some g.stream_identity) ≡ false
      → format_changed g.stream_identity g.sample_rate g.channels s ≡ false
      → Checked is_finite g
          (if stream_changed g.stream_identity s then none else s.expected_next)
          (frame ∷ rest)
          last
      → (h : Format Stream) × (at : ℕ) × (n : ℕ) × Ready is_finite h g frame.window.start last
          (frame ∷ rest)
          (carried is_finite g s)
          at
          n
          (entered g frame.window.start s)
  unfolding stream_changed
  Ready-entered g s frame rest last v computed inv usable same (from, here) =
      elim (Bool-cases (is_fresh is_finite g s)) [
        | inl e ↦ (
          g,
          frame.window.start.frame_index,
          0,
          fresh-Ready is_finite g s frame rest last v computed e from,
        )
        | inr e ↦ elim inv [
          | inl idle ↦ absurd (ground (arith, idle.stopped))
          | inr (h, at, n, next, on) ↦ (
            h,
            at,
            n,
            kept-Ready is_finite g s frame rest last v computed h at n next e same on from (
                subst (λ o. Expects is_finite o frame.window.start.frame_index)
                  (expected_kept g s e ∙ on.expected) here),
          )
        ]
      ]

  WindowsFrom-length :
      (g : Format Stream) (a b : ℕ) (windows : List (ScheduledWindow Stream Sample))
      → WindowsFrom g a windows b
      → b ≡ a + length windows * g.window_frames
  WindowsFrom-length g a b [] h = omega arith
  WindowsFrom-length g a b (w ∷ windows) (full, h) = omega (
    arith,
    WindowsFrom-length g (a + g.window_frames) b windows h,
    add-mul (length windows) 1 g.window_frames,
  )

  FramesFrom-count :
      (g : Format Stream) (a b total input : ℕ) (frames : List (AudioFrame Sample))
      → FramesFrom is_finite g a frames b
      → input_frame_count total frames ≡ ok input
      → b + total ≡ a + input
  unfolding input_frame_count
  FramesFrom-count g a b total input [] h e = ground arith
  FramesFrom-count g a b total input (frame ∷ frames) (len, fin, here, h) e =
      let count = frame.window.frame_count in
      let later : input_frame_count (total + count) frames ≡ ok input = ground arith in
      omega (arith, FramesFrom-count g (a + count) b (total + count) input frames h later)

  -- What a push leaves and returns: full windows that follow one another and begin where the waiting
  -- samples do, and no sample lost, added or moved.
  pub record Pushed (g : Format Stream) (frames : List (AudioFrame Sample)) (start : FrameTimestamp)
      (s : WindowScheduler Stream Sample) (result : SchedulingResult Stream Sample)
      (t : WindowScheduler Stream Sample) : Type 0 where
    pub at : ℕ
    pub waiting : ℕ
    pub to : ℕ
    pub computed :
        window_frame_count {Sample = Sample} s.config.target_window_duration g.sample_rate
        ≡ ok g.window_frames
    pub counted : length (carried is_finite g s) ≡ waiting * channel_count g.channels
    pub index : at + waiting ≡ start.frame_index
    pub windows : WindowsFrom g at result.windows to
    pub kept :
        window_samples result.windows ++ t.samples ≡ carried is_finite g s ++ frame_samples frames
    pub bounded : length result.windows ≤ s.config.max_windows_per_push
    pub part : length t.samples < samples_per_window g
    pub inv : SchedulerInv is_finite t

  unfoldable pub PushEnd :
      Format Stream
      → List (AudioFrame Sample)
      → FrameTimestamp
      → WindowScheduler Stream Sample
      → Result (Failure Sample) (SchedulingResult Stream Sample) × WindowScheduler Stream Sample
      → Type 0
  PushEnd g frames start s (ok result, t) = Pushed g frames start s result t
  PushEnd g frames start s (err (error e), t) = (e ≡ timestamp_overflow) ⊎ SchedulerInv is_finite t
  PushEnd g frames start s (err e, t) = ⊥

  pub refused :
      (g : Format Stream) (frames : List (AudioFrame Sample)) (start : FrameTimestamp)
      (s t : WindowScheduler Stream Sample) (e : Failure Sample)
      → SchedulerInv is_finite t
      → IsError e
      → PushEnd g frames start s (err e, t)
  unfolding PushEnd
  refused g frames start s t (error e) inv i = inr inv
  refused g frames start s t panic inv i = i
  refused g frames start s t out_of_fuel inv i = i

  -- A step that may refuse the push.
  pub step-PushEnd :
      {A : Type 0} (g : Format Stream) (frames : List (AudioFrame Sample)) (start : FrameTimestamp)
      (s t : WindowScheduler Stream Sample) (r : Result (Failure Sample) A)
      (k : A
        → Result (Failure Sample) (SchedulingResult Stream Sample) × WindowScheduler Stream Sample)
      → SchedulerInv is_finite t
      → ((e : Failure Sample) → r ≡ err e → IsError e)
      → ((a : A) → r ≡ ok a → PushEnd g frames start s (k a))
      → PushEnd g frames start s (try r t k)
  step-PushEnd g frames start s t r k inv refusal rest =
      try-cases (PushEnd g frames start s) r t k
        (λ e h. refused g frames start s t e inv (refusal e h)) rest

  overflowed :
      (g : Format Stream) (frames : List (AudioFrame Sample)) (start : FrameTimestamp)
      (s t : WindowScheduler Stream Sample) (e : Failure Sample)
      → e ≡ error timestamp_overflow
      → PushEnd g frames start s (err e, t)
  unfolding PushEnd
  overflowed g frames start s t e h = rw h (inl refl)

  -- The scheduler after the loops, with the start that is expected next.
  ended-OnStream :
      (h g : Format Stream) (s t : WindowScheduler Stream Sample) (m to : ℕ) (next : FrameTimestamp)
      → ValidFormat g
      → Holds is_finite h g s
      → SameStream s t
      → Buffers is_finite g to m t
      → m < g.window_frames
      → to + m ≡ next.frame_index
      → OnStream is_finite h (record t { expected_next = some next }) to m next
  ended-OnStream h g s t m to next v holds same b small e = record {
    active = same.active_stream ∙ holds.active;
    sample_rate = same.sample_rate ∙ holds.sample_rate;
    channels = same.channels ∙ holds.channels;
    frames = rw same.config holds.frames;
    valid = record {
      frames = omega (arith, v.frames, holds.window);
      bounded = omega (arith, v.bounded, holds.window);
      channels = omega (arith, v.channels, holds.count);
    };
    buffers = record {
      whole = b.whole ∙ ap (λ k. m * k) (sym holds.count);
      finite = b.finite;
      start = b.start;
      origin = b.origin;
    };
    small = omega (arith, holds.window);
    expected = refl;
    index = sym e;
  }

  pub finished-PushEnd :
      (h g : Format Stream) (frames : List (AudioFrame Sample)) (start next : FrameTimestamp)
      (s s' : WindowScheduler Stream Sample) (at n input : ℕ)
      (edge : Option (StreamBoundary Stream))
      (emitted : Result (Failure Sample) (List (ScheduledWindow Stream Sample))
        × WindowScheduler Stream Sample)
      → ValidFormat g
      → window_frame_count {Sample = Sample} s.config.target_window_duration g.sample_rate
        ≡ ok g.window_frames
      → input_frame_count 0 frames ≡ ok input
      → input ≤ g.window_frames * s.config.max_windows_per_push
      → Ready is_finite h g start next frames (carried is_finite g s) at n s'
      → Emits is_finite g at next.frame_index [] frames s' emitted
      → PushEnd g frames start s (
          try emitted.0 emitted.1 λ windows. (
            ok (record { windows = windows; stream_boundary = edge }),
            record emitted.1 { expected_next = some next },
          ))
  unfolding PushEnd
  finished-PushEnd h g frames start next s s' at n input edge (err e, t) v computed counted fits
        ready e' =
      overflowed g frames start s t e e'
  finished-PushEnd h g frames start next s s' at n input edge (ok windows, t) v computed counted
        fits ready emits =
      let (new, m, to, all, from, kept, b, small, count, same) = emits in
      record {
        at = at;
        waiting = n;
        to = to;
        computed = computed;
        counted = ap length (sym ready.samples) ∙ ready.buffers.whole;
        index = ready.from;
        windows = rw all from;
        kept = rw (all, ← ready.samples) kept;
        bounded =
            windows_bound (length windows) n g.window_frames input s.config.max_windows_per_push m
              ready.small fits
              (omega (
                arith,
                WindowsFrom-length g at to windows (rw all from),
                FramesFrom-count g (at + n) next.frame_index 0 input frames ready.follow counted,
              ));
        part =
            rw b.whole
              (whole_lt is_finite g m g.window_frames (channel_count g.channels) small v.channels);
        inv =
            inr
              (h, to, m, next, ended-OnStream h g s' t m to next v ready.holds same b small count);
      }
