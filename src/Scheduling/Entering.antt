-- ===== src/Scheduling/Entering.antt =====
-- The scheduler that the frames of a push go to: the one of a stream that goes on, or a fresh one.
use resonance_signal.Base.{
  ℕ, ◌+◌, ◌*◌, ◌<◌, ◌≡◌, refl, ap, ◌∙◌, Bool, true, false, Option, none, some, List, [], ◌∷◌, not,
  ◌||◌, is_some, option_eq, ok, if◌then◌else◌, Eq, arith,
}
use mathlib.Core.Path.{subst}
use mathlib.Core.Option.{some-injective}
use resonance_signal.Signal.{channel_count, ChannelLayout, FrameTimestamp, AudioFrame}
use resonance_signal.Scheduling.{window_frame_count}
use resonance_signal.Scheduling.Scheduler.{layout_eq, clear_stream_state, WindowScheduler}
use resonance_signal.Scheduling.Push.{Format, number_eq, stream_changed, format_changed, entered}
use resonance_signal.Scheduling.Windows.{ValidFormat, Buffers}
use resonance_signal.Scheduling.Emission.{FramesFrom}
use resonance_signal.Scheduling.Continuity.{channel_count-layout_eq}
use resonance_signal.Scheduling.Pushes.{OnStream}

module _ {Stream Sample : Type 0} ⦃eq : Eq Stream⦄ (is_finite : Sample → Bool) where
  -- The scheduler holds the format `h`, which the pushed format `g` does not tell from its own.
  pub record Holds (h g : Format Stream) (s : WindowScheduler Stream Sample) : Type 0 where
    pub active : s.active_stream ≡ some h.stream_identity
    pub sample_rate : s.sample_rate ≡ some h.sample_rate
    pub channels : s.channels ≡ some h.channels
    pub frames :
        window_frame_count {Sample = Sample} s.config.target_window_duration h.sample_rate
        ≡ ok h.window_frames
    pub count : channel_count h.channels ≡ channel_count g.channels
    pub window : h.window_frames ≡ g.window_frames

  -- A push starts from nothing unless it goes on with the active stream.
  abbrev pub is_fresh : Format Stream → WindowScheduler Stream Sample → Bool
  is_fresh g s = stream_changed g.stream_identity s || not (is_some s.active_stream)

  -- The samples that wait for the push.
  abbrev pub carried : Format Stream → WindowScheduler Stream Sample → List Sample
  carried g s = if is_fresh g s then [] else s.samples

  -- The scheduler where a stream starts.
  abbrev started :
      Format Stream → FrameTimestamp → WindowScheduler Stream Sample → WindowScheduler Stream Sample
  started g start s = record (clear_stream_state s) {
    active_stream = some g.stream_identity;
    invalid_stream = none;
    sample_rate = some g.sample_rate;
    channels = some g.channels;
    timeline_origin = some start;
  }

  entered_fresh :
      (g : Format Stream) (start : FrameTimestamp) (s : WindowScheduler Stream Sample)
      → is_fresh g s ≡ true
      → entered g start s ≡ started g start s
  unfolding entered
  entered_fresh g start s e = rw e refl

  entered_kept :
      (g : Format Stream) (start : FrameTimestamp) (s : WindowScheduler Stream Sample)
      → is_fresh g s ≡ false
      → entered g start s ≡ s
  unfolding entered
  entered_kept g start s e = rw e refl

  carried_fresh :
      (g : Format Stream) (s : WindowScheduler Stream Sample)
      → is_fresh g s ≡ true
      → carried g s ≡ []
  carried_fresh g s e = rw e refl

  carried_kept :
      (g : Format Stream) (s : WindowScheduler Stream Sample)
      → is_fresh g s ≡ false
      → carried g s ≡ s.samples
  carried_kept g s e = rw e refl

  -- The buffer ends where the frames begin.
  pub record Ready (h g : Format Stream) (first last : FrameTimestamp)
      (frames : List (AudioFrame Sample)) (before : List Sample) (at n : ℕ)
      (s : WindowScheduler Stream Sample) : Type 0 where
    pub holds : Holds h g s
    pub samples : s.samples ≡ before
    pub buffers : Buffers is_finite g at n s
    pub small : n < g.window_frames
    pub from : at + n ≡ first.frame_index
    pub follow : FramesFrom is_finite g (at + n) frames last.frame_index

  module _ (g : Format Stream) (s : WindowScheduler Stream Sample) (frame : AudioFrame Sample)
      (rest : List (AudioFrame Sample)) (last : FrameTimestamp) (valid : ValidFormat g)
      (computed : window_frame_count {Sample = Sample} s.config.target_window_duration g.sample_rate
        ≡ ok g.window_frames) where
    pub fresh-Ready :
        is_fresh g s ≡ true
        → FramesFrom is_finite g frame.window.start.frame_index (frame ∷ rest) last.frame_index
        → Ready g g frame.window.start last
            (frame ∷ rest)
            (carried g s)
            frame.window.start.frame_index
            0
            (entered g frame.window.start s)
    fresh-Ready e from =
        let start = frame.window.start in
        rw (entered_fresh g start s e, carried_fresh g s e)
          (record {
            holds = record {
              active = refl;
              sample_rate = refl;
              channels = refl;
              frames = computed;
              count = refl;
              window = refl;
            };
            samples = refl;
            buffers = record { whole = omega arith; finite = tt; start = tt; origin = refl };
            small = valid.frames;
            from = omega arith;
            follow =
                subst (λ (k : ℕ). FramesFrom is_finite g k (frame ∷ rest) last.frame_index)
                  (omega arith) from;
          })

    -- The format of a stream that goes on.
    same_rate :
        (a : Option ℕ) (h : ℕ)
        → option_eq number_eq a (some g.sample_rate) ≡ true
        → a ≡ some h
        → h ≡ g.sample_rate
    same_rate none h e i = cc
    same_rate (some k) h e i = ground arith

    same_count :
        (a : Option ChannelLayout) (h : ChannelLayout)
        → option_eq layout_eq a (some g.channels) ≡ true
        → a ≡ some h
        → channel_count h ≡ channel_count g.channels
    same_count none h e i = cc
    same_count (some k) h e i =
        (channel_count-layout_eq h g.channels
          (subst (λ b. layout_eq b g.channels ≡ true) (some-injective k h i) e))

    pub kept-Ready :
        (h : Format Stream) (at n : ℕ) (next : FrameTimestamp)
        → is_fresh g s ≡ false
        → format_changed g.stream_identity g.sample_rate g.channels s ≡ false
        → OnStream is_finite h s at n next
        → FramesFrom is_finite g frame.window.start.frame_index (frame ∷ rest) last.frame_index
        → next.frame_index ≡ frame.window.start.frame_index
        → Ready h g frame.window.start last
            (frame ∷ rest)
            (carried g s)
            at
            n
            (entered g frame.window.start s)
    unfolding format_changed stream_changed
    kept-Ready h at n next e unchanged on from here =
        let start = frame.window.start in
        let same : option_eq number_eq s.sample_rate (some g.sample_rate) ≡ true =
          ground (arith, on.active) in
        let same' : option_eq layout_eq s.channels (some g.channels) ≡ true =
          ground (arith, on.active) in
        let rate = same_rate s.sample_rate h.sample_rate same on.sample_rate in
        let count = same_count s.channels h.channels same' on.channels in
        let computed' = on.frames in
        let window : h.window_frames ≡ g.window_frames = cc in
        rw (entered_kept g start s e, carried_kept g s e)
          (record {
            holds = record {
              active = on.active;
              sample_rate = on.sample_rate;
              channels = on.channels;
              frames = on.frames;
              count = count;
              window = window;
            };
            samples = refl;
            buffers = record {
              whole = on.buffers.whole ∙ ap (λ k. n * k) count;
              finite = on.buffers.finite;
              start = on.buffers.start;
              origin = on.buffers.origin;
            };
            small = omega (arith, on.small);
            from = omega (arith, on.index);
            follow =
                subst (λ (k : ℕ). FramesFrom is_finite g k (frame ∷ rest) last.frame_index)
                  (omega (arith, on.index)) from;
          })
