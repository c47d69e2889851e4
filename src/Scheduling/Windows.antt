-- ===== src/Scheduling/Windows.antt =====
-- What the windows and the buffer of the window scheduler are between the rounds of its loops.
use resonance_signal.Base.{
  ℕ, ◌+◌, ◌*◌, ◌≤◌, ◌<◌, ◌≡◌, refl, ◌∙◌, Bool, true, Option, none, some, List, [], ◌∷◌, ◌++◌,
  length, is_some, u32_max,
}
use resonance_signal.Signal.{channel_count, FrameTimestamp}
use resonance_signal.Signal.Frames.{AllFinite}
use resonance_signal.Scheduling.Scheduler.{ScheduledWindow, WindowScheduler}
use resonance_signal.Scheduling.Push.{Format, samples_per_window}

-- A window has at least one frame, and so has a frame one channel.
pub record ValidFormat {Stream : Type 0} (f : Format Stream) : Type 0 where
  pub frames : 0 < f.window_frames
  pub bounded : f.window_frames ≤ u32_max
  pub channels : 0 < channel_count f.channels

module _ {Stream Sample : Type 0} where
  -- The samples of the windows in order.
  abbrev pub window_samples : List (ScheduledWindow Stream Sample) → List Sample
  window_samples [] = []
  window_samples (w ∷ windows) = w.frame.samples ++ window_samples windows

  -- A full window of the stream at a frame index.
  pub record FullWindow (f : Format Stream) (at : ℕ) (w : ScheduledWindow Stream Sample)
      : Type 0 where
    pub stream_identity : w.stream_identity ≡ f.stream_identity
    pub sample_rate : w.frame.sample_rate ≡ f.sample_rate
    pub channels : w.frame.channels ≡ f.channels
    pub frame_count : w.frame.window.frame_count ≡ f.window_frames
    pub frame_index : w.frame.window.start.frame_index ≡ at
    pub full : length w.frame.samples ≡ samples_per_window f

  -- The windows are full and follow one another, from one frame index to another.
  abbrev pub WindowsFrom : Format Stream → ℕ → List (ScheduledWindow Stream Sample) → ℕ → Type 0
  WindowsFrom f from [] to = from ≡ to
  WindowsFrom f from (w ∷ windows) to =
      FullWindow f from w × WindowsFrom f (from + f.window_frames) windows to

  -- The fields that the loops leave alone.
  pub record SameStream (s t : WindowScheduler Stream Sample) : Type 0 where
    pub config : t.config ≡ s.config
    pub active_stream : t.active_stream ≡ s.active_stream
    pub invalid_stream : t.invalid_stream ≡ s.invalid_stream
    pub sample_rate : t.sample_rate ≡ s.sample_rate
    pub channels : t.channels ≡ s.channels
    pub timeline_origin : t.timeline_origin ≡ s.timeline_origin
    pub expected_next : t.expected_next ≡ s.expected_next

  pub unchanged : (s : WindowScheduler Stream Sample) → SameStream s s
  unchanged s = record {
    config = refl;
    active_stream = refl;
    invalid_stream = refl;
    sample_rate = refl;
    channels = refl;
    timeline_origin = refl;
    expected_next = refl;
  }

  pub SameStream-trans :
      (s t u : WindowScheduler Stream Sample) → SameStream s t → SameStream t u → SameStream s u
  SameStream-trans s t u a b = record {
    config = b.config ∙ a.config;
    active_stream = b.active_stream ∙ a.active_stream;
    invalid_stream = b.invalid_stream ∙ a.invalid_stream;
    sample_rate = b.sample_rate ∙ a.sample_rate;
    channels = b.channels ∙ a.channels;
    timeline_origin = b.timeline_origin ∙ a.timeline_origin;
    expected_next = b.expected_next ∙ a.expected_next;
  }

-- Samples that are there start at a frame index.
abbrev pub StartsAt : {Sample : Type 0} → ℕ → List Sample → Option FrameTimestamp → Type 0
StartsAt at [] start = Unit
StartsAt at (x ∷ samples) none = ⊥
StartsAt at (x ∷ samples) (some t) = t.frame_index ≡ at

module _ {Stream Sample : Type 0} (is_finite : Sample → Bool) (f : Format Stream) where
  -- The buffer holds `n` whole frames of finite samples, from the frame index `at` on.
  pub record Buffers (at n : ℕ) (s : WindowScheduler Stream Sample) : Type 0 where
    pub whole : length s.samples ≡ n * channel_count f.channels
    pub finite : AllFinite is_finite s.samples
    pub start : StartsAt at s.samples s.buffer_start
    pub origin : is_some s.timeline_origin ≡ true
