-- ===== src/Processing/Waveforms.antt =====
-- The windows onto an audio frame that was constructed.
use resonance_signal.Base.{
  ℕ, ◌+◌, ◌-◌, ◌*◌, ◌/◌, ◌≤◌, ◌<◌, ◌≡◌, ap, ◌∙◌, Bool, some, List, length, take, drop, length-take,
  length-drop, le→leb, ok, arith,
}
use resonance_signal.Signal.{
  FrameTimestamp, SampleRate, ChannelLayout, channel_count, AudioFrame, audio_frame,
}
use resonance_signal.Signal.Levels.{slice}
use resonance_signal.Signal.Frames.{audio_frame_iff}
use resonance_signal.Processing.{WaveformWindow, waveform_window, window_samples}

-- A slice of whole frames of a list of whole frames.
abbrev pub part : {A : Type 0} → ℕ → ℕ → ℕ → List A → List A
part count first n samples = take (n * count) (drop (first * count) samples)

parts_mul : (count a b c : ℕ) → (a + b + c) * count ≡ a * count + b * count + c * count
parts_mul count a b c = grind arith

part_end :
    (count first n available : ℕ)
    → first + n ≤ available
    → first * count + n * count ≤ available * count
part_end count first n available h =
    let rest = available - (first + n) in
    let e : available ≡ first + n + rest = omega arith in
    let split : available * count ≡ first * count + n * count + rest * count =
      ap (λ x. x * count) e ∙ parts_mul count first n rest in
    omega arith

slice_lem :
    {A : Type 0} (count first n available : ℕ) (samples : List A)
    → length samples ≡ available * count
    → first + n ≤ available
    → slice (first * count) (first * count + n * count) samples ≡ some (part count first n samples)
slice_lem count first n available samples size h =
    let room = part_end count first n available h in
    let e : first * count + n * count - first * count ≡ n * count = omega arith in
    rw (le→leb (first * count) (first * count + n * count) (omega arith))
      (rw (le→leb (first * count + n * count) (length samples) (omega arith)) (rw e))

length-part :
    {A : Type 0} (count first n available : ℕ) (samples : List A)
    → length samples ≡ available * count
    → first + n ≤ available
    → length (part count first n samples) ≡ n * count
length-part count first n available samples size h =
    let room = part_end count first n available h in
    omega (
      arith,
      length-take (n * count) (drop (first * count) samples),
      length-drop (first * count) samples,
    )

-- The window is of `n` frames from `first` on of the samples, and placed in time where they are.
pub record Shows {Sample : Type 0} (from : FrameTimestamp) (rate : SampleRate)
    (layout : ChannelLayout) (content : List Sample) (first n : ℕ) (w : WaveformWindow Sample)
    : Type 0 where
  pub index : w.window.start.frame_index ≡ from.frame_index + first
  pub time : w.window.start.stream_time_ns ≡ from.stream_time_ns + first * 1000000000 / rate
  pub frames : w.window.frame_count ≡ n
  pub some_frames : 0 < n
  pub inside : (first + n) * channel_count layout ≤ length content
  pub shown : window_samples w ≡ some (part (channel_count layout) first n content)
  pub whole : length (part (channel_count layout) first n content) ≡ n * channel_count layout

module _ {Sample : Type 0} where
  waveform_window-parts :
      (frame : AudioFrame Sample) (first n : ℕ) (w : WaveformWindow Sample)
      → waveform_window frame first n ≡ ok w
      → (w.frame ≡ frame)
        × (w.first_frame ≡ first)
        × (w.window.frame_count ≡ n)
        × (0 < n)
        × (first + n ≤ frame.window.frame_count)
        × (w.window.start.frame_index ≡ frame.window.start.frame_index + first)
        × (w.window.start.stream_time_ns
            ≡ frame.window.start.stream_time_ns + first * 1000000000 / frame.sample_rate)
  unfolding waveform_window
  waveform_window-parts frame first n w h = ground arith

  -- A window onto an audio frame that was constructed, where it is made, lies inside the frame, has a
  -- sample frame at least, starts at the frame and the time of its first sample frame, and gives its
  -- samples without a panic: the whole sample frames from its first one on, as many as it was asked for.
  pub waveform_window-Shows :
      (is_finite : Sample → Bool) (start : FrameTimestamp) (sample_rate : SampleRate)
      (channels : ChannelLayout) (samples : List Sample) (frame : AudioFrame Sample) (first n : ℕ)
      (w : WaveformWindow Sample)
      → 0 < channel_count channels
      → audio_frame is_finite start sample_rate channels samples ≡ ok frame
      → waveform_window frame first n ≡ ok w
      → Shows start sample_rate channels samples first n w
  unfolding window_samples
  waveform_window-Shows is_finite start sample_rate channels samples frame first n w pos made h =
      let f = (audio_frame_iff is_finite start sample_rate channels samples frame pos).0 made in
      let (of_frame, at, count, some_frames, fits, index, time) =
        waveform_window-parts frame first n w h in
      let found =
        slice_lem (channel_count channels) first n frame.window.frame_count samples f.whole fits in
      let room = part_end (channel_count channels) first n frame.window.frame_count fits in
      record {
        index = rw f.start at index;
        time = rw (f.start, f.sample_rate) at time;
        frames = count;
        some_frames = some_frames;
        inside = grind arith;
        shown = rw (of_frame, at, count, f.channels, f.samples) found;
        whole =
            length-part (channel_count channels) first n frame.window.frame_count samples f.whole
              fits;
      }
