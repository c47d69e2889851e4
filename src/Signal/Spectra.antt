-- ===== src/Signal/Spectra.antt =====
-- The channels of a spectrum frame.
use resonance_signal.Base.{
  ℕ, ◌+◌, ◌-◌, ◌*◌, ◌≤◌, ◌<◌, ◌≡◌, Bool, false, some, List, length, take, drop, length-take,
  length-drop, leb, le→leb, ok, arith,
}
use resonance_signal.Signal.{SampleRate, ChannelLayout, channel_count, SignalWindow}
use resonance_signal.Signal.Levels.{
  bins, slice, SpectrumWindow, SpectrumFrame, spectrum_frame, magnitudes_for_channel,
}

-- The magnitudes of one channel of as many bins.
abbrev pub channel_of : {A : Type 0} → ℕ → ℕ → List A → List A
channel_of bins_per_channel index values =
    take bins_per_channel (drop (index * bins_per_channel) values)

channel_end : (b n i : ℕ) → i < n → i * b + b ≤ b * n
channel_end b n i h = grind arith

slice_lem :
    {A : Type 0} (b n i : ℕ) (values : List A)
    → length values ≡ b * n
    → i < n
    → slice (i * b) (i * b + b) values ≡ some (channel_of b i values)
slice_lem b n i values size h =
    let room = channel_end b n i h in
    let e : i * b + b - i * b ≡ b = omega arith in
    rw (le→leb (i * b) (i * b + b) (omega arith))
      (rw (le→leb (i * b + b) (length values) (omega arith)) (rw e))

channel_length :
    {A : Type 0} (b n i : ℕ) (values : List A)
    → length values ≡ b * n
    → i < n
    → length (channel_of b i values) ≡ b
channel_length b n i values size h =
    let room = channel_end b n i h in
    omega (arith, length-take b (drop (i * b) values), length-drop (i * b) values)

above_limit : (n i : ℕ) → i < n → leb n i ≡ false
above_limit n i h = ground arith

module _ {Sample : Type 0} (is_finite is_negative : Sample → Bool) where
  spectrum_frame_size :
      (window : SignalWindow) (rate : SampleRate) (channels : ChannelLayout) (fft_size : ℕ)
      (w : SpectrumWindow) (magnitudes : List Sample) (frame : SpectrumFrame Sample)
      → spectrum_frame is_finite is_negative window rate channels fft_size w magnitudes ≡ ok frame
      → (length magnitudes ≡ bins fft_size * channel_count channels)
        × (frame.fft_size ≡ fft_size)
        × (frame.channels ≡ channels)
        × (frame.magnitudes ≡ magnitudes)
  unfolding spectrum_frame
  spectrum_frame_size window rate channels fft_size w magnitudes frame h = ground arith

  -- A spectrum frame that was constructed answers for each of its channels without a panic, with one
  -- magnitude for each bin: the channels lie one after the other in the magnitudes it was given.
  pub spectrum_frame-Channels :
      (window : SignalWindow) (rate : SampleRate) (channels : ChannelLayout) (fft_size : ℕ)
      (w : SpectrumWindow) (magnitudes : List Sample) (frame : SpectrumFrame Sample)
      (channel_index : ℕ)
      → spectrum_frame is_finite is_negative window rate channels fft_size w magnitudes ≡ ok frame
      → channel_index < channel_count channels
      → (magnitudes_for_channel frame channel_index
          ≡ some (some (channel_of (bins fft_size) channel_index magnitudes)))
        × (length (channel_of (bins fft_size) channel_index magnitudes) ≡ bins fft_size)
  unfolding magnitudes_for_channel
  spectrum_frame-Channels window rate channels fft_size w magnitudes frame channel_index h lt =
      let (size, f, c, m) =
        spectrum_frame_size window rate channels fft_size w magnitudes frame h in
      let found =
        slice_lem (bins fft_size) (channel_count channels) channel_index magnitudes size lt in
      (
        rw (f, c, m) (rw (above_limit (channel_count channels) channel_index lt) (rw found)),
        channel_length (bins fft_size) (channel_count channels) channel_index magnitudes size lt,
      )
