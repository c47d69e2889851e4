-- ===== src/Signal/Levels.antt =====
-- crates/resonance-core/src/signal.rs: level frames and spectrum frames. Of a sample, `f32` in the
-- source, the tests `is_finite`, `< 0.0` and `>` are parameters; usize has 64 bits.
use resonance_signal.Base.{
  ℕ, ◌+◌, ◌-◌, ◌*◌, ◌/◌, Bool, true, false, ◌&&◌, not, Option, none, some, List, [], ◌∷◌, length,
  take, drop, ◌==◌, leb, ltb, Result, ok, ok_or, ensure, checked_mul, ◌>>=◌, ◌>>◌, if◌then◌else◌,
}
use resonance_signal.Signal.{
  SampleRate, ChannelLayout, channel_count, SignalWindow, SignalDataError, non_finite_value,
  negative_magnitude, rms_exceeds_peak, channel_data_length, zero_fft_size, spectrum_too_large,
  hann_window_too_short, fft_smaller_than_window, spectrum_data_length,
}

pub record ChannelLevel (Sample : Type 0) : Type 0 where
  pub rms : Sample
  pub peak : Sample

pub record LevelFrame (Sample : Type 0) : Type 0 where
  pub window : SignalWindow
  pub channels : ChannelLayout
  pub levels : List (ChannelLevel Sample)

pub data SpectrumWindow : Type 0 where
  rectangular hann : SpectrumWindow

abbrev pub is_hann : SpectrumWindow → Bool
is_hann rectangular = false
is_hann hann = true

pub record SpectrumFrame (Sample : Type 0) : Type 0 where
  pub window : SignalWindow
  pub sample_rate : SampleRate
  pub channels : ChannelLayout
  pub fft_size : ℕ  -- u32
  pub window_function : SpectrumWindow
  pub magnitudes : List Sample

abbrev pub bins : ℕ → ℕ
bins fft_size = fft_size / 2 + 1

-- `&values[start..end]`, none where the range is out of bounds and the source panics.
abbrev pub slice : {A : Type 0} → ℕ → ℕ → List A → Option (List A)
slice start end values =
    if leb start end && leb end (length values)
    then some (take (end - start) (drop start values))
    else none

module _ {Sample : Type 0} where
  -- `LevelFrame::new`
  unfoldable pub level_frame :
      SignalWindow
      → ChannelLayout
      → List (ChannelLevel Sample)
      → Result (SignalDataError Sample) (LevelFrame Sample)
  level_frame window channels levels = do
    ensure (length levels == channel_count channels)
        (channel_data_length (channel_count channels) (length levels))
    ok (record { window = window; channels = channels; levels = levels })

  -- The outer option is a panic, of the slice.
  unfoldable pub magnitudes_for_channel : SpectrumFrame Sample → ℕ → Option (Option (List Sample))
  magnitudes_for_channel frame channel_index =
      let bins_per_channel = bins frame.fft_size in
      let start = channel_index * bins_per_channel in
      if leb (channel_count frame.channels) channel_index
      then some none
      else elim (slice start (start + bins_per_channel) frame.magnitudes) [
        | none ↦ none
        | some magnitudes ↦ some (some magnitudes)
      ]

module _ {Sample : Type 0} (is_finite is_negative : Sample → Bool) where
  -- The loop over values that have to be finite and not negative, counted from `index`.
  abbrev pub check_values : ℕ → List Sample → Result (SignalDataError Sample) (Unit {0})
  check_values index [] = ok tt
  check_values index (value ∷ values) = ensure (is_finite value) (non_finite_value index) >>= λ _.
      ensure (not (is_negative value)) (negative_magnitude index) >>= λ _.
      check_values (index + 1) values

  -- `ChannelLevel::new`
  unfoldable pub channel_level :
      (Sample → Sample → Bool)
      → Sample
      → Sample
      → Result (SignalDataError Sample) (ChannelLevel Sample)
  channel_level exceeds rms peak = do
    check_values 0 (rms ∷ peak ∷ [])
    ensure (not (exceeds rms peak)) (rms_exceeds_peak rms peak)
    ok (record { rms = rms; peak = peak })

  -- `SpectrumFrame::new`
  unfoldable pub spectrum_frame :
      SignalWindow
      → SampleRate
      → ChannelLayout
      → ℕ
      → SpectrumWindow
      → List Sample
      → Result (SignalDataError Sample) (SpectrumFrame Sample)
  spectrum_frame window sample_rate channels fft_size window_function magnitudes = do
    ensure (not (fft_size == 0)) zero_fft_size
    ensure (not (is_hann window_function && ltb window.frame_count 2))
        (hann_window_too_short window.frame_count)
    ensure (not (ltb fft_size window.frame_count))
        (fft_smaller_than_window fft_size window.frame_count)
    expected ← ok_or (checked_mul (bins fft_size) (channel_count channels)) spectrum_too_large
    ensure (length magnitudes == expected) (spectrum_data_length expected (length magnitudes))
    check_values 0 magnitudes
    ok (record {
      window = window;
      sample_rate = sample_rate;
      channels = channels;
      fft_size = fft_size;
      window_function = window_function;
      magnitudes = magnitudes;
    })
