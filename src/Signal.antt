-- ===== src/Signal.antt =====
-- crates/resonance-core/src/signal.rs: the channel layout, the timestamps and the audio frames of a
-- signal. A sample is a parameter, `f32` in the source, with its test `is_finite`.
pub mod Frames
pub mod Levels
pub mod Spectra
mod Scenarios
use resonance_signal.Base.{
  ℕ, ◌+◌, ◌/◌, ◌%◌, ◌^◌, Bool, false, ◌&&◌, ◌||◌, ltb, u16_max, Option, none, some, List, [], ◌∷◌,
  length, not, ◌==◌, leb, Result, ok, err, ok_or, ensure, u32_max, ◌>>=◌, ◌>>◌, if◌then◌else◌,
}

-- Both are nonzero where the constructors of the source made them.
abbrev pub SampleRate : Type 0
SampleRate = ℕ  -- u32

abbrev pub ChannelCount : Type 0
ChannelCount = ℕ  -- u16

pub data ChannelPosition : Type 0 where
  mono front_left front_right front_center low_frequency back_left back_right : ChannelPosition
  front_left_of_center front_right_of_center back_center side_left side_right : ChannelPosition
  top_center top_front_left top_front_center top_front_right : ChannelPosition
  top_back_left top_back_center top_back_right : ChannelPosition

-- The place of a position in the enumeration, by which positions are compared.
abbrev pub position_index : ChannelPosition → ℕ
position_index mono = 0
position_index front_left = 1
position_index front_right = 2
position_index front_center = 3
position_index low_frequency = 4
position_index back_left = 5
position_index back_right = 6
position_index front_left_of_center = 7
position_index front_right_of_center = 8
position_index back_center = 9
position_index side_left = 10
position_index side_right = 11
position_index top_center = 12
position_index top_front_left = 13
position_index top_front_center = 14
position_index top_front_right = 15
position_index top_back_left = 16
position_index top_back_center = 17
position_index top_back_right = 18

pub data ChannelLayout : Type 0 where
  discrete : ChannelCount → ChannelLayout
  positioned : List ChannelPosition → ChannelLayout

-- The length of the positions is cut to u16.
abbrev pub channel_count : ChannelLayout → ChannelCount
channel_count (discrete count) = count
channel_count (positioned positions) = length positions % 2 ^ 16

pub data SignalFormatError : Type 0 where
  zero_sample_rate zero_channels : SignalFormatError
  too_many_channel_positions : (positions : ℕ) → SignalFormatError
  duplicate_channel_position : ChannelPosition → SignalFormatError
  mono_with_other_channels : SignalFormatError

-- `SampleRate::new`
unfoldable pub new_sample_rate : ℕ → Result SignalFormatError SampleRate
new_sample_rate hz = if hz == 0 then err zero_sample_rate else ok hz

abbrev pub contains_position : ChannelPosition → List ChannelPosition → Bool
contains_position p [] = false
contains_position p (x ∷ positions) =
    position_index x == position_index p || contains_position p positions

-- The first position that has occurred before.
abbrev pub first_duplicate : List ChannelPosition → List ChannelPosition → Option ChannelPosition
first_duplicate seen [] = none
first_duplicate seen (p ∷ positions) =
    let rest = first_duplicate (p ∷ seen) positions in
    if contains_position p seen then some p else rest

-- `ChannelLayout::positioned`
unfoldable pub new_positioned : List ChannelPosition → Result SignalFormatError ChannelLayout
new_positioned positions =
    if ltb u16_max (length positions)
    then err (too_many_channel_positions (length positions))
    else (if length positions == 0
        then err zero_channels
        else (if ltb 1 (length positions) && contains_position mono positions
            then err mono_with_other_channels
            else elim (first_duplicate [] positions) [
              | none ↦ ok (positioned positions)
              | some p ↦ err (duplicate_channel_position p)
            ]))

pub record FrameTimestamp : Type 0 where
  pub frame_index : ℕ  -- u64
  pub stream_time_ns : ℕ  -- u64

pub record SignalWindow : Type 0 where
  pub start : FrameTimestamp
  pub frame_count : ℕ  -- u32

pub data SignalDataError (Sample : Type 0) : Type 0 where
  empty_frame : SignalDataError Sample
  incomplete_sample_frame : (sample_count channels : ℕ) → SignalDataError Sample
  too_many_frames : (frames : ℕ) → SignalDataError Sample
  non_finite_value negative_magnitude : (index : ℕ) → SignalDataError Sample
  rms_exceeds_peak : (rms peak : Sample) → SignalDataError Sample
  channel_data_length : (expected actual : ℕ) → SignalDataError Sample
  zero_fft_size spectrum_too_large : SignalDataError Sample
  hann_window_too_short : (actual : ℕ) → SignalDataError Sample
  fft_smaller_than_window : (fft_size window_frames : ℕ) → SignalDataError Sample
  spectrum_data_length : (expected actual : ℕ) → SignalDataError Sample

-- `SignalWindow::new`
signal_window :
    {Sample : Type 0} → FrameTimestamp → ℕ → Result (SignalDataError Sample) SignalWindow
signal_window start frame_count =
    if frame_count == 0
    then err empty_frame
    else ok (record { start = start; frame_count = frame_count })

pub record AudioFrame (Sample : Type 0) : Type 0 where
  pub window : SignalWindow
  pub sample_rate : SampleRate
  pub channels : ChannelLayout
  pub samples : List Sample

abbrev pub all_finite : {Sample : Type 0} → Option ℕ → Result (SignalDataError Sample) (Unit {0})
all_finite none = ok tt
all_finite (some index) = err (non_finite_value index)

module _ {Sample : Type 0} (is_finite : Sample → Bool) where
  -- The index of the first sample that is not finite, counted from `index`.
  abbrev pub find_non_finite : ℕ → List Sample → Option ℕ
  find_non_finite index [] = none
  find_non_finite index (sample ∷ samples) =
      if is_finite sample then find_non_finite (index + 1) samples else some index

  -- `AudioFrame::new`
  unfoldable pub audio_frame :
      FrameTimestamp
      → SampleRate
      → ChannelLayout
      → List Sample
      → Result (SignalDataError Sample) (AudioFrame Sample)
  unfolding signal_window
  audio_frame start sample_rate channels samples = do
    let count = channel_count channels
    ensure (not (length samples == 0)) empty_frame
    ensure (length samples % count == 0) (incomplete_sample_frame (length samples) count)
    all_finite (find_non_finite 0 samples)
    ensure (leb (length samples / count) u32_max) (too_many_frames (length samples / count))
    window ← signal_window start (length samples / count)
    ok (record {
      window = window;
      sample_rate = sample_rate;
      channels = channels;
      samples = samples;
    })
