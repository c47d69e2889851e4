-- ===== src/Processing.antt =====
-- crates/resonance-core/src/processing.rs: the windows onto the samples of an audio frame. What is
-- calculated of the samples is arithmetic of floating point and is not modelled.
pub mod Waveforms
mod Scenarios
use resonance_signal.Base.{
  ℕ, ◌+◌, ◌-◌, ◌*◌, ◌/◌, Bool, not, Option, none, some, List, [], ◌∷◌, length, ◌==◌, leb, Result,
  ok, err, ok_or, ensure, checked_add, checked_mul, u32_max, ◌>>=◌, ◌>>◌, if◌then◌else◌,
}
use resonance_signal.Signal.{SignalWindow, SignalDataError, AudioFrame, channel_count}
use resonance_signal.Signal.Levels.{slice}

pub data ProcessingError (Sample : Type 0) : Type 0 where
  empty_input timestamp_overflow : ProcessingError Sample
  non_finite_sample : (index : ℕ) → ProcessingError Sample
  window_out_of_bounds : (first_frame frame_count available : ℕ) → ProcessingError Sample
  invalid_target_peak : Sample → ProcessingError Sample
  invalid_signal_data : SignalDataError Sample → ProcessingError Sample

pub record WaveformWindow (Sample : Type 0) : Type 0 where
  pub frame : AudioFrame Sample
  pub first_frame : ℕ  -- u32
  pub window : SignalWindow

-- `checked_add` of u32
abbrev pub checked_add_u32 : ℕ → ℕ → Option ℕ
checked_add_u32 a b = if leb (a + b) u32_max then some (a + b) else none

-- Every value of the list whose place is a multiple of the step, from `skip` values on.
abbrev pub step_by : {A : Type 0} → ℕ → ℕ → List A → List A
step_by step skip [] = []
step_by step skip (x ∷ xs) =
    let rest = step_by step (if skip == 0 then step - 1 else skip - 1) xs in
    if skip == 0 then x ∷ rest else rest

module _ {Sample : Type 0} where
  -- `WaveformWindow::entire`
  abbrev pub entire : AudioFrame Sample → WaveformWindow Sample
  entire frame = record { frame = frame; first_frame = 0; window = frame.window }

  -- `WaveformWindow::new`
  unfoldable pub waveform_window :
      AudioFrame Sample → ℕ → ℕ → Result (ProcessingError Sample) (WaveformWindow Sample)
  waveform_window frame first_frame frame_count = do
    let available = frame.window.frame_count
    last ←
        ok_or (checked_add_u32 first_frame frame_count)
          (window_out_of_bounds first_frame frame_count available)
    ensure (not (frame_count == 0)) empty_input
    ensure (leb last available) (window_out_of_bounds first_frame frame_count available)
    let source_start = frame.window.start
    frame_index ← ok_or (checked_add source_start.frame_index first_frame) timestamp_overflow
    nanos ← ok_or (checked_mul first_frame 1000000000) timestamp_overflow
    stream_time_ns ←
        ok_or (checked_add source_start.stream_time_ns (nanos / frame.sample_rate))
          timestamp_overflow
    ok (record {
      frame = frame;
      first_frame = first_frame;
      window = record {
        start = record { frame_index = frame_index; stream_time_ns = stream_time_ns };
        frame_count = frame_count;
      };
    })

  -- `WaveformWindow::samples`, none where the slice panics.
  unfoldable pub window_samples : WaveformWindow Sample → Option (List Sample)
  window_samples w =
      let count = channel_count w.frame.channels in
      let start = w.first_frame * count in
      slice start (start + w.window.frame_count * count) w.frame.samples

  -- `WaveformWindow::samples_for_channel`; the outer option is a panic, of a slice.
  unfoldable pub samples_for_channel : WaveformWindow Sample → ℕ → Option (Option (List Sample))
  unfolding window_samples
  samples_for_channel w channel_index =
      let count = channel_count w.frame.channels in
      if leb count channel_index then some none else elim (window_samples w) [
        | none ↦ none
        | some samples ↦
            if leb channel_index (length samples)
            then some (some (step_by count channel_index samples))
            else none
      ]
