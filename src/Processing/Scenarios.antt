-- ===== src/Processing/Scenarios.antt =====
-- Runs on concrete frames.
use resonance_signal.Base.{ℕ, Bool, refl, ◌≡◌, none, some, List, [], ◌∷◌, ok, err, ltb, arith}
use resonance_signal.Signal.{FrameTimestamp, AudioFrame, discrete, audio_frame}
use resonance_signal.Processing.{
  WaveformWindow, waveform_window, samples_for_channel, window_out_of_bounds,
}
use resonance_signal.Processing.Waveforms.{Shows, waveform_window-Shows}

abbrev origin : FrameTimestamp
origin = record { frame_index = 100; stream_time_ns = 5000 }

abbrev samples : List ℕ
samples = 1 ∷ 2 ∷ 3 ∷ 4 ∷ 5 ∷ 6 ∷ []

abbrev frame : AudioFrame ℕ
frame = record {
  window = record { start = origin; frame_count = 3 };
  sample_rate = 1000;
  channels = discrete 2;
  samples = samples;
}

abbrev last_two : WaveformWindow ℕ
last_two = record {
  frame = frame;
  first_frame = 1;
  window = record {
    start = record { frame_index = 101; stream_time_ns = 1005000 };
    frame_count = 2;
  };
}

abbrev finite : ℕ → Bool
finite sample = ltb sample 1000

frame_test : audio_frame finite origin 1000 (discrete 2) samples ≡ ok frame
unfolding audio_frame
frame_test = refl

window_test : waveform_window frame 1 2 ≡ ok last_two
unfolding waveform_window
window_test = refl

outside_test : waveform_window frame 2 2 ≡ err (window_out_of_bounds 2 2 3)
unfolding waveform_window
outside_test = refl

channel_test : samples_for_channel last_two 1 ≡ some (some (4 ∷ 6 ∷ []))
unfolding samples_for_channel
channel_test = refl

no_channel_test : samples_for_channel last_two 2 ≡ some none
unfolding samples_for_channel
no_channel_test = refl

waveform_window-Shows_example : Shows origin 1000 (discrete 2) samples 1 2 last_two
waveform_window-Shows_example =
    waveform_window-Shows finite origin 1000 (discrete 2) samples frame 1 2 last_two (omega arith)
      frame_test window_test
