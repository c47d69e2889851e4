-- ===== src/Signal/Scenarios.antt =====
-- Two frames of two channels.
use resonance_signal.Base.{
  ℕ, ◌≡◌, ◌↔◌, refl, Bool, false, some, List, [], ◌∷◌, length, ltb, ok, err, arith,
}
use resonance_signal.Signal.{
  channel_data_length, rms_exceeds_peak, discrete, FrameTimestamp, AudioFrame, audio_frame,
}
use resonance_signal.Signal.Levels.{
  bins, hann, SpectrumFrame, spectrum_frame, magnitudes_for_channel, level_frame, channel_level,
}
use resonance_signal.Signal.Spectra.{channel_of, spectrum_frame-Channels}
use resonance_signal.Signal.Frames.{Frames, audio_frame_iff}

-- A sample by its code; the codes from 100 on are not finite.
abbrev finite_code : ℕ → Bool
finite_code sample = ltb sample 100

abbrev origin : FrameTimestamp
origin = record { frame_index = 480; stream_time_ns = 10000000 }

abbrev samples : List ℕ
samples = 1 ∷ 2 ∷ 3 ∷ 4 ∷ []

abbrev stereo : AudioFrame ℕ
stereo = record {
  window = record { start = origin; frame_count = 2 };
  sample_rate = 48000;
  channels = discrete 2;
  samples = samples;
}

audio_frame_test : audio_frame finite_code origin 48000 (discrete 2) samples ≡ ok stereo
unfolding audio_frame
audio_frame_test = refl

audio_frame_iff_example :
    (audio_frame finite_code origin 48000 (discrete 2) samples ≡ ok stereo)
    ↔ Frames finite_code origin 48000 (discrete 2) samples stereo
audio_frame_iff_example =
    audio_frame_iff finite_code origin 48000 (discrete 2) samples stereo (omega arith)

abbrev spectrum : SpectrumFrame ℕ
spectrum = record {
  window = record { start = origin; frame_count = 4 };
  sample_rate = 48000;
  channels = discrete 2;
  fft_size = 4;
  window_function = hann;
  magnitudes = 1 ∷ 2 ∷ 3 ∷ 4 ∷ 5 ∷ 6 ∷ [];
}

spectrum_frame_test :
    spectrum_frame finite_code
      (λ sample. false)
      spectrum.window
      48000
      (discrete 2)
      4
      hann
      spectrum.magnitudes
    ≡ ok spectrum
unfolding spectrum_frame
spectrum_frame_test = refl

spectrum_frame-Channels_example :
    (magnitudes_for_channel spectrum 1 ≡ some (some (channel_of (bins 4) 1 spectrum.magnitudes)))
    × (length (channel_of (bins 4) 1 spectrum.magnitudes) ≡ bins 4)
spectrum_frame-Channels_example =
    spectrum_frame-Channels finite_code (λ sample. false) spectrum.window 48000 (discrete 2) 4 hann
      spectrum.magnitudes spectrum 1 spectrum_frame_test (omega arith)

-- The levels of two channels, and too few.
level_frame_test :
    level_frame {Sample = ℕ} spectrum.window (discrete 2) (record { rms = 1; peak = 2 } ∷ [])
    ≡ err (channel_data_length 2 1)
unfolding level_frame
level_frame_test = refl

channel_level_test :
    channel_level finite_code (λ sample. false) (λ rms peak. ltb peak rms) 3 2
    ≡ err (rms_exceeds_peak 3 2)
unfolding channel_level
channel_level_test = refl
