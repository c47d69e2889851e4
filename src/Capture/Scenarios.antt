-- ===== src/Capture/Scenarios.antt =====
-- Two packets of a mono stream, one of them silent.
use resonance_signal.Base.{
  ℕ, ◌≡◌, refl, Bool, true, false, none, some, List, [], ◌∷◌, ltb, ok, err, u64_max, arith,
}
use resonance_signal.Signal.{
  positioned, mono, FrameTimestamp, audio_frame, new_sample_rate, new_positioned,
}
use resonance_signal.Scheduling.{advance_timestamp}
use resonance_signal.Scheduling.Scheduler.{check_continuity}
use resonance_signal.Capture.{
  CaptureFormat, CapturePacket, CaptureError, BuiltAudioFrame, AudioFrameBuilder, new_builder,
  mono_or_stereo, new_packet, frame_time_ns, check_position, qpc_elapsed, decode_f32_le,
  packet_samples, build, advance, push,
}
use resonance_signal.Capture.Continuity.{push-check_continuity}
use resonance_signal.Capture.Refusal.{Kept, push-Kept}

-- A sample by its first byte; the codes from 100 on are not finite.
abbrev first_byte : ℕ → ℕ → ℕ → ℕ → ℕ
first_byte a b c d = a

abbrev finite_code : ℕ → Bool
finite_code sample = ltb sample 100

abbrev format : CaptureFormat
format = record { sample_rate = 3; channels = positioned (mono ∷ []) }

-- Only the first eight bytes of the buffer are the packet's.
abbrev packet : ℕ → ℕ → Bool → CapturePacket
packet device_position qpc_timestamp_100ns silent = record {
  buffer = 11 ∷ 0 ∷ 0 ∷ 0 ∷ 12 ∷ 0 ∷ 0 ∷ 0 ∷ 99 ∷ [];
  byte_len = 8;
  frame_count = 2;
  device_position = device_position;
  qpc_timestamp_100ns = qpc_timestamp_100ns;
  flags = record { data_discontinuity = false; silent = silent; timestamp_error = false };
  callback_interval = none;
  callback_duration = 0;
}

abbrev built : ℕ → ℕ → List ℕ → BuiltAudioFrame ℕ
built frame_index stream_time_ns samples = record {
  frame = record {
    window = record {
      start = record { frame_index = frame_index; stream_time_ns = stream_time_ns };
      frame_count = 2;
    };
    sample_rate = 3;
    channels = positioned (mono ∷ []);
    samples = samples;
  };
  qpc_delta = none;
  initial_discontinuity = false;
}

abbrev later : BuiltAudioFrame ℕ
later = record (built 2 666666666 (0 ∷ 0 ∷ [])) { qpc_delta = some 6600 }

abbrev standing : ℕ → ℕ → ℕ → AudioFrameBuilder
standing position index qpc = record {
  format = format;
  next_device_position = some position;
  next_frame_index = index;
  previous_qpc_timestamp_100ns = some qpc;
}

push_test :
    push first_byte finite_code 0 (new_builder format) (packet 40 7 false)
    ≡ (ok (built 0 0 (11 ∷ 12 ∷ [])), standing 42 2 7)
unfolding push build advance new_builder check_position qpc_elapsed packet_samples frame_time_ns
    decode_f32_le audio_frame
push_test = refl

-- A gap in the positions of the device is refused.
gap_test :
    push first_byte finite_code 0 (standing 42 2 7) (packet 43 73 true)
    ≡ (err (CaptureError.device_position_discontinuity 42 43), standing 42 2 7)
unfolding push build check_position
gap_test = refl

mono_or_stereo_test : mono_or_stereo {Sample = ℕ} 3 1 ≡ ok format
unfolding mono_or_stereo new_sample_rate new_positioned
mono_or_stereo_test = refl

new_packet_test : new_packet {Sample = ℕ} (packet 40 7 false) ≡ ok (packet 40 7 false)
unfolding new_packet
new_packet_test = refl

push-check_continuity_example :
    (next : FrameTimestamp) × (advance_timestamp {Sample = ℕ}
        (record { frame_index = 0; stream_time_ns = 0 })
        2
        3
      ≡ ok next)
    × (check_continuity {Sample = ℕ}
          (some next)
          (record { frame_index = 2; stream_time_ns = 666666666 })
        ≡ ok tt)
unfolding push build advance new_builder check_position qpc_elapsed packet_samples frame_time_ns
    decode_f32_le audio_frame
push-check_continuity_example =
    push-check_continuity first_byte finite_code 0 (new_builder format) (standing 42 2 7)
      (standing 44 4 73) (packet 40 7 false) (packet 42 73 true) (built 0 0 (11 ∷ 12 ∷ [])) later
      (omega arith) (omega arith) refl refl

push-Kept_example :
    Kept (standing 42 2 7) (push first_byte finite_code 0 (standing 42 2 7) (packet 43 73 true))
push-Kept_example = push-Kept first_byte finite_code 0 (standing 42 2 7) (packet 43 73 true)

-- The index of the next frame overflows after the position of the device has been moved on.
overflow_test :
    advance first_byte finite_code (standing 42 u64_max 7) (packet 42 73 true) later
    ≡ (err CaptureError.frame_index_overflow, standing 44 u64_max 7)
unfolding advance
overflow_test = refl
