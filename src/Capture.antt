-- ===== src/Capture.antt =====
-- crates/resonance-agent/src/capture.rs: the conversion of captured packets into audio frames. A byte
-- is its number, a sample a parameter, with the decoding of four bytes, the test `is_finite` and zero.
pub mod Continuity
pub mod Positions
pub mod Refusal
mod Scenarios
use resonance_signal.Base.{
  ℕ, zero, suc, ◌+◌, ◌*◌, ◌/◌, ◌%◌, Bool, true, false, Option, none, some, List, [], ◌∷◌, length,
  take, not, ◌&&◌, ◌==◌, leb, ltb, is_some, Result, ok, err, try, ◌>>=◌, ◌>>◌, ok_or, ensure,
  u64_max, checked_add, checked_mul, checked_sub, if◌then◌else◌,
}
use resonance_signal.Signal.{
  SampleRate, SignalFormatError, new_sample_rate, new_positioned, ChannelLayout, mono, front_left,
  front_right, channel_count, FrameTimestamp, AudioFrame, SignalDataError, audio_frame,
}

abbrev pub bytes_per_f32 : ℕ
bytes_per_f32 = 4

abbrev pub nanos_per_second : ℕ
nanos_per_second = 1000000000

abbrev u128_max : ℕ
u128_max = 340282366920938463463374607431768211455

pub record CaptureFormat : Type 0 where
  pub sample_rate : SampleRate
  pub channels : ChannelLayout

abbrev pub bytes_per_frame : CaptureFormat → ℕ
bytes_per_frame f = channel_count f.channels * bytes_per_f32

pub record PacketFlags : Type 0 where
  pub data_discontinuity : Bool
  pub silent : Bool
  pub timestamp_error : Bool

-- A `Duration` is its count of nanoseconds.
pub record CapturePacket : Type 0 where
  pub buffer : List ℕ
  pub byte_len : ℕ
  pub frame_count : ℕ  -- u32
  pub device_position : ℕ  -- u64
  pub qpc_timestamp_100ns : ℕ  -- u64
  pub flags : PacketFlags
  pub callback_interval : Option ℕ
  pub callback_duration : ℕ

pub data CaptureError (Sample : Type 0) : Type 0 where
  unsupported_channel_count : (actual : ℕ) → CaptureError Sample
  invalid_format : SignalFormatError → CaptureError Sample
  invalid_audio_frame : SignalDataError Sample → CaptureError Sample
  packet_length_exceeds_buffer : (byte_len buffer_len : ℕ) → CaptureError Sample
  unexpected_packet_length : (expected actual : ℕ) → CaptureError Sample
  incomplete_float_sample : (byte_len : ℕ) → CaptureError Sample
  non_finite_sample : (index : ℕ) → CaptureError Sample
  empty_packet timestamp_unavailable data_discontinuous : CaptureError Sample
  device_position_discontinuity : (expected actual : ℕ) → CaptureError Sample
  non_monotonic_qpc : (previous actual : ℕ) → CaptureError Sample
  packet_size_overflow device_position_overflow frame_index_overflow : CaptureError Sample
  timestamp_overflow : CaptureError Sample

pub record BuiltAudioFrame (Sample : Type 0) : Type 0 where
  pub frame : AudioFrame Sample
  pub qpc_delta : Option ℕ
  pub initial_discontinuity : Bool

pub record AudioFrameBuilder : Type 0 where
  pub format : CaptureFormat
  pub next_device_position : Option ℕ
  pub next_frame_index : ℕ
  pub previous_qpc_timestamp_100ns : Option ℕ

unfoldable pub new_builder : CaptureFormat → AudioFrameBuilder
new_builder format = record {
  format = format;
  next_device_position = none;
  next_frame_index = 0;
  previous_qpc_timestamp_100ns = none;
}

-- The `bytes` of a packet.
abbrev pub packet_bytes : CapturePacket → List ℕ
packet_bytes p = take p.byte_len p.buffer

abbrev pub replicate : {A : Type 0} → ℕ → A → List A
replicate zero x = []
replicate (suc n) x = x ∷ replicate n x

module _ {Sample : Type 0} where
  -- `map_err(CaptureError::InvalidFormat)`
  abbrev pub format_result :
      {A : Type 0} → Result SignalFormatError A → Result (CaptureError Sample) A
  format_result (ok a) = ok a
  format_result (err e) = err (invalid_format e)

  -- `CaptureFormat::mono_or_stereo`
  unfoldable pub mono_or_stereo : ℕ → ℕ → Result (CaptureError Sample) CaptureFormat
  mono_or_stereo sample_rate_hz channels = do
    sample_rate ← format_result (new_sample_rate sample_rate_hz)
    layout ←
        if channels == 1
        then format_result (new_positioned (mono ∷ []))
        else (if channels == 2
            then format_result (new_positioned (front_left ∷ front_right ∷ []))
            else err (unsupported_channel_count channels))
    ok (record { sample_rate = sample_rate; channels = layout })

  -- `CapturePacket::new`
  unfoldable pub new_packet : CapturePacket → Result (CaptureError Sample) CapturePacket
  new_packet p =
      if ltb (length p.buffer) p.byte_len
      then err (packet_length_exceeds_buffer p.byte_len (length p.buffer))
      else ok p

  unfoldable pub frame_time_ns : ℕ → SampleRate → Result (CaptureError Sample) ℕ
  frame_time_ns frame_index hz = do
    nanos ←
        if leb (frame_index * nanos_per_second) u128_max
        then ok (frame_index * nanos_per_second)
        else err timestamp_overflow
    ensure (leb (nanos / hz) u64_max) timestamp_overflow
    ok (nanos / hz)

  -- The position of the packet, against the one that is expected.
  unfoldable pub check_position : Option ℕ → CapturePacket → Result (CaptureError Sample) (Unit {0})
  check_position none p = ok tt
  check_position (some expected) p = do
    ensure (not p.flags.data_discontinuity) data_discontinuous
    ensure (p.device_position == expected)
        (device_position_discontinuity expected p.device_position)

  unfoldable pub qpc_elapsed : Option ℕ → CapturePacket → Result (CaptureError Sample) (Option ℕ)
  qpc_elapsed none p = ok none
  qpc_elapsed (some previous) p = do
    elapsed ←
        ok_or (checked_sub p.qpc_timestamp_100ns previous)
          (non_monotonic_qpc previous p.qpc_timestamp_100ns)
    nanos ← ok_or (checked_mul elapsed 100) timestamp_overflow
    ok (some nanos)

module _ {Sample : Type 0} (from_le_bytes : ℕ → ℕ → ℕ → ℕ → Sample)
    (is_finite : Sample → Bool) where
  -- The loop over chunks of four bytes.
  abbrev pub decode_chunks : ℕ → List ℕ → Result (CaptureError Sample) (List Sample)
  decode_chunks index (a ∷ b ∷ c ∷ d ∷ bytes) =
      let sample = from_le_bytes a b c d in
      ensure (is_finite sample) (non_finite_sample index) >>= λ _.
      decode_chunks (index + 1) bytes >>= λ samples. ok (sample ∷ samples)
  decode_chunks index _ = ok []

  unfoldable pub decode_f32_le : List ℕ → Result (CaptureError Sample) (List Sample)
  decode_f32_le bytes =
      ensure (length bytes % bytes_per_f32 == 0) (incomplete_float_sample (length bytes)) >>= λ _.
      decode_chunks 0 bytes

  -- The samples of a packet, whose length is checked first.
  unfoldable pub packet_samples :
      Sample → CaptureFormat → CapturePacket → Result (CaptureError Sample) (List Sample)
  packet_samples silence f p = do
    expected ← ok_or (checked_mul p.frame_count (bytes_per_frame f)) packet_size_overflow
    ensure (length (packet_bytes p) == expected)
        (unexpected_packet_length expected (length (packet_bytes p)))
    sample_count ← ok_or (checked_mul p.frame_count (channel_count f.channels)) packet_size_overflow
    if p.flags.silent then ok (replicate sample_count silence) else decode_f32_le (packet_bytes p)

  abbrev pub frame_result :
      Result (SignalDataError Sample) (AudioFrame Sample)
      → Result (CaptureError Sample) (AudioFrame Sample)
  frame_result (ok frame) = ok frame
  frame_result (err e) = err (invalid_audio_frame e)

  -- `push` until it has the frame: nothing of the builder has changed.
  unfoldable pub build :
      Sample
      → AudioFrameBuilder
      → CapturePacket
      → Result (CaptureError Sample) (BuiltAudioFrame Sample)
  build silence b p = do
    ensure (not (p.frame_count == 0)) empty_packet
    ensure (not p.flags.timestamp_error) timestamp_unavailable
    check_position b.next_device_position p
    delta ← qpc_elapsed b.previous_qpc_timestamp_100ns p
    samples ← packet_samples silence b.format p
    stream_time_ns ← frame_time_ns b.next_frame_index b.format.sample_rate
    frame ← frame_result (
        audio_frame is_finite
          (record { frame_index = b.next_frame_index; stream_time_ns = stream_time_ns })
          b.format.sample_rate b.format.channels samples)
    ok (record {
      frame = frame;
      qpc_delta = delta;
      initial_discontinuity = not (is_some b.next_device_position) && p.flags.data_discontinuity;
    })

  -- The rest of `push`, which moves the builder on.
  unfoldable pub advance :
      AudioFrameBuilder
      → CapturePacket
      → BuiltAudioFrame Sample
      → Result (CaptureError Sample) (BuiltAudioFrame Sample) × AudioFrameBuilder
  advance b p built =
      try (ok_or (checked_add p.device_position p.frame_count) device_position_overflow) b
        λ position.
          let b' = record b { next_device_position = some position } in
          try (ok_or (checked_add b.next_frame_index p.frame_count) frame_index_overflow) b'
            λ index. (
              ok built,
              record b' {
                next_frame_index = index;
                previous_qpc_timestamp_100ns = some p.qpc_timestamp_100ns;
              },
            )

  unfoldable pub push :
      Sample
      → AudioFrameBuilder
      → CapturePacket
      → Result (CaptureError Sample) (BuiltAudioFrame Sample) × AudioFrameBuilder
  push silence b p = try (build silence b p) b λ built. advance b p built
