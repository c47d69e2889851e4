-- ===== src/Scheduling/Time.antt =====
-- The arithmetic of the window scheduler: the length of a window, and where timestamps overflow.
use resonance_signal.Base.{ℕ, ◌+◌, ◌*◌, ◌/◌, ◌-◌, ◌≤◌, ◌<◌, ◌≡◌, ◌↔◌, ok, u32_max, u64_max, arith}
use resonance_signal.Signal.{SampleRate, FrameTimestamp}
use resonance_signal.Scheduling.{
  nanos_per_second, u128_max, window_frame_count, advance_timestamp, timestamp_for_frame_index,
}

module _ {Sample : Type 0} where
  -- A window of a duration has `frames` frames exactly when this is the duration times the sample
  -- rate rounded to the nearest whole number, a half upwards, it is at least one and at most the limit
  -- of u32, and the rounded product fits u128.
  pub window_frame_count_iff :
      (duration_ns : ℕ) (hz : SampleRate) (frames : ℕ)
      → (window_frame_count {Sample = Sample} duration_ns hz ≡ ok frames) ↔ (
          (frames * nanos_per_second ≤ duration_ns * hz + 500000000)
          × (duration_ns * hz + 500000000 < (frames + 1) * nanos_per_second)
          × (0 < frames)
          × (frames ≤ u32_max)
          × (duration_ns * hz + 500000000 ≤ u128_max))
  unfolding window_frame_count
  window_frame_count_iff duration_ns hz frames = (λ h. ground arith, λ h. ground arith)

  -- The timestamp of a frame index is found exactly when the index is not before the origin, the
  -- elapsed frames times 10^9 fit u64, and so does the time; it is then the origin's time and the
  -- elapsed nanoseconds, rounded down.
  pub timestamp_for_frame_index_iff :
      (origin : FrameTimestamp) (frame_index : ℕ) (hz : SampleRate) (t : FrameTimestamp)
      → (timestamp_for_frame_index {Sample = Sample} origin frame_index hz ≡ ok t) ↔ (
          (origin.frame_index ≤ frame_index)
          × ((frame_index - origin.frame_index) * nanos_per_second ≤ u64_max)
          × (t.frame_index ≡ frame_index)
          × (t.stream_time_ns
              ≡ origin.stream_time_ns + (frame_index - origin.frame_index) * nanos_per_second / hz)
          × (t.stream_time_ns ≤ u64_max))
  unfolding timestamp_for_frame_index
  timestamp_for_frame_index_iff origin frame_index hz t = (λ h. ground arith, λ h. ground arith)

  -- Where the frame index fits u64, advancing a timestamp by a number of frames is the same, errors
  -- included, as asking for the timestamp of the frame index that it leads to.
  pub advance_timestamp_lem :
      (start : FrameTimestamp) (frame_count : ℕ) (hz : SampleRate)
      → start.frame_index + frame_count ≤ u64_max
      → advance_timestamp {Sample = Sample} start frame_count hz
        ≡ timestamp_for_frame_index start (start.frame_index + frame_count) hz
  unfolding advance_timestamp timestamp_for_frame_index
  advance_timestamp_lem start frame_count hz fits =
      let elapsed : start.frame_index + frame_count - start.frame_index ≡ frame_count =
        omega arith in
      ground arith
