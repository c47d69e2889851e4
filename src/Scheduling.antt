-- ===== src/Scheduling.antt =====
-- crates/resonance-core/src/scheduling.rs: the configuration of the window scheduler, and its
-- arithmetic of frame counts and timestamps. A `Duration` is its count of nanoseconds.
pub mod Time
pub mod Scheduler
pub mod Push
pub mod Windows
pub mod Cutting
pub mod Emission
pub mod Continuity
pub mod Pushes
pub mod Entering
pub mod Outcome
pub mod Batches
mod Scenarios
use resonance_signal.Base.{
  ℕ, ◌+◌, ◌*◌, ◌/◌, ◌-◌, ◌^◌, Bool, Option, none, some, not, ◌||◌, ◌==◌, ltb, leb, Result, ok, err,
  ok_or, ensure, u32_max, checked_add, checked_mul, checked_sub, ◌>>=◌, ◌>>◌, if◌then◌else◌,
}
use resonance_signal.Signal.{SampleRate, FrameTimestamp, SignalDataError}

abbrev pub nanos_per_second : ℕ
nanos_per_second = 1000000000

pub data WindowSchedulerConfigError : Type 0 where
  zero_window_duration zero_max_windows_per_push : WindowSchedulerConfigError

pub record WindowSchedulerConfig : Type 0 where
  pub target_window_duration : ℕ
  pub max_windows_per_push : ℕ

-- `WindowSchedulerConfig::new`
pub scheduler_config : ℕ → ℕ → Result WindowSchedulerConfigError WindowSchedulerConfig
scheduler_config target_window_duration max_windows_per_push = do
  ensure (not (target_window_duration == 0)) zero_window_duration
  ensure (not (max_windows_per_push == 0)) zero_max_windows_per_push
  ok (record {
    target_window_duration = target_window_duration;
    max_windows_per_push = max_windows_per_push;
  })

-- `WindowSchedulerConfig::default`
abbrev pub default_config : WindowSchedulerConfig
default_config = record { target_window_duration = 33333333; max_windows_per_push = 8 }

pub data SchedulingError (Sample : Type 0) : Type 0 where
  window_frame_count_out_of_range input_frame_count_overflow : SchedulingError Sample
  oversized_input : (actual_frames maximum_frames : ℕ) → SchedulingError Sample
  stream_identity_invalidated format_changed_within_stream : SchedulingError Sample
  frame_index_discontinuity : (expected actual : ℕ) → SchedulingError Sample
  timestamp_discontinuity : (expected_ns actual_ns : ℕ) → SchedulingError Sample
  timestamp_overflow : SchedulingError Sample
  invalid_signal_data : SignalDataError Sample → SchedulingError Sample

abbrev pub u128_max : ℕ
u128_max = 340282366920938463463374607431768211455

-- A checked operation on u128, by its result.
abbrev checked_u128 : ℕ → Option ℕ
checked_u128 n = if leb n u128_max then some n else none

module _ {Sample : Type 0} where
  pub window_frame_count : ℕ → SampleRate → Result (SchedulingError Sample) ℕ
  window_frame_count duration_ns hz = do
    numerator ← ok_or (checked_u128 (duration_ns * hz)) window_frame_count_out_of_range
    sum ← ok_or (checked_u128 (numerator + nanos_per_second / 2)) window_frame_count_out_of_range
    let rounded = sum / nanos_per_second
    ensure (not (rounded == 0 || ltb u32_max rounded)) window_frame_count_out_of_range
    ok rounded

  pub advance_timestamp :
      FrameTimestamp → ℕ → SampleRate → Result (SchedulingError Sample) FrameTimestamp
  advance_timestamp start frame_count hz = do
    frame_index ← ok_or (checked_add start.frame_index frame_count) timestamp_overflow
    nanos ← ok_or (checked_mul frame_count nanos_per_second) timestamp_overflow
    stream_time_ns ← ok_or (checked_add start.stream_time_ns (nanos / hz)) timestamp_overflow
    ok (record { frame_index = frame_index; stream_time_ns = stream_time_ns })

  pub timestamp_for_frame_index :
      FrameTimestamp → ℕ → SampleRate → Result (SchedulingError Sample) FrameTimestamp
  timestamp_for_frame_index origin frame_index hz = do
    elapsed_frames ← ok_or (checked_sub frame_index origin.frame_index) timestamp_overflow
    nanos ← ok_or (checked_mul elapsed_frames nanos_per_second) timestamp_overflow
    stream_time_ns ← ok_or (checked_add origin.stream_time_ns (nanos / hz)) timestamp_overflow
    ok (record { frame_index = frame_index; stream_time_ns = stream_time_ns })
