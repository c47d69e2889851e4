-- ===== src/Scheduling/Scenarios.antt =====
-- The default window at 48 kHz, timestamps of a stream at that rate, and pushes of a small stream.
use resonance_signal.Base.{
  ℕ, ◌+◌, ◌*◌, ◌/◌, ◌-◌, ◌≤◌, ◌<◌, ◌≡◌, ◌↔◌, refl, Bool, none, some, List, [], ◌∷◌, length, map,
  ltb, ◌==◌, Result, ok, err, u32_max, u64_max, Eq, arith,
}
use resonance_signal.Signal.{discrete, FrameTimestamp, AudioFrame, audio_frame}
use resonance_signal.Scheduling.{
  WindowSchedulerConfig, scheduler_config, default_config, nanos_per_second, u128_max,
  timestamp_overflow, window_frame_count, advance_timestamp, timestamp_for_frame_index,
}
use resonance_signal.Scheduling.Time.{
  window_frame_count_iff, timestamp_for_frame_index_iff, advance_timestamp_lem,
}
use resonance_signal.Scheduling.Scheduler.{
  WindowScheduler, SchedulingResult, Failure, new, buffered_frame_count, input_frame_count,
  check_continuity, check_frames,
}
use resonance_signal.Scheduling.Push.{
  Format, next_start, accept, cut_from, cut_window, cut_windows, emit, stream_changed,
  format_changed, entered, push_format, push_batch,
}
use resonance_signal.Scheduling.Cutting.{Cuts, cut_windows-Cuts}
use resonance_signal.Scheduling.Pushes.{new-SchedulerInv}
use resonance_signal.Scheduling.Batches.{Pushes, push_batch-Pushes}

abbrev origin : FrameTimestamp
origin = record { frame_index = 0; stream_time_ns = 0 }

abbrev second : FrameTimestamp
second = record { frame_index = 48000; stream_time_ns = 1000000000 }

-- A frame after 2^64 / 10^9 frames, about 107 hours, has no timestamp.
long_stream_test :
    timestamp_for_frame_index {Sample = ℕ} origin 18446744074 48000 ≡ err timestamp_overflow
unfolding timestamp_for_frame_index
long_stream_test = refl

scheduler_config_test : scheduler_config 33333333 8 ≡ ok default_config
unfolding scheduler_config
scheduler_config_test = refl

window_frame_count_test : window_frame_count {Sample = ℕ} 33333333 48000 ≡ ok 1600
unfolding window_frame_count
window_frame_count_test = refl

window_frame_count_iff_example : (window_frame_count {Sample = ℕ} 33333333 48000 ≡ ok 1600) ↔ (
    (1600 * nanos_per_second ≤ 33333333 * 48000 + 500000000)
    × (33333333 * 48000 + 500000000 < (1600 + 1) * nanos_per_second)
    × (0 < 1600)
    × (1600 ≤ u32_max)
    × (33333333 * 48000 + 500000000 ≤ u128_max))
window_frame_count_iff_example = window_frame_count_iff {Sample = ℕ} 33333333 48000 1600

timestamp_for_frame_index_iff_example :
    (timestamp_for_frame_index {Sample = ℕ} origin 48000 48000 ≡ ok second) ↔ (
      (origin.frame_index ≤ 48000)
      × ((48000 - origin.frame_index) * nanos_per_second ≤ u64_max)
      × (second.frame_index ≡ 48000)
      × (second.stream_time_ns
          ≡ origin.stream_time_ns + (48000 - origin.frame_index) * nanos_per_second / 48000)
      × (second.stream_time_ns ≤ u64_max))
timestamp_for_frame_index_iff_example =
    timestamp_for_frame_index_iff {Sample = ℕ} origin 48000 48000 second

advance_timestamp_lem_example :
    advance_timestamp {Sample = ℕ} second 1600 48000
    ≡ timestamp_for_frame_index {Sample = ℕ} second (second.frame_index + 1600) 48000
advance_timestamp_lem_example = advance_timestamp_lem {Sample = ℕ} second 1600 48000 (omega arith)

instance number_Eq : Eq ℕ
number_Eq = record { beq = λ m n. m == n; beq_iff = λ m n. (λ h. ground arith, λ h. ground arith) }

-- Windows of two frames at 4 Hz, at most three for each push.
abbrev half_second : WindowSchedulerConfig
half_second = record { target_window_duration = 500000000; max_windows_per_push = 3 }

abbrev mono_frame : ℕ → ℕ → List ℕ → AudioFrame ℕ
mono_frame frame_index stream_time_ns samples = record {
  window = record {
    start = record { frame_index = frame_index; stream_time_ns = stream_time_ns };
    frame_count = length samples;
  };
  sample_rate = 4;
  channels = discrete 1;
  samples = samples;
}

abbrev frames : List (AudioFrame ℕ)
frames = mono_frame 0 0 (11 ∷ 12 ∷ 13 ∷ []) ∷ mono_frame 3 750000000 (14 ∷ 15 ∷ []) ∷ []

abbrev finite_code : ℕ → Bool
finite_code sample = ltb sample 100

-- The windows of a push, and the samples that are left.
abbrev cut_samples :
    Result (Failure ℕ) (SchedulingResult ℕ ℕ) × WindowScheduler ℕ ℕ → List (List ℕ) × List ℕ
cut_samples (ok result, s) = (map (λ w. w.frame.samples) result.windows, s.samples)
cut_samples (err e, s) = ([], s.samples)

push_batch_test :
    cut_samples (push_batch finite_code 7 frames (new half_second))
    ≡ ((11 ∷ 12 ∷ []) ∷ (13 ∷ 14 ∷ []) ∷ [], 15 ∷ [])
unfolding push_batch push_format emit new number_Eq window_frame_count format_changed stream_changed
    input_frame_count check_frames check_continuity advance_timestamp buffered_frame_count
    cut_windows accept entered cut_window cut_from audio_frame next_start timestamp_for_frame_index
push_batch_test = refl

push_batch-Pushes_example :
    Pushes {Stream = ℕ} finite_code 7 frames
      (new half_second)
      (push_batch finite_code 7 frames (new half_second))
push_batch-Pushes_example =
    push_batch-Pushes finite_code 7 frames (new half_second)
      (new-SchedulerInv finite_code half_second)
      (
        record { channels = omega arith; whole = refl; finite = (refl, (refl, (refl, tt))) },
        (record { channels = omega arith; whole = refl; finite = (refl, (refl, tt)) }, tt),
      )

-- A buffer of five frames.
abbrev mono : Format ℕ
mono = record { stream_identity = 7; sample_rate = 4; channels = discrete 1; window_frames = 2 }

abbrev five_frames : WindowScheduler ℕ ℕ
five_frames = record {
  config = half_second;
  active_stream = some 7;
  invalid_stream = none;
  sample_rate = some 4;
  channels = some (discrete 1);
  expected_next = none;
  timeline_origin = some origin;
  buffer_start = some origin;
  samples = 11 ∷ 12 ∷ 13 ∷ 14 ∷ 15 ∷ [];
}

cut_windows-Cuts_example :
    Cuts finite_code mono 0 5 [] five_frames (cut_windows finite_code 6 mono [] five_frames)
cut_windows-Cuts_example =
    cut_windows-Cuts finite_code mono 6 0 5 [] five_frames
      (record { frames = omega arith; bounded = omega arith; channels = omega arith })
      (record {
        whole = refl;
        finite = (refl, (refl, (refl, (refl, (refl, tt)))));
        start = refl;
        origin = refl;
      })
      (omega arith)
