-- ===== src/Scheduling/Scheduler.antt =====
-- crates/resonance-core/src/scheduling.rs: the window scheduler. `push_batch` is a function from the
-- scheduler to its result and the scheduler that it leaves, also on an error. The identity of a
-- stream is a parameter with its equality, as in the source.
use resonance_signal.Base.{
  ℕ, ◌-◌, ◌/◌, Bool, true, false, Option, none, some, List, [], ◌∷◌, length, ◌&&◌, ◌==◌, leb, ltb,
  Result, ok, err, ◌>>=◌, ◌>>◌, ok_or, ensure, u32_max, checked_add, if◌then◌else◌,
}
use resonance_signal.Signal.{
  SampleRate, ChannelPosition, ChannelLayout, discrete, positioned, channel_count, FrameTimestamp,
  AudioFrame, position_index,
}
use resonance_signal.Scheduling.{
  WindowSchedulerConfig, SchedulingError, input_frame_count_overflow, format_changed_within_stream,
  frame_index_discontinuity, timestamp_discontinuity, advance_timestamp,
}

abbrev pub positions_eq : List ChannelPosition → List ChannelPosition → Bool
positions_eq [] [] = true
positions_eq (x ∷ xs) (y ∷ ys) = position_index x == position_index y && positions_eq xs ys
positions_eq _ _ = false

-- `==` of two channel layouts
abbrev pub layout_eq : ChannelLayout → ChannelLayout → Bool
layout_eq (discrete m) (discrete n) = m == n
layout_eq (positioned xs) (positioned ys) = positions_eq xs ys
layout_eq _ _ = false

pub record ScheduledWindow (Stream Sample : Type 0) : Type 0 where
  pub stream_identity : Stream
  pub frame : AudioFrame Sample

pub record StreamBoundary (Stream : Type 0) : Type 0 where
  pub previous_stream : Stream
  pub current_stream : Stream
  pub discarded_partial_frames : ℕ

pub record SchedulingResult (Stream Sample : Type 0) : Type 0 where
  pub windows : List (ScheduledWindow Stream Sample)
  pub stream_boundary : Option (StreamBoundary Stream)

pub record WindowScheduler (Stream Sample : Type 0) : Type 0 where
  pub config : WindowSchedulerConfig
  pub active_stream : Option Stream
  pub invalid_stream : Option Stream
  pub sample_rate : Option SampleRate
  pub channels : Option ChannelLayout
  pub timeline_origin : Option FrameTimestamp
  pub expected_next : Option FrameTimestamp
  pub buffer_start : Option FrameTimestamp
  pub samples : List Sample

-- A push ends with an error, or with a panic of an `expect`; `out_of_fuel` stands for a loop that is
-- cut off, which does not happen.
pub data Failure (Sample : Type 0) : Type 0 where
  error : SchedulingError Sample → Failure Sample
  panic out_of_fuel : Failure Sample

-- `map_err`, into an error of the scheduler
abbrev pub lift :
    {E A Sample : Type 0} → (E → SchedulingError Sample) → Result E A → Result (Failure Sample) A
lift f (ok a) = ok a
lift f (err e) = err (error (f e))

-- An error of the source's own type.
abbrev pub raised :
    {A Sample : Type 0} → Result (SchedulingError Sample) A → Result (Failure Sample) A
raised (ok a) = ok a
raised (err e) = err (error e)

-- The distance of two numbers, `abs_diff`.
abbrev abs_diff : ℕ → ℕ → ℕ
abs_diff a b = if ltb a b then b - a else a - b

abbrev timestamp_tolerance_ns : ℕ
timestamp_tolerance_ns = 1

module _ {Stream Sample : Type 0} where
  unfoldable pub new : WindowSchedulerConfig → WindowScheduler Stream Sample
  new config = record {
    config = config;
    active_stream = none;
    invalid_stream = none;
    sample_rate = none;
    channels = none;
    timeline_origin = none;
    expected_next = none;
    buffer_start = none;
    samples = [];
  }

  abbrev pub clear_stream_state : WindowScheduler Stream Sample → WindowScheduler Stream Sample
  clear_stream_state s = record s {
    sample_rate = none;
    channels = none;
    timeline_origin = none;
    expected_next = none;
    buffer_start = none;
    samples = [];
  }

  unfoldable pub invalidate : Stream → WindowScheduler Stream Sample → WindowScheduler Stream Sample
  invalidate stream_identity s = record (clear_stream_state s) {
    active_stream = some stream_identity;
    invalid_stream = some stream_identity;
  }

  -- A division by no channels would panic too.
  unfoldable pub buffered_frame_count : WindowScheduler Stream Sample → Result (Failure Sample) ℕ
  buffered_frame_count s = elim s.channels [
    | none ↦ ok 0
    | some channels ↦
        if channel_count channels == 0
        then err panic
        else (if leb (length s.samples / channel_count channels) u32_max
            then ok (length s.samples / channel_count channels)
            else err panic)
  ]

module _ {Sample : Type 0} where
  -- `try_fold` of the frame counts
  unfoldable pub input_frame_count :
      ℕ → List (AudioFrame Sample) → Result (SchedulingError Sample) ℕ
  input_frame_count total [] = ok total
  input_frame_count total (frame ∷ frames) =
      ok_or (checked_add total frame.window.frame_count) input_frame_count_overflow >>= λ sum.
      input_frame_count sum frames

  -- The checks on a frame where the next start is expected.
  unfoldable pub check_continuity :
      Option FrameTimestamp → FrameTimestamp → Result (SchedulingError Sample) (Unit {0})
  check_continuity none actual = ok tt
  check_continuity (some expected) actual = do
    ensure (actual.frame_index == expected.frame_index)
        (frame_index_discontinuity expected.frame_index actual.frame_index)
    ensure (leb (abs_diff actual.stream_time_ns expected.stream_time_ns) timestamp_tolerance_ns)
        (timestamp_discontinuity expected.stream_time_ns actual.stream_time_ns)

  -- The loop over the frames that checks them, with the start that it expects next.
  unfoldable pub check_frames :
      SampleRate
      → ChannelLayout
      → Option FrameTimestamp
      → List (AudioFrame Sample)
      → Result (SchedulingError Sample) (Option FrameTimestamp)
  check_frames sample_rate channels expected [] = ok expected
  check_frames sample_rate channels expected (frame ∷ frames) =
      ensure (frame.sample_rate == sample_rate && layout_eq frame.channels channels)
        format_changed_within_stream
      >>= λ _. check_continuity expected frame.window.start >>= λ _.
          advance_timestamp frame.window.start frame.window.frame_count sample_rate >>= λ next.
          check_frames sample_rate channels (some next) frames
