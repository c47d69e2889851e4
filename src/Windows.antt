-- ===== src/Windows.antt =====
-- crates/resonance-agent/src/windows.rs: the outcomes of a capture, the messages of the capture
-- thread, and the report of a run. A `Duration` is its count of nanoseconds, an error of the operating
-- system its text.
pub mod Processing
pub mod Lifecycle
pub mod Contiguity
pub mod Owner
mod Scenarios
use resonance_signal.Base.{
  ℕ, ◌≤◌, Bool, true, false, Option, none, some, Result, ok, err, ok_or, checked_add, leb, min, max,
  ◌>>=◌, if◌then◌else◌,
}
use Prim.Native.String.{String}
use resonance_signal.Capture.{
  CaptureFormat, CapturePacket, CaptureError, unsupported_channel_count, invalid_format,
}
use resonance_signal.Contract.{SourceId, ErrorKind}
use resonance_signal.Recovery.Types.{
  RetryHint, retry_now, retry_later, wait_for_source, change_format, do_not_retry,
}

abbrev pub Duration : Type 0
Duration = ℕ

pub data CaptureEnd : Type 0 where
  stop_requested duration_elapsed source_reconfigured source_unavailable : CaptureEnd
  interrupted data_discontinuity bounded_handoff_exhausted failed : CaptureEnd

pub record CaptureReport : Type 0 where
  pub endpoint_name : String
  pub native_sample_rate_hz : ℕ
  pub native_channel_count : ℕ
  pub output_sample_rate_hz : ℕ
  pub output_channel_count : ℕ
  pub maximum_packet_frames : ℕ
  pub packet_count : ℕ
  pub audio_frame_count : ℕ
  pub source_frame_count : ℕ
  pub minimum_packet_frames : Option ℕ
  pub maximum_observed_packet_frames : Option ℕ
  pub minimum_callback_interval : Option Duration
  pub maximum_callback_interval : Option Duration
  pub maximum_callback_duration : Option Duration
  pub minimum_qpc_delta : Option Duration
  pub maximum_qpc_delta : Option Duration
  pub initial_discontinuity_observed : Bool
  pub end : CaptureEnd
  pub end_diagnostic : Option String

pub data CaptureRunError (Sample : Type 0) : Type 0 where
  invalid_duration : CaptureRunError Sample
  source_unavailable unsupported_format spawn : String → CaptureRunError Sample
  capture_channel_closed capture_thread_panicked : CaptureRunError Sample
  backend contract protocol : String → CaptureRunError Sample
  evidence_overflow : CaptureRunError Sample
  capture : CaptureError Sample → CaptureRunError Sample

module _ {Sample : Type 0} where
  abbrev capture_kind : CaptureError Sample → ErrorKind
  capture_kind (unsupported_channel_count n) = ErrorKind.unsupported_format
  capture_kind (invalid_format e) = ErrorKind.unsupported_format
  capture_kind _ = ErrorKind.stream_interrupted

  -- `CaptureRunError::kind`
  unfoldable pub kind : CaptureRunError Sample → ErrorKind
  kind CaptureRunError.invalid_duration = ErrorKind.invalid_request
  kind (CaptureRunError.source_unavailable message) = ErrorKind.source_unavailable
  kind (CaptureRunError.unsupported_format message) = ErrorKind.unsupported_format
  kind (CaptureRunError.capture e) = capture_kind e
  kind _ = ErrorKind.internal

  abbrev capture_hint : CaptureError Sample → RetryHint
  capture_hint (unsupported_channel_count n) = change_format
  capture_hint (invalid_format e) = change_format
  capture_hint _ = retry_now

  -- `CaptureRunError::retry_hint`
  unfoldable pub retry_hint : CaptureRunError Sample → RetryHint
  retry_hint (CaptureRunError.source_unavailable message) = wait_for_source
  retry_hint (CaptureRunError.unsupported_format message) = change_format
  retry_hint (CaptureRunError.capture e) = capture_hint e
  retry_hint (CaptureRunError.backend message) = retry_later
  retry_hint _ = do_not_retry

pub record CaptureStarted : Type 0 where
  pub source_id : SourceId
  pub endpoint_name : String
  pub native_sample_rate_hz : ℕ
  pub native_channel_count : ℕ
  pub maximum_packet_frames : ℕ
  pub format : CaptureFormat

pub record CaptureFailure : Type 0 where
  pub kind : ErrorKind
  pub retry_hint : RetryHint
  pub message : String

pub record CaptureTermination : Type 0 where
  pub end : CaptureEnd
  pub diagnostic : Option String

pub data CaptureMessage : Type 0 where
  started : CaptureStarted → CaptureMessage
  packet : CapturePacket → CaptureMessage
  ended : CaptureTermination → CaptureMessage
  failed : CaptureFailure → CaptureMessage

abbrev failure_error : {Sample : Type 0} → ErrorKind → String → CaptureRunError Sample
failure_error ErrorKind.source_unavailable message = CaptureRunError.source_unavailable message
failure_error ErrorKind.unsupported_format message = CaptureRunError.unsupported_format message
failure_error _ message = CaptureRunError.backend message

-- `CaptureRunError::from`
unfoldable pub run_error : {Sample : Type 0} → CaptureFailure → CaptureRunError Sample
run_error failure = failure_error failure.kind failure.message

abbrev pub min_with : Option ℕ → ℕ → ℕ
min_with none value = value
min_with (some current) value = min current value

abbrev pub max_with : Option ℕ → ℕ → ℕ
max_with none value = value
max_with (some current) value = max current value

-- `update_duration_range`
abbrev pub update_minimum : Option Duration → Option Duration → Option Duration
update_minimum minimum none = minimum
update_minimum minimum (some value) = some (min_with minimum value)

abbrev pub update_maximum : Option Duration → Option Duration → Option Duration
update_maximum maximum none = maximum
update_maximum maximum (some value) = some (max_with maximum value)

-- The callback interval, in both bounds, and the rest.
unfoldable pub update_packet_evidence :
    {Sample : Type 0}
    → CaptureReport
    → CapturePacket
    → Result (CaptureRunError Sample) CaptureReport
update_packet_evidence evidence p = do
  packet_count ← ok_or (checked_add evidence.packet_count 1) CaptureRunError.evidence_overflow
  ok (record evidence {
    packet_count = packet_count;
    minimum_packet_frames = some (min_with evidence.minimum_packet_frames p.frame_count);
    maximum_observed_packet_frames =
        some (max_with evidence.maximum_observed_packet_frames p.frame_count);
    minimum_callback_interval =
        update_minimum evidence.minimum_callback_interval p.callback_interval;
    maximum_callback_interval =
        update_maximum evidence.maximum_callback_interval p.callback_interval;
    maximum_callback_duration =
        some (max_with evidence.maximum_callback_duration p.callback_duration);
  })
