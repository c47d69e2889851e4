-- ===== src/Windows/Processing.antt =====
-- crates/resonance-agent/src/windows.rs: the processing of what the capture thread sends, up to the
-- report of the run. The receiver of the channel is the list of the messages it will receive, each
-- with the outcome of giving the buffer of its packet back, and is closed after the last. What the
-- callback is called with is the list of the events; the callback itself returns.
use resonance_signal.Base.{
  ℕ, Bool, true, false, ◌||◌, Option, none, some, List, [], ◌∷◌, Result, ok, err, ok_or,
  checked_add, ◌>>=◌, if◌then◌else◌,
}
use Prim.Native.String.{String}
use resonance_signal.Signal.{AudioFrame, channel_count}
use resonance_signal.Capture.{
  CapturePacket, CaptureError, AudioFrameBuilder, BuiltAudioFrame, new_builder, push,
}
use resonance_signal.Contract.{
  SourceId, StreamId, SourceKind, SignalPayload, ErrorKind, ErrorScope, ProviderError,
  StreamEndReason, StreamEvent, IdentifierError, identifier_error_text, new_stream_id,
}
use resonance_signal.Recovery.Types.{RetryHint, retry_now, retry_later, wait_for_source}
use resonance_signal.Windows.{
  CaptureEnd, CaptureReport, CaptureRunError, CaptureStarted, CaptureMessage, run_error,
  update_minimum, update_maximum, update_packet_evidence,
}

abbrev pub text_or : Option String → String → String
text_or none default = default
text_or (some text) default = text

abbrev stream_error : ErrorKind → StreamId → RetryHint → String → ProviderError
stream_error kind stream_id hint message = record {
  kind = kind;
  scope = ErrorScope.stream stream_id;
  retry_hint = hint;
  message = message;
}

unfoldable pub contract_end :
    CaptureEnd → Option String → SourceId → StreamId → Option ProviderError × StreamEndReason
contract_end CaptureEnd.stop_requested diagnostic source_id stream_id =
    (none, StreamEndReason.provider_shutdown)
contract_end CaptureEnd.duration_elapsed diagnostic source_id stream_id =
    (none, StreamEndReason.consumer_cancelled)
contract_end CaptureEnd.source_reconfigured diagnostic source_id stream_id = (
  some (
      stream_error ErrorKind.stream_interrupted stream_id retry_now
        (text_or diagnostic "default playback device or stream format changed")),
  StreamEndReason.source_reconfigured,
)
contract_end CaptureEnd.source_unavailable diagnostic source_id stream_id = (
  some (record {
    kind = ErrorKind.source_unavailable;
    scope = ErrorScope.source source_id;
    retry_hint = wait_for_source;
    message = text_or diagnostic "default playback endpoint became unavailable";
  }),
  StreamEndReason.source_ended,
)
contract_end CaptureEnd.interrupted diagnostic source_id stream_id = (
  some (
      stream_error ErrorKind.stream_interrupted stream_id retry_later
        (text_or diagnostic "WASAPI audio session was interrupted")),
  StreamEndReason.failed,
)
contract_end CaptureEnd.bounded_handoff_exhausted diagnostic source_id stream_id = (
  some (
      stream_error ErrorKind.resource_exhausted stream_id retry_later (
        text_or diagnostic
          "bounded capture handoff exhausted; no audio packet was silently dropped")),
  StreamEndReason.failed,
)
contract_end CaptureEnd.data_discontinuity diagnostic source_id stream_id = (
  some (
      stream_error ErrorKind.stream_interrupted stream_id retry_now
        (text_or diagnostic "capture continuity could not be proven")),
  StreamEndReason.failed,
)
contract_end CaptureEnd.failed diagnostic source_id stream_id = (
  some (
      stream_error ErrorKind.internal stream_id retry_later
        (text_or diagnostic "Windows capture failed")),
  StreamEndReason.failed,
)

abbrev pub is_end : CaptureMessage → Bool
is_end (CaptureMessage.ended termination) = true
is_end (CaptureMessage.failed failure) = true
is_end _ = false

abbrev pub Received : Type 0
Received = List (CaptureMessage × Bool)

-- The messages left after the first that ends the capture.
unfoldable pub drain_until_end : Received → Received
drain_until_end [] = []
drain_until_end ((message, recycled) ∷ messages) =
    let rest = drain_until_end messages in if is_end message then messages else rest

-- A run: the events in their order, whether it has requested a stop, its result, and the messages
-- that it has not received.
pub record Run (Sample : Type 0) : Type 0 where
  pub events : List (StreamEvent Sample)
  pub stops : Bool
  pub result : Result (CaptureRunError Sample) CaptureReport
  pub unread : Received

abbrev pub emit : {Sample : Type 0} → StreamEvent Sample → Run Sample → Run Sample
emit event run = record run { events = event ∷ run.events }

abbrev pub emit_some : {Sample : Type 0} → Option ProviderError → Run Sample → Run Sample
emit_some none run = run
emit_some (some e) run = emit (StreamEvent.error e) run

abbrev pub finish :
    {Sample : Type 0} → Bool → Result (CaptureRunError Sample) CaptureReport → Received → Run Sample
finish stops result unread = record { events = []; stops = stops; result = result; unread = unread }

-- The report before the first packet.
unfoldable pub initial_evidence : CaptureStarted → CaptureReport
initial_evidence started = record {
  endpoint_name = started.endpoint_name;
  native_sample_rate_hz = started.native_sample_rate_hz;
  native_channel_count = started.native_channel_count;
  output_sample_rate_hz = started.format.sample_rate;
  output_channel_count = channel_count started.format.channels;
  maximum_packet_frames = started.maximum_packet_frames;
  packet_count = 0;
  audio_frame_count = 0;
  source_frame_count = 0;
  minimum_packet_frames = none;
  maximum_observed_packet_frames = none;
  minimum_callback_interval = none;
  maximum_callback_interval = none;
  maximum_callback_duration = none;
  minimum_qpc_delta = none;
  maximum_qpc_delta = none;
  initial_discontinuity_observed = false;
  end = CaptureEnd.failed;
  end_diagnostic = some "capture channel closed without an end event";
}

-- What the loop does with a packet.
pub data PacketStep (Sample : Type 0) : Type 0 where
  deliver : CaptureReport → AudioFrameBuilder → AudioFrame Sample → PacketStep Sample
  discontinuous : CaptureReport → (message : String) → PacketStep Sample
  abandon : (stops : Bool) → CaptureRunError Sample → PacketStep Sample

module _ {Sample : Type 0} where
  -- The evidence of a frame.
  unfoldable pub frame_evidence :
      CaptureReport → BuiltAudioFrame Sample → Result (CaptureRunError Sample) CaptureReport
  frame_evidence evidence built = do
    audio_frame_count ←
        ok_or (checked_add evidence.audio_frame_count 1) CaptureRunError.evidence_overflow
    source_frame_count ←
        ok_or (checked_add evidence.source_frame_count built.frame.window.frame_count)
          CaptureRunError.evidence_overflow
    ok (record evidence {
      initial_discontinuity_observed =
          evidence.initial_discontinuity_observed || built.initial_discontinuity;
      minimum_qpc_delta = update_minimum evidence.minimum_qpc_delta built.qpc_delta;
      maximum_qpc_delta = update_maximum evidence.maximum_qpc_delta built.qpc_delta;
      audio_frame_count = audio_frame_count;
      source_frame_count = source_frame_count;
    })

  -- The built frame, or its error, after the buffer was given back.
  unfoldable pub take_built :
      (CaptureError Sample → String)
      → CaptureReport
      → AudioFrameBuilder
      → Result (CaptureError Sample) (BuiltAudioFrame Sample)
      → PacketStep Sample
  unfolding frame_evidence
  take_built display evidence b (ok built) = elim (frame_evidence evidence built) [
    | ok counted ↦ deliver counted b built.frame
    | err e ↦ abandon false e
  ]
  take_built display evidence b (err e) =
      discontinuous
        (record evidence { end = CaptureEnd.data_discontinuity; end_diagnostic = some (display e) })
        (display e)

module _ {Sample : Type 0} (from_le_bytes : ℕ → ℕ → ℕ → ℕ → Sample) (is_finite : Sample → Bool)
    (silence : Sample) (display : CaptureError Sample → String) where
  -- The arm of a packet.
  unfoldable pub take_packet :
      CaptureReport → AudioFrameBuilder → CapturePacket → Bool → PacketStep Sample
  unfolding take_built
  take_packet evidence b p recycled = elim (update_packet_evidence {Sample = Sample} evidence p) [
    | err e ↦ abandon false e
    | ok counted ↦
        let (built, b') = push from_le_bytes is_finite silence b p in
        if recycled
        then take_built display counted b' built
        else abandon true (CaptureRunError.protocol "capture buffer recycle failed")
  ]

  -- The end of the stream after a packet that was refused.
  abbrev pub refuse : StreamId → CaptureReport → String → Received → Run Sample
  refuse stream_id evidence message messages =
      emit
        (StreamEvent.error (record {
          kind = ErrorKind.stream_interrupted;
          scope = ErrorScope.stream stream_id;
          retry_hint = retry_now;
          message = message;
        }))
        (emit (StreamEvent.ended stream_id StreamEndReason.failed)
          (finish true (ok evidence) (drain_until_end messages)))

  abbrev pub end_with :
      StreamId → CaptureReport → Option ProviderError × StreamEndReason → Received → Run Sample
  end_with stream_id evidence (e, reason) messages =
      emit_some e (emit (StreamEvent.ended stream_id reason) (finish false (ok evidence) messages))

  -- What follows a packet; the loop goes on where its frame was delivered.
  abbrev pub after_packet :
      StreamId
      → Received
      → (CaptureReport → AudioFrameBuilder → Run Sample)
      → PacketStep Sample
      → Run Sample
  after_packet stream_id rest loop (deliver counted b frame) =
      emit
        (StreamEvent.signal
          (record { stream_id = stream_id; payload = SignalPayload.waveform frame }))
        (loop counted b)
  after_packet stream_id rest loop (discontinuous counted message) =
      refuse stream_id counted message rest
  after_packet stream_id rest loop (abandon stops e) = finish stops (err e) rest

  -- The loop over the messages.
  unfoldable pub process_messages :
      SourceId → StreamId → CaptureReport → AudioFrameBuilder → Received → Run Sample
  unfolding contract_end
  process_messages source_id stream_id evidence b [] =
      finish false (err CaptureRunError.capture_channel_closed) []
  process_messages source_id stream_id evidence b ((CaptureMessage.packet p, recycled) ∷ rest) =
      after_packet stream_id rest
        (λ counted b'. process_messages source_id stream_id counted b' rest)
        (take_packet evidence b p recycled)
  process_messages source_id stream_id evidence b ((CaptureMessage.ended t, recycled) ∷ rest) =
      end_with stream_id (record evidence { end = t.end; end_diagnostic = t.diagnostic })
        (contract_end t.end t.diagnostic source_id stream_id) rest
  process_messages source_id stream_id evidence b ((CaptureMessage.failed f, recycled) ∷ rest) =
      emit
        (StreamEvent.error (record {
          kind = f.kind;
          scope = ErrorScope.stream stream_id;
          retry_hint = f.retry_hint;
          message = f.message;
        }))
        (emit (StreamEvent.ended stream_id StreamEndReason.failed) (
          finish false
            (ok (record evidence { end = CaptureEnd.failed; end_diagnostic = some f.message }))
            rest))
  process_messages source_id stream_id evidence b ((CaptureMessage.started s, recycled) ∷ rest) =
      finish true (err (CaptureRunError.protocol "capture started more than once")) rest

  -- After the first message, with the id of the stream or the error that its name is blank.
  unfoldable pub process_started :
      CaptureStarted → Received → Result IdentifierError StreamId → Run Sample
  unfolding process_messages initial_evidence
  process_started started rest (err e) =
      finish false (err (CaptureRunError.contract (identifier_error_text e))) rest
  process_started started rest (ok stream_id) =
      emit
        (StreamEvent.started (record {
          stream_id = stream_id;
          source_id = started.source_id;
          source_kind = SourceKind.playback;
          sample_rate = started.format.sample_rate;
          channels = started.format.channels;
        }))
        (process_messages started.source_id stream_id (initial_evidence started)
          (new_builder started.format) rest)

  -- The name of the stream, made of the process and a sequence number, is an argument.
  unfoldable pub process_capture : String → Received → Run Sample
  unfolding process_started new_stream_id
  process_capture stream_name [] = finish false (err CaptureRunError.capture_channel_closed) []
  process_capture stream_name ((CaptureMessage.started s, recycled) ∷ rest) =
      process_started s rest (new_stream_id stream_name)
  process_capture stream_name ((CaptureMessage.failed f, recycled) ∷ rest) =
      finish false (err (run_error f)) rest
  process_capture stream_name ((_, recycled) ∷ rest) =
      finish false (err (CaptureRunError.protocol "capture did not start first")) rest
