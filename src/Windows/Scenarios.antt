-- ===== src/Windows/Scenarios.antt =====
-- Runs of a capture: one that is stopped, and one with a gap; and an owner that times out once.
use resonance_signal.Base.{
  ℕ, ◌≡◌, ◌⊎◌, refl, Bool, true, false, none, List, [], ◌∷◌, length, ltb, ok, err,
}
use Prim.Native.String.{String}
use resonance_signal.Signal.{positioned, mono, audio_frame}
use resonance_signal.Capture.{
  CaptureError, push, build, advance, new_builder, check_position, qpc_elapsed, packet_samples,
  frame_time_ns, decode_f32_le,
}
use resonance_signal.Windows.{
  CaptureEnd, CaptureStarted, CaptureMessage, CaptureRunError, kind, retry_hint, run_error,
  update_packet_evidence,
}
use resonance_signal.Contract.{ErrorKind}
use resonance_signal.Windows.Processing.{
  Received, Run, take_packet, process_capture, drain_until_end,
}
use resonance_signal.Windows.Lifecycle.{Stream, process_capture-Stream}
use resonance_signal.Windows.Owner.{
  CaptureOwner, Surroundings, RecvTimeout, received, timed_out, with_runner, run_capture,
}
use resonance_signal.Windows.Owner.Inv.{OwnerPhase, inert, Fits}
use resonance_signal.Windows.Owner.Calls.{
  OwnerCall, start_call, stop_call, wait_call, shutdown_call, run_calls, Moves, run_calls-Fits,
}

abbrev first_byte : ℕ → ℕ → ℕ → ℕ → ℕ
first_byte a b c d = a

abbrev finite_code : ℕ → Bool
finite_code sample = ltb sample 100

abbrev display : CaptureError ℕ → String
display e = "refused"

abbrev started : CaptureStarted
started = record {
  source_id = "source-1";
  endpoint_name = "Speakers";
  native_sample_rate_hz = 3;
  native_channel_count = 1;
  maximum_packet_frames = 4;
  format = record { sample_rate = 3; channels = positioned (mono ∷ []) };
}

abbrev packet : ℕ → ℕ → CaptureMessage
packet device_position qpc_timestamp_100ns = CaptureMessage.packet (record {
  buffer = 11 ∷ 0 ∷ 0 ∷ 0 ∷ 12 ∷ 0 ∷ 0 ∷ 0 ∷ [];
  byte_len = 8;
  frame_count = 2;
  device_position = device_position;
  qpc_timestamp_100ns = qpc_timestamp_100ns;
  flags = record { data_discontinuity = false; silent = false; timestamp_error = false };
  callback_interval = none;
  callback_duration = 0;
})

abbrev stopped : CaptureMessage
stopped = CaptureMessage.ended (record { end = CaptureEnd.stop_requested; diagnostic = none })

abbrev sent : Received
sent = (packet 40 7, true) ∷ (packet 42 9, true) ∷ (packet 45 11, true) ∷ (stopped, true) ∷ []

-- Two packets, then one that does not follow them, and the end of the capture.
abbrev messages : Received
messages = (CaptureMessage.started started, true) ∷ sent

abbrev run : Run ℕ
run = process_capture first_byte finite_code 0 display "stream-1-1" messages

-- The start, two frames, the error and the end.
events_test : length run.events ≡ 5
unfolding process_capture push build advance new_builder check_position qpc_elapsed packet_samples
    frame_time_ns decode_f32_le audio_frame drain_until_end take_packet update_packet_evidence
events_test = refl

drained_test : run.unread ≡ []
unfolding process_capture push build advance new_builder check_position qpc_elapsed packet_samples
    frame_time_ns decode_f32_le audio_frame drain_until_end take_packet update_packet_evidence
drained_test = refl

process_capture-Stream_example : Stream run.result run.events
process_capture-Stream_example =
    process_capture-Stream first_byte finite_code 0 display "stream-1-1" messages

spawn_test :
    (run_capture {Sample = ℕ} false (err "no thread") run true).result
    ≡ err (CaptureRunError.spawn "no thread")
unfolding run_capture
spawn_test = refl

-- A run whose thread sends nothing asks the thread to stop before it joins it.
silent_test :
    run_capture false
      (ok tt)
      (process_capture first_byte finite_code 0 display "stream-1-2" [])
      true
    ≡ record {
      result = err CaptureRunError.capture_channel_closed;
      stops_before_join = true;
      stops = true;
    }
unfolding run_capture process_capture
silent_test = refl

run_error_test :
    kind (
      run_error {Sample = ℕ} (record {
        kind = ErrorKind.internal;
        retry_hint = retry_hint {Sample = ℕ} CaptureRunError.evidence_overflow;
        message = "";
      }))
    ≡ ErrorKind.internal
unfolding run_error kind
run_error_test = refl

abbrev world : RecvTimeout ℕ → Surroundings ℕ
world answer = record { spawned = ok tt; recv_timeout = answer; joined = true }

abbrev calls : List (OwnerCall ℕ)
calls =
    start_call (world timed_out)
    ∷ wait_call 5 (world timed_out)
    ∷ start_call (world timed_out)
    ∷ shutdown_call 5 (world (received none))
    ∷ stop_call
    ∷ []

abbrev fresh : CaptureOwner ℕ ℕ ℕ
fresh = with_runner 8 7

fresh-Fits : Fits inert fresh
unfolding with_runner
fresh-Fits = (refl, refl, refl, refl, refl, refl)

run_calls-Fits_example :
    (o : CaptureOwner ℕ ℕ ℕ) × (phase : OwnerPhase) × (run_calls calls fresh ≡ ok o)
    × Fits phase o
    × Moves inert phase
    × ((fresh.completion ≡ none) ⊎ (o.completion ≡ fresh.completion))
run_calls-Fits_example = run_calls-Fits calls fresh inert fresh-Fits
