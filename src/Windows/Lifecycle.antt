-- ===== src/Windows/Lifecycle.antt =====
-- The events of a run, against the lifecycle of a stream, and the report against the events.
use resonance_signal.Base.{
  ℕ, ◌+◌, ◌≡◌, refl, sym, ap, Bool, false, Option, none, some, List, [], ◌∷◌, Result, ok, err,
  is_ok, ◌∙◌, inl, inr, Bool-cases, Result-cases, arith,
}
use Prim.Native.String.{String}
use mathlib.Core.Path.{subst}
use resonance_signal.Capture.{
  AudioFrameBuilder, BuiltAudioFrame, CapturePacket, CaptureError, push, new_builder,
}
use resonance_signal.Contract.{
  SourceId, StreamId, SignalPayload, StreamEndReason, StreamEvent, ProviderError, IdentifierError,
  new_stream_id,
}
use resonance_signal.Windows.{
  CaptureEnd, CaptureReport, CaptureMessage, CaptureRunError, CaptureStarted,
  update_packet_evidence,
}
use resonance_signal.Windows.Processing.{
  contract_end, Received, Run, PacketStep, deliver, discontinuous, abandon, initial_evidence,
  frame_evidence, take_built, take_packet, process_messages, process_started, process_capture,
  after_packet, end_with,
}

-- The reason that the contract gives for an end.
abbrev pub reason_of : CaptureEnd → StreamEndReason
reason_of end = (contract_end end none "" "").1

abbrev pub payload_frames : {Sample : Type 0} → SignalPayload Sample → ℕ
payload_frames (SignalPayload.waveform frame) = frame.window.frame_count
payload_frames (SignalPayload.levels frame) = 0
payload_frames (SignalPayload.spectrum frame) = 0

-- `Counts n k r`: a report that came counts n frames of audio with k source frames in all.
abbrev pub Counts :
    {Sample : Type 0} → ℕ → ℕ → Result (CaptureRunError Sample) CaptureReport → Type 0
Counts n k (ok report) = (report.audio_frame_count ≡ n) × (report.source_frame_count ≡ k)
Counts n k (err e) = Unit

-- The last event of a stream: it is ended for the reason of the report, after n frames.
abbrev pub Ends :
    {Sample : Type 0}
    → StreamId
    → ℕ
    → ℕ
    → Result (CaptureRunError Sample) CaptureReport
    → List (StreamEvent Sample)
    → Type 0
Ends id n k (ok report) (StreamEvent.ended stream_id reason ∷ []) =
    (stream_id ≡ id)
    × (reason ≡ reason_of report.end)
    × (report.audio_frame_count ≡ n)
    × (report.source_frame_count ≡ k)
Ends id n k result events = ⊥

-- The errors that break a run off after its stream has started.
abbrev pub Breaks : {Sample : Type 0} → CaptureRunError Sample → Type 0
Breaks CaptureRunError.capture_channel_closed = Unit
Breaks CaptureRunError.evidence_overflow = Unit
Breaks (CaptureRunError.protocol message) = Unit
Breaks e = ⊥

abbrev pub BrokenOff : {Sample : Type 0} → Result (CaptureRunError Sample) CaptureReport → Type 0
BrokenOff (ok report) = ⊥
BrokenOff (err e) = Breaks e

-- What follows the start of a stream, after n frames of audio with k source frames: data of the
-- stream, then its end, which one error may precede. Exactly a run with a report reaches the end; one
-- that is broken off ends in its data.
abbrev pub InStream :
    {Sample : Type 0}
    → StreamId
    → ℕ
    → ℕ
    → Result (CaptureRunError Sample) CaptureReport
    → List (StreamEvent Sample)
    → Type 0
InStream id n k result [] = BrokenOff result
InStream id n k result (StreamEvent.started d ∷ events) = ⊥
InStream id n k result (StreamEvent.signal p ∷ events) =
    (p.stream_id ≡ id) × InStream id (n + 1) (k + payload_frames p.payload) result events
InStream id n k result (StreamEvent.error e ∷ events) = Ends id n k result events
InStream id n k result (StreamEvent.ended i r ∷ events) =
    Ends id n k result (StreamEvent.ended i r ∷ events)

-- The events of a whole run.
abbrev pub Stream :
    {Sample : Type 0}
    → Result (CaptureRunError Sample) CaptureReport
    → List (StreamEvent Sample)
    → Type 0
Stream result [] = is_ok result ≡ false
Stream result (StreamEvent.started d ∷ events) = InStream d.stream_id 0 0 result events
Stream result (event ∷ events) = ⊥

contract_end-reason :
    (end : CaptureEnd) (diagnostic : Option String) (source_id : SourceId) (stream_id : StreamId)
    → (contract_end end diagnostic source_id stream_id).1 ≡ reason_of end
unfolding contract_end
contract_end-reason CaptureEnd.stop_requested diagnostic source_id stream_id = refl
contract_end-reason CaptureEnd.duration_elapsed diagnostic source_id stream_id = refl
contract_end-reason CaptureEnd.source_reconfigured diagnostic source_id stream_id = refl
contract_end-reason CaptureEnd.source_unavailable diagnostic source_id stream_id = refl
contract_end-reason CaptureEnd.interrupted diagnostic source_id stream_id = refl
contract_end-reason CaptureEnd.data_discontinuity diagnostic source_id stream_id = refl
contract_end-reason CaptureEnd.bounded_handoff_exhausted diagnostic source_id stream_id = refl
contract_end-reason CaptureEnd.failed diagnostic source_id stream_id = refl

failed_reason : StreamEndReason.failed ≡ reason_of CaptureEnd.failed
unfolding contract_end
failed_reason = refl

discontinuity_reason : StreamEndReason.failed ≡ reason_of CaptureEnd.data_discontinuity
unfolding contract_end
discontinuity_reason = refl

module _ {Sample : Type 0} (from_le_bytes : ℕ → ℕ → ℕ → ℕ → Sample) (is_finite : Sample → Bool)
    (silence : Sample) (display : CaptureError Sample → String) where
  -- What a step on a packet says of the counts, of the end that a refused packet leaves, and of the
  -- error of one that breaks the run off.
  abbrev StepCounts : CaptureReport → PacketStep Sample → Type 0
  StepCounts evidence (deliver counted b frame) =
      (counted.audio_frame_count ≡ evidence.audio_frame_count + 1)
      × (counted.source_frame_count ≡ evidence.source_frame_count + frame.window.frame_count)
  StepCounts evidence (discontinuous counted message) =
      (counted.audio_frame_count ≡ evidence.audio_frame_count)
      × (counted.source_frame_count ≡ evidence.source_frame_count)
      × (counted.end ≡ CaptureEnd.data_discontinuity)
  StepCounts evidence (abandon stops e) = Breaks e

  frame_evidence-counts :
      (evidence counted : CaptureReport) (built : BuiltAudioFrame Sample)
      → frame_evidence evidence built ≡ ok counted
      → (counted.audio_frame_count ≡ evidence.audio_frame_count + 1)
        × (counted.source_frame_count
            ≡ evidence.source_frame_count + built.frame.window.frame_count)
  unfolding frame_evidence
  frame_evidence-counts evidence counted built h = ground arith

  frame_evidence-Breaks :
      (evidence : CaptureReport) (built : BuiltAudioFrame Sample) (e : CaptureRunError Sample)
      → frame_evidence evidence built ≡ err e
      → Breaks e
  unfolding frame_evidence
  frame_evidence-Breaks evidence built e h =
      let same : CaptureRunError.evidence_overflow ≡ e = ground arith in subst Breaks same tt

  update_packet_evidence-Breaks :
      (evidence : CaptureReport) (p : CapturePacket) (e : CaptureRunError Sample)
      → update_packet_evidence {Sample = Sample} evidence p ≡ err e
      → Breaks e
  unfolding update_packet_evidence
  update_packet_evidence-Breaks evidence p e h =
      let same : CaptureRunError.evidence_overflow ≡ e = ground arith in subst Breaks same tt

  update_packet_evidence-counts :
      (evidence counted : CaptureReport) (p : CapturePacket)
      → update_packet_evidence {Sample = Sample} evidence p ≡ ok counted
      → (counted.audio_frame_count ≡ evidence.audio_frame_count)
        × (counted.source_frame_count ≡ evidence.source_frame_count)
  unfolding update_packet_evidence
  update_packet_evidence-counts evidence counted p h = ground arith

  take_built-counts :
      (evidence : CaptureReport) (b : AudioFrameBuilder)
      (built : Result (CaptureError Sample) (BuiltAudioFrame Sample))
      → StepCounts evidence (take_built display evidence b built)
  unfolding take_built
  take_built-counts evidence b (ok built) = elim (Result-cases (frame_evidence evidence built)) [
    | inl (counted, e) ↦ rw (e, StepCounts) (frame_evidence-counts evidence counted built e)
    | inr (x, e) ↦ rw (e, StepCounts) (frame_evidence-Breaks evidence built x e)
  ]
  take_built-counts evidence b (err e) = (refl, refl, refl)

  StepCounts-trans :
      (evidence counted : CaptureReport) (step : PacketStep Sample)
      → counted.audio_frame_count ≡ evidence.audio_frame_count
      → counted.source_frame_count ≡ evidence.source_frame_count
      → StepCounts counted step
      → StepCounts evidence step
  StepCounts-trans evidence counted (deliver c b frame) h k s = omega arith
  StepCounts-trans evidence counted (discontinuous c message) h k s = (s.0 ∙ h, s.1 ∙ k, s.2)
  StepCounts-trans evidence counted (abandon stops e) h k s = s

  take_packet-counts :
      (evidence : CaptureReport) (b : AudioFrameBuilder) (p : CapturePacket) (recycled : Bool)
      → StepCounts evidence
          (take_packet from_le_bytes is_finite silence display evidence b p recycled)
  unfolding take_packet
  take_packet-counts evidence b p recycled =
      elim (Result-cases (update_packet_evidence {Sample = Sample} evidence p)) [
        | inr (x, e) ↦ rw (e, StepCounts) (update_packet_evidence-Breaks evidence p x e)
        | inl (counted, e) ↦
            let (h, k) = update_packet_evidence-counts evidence counted p e in
            rw (e, StepCounts)
              (elim (Bool-cases recycled) [
                | inr lost ↦ rw (lost, StepCounts) tt
                | inl sent ↦
                    rw (sent, StepCounts)
                      (StepCounts-trans evidence counted _ h k (
                        take_built-counts counted (push from_le_bytes is_finite silence b p).1
                          (push from_le_bytes is_finite silence b p).0))
              ])
      ]

  end_with-InStream :
      (id : StreamId) (evidence : CaptureReport) (last : Option ProviderError × StreamEndReason)
      (messages : Received)
      → last.1 ≡ reason_of evidence.end
      → InStream id evidence.audio_frame_count evidence.source_frame_count
          (end_with from_le_bytes is_finite silence display id evidence last messages).result
          (end_with from_le_bytes is_finite silence display id evidence last messages).events
  end_with-InStream id evidence (none, reason) messages h = (refl, h, refl, refl)
  end_with-InStream id evidence (some e, reason) messages h = (refl, h, refl, refl)

  after_packet-InStream :
      (id : StreamId) (evidence : CaptureReport) (rest : Received)
      (loop : CaptureReport → AudioFrameBuilder → Run Sample) (step : PacketStep Sample)
      → ((counted : CaptureReport) (b : AudioFrameBuilder)
          → InStream id counted.audio_frame_count counted.source_frame_count
              (loop counted b).result
              (loop counted b).events)
      → StepCounts evidence step
      → let run = after_packet from_le_bytes is_finite silence display id rest loop step in
        InStream id evidence.audio_frame_count evidence.source_frame_count run.result run.events
  after_packet-InStream id evidence rest loop (deliver counted b frame) ih (n, k) =
      (refl, rw (← n, ← k) (ih counted b))
  after_packet-InStream id evidence rest loop (discontinuous counted message) ih (n, k, e) =
      (refl, discontinuity_reason ∙ sym (ap reason_of e), n, k)
  after_packet-InStream id evidence rest loop (abandon stops e) ih h = h

  process_messages-InStream :
      (source_id : SourceId) (id : StreamId) (evidence : CaptureReport) (b : AudioFrameBuilder)
      (messages : Received)
      → let run =
          process_messages from_le_bytes is_finite silence display source_id id evidence b
            messages in
        InStream id evidence.audio_frame_count evidence.source_frame_count run.result run.events
  unfolding process_messages
  process_messages-InStream source_id id evidence b [] = tt
  process_messages-InStream source_id id evidence b ((CaptureMessage.started s, r) ∷ rest) = tt
  process_messages-InStream source_id id evidence b ((CaptureMessage.failed f, r) ∷ rest) =
      (refl, failed_reason, refl, refl)
  process_messages-InStream source_id id evidence b ((CaptureMessage.ended t, r) ∷ rest) =
      end_with-InStream id (record evidence { end = t.end; end_diagnostic = t.diagnostic })
        (contract_end t.end t.diagnostic source_id id) rest
        (contract_end-reason t.end t.diagnostic source_id id)
  process_messages-InStream source_id id evidence b ((CaptureMessage.packet p, r) ∷ rest) =
      after_packet-InStream id evidence rest
        (λ counted b'.
          process_messages from_le_bytes is_finite silence display source_id id counted b' rest)
        (take_packet from_le_bytes is_finite silence display evidence b p r)
        (λ counted b'. process_messages-InStream source_id id counted b' rest)
        (take_packet-counts evidence b p r)

  process_started-Stream :
      (started : CaptureStarted) (rest : Received) (id : Result IdentifierError StreamId)
      → let run = process_started from_le_bytes is_finite silence display started rest id in
        Stream run.result run.events
  unfolding process_started
  process_started-Stream started rest (err e) = refl
  process_started-Stream started rest (ok id) =
      process_messages-InStream started.source_id id (initial_evidence started)
        (new_builder started.format) rest

  -- The events of a run, whatever the capture thread sends, are none, where the run returns an error
  -- before its stream starts, or those of one stream: its start comes first and does not come again,
  -- then comes its data; every packet, and the end where there is one, carries the id of its
  -- descriptor. Exactly where the run returns a report, the end is delivered, after at most one error
  -- and with nothing after it: for the reason that the contract gives for the end that the report
  -- names, and the report counts the audio frames that were delivered, and the source frames in
  -- them. A run that returns an error after the start delivers no end and no error; that error is a
  -- closed channel, an overflow of the evidence or a breach of the protocol with the capture thread.
  pub process_capture-Stream :
      (stream_name : String) (messages : Received)
      → let run = process_capture from_le_bytes is_finite silence display stream_name messages in
        Stream run.result run.events
  unfolding process_capture
  process_capture-Stream stream_name [] = refl
  process_capture-Stream stream_name ((CaptureMessage.started s, r) ∷ rest) =
      process_started-Stream s rest (new_stream_id stream_name)
  process_capture-Stream stream_name ((CaptureMessage.failed f, r) ∷ rest) = refl
  process_capture-Stream stream_name ((CaptureMessage.packet p, r) ∷ rest) = refl
  process_capture-Stream stream_name ((CaptureMessage.ended t, r) ∷ rest) = refl
