-- ===== src/Windows/Contiguity.antt =====
-- The audio frames of a run, against the packets that they were made of, and against the check that
-- the window scheduler makes of its input.
use resonance_signal.Base.{ℕ, ◌<◌, ◌≡◌, Bool, Option, none, some, List, [], ◌∷◌, ok}
use Prim.Native.String.{String}
use resonance_signal.Signal.{channel_count, FrameTimestamp, AudioFrame}
use resonance_signal.Capture.{AudioFrameBuilder, BuiltAudioFrame, CapturePacket, CaptureError, push}
use resonance_signal.Scheduling.{advance_timestamp}
use resonance_signal.Scheduling.Scheduler.{check_continuity}
use resonance_signal.Contract.{SignalPayload, StreamEvent}
use resonance_signal.Capture.Positions.{Follows}
use resonance_signal.Windows.{CaptureMessage}
use resonance_signal.Windows.Processing.{Received, PacketStep, deliver, discontinuous, abandon}

-- What was delivered last: a packet, and the frame that was made of it.
abbrev pub Last : Type 0 → Type 0
Last Sample = Option (CapturePacket × AudioFrame Sample)

module _ {Sample : Type 0} where
  -- The second frame starts where the first has ended, as far as the window scheduler checks it.
  abbrev pub Continues : AudioFrame Sample → AudioFrame Sample → Type 0
  Continues first second =
      (next : FrameTimestamp) × (advance_timestamp {Sample = Sample} first.window.start
          first.window.frame_count first.sample_rate
        ≡ ok next)
      × (check_continuity {Sample = Sample} (some next) second.window.start ≡ ok tt)

  -- Both the packet and the frame continue what was delivered last.
  abbrev pub Succeeds : Last Sample → CapturePacket → AudioFrame Sample → Type 0
  Succeeds none q second = Unit
  Succeeds (some (p, first)) q second = Follows p q × Continues first second

  -- The data of the events is one audio frame for each packet of the messages from the first one on,
  -- as long as it is, and each continues the one before it.
  abbrev pub Contiguous : Last Sample → Received → List (StreamEvent Sample) → Type 0
  Contiguous last messages [] = Unit
  Contiguous last messages (StreamEvent.started d ∷ events) = Contiguous last messages events
  Contiguous last messages (StreamEvent.error e ∷ events) = Contiguous last messages events
  Contiguous last messages (StreamEvent.ended i r ∷ events) = Contiguous last messages events
  Contiguous last [] (StreamEvent.signal s ∷ events) = ⊥
  Contiguous last ((CaptureMessage.started s', r) ∷ messages) (StreamEvent.signal s ∷ events) = ⊥
  Contiguous last ((CaptureMessage.ended t, r) ∷ messages) (StreamEvent.signal s ∷ events) = ⊥
  Contiguous last ((CaptureMessage.failed f, r) ∷ messages) (StreamEvent.signal s ∷ events) = ⊥
  Contiguous last ((CaptureMessage.packet p, r) ∷ messages) (StreamEvent.signal s ∷ events) =
      elim s.payload [
        | SignalPayload.waveform frame ↦
            (frame.window.frame_count ≡ p.frame_count)
            × Succeeds last p frame
            × Contiguous (some (p, frame)) messages events
        | SignalPayload.levels frame ↦ ⊥
        | SignalPayload.spectrum frame ↦ ⊥
      ]

module _ {Sample : Type 0} (from_le_bytes : ℕ → ℕ → ℕ → ℕ → Sample) (is_finite : Sample → Bool)
    (silence : Sample) (display : CaptureError Sample → String) where
  -- The frame is what the builder last made, of the packet, and where it stands.
  abbrev Made : Last Sample → AudioFrameBuilder → Type 0
  Made none b = Unit
  Made (some (p, frame)) b =
      (before : AudioFrameBuilder) × (built : BuiltAudioFrame Sample) × (0
        < channel_count before.format.channels)
      × (0 < before.format.sample_rate)
      × (push from_le_bytes is_finite silence before p ≡ (ok built, b))
      × (built.frame ≡ frame)

  -- A frame that a step delivers was made by the push of its packet.
  abbrev Delivers : AudioFrameBuilder → CapturePacket → PacketStep Sample → Type 0
  Delivers b p (deliver counted b' frame) =
      (built : BuiltAudioFrame Sample) × (push from_le_bytes is_finite silence b p ≡ (ok built, b'))
      × (built.frame ≡ frame)
  Delivers b p (discontinuous counted message) = Unit
  Delivers b p (abandon stops e) = Unit
