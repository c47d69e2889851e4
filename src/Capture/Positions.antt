-- ===== src/Capture/Positions.antt =====
-- The packets that the frame builder accepts, against the positions of the device.
use resonance_signal.Base.{ℕ, ◌+◌, ◌<◌, ◌≡◌, ◌∙◌, Bool, false, some, ok, ap, arith}
use mathlib.Core.Path.{subst}
use resonance_signal.Signal.{channel_count}
use resonance_signal.Capture.{
  CaptureFormat, AudioFrameBuilder, BuiltAudioFrame, CapturePacket, check_position, push,
}
use resonance_signal.Capture.Continuity.{push-Built}

-- The second packet was taken from the device right after the first, and no data was lost between.
abbrev pub Follows : CapturePacket → CapturePacket → Type 0
Follows p q =
    (q.device_position ≡ p.device_position + p.frame_count) × (q.flags.data_discontinuity ≡ false)

module _ {Sample : Type 0} (from_le_bytes : ℕ → ℕ → ℕ → ℕ → Sample)
    (is_finite : Sample → Bool) where
  check_position-some :
      (expected : ℕ) (q : CapturePacket)
      → check_position {Sample = Sample} (some expected) q ≡ ok tt
      → (q.device_position ≡ expected) × (q.flags.data_discontinuity ≡ false)
  unfolding check_position
  check_position-some expected q h = ground arith

  pub push-frame_count :
      (silence : Sample) (b b' : AudioFrameBuilder) (p : CapturePacket)
      (out : BuiltAudioFrame Sample)
      → 0 < channel_count b.format.channels
      → push from_le_bytes is_finite silence b p ≡ (ok out, b')
      → out.frame.window.frame_count ≡ p.frame_count
  push-frame_count silence b b' p out pos h =
      (push-Built from_le_bytes is_finite silence b b' p out pos h).0.count

  -- Of two packets that the builder takes one after the other, the second follows the first.
  pub push-Follows :
      (silence : Sample) (b b' b'' : AudioFrameBuilder) (p q : CapturePacket)
      (first second : BuiltAudioFrame Sample)
      → 0 < channel_count b.format.channels
      → push from_le_bytes is_finite silence b p ≡ (ok first, b')
      → push from_le_bytes is_finite silence b' q ≡ (ok second, b'')
      → Follows p q
  push-Follows silence b b' b'' p q first second pos h k =
      let (one, moved, same, fits, place) =
        push-Built from_le_bytes is_finite silence b b' p first pos h in
      let pos' : 0 < channel_count b'.format.channels =
        subst (λ (f : CaptureFormat). 0 < channel_count f.channels) same pos in
      let two = (push-Built from_le_bytes is_finite silence b' b'' q second pos' k).0 in
      check_position-some (p.device_position + p.frame_count) q
        (ap (λ o. check_position {Sample = Sample} o q) place ∙ two.position)
