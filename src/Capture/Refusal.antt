-- ===== src/Capture/Refusal.antt =====
-- What a push that fails does to the builder.
use resonance_signal.Base.{
  ℕ, ◌≡◌, ◌⊎◌, refl, inl, inr, Bool, Option, none, some, Result, ok, err, try, ok_or, checked_add,
}
use resonance_signal.Capture.{
  CapturePacket, CaptureError, device_position_overflow, frame_index_overflow, BuiltAudioFrame,
  AudioFrameBuilder, build, advance, push,
}

module _ {Sample : Type 0} where
  -- The end of a push: a failure leaves the builder, but for an overflow of the frame index.
  abbrev pub Kept :
      AudioFrameBuilder
      → Result (CaptureError Sample) (BuiltAudioFrame Sample) × AudioFrameBuilder
      → Type 0
  Kept b (ok built, b') = b'.format ≡ b.format
  Kept b (err e, b') = (b'.format ≡ b.format) × ((b' ≡ b) ⊎ (e ≡ frame_index_overflow))

  advance-Kept :
      (b : AudioFrameBuilder) (p : CapturePacket) (built : BuiltAudioFrame Sample)
      (position index : Option ℕ)
      → Kept b (
          try (ok_or position device_position_overflow) b λ position'.
            try
              (ok_or index frame_index_overflow)
              (record b { next_device_position = some position' })
              λ index'. (
                ok built,
                record b {
                  next_device_position = some position';
                  next_frame_index = index';
                  previous_qpc_timestamp_100ns = some p.qpc_timestamp_100ns;
                },
              ))
  advance-Kept b p built none index = (refl, inl refl)
  advance-Kept b p built (some position) none = (refl, inr refl)
  advance-Kept b p built (some position) (some index) = refl

  built-Kept :
      (b : AudioFrameBuilder) (r : Result (CaptureError Sample) (BuiltAudioFrame Sample))
      (k : BuiltAudioFrame Sample
        → Result (CaptureError Sample) (BuiltAudioFrame Sample) × AudioFrameBuilder)
      → ((built : BuiltAudioFrame Sample) → Kept b (k built))
      → Kept b (try r b k)
  built-Kept b (ok built) k h = h built
  built-Kept b (err e) k h = (refl, inl refl)

module _ {Sample : Type 0} (from_le_bytes : ℕ → ℕ → ℕ → ℕ → Sample)
    (is_finite : Sample → Bool) where
  -- A push keeps the format of the builder, and where it fails, the builder is as it was or the error
  -- is an overflow of the frame index.
  pub push-Kept :
      (silence : Sample) (b : AudioFrameBuilder) (p : CapturePacket)
      → Kept b (push from_le_bytes is_finite silence b p)
  unfolding push advance
  push-Kept silence b p = built-Kept b (build from_le_bytes is_finite silence b p) _ (λ built.
      advance-Kept b p built (checked_add p.device_position p.frame_count)
        (checked_add b.next_frame_index p.frame_count))
