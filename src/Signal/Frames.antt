-- ===== src/Signal/Frames.antt =====
-- What a constructed audio frame is.
use resonance_signal.Base.{
  ℕ, zero, suc, ◌++◌, take, drop, ◌+◌, ◌*◌, ◌/◌, ◌%◌, ◌≤◌, ◌<◌, ◌≡◌, ◌↔◌, refl, Bool, true,
  Bool-cases, inl, inr, none, List, [], ◌∷◌, length, ok, u32_max, arith,
}
use native.Mathlib.Nat.{div-add-mod, mul-mod_left, div-eq_of_eq-mul_left}
use resonance_signal.Signal.{
  SampleRate, ChannelLayout, channel_count, FrameTimestamp, AudioFrame, find_non_finite,
  audio_frame,
}

module _ {Sample : Type 0} (is_finite : Sample → Bool) where
  abbrev pub AllFinite : List Sample → Type 0
  AllFinite [] = Unit
  AllFinite (sample ∷ samples) = (is_finite sample ≡ true) × AllFinite samples

  find_non_finite-none :
      (index : ℕ) (samples : List Sample)
      → (find_non_finite is_finite index samples ≡ none) ↔ AllFinite samples
  find_non_finite-none index [] = (λ h. tt, λ h. refl)
  find_non_finite-none index (sample ∷ samples) =
      let rest = find_non_finite-none (index + 1) samples in
      elim (Bool-cases (is_finite sample)) [
        | inl e ↦ (λ h. (e, rest.0 (rw e at h)), λ (f, h). rw e (rest.1 h))
        | inr e ↦ (λ h. absurd (ground arith), λ (f, h). cc)
      ]

  -- The frame holds the arguments, and its samples are finite and divide into whole frames.
  pub record Frames (from : FrameTimestamp) (rate : SampleRate) (layout : ChannelLayout)
      (content : List Sample) (frame : AudioFrame Sample) : Type 0 where
    pub start : frame.window.start ≡ from
    pub sample_rate : frame.sample_rate ≡ rate
    pub channels : frame.channels ≡ layout
    pub samples : frame.samples ≡ content
    pub whole : length content ≡ frame.window.frame_count * channel_count layout
    pub some_frames : 0 < frame.window.frame_count
    pub bounded : frame.window.frame_count ≤ u32_max
    pub finite : AllFinite content

  -- With at least one channel, an audio frame is constructed exactly from samples that are finite and
  -- divide into whole frames, at least one and at most the limit of u32, and it holds them unchanged.
  pub audio_frame_iff :
      (start : FrameTimestamp) (sample_rate : SampleRate) (channels : ChannelLayout)
      (samples : List Sample) (frame : AudioFrame Sample)
      → 0 < channel_count channels
      → (audio_frame is_finite start sample_rate channels samples ≡ ok frame)
        ↔ Frames start sample_rate channels samples frame
  unfolding audio_frame
  audio_frame_iff start sample_rate channels samples frame pos =
      let n = length samples in
      let count = channel_count channels in
      let none_found = find_non_finite-none 0 samples in
      let quotient = div-add-mod n count in
      (
        λ h.
            let found : find_non_finite is_finite 0 samples ≡ none = ground arith in
            let left : n % count ≡ 0 = ground arith in
            let whole : n ≡ n / count * count = grind arith in
            let frames : frame.window.frame_count ≡ n / count = ground arith in
            record {
              start = ground arith;
              sample_rate = ground arith;
              channels = ground arith;
              samples = ground arith;
              whole = rw frames whole;
              some_frames = ground arith;
              bounded = ground arith;
              finite = none_found.0 found;
            },
        λ h.
            let found : find_non_finite is_finite 0 samples ≡ none = none_found.1 h.finite in
            let left : n % count ≡ 0 = rw h.whole (mul-mod_left frame.window.frame_count count) in
            let frames : n / count ≡ frame.window.frame_count = div-eq_of_eq-mul_left pos h.whole in
            let some_samples : 0 < n = grind arith in
            ground (
              arith, found, left, frames, h.start, h.sample_rate, h.channels, h.samples,
              h.some_frames, h.bounded,
            ),
      )

module _ {Sample : Type 0} (is_finite : Sample → Bool) where
  pub AllFinite-append :
      (xs ys : List Sample)
      → AllFinite is_finite xs
      → AllFinite is_finite ys
      → AllFinite is_finite (xs ++ ys)
  AllFinite-append [] ys h k = k
  AllFinite-append (x ∷ xs) ys (e, h) k = (e, AllFinite-append xs ys h k)

  pub AllFinite-take :
      (n : ℕ) (xs : List Sample) → AllFinite is_finite xs → AllFinite is_finite (take n xs)
  AllFinite-take zero xs h = tt
  AllFinite-take (suc n) [] h = tt
  AllFinite-take (suc n) (x ∷ xs) (e, h) = (e, AllFinite-take n xs h)

  pub AllFinite-drop :
      (n : ℕ) (xs : List Sample) → AllFinite is_finite xs → AllFinite is_finite (drop n xs)
  AllFinite-drop zero xs h = h
  AllFinite-drop (suc n) [] h = tt
  AllFinite-drop (suc n) (x ∷ xs) (e, h) = AllFinite-drop n xs h
