-- ===== src/Capture/Continuity.antt =====
-- The frames of captured packets continue one another, as the window scheduler demands it.
use resonance_signal.Base.{
  ℕ, zero, suc, ◌+◌, ◌-◌, ◌*◌, ◌/◌, ◌%◌, ◌≤◌, ◌<◌, ◌≡◌, refl, sym, ap, ◌∙◌, Bool, Option, none,
  some, List, [], ◌∷◌, length, not, ◌==◌, Result, ok, err, try, ok_or, ensure, checked_mul,
  Bool-cases, inl, inr, bind-ok, ok-injective, u32_max, u64_max, checked_add, arith,
}
use mathlib.Core.Path.{subst}
use native.Mathlib.Decide.{dec_lt}
use native.Mathlib.Nat.{add-mul, mul_assoc, lt-div-mul-add, div-mul-le_self, le-div_iff_mul-le}
use resonance_signal.Signal.{
  SignalDataError, channel_count, FrameTimestamp, AudioFrame, audio_frame,
}
use resonance_signal.Signal.Frames.{audio_frame_iff}
use resonance_signal.Scheduling.{advance_timestamp}
use resonance_signal.Scheduling.Time.{timestamp_for_frame_index_iff, advance_timestamp_lem}
use resonance_signal.Scheduling.Scheduler.{check_continuity}
use resonance_signal.Capture.{
  CaptureFormat, CapturePacket, CaptureError, device_position_overflow, frame_index_overflow,
  empty_packet, timestamp_unavailable, nanos_per_second, packet_size_overflow,
  unexpected_packet_length, BuiltAudioFrame, AudioFrameBuilder, bytes_per_frame, packet_bytes,
  replicate, frame_time_ns, check_position, qpc_elapsed, decode_chunks, decode_f32_le,
  packet_samples, frame_result, build, advance, push,
}

mul_le_right : (m n c : ℕ) → m ≤ n → m * c ≤ n * c
mul_le_right m n c h = grind arith

-- Rounding down loses at most one over a sum.
div-add : (x y r : ℕ) → 0 < r → (x / r + y / r ≤ (x + y) / r) × ((x + y) / r ≤ x / r + y / r + 1)
div-add x y r h =
    let low = div-mul-le_self x r in
    let low' = div-mul-le_self y r in
    let top = div-mul-le_self (x + y) r in
    let high : x < x / r * r + r = lt-div-mul-add h in
    let high' : y < y / r * r + r = lt-div-mul-add h in
    (
      (le-div_iff_mul-le h).1 (omega (arith, add-mul (x / r) (y / r) r)),
      elim (dec_lt ((x + y) / r) (x / r + y / r + 2)) [
        | yes p ↦ omega arith
        | no p ↦
            let more = mul_le_right (x / r + y / r + 2) ((x + y) / r) r (omega arith) in
            absurd (omega (arith, add-mul (x / r + y / r) 2 r, add-mul (x / r) (y / r) r))
      ],
    )

length-replicate : {A : Type 0} (n : ℕ) (x : A) → length (replicate n x) ≡ n
length-replicate zero x = refl
length-replicate (suc n) x = omega (arith, length-replicate n x)

module _ {Sample : Type 0} (from_le_bytes : ℕ → ℕ → ℕ → ℕ → Sample)
    (is_finite : Sample → Bool) where
  length-decode_chunks :
      (index : ℕ) (bytes : List ℕ) (samples : List Sample)
      → length bytes % 4 ≡ 0
      → decode_chunks from_le_bytes is_finite index bytes ≡ ok samples
      → length bytes ≡ 4 * length samples
  length-decode_chunks index [] samples m h =
      ap (λ n. 4 * n) (ap length (ok-injective [] samples h))
  length-decode_chunks index (a ∷ []) samples m h = absurd (omega arith)
  length-decode_chunks index (a ∷ b ∷ []) samples m h = absurd (omega arith)
  length-decode_chunks index (a ∷ b ∷ c ∷ []) samples m h = absurd (omega arith)
  length-decode_chunks index (a ∷ b ∷ c ∷ d ∷ bytes) samples m h =
      let (u, _, h1) = bind-ok (ensure (is_finite (from_le_bytes a b c d)) _) _ samples h in
      let (rest, e, h2) =
        bind-ok (decode_chunks from_le_bytes is_finite (index + 1) bytes) _ samples h1 in
      let n = length-decode_chunks (index + 1) bytes rest (omega arith) e in
      let all = ap length (ok-injective (from_le_bytes a b c d ∷ rest) samples h2) in omega arith

  length-packet_samples :
      (silence : Sample) (f : CaptureFormat) (p : CapturePacket) (samples : List Sample)
      → packet_samples from_le_bytes is_finite silence f p ≡ ok samples
      → length samples ≡ p.frame_count * channel_count f.channels
  unfolding packet_samples decode_f32_le
  length-packet_samples silence f p samples h =
      let (expected, a, h1) =
        bind-ok (ok_or (checked_mul p.frame_count (bytes_per_frame f)) packet_size_overflow) _
          samples h in
      let (u, b, h2) =
        bind-ok
          (ensure (length (packet_bytes p) == expected)
            (unexpected_packet_length expected (length (packet_bytes p))))
          _ samples h1 in
      let (count, c, h3) =
        bind-ok (ok_or (checked_mul p.frame_count (channel_count f.channels)) packet_size_overflow)
          _ samples h2 in
      let is_count : count ≡ p.frame_count * channel_count f.channels = ground arith in
      let is_bytes : length (packet_bytes p) ≡ p.frame_count * (channel_count f.channels * 4) =
        ground arith in
      elim (Bool-cases p.flags.silent) [
        | inl q ↦
            let same : ok (replicate count silence) ≡ ok samples = rw q at h3 in
            sym (ap length (ok-injective (replicate count silence) samples same))
            ∙ length-replicate count silence
            ∙ is_count
        | inr q ↦
            let decoded : decode_f32_le from_le_bytes is_finite (packet_bytes p) ≡ ok samples =
              rw q at h3 in
            let (u', d, h4) =
              bind-ok (ensure (length (packet_bytes p) % 4 == 0) _) _ samples decoded in
            let n = length-decode_chunks 0 (packet_bytes p) samples (ground arith) h4 in
            omega (arith, mul_assoc p.frame_count (channel_count f.channels) 4)
      ]

  -- The frame that a packet gives: where the builder stands, with as many frames as the packet.
  pub record Built (b : AudioFrameBuilder) (p : CapturePacket) (frame : AudioFrame Sample)
      : Type 0 where
    pub position : check_position {Sample = Sample} b.next_device_position p ≡ ok tt
    index : frame.window.start.frame_index ≡ b.next_frame_index
    time :
        frame.window.start.stream_time_ns
        ≡ b.next_frame_index * nanos_per_second / b.format.sample_rate
    fits : frame.window.start.stream_time_ns ≤ u64_max
    pub count : frame.window.frame_count ≡ p.frame_count
    bounded : frame.window.frame_count ≤ u32_max
    sample_rate : frame.sample_rate ≡ b.format.sample_rate

  frame_time_ns_lem :
      (i hz t : ℕ)
      → frame_time_ns {Sample = Sample} i hz ≡ ok t
      → (t ≡ i * nanos_per_second / hz) × (t ≤ u64_max)
  unfolding frame_time_ns
  frame_time_ns_lem i hz t h = (ground arith, ground arith)

  frame_result_ok :
      (r : Result (SignalDataError Sample) (AudioFrame Sample)) (frame : AudioFrame Sample)
      → frame_result from_le_bytes is_finite r ≡ ok frame
      → r ≡ ok frame
  frame_result_ok (ok x) frame h = cc
  frame_result_ok (err e) frame h = cc

  same_count : (m n c : ℕ) → 0 < c → m * c ≡ n * c → m ≡ n
  same_count m n c h e = grind arith

  build-Built :
      (silence : Sample) (b : AudioFrameBuilder) (p : CapturePacket)
      (built : BuiltAudioFrame Sample)
      → 0 < channel_count b.format.channels
      → build from_le_bytes is_finite silence b p ≡ ok built
      → Built b p built.frame
  unfolding build
  build-Built silence b p built pos h =
      let (u0, _, h0) = bind-ok (ensure (not (p.frame_count == 0)) empty_packet) _ built h in
      let (u1, _, h1) =
        bind-ok (ensure (not p.flags.timestamp_error) timestamp_unavailable) _ built h0 in
      let (u2, at, h2) = bind-ok (check_position b.next_device_position p) _ built h1 in
      let (delta, _, h3) = bind-ok (qpc_elapsed b.previous_qpc_timestamp_100ns p) _ built h2 in
      let (samples, s, h4) =
        bind-ok (packet_samples from_le_bytes is_finite silence b.format p) _ built h3 in
      let (time, t, h5) =
        bind-ok (frame_time_ns b.next_frame_index b.format.sample_rate) _ built h4 in
      let start : FrameTimestamp = record {
        frame_index = b.next_frame_index;
        stream_time_ns = time;
      } in
      let (frame, f, h6) =
        bind-ok
          (frame_result from_le_bytes is_finite
            (audio_frame is_finite start b.format.sample_rate b.format.channels samples))
          _ built h5 in
      let made =
        (audio_frame_iff is_finite start b.format.sample_rate b.format.channels samples frame pos).0
          (frame_result_ok _ frame f) in
      let same : frame ≡ built.frame =
        ap (λ (x : BuiltAudioFrame Sample). x.frame) (ok-injective _ built h6) in
      let (time_is, time_fits) = frame_time_ns_lem b.next_frame_index b.format.sample_rate time t in
      subst (Built b p) same (record {
        position = at;
        index = ap (λ (x : FrameTimestamp). x.frame_index) made.start;
        time = ap (λ (x : FrameTimestamp). x.stream_time_ns) made.start ∙ time_is;
        fits = rw (ap (λ (x : FrameTimestamp). x.stream_time_ns) made.start) time_fits;
        count =
            same_count frame.window.frame_count p.frame_count (channel_count b.format.channels) pos
              (sym made.whole ∙ length-packet_samples silence b.format p samples s);
        bounded = made.bounded;
        sample_rate = made.sample_rate;
      })

  advance_cases :
      (b b' : AudioFrameBuilder) (p : CapturePacket) (built out : BuiltAudioFrame Sample)
      (position index : Option ℕ) (e e' : CaptureError Sample)
      → (try (ok_or position e) b λ position'.
          try
            (ok_or index e')
            (record b { next_device_position = some position' })
            λ index'. (
              ok built,
              record b {
                next_device_position = some position';
                next_frame_index = index';
                previous_qpc_timestamp_100ns = some p.qpc_timestamp_100ns;
              },
            ))
        ≡ (ok out, b')
      → (n : ℕ) × (index ≡ some n)
        × (built ≡ out)
        × (n ≡ b'.next_frame_index)
        × (b.format ≡ b'.format)
        × ((m : ℕ) × (position ≡ some m) × (some m ≡ b'.next_device_position))
  advance_cases b b' p built out none index e e' h =
      let failed =
        ap (λ (x : Result (CaptureError Sample) (BuiltAudioFrame Sample) × AudioFrameBuilder). x.0)
          h in
      absurd cc
  advance_cases b b' p built out (some position) none e e' h =
      let failed =
        ap (λ (x : Result (CaptureError Sample) (BuiltAudioFrame Sample) × AudioFrameBuilder). x.0)
          h in
      absurd cc
  advance_cases b b' p built out (some position) (some n) e e' h = (
    n,
    refl,
    ok-injective built out (
        ap (λ (x : Result (CaptureError Sample) (BuiltAudioFrame Sample) × AudioFrameBuilder). x.0)
          h),
    ap
        (λ (x : Result (CaptureError Sample) (BuiltAudioFrame Sample) × AudioFrameBuilder).
          x.1.next_frame_index)
        h,
    ap
        (λ (x : Result (CaptureError Sample) (BuiltAudioFrame Sample) × AudioFrameBuilder).
          x.1.format)
        h,
    (
      position,
      refl,
      ap
          (λ (x : Result (CaptureError Sample) (BuiltAudioFrame Sample) × AudioFrameBuilder).
            x.1.next_device_position)
          h,
    ),
  )

  checked_add-some : (m n r : ℕ) → checked_add m n ≡ some r → m + n ≡ r
  checked_add-some m n r h = ground arith

  push_cases :
      (r : Result (CaptureError Sample) (BuiltAudioFrame Sample)) (b b' : AudioFrameBuilder)
      (k : BuiltAudioFrame Sample
        → Result (CaptureError Sample) (BuiltAudioFrame Sample) × AudioFrameBuilder)
      (out : BuiltAudioFrame Sample)
      → try r b k ≡ (ok out, b')
      → (built : BuiltAudioFrame Sample) × (r ≡ ok built) × (k built ≡ (ok out, b'))
  push_cases (ok built) b b' k out h = (built, refl, h)
  push_cases (err e) b b' k out h =
      let failed =
        ap (λ (x : Result (CaptureError Sample) (BuiltAudioFrame Sample) × AudioFrameBuilder). x.0)
          h in
      absurd cc

  -- What a push that succeeds gives, and where the builder stands then.
  pub push-Built :
      (silence : Sample) (b b' : AudioFrameBuilder) (p : CapturePacket)
      (out : BuiltAudioFrame Sample)
      → 0 < channel_count b.format.channels
      → push from_le_bytes is_finite silence b p ≡ (ok out, b')
      → Built b p out.frame
        × (b'.next_frame_index ≡ b.next_frame_index + p.frame_count)
        × (b.format ≡ b'.format)
        × (b'.next_frame_index ≤ u64_max)
        × (some (p.device_position + p.frame_count) ≡ b'.next_device_position)
  unfolding push advance
  push-Built silence b b' p out pos h =
      let (built, made, moved) =
        push_cases (build from_le_bytes is_finite silence b p) b b' _ out h in
      let (n, index, same, at, format, (m, position, place)) =
        advance_cases b b' p built out (checked_add p.device_position p.frame_count)
          (checked_add b.next_frame_index p.frame_count) device_position_overflow
          frame_index_overflow moved in
      (
        subst (λ (x : BuiltAudioFrame Sample). Built b p x.frame) same
            (build-Built silence b p built pos made),
        ground arith,
        format,
        ground arith,
        ap some (checked_add-some _ _ m position) ∙ place,
      )

  pub push_format :
      (silence : Sample) (b b' : AudioFrameBuilder) (p : CapturePacket)
      (out : BuiltAudioFrame Sample)
      → 0 < channel_count b.format.channels
      → push from_le_bytes is_finite silence b p ≡ (ok out, b')
      → b.format ≡ b'.format
  push_format silence b b' p out pos h = (push-Built silence b b' p out pos h).2

  -- Where the builder takes one packet and then the next, the window scheduler accepts the second
  -- frame after the first: the start that it expects after the first is found, and the start of the
  -- second passes its check. The format has a channel, and the sample rate is not zero.
  pub push-check_continuity :
      (silence : Sample) (b b' b'' : AudioFrameBuilder) (p q : CapturePacket)
      (first second : BuiltAudioFrame Sample)
      → 0 < channel_count b.format.channels
      → 0 < b.format.sample_rate
      → push from_le_bytes is_finite silence b p ≡ (ok first, b')
      → push from_le_bytes is_finite silence b' q ≡ (ok second, b'')
      → (next : FrameTimestamp) × (advance_timestamp {Sample = Sample} first.frame.window.start
            first.frame.window.frame_count first.frame.sample_rate
          ≡ ok next)
        × (check_continuity {Sample = Sample} (some next) second.frame.window.start ≡ ok tt)
  unfolding check_continuity
  push-check_continuity silence b b' b'' p q first second pos rate h k =
      let (one, moved, same, fits, place) = push-Built silence b b' p first pos h in
      let pos' : 0 < channel_count b'.format.channels =
        subst (λ (f : CaptureFormat). 0 < channel_count f.channels) same pos in
      let (two, moved', same', fits', place') = push-Built silence b' b'' q second pos' k in
      let hz = b.format.sample_rate in
      let i = b.next_frame_index in
      let c = first.frame.window.frame_count in
      let (low, high) = div-add (i * nanos_per_second) (c * nanos_per_second) hz rate in
      let start = first.frame.window.start in
      let total : b'.next_frame_index * nanos_per_second
          ≡ i * nanos_per_second + c * nanos_per_second =
        omega (arith, moved, one.count) in
      let rate' : b'.format.sample_rate ≡ hz =
        ap (λ (f : CaptureFormat). f.sample_rate) (sym same) in
      let later : second.frame.window.start.stream_time_ns
          ≡ (i * nanos_per_second + c * nanos_per_second) / hz =
        two.time
        ∙ ap (λ n. n / b'.format.sample_rate) total
        ∙ ap (λ r. (i * nanos_per_second + c * nanos_per_second) / r) rate' in
      let at_least : start.stream_time_ns + c * nanos_per_second / hz
          ≤ second.frame.window.start.stream_time_ns =
        omega (arith, one.time) in
      let at_most : second.frame.window.start.stream_time_ns
          ≤ start.stream_time_ns + c * nanos_per_second / hz + 1 =
        omega (arith, one.time) in
      let index : second.frame.window.start.frame_index ≡ start.frame_index + c =
        omega (arith, two.index, one.index, one.count) in
      let elapsed : start.frame_index + c - start.frame_index ≡ c = omega arith in
      let next : FrameTimestamp = record {
        frame_index = first.frame.window.start.frame_index + c;
        stream_time_ns = first.frame.window.start.stream_time_ns + c * nanos_per_second / hz;
      } in
      (
        next,
        advance_timestamp_lem start c first.frame.sample_rate (omega (arith, one.index, one.count))
            ∙ (timestamp_for_frame_index_iff start (start.frame_index + c) first.frame.sample_rate
                  next).1
                (
                  omega arith,
                  rw elapsed (omega (arith, one.bounded)),
                  refl,
                  rw (elapsed, one.sample_rate) refl,
                  omega (arith, two.fits),
                ),
        ground arith,
      )
