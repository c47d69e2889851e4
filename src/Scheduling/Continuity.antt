-- ===== src/Scheduling/Continuity.antt =====
-- What the checks on the frames of a push establish.
use resonance_signal.Base.{
  ℕ, ◌+◌, ◌*◌, ◌%◌, ◌^◌, ◌<◌, ◌≡◌, refl, ap, Bool, true, Option, none, some, List, [], ◌∷◌, length,
  Result, ok, err, ◌>>=◌, ensure, ◌&&◌, ◌||◌, ◌==◌, not, is_some, arith,
}
use mathlib.Core.Path.{subst}
use resonance_signal.Signal.{
  SampleRate, ChannelPosition, ChannelLayout, discrete, positioned, channel_count, FrameTimestamp,
  AudioFrame,
}
use resonance_signal.Signal.Frames.{AllFinite}
use resonance_signal.Scheduling.{SchedulingError, advance_timestamp}
use resonance_signal.Scheduling.Scheduler.{positions_eq, layout_eq, check_continuity, check_frames}
use resonance_signal.Scheduling.Push.{Format, is_empty}
use resonance_signal.Scheduling.Emission.{FramesFrom}

length-positions_eq :
    (xs ys : List ChannelPosition) → positions_eq xs ys ≡ true → length xs ≡ length ys
length-positions_eq [] [] h = refl
length-positions_eq [] (y ∷ ys) h = cc
length-positions_eq (x ∷ xs) [] h = cc
length-positions_eq (x ∷ xs) (y ∷ ys) h = ground (arith, length-positions_eq xs ys)

-- Equal layouts have as many channels.
pub channel_count-layout_eq :
    (a b : ChannelLayout) → layout_eq a b ≡ true → channel_count a ≡ channel_count b
channel_count-layout_eq (discrete m) (discrete n) h = ground arith
channel_count-layout_eq (positioned xs) (positioned ys) h =
    ap (λ n. n % 2 ^ 16) (length-positions_eq xs ys h)
channel_count-layout_eq (discrete m) (positioned ys) h = cc
channel_count-layout_eq (positioned xs) (discrete n) h = cc

module _ {Sample : Type 0} (is_finite : Sample → Bool) where
  -- What the construction of a frame gives.
  pub record WholeFrame (frame : AudioFrame Sample) : Type 0 where
    pub channels : 0 < channel_count frame.channels
    pub whole : length frame.samples ≡ frame.window.frame_count * channel_count frame.channels
    pub finite : AllFinite is_finite frame.samples

  abbrev pub WholeFrames : List (AudioFrame Sample) → Type 0
  WholeFrames [] = Unit
  WholeFrames (frame ∷ frames) = WholeFrame frame × WholeFrames frames

  -- Three checks in a row have passed.
  three_checks :
      {E A B C D : Type 0} (a : Result E A) (b : Result E B) (c : Result E C) (k : C → Result E D)
      (d : D)
      → (a >>= λ _. b >>= λ _. c >>= k) ≡ ok d
      → (x : A) × (y : B) × (next : C) × (a ≡ ok x) × (b ≡ ok y) × (c ≡ ok next) × (k next ≡ ok d)
  three_checks (ok x) (ok y) (ok next) k d h = (x, y, next, refl, refl, refl, h)
  three_checks (err e) b c k d h = cc
  three_checks (ok x) (err e) c k d h = cc
  three_checks (ok x) (ok y) (err e) k d h = cc

  -- The frame index that an optional expectation leaves open.
  abbrev pub Expects : Option FrameTimestamp → ℕ → Type 0
  Expects none at = Unit
  Expects (some t) at = t.frame_index ≡ at

  same_layout :
      (rate : SampleRate) (channels : ChannelLayout) (frame : AudioFrame Sample)
      (e : SchedulingError Sample) (u : Unit {0})
      → ensure (frame.sample_rate == rate && layout_eq frame.channels channels) e ≡ ok u
      → layout_eq frame.channels channels ≡ true
  same_layout rate channels frame e u h = ground arith

  same_index :
      (expected : Option FrameTimestamp) (start : FrameTimestamp) (at : ℕ) (u : Unit {0})
      → start.frame_index ≡ at
      → check_continuity {Sample = Sample} expected start ≡ ok u
      → Expects expected at
  unfolding check_continuity
  same_index none start at u e h = tt
  same_index (some t) start at u e h = ground arith

  next_index :
      (start next : FrameTimestamp) (count : ℕ) (rate : SampleRate)
      → advance_timestamp {Sample = Sample} start count rate ≡ ok next
      → next.frame_index ≡ start.frame_index + count
  unfolding advance_timestamp
  next_index start next count rate h = ground arith

  module _ {Stream : Type 0} (f : Format Stream) where
    -- Frames that pass the checks follow one another, from where the first is expected.
    abbrev pub Checked : Option FrameTimestamp → List (AudioFrame Sample) → FrameTimestamp → Type 0
    Checked none [] t = ⊥
    Checked (some start) [] t = start ≡ t
    Checked expected (frame ∷ frames) t =
        FramesFrom is_finite f frame.window.start.frame_index (frame ∷ frames) t.frame_index
        × Expects expected frame.window.start.frame_index

    pub from_next :
        (next t : FrameTimestamp) (frames : List (AudioFrame Sample))
        → Checked (some next) frames t
        → FramesFrom is_finite f next.frame_index frames t.frame_index
    from_next next t [] h = ap (λ (u : FrameTimestamp). u.frame_index) h
    from_next next t (frame ∷ frames) (from, here) = rw here from

    pub check_frames-Checked :
        (expected out : Option FrameTimestamp) (frames : List (AudioFrame Sample))
        → WholeFrames frames
        → is_some expected || not (is_empty frames) ≡ true
        → check_frames f.sample_rate f.channels expected frames ≡ ok out
        → (t : FrameTimestamp) × (out ≡ some t) × Checked expected frames t
    unfolding check_frames
    check_frames-Checked none out [] w i h = absurd (ground arith)
    check_frames-Checked (some start) out [] w i h = (start, ground arith, refl)
    check_frames-Checked expected out (frame ∷ frames) (w, whole) i h =
        let (u, u', after, a, b, c, d) = three_checks _ _ _ _ out h in
        let channels =
          channel_count-layout_eq frame.channels f.channels
            (same_layout f.sample_rate f.channels frame _ u a) in
        let here =
          same_index expected frame.window.start frame.window.start.frame_index u' refl b in
        let next = next_index frame.window.start after frame.window.frame_count f.sample_rate c in
        let (t, e, rest) = check_frames-Checked (some after) out frames whole refl d in
        (
          t,
          e,
          (
            (
              rw (← channels) w.whole,
              w.finite,
              refl,
              subst (λ (k : ℕ). FramesFrom is_finite f k frames t.frame_index) next
                  (from_next after t frames rest),
            ),
            here,
          ),
        )
