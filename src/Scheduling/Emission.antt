-- ===== src/Scheduling/Emission.antt =====
-- What the loop over the frames of a push does to the buffer.
use resonance_signal.Base.{
  ℕ, zero, suc, ◌+◌, ◌*◌, ◌≤◌, ◌<◌, ◌≡◌, refl, sym, ap, ◌∙◌, Bool, Option, none, some, List, [],
  ◌∷◌, ◌++◌, append-nil, append_assoc, length, length-append, Result, ok, err, try, arith,
  if◌then◌else◌,
}
use mathlib.Core.Path.{subst}
use native.Mathlib.Nat.{add-mul}
use resonance_signal.Signal.{channel_count, FrameTimestamp, AudioFrame}
use resonance_signal.Signal.Frames.{AllFinite, AllFinite-append}
use resonance_signal.Scheduling.{timestamp_overflow}
use resonance_signal.Scheduling.Scheduler.{ScheduledWindow, WindowScheduler, Failure, error}
use resonance_signal.Scheduling.Push.{Format, is_empty, accept, emit}
use resonance_signal.Scheduling.Windows.{
  ValidFormat, window_samples, WindowsFrom, SameStream, StartsAt, Buffers, SameStream-trans,
  unchanged,
}
use resonance_signal.Scheduling.Cutting.{Cuts, cut_windows-Cuts}

-- The samples of the frames in order.
abbrev pub frame_samples : {Sample : Type 0} → List (AudioFrame Sample) → List Sample
frame_samples [] = []
frame_samples (frame ∷ frames) = frame.samples ++ frame_samples frames

module _ {Stream Sample : Type 0} (is_finite : Sample → Bool) (f : Format Stream) where
  -- The frames are whole, have the channels of the stream, and follow one another, from one frame
  -- index to another.
  abbrev pub FramesFrom : ℕ → List (AudioFrame Sample) → ℕ → Type 0
  FramesFrom from [] to = from ≡ to
  FramesFrom from (frame ∷ frames) to =
      (length frame.samples ≡ frame.window.frame_count * channel_count f.channels)
      × AllFinite is_finite frame.samples
      × (frame.window.start.frame_index ≡ from)
      × FramesFrom (from + frame.window.frame_count) frames to

  WindowsFrom-append :
      (a b c : ℕ) (xs ys : List (ScheduledWindow Stream Sample))
      → WindowsFrom f a xs b
      → WindowsFrom f b ys c
      → WindowsFrom f a (xs ++ ys) c
  WindowsFrom-append a b c [] ys h k = rw h k
  WindowsFrom-append a b c (x ∷ xs) ys (w, h) k =
      (w, WindowsFrom-append (a + f.window_frames) b c xs ys h k)

  window_samples-append :
      (xs ys : List (ScheduledWindow Stream Sample))
      → window_samples (xs ++ ys) ≡ window_samples xs ++ window_samples ys
  window_samples-append [] ys = refl
  window_samples-append (x ∷ xs) ys =
      ap (λ zs. x.frame.samples ++ zs) (window_samples-append xs ys)
      ∙ sym (append_assoc x.frame.samples (window_samples xs) (window_samples ys))

  regrouped :
      (new new' : List (ScheduledWindow Stream Sample)) (left left' samples more rest : List Sample)
      → window_samples new ++ left ≡ samples ++ more
      → window_samples new' ++ left' ≡ left ++ rest
      → window_samples (new ++ new') ++ left' ≡ samples ++ (more ++ rest)
  regrouped new new' left left' samples more rest h k =
      rw (window_samples-append new new', append_assoc (window_samples new))
        (rw (k, ← append_assoc (window_samples new) left rest, h, append_assoc samples more rest))

  frames_le : (n c : ℕ) → 0 < c → n ≤ n * c
  frames_le n c h = grind arith

  -- Where samples are added, and where they start the buffer.
  StartsAt-accept :
      (at n : ℕ) (samples more : List Sample) (start : Option FrameTimestamp) (t : FrameTimestamp)
      → 0 < channel_count f.channels
      → length samples ≡ n * channel_count f.channels
      → StartsAt at samples start
      → t.frame_index ≡ at + n
      → StartsAt at (samples ++ more) (if is_empty samples then some t else start)
  StartsAt-accept at n [] [] start t c len h e = tt
  StartsAt-accept at zero [] (y ∷ more) start t c len h e = omega arith
  StartsAt-accept at (suc n) [] (y ∷ more) start t c len h e = absurd (grind arith)
  StartsAt-accept at n (x ∷ samples) more none t c len h e = h
  StartsAt-accept at n (x ∷ samples) more (some u) t c len h e = h

  accept-Buffers :
      (at n : ℕ) (s : WindowScheduler Stream Sample) (frame : AudioFrame Sample)
      → ValidFormat f
      → Buffers is_finite f at n s
      → length frame.samples ≡ frame.window.frame_count * channel_count f.channels
      → AllFinite is_finite frame.samples
      → frame.window.start.frame_index ≡ at + n
      → Buffers is_finite f at (n + frame.window.frame_count) (accept frame s)
  unfolding accept
  accept-Buffers at n s frame v b len fin e = record {
    whole =
        (omega (
          arith,
          length-append s.samples frame.samples,
          b.whole,
          len,
          add-mul n frame.window.frame_count (channel_count f.channels),
        ));
    finite = AllFinite-append is_finite s.samples frame.samples b.finite fin;
    start =
        StartsAt-accept at n s.samples frame.samples s.buffer_start frame.window.start v.channels
          b.whole b.start e;
    origin = b.origin;
  }

  -- The effect of the loop over the frames.
  abbrev pub Emits :
      ℕ
      → ℕ
      → List (ScheduledWindow Stream Sample)
      → List (AudioFrame Sample)
      → WindowScheduler Stream Sample
      → Result (Failure Sample) (List (ScheduledWindow Stream Sample))
        × WindowScheduler Stream Sample
      → Type 0
  Emits at end windows frames s (ok windows', t) =
      (new : List (ScheduledWindow Stream Sample)) × (m : ℕ) × (to : ℕ) × (windows'
        ≡ windows ++ new)
      × WindowsFrom f at new to
      × (window_samples new ++ t.samples ≡ s.samples ++ frame_samples frames)
      × Buffers is_finite f to m t
      × (m < f.window_frames)
      × (to + m ≡ end)
      × SameStream s t
  Emits at end windows frames s (err e, t) = e ≡ error timestamp_overflow

  accept-SameStream :
      (s : WindowScheduler Stream Sample) (frame : AudioFrame Sample)
      → SameStream s (accept frame s)
  unfolding accept
  accept-SameStream s frame = record {
    config = refl;
    active_stream = refl;
    invalid_stream = refl;
    sample_rate = refl;
    channels = refl;
    timeline_origin = refl;
    expected_next = refl;
  }

  -- The cuts of one frame, and then the emission of the frames after it.
  joined-Emits :
      (at n end : ℕ) (windows windows' : List (ScheduledWindow Stream Sample))
      (frame : AudioFrame Sample) (frames : List (AudioFrame Sample))
      (s t : WindowScheduler Stream Sample)
      (r : Result (Failure Sample) (List (ScheduledWindow Stream Sample))
        × WindowScheduler Stream Sample)
      (cuts : Cuts is_finite f at n windows (accept frame s) (ok windows', t))
      → Emits cuts.2 end windows' frames t r
      → Emits at end windows (frame ∷ frames) s r
  unfolding accept
  joined-Emits at n end windows windows' frame frames s t (err e, u) cuts rest = rest
  joined-Emits at n end windows windows' frame frames s t (ok windows'', u) cuts rest =
      let (new, m, to, e, from, kept, b, small, count, same) = cuts in
      let (new', m', to', e', from', kept', b', small', count', same') = rest in
      (
        new ++ new',
        m',
        to',
        e' ∙ ap (λ ws. ws ++ new') e ∙ append_assoc windows new new',
        WindowsFrom-append at to to' new new' from from',
        regrouped new new' t.samples u.samples s.samples frame.samples (frame_samples frames) kept
            kept',
        b',
        small',
        count',
        SameStream-trans s t u
            (SameStream-trans s (accept frame s) t (accept-SameStream s frame) same) same',
      )

  frame-Emits :
      (at n end : ℕ) (windows : List (ScheduledWindow Stream Sample)) (frame : AudioFrame Sample)
      (frames : List (AudioFrame Sample)) (s : WindowScheduler Stream Sample)
      (cut : Result (Failure Sample) (List (ScheduledWindow Stream Sample))
        × WindowScheduler Stream Sample)
      (k : List (ScheduledWindow Stream Sample)
        → Result (Failure Sample) (List (ScheduledWindow Stream Sample))
          × WindowScheduler Stream Sample)
      → Cuts is_finite f at n windows (accept frame s) cut
      → ((m to : ℕ) (windows' : List (ScheduledWindow Stream Sample))
          → Buffers is_finite f to m cut.1
          → m < f.window_frames
          → to + m ≡ at + n
          → Emits to end windows' frames cut.1 (k windows'))
      → Emits at end windows (frame ∷ frames) s (try cut.0 cut.1 k)
  frame-Emits at n end windows frame frames s (err e, t) k cuts rest = cuts
  frame-Emits at n end windows frame frames s (ok windows', t) k cuts rest =
      joined-Emits at n end windows windows' frame frames s t (k windows') cuts
        (rest cuts.1 cuts.2 windows' cuts.6 cuts.7 cuts.8)

  pub emit-Emits :
      (at n end : ℕ) (windows : List (ScheduledWindow Stream Sample))
      (frames : List (AudioFrame Sample)) (s : WindowScheduler Stream Sample)
      → ValidFormat f
      → Buffers is_finite f at n s
      → n < f.window_frames
      → FramesFrom (at + n) frames end
      → Emits at end windows frames s (emit is_finite f frames windows s)
  unfolding emit
  emit-Emits at n end windows [] s v b small from = (
    [],
    n,
    at,
    sym (append-nil windows),
    refl,
    sym (append-nil s.samples),
    b,
    small,
    from,
    unchanged s,
  )
  emit-Emits at n end windows (frame ∷ frames) s v b small (len, fin, e, from) =
      let b' = accept-Buffers at n s frame v b len fin e in
      frame-Emits at (n + frame.window.frame_count) end windows frame frames s _ _
        (cut_windows-Cuts is_finite f (suc (length (accept frame s).samples)) at
          (n + frame.window.frame_count) windows (accept frame s) v b'
          (omega (
            arith,
            b'.whole,
            frames_le (n + frame.window.frame_count) (channel_count f.channels) v.channels,
          )))
        (λ m to windows' b'' small' count.
          emit-Emits to m end windows' frames _ v b'' small'
            (subst (λ (i : ℕ). FramesFrom i frames end) (omega arith) from))
