-- ===== src/Scheduling/Pushes.antt =====
-- What a push does to the window scheduler, from the state between two pushes to the next.
use resonance_signal.Base.{
  ℕ, ◌+◌, ◌/◌, ◌<◌, ◌≡◌, ◌⊎◌, refl, inl, inr, Bool, true, false, Option, none, some, [], length,
  Result, ok, err, ok_or, ensure, arith,
}
use native.Mathlib.Nat.{div-eq_of_eq-mul_left}
use resonance_signal.Signal.{channel_count, FrameTimestamp}
use resonance_signal.Scheduling.{WindowSchedulerConfig, SchedulingError, window_frame_count}
use resonance_signal.Scheduling.Scheduler.{
  WindowScheduler, Failure, error, panic, out_of_fuel, raised, new, invalidate,
  buffered_frame_count,
}
use resonance_signal.Scheduling.Push.{Format}
use resonance_signal.Scheduling.Windows.{ValidFormat, Buffers}

-- An error of the source, and no panic or cut off loop.
abbrev pub IsError : {Sample : Type 0} → Failure Sample → Type 0
IsError (error e) = Unit
IsError _ = ⊥

module _ {Sample A : Type 0} where
  pub raised-IsError :
      (r : Result (SchedulingError Sample) A) (e : Failure Sample) → raised r ≡ err e → IsError e
  raised-IsError (ok a) e h = cc
  raised-IsError (err x) (error y) h = tt
  raised-IsError (err x) panic h = cc
  raised-IsError (err x) out_of_fuel h = cc

  pub raised_ok : (r : Result (SchedulingError Sample) A) (a : A) → raised r ≡ ok a → r ≡ ok a
  raised_ok (ok a) b h = cc
  raised_ok (err x) b h = cc

  pub ok_or-IsError :
      (o : Option A) (x : SchedulingError Sample) (e : Failure Sample)
      → ok_or o (error x) ≡ err e
      → IsError e
  ok_or-IsError none x (error y) h = tt
  ok_or-IsError none x panic h = cc
  ok_or-IsError none x out_of_fuel h = cc
  ok_or-IsError (some a) x e h = cc

pub ensure-IsError :
    {Sample : Type 0} (b : Bool) (x : SchedulingError Sample) (e : Failure Sample)
    → ensure b (error x) ≡ err e
    → IsError e
ensure-IsError true x e h = cc
ensure-IsError false x (error y) h = tt
ensure-IsError false x panic h = cc
ensure-IsError false x out_of_fuel h = cc

module _ {Stream Sample : Type 0} (is_finite : Sample → Bool) where
  -- Between two pushes of a stream: less than a window is buffered, up to the start that is expected.
  pub record OnStream (f : Format Stream) (s : WindowScheduler Stream Sample) (at n : ℕ)
      (next : FrameTimestamp) : Type 0 where
    pub active : s.active_stream ≡ some f.stream_identity
    pub sample_rate : s.sample_rate ≡ some f.sample_rate
    pub channels : s.channels ≡ some f.channels
    pub frames :
        window_frame_count {Sample = Sample} s.config.target_window_duration f.sample_rate
        ≡ ok f.window_frames
    pub valid : ValidFormat f
    pub buffers : Buffers is_finite f at n s
    pub small : n < f.window_frames
    pub expected : s.expected_next ≡ some next
    pub index : next.frame_index ≡ at + n

  -- No stream yet, or one that was invalidated.
  pub record Idle (s : WindowScheduler Stream Sample) : Type 0 where
    pub samples : s.samples ≡ []
    pub channels : s.channels ≡ none
    pub stopped : s.active_stream ≡ s.invalid_stream

  -- The state between two pushes.
  abbrev pub SchedulerInv : WindowScheduler Stream Sample → Type 0
  SchedulerInv s =
      Idle s
      ⊎ ((f : Format Stream) × (at : ℕ) × (n : ℕ) × (next : FrameTimestamp) × OnStream f s at n
            next)

  pub new-SchedulerInv : (config : WindowSchedulerConfig) → SchedulerInv (new config)
  unfolding new
  new-SchedulerInv config = inl (record { samples = refl; channels = refl; stopped = refl })

  pub invalidate-SchedulerInv :
      (stream_identity : Stream) (s : WindowScheduler Stream Sample)
      → SchedulerInv (invalidate stream_identity s)
  unfolding invalidate
  invalidate-SchedulerInv stream_identity s =
      inl (record { samples = refl; channels = refl; stopped = refl })

  -- The frames in the buffer are counted.
  buffered_frame_count-OnStream :
      (f : Format Stream) (s : WindowScheduler Stream Sample) (at n : ℕ) (next : FrameTimestamp)
      → OnStream f s at n next
      → buffered_frame_count s ≡ ok n
  unfolding buffered_frame_count
  buffered_frame_count-OnStream f s at n next on =
      let quotient : length s.samples / channel_count f.channels ≡ n =
        div-eq_of_eq-mul_left on.valid.channels on.buffers.whole in
      ground (arith, on.channels, on.valid.channels, on.valid.bounded, on.small)

  pub buffered_frame_count-error :
      (s : WindowScheduler Stream Sample) (e : Failure Sample)
      → SchedulerInv s
      → buffered_frame_count s ≡ err e
      → ⊥
  unfolding buffered_frame_count
  buffered_frame_count-error s e (inl idle) h = ground (arith, idle.channels)
  buffered_frame_count-error s e (inr (f, at, n, next, on)) h =
      let counted = buffered_frame_count-OnStream f s at n next on in cc
