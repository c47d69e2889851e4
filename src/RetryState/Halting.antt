-- ===== src/RetryState/Halting.antt =====
-- What ends automatic recovery keeps it ended: an exhausted episode until it is advanced or the
-- intent stopped, and a stopped intent until the next explicit start.
use resonance_signal.Base.{ℕ, ◌<◌, ◌≡◌, ◌≢◌, refl, ◌∙◌, Bool, true, false, List, [], ◌∷◌, ok, arith}
use resonance_signal.RetryState.{
  RetryState, RetryPhase, AttemptId, RecoveryAuthorization, RetryFailureCause, IntentGeneration,
  ready_for_evaluation,
}
use resonance_signal.RetryState.Checks.{refresh_post_failure_phase}
use resonance_signal.RetryState.Intent.{explicit_start, explicit_stop}
use resonance_signal.RetryState.Attempt.{
  commit_initial_attempt, commit_recovery_attempt, record_owner_created, record_stream_started,
  record_normal_completion,
}
use resonance_signal.RetryState.Evidence.{
  record_failure, record_terminal_event_delivered, record_cleanup_complete,
}
use resonance_signal.RetryState.Episode.{
  require_cooldown, satisfy_cooldown, mark_exhausted, advance_recovery_episode,
}
use resonance_signal.RetryState.Machine.{Command, start, stop, failure, advance_episode, step, run}
use resonance_signal.RetryState.Inv.{Inv}
use resonance_signal.RetryState.Reachable.{reply_state, step-Inv}

-- The commands that can end the exhaustion of an episode.
abbrev ends_exhaustion : Command → Bool
ends_exhaustion (stop g) = true
ends_exhaustion (advance_episode g e) = true
ends_exhaustion _ = false

-- The only command that can end a stop.
abbrev is_start : Command → Bool
is_start (start c) = true
is_start _ = false

-- No command of the list passes the test.
abbrev NoneOf : (Command → Bool) → List Command → Type 0
NoneOf p [] = Unit
NoneOf p (c ∷ cs) = (p c ≡ false) × NoneOf p cs

-- The same attempts and the same episode, in the given phase.
abbrev pub HeldIn : RetryPhase → RetryState → RetryState → Type 0
HeldIn p s t =
    (t.phase ≡ p)
    × (t.attempts_started ≡ s.attempts_started)
    × (t.recovery_episode ≡ s.recovery_episode)

step-exhausted :
    (capacity : ℕ) (s : RetryState) (c : Command)
    → Inv capacity s
    → s.phase ≡ RetryPhase.exhausted
    → ends_exhaustion c ≡ false
    → HeldIn RetryPhase.exhausted s (step capacity c s).1
unfolding step explicit_start commit_initial_attempt commit_recovery_attempt record_owner_created
    record_stream_started record_normal_completion record_failure record_terminal_event_delivered
    record_cleanup_complete require_cooldown satisfy_cooldown mark_exhausted
    refresh_post_failure_phase ready_for_evaluation
step-exhausted capacity s (stop g) v e h = cc
step-exhausted capacity s _ v e h = ground (arith, v.attempt, v.phase)

needs_waiting :
    (s : RetryState) (a : RecoveryAuthorization) (id : AttemptId)
    → s.phase ≡ RetryPhase.exhausted
    → (commit_recovery_attempt a s).0 ≢ ok id
unfolding commit_recovery_attempt
needs_waiting s a id e = ground arith

run-exhausted :
    (capacity : ℕ) (s : RetryState) (cs : List Command)
    → 0 < capacity
    → Inv capacity s
    → s.phase ≡ RetryPhase.exhausted
    → NoneOf ends_exhaustion cs
    → HeldIn RetryPhase.exhausted s (run capacity cs s)
unfolding run
run-exhausted capacity s [] pos v e h = (e, refl, refl)
run-exhausted capacity s (c ∷ cs) pos v e (h, hs) =
    let (p, n, k) = step-exhausted capacity s c v e h in
    let (p', n', k') =
      run-exhausted capacity (step capacity c s).1 cs pos (step-Inv capacity s c pos v) p hs in
    (p', n' ∙ n, k' ∙ k)

-- An exhausted episode stays exhausted. From a state that satisfies the invariant in the phase
-- `exhausted`, any commands but a stop and an episode's advance leave the phase, the count of
-- attempts and the episode as they are, and every recovery commit after them fails.
pub exhaustion_persists :
    (capacity : ℕ) (s : RetryState) (cs : List Command) (a : RecoveryAuthorization) (id : AttemptId)
    → 0 < capacity
    → Inv capacity s
    → s.phase ≡ RetryPhase.exhausted
    → NoneOf ends_exhaustion cs
    → HeldIn RetryPhase.exhausted s (run capacity cs s)
      × ((commit_recovery_attempt a (run capacity cs s)).0 ≢ ok id)
exhaustion_persists capacity s cs a id pos v e h =
    let held = run-exhausted capacity s cs pos v e h in
    (held, needs_waiting (run capacity cs s) a id held.0)

-- The state is stopped, and has counted no attempt since `s`.
abbrev StoppedSince : RetryState → RetryState → Type 0
StoppedSince s t =
    (t.phase ≡ RetryPhase.stopped)
    × (t.desired_running ≡ false)
    × (t.attempts_started ≡ s.attempts_started)

record_failure-stopped :
    (capacity : ℕ) (s : RetryState) (id : AttemptId) (cause : RetryFailureCause)
    → s.phase ≡ RetryPhase.stopped
    → s.desired_running ≡ false
    → StoppedSince s (record_failure capacity id cause s).1
unfolding record_failure refresh_post_failure_phase
record_failure-stopped capacity s id cause e d = ground arith

step-stopped :
    (capacity : ℕ) (s : RetryState) (c : Command)
    → s.phase ≡ RetryPhase.stopped
    → s.desired_running ≡ false
    → is_start c ≡ false
    → StoppedSince s (step capacity c s).1
unfolding step explicit_stop commit_initial_attempt commit_recovery_attempt record_owner_created
    record_stream_started record_normal_completion record_terminal_event_delivered
    record_cleanup_complete require_cooldown satisfy_cooldown mark_exhausted
    advance_recovery_episode refresh_post_failure_phase
step-stopped capacity s (start g) e d h = cc
step-stopped capacity s (failure id cause) e d h =
    rw reply_state (record_failure-stopped capacity s id cause e d)
step-stopped capacity s _ e d h = ground arith

run-stopped :
    (capacity : ℕ) (s : RetryState) (cs : List Command)
    → s.phase ≡ RetryPhase.stopped
    → s.desired_running ≡ false
    → NoneOf is_start cs
    → ((run capacity cs s).phase ≡ RetryPhase.stopped)
      × ((run capacity cs s).attempts_started ≡ s.attempts_started)
unfolding run
run-stopped capacity s [] e d h = (e, refl)
run-stopped capacity s (c ∷ cs) e d (h, hs) =
    let (e', d', n) = step-stopped capacity s c e d h in
    let (e'', n') = run-stopped capacity (step capacity c s).1 cs e' d' hs in (e'', n' ∙ n)

explicit_stop-stopped :
    (s : RetryState) (g : IntentGeneration)
    → (explicit_stop g s).0 ≡ ok tt
    → StoppedSince s (explicit_stop g s).1
unfolding explicit_stop
explicit_stop-stopped s g h = ground arith

-- After a successful explicit stop, until the next explicit start, no command commits another
-- attempt: whatever late events arrive, the phase stays stopped and the count of attempts is that
-- of the state before the stop.
pub stop_persists :
    (capacity : ℕ) (s : RetryState) (g : IntentGeneration) (cs : List Command)
    → (explicit_stop g s).0 ≡ ok tt
    → NoneOf is_start cs
    → ((run capacity cs (explicit_stop g s).1).phase ≡ RetryPhase.stopped)
      × ((run capacity cs (explicit_stop g s).1).attempts_started ≡ s.attempts_started)
stop_persists capacity s g cs done h =
    let (e, d, n) = explicit_stop-stopped s g done in
    let (e', n') = run-stopped capacity (explicit_stop g s).1 cs e d h in (e', n' ∙ n)
