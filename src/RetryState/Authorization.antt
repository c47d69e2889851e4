-- ===== src/RetryState/Authorization.antt =====
-- A recovery permission is good for one commit, in the very state that it was evaluated in.
use resonance_signal.Base.{
  ℕ, ◌+◌, ◌<◌, ◌≡◌, ◌↔◌, ◌⊎◌, true, Option, none, some, List, [], ◌∷◌, ok, err, u64_max, arith,
}
use resonance_signal.Recovery.Types.{RecoveryDecisionReason, permit_replacement}
use resonance_signal.RetryState.{
  RetryState, RetrySnapshot, RecoveryAuthorization, RetryPhase, AttemptId, Checked,
  ready_for_evaluation, stale_snapshot, permits_progression, RecoveryEpisodeState,
}
use resonance_signal.RetryState.Checks.{require_current_authorization, snapshot, authorize}
use resonance_signal.RetryState.Attempt.{commit_attempt, commit_recovery_attempt}
use resonance_signal.RetryState.Machine.{Command, Reply, step, run}
use resonance_signal.RetryState.Inv.{Inv}
use resonance_signal.RetryState.Freshness.{Effect, step-Effect, commit_recovery_attempt-Effect}

-- The state belongs to a later intent than `g`, or to `g` at a later revision than `r`.
abbrev NewerThan : ℕ → ℕ → RetryState → Type 0
NewerThan g r t =
    (t.intent_generation ≡ some t.last_intent_generation)
    × ((g < t.last_intent_generation) ⊎ ((t.last_intent_generation ≡ g) × (r < t.state_revision)))

Effect-NewerThan :
    {A : Type 0} (g r : ℕ) (s : RetryState) (e : Checked A × RetryState)
    → Effect s e
    → NewerThan g r s
    → NewerThan g r e.1
Effect-NewerThan g r s (ok a, t) h n = ground arith
Effect-NewerThan g r s (err x, t) h n = ground arith

run-NewerThan :
    (capacity g r : ℕ) (s : RetryState) (cs : List Command)
    → NewerThan g r s
    → NewerThan g r (run capacity cs s)
unfolding run
run-NewerThan capacity g r s [] n = n
run-NewerThan capacity g r s (c ∷ cs) n =
    run-NewerThan capacity g r (step capacity c s).1 cs
      (Effect-NewerThan g r s (step capacity c s) (step-Effect capacity s c) n)

-- A success leaves a state that is newer than what was current before it.
success-NewerThan :
    {A : Type 0} (capacity : ℕ) (s : RetryState) (e : Checked A × RetryState) (a : A) (g r : ℕ)
    → Inv capacity s
    → Effect s e
    → e.0 ≡ ok a
    → s.intent_generation ≡ some g
    → s.state_revision ≡ r
    → NewerThan g r e.1
success-NewerThan capacity s (ok x, t) a g r v h q i w = ground (arith, v.intent)
success-NewerThan capacity s (err x, t) a g r v h q i w = cc

current_authorization :
    (s : RetryState) (a : RecoveryAuthorization)
    → require_current_authorization s a ≡ ok tt
    → (s.intent_generation ≡ some a.intent_generation) × (s.state_revision ≡ a.state_revision)
unfolding require_current_authorization
current_authorization s a h = ground arith

NewerThan-stale :
    (s : RetryState) (a : RecoveryAuthorization)
    → NewerThan a.intent_generation a.state_revision s
    → require_current_authorization s a ≡ err stale_snapshot
unfolding require_current_authorization
NewerThan-stale s a h = ground arith

NewerThan-refused :
    (capacity : ℕ) (s : RetryState) (a : RecoveryAuthorization) (cs : List Command)
    → NewerThan a.intent_generation a.state_revision s
    → (commit_recovery_attempt a (run capacity cs s)).0 ≡ err stale_snapshot
unfolding commit_recovery_attempt
NewerThan-refused capacity s a cs h = rw (
    NewerThan-stale (run capacity cs s) a
      (run-NewerThan capacity a.intent_generation a.state_revision s cs h))

-- Once any command has succeeded, an authorization that was current before it is refused as stale,
-- whatever commands follow.
pub authorization_expires :
    (capacity : ℕ) (s : RetryState) (a : RecoveryAuthorization) (c : Command) (r : Reply)
    (cs : List Command)
    → Inv capacity s
    → require_current_authorization s a ≡ ok tt
    → (step capacity c s).0 ≡ ok r
    → (commit_recovery_attempt a (run capacity cs (step capacity c s).1)).0 ≡ err stale_snapshot
authorization_expires capacity s a c r cs v cur done =
    let (i, w) = current_authorization s a cur in
    NewerThan-refused capacity (step capacity c s).1 a cs (
      success-NewerThan capacity s (step capacity c s) r a.intent_generation a.state_revision v
        (step-Effect capacity s c) done i w)

commit_needs_current :
    (s : RetryState) (a : RecoveryAuthorization) (id : AttemptId)
    → (commit_recovery_attempt a s).0 ≡ ok id
    → require_current_authorization s a ≡ ok tt
unfolding commit_recovery_attempt
commit_needs_current s a id h = ground arith

-- An authorization commits one recovery attempt at most: after its commit has succeeded, every
-- later commit with it is refused as stale, whatever commands come between.
pub authorization_single_use :
    (capacity : ℕ) (s : RetryState) (a : RecoveryAuthorization) (id : AttemptId) (cs : List Command)
    → Inv capacity s
    → (commit_recovery_attempt a s).0 ≡ ok id
    → (commit_recovery_attempt a (run capacity cs (commit_recovery_attempt a s).1)).0
      ≡ err stale_snapshot
authorization_single_use capacity s a id cs v h =
    let (i, w) = current_authorization s a (commit_needs_current s a id h) in
    NewerThan-refused capacity (commit_recovery_attempt a s).1 a cs (
      success-NewerThan capacity s (commit_recovery_attempt a s) id a.intent_generation
        a.state_revision v (commit_recovery_attempt-Effect s a) h i w)

-- There is an episode, and the counters that a commit raises are below the limit of u64.
abbrev pub HasRoom : RetryState → Option RecoveryEpisodeState → Type 0
HasRoom s none = ⊥
HasRoom s (some e) =
    (s.attempts_started < u64_max)
    × (s.state_revision < u64_max)
    × (e.automatic_recovery_attempts_started < u64_max)

-- A permission that is bound to the snapshot of a state that satisfies the invariant commits an
-- attempt in that state exactly when the state is waiting, its cooldown allows progress, it has an
-- episode, and the counters that the commit raises are below the limit of u64.
pub snapshot_authorize_commit :
    (capacity : ℕ) (s : RetryState) (evaluated : RetrySnapshot) (a : RecoveryAuthorization)
    (reason : RecoveryDecisionReason)
    → Inv capacity s
    → snapshot s ≡ ok evaluated
    → authorize evaluated (permit_replacement reason) ≡ ok a
    → ((id : AttemptId) × ((commit_recovery_attempt a s).0 ≡ ok id)) ↔ (
        (s.phase ≡ RetryPhase.waiting)
        × (permits_progression s.cooldown ≡ true)
        × HasRoom s s.recovery_episode)
unfolding snapshot authorize commit_recovery_attempt commit_attempt require_current_authorization
    ready_for_evaluation
snapshot_authorize_commit capacity s evaluated a reason v snap auth = (
  (λ p. let (id, h) = p in ground arith),
  (λ h. (
    record { intent_generation = s.last_intent_generation; ordinal = s.attempts_started + 1 },
    ground arith,
  )),
)
