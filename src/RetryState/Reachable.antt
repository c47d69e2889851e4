-- ===== src/RetryState/Reachable.antt =====
-- The invariant over histories: every command keeps it, so every reachable retry state has it.
use resonance_signal.Base.{ℕ, zero, suc, ◌<◌, ◌≡◌, List, [], ◌∷◌, ok, err, arith}
use resonance_signal.RetryState.{RetryState, Checked}
use resonance_signal.RetryState.Intent.{initial, new}
use resonance_signal.RetryState.Machine.{
  Command, start, stop, commit_initial, commit_recovery, owner_created, stream_started,
  normal_completion, failure, terminal_event, cleanup_complete, cooldown_required,
  cooldown_satisfied, exhausted, advance_episode, Reply, reply, step, run,
}
use resonance_signal.RetryState.Inv.{Inv, Inv-initial}
use resonance_signal.RetryState.Inv.Keeps
use resonance_signal.RetryState.Inv.Failure.{record_failure-Inv}

pub reply_state : {A : Type 0} (f : A → Reply) (r : Checked A × RetryState) → (reply f r).1 ≡ r.1
reply_state f (ok a, s) = ground arith
reply_state f (err e, s) = ground arith

-- Every command keeps the invariant, whether it succeeds or fails.
pub step-Inv :
    (capacity : ℕ) (s : RetryState) (c : Command)
    → 0 < capacity
    → Inv capacity s
    → Inv capacity (step capacity c s).1
unfolding step
step-Inv capacity s (start x) pos v = rw reply_state (Keeps.explicit_start-Inv capacity s v x)
step-Inv capacity s (stop g) pos v = rw reply_state (Keeps.explicit_stop-Inv capacity s v g)
step-Inv capacity s (commit_initial g) pos v =
    rw reply_state (Keeps.commit_initial_attempt-Inv capacity s v g)
step-Inv capacity s (commit_recovery a) pos v =
    rw reply_state (Keeps.commit_recovery_attempt-Inv capacity s v a)
step-Inv capacity s (owner_created id) pos v =
    rw reply_state (Keeps.record_owner_created-Inv capacity s v id)
step-Inv capacity s (stream_started id) pos v =
    rw reply_state (Keeps.record_stream_started-Inv capacity s v id)
step-Inv capacity s (normal_completion id) pos v =
    rw reply_state (Keeps.record_normal_completion-Inv capacity s v id)
step-Inv capacity s (failure id cause) pos v =
    rw reply_state (record_failure-Inv capacity s id cause pos v)
step-Inv capacity s (terminal_event id) pos v =
    rw reply_state (Keeps.record_terminal_event_delivered-Inv capacity s v id)
step-Inv capacity s (cleanup_complete id) pos v =
    rw reply_state (Keeps.record_cleanup_complete-Inv capacity s v id)
step-Inv capacity s (cooldown_required e m) pos v =
    rw reply_state (Keeps.require_cooldown-Inv capacity s v e m)
step-Inv capacity s (cooldown_satisfied g m i) pos v =
    rw reply_state (Keeps.satisfy_cooldown-Inv capacity s v g m i)
step-Inv capacity s (exhausted e r) pos v =
    rw reply_state (Keeps.mark_exhausted-Inv capacity s v e r)
step-Inv capacity s (advance_episode g e) pos v =
    rw reply_state (Keeps.advance_recovery_episode-Inv capacity s v g e)

pub run-Inv :
    (capacity : ℕ) (s : RetryState) (cs : List Command)
    → 0 < capacity
    → Inv capacity s
    → Inv capacity (run capacity cs s)
unfolding run
run-Inv capacity s [] pos v = v
run-Inv capacity s (c ∷ cs) pos v =
    run-Inv capacity (step capacity c s).1 cs pos (step-Inv capacity s c pos v)

-- From a new retry state, after any history of calls, successful or refused, the invariant holds:
-- the phase, the current attempt, the recovery episode and the cooldown agree with one another,
-- the recent failures fit the history capacity, the failure total is the sum of its nine classes
-- and counts at most one failure for each attempt started, and the counters fit u64.
pub reachable-Inv :
    (capacity : ℕ) (s : RetryState) (cs : List Command)
    → new capacity ≡ ok s
    → Inv capacity (run capacity cs s)
unfolding new
reachable-Inv zero s cs e = cc
reachable-Inv (suc capacity) s cs e =
    let fresh : s ≡ initial = cc in
    run-Inv (suc capacity) s cs (omega arith) (rw fresh (Inv-initial (suc capacity)))
