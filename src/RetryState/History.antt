-- ===== src/RetryState/History.antt =====
-- The recent failures and the totals against a full log of the failures of an intent.
use resonance_signal.Base.{
  ℕ, zero, suc, ◌-◌, ◌<◌, ◌≡◌, refl, sym, ap, inl, inr, Bool, true, false, none, some, List, [],
  ◌∷◌, ◌++◌, map, length, drop, last, last-append, Bool-cases, Option-cases, ok, err, ◌==◌, arith,
}
use mathlib.Core.List.{map-append}
use resonance_signal.RecoveryConfig.{RecoveryConfigurationIdentity}
use resonance_signal.RetryState.{RetryState, AttemptId, RetryFailureCause, FailureRecord, Checked}
use resonance_signal.RetryState.Checks.{checked_with_record, refresh_post_failure_phase}
use resonance_signal.RetryState.Intent.{initial, new, explicit_start, explicit_stop}
use resonance_signal.RetryState.Attempt.{
  commit_attempt, commit_initial_attempt, commit_recovery_attempt, record_owner_created,
  record_stream_started, record_normal_completion,
}
use resonance_signal.RetryState.Evidence.{
  push_history, record_failure, record_terminal_event_delivered, record_cleanup_complete,
}
use resonance_signal.RetryState.Episode.{
  require_cooldown, satisfy_cooldown, mark_exhausted, advance_recovery_episode,
}
use resonance_signal.RetryState.Machine.{Command, start, failure, Reply, done, reply, step, run}
use resonance_signal.RetryState.Tally.{
  Entry, entry_of, count_kind, tally, checked_with_record-Tallies,
}

-- The log after a command and its result: a start empties it, a recorded failure extends it.
abbrev pub logged : Command → Checked Reply → List Entry → List Entry
logged (start c) (ok r) log = []
logged (failure id cause) (ok r) log = log ++ (id, cause) ∷ []
logged _ _ log = log

unfoldable pub run_log : ℕ → List Command → RetryState → List Entry → List Entry
run_log capacity [] s log = log
run_log capacity (c ∷ cs) s log =
    run_log capacity cs (step capacity c s).1 (logged c (step capacity c s).0 log)

map-drop : (n : ℕ) (xs : List FailureRecord) → map entry_of (drop n xs) ≡ drop n (map entry_of xs)
map-drop zero xs = refl
map-drop (suc n) [] = refl
map-drop (suc n) (x ∷ xs) = map-drop n xs

length-entries : (xs : List FailureRecord) → length (map entry_of xs) ≡ length xs
length-entries [] = refl
length-entries (x ∷ xs) = ap suc (length-entries xs)

push_history-last :
    (capacity : ℕ) (h : List FailureRecord) (log : List Entry) (r : FailureRecord)
    → 0 < capacity
    → map entry_of h ≡ last capacity log
    → map entry_of (push_history capacity h r) ≡ last capacity (log ++ entry_of r ∷ [])
unfolding push_history
push_history-last capacity h log r pos e = rw (last-append capacity log (entry_of r) pos) (
    rw (← e, length-entries h)
      (elim (Bool-cases (length h == capacity)) [
        | inl full ↦ rw (full, map-append, map-drop)
        | inr room ↦ rw (room, map-append)
      ]))

-- The state records the log: its recent failures are the last ones of the log, its totals the
-- tally of the whole log.
pub record Records (capacity : ℕ) (log : List Entry) (s : RetryState) : Type 0 where
  pub recent : map entry_of s.recent_failures ≡ last capacity log
  pub totals : s.failure_totals ≡ tally log

-- A failure that is recorded is pushed on the history and counted; a refused one is not.
abbrev Pushed :
    ℕ → RetryState → AttemptId → RetryFailureCause → Checked (Unit {0}) × RetryState → Type 0
Pushed capacity s id cause (ok u, t) = elim t.last_failure [
  | none ↦ ⊥
  | some r ↦
      (entry_of r ≡ (id, cause))
      × (t.recent_failures ≡ push_history capacity s.recent_failures r)
      × (checked_with_record s.failure_totals cause ≡ ok t.failure_totals)
]
Pushed capacity s id cause (err e, t) =
    (t.recent_failures ≡ s.recent_failures) × (t.failure_totals ≡ s.failure_totals)

record_failure-Pushed :
    (capacity : ℕ) (s : RetryState) (id : AttemptId) (cause : RetryFailureCause)
    → Pushed capacity s id cause (record_failure capacity id cause s)
unfolding record_failure refresh_post_failure_phase
record_failure-Pushed capacity s id cause = ground arith

last-nil : (capacity : ℕ) → last {A = Entry} capacity [] ≡ []
last-nil capacity = let e : 0 - capacity ≡ 0 = omega arith in rw e

abbrev changes_records : Command → Bool
changes_records (start c) = true
changes_records (failure id cause) = true
changes_records _ = false

abbrev SameRecords : RetryState → RetryState → Type 0
SameRecords s t = (t.recent_failures ≡ s.recent_failures) × (t.failure_totals ≡ s.failure_totals)

-- Only a start and a failure change what is recorded.
step-SameRecords :
    (capacity : ℕ) (s : RetryState) (c : Command)
    → changes_records c ≡ false
    → SameRecords s (step capacity c s).1
unfolding step explicit_stop commit_attempt commit_initial_attempt commit_recovery_attempt
    record_owner_created record_stream_started record_normal_completion
    record_terminal_event_delivered record_cleanup_complete require_cooldown satisfy_cooldown
    mark_exhausted advance_recovery_episode refresh_post_failure_phase
step-SameRecords capacity s (start c) h = cc
step-SameRecords capacity s (failure id cause) h = cc
step-SameRecords capacity s _ h = ground arith

module _ (capacity : ℕ) (log : List Entry) (s : RetryState) (h : Records capacity log s) where
  Pushed-Records :
      (id : AttemptId) (cause : RetryFailureCause) (r : Checked (Unit {0}) × RetryState)
      → 0 < capacity
      → Pushed capacity s id cause r
      → Records capacity
          (logged (failure id cause) (reply (λ _. done) r).0 log)
          (reply (λ _. done) r).1
  Pushed-Records id cause (err e, t) pos p = ground (arith, h.recent, h.totals)
  Pushed-Records id cause (ok u, t) pos p = elim (Option-cases t.last_failure) [
    | inl e ↦ absurd (rw e at p)
    | inr (r, e) ↦
        let (entry, recent, count) = rw e at p in
        record {
          recent =
              rw (recent, push_history-last capacity s.recent_failures log r pos h.recent, entry);
          totals = ground (arith, h.totals, count, checked_with_record-Tallies log id cause);
        }
  ]

  SameRecords-Records : (t : RetryState) → SameRecords s t → Records capacity log t
  SameRecords-Records t (recent, totals) = record {
    recent = rw recent h.recent;
    totals = rw totals h.totals;
  }

  start-Records :
      (c : RecoveryConfigurationIdentity)
      → Records capacity
          (logged (start c) (step capacity (start c) s).0 log)
          (step capacity (start c) s).1
  unfolding step explicit_start count_kind
  start-Records c = ground (arith, last-nil capacity)

  step-Records :
      (c : Command)
      → 0 < capacity
      → Records capacity (logged c (step capacity c s).0 log) (step capacity c s).1
  unfolding step
  step-Records (start c) pos = start-Records c
  step-Records (failure id cause) pos =
      Pushed-Records id cause (record_failure capacity id cause s) pos
        (record_failure-Pushed capacity s id cause)
  step-Records c pos = SameRecords-Records _ (step-SameRecords capacity s c refl)

run-Records :
    (capacity : ℕ) (log : List Entry) (s : RetryState) (cs : List Command)
    → 0 < capacity
    → Records capacity log s
    → Records capacity (run_log capacity cs s log) (run capacity cs s)
unfolding run run_log
run-Records capacity log s [] pos h = h
run-Records capacity log s (c ∷ cs) pos h =
    run-Records capacity (logged c (step capacity c s).0 log) (step capacity c s).1 cs pos
      (step-Records capacity log s h c pos)

-- From a new retry state, after any history of calls, the recent failures are exactly the last
-- ones, up to the capacity and in order, of the full log of the failures recorded since the last
-- explicit start, and the failure totals count every failure of that log by its class.
pub reachable-Records :
    (capacity : ℕ) (s : RetryState) (cs : List Command)
    → new capacity ≡ ok s
    → Records capacity (run_log capacity cs s []) (run capacity cs s)
unfolding new count_kind
reachable-Records zero s cs e = cc
reachable-Records (suc capacity) s cs e =
    let fresh : s ≡ initial = cc in
    run-Records (suc capacity) [] s cs (omega arith)
      (rw fresh (record { recent = sym (last-nil (suc capacity)); totals = refl }))
