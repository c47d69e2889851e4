-- ===== src/RetryState/Tally.antt =====
-- The failures of an intent counted by the class of their cause.
use resonance_signal.Base.{
  ℕ, ◌+◌, ◌≡◌, List, [], ◌∷◌, ◌++◌, length, length-append, ok, err, ◌==◌, if◌then◌else◌, arith,
}
use resonance_signal.RetryState.{
  AttemptId, RetryFailureCause, FailureRecord, FailureTotals, Checked,
}
use resonance_signal.RetryState.Checks.{count_cause, checked_with_record}

-- A log entry: the attempt that failed, and why.
abbrev pub Entry : Type 0
Entry = AttemptId × RetryFailureCause

abbrev pub entry_of : FailureRecord → Entry
entry_of r = (r.attempt_id, r.cause)

abbrev cause_index : RetryFailureCause → ℕ
cause_index RetryFailureCause.owner_construction_failure = 0
cause_index (RetryFailureCause.device_unavailable c) = 1
cause_index (RetryFailureCause.source_reconfigured c) = 2
cause_index RetryFailureCause.interrupted = 3
cause_index RetryFailureCause.resource_exhausted = 4
cause_index RetryFailureCause.unsupported_format = 5
cause_index RetryFailureCause.internal_failure = 6
cause_index RetryFailureCause.startup_failure = 7
cause_index RetryFailureCause.worker_panic = 8

-- How many entries of the log have a cause of the given kind.
unfoldable pub count_kind : ℕ → List Entry → ℕ
count_kind k [] = 0
count_kind k ((id, cause) ∷ log) = (if cause_index cause == k then 1 else 0) + count_kind k log

abbrev pub tally : List Entry → FailureTotals
tally log = record {
  total = length log;
  owner_construction_failure = count_kind 0 log;
  device_unavailable = count_kind 1 log;
  source_reconfigured = count_kind 2 log;
  interrupted = count_kind 3 log;
  resource_exhausted = count_kind 4 log;
  unsupported_format = count_kind 5 log;
  internal_failure = count_kind 6 log;
  startup_failure = count_kind 7 log;
  worker_panic = count_kind 8 log;
}

count_kind-append :
    (k : ℕ) (log : List Entry) (id : AttemptId) (cause : RetryFailureCause)
    → count_kind k (log ++ (id, cause) ∷ [])
      ≡ count_kind k log + (if cause_index cause == k then 1 else 0)
unfolding count_kind
count_kind-append k [] id cause = omega arith
count_kind-append k ((i, c) ∷ log) id cause = omega (arith, count_kind-append k log id cause)

-- A checked count is the tally of the extended log.
abbrev pub Tallies : List Entry → Entry → Checked FailureTotals → Type 0
Tallies log x (ok t) = t ≡ tally (log ++ x ∷ [])
Tallies log x (err e) = Unit

pub checked_with_record-Tallies :
    (log : List Entry) (id : AttemptId) (cause : RetryFailureCause)
    → Tallies log (id, cause) (checked_with_record (tally log) cause)
unfolding checked_with_record count_cause
checked_with_record-Tallies log id cause = ground (
  arith,
  length-append log ((id, cause) ∷ []),
  count_kind-append 0 log id cause,
  count_kind-append 1 log id cause,
  count_kind-append 2 log id cause,
  count_kind-append 3 log id cause,
  count_kind-append 4 log id cause,
  count_kind-append 5 log id cause,
  count_kind-append 6 log id cause,
  count_kind-append 7 log id cause,
  count_kind-append 8 log id cause,
)
