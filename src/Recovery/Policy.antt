-- ===== src/Recovery/Policy.antt =====
-- crates/resonance-agent/src/recovery.rs: the evaluation of the recovery policy. A cascade of early
-- returns is a chain of `first`: each step returns a decision or lets the next one decide.
use resonance_signal.Base.{
  Bool, true, false, not, ◌||◌, Option, none, some, ◌==◌, is_some, bool_eq, if◌then◌else◌,
}
use resonance_signal.Recovery.Types.{
  RetryHint, retry_now, retry_later, wait_for_source, do_not_retry, RecoveryContext,
  default_endpoint_changed, format_changed, RecoveryCause, RecoverySourcePolicy, pinned,
  RecoveryEvidence, RecoveryDecisionReason, RecoveryDecision, remain_stopped, wait,
  permit_replacement,
}

-- `if let Some(decision) = d { return decision; } rest`
abbrev pub first : Option RecoveryDecision → RecoveryDecision → RecoveryDecision
first (some decision) rest = decision
first none rest = rest

abbrev pub when : Bool → RecoveryDecision → Option RecoveryDecision
when true decision = some decision
when false decision = none

abbrev pub missing_evidence : RecoveryDecision
missing_evidence = remain_stopped RecoveryDecisionReason.missing_evidence

abbrev pub is_do_not_retry : Option RetryHint → Bool
is_do_not_retry (some do_not_retry) = true
is_do_not_retry _ = false

abbrev is_wait_for_source : Option RetryHint → Bool
is_wait_for_source (some wait_for_source) = true
is_wait_for_source _ = false

abbrev is_retry_later : Option RetryHint → Bool
is_retry_later (some retry_later) = true
is_retry_later _ = false

abbrev is_pinned : Option RecoverySourcePolicy → Bool
is_pinned (some pinned) = true
is_pinned _ = false

abbrev pub is_explicit_stop : RecoveryCause → Bool
is_explicit_stop RecoveryCause.explicit_stop = true
is_explicit_stop _ = false

-- `value == Some(b)`
abbrev pub is_some_bool : Bool → Option Bool → Bool
is_some_bool b none = false
is_some_bool b (some c) = bool_eq b c

abbrev pub retry_veto : Option RetryHint → Option RecoveryDecision
retry_veto hint = when (is_do_not_retry hint) (remain_stopped RecoveryDecisionReason.retry_vetoed)

-- The terminal event of a stream that started.
abbrev terminal_precondition : Option Bool → Option RecoveryDecision
terminal_precondition none = some missing_evidence
terminal_precondition (some delivered) =
    when (not delivered) (wait RecoveryDecisionReason.terminal_boundary_pending)

-- The checks that need all three lifecycle facts.
lifecycle_preconditions : Bool → Bool → Bool → Option Bool → Option RecoveryDecision
lifecycle_preconditions stream_started owner_completed resources_released terminal =
    if not owner_completed || not resources_released
    then some (wait RecoveryDecisionReason.cleanup_pending)
    else (if stream_started
        then terminal_precondition terminal
        else when (is_some_bool true terminal)
            (remain_stopped RecoveryDecisionReason.inconsistent_evidence))

known_lifecycle : RecoveryEvidence → Option RecoveryDecision
unfolding lifecycle_preconditions
known_lifecycle evidence = elim evidence.stream_started [
  | none ↦ some missing_evidence
  | some stream_started ↦ elim evidence.owner_completed [
    | none ↦ some missing_evidence
    | some owner_completed ↦ elim evidence.resources_released [
      | none ↦ some missing_evidence
      | some resources_released ↦
          lifecycle_preconditions stream_started owner_completed resources_released
            evidence.terminal_event_delivered
    ]
  ]
]

unfoldable pub evaluate_common_preconditions :
    RecoveryContext → RecoveryCause → RecoveryEvidence → Option RecoveryDecision
unfolding known_lifecycle
evaluate_common_preconditions context cause evidence =
    if not context.desired_running || is_explicit_stop cause
    then some (remain_stopped RecoveryDecisionReason.explicit_stop)
    else (if context.evaluated_intent_generation == context.current_intent_generation
        then known_lifecycle evidence
        else some (remain_stopped RecoveryDecisionReason.stale_intent))

-- The final match of three evaluations: permit, wait, or fail closed.
abbrev permit_if : Option Bool → RecoveryDecisionReason → RecoveryDecisionReason → RecoveryDecision
permit_if (some true) ready pending = permit_replacement ready
permit_if (some false) ready pending = wait pending
permit_if none ready pending = missing_evidence

abbrev budget_exhausted : RecoveryDecision
budget_exhausted = remain_stopped RecoveryDecisionReason.retry_budget_exhausted

evaluate_device_unavailable : RecoveryEvidence → RecoveryDecision
evaluate_device_unavailable evidence = first (retry_veto evidence.retry_hint) (
    first
      (when (not (is_wait_for_source evidence.retry_hint)) (
        if is_some evidence.retry_hint
        then remain_stopped RecoveryDecisionReason.inconsistent_evidence
        else missing_evidence))
      (first
        (when
          (not (is_some evidence.source_policy)
            || (not (is_some evidence.source_available)
                || not (is_some evidence.attempts_remaining)))
          missing_evidence)
        (first (when (is_some_bool false evidence.attempts_remaining) budget_exhausted) (
          permit_if evidence.source_available RecoveryDecisionReason.source_available
            RecoveryDecisionReason.source_unavailable))))

evaluate_default_endpoint_change : RecoveryEvidence → RecoveryDecision
evaluate_default_endpoint_change evidence = first (retry_veto evidence.retry_hint) (
    first
      (when
        (not (is_some evidence.retry_hint)
          || (not (is_some evidence.source_policy)
              || (not (is_some evidence.replacement_source_resolved)
                  || not (is_some evidence.attempts_remaining))))
        missing_evidence)
      (first
        (when (is_pinned evidence.source_policy)
          (remain_stopped RecoveryDecisionReason.pinned_source))
        (first (when (is_some_bool false evidence.attempts_remaining) budget_exhausted) (
          permit_if evidence.replacement_source_resolved
            RecoveryDecisionReason.replacement_source_ready
            RecoveryDecisionReason.replacement_source_pending))))

evaluate_format_change : RecoveryEvidence → RecoveryDecision
evaluate_format_change evidence = first (retry_veto evidence.retry_hint) (
    first
      (when
        (not (is_some evidence.retry_hint)
          || (not (is_some evidence.supported_format_available)
              || not (is_some evidence.attempts_remaining)))
        missing_evidence)
      (first (when (is_some_bool false evidence.attempts_remaining) budget_exhausted) (
        permit_if evidence.supported_format_available
          RecoveryDecisionReason.supported_format_available
          RecoveryDecisionReason.supported_format_unavailable)))

-- The match on the hint of an interruption with attempts left.
abbrev interruption_hint : Option RetryHint → Option Bool → RecoveryDecision
interruption_hint (some retry_now) cooldown_complete =
    permit_replacement RecoveryDecisionReason.retry_eligible
interruption_hint (some retry_later) cooldown_complete =
    permit_if cooldown_complete RecoveryDecisionReason.retry_eligible
      RecoveryDecisionReason.cooldown_pending
interruption_hint (some _) cooldown_complete =
    remain_stopped RecoveryDecisionReason.inconsistent_evidence
interruption_hint none cooldown_complete = missing_evidence

evaluate_interruption : RecoveryEvidence → RecoveryDecision
evaluate_interruption evidence =
    first (retry_veto evidence.retry_hint) (elim evidence.attempts_remaining [
      | none ↦ missing_evidence
      | some attempts_remaining ↦
          if attempts_remaining
          then interruption_hint evidence.retry_hint evidence.cooldown_complete
          else budget_exhausted
    ])

evaluate_resource_exhaustion : RecoveryEvidence → RecoveryDecision
evaluate_resource_exhaustion evidence = first (retry_veto evidence.retry_hint) (
    first
      (when
        (not (is_some evidence.retry_hint)
          || (not (is_some evidence.attempts_remaining)
              || (not (is_some evidence.cooldown_complete)
                  || not (is_some evidence.pressure_cleared))))
        missing_evidence)
      (first
        (when (not (is_retry_later evidence.retry_hint))
          (remain_stopped RecoveryDecisionReason.inconsistent_evidence))
        (first (when (is_some_bool false evidence.attempts_remaining) budget_exhausted) (
          first
            (when
              (is_some_bool false evidence.cooldown_complete
                || is_some_bool false evidence.pressure_cleared)
              (wait RecoveryDecisionReason.pressure_clearance_pending))
            (permit_replacement RecoveryDecisionReason.pressure_cleared)))))

evaluate_stopped_cause : Option RetryHint → RecoveryDecisionReason → RecoveryDecision
evaluate_stopped_cause hint reason =
    first (when (not (is_some hint)) missing_evidence)
      (first (retry_veto hint) (remain_stopped reason))

unfoldable pub evaluate_cause : RecoveryCause → RecoveryEvidence → RecoveryDecision
unfolding evaluate_device_unavailable evaluate_default_endpoint_change evaluate_format_change
    evaluate_interruption evaluate_resource_exhaustion evaluate_stopped_cause
evaluate_cause RecoveryCause.explicit_stop evidence =
    remain_stopped RecoveryDecisionReason.explicit_stop
evaluate_cause RecoveryCause.normal_shutdown evidence =
    remain_stopped RecoveryDecisionReason.normal_shutdown
evaluate_cause (RecoveryCause.device_unavailable c) evidence = evaluate_device_unavailable evidence
evaluate_cause (RecoveryCause.source_reconfigured default_endpoint_changed) evidence =
    evaluate_default_endpoint_change evidence
evaluate_cause (RecoveryCause.source_reconfigured format_changed) evidence =
    evaluate_format_change evidence
evaluate_cause RecoveryCause.interrupted evidence = evaluate_interruption evidence
evaluate_cause RecoveryCause.resource_exhausted evidence = evaluate_resource_exhaustion evidence
evaluate_cause RecoveryCause.unsupported_format evidence =
    evaluate_stopped_cause evidence.retry_hint RecoveryDecisionReason.unsupported_format
evaluate_cause RecoveryCause.internal_failure evidence =
    evaluate_stopped_cause evidence.retry_hint RecoveryDecisionReason.internal_failure
evaluate_cause RecoveryCause.startup_failure evidence =
    remain_stopped RecoveryDecisionReason.startup_failure
evaluate_cause RecoveryCause.worker_panic evidence =
    remain_stopped RecoveryDecisionReason.worker_panic

unfoldable pub evaluate_recovery :
    RecoveryContext → RecoveryCause → RecoveryEvidence → RecoveryDecision
evaluate_recovery context cause evidence =
    first (evaluate_common_preconditions context cause evidence) (evaluate_cause cause evidence)
