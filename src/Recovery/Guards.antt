-- ===== src/Recovery/Guards.antt =====
-- What the recovery policy requires before it permits a replacement.
use resonance_signal.Base.{
  ◌≡◌, ◌≢◌, ◌↔◌, ◌⊎◌, true, false, Option, none, some, is_some, refl, arith,
}
use resonance_signal.Recovery.Types.{
  retry_now, retry_later, wait_for_source, do_not_retry, RecoveryContext, default_endpoint_changed,
  format_changed, RecoveryCause, follow_default, RecoveryEvidence, RecoveryDecisionReason,
  RecoveryDecision, permit_replacement,
}
use resonance_signal.Recovery.Policy.{
  first, evaluate_common_preconditions, evaluate_cause, evaluate_recovery,
}

-- The intent is current, and the previous attempt has ended and been cleaned up.
pub record LifecycleEnded (context : RecoveryContext) (evidence : RecoveryEvidence) : Type 0 where
  pub running : context.desired_running ≡ true
  pub current : context.evaluated_intent_generation ≡ context.current_intent_generation
  pub owner : evidence.owner_completed ≡ some true
  pub resources : evidence.resources_released ≡ some true
  pub boundary :
      ((evidence.stream_started ≡ some true) × (evidence.terminal_event_delivered ≡ some true))
      ⊎ ((evidence.stream_started ≡ some false) × (evidence.terminal_event_delivered ≢ some true))

-- The evidence that permits a replacement, cause by cause, with the reason that is given. Causes
-- with no clause are never retried.
abbrev pub Permits : RecoveryCause → RecoveryEvidence → RecoveryDecisionReason → Type 0
Permits (RecoveryCause.device_unavailable c) e reason =
    (reason ≡ RecoveryDecisionReason.source_available)
    × (e.retry_hint ≡ some wait_for_source)
    × (is_some e.source_policy ≡ true)
    × (e.source_available ≡ some true)
    × (e.attempts_remaining ≡ some true)
Permits (RecoveryCause.source_reconfigured default_endpoint_changed) e reason =
    (reason ≡ RecoveryDecisionReason.replacement_source_ready)
    × (is_some e.retry_hint ≡ true)
    × (e.retry_hint ≢ some do_not_retry)
    × (e.source_policy ≡ some follow_default)
    × (e.replacement_source_resolved ≡ some true)
    × (e.attempts_remaining ≡ some true)
Permits (RecoveryCause.source_reconfigured format_changed) e reason =
    (reason ≡ RecoveryDecisionReason.supported_format_available)
    × (is_some e.retry_hint ≡ true)
    × (e.retry_hint ≢ some do_not_retry)
    × (e.supported_format_available ≡ some true)
    × (e.attempts_remaining ≡ some true)
Permits RecoveryCause.interrupted e reason =
    (reason ≡ RecoveryDecisionReason.retry_eligible)
    × (e.attempts_remaining ≡ some true)
    × ((e.retry_hint ≡ some retry_now)
        ⊎ ((e.retry_hint ≡ some retry_later) × (e.cooldown_complete ≡ some true)))
Permits RecoveryCause.resource_exhausted e reason =
    (reason ≡ RecoveryDecisionReason.pressure_cleared)
    × (e.retry_hint ≡ some retry_later)
    × (e.attempts_remaining ≡ some true)
    × (e.cooldown_complete ≡ some true)
    × (e.pressure_cleared ≡ some true)
Permits _ e reason = ⊥

pub common_preconditions_iff :
    (context : RecoveryContext) (cause : RecoveryCause) (evidence : RecoveryEvidence)
    → cause ≢ RecoveryCause.explicit_stop
    → (evaluate_common_preconditions context cause evidence ≡ none)
      ↔ LifecycleEnded context evidence
unfolding evaluate_common_preconditions
common_preconditions_iff context cause evidence h = (λ p. ground arith, λ p. ground arith)

cause-Permits_iff :
    (cause : RecoveryCause) (evidence : RecoveryEvidence) (reason : RecoveryDecisionReason)
    → (evaluate_cause cause evidence ≡ permit_replacement reason) ↔ Permits cause evidence reason
unfolding evaluate_cause
cause-Permits_iff RecoveryCause.explicit_stop e r = (λ p. ground arith, λ p. ground arith)
cause-Permits_iff (RecoveryCause.source_reconfigured default_endpoint_changed) e r =
    (λ p. ground arith, λ p. ground arith)
cause-Permits_iff (RecoveryCause.source_reconfigured format_changed) e r =
    (λ p. ground arith, λ p. ground arith)
cause-Permits_iff _ e r = (λ p. ground arith, λ p. ground arith)

pub preconditions_never_permit :
    (context : RecoveryContext) (cause : RecoveryCause) (evidence : RecoveryEvidence)
    (reason : RecoveryDecisionReason)
    → evaluate_common_preconditions context cause evidence ≢ some (permit_replacement reason)
unfolding evaluate_common_preconditions
preconditions_never_permit context cause evidence reason h = ground arith

pub first-permits :
    (o : Option RecoveryDecision) (d : RecoveryDecision) (reason : RecoveryDecisionReason)
    → o ≢ some (permit_replacement reason)
    → (first o d ≡ permit_replacement reason) ↔ ((o ≡ none) × (d ≡ permit_replacement reason))
first-permits none d reason h = (λ p. (refl, p), λ p. p.1)
first-permits (some x) d reason h = (λ p. ground arith, λ p. ground arith)

Permits-ne-explicit_stop :
    (cause : RecoveryCause) (evidence : RecoveryEvidence) (reason : RecoveryDecisionReason)
    → Permits cause evidence reason
    → cause ≢ RecoveryCause.explicit_stop
Permits-ne-explicit_stop RecoveryCause.explicit_stop e r q = absurd q
Permits-ne-explicit_stop _ e r q = λ h. cc

-- The policy permits a replacement, and gives this reason, exactly when the intent is desired and
-- current, the owner has completed, the resources are released, the terminal event of a stream that
-- started was delivered (and none of one that did not), and the evidence is what the cause calls
-- for. Missing evidence never permits.
pub evaluate_recovery-Permits :
    (context : RecoveryContext) (cause : RecoveryCause) (evidence : RecoveryEvidence)
    (reason : RecoveryDecisionReason)
    → (evaluate_recovery context cause evidence ≡ permit_replacement reason)
      ↔ (LifecycleEnded context evidence × Permits cause evidence reason)
unfolding evaluate_recovery
evaluate_recovery-Permits context cause evidence reason =
    let split =
      first-permits (evaluate_common_preconditions context cause evidence)
        (evaluate_cause cause evidence) reason
        (preconditions_never_permit context cause evidence reason) in
    let by_cause = cause-Permits_iff cause evidence reason in
    let by_lifecycle = λ (q : Permits cause evidence reason).
      common_preconditions_iff context cause evidence
        (Permits-ne-explicit_stop cause evidence reason q) in
    (
      (λ p. let (n, d) = split.0 p in let q = by_cause.0 d in ((by_lifecycle q).0 n, q)),
      (λ (l, q). split.1 ((by_lifecycle q).1 l, by_cause.1 q)),
    )
