-- ===== src/Recovery/Allowed.antt =====
-- What a validated configuration and the retry state must allow before the policy permits a
-- replacement.
use resonance_signal.Base.{
  ℕ, ◌≡◌, ◌<◌, Bool, true, false, not, ◌||◌, ◌==◌, bool_eq, Option, none, some, arith,
}
use resonance_signal.RecoveryConfig.{
  RecoveryConfigurationIdentity, RecoveryConfigurationSnapshot, identity_eq, FailureDisposition,
  retryable, non_retryable, additional_evidence_required, is_non_retryable,
}
use resonance_signal.Recovery.Types.{
  RecoveryContext, RecoveryCause, RecoveryEvidence, RecoveryDecisionReason, RecoveryDecision,
  remain_stopped, wait, permit_replacement,
}
use resonance_signal.RetryState.{RetrySnapshot, FailureRecord}
use resonance_signal.Recovery.Policy.{
  first, when, is_do_not_retry, is_explicit_stop, evaluate_common_preconditions, evaluate_recovery,
}
use resonance_signal.Recovery.Configured.{
  failure_class, cause_matches_failure, attempts_remain, cooldown_complete, evidence_value,
  maximum_attempts, delay_required, is_satisfied, episode_open, episode_attempts,
  disposition_evidence, evaluate_additional_evidence, evaluate_failure, evaluate_recovery_policy,
}
use resonance_signal.Recovery.Guards.{
  LifecycleEnded, Permits, first-permits, preconditions_never_permit, evaluate_recovery-Permits,
}

-- A check that stops or waits has passed where the chain goes on to permit.
passed_stop :
    (b : Bool) (x reason : RecoveryDecisionReason) (d : RecoveryDecision)
    → first (when b (remain_stopped x)) d ≡ permit_replacement reason
    → (b ≡ false) × (d ≡ permit_replacement reason)
passed_stop true x reason d h = cc
passed_stop false x reason d h = ground arith

passed_wait :
    (b : Bool) (x reason : RecoveryDecisionReason) (d : RecoveryDecision)
    → first (when b (wait x)) d ≡ permit_replacement reason
    → (b ≡ false) × (d ≡ permit_replacement reason)
passed_wait true x reason d h = cc
passed_wait false x reason d h = ground arith

-- The disposition of the failure class: not vetoed, and its own evidence at hand.
abbrev pub DispositionAllows : FailureDisposition → RecoveryEvidence → Type 0
DispositionAllows retryable e = Unit
DispositionAllows non_retryable e = ⊥
DispositionAllows (additional_evidence_required r) e = evidence_value r e ≡ some true

disposition_allows :
    (d : FailureDisposition) (e : RecoveryEvidence) (x : RecoveryDecision)
    (reason : RecoveryDecisionReason)
    → is_non_retryable d ≡ false
    → first (disposition_evidence d e) x ≡ permit_replacement reason
    → DispositionAllows d e × (x ≡ permit_replacement reason)
unfolding evaluate_additional_evidence
disposition_allows retryable e x reason n h = ground arith
disposition_allows _ e x reason n h = ground arith

-- The evidence that the policy completes from the configuration and the retry state.
abbrev pub completed :
    RecoveryConfigurationSnapshot → RetrySnapshot → RecoveryEvidence → RecoveryEvidence
completed c s evidence = record evidence {
  attempts_remaining = some (attempts_remain c s);
  cooldown_complete = some (cooldown_complete c s);
}

-- The episode has attempts left, and a configured delay has been satisfied.
pub record RetryAllows (c : RecoveryConfigurationSnapshot) (s : RetrySnapshot) : Type 0 where
  pub not_exhausted : episode_open s.recovery_episode ≡ true
  pub budget : episode_attempts s.recovery_episode < maximum_attempts c
  pub delay : delay_required c ≡ true → is_satisfied s.cooldown ≡ true

retry_allows :
    (c : RecoveryConfigurationSnapshot) (s : RetrySnapshot)
    → not (attempts_remain c s) ≡ false
    → not (cooldown_complete c s) ≡ false
    → RetryAllows c s
unfolding attempts_remain cooldown_complete
retry_allows c s a b = ground arith

-- The identities agree, the intent is the one evaluated, and the failure is the cause evaluated and
-- is one that the configuration lets recover.
pub record ConfigurationAllows (c : RecoveryConfigurationSnapshot)
    (current : RecoveryConfigurationIdentity) (s : RetrySnapshot) (context : RecoveryContext)
    (cause : RecoveryCause) (evidence : RecoveryEvidence) (failure : FailureRecord) : Type 0 where
  pub configuration : c.identity ≡ current
  pub snapshot : s.configuration_id ≡ c.identity
  pub generation : s.intent_generation ≡ context.evaluated_intent_generation
  pub cause_matches : cause_matches_failure cause failure.cause ≡ true
  pub disposition :
      DispositionAllows
        (c.configuration.failure_classification (failure_class failure.cause))
        (completed c s evidence)

agreement :
    (a b d : RecoveryConfigurationIdentity)
    → (not (identity_eq a b) || not (identity_eq d a)) ≡ false
    → (a ≡ b) × (d ≡ a)
agreement a b d h = ground arith

-- The failure that is recorded is the one evaluated.
recorded :
    (o : Option FailureRecord) (failure : FailureRecord) (d : RecoveryDecision)
    (f : FailureRecord → RecoveryDecision) (reason : RecoveryDecisionReason)
    → o ≡ some failure
    → elim o [ none ↦ d | some x ↦ f x ] ≡ permit_replacement reason
    → f failure ≡ permit_replacement reason
recorded o failure d f reason e p = rw e at p

matched : (b : Bool) → not b ≡ false → b ≡ true
matched b h = ground arith

agreed_generation : (b : Bool) (m n : ℕ) → (not b || not (m == n)) ≡ false → m ≡ n
agreed_generation b m n h = ground arith

-- The checks on the recorded failure, and the evidence they complete.
failure-Permits :
    (c : RecoveryConfigurationSnapshot) (s : RetrySnapshot) (context : RecoveryContext)
    (cause : RecoveryCause) (evidence : RecoveryEvidence) (failure : FailureRecord)
    (reason : RecoveryDecisionReason)
    → evaluate_failure c s context cause evidence failure ≡ permit_replacement reason
    → (cause_matches_failure cause failure.cause ≡ true)
      × DispositionAllows
          (c.configuration.failure_classification (failure_class failure.cause))
          (completed c s evidence)
      × RetryAllows c s
      × LifecycleEnded context (completed c s evidence)
      × Permits cause (completed c s evidence) reason
unfolding evaluate_failure
failure-Permits c s context cause evidence failure reason q =
    let disposition = c.configuration.failure_classification (failure_class failure.cause) in
    let remaining = attempts_remain c s in
    let complete = cooldown_complete c s in
    let full = completed c s evidence in
    let (matches, q1) =
      passed_stop (not (cause_matches_failure cause failure.cause))
        RecoveryDecisionReason.inconsistent_evidence reason _ q in
    let (retry, q2) =
      passed_stop (is_non_retryable disposition) RecoveryDecisionReason.configured_non_retryable
        reason _ q1 in
    let (_, q3) =
      passed_stop (is_do_not_retry evidence.retry_hint) RecoveryDecisionReason.retry_vetoed reason _
        q2 in
    let (r, q4) =
      passed_stop (not remaining) RecoveryDecisionReason.retry_budget_exhausted reason _ q3 in
    let (d, q5) = passed_wait (not complete) RecoveryDecisionReason.cooldown_pending reason _ q4 in
    let (allows, q6) =
      disposition_allows disposition full (evaluate_recovery context cause full) reason retry q5 in
    let (ended, permits) = (evaluate_recovery-Permits context cause full reason).0 q6 in
    (
      matched (cause_matches_failure cause failure.cause) matches,
      allows,
      retry_allows c s r d,
      ended,
      permits,
    )

-- Under a configuration, after a recorded failure, a permitted replacement was allowed by the
-- configuration and by the retry state, its attempt had ended, and the evidence, with the attempts
-- and the cooldown taken from the retry state, is what the cause calls for.
pub policy-Permits :
    (c : RecoveryConfigurationSnapshot) (current : RecoveryConfigurationIdentity)
    (s : RetrySnapshot) (context : RecoveryContext) (cause : RecoveryCause)
    (evidence : RecoveryEvidence) (failure : FailureRecord) (reason : RecoveryDecisionReason)
    → s.last_failure ≡ some failure
    → evaluate_recovery_policy c current s context cause evidence ≡ permit_replacement reason
    → ConfigurationAllows c current s context cause evidence failure
      × RetryAllows c s
      × LifecycleEnded context evidence
      × Permits cause (completed c s evidence) reason
unfolding evaluate_recovery_policy
policy-Permits c current s context cause evidence failure reason f p =
    let decide : RecoveryDecision = elim s.last_failure [
      | none ↦ evaluate_recovery context cause evidence
      | some x ↦ evaluate_failure c s context cause evidence x
    ] in
    let (_, p1) =
      passed_stop (not context.desired_running || is_explicit_stop cause)
        RecoveryDecisionReason.explicit_stop reason _ p in
    let (_, p2) =
      passed_stop (not (context.evaluated_intent_generation == context.current_intent_generation))
        RecoveryDecisionReason.stale_intent reason _ p1 in
    let (ids, p3) =
      passed_stop
        (not (identity_eq c.identity current) || not (identity_eq s.configuration_id c.identity))
        RecoveryDecisionReason.stale_configuration reason _ p2 in
    let (intent, p4) =
      passed_stop
        (not (bool_eq s.desired_running context.desired_running)
          || not (s.intent_generation == context.evaluated_intent_generation))
        RecoveryDecisionReason.inconsistent_evidence reason _ p3 in
    let (_, p5) =
      (first-permits (evaluate_common_preconditions context cause evidence) decide reason
          (preconditions_never_permit context cause evidence reason)).0
        p4 in
    let (matches, disposition, retry, ended, permits) =
      failure-Permits c s context cause evidence failure reason (rw f at p5) in
    let (same, fresh) = agreement c.identity current s.configuration_id ids in
    (
      record {
        configuration = same;
        snapshot = fresh;
        generation =
            agreed_generation (bool_eq s.desired_running context.desired_running)
              s.intent_generation context.evaluated_intent_generation intent;
        cause_matches = matches;
        disposition = disposition;
      },
      retry,
      record {
        running = ended.running;
        current = ended.current;
        owner = ended.owner;
        resources = ended.resources;
        boundary = ended.boundary;
      },
      permits,
    )
