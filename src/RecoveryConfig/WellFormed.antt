-- ===== src/RecoveryConfig/WellFormed.antt =====
-- What the validation of a recovery configuration accepts.
use resonance_signal.Base.{
  ◌≤◌, ◌<◌, ◌≡◌, ◌≢◌, ◌↔◌, ◌⊎◌, inl, inr, List, [], ◌∷◌, Bool, true, false, Bool-cases, Result, ok,
  err, ensure, ◌>>◌, if◌then◌else◌, bool_eq, arith,
}
use resonance_signal.RecoveryConfig.{
  Duration, DelayResetBehavior, new_intent, new_recovery_episode_after_stable_run,
  CooldownConfiguration, BackoffDelayStrategy, fixed, linear, exponential, JitterRequirement,
  forbidden, BackoffConfiguration, AdditionalEvidenceRequirement, source_available,
  supported_format_available, resource_pressure_cleared, changed_precondition, FailureDisposition,
  retryable, non_retryable, additional_evidence_required, RecoveryFailureClass, any_retryable,
  failure_classes, is_non_retryable, FailureClassificationPolicy, permits_any_automatic_recovery,
  StableRunResetPolicy, new_intent_only, stable_run_required, RecoveryConfiguration,
  RecoveryConfigurationError, budget_classification_conflict,
}
use resonance_signal.RecoveryConfig.Validate.{
  validate_backoff, validate_failure_classification, validate_enabled, validate_disabled,
  validate_configuration, recovery_enabled,
}

abbrev StrategyFits : BackoffDelayStrategy → Duration → Type 0
StrategyFits (fixed delay) maximum = (0 < delay) × (delay ≤ maximum)
StrategyFits (linear initial increment) maximum =
    (0 < initial) × (0 < increment) × (initial ≤ maximum) × (increment ≤ maximum)
StrategyFits (exponential initial multiplier) maximum =
    (0 < initial) × (initial ≤ maximum) × (2 ≤ multiplier)

abbrev JitterFits : JitterRequirement → Duration → Type 0
JitterFits forbidden maximum = Unit
JitterFits (JitterRequirement.required jitter) maximum = (0 < jitter) × (jitter ≤ maximum)

-- A stable run resets the delays exactly when the delays are reset by a stable run.
abbrev StableRunFits : StableRunResetPolicy → DelayResetBehavior → Type 0
StableRunFits new_intent_only reset = reset ≡ new_intent
StableRunFits (stable_run_required evidence minimum) reset =
    (reset ≡ new_recovery_episode_after_stable_run) × (0 < minimum)

-- The delays of an enabled recovery: both configured, positive, bounded by the maximum delay, and
-- reset together.
abbrev pub DelaysFit : CooldownConfiguration → BackoffConfiguration → StableRunResetPolicy → Type 0
DelaysFit (CooldownConfiguration.required minimum reset)
      (BackoffConfiguration.required strategy maximum jitter backoff_reset) stable_run =
    (0 < minimum)
    × (minimum ≤ maximum)
    × StrategyFits strategy maximum
    × JitterFits jitter maximum
    × (reset ≡ backoff_reset)
    × StableRunFits stable_run reset
DelaysFit _ _ stable_run = ⊥

-- A guarded class is never plainly retryable: it waits for its own evidence or for a changed
-- precondition.
abbrev Guarded : AdditionalEvidenceRequirement → FailureDisposition → Type 0
Guarded own retryable = ⊥
Guarded own non_retryable = Unit
Guarded own (additional_evidence_required r) = (r ≡ own) ⊎ (r ≡ changed_precondition)

pub record NoDelays (c : RecoveryConfiguration) : Type 0 where
  pub cooldown : c.cooldown ≡ CooldownConfiguration.disabled
  pub backoff : c.backoff ≡ BackoffConfiguration.disabled
  pub stable_run : c.stable_run_reset ≡ new_intent_only

pub record WellFormed (c : RecoveryConfiguration) : Type 0 where
  pub device :
      Guarded source_available (c.failure_classification RecoveryFailureClass.device_unavailable)
  pub source :
      Guarded supported_format_available
        (c.failure_classification RecoveryFailureClass.source_reconfigured)
  pub pressure :
      Guarded resource_pressure_cleared
        (c.failure_classification RecoveryFailureClass.resource_exhausted)
  pub format :
      Guarded supported_format_available
        (c.failure_classification RecoveryFailureClass.unsupported_format)
  pub enabled :
      0 < c.attempt_budget.maximum_automatic_recovery_attempts
      → ((class : RecoveryFailureClass) × (c.failure_classification class ≢ non_retryable))
        × DelaysFit c.cooldown c.backoff c.stable_run_reset
  pub disabled :
      c.attempt_budget.maximum_automatic_recovery_attempts ≡ 0
      → ((class : RecoveryFailureClass) → c.failure_classification class ≡ non_retryable)
        × NoDelays c

module _ (policy : FailureClassificationPolicy) where
  class_of :
      (classes : List RecoveryFailureClass)
      → any_retryable policy classes ≡ true
      → (class : RecoveryFailureClass) × (policy class ≢ non_retryable)
  class_of [] h = absurd (ground arith)
  class_of (class ∷ rest) h = elim (Bool-cases (is_non_retryable (policy class))) [
    | inl e ↦ class_of rest (ground arith)
    | inr e ↦ (class, ground arith)
  ]

  some_class :
      permits_any_automatic_recovery policy ≡ true
      → (class : RecoveryFailureClass) × (policy class ≢ non_retryable)
  unfolding permits_any_automatic_recovery
  some_class h = class_of failure_classes h

  permits_class :
      (class : RecoveryFailureClass)
      → policy class ≢ non_retryable
      → permits_any_automatic_recovery policy ≡ true
  unfolding permits_any_automatic_recovery
  permits_class class n = ground arith

  no_class :
      permits_any_automatic_recovery policy ≡ false
      → (class : RecoveryFailureClass) → policy class ≡ non_retryable
  unfolding permits_any_automatic_recovery
  no_class h class = ground arith

  permits_none :
      ((class : RecoveryFailureClass) → policy class ≡ non_retryable)
      → permits_any_automatic_recovery policy ≡ false
  permits_none h = elim (Bool-cases (permits_any_automatic_recovery policy)) [
    | inl e ↦ let (class, n) = some_class e in absurd (n (h class))
    | inr e ↦ e
  ]

  classification_iff : (validate_failure_classification policy ≡ ok tt) ↔ (
      Guarded source_available (policy RecoveryFailureClass.device_unavailable)
      × Guarded supported_format_available (policy RecoveryFailureClass.source_reconfigured)
      × Guarded resource_pressure_cleared (policy RecoveryFailureClass.resource_exhausted)
      × Guarded supported_format_available (policy RecoveryFailureClass.unsupported_format))
  unfolding validate_failure_classification
  classification_iff = (λ h. ground arith, λ h. ground arith)

enabled_iff :
    (c : RecoveryConfiguration)
    → (validate_enabled c ≡ ok tt) ↔ DelaysFit c.cooldown c.backoff c.stable_run_reset
unfolding validate_enabled validate_backoff
enabled_iff c = (λ h. ground arith, λ h. ground arith)

disabled_iff : (c : RecoveryConfiguration) → (validate_disabled c ≡ ok tt) ↔ NoDelays c
unfolding validate_disabled
disabled_iff c = (λ h. ground arith, λ h. ground arith)

-- The three checks in turn.
checks_in_turn :
    (on some_recover : Bool) (e : RecoveryConfigurationError)
    (classes enabled disabled : Result RecoveryConfigurationError (Unit {0}))
    → ((do ensure (bool_eq on some_recover) e; classes; if on then enabled else disabled) ≡ ok tt)
      ↔ ((on ≡ some_recover)
          × (classes ≡ ok tt)
          × (on ≡ true → enabled ≡ ok tt)
          × (on ≡ false → disabled ≡ ok tt))
checks_in_turn on some_recover e (err x) enabled disabled = (λ h. ground arith, λ h. ground arith)
checks_in_turn on some_recover e (ok u) enabled disabled = (λ h. ground arith, λ h. ground arith)

-- A configuration passes validation exactly when it is well formed: recovery has attempts exactly
-- when some failure class may recover, each guarded class waits for its own evidence or a changed
-- precondition, an enabled recovery has positive delays that are bounded by the maximum delay and
-- reset together, and a disabled one has no delay and no reset by a stable run.
pub validate_configuration_iff :
    (c : RecoveryConfiguration) → (validate_configuration c ≡ ok tt) ↔ WellFormed c
unfolding validate_configuration
validate_configuration_iff c =
    let checks =
      checks_in_turn (recovery_enabled c) (permits_any_automatic_recovery c.failure_classification)
        budget_classification_conflict (validate_failure_classification c.failure_classification)
        (validate_enabled c) (validate_disabled c) in
    let classes = classification_iff c.failure_classification in
    (
      λ h.
          let (agree, v, e, d) = checks.0 h in
          let (device, source, pressure, format) = classes.0 v in
          record {
            device = device;
            source = source;
            pressure = pressure;
            format = format;
            enabled = λ pos.
                let on : recovery_enabled c ≡ true = ground arith in
                (some_class c.failure_classification (rw (← agree) on), (enabled_iff c).0 (e on));
            disabled = λ none.
                let off : recovery_enabled c ≡ false = ground arith in
                (no_class c.failure_classification (rw (← agree) off), (disabled_iff c).0 (d off));
          },
      λ w. checks.1 (elim (Bool-cases (recovery_enabled c)) [
        | inl on ↦
            let ((class, n), delays) = w.enabled (ground arith) in
            (
              rw (on, permits_class c.failure_classification class n),
              classes.1 (w.device, w.source, w.pressure, w.format),
              λ _. (enabled_iff c).1 delays,
              λ off. cc,
            )
        | inr off ↦
            let (none, delays) = w.disabled (ground arith) in
            (
              rw (off, permits_none c.failure_classification none),
              classes.1 (w.device, w.source, w.pressure, w.format),
              λ on. cc,
              λ _. (disabled_iff c).1 delays,
            )
      ]),
    )
