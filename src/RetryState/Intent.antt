-- ===== src/RetryState/Intent.antt =====
-- crates/resonance-agent/src/retry_state.rs: construction, and the start and stop of an intent.
use resonance_signal.Base.{
  ℕ, zero, suc, true, false, none, some, [], not, is_some_and, ok, err, ensure, try,
}
use resonance_signal.RecoveryConfig.{RecoveryConfigurationIdentity}
use resonance_signal.RetryState.{
  IntentGeneration, RetryPhase, CooldownState, not_required, pending, satisfied, invalidated,
  history_capacity_zero, intent_already_running, cleanup_pending, Checked, RetryState, no_failures,
}
use resonance_signal.RetryState.Checks.{checked_increment, next_revision, require_generation}

abbrev pub initial : RetryState
initial = record {
  last_intent_generation = 0;
  intent_generation = none;
  state_revision = 0;
  configuration_id = none;
  desired_running = false;
  phase = RetryPhase.idle;
  attempts_started = 0;
  current_attempt = none;
  recovery_episode = none;
  last_failure = none;
  recent_failures = [];
  failure_totals = no_failures;
  consecutive_failed_attempts = 0;
  cooldown = not_required;
}

unfoldable pub new : ℕ → Checked RetryState
new zero = err history_capacity_zero
new (suc capacity) = ok initial

unfoldable pub explicit_start :
    RecoveryConfigurationIdentity → RetryState → Checked IntentGeneration × RetryState
explicit_start configuration s = try (ensure (not s.desired_running) intent_already_running) s λ _.
    try
      (ensure (not (is_some_and s.current_attempt (λ a. not a.resources_released))) cleanup_pending)
      s
      λ _. try (checked_increment s.last_intent_generation) s λ generation. (
        ok generation,
        record initial {
          last_intent_generation = generation;
          intent_generation = some generation;
          state_revision = 1;
          configuration_id = some configuration;
          desired_running = true;
        },
      )

abbrev pub invalidate_cooldown : CooldownState → CooldownState
invalidate_cooldown (pending requirement) = invalidated requirement
invalidate_cooldown (satisfied requirement evidence) = invalidated requirement
invalidate_cooldown not_required = not_required
invalidate_cooldown (invalidated requirement) = invalidated requirement

unfoldable pub explicit_stop : IntentGeneration → RetryState → Checked Unit × RetryState
unfolding next_revision require_generation
explicit_stop generation s = try (require_generation s generation) s λ _.
    try (next_revision s) s λ revision. (
      ok tt,
      record s {
        desired_running = false;
        phase = RetryPhase.stopped;
        cooldown = invalidate_cooldown s.cooldown;
        state_revision = revision;
      },
    )
