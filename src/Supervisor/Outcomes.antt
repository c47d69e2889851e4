-- ===== src/Supervisor/Outcomes.antt =====
-- What holds of every supervisor that was made with a factory, whatever has happened to it since.
use resonance_signal.Base.{
  ◌≡◌, ◌⊎◌, refl, false, Option, none, some, List, ok, inl, inr, sym, ◌∙◌, ok-injective,
  Option-cases,
}
use mathlib.Core.Path.{subst}
use resonance_signal.RecoveryConfig.{RecoveryConfigurationSnapshot, recovery_disabled}
use resonance_signal.RecoveryConfig.Validate.{validate}
use resonance_signal.RecoveryConfig.Snapshots.{recovery_disabled-validates}
use resonance_signal.RetryState.Intent.{new, initial}
use resonance_signal.Supervisor.{
  SupervisedCaptureOwner, CaptureSupervisorState, idle, running, stopping, completed,
  no_observation, RecordedRecoveryEvaluation, CaptureSupervisor,
  recovery_disabled_configuration_version,
}
use resonance_signal.Supervisor.Advice.{NeverPermits}
use resonance_signal.Supervisor.Operations.{with_factory}
use resonance_signal.Supervisor.Inv.{SupervisedLaws, InvAt, Inv}
use resonance_signal.Supervisor.Histories.{
  SupervisorCall, run_calls, CalledOnce, Made, run_calls-Lives,
}

none_evaluation :
    (o : Option RecordedRecoveryEvaluation) (r : RecordedRecoveryEvaluation)
    → o ≡ none
    → o ≡ some r
    → ⊥
none_evaluation o r h k = cc

some-injective :
    (a b : RecordedRecoveryEvaluation)
    → ◌≡◌ {A = Option RecordedRecoveryEvaluation} (some a) (some b)
    → a ≡ b
some-injective a b h = cc

module _ {Sample : Type 0} (i : SupervisedCaptureOwner Sample) (laws : SupervisedLaws i) where
  abbrev made : i.Factory → i.Callback → RecoveryConfigurationSnapshot → CaptureSupervisor i
  made factory callback c = record {
    factory = factory;
    on_event = some callback;
    observation = no_observation;
    owner = none;
    state = idle;
    recovery_configuration = c;
    retry_state = initial;
    resources_released = false;
    completion = none;
    recovery_evaluation = none;
  }

  with_factory-made :
      (factory : i.Factory) (callback : i.Callback)
      → (c : RecoveryConfigurationSnapshot) × (validate
            (recovery_disabled recovery_disabled_configuration_version)
          ≡ ok c)
        × (with_factory i factory callback ≡ ok (made factory callback c))
  unfolding with_factory new
  with_factory-made factory callback =
      let (c, valid, z) = recovery_disabled-validates recovery_disabled_configuration_version in
      (c, valid, simp valid)

  with_factory-Inv :
      (factory : i.Factory) (callback : i.Callback) (s : CaptureSupervisor i)
      → with_factory i factory callback ≡ ok s
      → Inv i laws s × Made i factory s
  with_factory-Inv factory callback s h =
      let (c, valid, e) = with_factory-made factory callback in
      subst (λ (t : CaptureSupervisor i). Inv i laws t × Made i factory t)
        (ok-injective (made factory callback c) s (sym e ∙ h))
        (
          record {
            state = idle;
            at = refl;
            fits = (refl, (callback, refl), refl, refl, refl);
            disabled = valid;
          },
          inl (refl, refl),
        )

  -- With an owner that keeps its promises, no call of the supervisor panics, in whatever order its
  -- client makes them and the events of the owner come: every one returns and keeps the invariant.
  -- The supervisor is idle and nothing was created; or it holds its owner, started, with the retry
  -- state of the one attempt; or it is completed with its resources released. A completed one was
  -- stopped before its start, with the retry state of a new supervisor and no evaluation, or its
  -- attempt is settled with the failure that the completion stands for, and an evaluation is
  -- recorded. A completion that is there stays.
  pub run_calls-Inv :
      (calls : List (SupervisorCall i)) (s : CaptureSupervisor i)
      → Inv i laws s
      → (s' : CaptureSupervisor i) × (run_calls i calls s ≡ ok s')
        × Inv i laws s'
        × ((s.completion ≡ none) ⊎ (s'.completion ≡ s.completion))
  run_calls-Inv calls s inv =
      let (s', ran, inv', keeps, once) = run_calls-Lives i laws calls s inv in
      (
        s',
        ran,
        inv',
        elim (Option-cases s.completion) [ inl e ↦ inl e | inr (k, e) ↦ inr (keeps k e ∙ sym e) ],
      )

  -- A supervisor is made without a panic.
  pub with_factory-returns :
      (factory : i.Factory) (callback : i.Callback)
      → (s : CaptureSupervisor i) × (with_factory i factory callback ≡ ok s) × Inv i laws s
  with_factory-returns factory callback =
      let (c, valid, e) = with_factory-made factory callback in
      (made factory callback c, e, (with_factory-Inv factory callback _ e).0)

  -- Where calls and events have led, the invariant holds.
  reached :
      (calls : List (SupervisorCall i)) (factory : i.Factory) (callback : i.Callback)
      (first last : CaptureSupervisor i)
      → with_factory i factory callback ≡ ok first
      → run_calls i calls first ≡ ok last
      → Inv i laws last × Made i factory last
  reached calls factory callback first last h k =
      let (inv, at_first) = with_factory-Inv factory callback first h in
      let (s, ran, inv', keeps, once) = run_calls-Lives i laws calls first inv in
      subst (λ (t : CaptureSupervisor i). Inv i laws t × Made i factory t)
        (ok-injective s last (sym ran ∙ k)) (inv', once factory at_first)

  evaluation-NeverPermits :
      (s : CaptureSupervisor i) (state : CaptureSupervisorState) (r : RecordedRecoveryEvaluation)
      → InvAt i laws state s
      → s.recovery_evaluation ≡ some r
      → NeverPermits r.decision
  evaluation-NeverPermits s idle r fits h reason = absurd (none_evaluation _ r (fits.3) h)
  evaluation-NeverPermits s running r fits h reason = absurd (none_evaluation _ r (fits.3) h)
  evaluation-NeverPermits s stopping r fits h reason = absurd (none_evaluation _ r (fits.3) h)
  evaluation-NeverPermits s completed r (rel, (k, kept, inl never)) h reason =
      absurd (none_evaluation _ r (never.2) h)
  evaluation-NeverPermits s completed r
        (rel, (k, kept, inr (d, began, terminal, settled, (e, has, (x, y, advises))))) h reason =
      subst (λ (t : RecordedRecoveryEvaluation). NeverPermits t.decision)
        (some-injective e r (sym has ∙ h)) advises reason

  -- Whatever happens to a supervisor, no evaluation of the recovery policy that it has recorded
  -- permits a replacement: its configuration disables recovery.
  pub recorded-NeverPermits :
      (calls : List (SupervisorCall i)) (factory : i.Factory) (callback : i.Callback)
      (first last : CaptureSupervisor i) (r : RecordedRecoveryEvaluation)
      → with_factory i factory callback ≡ ok first
      → run_calls i calls first ≡ ok last
      → last.recovery_evaluation ≡ some r
      → NeverPermits r.decision
  recorded-NeverPermits calls factory callback first last r h k has =
      let (inv, once) = reached calls factory callback first last h k in
      evaluation-NeverPermits last inv.state r inv.fits has

  at_most_once :
      (factory : i.Factory) (s : CaptureSupervisor i)
      → Made i factory s
      → CalledOnce i factory s.factory
  at_most_once factory s (inl (at, f)) = inl f
  at_most_once factory s (inr (busy, once)) = once

  -- Whatever happens to a supervisor, its factory is called at most once: it is the factory that the
  -- supervisor was made with, or what one call has left of that.
  pub run_calls-CalledOnce :
      (calls : List (SupervisorCall i)) (factory : i.Factory) (callback : i.Callback)
      (first last : CaptureSupervisor i)
      → with_factory i factory callback ≡ ok first
      → run_calls i calls first ≡ ok last
      → CalledOnce i factory last.factory
  run_calls-CalledOnce calls factory callback first last h k =
      at_most_once factory last (reached calls factory callback first last h k).1
