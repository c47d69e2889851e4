-- ===== src/Supervisor/Inv.antt =====
-- What an owner promises to its supervisor, and the invariant of the supervisor.
pub mod Completing
pub mod Starting
pub mod Stopping
use resonance_signal.Base.{
  ℕ, ◌≡◌, ◌≢◌, ◌⊎◌, refl, Bool, true, false, is_some, Option, none, some, Result, ok, err, inl, inr,
  arith,
}
use resonance_signal.RecoveryConfig.{recovery_disabled}
use resonance_signal.RecoveryConfig.Validate.{validate}
use resonance_signal.RetryState.Intent.{initial}
use resonance_signal.Windows.{Duration}
use resonance_signal.Windows.Owner.{
  Panics, CaptureOwnerCompletion, CaptureOwnerStart, started, stop_already_requested,
  CaptureOwnerStartError, CaptureOwnerShutdownTimeout,
}
use resonance_signal.Supervisor.{
  SupervisedCaptureOwner, CaptureSupervisorState, idle, running, stopping, completed,
  CaptureSupervisorCompletion, retry_failure_for, recovery_disabled_configuration_version,
  RecordedRecoveryEvaluation, CaptureSupervisor,
}
use resonance_signal.Supervisor.Attempts.{owned, Settled}
use resonance_signal.Supervisor.Advice.{Advises}

pub running-ne-idle : running ≢ idle
running-ne-idle h = cc

pub stopping-ne-idle : stopping ≢ idle
stopping-ne-idle h = cc

pub completed-ne-idle : completed ≢ idle
completed-ne-idle h = cc

-- The phases of an owner, as its supervisor can tell them: it was created and not started, it is
-- started, or it has a completion that does not change.
pub record SupervisedLaws {Sample : Type 0} (i : SupervisedCaptureOwner Sample) : Type 1 where
  pub Fresh : i.Owner → Type 0
  pub Live : i.Owner → Type 0
  pub Done : CaptureOwnerCompletion Sample → i.Owner → Type 0
  -- A factory makes owners that were not started.
  pub create-Fresh :
      (callback : i.Callback) (w : i.World) (factory : i.Factory) (o : i.Owner)
      → (i.create callback w factory).0 ≡ ok o
      → Fresh o
  -- The start of one does not panic. Where it does not leave it started, it is done at once.
  pub start-Fresh :
      (w : i.World) (o : i.Owner)
      → Fresh o
      → (r : Result CaptureOwnerStartError CaptureOwnerStart) × (o' : i.Owner) × (i.start w o
          ≡ ok (r, o'))
        × (((r ≡ ok started) × Live o')
            ⊎ ((r ≢ ok started) × ((c : CaptureOwnerCompletion Sample) × Done c o')))
  pub request_stop-Live : (o : i.Owner) → Live o → Live (i.request_stop o)
  -- A wait on a started one does not panic, and gives a completion or leaves it started.
  pub wait-Live :
      (limit : Duration) (w : i.World) (o : i.Owner)
      → Live o
      → (r : Result CaptureOwnerShutdownTimeout (CaptureOwnerCompletion Sample)) × (o' : i.Owner)
        × (i.wait_for_completion limit w o ≡ ok (r, o'))
        × (((c : CaptureOwnerCompletion Sample) × (r ≡ ok c))
            ⊎ ((e : CaptureOwnerShutdownTimeout) × (r ≡ err e) × Live o'))
  -- A wait on one that is done gives its completion.
  pub wait-Done :
      (limit : Duration) (w : i.World) (o : i.Owner) (c : CaptureOwnerCompletion Sample)
      → Done c o
      → (o' : i.Owner) × (i.wait_for_completion limit w o ≡ ok (ok c, o'))

module _ {Sample : Type 0} (i : SupervisedCaptureOwner Sample) (laws : SupervisedLaws i) where
  -- Before the start: nothing was created, and the callback is there.
  abbrev pub Inert : CaptureSupervisor i → Type 0
  Inert s =
      (s.retry_state ≡ initial)
      × ((callback : i.Callback) × (s.on_event ≡ some callback))
      × (s.completion ≡ none)
      × (s.recovery_evaluation ≡ none)
      × (s.resources_released ≡ false)

  -- The owner is held, with its attempt; the intent is still there or was stopped.
  abbrev pub Held : Bool → CaptureSupervisor i → Type 0
  Held d s =
      ((o : i.Owner) × (s.owner ≡ some o) × laws.Live o)
      × (s.retry_state ≡ owned d s.recovery_configuration.identity)
      × (s.completion ≡ none)
      × (s.recovery_evaluation ≡ none)
      × (s.resources_released ≡ false)

  -- Nothing was started.
  abbrev pub NeverStarted : CaptureSupervisorCompletion → CaptureSupervisor i → Type 0
  NeverStarted k s =
      (k ≡ CaptureSupervisorCompletion.stopped_before_start)
      × (s.retry_state ≡ initial)
      × (s.recovery_evaluation ≡ none)

  -- The attempt is recorded with the failure of the completion, and the policy was asked.
  abbrev pub Attempted : CaptureSupervisorCompletion → CaptureSupervisor i → Type 0
  Attempted k s =
      (d : Bool) × (began : Bool) × (terminal : Bool) × Settled d s.recovery_configuration.identity
        began terminal (retry_failure_for k) s.retry_state
      × ((r : RecordedRecoveryEvaluation) × (s.recovery_evaluation ≡ some r) × Advises k r)

  abbrev pub Ended : CaptureSupervisor i → Type 0
  Ended s =
      (s.resources_released ≡ true)
      × ((k : CaptureSupervisorCompletion) × (s.completion ≡ some k)
          × (NeverStarted k s ⊎ Attempted k s))

  abbrev pub InvAt : CaptureSupervisorState → CaptureSupervisor i → Type 0
  InvAt idle s = Inert s
  InvAt running s = Held true s
  InvAt stopping s = Held false s
  InvAt completed s = Ended s

  pub record Inv (s : CaptureSupervisor i) : Type 0 where
    pub state : CaptureSupervisorState
    pub at : s.state ≡ state
    pub fits : InvAt state s
    pub disabled :
        validate (recovery_disabled recovery_disabled_configuration_version)
        ≡ ok s.recovery_configuration
