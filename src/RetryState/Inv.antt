-- ===== src/RetryState/Inv.antt =====
-- The invariant of the retry state: how its phase, its attempt, its episode, its cooldown and its
-- counters fit together.
pub mod Keeps
pub mod Failure
use resonance_signal.Base.{
  ℕ, ◌+◌, ◌≤◌, ◌<◌, ◌≡◌, ◌⊎◌, Bool, true, false, Option, none, some, is_some, length, u64_max, refl,
  if◌then◌else◌, arith,
}
use resonance_signal.RetryState.{
  IntentGeneration, AttemptId, AttemptLifecycle, RetryPhase, AttemptState, ready_for_evaluation,
  RecoveryEpisodeState, CooldownState, not_required, pending, satisfied, invalidated, FailureTotals,
  RetryState,
}
use resonance_signal.RetryState.Checks.{attempt_id_of}
use resonance_signal.RetryState.Intent.{initial}

-- What each lifecycle says of the other facts of the attempt.
abbrev pub LifecycleFits : AttemptLifecycle → AttemptState → Type 0
LifecycleFits AttemptLifecycle.committed a =
    (a.stream_started ≡ false) × (is_some a.failure ≡ false)
LifecycleFits AttemptLifecycle.owner_created a =
    (a.stream_started ≡ false) × (is_some a.failure ≡ false)
LifecycleFits AttemptLifecycle.running a = (a.stream_started ≡ true) × (is_some a.failure ≡ false)
LifecycleFits AttemptLifecycle.failed a = is_some a.failure ≡ true
LifecycleFits AttemptLifecycle.completed a = is_some a.failure ≡ false
LifecycleFits AttemptLifecycle.cleanup_complete a = a.resources_released ≡ true

-- The attempt belongs to the current intent and is the last one counted.
abbrev pub AttemptFits : Option IntentGeneration → ℕ → Option AttemptState → Type 0
AttemptFits generation started none = started ≡ 0
AttemptFits generation started (some a) =
    (generation ≡ some a.id.intent_generation)
    × (a.id.ordinal ≡ started)
    × (a.terminal_event_delivered ≡ true → a.stream_started ≡ true)
    × LifecycleFits a.lifecycle a

-- The episode belongs to the current intent; its recoveries are attempts after the first.
abbrev pub EpisodeFits : Option IntentGeneration → ℕ → Option RecoveryEpisodeState → Type 0
EpisodeFits generation started none = Unit
EpisodeFits generation started (some e) =
    (generation ≡ some e.id.intent_generation)
    × (e.automatic_recovery_attempts_started < started)
    × (0 < e.id.ordinal)

abbrev pub HasAttempt : (AttemptState → Type 0) → Option AttemptState → Type 0
HasAttempt P none = ⊥
HasAttempt P (some a) = P a

abbrev pub HasEpisode : Bool → Option RecoveryEpisodeState → Type 0
HasEpisode b none = ⊥
HasEpisode b (some e) = is_some e.exhaustion ≡ b

-- An episode that is not marked exhausted, if there is one.
abbrev pub NotExhausted : Option RecoveryEpisodeState → Type 0
NotExhausted none = Unit
NotExhausted (some e) = is_some e.exhaustion ≡ false

-- What each phase says of the intent, the attempt and the episode.
abbrev pub PhaseFits :
    RetryPhase → Bool → Option AttemptState → Option RecoveryEpisodeState → Type 0
PhaseFits RetryPhase.idle desired attempt episode =
    (is_some attempt ≡ false) × (is_some episode ≡ false)
PhaseFits RetryPhase.attempting desired attempt episode =
    (desired ≡ true) × HasAttempt (λ a. is_some a.failure ≡ false) attempt × NotExhausted episode
PhaseFits RetryPhase.running desired attempt episode =
    (desired ≡ true)
    × HasAttempt (λ a. (a.stream_started ≡ true) × (is_some a.failure ≡ false)) attempt
    × NotExhausted episode
PhaseFits RetryPhase.failed desired attempt episode =
    (desired ≡ true)
    × HasAttempt (λ a. (is_some a.failure ≡ true) × (ready_for_evaluation a ≡ true → ⊥)) attempt
    × HasEpisode false episode
PhaseFits RetryPhase.waiting desired attempt episode =
    (desired ≡ true)
    × HasAttempt
        (λ a. (ready_for_evaluation a ≡ true) × (a.lifecycle ≡ AttemptLifecycle.cleanup_complete))
        attempt
    × HasEpisode false episode
PhaseFits RetryPhase.exhausted desired attempt episode =
    (desired ≡ true)
    × HasAttempt
        (λ a. (ready_for_evaluation a ≡ true) × (a.lifecycle ≡ AttemptLifecycle.cleanup_complete))
        attempt
    × HasEpisode true episode
PhaseFits RetryPhase.stopped desired attempt episode = desired ≡ false

-- A cooldown that is required belongs to the failed attempt that recovery waits on.
abbrev pub CooldownFits : CooldownState → RetryPhase → Option AttemptState → Type 0
CooldownFits not_required phase attempt = Unit
CooldownFits (pending r) phase attempt =
    ((phase ≡ RetryPhase.waiting) ⊎ (phase ≡ RetryPhase.exhausted))
    × (attempt_id_of attempt ≡ some r.attempt_id)
CooldownFits (satisfied r e) phase attempt =
    ((phase ≡ RetryPhase.waiting) ⊎ (phase ≡ RetryPhase.exhausted))
    × (attempt_id_of attempt ≡ some r.attempt_id)
CooldownFits (invalidated r) phase attempt = phase ≡ RetryPhase.stopped

abbrev pub sum_of_classes : FailureTotals → ℕ
sum_of_classes t =
    t.owner_construction_failure + t.device_unavailable + t.source_reconfigured + t.interrupted
    + t.resource_exhausted + t.unsupported_format + t.internal_failure + t.startup_failure
    + t.worker_panic

-- The current attempt, if its failure is not recorded.
abbrev pub unfailed : Option AttemptState → ℕ
unfailed none = 0
unfailed (some a) = if is_some a.failure then 0 else 1

-- Before the first intent nothing has been recorded; after it, the last one is the current one.
abbrev pub IntentFits : RetryState → Option IntentGeneration → Type 0
IntentFits s none =
    (s.desired_running ≡ false) × (is_some s.configuration_id ≡ false) × (s.phase ≡ RetryPhase.idle)
IntentFits s (some g) =
    (s.last_intent_generation ≡ g) × (is_some s.configuration_id ≡ true) × (0 < s.state_revision)

pub record Inv (capacity : ℕ) (s : RetryState) : Type 0 where
  pub intent : IntentFits s s.intent_generation
  pub attempt : AttemptFits s.intent_generation s.attempts_started s.current_attempt
  pub episode : EpisodeFits s.intent_generation s.attempts_started s.recovery_episode
  pub phase : PhaseFits s.phase s.desired_running s.current_attempt s.recovery_episode
  pub cooldown : CooldownFits s.cooldown s.phase s.current_attempt
  pub history : length s.recent_failures ≤ capacity
  pub total : s.failure_totals.total ≡ sum_of_classes s.failure_totals
  pub consecutive : s.consecutive_failed_attempts ≤ s.failure_totals.total
  pub failures : s.failure_totals.total + unfailed s.current_attempt ≤ s.attempts_started
  pub bounds :
      (s.last_intent_generation ≤ u64_max)
      × (s.state_revision ≤ u64_max)
      × (s.attempts_started ≤ u64_max)

pub Inv-initial : (capacity : ℕ) → Inv capacity initial
Inv-initial capacity = ground arith
