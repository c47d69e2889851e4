-- ===== src/Windows/Owner.antt =====
-- crates/resonance-agent/src/windows.rs: the owner of one capture run, and `run_capture` on its worker.
-- What the operating system does is an argument: whether a thread starts, what waiting on the channel
-- of the completion gives, and whether a join finds that the thread has panicked. A panic of the
-- operation itself is an error with its message.
pub mod Inv
pub mod Calls
use resonance_signal.Base.{
  Bool, true, false, Option, none, some, Result, ok, err, ok_or, ◌>>=◌, ◌||◌, not, is_ok,
  if◌then◌else◌,
}
use Prim.Native.String.{String}
use resonance_signal.Contract.{ErrorKind}
use resonance_signal.Recovery.Types.{RetryHint}
use resonance_signal.Windows.{Duration, CaptureReport, CaptureRunError}
use resonance_signal.Windows.Processing.{Run}

abbrev pub Panics : Type 0 → Type 0
Panics A = Result String A

-- What `run_capture` leaves: its result, whether the stop token is set while the thread is joined, and
-- whether it is set afterwards.
pub record CaptureRun (Sample : Type 0) : Type 0 where
  pub result : Result (CaptureRunError Sample) CaptureReport
  pub stops_before_join : Bool
  pub stops : Bool

module _ {Sample : Type 0} where
  -- `run_capture`, from whether its thread starts to whether its join succeeds, with the stop token
  -- that it is given. The join ends with the drop of the `CaptureThread`, which sets the token.
  unfoldable pub run_capture :
      Bool → Result String (Unit {0}) → Run Sample → Bool → CaptureRun Sample
  run_capture stop (err e) run joined = record {
    result = err (CaptureRunError.spawn e);
    stops_before_join = stop;
    stops = stop;
  }
  run_capture stop (ok started) run joined = record {
    result = if joined then run.result else err CaptureRunError.capture_thread_panicked;
    stops_before_join = stop || run.stops || not (is_ok run.result);
    stops = true;
  }

pub data CaptureOwnerCompletion (Sample : Type 0) : Type 0 where
  stopped_before_start : CaptureOwnerCompletion Sample
  finished : CaptureReport → CaptureOwnerCompletion Sample
  failed : CaptureRunError Sample → CaptureOwnerCompletion Sample
  start_failed : String → CaptureOwnerCompletion Sample
  panicked : CaptureOwnerCompletion Sample

pub data CaptureOwnerStart : Type 0 where
  started stop_already_requested : CaptureOwnerStart

pub data CaptureOwnerStartError : Type 0 where
  already_started : CaptureOwnerStartError
  spawn : String → CaptureOwnerStartError

pub record CaptureOwnerShutdownTimeout : Type 0 where
  pub timeout : Duration

-- What a runner did: none where it panicked.
abbrev pub RunnerOutcome : Type 0 → Type 0
RunnerOutcome Sample = Option (Result (CaptureRunError Sample) CaptureReport)

-- The completion that the worker sends.
unfoldable pub worker_completion :
    {Sample : Type 0} → RunnerOutcome Sample → CaptureOwnerCompletion Sample
worker_completion (some (ok report)) = CaptureOwnerCompletion.finished report
worker_completion (some (err e)) = CaptureOwnerCompletion.failed e
worker_completion none = CaptureOwnerCompletion.panicked

-- `recv_timeout` on the channel of the completion.
pub data RecvTimeout (Sample : Type 0) : Type 0 where
  received : RunnerOutcome Sample → RecvTimeout Sample
  timed_out disconnected : RecvTimeout Sample

-- What the operating system does during a call.
pub record Surroundings (Sample : Type 0) : Type 0 where
  pub spawned : Result String (Unit {0})
  pub recv_timeout : RecvTimeout Sample
  pub joined : Bool

-- The worker and the receiver are there or not; the stop token is shared with the worker.
pub record CaptureOwner (Runner Callback Sample : Type 0) : Type 0 where
  pub stop : Bool
  pub runner : Option Runner
  pub on_event : Option Callback
  pub worker : Option (Unit {0})
  pub completion_rx : Option (Unit {0})
  pub completion : Option (CaptureOwnerCompletion Sample)
  pub start_called : Bool

module _ {Runner Callback Sample : Type 0} where
  unfoldable pub with_runner : Callback → Runner → CaptureOwner Runner Callback Sample
  with_runner on_event runner = record {
    stop = false;
    runner = some runner;
    on_event = some on_event;
    worker = none;
    completion_rx = none;
    completion = none;
    start_called = false;
  }

  -- A runner and a callback that were never called are dropped.
  abbrev pub stop_before_start :
      CaptureOwner Runner Callback Sample → CaptureOwner Runner Callback Sample
  stop_before_start o = record o {
    runner = none;
    on_event = none;
    completion = some CaptureOwnerCompletion.stopped_before_start;
  }

  -- The thread is spawned with the runner and the callback.
  abbrev pub spawn_worker :
      Result String (Unit {0})
      → CaptureOwner Runner Callback Sample
      → Result CaptureOwnerStartError CaptureOwnerStart × CaptureOwner Runner Callback Sample
  spawn_worker (ok u) o =
      (ok CaptureOwnerStart.started, record o { worker = some tt; completion_rx = some tt })
  spawn_worker (err e) o = (
    err (CaptureOwnerStartError.spawn e),
    record o { completion = some (CaptureOwnerCompletion.start_failed e) },
  )

  unfoldable pub start :
      Surroundings Sample
      → CaptureOwner Runner Callback Sample
      → Panics
          (Result CaptureOwnerStartError CaptureOwnerStart × CaptureOwner Runner Callback Sample)
  start w o =
      if o.start_called
      then ok (err CaptureOwnerStartError.already_started, o)
      else (if o.stop
          then ok (
            ok CaptureOwnerStart.stop_already_requested,
            stop_before_start (record o { start_called = true }),
          )
          else (ok_or o.runner "an unstarted capture owner retains its runner" >>= λ runner.
              ok_or o.on_event "an unstarted capture owner retains its callback" >>= λ on_event.
              ok (
                spawn_worker w.spawned
                  (record o { start_called = true; runner = none; on_event = none }))))

  unfoldable pub request_stop :
      CaptureOwner Runner Callback Sample → CaptureOwner Runner Callback Sample
  request_stop o = record o { stop = true }

  -- `worker.take()`, and the join of what was there.
  abbrev join_taken :
      Option (Unit {0})
      → Bool
      → CaptureOwner Runner Callback Sample
      → CaptureOwner Runner Callback Sample
  join_taken none joined o = o
  join_taken (some worker) joined o =
      if joined
      then record o { worker = none }
      else record o { worker = none; completion = some CaptureOwnerCompletion.panicked }

  unfoldable pub join_worker :
      Bool → CaptureOwner Runner Callback Sample → CaptureOwner Runner Callback Sample
  join_worker joined o = join_taken o.worker joined o

  -- A completion that has arrived, or the disconnection that stands for a panic.
  abbrev pub complete :
      Bool
      → CaptureOwnerCompletion Sample
      → CaptureOwner Runner Callback Sample
      → CaptureOwner Runner Callback Sample
  complete joined c o = join_worker joined (record o { completion = some c; completion_rx = none })

  -- The result that the completed owner retains.
  abbrev pub retained :
      CaptureOwner Runner Callback Sample
      → Panics (
          Result CaptureOwnerShutdownTimeout (CaptureOwnerCompletion Sample)
          × CaptureOwner Runner Callback Sample)
  retained o = ok_or o.completion "completed capture owner retains its result" >>= λ c. ok (ok c, o)

  abbrev pub receive :
      Duration
      → Bool
      → RecvTimeout Sample
      → CaptureOwner Runner Callback Sample
      → Panics (
          Result CaptureOwnerShutdownTimeout (CaptureOwnerCompletion Sample)
          × CaptureOwner Runner Callback Sample)
  receive timeout joined (received outcome) o =
      retained (complete joined (worker_completion outcome) o)
  receive timeout joined timed_out o = ok (err (record { timeout = timeout }), o)
  receive timeout joined disconnected o =
      retained (complete joined CaptureOwnerCompletion.panicked o)

  -- By the completion and the receiver of the owner.
  abbrev pub wait_on :
      Duration
      → Surroundings Sample
      → Option (CaptureOwnerCompletion Sample)
      → Option (Unit {0})
      → CaptureOwner Runner Callback Sample
      → Panics (
          Result CaptureOwnerShutdownTimeout (CaptureOwnerCompletion Sample)
          × CaptureOwner Runner Callback Sample)
  wait_on timeout w (some c) rx o = retained o
  wait_on timeout w none none o = ok (err (record { timeout = timeout }), o)
  wait_on timeout w none (some rx) o = receive timeout w.joined w.recv_timeout o

  unfoldable pub wait_for_completion :
      Duration
      → Surroundings Sample
      → CaptureOwner Runner Callback Sample
      → Panics (
          Result CaptureOwnerShutdownTimeout (CaptureOwnerCompletion Sample)
          × CaptureOwner Runner Callback Sample)
  unfolding join_worker worker_completion
  wait_for_completion timeout w o = wait_on timeout w o.completion o.completion_rx o

  unfoldable pub shutdown :
      Duration
      → Surroundings Sample
      → CaptureOwner Runner Callback Sample
      → Panics (
          Result CaptureOwnerShutdownTimeout (CaptureOwnerCompletion Sample)
          × CaptureOwner Runner Callback Sample)
  unfolding request_stop wait_for_completion
  shutdown timeout w o =
      let stopping = request_stop o in
      wait_for_completion timeout w (
        if stopping.start_called
        then stopping
        else stop_before_start (record stopping { start_called = true }))

  -- `Drop::drop`
  unfoldable pub drop_owner :
      Bool → CaptureOwner Runner Callback Sample → CaptureOwner Runner Callback Sample
  unfolding request_stop join_worker
  drop_owner joined o = join_worker joined (request_stop o)
