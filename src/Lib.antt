-- ===== src/Lib.antt =====
-- Resonance Signal: the capture of audio, its recovery, and the windows of its frames.
--
-- The agent (crates/resonance-agent) keeps a stream of audio capture alive. When an attempt to
-- capture fails, its supervisor asks whether another attempt may take its place. Three parts
-- answer, and all their operations are modelled here:
--
--   RecoveryConfig  crates/resonance-agent/src/recovery_config.rs: the configuration of recovery.
--     Validate is `RecoveryConfigurationInput::validate` and the checks that it calls, Fingerprint
--     the encoding and the identity; WellFormed and Snapshots say what validation accepts.
--   Recovery        crates/resonance-agent/src/recovery.rs: the decision. Policy is
--     `evaluate_recovery` with a function for each cause, Configured is `evaluate_recovery_policy`,
--     which first asks the configuration and the snapshot of the retry state. Guards, Causes,
--     Allowed, Disabled and Budget say when a replacement is permitted. The provider's retry hint
--     comes from crates/resonance-api/src/contract.rs.
--   RetryState      crates/resonance-agent/src/retry_state.rs: the state machine of intents,
--     attempts, failures and recovery episodes. Intent, Attempt, Evidence and Episode are the
--     methods of `RetryState`, Checks its `require_*` helpers. Machine makes a command of each
--     method that changes the state, so that a history is a list of commands. Inv and Reachable,
--     Freshness, Authorization, Halting, Tally and History are about histories.
--
-- Three parts of the signal core (crates/resonance-core), which analyses the captured frames:
--
--   Signal          crates/resonance-core/src/signal.rs: layouts, timestamps and the construction of
--     audio frames, over a parameter for the sample. Levels has the level and spectrum frames,
--     Frames and Spectra are about what the constructors accept.
--   Scheduling      crates/resonance-core/src/scheduling.rs: the window scheduler, which cuts the
--     frames of a stream into windows of one length. The module itself has the configuration, the
--     window length and the timestamps; Scheduler the state and the checks on the frames that are
--     pushed, Push the loops and `push_batch`. Windows, Cutting and Emission are about the loops,
--     Continuity about the checks, Pushes, Entering, Outcome and Batches about a whole push.
--   Processing      crates/resonance-core/src/processing.rs: the windows onto a frame, without the
--     arithmetic on their samples. Waveforms is about them.
--
-- And of the agent, what comes before: how packets become frames, and how sources keep their identity:
--
--   Capture         crates/resonance-agent/src/capture.rs: the frame builder. Continuity is about the
--     frames of consecutive packets and the check that the window scheduler makes of them, Positions
--     about where the device took the packets, Refusal about pushes that fail.
--   Identity        crates/resonance-agent/src/identity.rs: the registry of source identities.
--     Registry has its state and queries, Observations the operations that change it, Image the
--     loading of what was read from its file, Field the encoding of a field. Entries and Inserts are
--     about the entries as a map, Retirement and Freshness about observations, Loadable about the loop
--     over the entries of an image, Loading about its whole load. The namespace that is
--     generated, the allocator, and the outcome of writing the file are parameters.
--
-- Above these stand the run of a capture, its owner, and the supervisor:
--
--   Contract        crates/resonance-api/src/contract.rs: ids, sources, discovery, subscription
--     requests and the events of a stream. Requests is about what a request accepts.
--   Windows         crates/resonance-agent/src/windows.rs: the reports, errors and messages of a
--     capture. Processing is `process_capture`, which makes the events of a stream of the messages
--     that the capture thread sends; Lifecycle and Contiguity are about these events. Owner has
--     `CaptureOwner` with its worker, and Owner/Inv and Owner/Calls are about its phases.
--   Supervisor      crates/resonance-agent/src/supervisor.rs: the supervisor of one owner. Evaluation
--     records an attempt in the retry state and asks the policy, Completion receives the outcome of
--     the owner, Operations has the methods. Attempts and Advice are about what is recorded; Inv has
--     the laws of an owner and the invariant, with Completing, Starting and Stopping for the
--     operations; Histories makes a call of each method and of an event, and Outcomes is about
--     sequences of them. CaptureOwners makes the owner of Windows one of the supervisor's.
--
-- The capture thread sends packets; `process_capture` pushes each to the frame builder and delivers
-- the frame as an event; the owner runs this on its worker and keeps the outcome; the supervisor sees
-- the events, takes the outcome, and tells the retry state and the policy. A consumer gives the frames
-- to the window scheduler.
--
-- A snapshot of the retry state goes to the policy, the decision is bound to the snapshot by
-- `authorize`, and the authorization comes back to `commit_recovery_attempt`.
--
-- How the code is written here. A struct is a record, an enum a data type, in the source's names.
-- Numbers are native naturals; `checked_add` and its like fail above the limit of the source's
-- type, and wrapping arithmetic is written with its modulus. A method on `&mut self` is a function
-- from the state to its result and the state that it leaves, so that what an early return has
-- changed already is seen; `?` is `try` of Base. A `Duration` is its count of nanoseconds, an array
-- indexed by failure classes a function, the constant parameter `HISTORY_CAPACITY` an argument.
-- Loops go over lists, but for the one that cuts windows out of the buffer of the scheduler: it has
-- fuel, one more than the samples of the buffer, of which a round takes at least one. The tries to
-- allocate an id are the source's 4096, and a number of u64 has at most the 20 digits that are printed.
--
-- A panic, of an `expect` that does not hold, is an `err` with its text. What another thread or the
-- system does during a call (a spawn, a wait with a timeout, a join, the sequence of the messages) is
-- an argument of it, so that a statement for all arguments is one for all of their orders.
--
-- Not modelled: the floating-point arithmetic of signal processing, and of the agent the lines of the
-- registry's file, the rest of discovery, and the protocol. The thread that reads packets from the
-- Windows audio interface, the tray, the command line, the transport's sockets and the diagnostics
-- are input and output. Each component's Scenarios module runs the definitions on concrete values and
-- applies the results below to them.
pub mod Base
pub mod RecoveryConfig
pub mod Recovery
pub mod RetryState
pub mod Identity
pub mod Capture
pub mod Contract
pub mod Windows
pub mod Supervisor
pub mod Signal
pub mod Scheduling
pub mod Processing
