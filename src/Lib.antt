-- ===== src/Lib.antt =====
-- the_last_aibender, the core service of a terminal harness for several agent sessions: a model of
-- its PTY flow control, gateway replay, approval broker, pipeline planner, engine and runner,
-- supervision slice, the cycle check of pipelines, an adapter's event stream, and the frontend's
-- bounded buffers.
--
-- The program's parts, and how they interact. A session's terminal output goes through a bounded
-- ring (core/src/kernel/pty/flowControl.ts): the PTY host pushes bytes, the gateway delivers them
-- and takes acknowledgements and replay requests, and the ring tells the host when to pause and to
-- resume. When a session's tool call, a hook or a workflow gate needs consent, the approval broker
-- (core/src/kernel/approvals.ts) queues the request, fans it out to its subscribers, and settles
-- the caller's promise once: by a decision, by expiry, or as superseded. Beside the sessions, the
-- governor (core/src/supervision/governor.ts) runs one pass at a time: the footprint watchdog gives
-- each registered session a band, sessions in the recycle band go to the recycle port, the pressure
-- monitor gives the machine a state, the scheduler plans what to shed in that state, and the
-- hibernation planner picks idle sessions; the pass ends in a snapshot.
--
-- Before a pipeline runs, the planner (core/src/pipelines/planner.ts) pins each step's capability
-- to a record of the catalog, and on a resume it reports the pins that no longer hold. A document
-- is checked for cycles of needs first (packages/protocol/src/dag/validate.ts). The engine
-- (core/src/pipelines/engine.ts) keeps the documents and the runs, launches and resumes runs with
-- the planner's pins, and passes a pause or a cancel on to a live run. The runner
-- (core/src/pipelines/runner.ts) walks a run's steps by generations: a step is entered when all its
-- needs have ended, and is then skipped or run. Each pass of a step's body is looked up in the
-- journal of attempts (packages/schema/src/pipelines.ts) and else executed, with retries, and an
-- approval step waits at its gate. What the core broadcasts on a channel goes through the gateway
-- (core/src/gateway): it numbers each payload in the channel's journal, sends it to every
-- connection, and replays the journal to a client that comes back. The OpenCode adapter reads its
-- server's events with the parser of core/src/adapters/opencode/sse.ts, and drops those that it has
-- had already. The frontend keeps what it receives in two bounded buffers
-- (app/src/lib/buffers/ringBuffer.ts).
--
-- The files:
-- - Prelude: shared names, Boolean tests and lists over the native numbers (Tests, Lists),
--   JavaScript's Map and Set with string keys (Maps), how often a string occurs (Counts), a stable
--   sort (Sort).
-- - AckRing: `BoundedAckRing` of core/src/kernel/pty/flowControl.ts; `new`, `push`, `deliver_next`,
--   `ack` and `replay_from` are its constructor and methods. Contents, Stream and Acks relate a
--   ring to the stream of produced bytes, Flow to its watermarks; Errors has the calls that throw;
--   History has sequences of calls.
-- - Approvals: `createApprovalBroker` of core/src/kernel/approvals.ts; `request`, `decide`,
--   `supersede`, `supersede_session`, `subscribe` and `close` are its methods, `fire` is a timer
--   that runs out, `bridge_input` and `permission` are the two ends of `createCanUseToolBridge`.
--   Approvals.Types also has the payloads of packages/protocol/src/approvals.ts. Ledger has the
--   books that each call keeps in balance, History the sequences of calls, Endings the end of a
--   session and of the broker, Races decisions against timers, Fields the requests' fields.
-- - Planner: core/src/pipelines/planner.ts, with what it reads of the steps
--   (packages/protocol/src/dag/types.ts) and of the catalog (core/src/pipelines/catalog/types.ts).
--   Loop and Pins are about planning, Drift about a plan that is checked again, Resolve about the catalog
--   resolver.
-- - Pipelines: the documents and rows of core/src/pipelines/engine.ts, with the two calls of
--   packages/schema/src/pipelines.ts that it makes; `save`, `plan` and `ensure_definition` are its
--   functions. Pipelines.Engine has `launch`, `resume`, `pause` and `cancel`; Launch and Resume say
--   what these calls find and do, Drift, Reload, Overlap and Refusals are about resumed runs and
--   calls that throw, Live about the rows of live runs.
-- - Gateway: `ChannelJournal` and `JournalSet` of core/src/gateway/journal.ts (`append`,
--   `replay_from_seq` is `replayFrom`, `journal_for`), and of server.ts `broadcast`, the replay
--   handler and the connections. Window relates a journal to what was appended, Clients is about
--   one connection among the others, Events and Received about sequences of calls, Reconnect about
--   a client that comes back.
-- - Dag: `findCycle` of packages/protocol/src/dag/validate.ts. Kahn is about the search, Cycle
--   about its end, Answer about the steps that it leaves. Counts and Queue have the degrees, the
--   successors and the queue before the search, Visits and Accounts what the visits keep, Ranks the
--   order of the visits as a rank, Acyclic what the answer means.
-- - Runner: the walk of core/src/pipelines/runner.ts. `run_steps`, `run_step`, `entry`, `ready`,
--   `needs_satisfied`, `skip_by_upstream` and `mark_step_done` are its functions; `perform` is one
--   event of a walk: a generation, the end of a body, or a signal. Places and Steady say where the
--   steps of a walk are, Needs and Kept what a running step's needs have come to, Order states both
--   for whole walks. Ends bounds a walk, Settled and Checked say what the end of a walk has
--   settled, Checked for a document that the cycle check accepts, and Progress goes on with such a
--   walk until it is over.
-- - Attempts: the journal of attempts, `record`, `complete` and `findMemoized` of
--   packages/schema/src/pipelines.ts and the unique index of its migration 0004-pipelines.ts.
--   Attempts.Tries has `runOneAttempt`, `applyMemoHit` and `executeWithBudget` of the runner,
--   Attempts.Passes `runIterations` and `runGate`. Journal is about the rows, Rounds, Bound and
--   Calls about how often the executor is called, Served about steps for which nothing throws,
--   Resume about a step that is run again, Gates about a gate that is reached again.
-- - Pool: `runBounded` of the same file, the workers that run a `forEach`. Results is about the
--   array of the results, Done about a pool that is done.
-- - Sse: `parseSseStream` of core/src/adapters/opencode/sse.ts. Lines is about the lines of a text,
--   Parse about the parser against them. Sse.Transport: `toEvent`, `rememberId` and
--   `captureWatermark` of the same file; Seen is about the window of ids, Watermarks about the
--   watermarks.
-- - Buffers: `RingBuffer` and `BoundedByteQueue` of app/src/lib/buffers/ringBuffer.ts. Ring relates
--   the circular array to a list, Pushes has sequences of pushes and the drain, Queue the byte
--   queue.
-- - Supervision.Types: core/src/supervision/types.ts and the resource-health part of
--   packages/protocol/src/readModels.ts. Registry: sessions with distinct ids.
-- - Supervision.Watchdog: core/src/supervision/watchdog.ts; `evaluate`, `band_of` and `forget` are
--   the watchdog's methods, `apply_hysteresis` is the function `applyHysteresis`.
-- - Supervision.Pressure: `createPressureMonitor` of core/src/supervision/pressureProbe.ts.
-- - Supervision.Scheduler: `planShed` and `admitSpawn` of core/src/supervision/scheduler.ts.
-- - Supervision.Hibernation: `planIdleHibernation` of core/src/supervision/hibernation.ts.
-- - Supervision.Governor: `createGovernor` of core/src/supervision/governor.ts; `tick`, `register`,
--   `deregister`, `note_activity` and `admit_spawn_now` are its methods. Steps has the state and
--   the parts of a tick that act through ports.
-- - The modules called Tests hold runs at fixed inputs.
--
-- Conventions. State is passed explicitly. A method that throws answers `err` and leaves the state
-- as it was, or answers `threw` with the state that it leaves. Byte counts, offsets, times,
-- megabytes and rates are natural numbers; a caller's watermark may also be a number that is not a
-- natural one. The ring's counters are not bounded by 2 ^ 53, which a stream would reach after nine
-- petabytes. All loops but four run over lists. The parser's loop over the lines of its buffer has
-- a round for each unit of the buffer and one more, and the search of the cycle check has one for
-- each step; both are proved to be enough. The loops over a step's passes and attempts count down
-- from their limits, as the code's comparisons do. Injected ports are arguments: the sampler, the
-- probe's reading, and whether each call of the recycle and hibernate ports is accepted. A tick is
-- one step: the interleaving of other calls with its awaits is not modelled. The broker's promises
-- are numbered, and its state records which of them were settled; its subscribers do not call back
-- into it; approval ids come from the caller of the model, as do the answers of the protocol's
-- tests of ids and account labels.
--
-- In the pipeline engine JSON, the hash, the document validator and the new ids are arguments, and
-- a walk of a run is what it was started with and the call that it is over. In the walk a body may
-- end in any disposition, whatever its step is, and may throw; what conditions and `forEach`
-- expressions come to is given by the event that enters the steps. Of an attempt, the hash of the
-- rendered step, what the executor answers and the signals around it are arguments, and an output
-- is the text of its JSON. In the journal a row is its run, step, iteration and attempt, which are
-- unique, and an attempt's number is counted from 0, so that `latest + 1` is never negative. The
-- rows that others add to the journal while a step is executed are an argument too, as is whether
-- the lineage and cost port throws; the numbers that an executor answers are told apart as the
-- store's checks do. In the pool what a call answers is a function of its item and index. In the
-- gateway the token test, the parsed request and the scrubber are arguments, and a connection keeps
-- all that was sent on it. The parser's texts are lists of code units, as the decoder gives them.
--
-- Not modelled: logging, the probe that runs macOS tools, the publisher, and all other parts of the
-- repository (the gateway's other verbs, the pipeline templates, lineage and costs, workstreams,
-- collectors, the other adapters, the rest of the schema, the frontend's views and stores).
pub mod Prelude
pub mod AckRing
pub mod Supervision
pub mod Approvals
pub mod Buffers
pub mod Planner
pub mod Dag
pub mod Pipelines
pub mod Gateway
pub mod Sse
pub mod Runner
pub mod Attempts
pub mod Pool
