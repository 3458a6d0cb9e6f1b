-- ===== src/Lib.antt =====
-- Verification of the agent orchestration runtime and of its pilot's event log.
--
-- The runtime takes a coding task to a merged pull request. A broker keeps one run per accepted
-- request; every change of a run is a command of a journal, and the broker's state is what the
-- journal reduces to. The pilot compares arms of executors by blocks; a block's state is what its
-- append-only log of events replays to.
--
-- Base: Boolean tests and equality (Base/Tests), lists and objects used as maps (Base/Lists), calls
--   that may throw (Base/Results), and texts as lists of character codes (Base/Texts). Numbers are
--   the native ones. The counts of the source stay below its largest safe integer, which the
--   journal's reader checks, so that no arithmetic wraps.
-- Contracts: the data of src/runtime/contracts.ts and src/runtime/failures.ts: task requests and
--   work contracts (Task), bindings and profiles (Models), results and failures (Outcome); and the
--   normalized relative paths of src/runtime/contract-schemas.ts (Paths).
-- Requests: src/runtime/request-idempotency.ts. `register_request` is registerRequestV4,
--   `replay_request_index` is replayRequestIndexV4.
-- RunState: src/runtime/run-state.ts. Commands has the state and the commands, Execution and
--   Publish the branches of reduceBrokerStateV4, Reduce the reducer and replayBrokerStateV4;
--   Checks and Load are loadJournalCommandV4 with its helpers, on commands that have their types.
--   Guards, Consistency, Evidence, Replay, History, Ending and Identity prove what holds of the
--   runs, by the induction of Steps. The reducer's toLocaleLowerCase is the parameter `fold_case`,
--   an arbitrary function; the schemas and the hash of a verdict are fields of `Loaders`. A freshly
--   accepted run is the hypothesis IsFresh where a theorem needs it; Daemon/Acceptance proves it of
--   the runs that the daemon accepts.
-- Journal: src/runtime/journal.ts. Records is the file and its reader (parseRecords), Disk the loop
--   of appendJournalRecord on a disk whose every write and sync may fall short or throw, Append
--   openJournal with the journal's append and close. JSON, hashes and dates are fields of the
--   parameter `Codec`, and what an append relies on of them is the record Fits.
-- Daemon: src/runtime/broker-daemon.ts, and the cache of src/runtime/run-state.ts. Recovery is
--   writeBrokerStateCacheV4 and recoverBrokerStateV4, Persist the daemon's persist, Locks the locks
--   of its repositories and their holders, Acceptance initialResult and the acceptance that submit
--   persists. What the machine does at a persist (disk, time, cache, audit) is the record Machine.
-- Health: src/runtime/binding-health.ts. Evidence has the observations, their loader and their
--   order, Evaluate the loop over them and runtimeBindingHealthAllowsV4. Times, the order of ids
--   and hashes are fields of `Platform`.
-- Resolve: src/core/resolve.ts and the data of src/core/types.ts.
-- Routing: src/runtime/routing.ts (Contract), with resolveBinding of src/runtime/bindings.ts and
--   the coverage of the routes in src/runtime/readiness.ts (Coverage). Hashes, texts of reasons and
--   the contract's schema are fields of the parameter `Deriving`.
-- Adaptive: src/runtime/adaptive-execution.ts. `resolve_policy` is the choice of lane, binding and
--   budget of resolveAdaptiveExecutionPolicyV4. What the health snapshots allow and the task's
--   traits are arguments.
-- Pilot: src/pilot/event-store.ts (Log) and src/pilot/state-machine.ts. Vocabulary, States, Events
--   and Manifest are the data of src/pilot/contracts.ts. Rows is the table of transitions, Machine
--   the guards and transitionChecked, Reduction, Handlers and Usage the loop's state and branches,
--   Replay replayBlock. Lifecycle describes the same transitions by rounds.
--   assertSafeEvent, canonicalize, hashCanonical and parseContractualUtc are fields of the
--   parameter `Codec`, arbitrary functions; two objects of one log are the same exactly when their
--   event ids are, since a valid log has no id twice.
-- Samples: a request and a journal to a merge, inputs of the tests.
--
-- Loops are structural recursion over the lists that they walk, but for two on fuel: the write loop
-- of an append has as many rounds as there are bytes, each round writing one at least or failing,
-- and a number's decimal digits have as many as the number, each round dividing by ten. Every
-- function here is total.
--
-- Not modelled: the rest of the daemon's submit and the calls that it serializes, the audit trail,
-- background flights, the processes, sandboxes, runners, the git and network adapters, the command
-- line and the MCP servers, and the pilot's reducer, metrics and evaluation over replayed blocks.
-- What a schema of the zod library accepts is a parameter where a check depends on it.
pub mod Base
pub mod Contracts
pub mod Requests
pub mod RunState
pub mod Journal
pub mod Daemon
pub mod Health
pub mod Resolve
pub mod Routing
pub mod Pilot
pub mod Adaptive
mod Samples
