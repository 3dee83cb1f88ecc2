-- ===== src/Lib.antt =====
-- agent-runtime-lab: an event-sourced runtime for agents that call tools, in antt.
--
-- A run is a log of immutable events. `reduce` derives the state of the run from one event after
-- another and refuses what the state does not allow; `replay` folds a whole log. A tool call has to
-- be authorized, or to pass a gate at which a human takes part, before it may run; the ownership
-- policy says which mode of participation a step needs. An effect on the outside is run by the
-- durable executor, which stores an intent before the call and a receipt after it, and decides by
-- these two whether a redelivered effect may be called again. A receipt is verified against trusted
-- evidence before a step counts as done, and a final answer against a trusted expectation.
--
-- Files, with the code that each one models (paths below src/agent_runtime_lab):
--   Prelude, Prelude/*     shared names: Boolean tests, lists over native numbers, texts, integers
--   Result                 domain/errors.py: the exception classes; code that may raise returns
--                          `Result`, with the class of the exception and without its message
--   Json                   JSON values, and `Host`: the calls of json, hashlib and datetime; Sample
--                          is a `Host` for tests that reads back all that it writes
--   Domain/Event           domain/events.py: EventType, ExecutionEvent, fingerprint
--   Domain/State           domain/state.py: RunStatus, RunState, initial, fingerprint_for
--   Domain/Reducer         domain/reducer.py: one function for each branch of `_transition`
--                          (on_*), `dispatch` for the chain of tests, `reduce`; Checks has the
--                          payload checks, Budget, Shape, Gates, Redelivery, Steps and Turns are proofs
--   Domain/Replay          domain/replay.py: replay and replay_tail; Invariants, Log, Deliveries and
--                          Permits are proofs
--   Persistence/Snapshots  persistence/snapshots.py: the text of a run state; RoundTrip has the proof
--   Persistence/EventStore persistence/sqlite_store.py: append, load, load_tail, snapshots; Log is the
--                          abstract log, Rows, Selection, Refinement, Snapshots, Transparency,
--                          Reachable and Replayed are proofs
--   Effects                domain/tool_effects.py: ToolIntent, ToolReceipt, decide_recovery
--   Effects/Store          persistence/sqlite_tool_effect_store.py: the two tables and their operations;
--                          Laws, History and Consistent are proofs
--   Effects/Executor       durable_tool_executor.py: DurableToolExecutor.execute; Calls, AtMostOnce
--                          and Durable are proofs
--   Effects/Recovery       tool_recovery.py: inspect_recovery
--   Registry               tool_registry.py: ToolRegistry
--   Ownership/Risk         domain/plan.py and ownership/risk_evaluator.py
--   Ownership/Policy       ownership/policy.py: modes, rules, classify_step; Monotone and Automatic
--                          are proofs
--   Ownership/Authorization ownership/authorization.py: ToolRequest, authorize; Decisions and
--                          Paths are proofs
--   Ownership/Gates        ownership/gates.py: references, proposals, resolutions, submissions;
--                          Answers has evaluate_gate
--   ModelAdapter           model_adapter.py: inputs and actions of a model; Compiled has the proof
--   Runtime                authorized_tool_runtime.py: the configured services; Events has load_state,
--                          create_snapshot and _append, Lookups what is read back from the events,
--                          Payloads and Evidence the payloads, Tools submit, recover and _execute,
--                          GateCalls resolve_gate, submit_gate_answer and revise_gate, Models the
--                          model's turns and the recording of evidence, Calls what a client may
--                          do; Outcomes, Recorded, Appends, Permitted, Safety, GateSafety,
--                          ModelSafety, Sessions, Turns and TurnEnds are proofs
--   FakeAgent              fake_agent.py: FakeAgent and single turns of ModelDrivenFakeAgent; Loop has
--                          run_loop, resume_loop and _continue_loop; Turns, Recorded, Termination and
--                          Bounded are proofs
--   Trace                  trace.py: build_run_trace and what a trace is written as; Faithful has the
--                          proof
--   OpenAiCompatible       openai_compatible_adapter.py: tool specs, parse_chat_completion, the
--                          configuration and next_action; Parsed has the proof
--   FileTools              restricted_file_tools.py: the three tools as functions of the disk;
--                          Targets and Contained are proofs
--   Verification           verification.py: ReceiptVerifier.verify; Evidence has the proof
--   Completion             completion.py: CompletionVerifier.verify; Accepted has the proof
--   */Tests                runs on sample values, and the theorems applied to them
--
-- State and parameters. A Python object that is replaced (RunState) is a record that functions
-- return; the tables of a store are lists of rows, those of the event store newest first; a
-- transaction that raises is rolled back, so its operation returns the new tables or an error. The
-- executor runs on a `World` of tables and tool calls that outlives the process, which may stop at
-- each checkpoint and inside a call. A payload is represented by its JSON object, since its text is always the
-- canonical text of one. json, hashlib and datetime are the fields of `Host`; what a theorem needs
-- of json and datetime is `IsCanonical`, `ReadsBack` and `ReadsDates`, and that SHA-256 tells events
-- apart is `Identifies`. fnmatch.fnmatchcase, pathlib (`Workspace`), the tool runner, the gate
-- evaluator, the clock, the failure injectors, the model, the expectation resolver, the
-- HTTP transport, the calls of the operating system on files (`DiskCalls`), urlparse, the environment
-- and the float arithmetic of durations are parameters without any assumption. The runtime works on a `RuntimeWorld`, which adds the event store and the number of readings of the clock.
--
-- Bounds. Loops are structural on lists, with two exceptions on fuel: `decimal` prints a number n
-- with n + 1 steps, and a number has no more digits than that; the agent's loop takes one step for
-- each pass, and a pass that another one follows has used up a turn of the run's budget. A resumed
-- loop of a run that was created without a budget has no bound in the source either.
--
-- Not modelled: raised messages, the SQL text, the migrations of older tables, the pydantic field
-- checks outside the gates, and the parts of the program that are named in no file above: the
-- urllib transport of HTTP requests and the example scripts.
mod Prelude
pub mod Result
pub mod Json
pub mod Domain
pub mod Persistence
pub mod ModelAdapter
pub mod Runtime
pub mod Registry
pub mod FakeAgent
pub mod Trace
pub mod OpenAiCompatible
pub mod FileTools
pub mod Effects
pub mod Ownership
pub mod Verification
pub mod Completion
