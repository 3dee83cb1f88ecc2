-- ===== src/Runtime.antt =====
-- src/agent_runtime_lab/authorized_tool_runtime.py: the service that records a run's events, asks
-- for authorization and runs durable effects. The process may stop where an injector says so; what
-- was written before stays.
pub mod Events
pub mod Lookups
pub mod Payloads
pub mod Tools
pub mod GateCalls
pub mod Evidence
pub mod Models
pub mod Outcomes
pub mod Recorded
pub mod Appends
pub mod Permitted
pub mod Safety
pub mod GateSafety
pub mod Calls
pub mod Sessions
pub mod Turns
pub mod TurnEnds
pub mod ModelSafety
pub mod Tests
use agent_runtime_lab.Prelude.{
  ℕ, suc, ◌+◌, leb, String, Bool, true, false, Option, none, some, List, decimal, ◌<>◌,
  if◌then◌else◌,
}
use agent_runtime_lab.Prelude.Int.{ℤ, pos, negsuc}
use agent_runtime_lab.Result.{Result, ok, err, Error, value_error, ◌>>=◌, ◌>>◌, guard}
use agent_runtime_lab.Json.{DateTime, Fields, Host}
use agent_runtime_lab.Domain.Event.{EventType, ExecutionEvent, event_type_value, build_event}
use agent_runtime_lab.Domain.State.{RunState}
use agent_runtime_lab.Domain.Replay.{replay, replay_tail}
use agent_runtime_lab.Registry.{ToolRegistry}
use agent_runtime_lab.Effects.{ToolReceipt}
use agent_runtime_lab.Effects.Executor.{
  World, ToolRunner, FailureInjector, Outcome, done, raised, stopped, of_result, Exec,
}
use agent_runtime_lab.Ownership.Authorization.{AuthorizationContext, AuthorizationDecision}
use agent_runtime_lab.Ownership.Gates.{GateProposal, GateEvaluation}
use agent_runtime_lab.Persistence.EventStore
use agent_runtime_lab.Persistence.EventStore.{
  EventStore, load, load_tail, load_snapshot, save_snapshot,
}

pub data SnapshotCheckpoint : Type 0 where
  after_snapshot_persisted before_tail_replay before_full_replay : SnapshotCheckpoint

pub data RuntimeToolOutcome : Type 0 where
  executed denied awaiting_gate gate_retry blocked rejected : RuntimeToolOutcome

pub record RuntimeToolResult : Type 0 where
  pub outcome : RuntimeToolOutcome
  pub state : RunState
  pub authorization : Option AuthorizationDecision
  pub gate_proposal : Option GateProposal
  pub gate_evaluation : Option GateEvaluation
  pub gate_attempt : Option ℕ
  pub receipt : Option ToolReceipt

-- What the durable executor is made with.
pub record DurableToolExecutor : Type 0 where
  pub registry : ToolRegistry
  pub runner : ToolRunner
  pub failure_injector : FailureInjector

-- The configured services. The snapshot store, where there is one, is the event store; `stops_at`
-- says where the snapshot injector stops the process. `clock` has the time of each reading.
pub record Runtime : Type 0 where
  pub host : Host
  pub uses_snapshots : Bool
  pub stops_at : SnapshotCheckpoint → Bool
  pub executor : DurableToolExecutor
  pub fnmatchcase : String → String → Bool
  pub authorization_context : AuthorizationContext
  pub gate_evaluator : GateProposal → Fields → Result GateEvaluation
  pub user_gate_max_attempts : ℕ
  pub clock : ℕ → DateTime

-- The configured snapshot store: the event store, or another one.
pub data SnapshotStore : Type 0 where
  event_store other_store : SnapshotStore

abbrev attempts_of : ℤ → Result ℕ
attempts_of (pos n) = if leb 1 n then ok n else err value_error
attempts_of (negsuc _) = err value_error

abbrev is_event_store : Option SnapshotStore → Bool
is_event_store (some other_store) = false
is_event_store _ = true

abbrev is_configured : Option SnapshotStore → Bool
is_configured none = false
is_configured (some _) = true

abbrev injection :
    Option SnapshotStore → Option (SnapshotCheckpoint → Bool) → Result (SnapshotCheckpoint → Bool)
injection store none = ok (λ _. false)
injection none (some injector) = err value_error
injection (some _) (some injector) = ok injector

-- `AuthorizedToolRuntime(...)`: the checks of `__init__`, on the services that are given otherwise.
unfoldable pub authorized_tool_runtime :
    Runtime → Option SnapshotStore → Option (SnapshotCheckpoint → Bool) → ℤ → Result Runtime
authorized_tool_runtime services snapshot_store injector max_attempts = do
  attempts ← attempts_of max_attempts
  guard (is_event_store snapshot_store) value_error
  stops_at ← injection snapshot_store injector
  ok (record services {
    uses_snapshots = is_configured snapshot_store;
    stops_at = stops_at;
    user_gate_max_attempts = attempts;
  })
