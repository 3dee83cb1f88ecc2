-- ===== src/Domain/Replay.antt =====
-- src/agent_runtime_lab/domain/replay.py: a run's state, rebuilt from its ordered events.
pub mod Deliveries
pub mod Invariants
pub mod Log
pub mod Permits
use agent_runtime_lab.Prelude.{String, List, [], ◌∷◌}
use agent_runtime_lab.Result.{Result, ok, ◌>>=◌}
use agent_runtime_lab.Json.{Host}
use agent_runtime_lab.Domain.Event.{ExecutionEvent}
use agent_runtime_lab.Domain.State.{RunState, initial}
use agent_runtime_lab.Domain.Reducer.{reduce}

module _ (h : Host) where
  -- `for event in events: state = reduce(state, event)`
  unfoldable pub replay_tail : RunState → List ExecutionEvent → Result RunState
  replay_tail s [] = ok s
  replay_tail s (e ∷ es) = do s' ← reduce h s e; replay_tail s' es

  unfoldable pub replay : String → List ExecutionEvent → Result RunState
  replay run_id events = do s ← initial run_id; replay_tail s events
