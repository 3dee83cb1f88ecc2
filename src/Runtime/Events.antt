-- ===== src/Runtime/Events.antt =====
-- src/agent_runtime_lab/authorized_tool_runtime.py: how the runtime reads and records a run's events.
-- A call works on what outlives the process and may raise or stop; what it wrote before stays.
use agent_runtime_lab.Prelude.{ℕ, ◌+◌, String, Option, none, some, ◌<>◌, decimal, if◌then◌else◌}
use agent_runtime_lab.Prelude.Int.{pos}
use agent_runtime_lab.Result
use agent_runtime_lab.Result.{Result, ok, err, Error, runtime_error}
use agent_runtime_lab.Json.{DateTime, Fields}
use agent_runtime_lab.Domain.Event.{EventType, ExecutionEvent, event_type_value, build_event}
use agent_runtime_lab.Domain.State.{RunState}
use agent_runtime_lab.Domain.Replay.{replay, replay_tail}
use agent_runtime_lab.Effects.Executor.{World, Outcome, done, raised, stopped, of_result, Exec}
use agent_runtime_lab.Persistence.EventStore
use agent_runtime_lab.Persistence.EventStore.{
  EventStore, load, load_tail, load_snapshot, save_snapshot,
}
use agent_runtime_lab.Runtime.{
  Runtime, SnapshotCheckpoint, after_snapshot_persisted, before_tail_replay, before_full_replay,
}

-- What outlives the process: the event store, the effects, and how often the clock was read.
pub record RuntimeWorld : Type 0 where
  pub events : EventStore
  pub effects : World
  pub readings : ℕ

abbrev pub Run : Type 0 → Type 0
Run A = RuntimeWorld → Outcome A × RuntimeWorld

abbrev pub continue : {A B : Type 0} → Outcome A → (A → Run B) → Run B
continue (done a) next w = next a w
continue (raised e) next w = (raised e, w)
continue stopped next w = (stopped, w)

infixl 5 ◌>>=◌ ◌>>◌
abbrev pub ◌>>=◌ : {A B : Type 0} → Run A → (A → Run B) → Run B
◌>>=◌ first next w = let (outcome, w') = first w in continue outcome next w'

abbrev pub ◌>>◌ : {A B : Type 0} → Run A → Run B → Run B
first >> next = first >>= λ _. next

abbrev pub return : {A : Type 0} → A → Run A
return a w = (done a, w)

abbrev pub lift : {A : Type 0} → Result A → Run A
lift result w = (of_result result, w)

-- A query of the event store.
abbrev pub query : {A : Type 0} → (EventStore → Result A) → Run A
query f w = (of_result (f w.events), w)

abbrev pub written : RuntimeWorld → Result EventStore → Outcome (Unit {0}) × RuntimeWorld
written w (ok store) = (done tt, record w { events = store })
written w (err e) = (raised e, w)

-- A transaction on the event store: rolled back where it raises.
abbrev pub write : (EventStore → Result EventStore) → Run (Unit {0})
write f w = written w (f w.events)

-- A call of the executor, which works on the effects.
abbrev pub on_effects : {A : Type 0} → Exec A → Run A
on_effects call w =
    let (outcome, effects) = call w.effects in (outcome, record w { effects = effects })

module _ (r : Runtime) where
  -- `self._clock()`
  abbrev pub read_clock : Run DateTime
  read_clock w = (done (r.clock w.readings), record w { readings = w.readings + 1 })

  -- `_reach_snapshot_checkpoint`
  unfoldable pub reach_snapshot_checkpoint : SnapshotCheckpoint → Run (Unit {0})
  reach_snapshot_checkpoint checkpoint w =
      if r.stops_at checkpoint then (stopped, w) else (done tt, w)

  -- `replay(run_id, self._event_store.load(run_id))`
  unfoldable pub replay_stored : String → EventStore → Result RunState
  replay_stored run_id store =
      Result.◌>>=◌ (load r.host store run_id) (λ events. replay r.host run_id events)

  unfoldable pub replay_snapshot : String → RunState → EventStore → Result RunState
  replay_snapshot run_id snapshot store =
      Result.◌>>=◌ (load_tail r.host store run_id (pos snapshot.next_sequence))
        (λ tail. replay_tail r.host snapshot tail)

  abbrev pub stored_snapshot : String → Run (Option RunState)
  stored_snapshot run_id = query (λ store. ok (load_snapshot r.host store run_id))

  unfoldable pub load_from : String → Option RunState → Run RunState
  load_from run_id (some snapshot) = do
    reach_snapshot_checkpoint before_tail_replay
    query (replay_snapshot run_id snapshot)
  load_from run_id none = do
    reach_snapshot_checkpoint before_full_replay
    query (replay_stored run_id)

  -- `load_state(run_id)`
  unfoldable pub load_state : String → Run RunState
  load_state run_id =
      if r.uses_snapshots
      then stored_snapshot run_id >>= load_from run_id
      else query (replay_stored run_id)

  unfoldable pub save_replayed : String → Run RunState
  save_replayed run_id = do
    state ← query (replay_stored run_id)
    write (λ store. save_snapshot r.host store state)
    reach_snapshot_checkpoint after_snapshot_persisted
    return state

  -- `create_snapshot(run_id)`
  unfoldable pub create_snapshot : String → Run RunState
  create_snapshot run_id =
      if r.uses_snapshots then save_replayed run_id else lift (err runtime_error)

  -- The event that `_append` builds after a state.
  unfoldable pub next_event :
      String → EventType → Fields → RunState → DateTime → Result ExecutionEvent
  next_event run_id event_type payload s occurred_at =
      build_event r.host
        (run_id <> (":" <> (decimal s.next_sequence <> (":" <> event_type_value event_type))))
        run_id (pos s.next_sequence) event_type occurred_at payload

  -- `_append(run_id, event_type, payload)`
  unfoldable pub append : String → EventType → Fields → Run RunState
  append run_id event_type payload = do
    state ← load_state run_id
    now ← read_clock
    event ← lift (next_event run_id event_type payload state now)
    write (λ store. EventStore.append r.host store event)
    query (replay_stored run_id)
