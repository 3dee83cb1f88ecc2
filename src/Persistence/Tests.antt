-- ===== src/Persistence/Tests.antt =====
-- Runs of the event store and of its snapshots on a sample run, with the `Host` of the tests.
use agent_runtime_lab.Prelude.{
  ◌≤◌, take, arith, ℕ, String, ◌≡◌, refl, some, List, [], ◌∷◌, ◌∙◌, ap, drop, All, string_dec,
  nat_dec,
}
use agent_runtime_lab.Prelude.Int.{pos}
use agent_runtime_lab.Result.{ok, value_error, duplicate_event_conflict, ◌>>=◌, check_true}
use agent_runtime_lab.Json.{int, Fields, field, no_fields, get}
use agent_runtime_lab.Json.Sample.{
  sample_host, sample_canonical, sample_host-ReadsBack, sample_host-ReadsDates, sample_dumps,
  sample_loads,
}
use agent_runtime_lab.Domain.Event.{
  EventType, ExecutionEvent, IsEvent, execution_event, fingerprint, run_created, run_started,
}
use agent_runtime_lab.Domain.State.{
  RunState, RunState-discrete, RunStatus-discrete, run_state, initial, fingerprint_in,
  initial_state, ready,
}
use agent_runtime_lab.Domain.Reducer.{reduce, dispatch, on_run_created, on_lifecycle}
use agent_runtime_lab.Domain.Reducer.Checks.{optional_positive_int}
use agent_runtime_lab.Domain.Replay.{replay, replay_tail}
use agent_runtime_lab.Persistence.Snapshots.{encode_state, decode_state}
use agent_runtime_lab.Persistence.Snapshots.RoundTrip.{decode_state-encode_state}
use agent_runtime_lab.Persistence.EventStore.{
  chain_seed, EventStore, snapshot_row, last_row, find_fingerprint, append_known, append_after,
  upsert, prefix_chain_digest, find_digest, empty_store, append, load, load_tail, save_snapshot,
  load_snapshot,
}
use agent_runtime_lab.Persistence.EventStore.Log.{
  digest_from, Log, chain, IsLog, size, known, rows_of, history, accept,
}
use agent_runtime_lab.Persistence.EventStore.Rows.{prefix_chain_digest-rows_of}
use agent_runtime_lab.Persistence.EventStore.Refinement.{Represents, holding, append-accept}
use agent_runtime_lab.Persistence.EventStore.Selection.{load_tail-history}
use agent_runtime_lab.Persistence.EventStore.Transparency.{load_snapshot-save_snapshot}
use agent_runtime_lab.Persistence.EventStore.Reachable.{
  StoreCall, append_event, snapshot, perform, perform_all, IsCall, perform_all-snapshot,
}

abbrev event : ℕ → String → EventType → Fields → ExecutionEvent
event n event_id event_type payload = record {
  event_id = event_id;
  run_id = "r";
  sequence = n;
  event_type = event_type;
  occurred_at = record { instant = 0; utcoffset = some (pos 0) };
  payload = payload;
}

abbrev created : ExecutionEvent
created = event 0 "a" run_created (field "max_steps" (int (pos 3)) no_fields)

abbrev started : ExecutionEvent
started = event 1 "b" run_started no_fields

created-IsEvent : IsEvent sample_host created
unfolding execution_event sample_dumps sample_loads
created-IsEvent = refl

started-IsEvent : IsEvent sample_host started
unfolding execution_event sample_dumps sample_loads
started-IsEvent = refl

abbrev log : Log
log = started ∷ created ∷ []

abbrev stored : EventStore
stored = record { execution_events = rows_of sample_host log; run_snapshots = [] }

log-IsLog : IsLog sample_host log
unfolding size known string_dec
log-IsLog = (refl, refl, started-IsEvent, (refl, refl, created-IsEvent, tt))

abbrev state : RunState
state = record (initial_state "r") {
  status = ready;
  next_sequence = 2;
  max_steps = some 3;
  applied_event_fingerprints =
      ("a", fingerprint sample_host created) ∷ ("b", fingerprint sample_host started) ∷ [];
}

stored-Represents : Represents sample_host stored log
stored-Represents = record { rows = refl; valid = log-IsLog }

load_tail-history_example : load_tail sample_host stored "r" (pos 1) ≡ ok (drop 1 (history "r" log))
load_tail-history_example =
    load_tail-history sample_host stored log refl "r" 1 sample_host-ReadsDates log-IsLog

append-accept_example :
    append sample_host stored created
    ≡ (accept sample_host log created >>= λ next. ok (holding sample_host stored next))
append-accept_example = append-accept sample_host stored log stored-Represents created

decode_state-encode_state_example :
    decode_state sample_host (encode_state sample_host state) ≡ ok state
unfolding run_state
decode_state-encode_state_example =
    decode_state-encode_state sample_host sample_canonical sample_host-ReadsBack state refl

replayed : replay sample_host "r" (created ∷ started ∷ []) ≡ ok state
unfolding replay replay_tail reduce dispatch on_run_created on_lifecycle string_dec nat_dec get
    initial fingerprint_in RunStatus-discrete optional_positive_int
replayed = refl

abbrev saved : EventStore
saved = record stored {
  run_snapshots = snapshot_row sample_host state (chain sample_host "r" log) ∷ [];
}

state_saved : save_snapshot sample_host stored state ≡ ok saved
unfolding save_snapshot upsert prefix_chain_digest find_digest rows_of chain string_dec nat_dec
    history
state_saved = rw (
  load_tail-history sample_host stored log refl "r" 0 sample_host-ReadsDates log-IsLog,
  replayed,
  check_true (RunState-discrete state state) value_error refl,
)

load_snapshot-save_snapshot_example : load_snapshot sample_host saved "r" ≡ some state
load_snapshot-save_snapshot_example =
    load_snapshot-save_snapshot sample_host sample_canonical sample_host-ReadsBack
      sample_host-ReadsDates stored log stored-Represents tt state saved state_saved

abbrev first : EventStore
first = record { execution_events = rows_of sample_host (created ∷ []); run_snapshots = [] }

created_appended : append sample_host empty_store created ≡ ok first
unfolding append append_after find_fingerprint rows_of chain nat_dec last_row
created_appended = refl

started_appended : append sample_host first started ≡ ok stored
unfolding append append_after find_fingerprint rows_of chain string_dec nat_dec last_row
started_appended = refl

started_redelivered : append sample_host saved started ≡ ok saved
unfolding append append_known find_fingerprint rows_of string_dec
started_redelivered =
    let print = fingerprint sample_host started in
    rw (check_true (string_dec print print) duplicate_event_conflict refl)

abbrev calls : List StoreCall
calls = append_event created ∷ append_event started ∷ snapshot state ∷ append_event started ∷ []

calls_done : perform_all sample_host empty_store calls ≡ saved
unfolding perform_all perform
calls_done = rw (created_appended, started_appended, state_saved, started_redelivered)

calls-IsCall : All (IsCall sample_host) calls
calls-IsCall = (created-IsEvent, (started-IsEvent, (tt, (started-IsEvent, tt))))

perform_all-snapshot_example :
    (load_tail sample_host (perform_all sample_host empty_store calls) "r" (pos 2) >>= λ tail.
    replay_tail sample_host state tail)
    ≡ (load sample_host (perform_all sample_host empty_store calls) "r" >>= λ events.
        replay sample_host "r" events)
perform_all-snapshot_example =
    perform_all-snapshot sample_host sample_canonical sample_host-ReadsBack sample_host-ReadsDates
      calls "r" state calls-IsCall
      (ap (λ (store : EventStore). load_snapshot sample_host store "r") calls_done
        ∙ load_snapshot-save_snapshot_example)

two_events : 2 ≤ size "r" log
unfolding size string_dec
two_events = omega arith

prefix_chain_digest-rows_of_example :
    prefix_chain_digest "r" 2 (rows_of sample_host log)
    ≡ some (digest_from sample_host chain_seed (take 2 (history "r" log)))
prefix_chain_digest-rows_of_example =
    prefix_chain_digest-rows_of sample_host "r" 2 log log-IsLog two_events
