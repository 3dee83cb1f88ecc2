-- ===== src/Runtime/Tests.antt =====
-- A session of the runtime on a sample request, with the `Host` of the tests.
use agent_runtime_lab.Prelude.{
  ℕ, String, ◌≡◌, refl, ap, ◌∙◌, sym, true, false, none, some, List, [], ◌∷◌, All, arith,
}
use agent_runtime_lab.Prelude.Int.{pos}
use agent_runtime_lab.Json.{int, Fields, field, no_fields, dict, DateTime}
use agent_runtime_lab.Json.Sample.{
  sample_host, sample_canonical, sample_host-ReadsBack, sample_host-ReadsDates, sample_dumps,
  sample_loads, canonical_lem,
}
use agent_runtime_lab.Domain.Event.{
  EventType, ExecutionEvent, IsEvent, execution_event, fingerprint, event_type_value, event_type_of,
  event_type_of-event_type_value, run_created, run_started,
}
use agent_runtime_lab.Effects.Executor.{returned}
use agent_runtime_lab.Ownership.Policy.{auto}
use agent_runtime_lab.Ownership.Authorization.{ToolRequest}
use agent_runtime_lab.Ownership.Gates.Answers.{evaluate_gate}
use agent_runtime_lab.Persistence.EventStore.Log.{Log}
use agent_runtime_lab.Persistence.EventStore.Refinement.{Represents}
use agent_runtime_lab.Runtime.{Runtime}
use agent_runtime_lab.Runtime.Recorded.{Identifies, HasPermit}
use agent_runtime_lab.Runtime.Calls.{
  Session, RuntimeCall, LoopCall, submit_request, recover_run, append_event, take_snapshot,
  take_tool_turn, start_loop, restart_loop, perform_sessions, empty_world,
}
use agent_runtime_lab.Runtime.Sessions.{perform_sessions_permitted}
use agent_runtime_lab.FakeAgent.Loop.{ToolExpectationResolver}
use agent_runtime_lab.Completion.{CompletionExpectation}
use agent_runtime_lab.ModelAdapter.{ModelAdapter, tool_call}
use agent_runtime_lab.Result.{ok}
use agent_runtime_lab.Verification.{VerificationExpectation}

sample_dumps-injective : (d d' : Fields) → sample_dumps (dict d) ≡ sample_dumps (dict d') → d ≡ d'
sample_dumps-injective d d' e =
    let same : some (dict d) ≡ some (dict d') =
      sym (canonical_lem d) ∙ ap sample_loads e ∙ canonical_lem d' in
    ground (arith, same)

event_type_value-injective : (t t' : EventType) → event_type_value t ≡ event_type_value t' → t ≡ t'
event_type_value-injective t t' e =
    let same : some t ≡ some t' =
      sym (event_type_of-event_type_value t)
      ∙ ap event_type_of e
      ∙ event_type_of-event_type_value t' in
    ground (arith, same)

isoformat-injective :
    (d d' : DateTime) → sample_host.isoformat d ≡ sample_host.isoformat d' → d ≡ d'
isoformat-injective d d' e =
    let same : some d ≡ some d' =
      sym (sample_host-ReadsDates d) ∙ ap sample_host.fromisoformat e ∙ sample_host-ReadsDates d' in
    ground (arith, same)

pub sample_host-Identifies : Identifies sample_host
unfolding fingerprint
sample_host-Identifies e e' v v' same =
    let fields = sample_dumps-injective _ _ same in
    ground (
      arith,
      fields,
      event_type_value-injective e.event_type e'.event_type,
      isoformat-injective e.occurred_at e'.occurred_at,
    )

abbrev pub services : Runtime
services = record {
  host = sample_host;
  uses_snapshots = true;
  stops_at = λ _. false;
  executor = record {
    registry = record {
      definitions =
          record { tool_name = "read"; retry_is_idempotent = true; path_argument_names = [] } ∷ [];
    };
    runner = λ calls call. returned no_fields;
    failure_injector = λ checkpoint intent. false;
  };
  fnmatchcase = λ text glob. false;
  authorization_context = record {
    registry = record {
      definitions =
          record { tool_name = "read"; retry_is_idempotent = true; path_argument_names = [] } ∷ [];
    };
    workspace = record {
      has_drive = λ _. false;
      resolve_below = λ path. some path;
      repr = λ text. text;
    };
    risk_rules = [];
    policy = record { rules = []; default_mode = auto };
    minimum_mode = auto;
  };
  gate_evaluator = evaluate_gate sample_host;
  user_gate_max_attempts = 3;
  clock = λ n. record { instant = n; utcoffset = some (pos 0) };
}

abbrev pub event : ℕ → String → EventType → Fields → ExecutionEvent
event n event_id event_type payload = record {
  event_id = event_id;
  run_id = "r";
  sequence = n;
  event_type = event_type;
  occurred_at = record { instant = 0; utcoffset = some (pos 0) };
  payload = payload;
}

abbrev pub created : ExecutionEvent
created = event 0 "a" run_created (field "max_steps" (int (pos 3)) no_fields)

abbrev pub started : ExecutionEvent
started = event 1 "b" run_started no_fields

abbrev request : ToolRequest
request = record {
  run_id = "r";
  step_id = "step-1";
  tool_call_id = "call";
  tool_name = "read";
  arguments_json = sample_dumps (dict no_fields);
  model_action_event_id = none;
}

abbrev pub expectation : VerificationExpectation
expectation = record { path = "p"; sha256 = "digest" }

abbrev pub completion_expectation : CompletionExpectation
completion_expectation = record { expected_answer = "done"; require_verified_observation = true }

abbrev pub tool_expectations : ToolExpectationResolver
tool_expectations context action = ok (some expectation)

abbrev pub adapter : ModelAdapter
adapter context =
    ok (tool_call (record { tool_call_id = "turn"; tool_name = "read"; arguments_json = "{}" }))

abbrev loop : LoopCall
loop = record {
  adapter = adapter;
  run_id = "r";
  stops_at = λ checkpoint. false;
  tool_expectations = tool_expectations;
  completion_expectation = completion_expectation;
  fuel = 4;
}

abbrev pub session : RuntimeCall → Session
session call = record { services = services; call = call }

abbrev sessions : List Session
sessions =
    session (append_event created)
    ∷ session (append_event started)
    ∷ session (submit_request request)
    ∷ session (take_snapshot "r")
    ∷ session (recover_run "r")
    ∷ session (take_tool_turn adapter "r" expectation)
    ∷ session (start_loop loop)
    ∷ session (restart_loop loop)
    ∷ []

pub created-IsEvent : IsEvent sample_host created
unfolding execution_event sample_dumps sample_loads
created-IsEvent = refl

pub started-IsEvent : IsEvent sample_host started
unfolding execution_event sample_dumps sample_loads
started-IsEvent = refl

perform_sessions_permitted_example :
    (log : Log) × Represents sample_host
      (perform_sessions sample_host empty_world sessions).events
      log
    × All
        (HasPermit sample_host log)
        (perform_sessions sample_host empty_world sessions).effects.calls
perform_sessions_permitted_example =
    perform_sessions_permitted sample_host sample_canonical sample_host-ReadsBack
      sample_host-ReadsDates sample_host-Identifies sessions
      (created-IsEvent, (started-IsEvent, (refl, (tt, (tt, (tt, (tt, (tt, tt))))))))
