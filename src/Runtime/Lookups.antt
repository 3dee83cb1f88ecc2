-- ===== src/Runtime/Lookups.antt =====
-- src/agent_runtime_lab/authorized_tool_runtime.py: what the runtime reads back from a run's events.
use agent_runtime_lab.Prelude.{
  String, Bool, true, false, ◌&&◌, Option, none, some, List, [], ◌∷◌, holds, string_dec, option_dec,
  nat_dec, is_empty, if◌then◌else◌,
}
use agent_runtime_lab.Result.{
  Result, ok, err, gate_reference_mismatch, event_validation, value_error, ◌>>=◌, ◌>>◌, check,
}
use agent_runtime_lab.Json.{
  Json, null, str, list, dict, Items, no_items, item, Fields, field, no_fields, get, equals_int,
  Host,
}
use agent_runtime_lab.Domain.Event.{
  EventType, ExecutionEvent, tool_requested, tool_escalated, gate_revised, verification_succeeded,
}
use agent_runtime_lab.Domain.State.{RunState, RunStatus-discrete, awaiting_gate}
use agent_runtime_lab.Verification.{text_equals}
use agent_runtime_lab.Ownership.Policy.{OwnershipMode, auto, pair, user_gate}
use agent_runtime_lab.Ownership.Authorization.{ToolRequest, tool_request}
use agent_runtime_lab.Ownership.Gates.{GateReference, GateProposal, gate_proposal}

-- `for event in reversed(events): ... return`: the last event that passes the test.
unfoldable pub last_event : (ExecutionEvent → Bool) → List ExecutionEvent → Option ExecutionEvent
last_event test [] = none
last_event test (e ∷ es) = later (last_event test es)
  where
    later : Option ExecutionEvent → Option ExecutionEvent
    later none = if test e then some e else none
    later (some found) = some found

-- `_payload_text(payload, field)`
abbrev pub payload_text_of : Option Json → Result String
payload_text_of (some (str text)) = if is_empty text then err gate_reference_mismatch else ok text
payload_text_of _ = err gate_reference_mismatch

abbrev pub payload_text : Fields → String → Result String
payload_text payload name = payload_text_of (get name payload)

-- An optional text; a value of another type is refused.
abbrev pub optional_payload_text : Option Json → Result (Option String)
optional_payload_text none = ok none
optional_payload_text (some null) = ok none
optional_payload_text (some (str text)) = ok (some text)
optional_payload_text (some _) = err event_validation

abbrev pub is_tool_requested : EventType → Bool
is_tool_requested tool_requested = true
is_tool_requested _ = false

abbrev pub requests_call : String → ExecutionEvent → Bool
requests_call tool_call_id e =
    is_tool_requested e.event_type && text_equals (get "tool_call_id" e.payload) tool_call_id

abbrev pub read_request : Host → String → String → Option ExecutionEvent → Result ToolRequest
read_request h run_id tool_call_id none = err gate_reference_mismatch
read_request h run_id tool_call_id (some e) = do
  step_id ← payload_text e.payload "step_id"
  tool_name ← payload_text e.payload "tool_name"
  arguments_json ← payload_text e.payload "arguments_json"
  model_action_event_id ← optional_payload_text (get "model_action_event_id" e.payload)
  tool_request h run_id step_id tool_call_id tool_name arguments_json model_action_event_id

-- `_load_active_request(run_id, tool_call_id)`, in the run's events
unfoldable pub active_request : Host → String → String → List ExecutionEvent → Result ToolRequest
active_request h run_id tool_call_id events =
    read_request h run_id tool_call_id (last_event (requests_call tool_call_id) events)

abbrev is_step_verification : EventType → Bool
is_step_verification verification_succeeded = true
is_step_verification _ = false

abbrev verifies_step : ExecutionEvent → Bool
verifies_step e = is_step_verification e.event_type && text_equals (get "scope" e.payload) "step"

abbrev or_else : Json → Option Json → Json
or_else default none = default
or_else default (some value) = value

abbrev observation_from : Option ExecutionEvent → Fields
observation_from none = no_fields
observation_from (some e) =
    field "verification"
      (dict (
        field "checks" (or_else (list no_items) (get "checks" e.payload))
          (field "summary" (or_else (str "") (get "summary" e.payload)) no_fields)))
      no_fields

-- `_load_step_observation(run_id)`, in the run's events
unfoldable pub step_observation : List ExecutionEvent → Fields
step_observation events = observation_from (last_event verifies_step events)

abbrev is_proposal_type : EventType → Bool
is_proposal_type tool_escalated = true
is_proposal_type gate_revised = true
is_proposal_type _ = false

abbrev proposes : ToolRequest → GateReference → ExecutionEvent → Bool
proposes request reference e =
    is_proposal_type e.event_type
    && text_equals (get "tool_call_id" e.payload) request.tool_call_id
    && text_equals (get "proposal_digest" e.payload) reference.proposal_digest
    && equals_int (get "revision" e.payload) reference.revision

unfoldable pub read_reasons : Items → Result (List String)
read_reasons no_items = ok []
read_reasons (item v rest) = do
  reason ← payload_text_of (some v)
  reasons ← read_reasons rest
  ok (reason ∷ reasons)

abbrev reasons_of : Option Json → Result (List String)
reasons_of (some (list items)) = read_reasons items
reasons_of _ = err gate_reference_mismatch

-- `OwnershipMode(value)`
abbrev pub mode_of : String → Result OwnershipMode
mode_of value =
    if holds (string_dec value "auto")
    then ok auto
    else if holds (string_dec value "pair")
    then ok pair
    else if holds (string_dec value "user_gate")
    then ok user_gate
    else err value_error

abbrev read_proposal : ToolRequest → GateReference → Option ExecutionEvent → Result GateProposal
read_proposal request reference none = err gate_reference_mismatch
read_proposal request reference (some e) = do
  reasons ← reasons_of (get "reasons" e.payload)
  value ← payload_text e.payload "ownership_mode"
  mode ← mode_of value
  gate_proposal reference request.step_id request.tool_name request.arguments_json mode reasons

-- `_load_active_proposal(request, reference)`, in the run's events
unfoldable pub active_proposal :
    ToolRequest → GateReference → List ExecutionEvent → Result GateProposal
active_proposal request reference events =
    read_proposal request reference (last_event (proposes request reference) events)

-- `_validate_reference(state, reference)`
unfoldable pub validate_reference : RunState → GateReference → Result (Unit {0})
validate_reference s reference = do
  check (RunStatus-discrete s.status awaiting_gate) gate_reference_mismatch
  check (option_dec string_dec s.active_tool_call_id (some reference.tool_call_id))
      gate_reference_mismatch
  check (option_dec string_dec s.active_gate_proposal_digest (some reference.proposal_digest))
      gate_reference_mismatch
  check (option_dec nat_dec s.active_gate_revision (some reference.revision))
      gate_reference_mismatch
