-- ===== src/Persistence/Snapshots.antt =====
-- src/agent_runtime_lab/persistence/snapshots.py: a run state as canonical JSON text. A field of
-- another type than the state's, a negative number included, is refused as a TypeError, where Python
-- keeps the value as it is or refuses it in another way.
pub mod RoundTrip
use agent_runtime_lab.Prelude.{
  ℕ, String, Bool, true, false, not, ◌||◌, ◌&&◌, Option, none, some, List, [], ◌∷◌, any, holds,
  string_dec,
}
use agent_runtime_lab.Prelude.Int.{ℤ, pos, negsuc}
use agent_runtime_lab.Result.{
  Result, ok, err, value_error, type_error, key_error, ◌>>=◌, ◌>>◌, guard,
}
use agent_runtime_lab.Json.{
  Json, null, int, str, list, dict, Items, no_items, item, Fields, no_fields, field, get, all_keys,
  Host,
}
use agent_runtime_lab.Domain.State.{RunState, RunStatus, run_status_value, run_status_of, run_state}

abbrev pub snapshot_schema_version : ℕ
snapshot_schema_version = 2

abbrev pub json_nat : ℕ → Json
json_nat n = int (pos n)

-- `None`, or the value
abbrev pub optional_text : Option String → Json
optional_text none = null
optional_text (some t) = str t

abbrev pub optional_nat : Option ℕ → Json
optional_nat none = null
optional_nat (some n) = json_nat n

abbrev pub json_pair : String → String → Json
json_pair a b = list (item (str a) (item (str b) no_items))

abbrev pub json_pairs : List (String × String) → Items
json_pairs [] = no_items
json_pairs ((a, b) ∷ rest) = item (json_pair a b) (json_pairs rest)

-- The dictionary `payload` of `encode_state`.
abbrev pub state_fields : RunState → Fields
state_fields s = field "active_gate_attempts" (json_nat s.active_gate_attempts) (
    field "active_gate_max_attempts" (optional_nat s.active_gate_max_attempts) (
      field "active_gate_mode" (optional_text s.active_gate_mode) (
        field "active_gate_proposal_digest" (optional_text s.active_gate_proposal_digest) (
          field "active_gate_revision" (optional_nat s.active_gate_revision) (
            field "active_model_action_event_id" (optional_text s.active_model_action_event_id) (
              field "active_model_invocation_id" (optional_text s.active_model_invocation_id) (
                field "active_step_id" (optional_text s.active_step_id) (
                  field "active_tool_call_id" (optional_text s.active_tool_call_id) (
                    field "applied_event_fingerprints"
                      (list (json_pairs s.applied_event_fingerprints))
                      (field "failure_reason" (optional_text s.failure_reason) (
                        field "max_steps" (optional_nat s.max_steps) (
                          field "next_sequence" (json_nat s.next_sequence) (
                            field "run_id" (str s.run_id) (
                              field "status" (str (run_status_value s.status))
                                (field "turn_index" (json_nat s.turn_index) no_fields)))))))))))))))

abbrev pub expected_fields : List String
expected_fields =
    "active_gate_attempts" ∷ "active_gate_max_attempts" ∷ "active_gate_mode"
    ∷ "active_gate_proposal_digest" ∷ "active_gate_revision" ∷ "active_model_action_event_id"
    ∷ "active_model_invocation_id" ∷ "active_step_id" ∷ "active_tool_call_id"
    ∷ "applied_event_fingerprints" ∷ "failure_reason" ∷ "max_steps" ∷ "next_sequence" ∷ "run_id"
    ∷ "status" ∷ "turn_index" ∷ []

abbrev pub is_expected : String → Bool
is_expected k = any (λ expected. holds (string_dec k expected)) expected_fields

abbrev pub is_present : Option Json → Bool
is_present none = false
is_present (some _) = true

abbrev pub has_keys : List String → Fields → Bool
has_keys [] payload = true
has_keys (k ∷ keys) payload = is_present (get k payload) && has_keys keys payload

-- `payload[key]`, read as the type of its field
abbrev pub read_text : Option Json → Result String
read_text (some (str t)) = ok t
read_text none = err key_error
read_text (some _) = err type_error

abbrev pub read_nat : Option Json → Result ℕ
read_nat (some (int (pos n))) = ok n
read_nat none = err key_error
read_nat (some _) = err type_error

abbrev pub read_optional_text : Option Json → Result (Option String)
read_optional_text (some null) = ok none
read_optional_text (some (str t)) = ok (some t)
read_optional_text none = err key_error
read_optional_text (some _) = err type_error

abbrev pub read_optional_nat : Option Json → Result (Option ℕ)
read_optional_nat (some null) = ok none
read_optional_nat (some (int (pos n))) = ok (some n)
read_optional_nat none = err key_error
read_optional_nat (some _) = err type_error

abbrev read_pair : Json → Result (String × String)
read_pair (list (item (str a) (item (str b) no_items))) = ok (a, b)
read_pair _ = err value_error

unfoldable pub read_pairs : Items → Result (List (String × String))
read_pairs no_items = ok []
read_pairs (item v rest) = do pair ← read_pair v; pairs ← read_pairs rest; ok (pair ∷ pairs)

abbrev pub read_fingerprints : Option Json → Result (List (String × String))
read_fingerprints (some (list xs)) = read_pairs xs
read_fingerprints none = err key_error
read_fingerprints (some _) = err value_error

abbrev pub status_of : Option RunStatus → Result RunStatus
status_of none = err value_error
status_of (some status) = ok status

-- The fields of a payload that has the expected keys.
unfoldable pub read_state : Fields → Result RunState
read_state payload = do
  fingerprints ← read_fingerprints (get "applied_event_fingerprints" payload)
  run_id ← read_text (get "run_id" payload)
  value ← read_text (get "status" payload)
  status ← status_of (run_status_of value)
  next_sequence ← read_nat (get "next_sequence" payload)
  turn_index ← read_nat (get "turn_index" payload)
  max_steps ← read_optional_nat (get "max_steps" payload)
  active_step_id ← read_optional_text (get "active_step_id" payload)
  active_model_invocation_id ← read_optional_text (get "active_model_invocation_id" payload)
  active_model_action_event_id ← read_optional_text (get "active_model_action_event_id" payload)
  active_tool_call_id ← read_optional_text (get "active_tool_call_id" payload)
  active_gate_proposal_digest ← read_optional_text (get "active_gate_proposal_digest" payload)
  active_gate_revision ← read_optional_nat (get "active_gate_revision" payload)
  active_gate_mode ← read_optional_text (get "active_gate_mode" payload)
  active_gate_attempts ← read_nat (get "active_gate_attempts" payload)
  active_gate_max_attempts ← read_optional_nat (get "active_gate_max_attempts" payload)
  failure_reason ← read_optional_text (get "failure_reason" payload)
  run_state (record {
    run_id = run_id;
    status = status;
    next_sequence = next_sequence;
    turn_index = turn_index;
    max_steps = max_steps;
    active_step_id = active_step_id;
    active_model_invocation_id = active_model_invocation_id;
    active_model_action_event_id = active_model_action_event_id;
    active_tool_call_id = active_tool_call_id;
    active_gate_proposal_digest = active_gate_proposal_digest;
    active_gate_revision = active_gate_revision;
    active_gate_mode = active_gate_mode;
    active_gate_attempts = active_gate_attempts;
    active_gate_max_attempts = active_gate_max_attempts;
    failure_reason = failure_reason;
    applied_event_fingerprints = fingerprints;
  })

abbrev pub payload_object : Option Json → Result Fields
payload_object (some (dict payload)) = ok payload
payload_object _ = err value_error

module _ (h : Host) where
  unfoldable pub encode_state : RunState → String
  encode_state s = h.dumps (dict (state_fields s))

  unfoldable pub decode_state : String → Result RunState
  decode_state state_json = do
    payload ← payload_object (h.loads state_json)
    guard (all_keys is_expected payload) value_error
    guard (has_keys expected_fields payload) value_error
    read_state payload

  unfoldable pub digest_state : String → String
  digest_state state_json = h.sha256 state_json
