-- ===== src/Domain/Event.antt =====
-- src/agent_runtime_lab/domain/events.py: the event types, the immutable event and its fingerprint.
-- An event's `payload_json` is always the canonical text of a JSON object, and is represented by
-- that object.
use agent_runtime_lab.Prelude.{
  ℕ, String, ◌≡◌, refl, List, [], ◌∷◌, Option, none, some, not, is_empty, holds, string_dec,
  if◌then◌else◌,
}
use agent_runtime_lab.Prelude.Int.{ℤ, pos, negsuc}
use agent_runtime_lab.Result.{Result, ok, err, event_validation, ◌>>=◌, ◌>>◌, guard}
use agent_runtime_lab.Json.{Json, Fields, str, int, dict, field, no_fields, DateTime, Host}

pub data EventType : Type 0 where
  run_created run_started run_paused run_resumed run_cancelled : EventType
  run_step_budget_exhausted : EventType
  model_action_requested model_action_proposed model_action_failed : EventType
  completion_accepted completion_rejected : EventType
  tool_requested tool_authorized tool_escalated tool_denied : EventType
  gate_approved gate_rejected gate_evaluated gate_revised : EventType
  tool_started tool_succeeded tool_failed tool_timed_out : EventType
  verification_succeeded verification_failed : EventType

pub EventType-discrete : Discrete EventType
EventType-discrete = hlevel

-- `event_type.value`
unfoldable pub event_type_value : EventType → String
event_type_value run_created = "run.created"
event_type_value run_started = "run.started"
event_type_value run_paused = "run.paused"
event_type_value run_resumed = "run.resumed"
event_type_value run_cancelled = "run.cancelled"
event_type_value run_step_budget_exhausted = "run.step_budget_exhausted"
event_type_value model_action_requested = "model.action_requested"
event_type_value model_action_proposed = "model.action_proposed"
event_type_value model_action_failed = "model.action_failed"
event_type_value completion_accepted = "completion.accepted"
event_type_value completion_rejected = "completion.rejected"
event_type_value tool_requested = "tool.requested"
event_type_value tool_authorized = "tool.authorized"
event_type_value tool_escalated = "tool.escalated"
event_type_value tool_denied = "tool.denied"
event_type_value gate_approved = "gate.approved"
event_type_value gate_rejected = "gate.rejected"
event_type_value gate_evaluated = "gate.evaluated"
event_type_value gate_revised = "gate.revised"
event_type_value tool_started = "tool.started"
event_type_value tool_succeeded = "tool.succeeded"
event_type_value tool_failed = "tool.failed"
event_type_value tool_timed_out = "tool.timed_out"
event_type_value verification_succeeded = "verification.succeeded"
event_type_value verification_failed = "verification.failed"

abbrev all_event_types : List EventType
all_event_types =
    run_created ∷ run_started ∷ run_paused ∷ run_resumed ∷ run_cancelled ∷ run_step_budget_exhausted
    ∷ model_action_requested ∷ model_action_proposed ∷ model_action_failed ∷ completion_accepted
    ∷ completion_rejected ∷ tool_requested ∷ tool_authorized ∷ tool_escalated ∷ tool_denied
    ∷ gate_approved ∷ gate_rejected ∷ gate_evaluated ∷ gate_revised ∷ tool_started ∷ tool_succeeded
    ∷ tool_failed ∷ tool_timed_out ∷ verification_succeeded ∷ verification_failed ∷ []

type_with_value : String → List EventType → Option EventType
unfolding event_type_value
type_with_value value [] = none
type_with_value value (t ∷ rest) =
    let found = type_with_value value rest in
    if holds (string_dec (event_type_value t) value) then some t else found

-- `EventType(value)`: `none` is ValueError.
unfoldable pub event_type_of : String → Option EventType
unfolding type_with_value
event_type_of value = type_with_value value all_event_types

-- Every event type is read back from its value.
pub event_type_of-event_type_value : (t : EventType) → event_type_of (event_type_value t) ≡ some t
unfolding event_type_of string_dec
event_type_of-event_type_value run_created = refl
event_type_of-event_type_value _ = refl

pub record ExecutionEvent : Type 0 where
  pub event_id : String
  pub run_id : String
  pub sequence : ℕ
  pub event_type : EventType
  pub occurred_at : DateTime
  pub payload : Fields

-- A Python string is refused where it is falsy, that is, empty.
abbrev required : String → Result (Unit {0})
required text = guard (not (is_empty text)) event_validation

abbrev non_negative : ℤ → Result ℕ
non_negative (pos n) = ok n
non_negative (negsuc n) = err event_validation

abbrev aware : DateTime → Result (Unit {0})
aware record_at = elim record_at.utcoffset [ none ↦ err event_validation | some _ ↦ ok tt ]

abbrev decoded_object : Option Json → Result Fields
decoded_object (some (dict payload)) = ok payload
decoded_object _ = err event_validation

module _ (h : Host) where
  -- `ExecutionEvent(...)`, with the checks of `__post_init__` in their order.
  unfoldable pub execution_event :
      String → String → ℤ → EventType → DateTime → String → Result ExecutionEvent
  execution_event event_id run_id sequence event_type occurred_at payload_json = do
    required event_id
    required run_id
    n ← non_negative sequence
    aware occurred_at
    payload ← decoded_object (h.loads payload_json)
    ok (record {
      event_id = event_id;
      run_id = run_id;
      sequence = n;
      event_type = event_type;
      occurred_at = occurred_at;
      payload = payload;
    })

  -- `ExecutionEvent.build(...)`
  unfoldable pub build_event :
      String → String → ℤ → EventType → DateTime → Fields → Result ExecutionEvent
  unfolding execution_event
  build_event event_id run_id sequence event_type occurred_at payload =
      execution_event event_id run_id sequence event_type occurred_at (h.dumps (dict payload))

  -- The constructor, applied to a value's own fields, as when the value is read from its row.
  abbrev pub IsEvent : ExecutionEvent → Type 0
  IsEvent e =
      execution_event e.event_id e.run_id (pos e.sequence) e.event_type e.occurred_at
        (h.dumps (dict e.payload))
      ≡ ok e

  -- `event.fingerprint()`
  unfoldable pub fingerprint : ExecutionEvent → String
  unfolding event_type_value
  fingerprint e = h.sha256 (
      h.dumps (
        dict (
          field "event_id" (str e.event_id) (
            field "event_type" (str (event_type_value e.event_type)) (
              field "occurred_at" (str (h.isoformat e.occurred_at)) (
                field "payload" (dict e.payload) (
                  field "run_id" (str e.run_id)
                    (field "sequence" (int (pos e.sequence)) no_fields))))))))
