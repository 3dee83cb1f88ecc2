-- ===== src/Runtime/Payloads.antt =====
-- src/agent_runtime_lab/authorized_tool_runtime.py: the payloads of the events that the runtime
-- appends on a tool request's way.
use agent_runtime_lab.Prelude.{ℕ, String, Option, none, some, is_empty, if◌then◌else◌}
use agent_runtime_lab.Prelude.Int.{pos}
use agent_runtime_lab.Json.{Json, null, int, str, list, Fields, field, no_fields, get}
use agent_runtime_lab.Domain.Event.{EventType, tool_succeeded, tool_failed, tool_timed_out}
use agent_runtime_lab.Effects.{ToolOutcome, succeeded, failed, timed_out}
use agent_runtime_lab.Ownership.Policy.{OwnershipMode, user_gate, mode_value, OwnershipDecision}
use agent_runtime_lab.Ownership.Authorization.{
  ToolRequest, AuthorizationDecision, AuthorizationOutcome, allow, deny, escalate,
}
use agent_runtime_lab.Ownership.Gates.{
  GateReference, GateResolution, GateProposal, GateAnswerSubmission, GateEvaluation,
  evaluation_value, text_items,
}

abbrev pub call_payload : ToolRequest → Fields
call_payload request = field "arguments_json" (str request.arguments_json) (
    field "step_id" (str request.step_id) (
      field "tool_call_id" (str request.tool_call_id)
        (field "tool_name" (str request.tool_name) no_fields)))

abbrev pub request_payload : ToolRequest → Option String → Fields
request_payload request none = call_payload request
request_payload request (some event_id) =
    field "model_action_event_id" (str event_id) (call_payload request)

abbrev pub outcome_value : AuthorizationOutcome → String
outcome_value allow = "allow"
outcome_value deny = "deny"
outcome_value escalate = "escalate"

abbrev pub mode_json : Option OwnershipDecision → Json
mode_json none = null
mode_json (some ownership) = str (mode_value ownership.mode)

-- `_authorization_payload(request, decision)`
abbrev pub authorization_payload : ToolRequest → AuthorizationDecision → Fields
authorization_payload request decision =
    field "normalized_paths" (list (text_items decision.normalized_paths)) (
      field "outcome" (str (outcome_value decision.outcome)) (
        field "ownership_mode" (mode_json decision.ownership_decision) (
          field "reasons" (list (text_items decision.reasons))
            (field "tool_call_id" (str request.tool_call_id) no_fields))))

-- `payload["max_attempts"]` is set for a USER_GATE only.
abbrev pub with_max_attempts : OwnershipMode → ℕ → Fields → Fields
with_max_attempts user_gate limit payload = field "max_attempts" (int (pos limit)) payload
with_max_attempts _ limit payload = payload

abbrev pub escalation_payload : GateProposal → ToolRequest → Fields
escalation_payload proposal request =
    field "ownership_mode" (str (mode_value proposal.ownership_mode)) (
      field "proposal_digest" (str proposal.reference.proposal_digest) (
        field "reasons" (list (text_items proposal.reasons)) (
          field "revision" (int (pos proposal.reference.revision))
            (field "tool_call_id" (str request.tool_call_id) no_fields))))

abbrev pub revision_payload : GateReference → GateProposal → Fields
revision_payload reference proposal =
    field "ownership_mode" (str (mode_value proposal.ownership_mode)) (
      field "previous_proposal_digest" (str reference.proposal_digest) (
        field "previous_revision" (int (pos reference.revision)) (
          field "proposal_digest" (str proposal.reference.proposal_digest) (
            field "reasons" (list (text_items proposal.reasons)) (
              field "revision" (int (pos proposal.reference.revision))
                (field "tool_call_id" (str reference.tool_call_id) no_fields))))))

abbrev pub resolution_payload : GateResolution → Fields
resolution_payload resolution = field "actor" (str resolution.actor) (
    field "proposal_digest" (str resolution.reference.proposal_digest) (
      field "reason" (str resolution.reason) (
        field "revision" (int (pos resolution.reference.revision))
          (field "tool_call_id" (str resolution.reference.tool_call_id) no_fields))))

abbrev pub evaluation_payload : GateAnswerSubmission → GateEvaluation → ℕ → ℕ → Fields
evaluation_payload submission evaluation attempt max_attempts =
    field "actor" (str submission.actor) (
      field "answer_json" (str submission.answer_json) (
        field "attempt" (int (pos attempt)) (
          field "max_attempts" (int (pos max_attempts)) (
            field "outcome" (str (evaluation_value evaluation.outcome)) (
              field "proposal_digest" (str submission.reference.proposal_digest) (
                field "reason" (str evaluation.reason) (
                  field "revision" (int (pos submission.reference.revision))
                    (field "tool_call_id" (str submission.reference.tool_call_id) no_fields))))))))

abbrev pub message_or : String → Option Json → String
message_or default (some (str text)) = if is_empty text then default else text
message_or default _ = default

abbrev pub or_null : Option Json → Json
or_null none = null
or_null (some value) = value

abbrev pub fields_of : Option Fields → Fields
fields_of none = no_fields
fields_of (some arguments) = arguments

-- The type of the event that settles a call, by the outcome of its receipt.
abbrev pub settled_type : ToolOutcome → EventType
settled_type timed_out = tool_timed_out
settled_type failed = tool_failed
settled_type succeeded = tool_succeeded

-- Its payload, of the effect's id and the receipt's output.
abbrev pub settled_payload : ToolRequest → String → Fields → ToolOutcome → Fields
settled_payload request effect_id output timed_out =
    field "reason" (str (message_or "tool execution timed out" (get "message" output))) (
      field "timeout_seconds" (or_null (get "timeout_seconds" output))
        (field "tool_call_id" (str request.tool_call_id) no_fields))
settled_payload request effect_id output failed =
    field "reason" (str (message_or "tool execution failed" (get "message" output)))
      (field "tool_call_id" (str request.tool_call_id) no_fields)
settled_payload request effect_id output succeeded =
    field "effect_id" (str effect_id) (field "tool_call_id" (str request.tool_call_id) no_fields)
