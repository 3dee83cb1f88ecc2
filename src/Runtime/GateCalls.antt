-- ===== src/Runtime/GateCalls.antt =====
-- src/agent_runtime_lab/authorized_tool_runtime.py: the human actions on an active gate.
use agent_runtime_lab.Prelude.{
  ℕ, ◌+◌, leb, Bool, true, false, not, ◌&&◌, Option, none, some, ◌<>◌, holds, string_dec,
  option_dec,
}
use agent_runtime_lab.Result
use agent_runtime_lab.Result.{
  Result, ok, err, invalid_transition, gate_reference_mismatch, check, guard,
}
use agent_runtime_lab.Domain.Event.{gate_approved, gate_rejected, gate_evaluated, gate_revised}
use agent_runtime_lab.Domain.State.{RunState}
use agent_runtime_lab.Ownership.Policy.{OwnershipMode, user_gate, mode_value}
use agent_runtime_lab.Ownership.Authorization.{
  ToolRequest, AuthorizationDecision, AuthorizationOutcome, allow, deny, escalate,
}
use agent_runtime_lab.Ownership.Gates.{
  GateReference, GateReference-discrete, GateResolution, GateAction, approve, reject, GateProposal,
  build_proposal, GateAnswerSubmission, submitted_answer, GateEvaluation, GateEvaluationOutcome,
  pass, retry, block, is_escalate,
}
use agent_runtime_lab.Persistence.EventStore.{load}
use agent_runtime_lab.Runtime.{
  Runtime, RuntimeToolResult, awaiting_gate, gate_retry, blocked, rejected,
}
use agent_runtime_lab.Runtime.Events.{Run, ◌>>=◌, ◌>>◌, return, lift, query, load_state, append}
use agent_runtime_lab.Runtime.Payloads.{
  with_max_attempts, revision_payload, resolution_payload, evaluation_payload,
}
use agent_runtime_lab.Runtime.Tools.{decide, result_of, execute_tool}
use agent_runtime_lab.Runtime.Lookups.{active_request, active_proposal, validate_reference}

-- `state.active_gate_mode == mode.value`
abbrev pub has_mode : RunState → OwnershipMode → Bool
has_mode s mode = holds (option_dec string_dec s.active_gate_mode (some (mode_value mode)))

abbrev pub is_approval : GateAction → Bool
is_approval approve = true
is_approval reject = false

abbrev pub attempt_limit : Option ℕ → Result ℕ
attempt_limit none = err invalid_transition
attempt_limit (some limit) = ok limit

-- A retry that is the last attempt blocks.
abbrev pub limited : GateEvaluation → Bool → GateEvaluation
limited evaluation true = record {
  outcome = block;
  reason = "attempt limit exhausted: " <> evaluation.reason;
}
limited evaluation false = evaluation

abbrev pub is_retry : GateEvaluationOutcome → Bool
is_retry retry = true
is_retry _ = false

module _ (r : Runtime) where
  abbrev pub gated_request : GateReference → Run ToolRequest
  gated_request reference = query (λ store.
      Result.◌>>=◌ (load r.host store reference.run_id)
        (λ events. active_request r.host reference.run_id reference.tool_call_id events))

  abbrev pub gated_proposal : ToolRequest → GateReference → Run GateProposal
  gated_proposal request reference = query (λ store.
      Result.◌>>=◌ (load r.host store request.run_id)
        (λ events. active_proposal request reference events))

  -- The proposal that the current policy makes is the one that the reference names.
  unfoldable pub still_proposed :
      ToolRequest → AuthorizationDecision → GateReference → AuthorizationOutcome → Result (Unit {0})
  still_proposed request decision reference deny = err gate_reference_mismatch
  still_proposed request decision reference escalate =
      Result.◌>>=◌ (build_proposal r.host request decision reference.revision) (λ proposal.
        check (GateReference-discrete proposal.reference reference) gate_reference_mismatch)
  still_proposed request decision reference allow = ok tt

  unfoldable pub resolve_active : GateResolution → ToolRequest → GateAction → Run RuntimeToolResult
  resolve_active resolution request reject = do
    state ← append r resolution.reference.run_id gate_rejected (resolution_payload resolution)
    return (result_of rejected state)
  resolve_active resolution request approve = do
    let decision = decide r request
    lift (still_proposed request decision resolution.reference decision.outcome)
    append r resolution.reference.run_id gate_approved (resolution_payload resolution)
    execute_tool r request (some decision) none none true

  -- `resolve_gate(resolution)`
  unfoldable pub resolve_gate : GateResolution → Run RuntimeToolResult
  resolve_gate resolution = do
    state ← load_state r resolution.reference.run_id
    lift (validate_reference state resolution.reference)
    lift
        (guard (not (is_approval resolution.action && has_mode state user_gate)) invalid_transition)
    request ← gated_request resolution.reference
    resolve_active resolution request resolution.action

  -- The end of `submit_gate_answer`, on the outcome of the evaluation.
  unfoldable pub answer_evaluated :
      ToolRequest
      → GateProposal
      → GateEvaluation
      → ℕ
      → RunState
      → GateEvaluationOutcome
      → Run RuntimeToolResult
  answer_evaluated request proposal evaluation attempt state pass =
      execute_tool r request (some (decide r request)) (some evaluation) (some attempt) true
  answer_evaluated request proposal evaluation attempt state retry =
      return (record (result_of gate_retry state) {
        authorization = some (decide r request);
        gate_proposal = some proposal;
        gate_evaluation = some evaluation;
        gate_attempt = some attempt;
      })
  answer_evaluated request proposal evaluation attempt state block =
      return (record (result_of blocked state) {
        authorization = some (decide r request);
        gate_proposal = some proposal;
        gate_evaluation = some evaluation;
        gate_attempt = some attempt;
      })

  -- `evaluation`, after the test of the attempt limit
  abbrev pub evaluated : GateEvaluation → ℕ → ℕ → GateEvaluation
  evaluated evaluation attempt limit =
      limited evaluation (is_retry evaluation.outcome && leb limit attempt)

  unfoldable pub answer_active :
      GateAnswerSubmission → ToolRequest → GateProposal → ℕ → ℕ → Run RuntimeToolResult
  answer_active submission request proposal attempt limit = do
    answer ← lift (submitted_answer r.host submission)
    given ← lift (r.gate_evaluator proposal answer)
    let evaluation = evaluated given attempt limit
    state ←
        append r submission.reference.run_id gate_evaluated
          (evaluation_payload submission evaluation attempt limit)
    answer_evaluated request proposal evaluation attempt state evaluation.outcome

  -- `submit_gate_answer(submission)`
  unfoldable pub submit_gate_answer : GateAnswerSubmission → Run RuntimeToolResult
  submit_gate_answer submission = do
    state ← load_state r submission.reference.run_id
    lift (validate_reference state submission.reference)
    lift (guard (has_mode state user_gate) invalid_transition)
    limit ← lift (attempt_limit state.active_gate_max_attempts)
    request ← gated_request submission.reference
    proposal ← gated_proposal request submission.reference
    lift (still_proposed request (decide r request) submission.reference (decide r request).outcome)
    answer_active submission request proposal (state.active_gate_attempts + 1) limit

  -- `revise_gate(reference)`
  unfoldable pub revise_gate : GateReference → Run RuntimeToolResult
  revise_gate reference = do
    state ← load_state r reference.run_id
    lift (validate_reference state reference)
    request ← gated_request reference
    let decision = decide r request
    lift (guard (is_escalate decision.outcome) gate_reference_mismatch)
    proposal ← lift (build_proposal r.host request decision (reference.revision + 1))
    revised ← append r reference.run_id gate_revised (
        with_max_attempts proposal.ownership_mode r.user_gate_max_attempts
          (revision_payload reference proposal))
    return (record (result_of awaiting_gate revised) {
      authorization = some decision;
      gate_proposal = some proposal;
    })
