-- ===== src/Runtime/GateSafety.antt =====
-- The human actions on a gate, and recovery, keep that every call of a tool has a permit in the log.
use agent_runtime_lab.Prelude.{
  ℕ, ◌+◌, String, ◌≡◌, refl, subst, Bool, true, false, not, ◌&&◌, Option, none, some, is_empty,
  string_dec, arith,
}
use agent_runtime_lab.Result
use agent_runtime_lab.Result.{
  Result, ok, err, Result-cases, guard, invalid_transition, gate_reference_mismatch,
}
use agent_runtime_lab.Json.{IsCanonical, ReadsBack, ReadsDates, get}
use agent_runtime_lab.Domain.Event.{gate_approved, gate_rejected, gate_evaluated, gate_revised}
use agent_runtime_lab.Domain.State.{RunState}
use agent_runtime_lab.Domain.Replay.Permits.{replay_permitted}
use agent_runtime_lab.Ownership.Policy.{user_gate}
use agent_runtime_lab.Ownership.Authorization.{ToolRequest, AuthorizationDecision}
use agent_runtime_lab.Ownership.Gates.{
  GateReference, GateResolution, GateAction, approve, reject, GateProposal, build_proposal,
  GateAnswerSubmission, submitted_answer, GateEvaluation, GateEvaluationOutcome, pass, retry, block,
  is_escalate,
}
use agent_runtime_lab.Persistence.EventStore.{EventStore, load}
use agent_runtime_lab.Persistence.EventStore.Log.{Log, history}
use agent_runtime_lab.Runtime.{Runtime}
use agent_runtime_lab.Runtime.Events.{RuntimeWorld, Run, ◌>>=◌, query, load_state, append}
use agent_runtime_lab.Runtime.Lookups.{active_request, validate_reference}
use agent_runtime_lab.Runtime.Payloads.{resolution_payload, evaluation_payload}
use agent_runtime_lab.Runtime.Tools.{
  decide, execute_tool, recover_call, recover, active_call, is_recoverable, is_tool_ready,
}
use agent_runtime_lab.Runtime.GateCalls.{
  gated_request, gated_proposal, still_proposed, resolve_active, resolve_gate, answer_evaluated,
  answer_active, submit_gate_answer, revise_gate, is_approval, has_mode, attempt_limit,
}
use agent_runtime_lab.Runtime.Outcomes.{
  Gives, Keeps, Gives-bind, Gives-query, Gives-return, Gives-mono, Gives-known, Gives-after_lift,
}
use agent_runtime_lab.Runtime.Recorded.{Identifies, IsRecorded, Stable}
use agent_runtime_lab.Runtime.Appends.{Permitted, Loaded, load_state-Loaded, append_permit}
use agent_runtime_lab.Runtime.Permitted.{execute_tool-Recorded}
use agent_runtime_lab.Runtime.Safety.{active_request-identity, text-reread, loaded, appended}

module _ (r : Runtime) (c : IsCanonical r.host) (b : ReadsBack r.host c) (dates : ReadsDates r.host)
    (identifies : Identifies r.host) (I : Log → Type 0) (stable : Stable r.host I) where
  abbrev Rec : RuntimeWorld → Type 0
  Rec = IsRecorded r.host I

  -- The request is the one that was looked up.
  abbrev IsOf : String → String → ToolRequest → Type 0
  IsOf run_id tool_call_id request =
      (request.run_id ≡ run_id)
      × (request.tool_call_id ≡ tool_call_id)
      × (is_empty tool_call_id ≡ false)

  executes :
      (run_id tool_call_id : String) (request : ToolRequest)
      (authorization : Option AuthorizationDecision) (evaluation : Option GateEvaluation)
      (attempt : Option ℕ) (started : Bool)
      → IsOf run_id tool_call_id request
      → Gives
          (Permitted r I run_id tool_call_id)
          Rec
          (execute_tool r request authorization evaluation attempt started)
          (λ result. Rec)
  executes run_id tool_call_id request authorization evaluation attempt started is_of =
      let call = execute_tool r request authorization evaluation attempt started in
      subst (λ id. Gives (Permitted r I id tool_call_id) Rec call (λ result. Rec)) is_of.0
        (subst (λ id. Gives (Permitted r I request.run_id id) Rec call (λ result. Rec)) is_of.1
          (execute_tool-Recorded r I c b dates stable request authorization evaluation attempt
            started))

  abbrev read : String → String → EventStore → Result ToolRequest
  read run_id tool_call_id store =
      Result.◌>>=◌ (load r.host store run_id)
        (λ events. active_request r.host run_id tool_call_id events)

  looked_up :
      {A : Type 0} (reference : GateReference) {f : ToolRequest → Run A}
      → ((request : ToolRequest)
          → IsOf reference.run_id reference.tool_call_id request
          → Keeps Rec (f request))
      → Keeps Rec (gated_request r reference >>= f)
  looked_up reference next =
      Gives-bind {m = gated_request r reference}
        (Gives-query {S = Rec} (λ w i. i) (read reference.run_id reference.tool_call_id))
        (λ request.
          Gives-known {S = Rec}
            (λ w e.
              active_request-identity r reference.run_id reference.tool_call_id w.events request e)
            (next request))

  resolve_active-Recorded :
      (resolution : GateResolution) (request : ToolRequest) (action : GateAction)
      → IsOf resolution.reference.run_id resolution.reference.tool_call_id request
      → Keeps Rec (resolve_active r resolution request action)
  unfolding resolve_active get string_dec
  resolve_active-Recorded resolution request reject is_of =
      appended r c b dates identifies I stable resolution.reference.run_id gate_rejected _
        (λ s. Gives-return _)
  resolve_active-Recorded resolution request approve is_of =
      Gives-after_lift (λ w i. i)
        (still_proposed r request (decide r request) resolution.reference
          (decide r request).outcome)
        (λ u e.
          Gives-bind
            {m = append r resolution.reference.run_id gate_approved (resolution_payload resolution)}
            (append_permit r c b dates I stable identifies resolution.reference.run_id
              resolution.reference.tool_call_id gate_approved (resolution_payload resolution) tt
              (text-reread r c b dates identifies I stable (resolution_payload resolution)
                "tool_call_id" resolution.reference.tool_call_id refl is_of.2))
            (λ s.
              executes resolution.reference.run_id resolution.reference.tool_call_id request
                (some (decide r request)) none none true is_of))

  pub resolve_gate-Recorded : (resolution : GateResolution) → Keeps Rec (resolve_gate r resolution)
  unfolding resolve_gate
  resolve_gate-Recorded resolution =
      loaded r c b dates identifies I stable resolution.reference.run_id (λ s.
        Gives-after_lift (λ w i. i) (validate_reference s resolution.reference)
          (λ u e.
            Gives-after_lift (λ w i. i)
              (guard (not (is_approval resolution.action && has_mode s user_gate))
                invalid_transition)
              (λ v e'. looked_up resolution.reference (λ request is_of.
                resolve_active-Recorded resolution request resolution.action is_of))))

  answer_evaluated-Recorded :
      (submission : GateAnswerSubmission) (request : ToolRequest) (proposal : GateProposal)
      (evaluation : GateEvaluation) (attempt limit : ℕ) (outcome : GateEvaluationOutcome)
      → evaluation.outcome ≡ outcome
      → IsOf submission.reference.run_id submission.reference.tool_call_id request
      → Keeps Rec (
          append r submission.reference.run_id gate_evaluated
            (evaluation_payload submission evaluation attempt limit)
          >>= λ state. answer_evaluated r request proposal evaluation attempt state outcome)
  unfolding answer_evaluated get string_dec
  answer_evaluated-Recorded submission request proposal evaluation attempt limit pass is is_of =
      let payload = evaluation_payload submission evaluation attempt limit in
      Gives-bind {m = append r submission.reference.run_id gate_evaluated payload}
        (append_permit r c b dates I stable identifies submission.reference.run_id
          submission.reference.tool_call_id gate_evaluated payload
          (text-reread r c b dates identifies I stable payload "outcome" "pass" (rw is refl) refl)
          (text-reread r c b dates identifies I stable payload "tool_call_id"
            submission.reference.tool_call_id refl is_of.2))
        (λ s.
          executes submission.reference.run_id submission.reference.tool_call_id request
            (some (decide r request)) (some evaluation) (some attempt) true is_of)
  answer_evaluated-Recorded submission request proposal evaluation attempt limit retry is is_of =
      appended r c b dates identifies I stable submission.reference.run_id gate_evaluated _
        (λ s. Gives-return _)
  answer_evaluated-Recorded submission request proposal evaluation attempt limit block is is_of =
      appended r c b dates identifies I stable submission.reference.run_id gate_evaluated _
        (λ s. Gives-return _)

  pub submit_gate_answer-Recorded :
      (submission : GateAnswerSubmission) → Keeps Rec (submit_gate_answer r submission)
  unfolding submit_gate_answer answer_active
  submit_gate_answer-Recorded submission =
      loaded r c b dates identifies I stable submission.reference.run_id (λ s.
        Gives-after_lift (λ w i. i) (validate_reference s submission.reference)
          (λ u e.
            Gives-after_lift (λ w i. i) (guard (has_mode s user_gate) invalid_transition)
              (λ v e'.
                Gives-after_lift (λ w i. i) (attempt_limit s.active_gate_max_attempts)
                  (λ limit e₁. looked_up submission.reference (λ request is_of.
                    Gives-bind {m = gated_proposal r request submission.reference}
                      (Gives-query {S = Rec} (λ w i. i) _)
                      (λ proposal.
                        Gives-known {S = Rec} {G = Unit {0}} (λ w e. tt)
                          (λ t.
                            Gives-after_lift (λ w i. i)
                              (still_proposed r request (decide r request) submission.reference
                                (decide r request).outcome)
                              (λ x e₂.
                                Gives-after_lift (λ w i. i) (submitted_answer r.host submission)
                                  (λ answer e₃.
                                    Gives-after_lift (λ w i. i) (r.gate_evaluator proposal answer)
                                      (λ given e₄.
                                        answer_evaluated-Recorded submission request proposal _ _
                                          limit _ refl is_of))))))))))

  pub revise_gate-Recorded : (reference : GateReference) → Keeps Rec (revise_gate r reference)
  unfolding revise_gate
  revise_gate-Recorded reference = loaded r c b dates identifies I stable reference.run_id (λ s.
      Gives-after_lift (λ w i. i) (validate_reference s reference)
        (λ u e. looked_up reference (λ request is_of.
          Gives-after_lift (λ w i. i)
            (guard (is_escalate (decide r request).outcome) gate_reference_mismatch)
            (λ v e'.
              Gives-after_lift (λ w i. i)
                (build_proposal r.host request (decide r request) (reference.revision + 1))
                (λ proposal e₁.
                  appended r c b dates identifies I stable reference.run_id gate_revised _
                    (λ s'. Gives-return _))))))

  recovered :
      (run_id : String) (s : RunState) (tool_call_id : String) (w : RuntimeWorld)
      → is_recoverable s.status ≡ true
      → s.active_tool_call_id ≡ some tool_call_id
      → Loaded r I run_id s w
      → Permitted r I run_id tool_call_id w
  recovered run_id s tool_call_id w runs active k = (
    k.0,
    replay_permitted r.host run_id (history run_id k.0.log) s tool_call_id k.1 (ground arith)
        active,
  )

  recover_call-Recorded :
      (run_id : String) (s : RunState)
      → is_recoverable s.status ≡ true
      → Gives (Loaded r I run_id s) Rec (recover_call r run_id s) (λ result. Rec)
  unfolding recover_call
  recover_call-Recorded run_id s runs =
      Gives-after_lift (λ w k. k.0) (active_call s.active_tool_call_id)
        (λ tool_call_id e.
          Gives-mono (λ w k. recovered run_id s tool_call_id w runs (ground arith) k) (λ a w k. k)
            (Gives-bind {m = query (read run_id tool_call_id)}
              (Gives-query {S = Permitted r I run_id tool_call_id} (λ w k. k.0)
                (read run_id tool_call_id))
              (λ request.
                Gives-known {S = Permitted r I run_id tool_call_id}
                  (λ w e'. active_request-identity r run_id tool_call_id w.events request e')
                  (executes run_id tool_call_id request none none none (is_tool_ready s.status)))))

  pub recover-Recorded : (run_id : String) → Keeps Rec (recover r run_id)
  unfolding recover
  recover-Recorded run_id =
      Gives-bind {m = load_state r run_id} (load_state-Loaded r c b dates I run_id) (λ s.
        Gives-after_lift (λ w k. k.0) (guard (is_recoverable s.status) invalid_transition)
          (λ u e. recover_call-Recorded run_id s (ground arith)))
