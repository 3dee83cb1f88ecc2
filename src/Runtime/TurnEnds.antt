-- ===== src/Runtime/TurnEnds.antt =====
-- An answer that was judged, or a step that was verified, consumes a turn of the run's budget
-- (record_completion and record_step_verification of authorized_tool_runtime.py).
use agent_runtime_lab.Prelude.{
  ℕ, ◌+◌, String, Bool, ◌≡◌, ◌⊎◌, inl, inr, refl, true, false, ◌||◌, string_dec, arith, Bool-cases,
  subst, sym,
}
use agent_runtime_lab.Result.{guard, check, invalid_transition}
use agent_runtime_lab.Json.{IsCanonical, ReadsBack, ReadsDates, Fields, field, no_fields, str, get}
use agent_runtime_lab.Domain.Event.{
  EventType, ExecutionEvent, verification_succeeded, verification_failed,
}
use agent_runtime_lab.Domain.State
use agent_runtime_lab.Domain.State.{RunState, ready, action_pending, verifying}
use agent_runtime_lab.Domain.Reducer.{dispatch, on_verification_failed}
use agent_runtime_lab.Domain.Reducer.Steps.{record_event}
use agent_runtime_lab.Domain.Reducer.Turns.{HasReached, EndsTurn, dispatch-EndsTurn}
use agent_runtime_lab.Verification.{VerificationResult}
use agent_runtime_lab.Completion.{CompletionResult, is_accepted}
use agent_runtime_lab.ModelAdapter.{ModelInput, FinalAnswerAction}
use agent_runtime_lab.Persistence.EventStore.Log.{Log}
use agent_runtime_lab.Persistence.EventStore.Replayed.{ReplaysTo}
use agent_runtime_lab.Runtime.{Runtime}
use agent_runtime_lab.Runtime.Events.{RuntimeWorld, append}
use agent_runtime_lab.Runtime.Evidence.{
  has_status, is_next_turn, completion_type, is_failure, needed, evidence_payload,
}
use agent_runtime_lab.Runtime.Models.{
  record_completion, record_verification, record_step, record_step_verification,
}
use agent_runtime_lab.Runtime.Outcomes.{Gives, Gives-bind, Gives-mono}
use agent_runtime_lab.Runtime.Recorded.{Identifies, IsRecorded, Stable}
use agent_runtime_lab.Runtime.Appends.{Holds}
use agent_runtime_lab.Runtime.Safety
use agent_runtime_lab.Runtime.ModelSafety.{match_pending-Recorded}
use agent_runtime_lab.Runtime.Turns.{Turned, Turned-Stable, append_last}

module _ (r : Runtime) (c : IsCanonical r.host) (b : ReadsBack r.host c) (dates : ReadsDates r.host)
    (identifies : Identifies r.host) (run_id : String) (limit n : ℕ) where
  abbrev pub Within : RuntimeWorld → Type 0
  Within = IsRecorded r.host (Turned r.host run_id limit n)

  stable : Stable r.host (Turned r.host run_id limit n)
  stable = Turned-Stable r.host run_id limit n

  -- The state is stored, and of this kind.
  abbrev pub Stored : (RunState → Type 0) → RunState → RuntimeWorld → Type 0
  Stored Q s =
      Holds r.host (Turned r.host run_id limit n) (λ log. ReplaysTo r.host run_id log s × Q s)

  -- The run failed, or consumed one more turn.
  abbrev pub FailedOrReached : RunState → Type 0
  FailedOrReached s = (has_status s State.failed ≡ true) ⊎ HasReached limit (n + 1) s

  completion_type-EndsTurn :
      (accepted : Bool) (payload : Fields) → EndsTurn (completion_type accepted) payload
  completion_type-EndsTurn true payload = tt
  completion_type-EndsTurn false payload = tt

  frame :
      (s s' : RunState) (e : ExecutionEvent)
      → HasReached limit (n + 1) s'
      → HasReached limit (n + 1) (record_event r.host s s' e)
  frame s s' e q = ground arith

  append_end :
      (id : String)
      → id ≡ run_id
      → (t : EventType) (payload : Fields) → EndsTurn t (c.reread payload)
      → Gives Within Within (append r id t payload) (Stored (HasReached limit (n + 1)))
  append_end id same t payload ends =
      subst
        (λ name. Gives Within Within (append r name t payload) (Stored (HasReached limit (n + 1))))
        (sym same)
        (append_last r c b dates identifies run_id limit n t payload (HasReached limit (n + 1))
          frame (λ s event_id s'. dispatch-EndsTurn limit n t s event_id (c.reread payload) ends))

  append_failed :
      (payload : Fields)
      → Gives Within Within (append r run_id verification_failed payload) (Stored FailedOrReached)
  unfolding dispatch on_verification_failed
  append_failed payload =
      append_last r c b dates identifies run_id limit n verification_failed payload FailedOrReached
        (λ s s' e q. ground (arith, q)) (λ s event_id s' q e. inl (ground arith))

  record_step-Stored :
      (result : VerificationResult) (step_id : String)
      → Gives Within Within (record_step r run_id result step_id) (Stored FailedOrReached)
  unfolding record_step record_verification get string_dec
  record_step-Stored result step_id = elim (Bool-cases (is_failure result.outcome)) [
    | inl failing ↦
        rw failing
          (append_failed (field "reason" (str result.summary) (evidence_payload result no_fields)))
    | inr passing ↦ rw passing (
        Gives-mono (λ w i. i) (λ s w k. (k.0, (k.1.0, inr k.1.1)))
          (append_end run_id refl verification_succeeded _
            (rw (b.get-reread "scope" _, b.value-str "step") refl)))
  ]

  pub record_step_verification-Stored :
      (result : VerificationResult)
      → Gives Within Within (record_step_verification r run_id result) (Stored FailedOrReached)
  unfolding record_step_verification
  record_step_verification-Stored result =
      Safety.loaded r c b dates identifies (Turned r.host run_id limit n) stable run_id (λ s.
        Safety.lifted r c b dates identifies (Turned r.host run_id limit n) stable
          (guard (has_status s verifying) invalid_transition)
          (λ u.
            Safety.lifted r c b dates identifies (Turned r.host run_id limit n) stable
              (needed s.active_step_id) (λ step_id. record_step-Stored result step_id)))

  abbrev I : Log → Type 0
  I = Turned r.host run_id limit n

  pub record_completion-Stored :
      (context : ModelInput) (action : FinalAnswerAction) (result : CompletionResult)
      → context.run_id ≡ run_id
      → Gives Within Within
          (record_completion r context action result)
          (Stored (HasReached limit (n + 1)))
  unfolding record_completion
  record_completion-Stored context action result same =
      Safety.loaded r c b dates identifies I stable context.run_id (λ s.
        Safety.lifted r c b dates identifies I stable
          (guard (has_status s ready || has_status s action_pending) invalid_transition)
          (λ u.
            Safety.lifted r c b dates identifies I stable
              (guard (is_next_turn s context) invalid_transition)
              (λ v.
                Safety.lifted r c b dates identifies I stable
                  (check (string_dec result.answer_sha256 (r.host.sha256 action.answer))
                    invalid_transition)
                  (λ x.
                    Gives-bind
                      (match_pending-Recorded r c b dates identifies I stable context action
                        (has_status s action_pending))
                      (λ y.
                        append_end context.run_id same _ _
                          (completion_type-EndsTurn (is_accepted result.outcome) _))))))
