-- ===== src/Runtime/ModelSafety.antt =====
-- The model's turns and the recording of evidence keep what the runtime's world records
-- (authorized_tool_runtime.py).
use agent_runtime_lab.Prelude.{
  String, Bool, refl, ◌≡◌, arith, true, false, not, ◌&&◌, ◌||◌, string_dec, is_empty,
}
use agent_runtime_lab.Prelude.Int.{ℤ, pos}
use agent_runtime_lab.Result.{
  Result, ok, err, invalid_transition, step_budget_exhausted, value_error, check, guard,
}
use agent_runtime_lab.Json.{IsCanonical, ReadsBack, ReadsDates, int, str, field, no_fields, get}
use agent_runtime_lab.Domain.Event.{
  run_step_budget_exhausted, model_action_requested, model_action_proposed, model_action_failed,
  verification_succeeded, verification_failed,
}
use agent_runtime_lab.Domain.State.{RunState, RunStatus, ready, action_pending, verifying}
use agent_runtime_lab.Domain.Reducer.{next_step_id}
use agent_runtime_lab.Effects.Executor
use agent_runtime_lab.Effects.Store
use agent_runtime_lab.Verification.{VerificationResult}
use agent_runtime_lab.Completion.{CompletionResult, is_accepted}
use agent_runtime_lab.ModelAdapter.{
  ModelInput, ModelInput-discrete, ModelAction, ModelAction-discrete, FinalAnswerAction,
  final_answer, model_input, build_input, tool_call_action,
}
use agent_runtime_lab.Persistence.EventStore.{load}
use agent_runtime_lab.Runtime.{Runtime}
use agent_runtime_lab.Runtime.Events.{RuntimeWorld, lift, on_effects}
use agent_runtime_lab.Runtime.Lookups.{last_event, payload_text, step_observation}
use agent_runtime_lab.Runtime.Evidence.{
  has_status, is_budget_spent, limit_json, is_next_turn, invocation_id_of, is_active_invocation,
  action_payload, invokes, has_event_id, needed, turn_value, is_failure, is_tool_succeeded,
  effect_of, successful, requests_step, found, completion_type,
}
use agent_runtime_lab.Persistence.EventStore.Log.{Log}
use agent_runtime_lab.Runtime.Models.{
  model_input_of, build_model_input, begin_model_action, load_pending_model_action,
  persist_model_action, record_model_action_failure, record_verification, record_step,
  record_step_verification, match_pending, record_completion, load_verification_receipt,
  load_model_tool_recovery, read_action, DurableModelAction,
}
use agent_runtime_lab.Runtime.Outcomes.{
  Gives, Keeps, Gives-bind, Gives-return, Gives-quiet, Gives-mono, Gives-lift, Gives-after_lift,
}
use agent_runtime_lab.Runtime.Recorded.{Identifies, IsRecorded, Stable}
use agent_runtime_lab.Runtime.Appends.{append-Recorded, either_gives}
use agent_runtime_lab.Runtime.Safety

module _ (r : Runtime) (c : IsCanonical r.host) (b : ReadsBack r.host c) (dates : ReadsDates r.host)
    (identifies : Identifies r.host) (I : Log → Type 0) (stable : Stable r.host I) where
  abbrev Rec : RuntimeWorld → Type 0
  Rec = IsRecorded r.host I

  -- The last call of a chain.
  pub failing : {A : Type 0} (x : Result A) → Keeps Rec (lift x)
  failing x = Gives-mono (λ w i. i) (λ v w k. k.0) (Gives-lift {S = Rec} (λ w i. i) x)

  -- The context of a turn of the run is one of that run.
  abbrev pub OfRun : String → ModelInput → RuntimeWorld → Type 0
  OfRun run_id context w = Rec w × (context.run_id ≡ run_id)

  model_input-run_id :
      (run_id step_id : String) (turn_index : ℤ) (status : RunStatus) (text : String)
      {context : ModelInput}
      → model_input r.host run_id step_id turn_index status text ≡ ok context
      → context.run_id ≡ run_id
  unfolding model_input
  model_input-run_id run_id step_id turn_index status text e = ground arith

  model_input_of-Recorded :
      (run_id : String) (s : RunState) (spent : Bool)
      → Gives Rec Rec (model_input_of r run_id s spent) (OfRun run_id)
  unfolding model_input_of build_input
  model_input_of-Recorded run_id s true =
      Safety.appended r c b dates identifies I stable run_id (run_step_budget_exhausted)
        (field "completed_steps" (int (pos s.turn_index)) (limit_json s.max_steps no_fields))
        (λ s'.
          Gives-mono (λ w i. i) (λ v w k. absurd (ground (arith, k.1)))
            (Gives-lift {S = Rec} (λ w i. i) (err step_budget_exhausted)))
  model_input_of-Recorded run_id s false =
      Safety.queried r c b dates identifies I stable (λ store. load r.host store run_id)
        (λ events.
          Gives-mono (λ w i. i)
            (λ v w k.
              (k.0, model_input-run_id run_id (next_step_id s) (pos s.turn_index) s.status _ k.1))
            (Gives-lift {S = Rec} (λ w i. i)
              (build_input r.host run_id (next_step_id s) (pos s.turn_index) s.status
                (step_observation events))))

  pub build_model_input-Recorded :
      (run_id : String) → Gives Rec Rec (build_model_input r run_id) (OfRun run_id)
  unfolding build_model_input
  build_model_input-Recorded run_id = Safety.loaded r c b dates identifies I stable run_id (λ s.
      Safety.lifted r c b dates identifies I stable (guard (has_status s ready) invalid_transition)
        (λ u. model_input_of-Recorded run_id s (is_budget_spent s s.max_steps)))

  pub begin_model_action-Recorded :
      (context : ModelInput) → Keeps Rec (begin_model_action r context)
  unfolding begin_model_action
  begin_model_action-Recorded context =
      Safety.loaded r c b dates identifies I stable context.run_id (λ s.
        Safety.lifted r c b dates identifies I stable
          (guard (has_status s ready && is_next_turn s context) invalid_transition)
          (λ u.
            Safety.appended r c b dates identifies I stable context.run_id (model_action_requested)
              (field "invocation_id" (str (invocation_id_of context)) (
                field "observation_json" (str context.observation_json) (
                  field "step_id" (str context.step_id)
                    (field "turn_index" (int (pos context.turn_index)) no_fields))))
              (λ s'. Gives-return (invocation_id_of context))))

  abbrev pub PendingOf : String → DurableModelAction → RuntimeWorld → Type 0
  PendingOf run_id pending = OfRun run_id pending.context

  pub load_pending_model_action-Recorded :
      (run_id : String) → Gives Rec Rec (load_pending_model_action r run_id) (PendingOf run_id)
  unfolding load_pending_model_action
  load_pending_model_action-Recorded run_id =
      Safety.loaded r c b dates identifies I stable run_id (λ s.
        Safety.lifted r c b dates identifies I stable
          (guard (has_status s action_pending) invalid_transition)
          (λ u.
            Safety.lifted r c b dates identifies I stable (needed s.active_model_action_event_id)
              (λ event_id.
                Safety.lifted r c b dates identifies I stable (needed s.active_model_invocation_id)
                  (λ invocation_id.
                    Safety.lifted r c b dates identifies I stable (needed s.active_step_id)
                      (λ active.
                        Safety.queried r c b dates identifies I stable
                          (λ store. load r.host store run_id)
                          (λ events.
                            Safety.lifted r c b dates identifies I stable
                              (needed (last_event (invokes invocation_id) events))
                              (λ requested.
                                Safety.lifted r c b dates identifies I stable
                                  (needed (last_event (has_event_id event_id) events))
                                  (λ proposed.
                                    Safety.lifted r c b dates identifies I stable
                                      (payload_text requested.payload "step_id")
                                      (λ step_id.
                                        Safety.lifted r c b dates identifies I stable
                                          (payload_text requested.payload "observation_json")
                                          (λ observation_json.
                                            Safety.lifted r c b dates identifies I stable
                                              (turn_value (get "turn_index" requested.payload))
                                              (λ turn_index.
                                                Gives-after_lift (λ w i. i)
                                                  (model_input r.host run_id step_id turn_index
                                                    ready observation_json)
                                                  (λ context e.
                                                    Safety.lifted r c b dates identifies I stable
                                                      (payload_text proposed.payload "action_type")
                                                      (λ action_type.
                                                        Safety.lifted r c b dates identifies I
                                                          stable
                                                          (read_action r proposed.payload
                                                            action_type)
                                                          (λ action.
                                                            Gives-mono
                                                            (λ w i. (
                                                            i,
                                                            model_input-run_id run_id step_id
                                                            turn_index ready observation_json e,
                                                            ))
                                                            (λ v w k. k)
                                                            (Gives-return _)))))))))))))))

  pub persist_model_action-Recorded :
      (context : ModelInput) (invocation_id : String) (action : ModelAction)
      → Keeps Rec (persist_model_action r context invocation_id action)
  unfolding persist_model_action
  persist_model_action-Recorded context invocation_id action =
      Safety.loaded r c b dates identifies I stable context.run_id (λ s.
        Safety.lifted r c b dates identifies I stable
          (guard (is_active_invocation s context invocation_id) invalid_transition)
          (λ u.
            Safety.appended r c b dates identifies I stable context.run_id (model_action_proposed)
              (action_payload context invocation_id action)
              (λ next.
                Safety.lifted r c b dates identifies I stable
                  (needed next.active_model_action_event_id)
                  (λ event_id.
                    Gives-mono (λ w i. i) (λ v w k. k.0)
                      (load_pending_model_action-Recorded context.run_id)))))

  pub record_model_action_failure-Recorded :
      (run_id reason : String) → Keeps Rec (record_model_action_failure r run_id reason)
  unfolding record_model_action_failure
  record_model_action_failure-Recorded run_id reason =
      Safety.lifted r c b dates identifies I stable (guard (not (is_empty reason)) value_error)
        (λ u. append-Recorded r c b dates I stable run_id model_action_failed _)

  pub record_verification-Recorded :
      (run_id : String) (result : VerificationResult)
      → Keeps Rec (record_verification r run_id result)
  unfolding record_verification
  record_verification-Recorded run_id result =
      either_gives (is_failure result.outcome)
        (append-Recorded r c b dates I stable run_id verification_failed _)
        (append-Recorded r c b dates I stable run_id verification_succeeded _)

  record_step-Recorded :
      (run_id : String) (result : VerificationResult) (step_id : String)
      → Keeps Rec (record_step r run_id result step_id)
  unfolding record_step
  record_step-Recorded run_id result step_id =
      either_gives (is_failure result.outcome) (record_verification-Recorded run_id result)
        (append-Recorded r c b dates I stable run_id verification_succeeded _)

  pub record_step_verification-Recorded :
      (run_id : String) (result : VerificationResult)
      → Keeps Rec (record_step_verification r run_id result)
  unfolding record_step_verification
  record_step_verification-Recorded run_id result =
      Safety.loaded r c b dates identifies I stable run_id (λ s.
        Safety.lifted r c b dates identifies I stable
          (guard (has_status s verifying) invalid_transition)
          (λ u.
            Safety.lifted r c b dates identifies I stable (needed s.active_step_id)
              (λ step_id. record_step-Recorded run_id result step_id)))

  pub match_pending-Recorded :
      (context : ModelInput) (action : FinalAnswerAction) (pending : Bool)
      → Keeps Rec (match_pending r context action pending)
  unfolding match_pending
  match_pending-Recorded context action false = Gives-return tt
  match_pending-Recorded context action true =
      Gives-bind
        (Gives-mono (λ w i. i) (λ v w k. k.0) (load_pending_model_action-Recorded context.run_id))
        (λ pending.
          Safety.lifted r c b dates identifies I stable
            (check (ModelInput-discrete pending.context context) invalid_transition)
            (λ u. failing (
              check (ModelAction-discrete pending.action (final_answer action))
                invalid_transition)))

  pub record_completion-Recorded :
      (context : ModelInput) (action : FinalAnswerAction) (result : CompletionResult)
      → Keeps Rec (record_completion r context action result)
  unfolding record_completion
  record_completion-Recorded context action result =
      Safety.loaded r c b dates identifies I stable context.run_id (λ s.
        Safety.lifted r c b dates identifies I stable
          (guard (has_status s ready || has_status s action_pending) invalid_transition)
          (λ u.
            Safety.lifted r c b dates identifies I stable
              (guard (is_next_turn s context) invalid_transition)
              (λ v.
                Safety.lifted r c b dates identifies I stable
                  (check (string_dec result.answer_sha256 (r.host.sha256 action.answer))
                    invalid_transition)
                  (λ x.
                    Gives-bind (match_pending-Recorded context action (has_status s action_pending))
                      (λ y.
                        append-Recorded r c b dates I stable context.run_id
                          (completion_type (is_accepted result.outcome)) _)))))

  pub load_verification_receipt-Recorded :
      (run_id : String) → Keeps Rec (load_verification_receipt r run_id)
  unfolding load_verification_receipt
  load_verification_receipt-Recorded run_id =
      Safety.loaded r c b dates identifies I stable run_id (λ s.
        Safety.lifted r c b dates identifies I stable
          (guard (has_status s verifying) invalid_transition)
          (λ u.
            Safety.queried r c b dates identifies I stable (λ store. load r.host store run_id)
              (λ events.
                Safety.lifted r c b dates identifies I stable
                  (effect_of (last_event (λ e. is_tool_succeeded e.event_type) events))
                  (λ effect_id.
                    Gives-bind
                      {m = on_effects
                        (Executor.query (λ store. Store.load_receipt r.host store effect_id))}
                      (Gives-quiet {S = Rec} (λ w i. i) (λ w. refl))
                      (λ receipt. failing (successful receipt))))))

  pub load_model_tool_recovery-Recorded :
      (run_id : String) → Keeps Rec (load_model_tool_recovery r run_id)
  unfolding load_model_tool_recovery
  load_model_tool_recovery-Recorded run_id =
      Safety.loaded r c b dates identifies I stable run_id (λ s.
        Safety.lifted r c b dates identifies I stable
          (guard (has_status s verifying) invalid_transition)
          (λ u. Safety.lifted r c b dates identifies I stable (needed s.active_step_id) (λ step_id.
            Safety.queried r c b dates identifies I stable (λ store. load r.host store run_id)
              (λ events.
                Safety.lifted r c b dates identifies I stable
                  (found (last_event (requests_step step_id) events))
                  (λ e.
                    Safety.lifted r c b dates identifies I stable
                      (build_input r.host run_id step_id (pos s.turn_index) ready
                        (step_observation events))
                      (λ context.
                        Safety.lifted r c b dates identifies I stable
                          (payload_text e.payload "tool_call_id")
                          (λ tool_call_id.
                            Safety.lifted r c b dates identifies I stable
                              (payload_text e.payload "tool_name")
                              (λ tool_name.
                                Safety.lifted r c b dates identifies I stable
                                  (payload_text e.payload "arguments_json")
                                  (λ arguments_json.
                                    Safety.lifted r c b dates identifies I stable
                                      (tool_call_action r.host tool_call_id tool_name
                                        arguments_json)
                                      (λ action.
                                        Gives-bind (load_verification_receipt-Recorded run_id)
                                          (λ receipt. Gives-return _)))))))))))
