-- ===== src/Runtime/Permitted.antt =====
-- No tool is called without a permit in the log (authorized_tool_runtime.py).
use agent_runtime_lab.Prelude.{
  ℕ, String, ◌≡◌, ◌⊎◌, refl, sym, ap, ◌∙◌, subst, inl, inr, Bool, true, false, Option, [], ◌∷◌,
  ◌++◌, All, All-append, arith,
}
use agent_runtime_lab.Result.{ok}
use agent_runtime_lab.Json.{IsCanonical, ReadsBack, ReadsDates, Fields}
use agent_runtime_lab.Domain.Event.{tool_started}
use agent_runtime_lab.Effects.{
  ToolIntent, derive_effect_id, build_intent, tool_intent, intent_identity,
}
use agent_runtime_lab.Effects.Executor.{World, Call, execute}
use agent_runtime_lab.Effects.Executor.Calls.{execute-Ran}
use agent_runtime_lab.Ownership.Authorization.{ToolRequest, arguments_of, AuthorizationDecision}
use agent_runtime_lab.Ownership.Gates.{GateEvaluation}
use agent_runtime_lab.Runtime.{Runtime}
use agent_runtime_lab.Runtime.Events.{RuntimeWorld, append, lift}
use agent_runtime_lab.Runtime.Outcomes.{Gives, Gives-bind, Gives-lift, Gives-return, Ends-quiet}
use agent_runtime_lab.Persistence.EventStore.Log.{Log}
use agent_runtime_lab.Runtime.Recorded.{IsRecorded, HasPermit, Stable}
use agent_runtime_lab.Runtime.Appends.{Permitted, append-Recorded, append-Permitted}
use agent_runtime_lab.Runtime.Payloads.{fields_of, settled_type}
use agent_runtime_lab.Runtime.Tools.{
  intent_of, execute_intent, run_effect, start_tool, execute_tool,
}

module _ (r : Runtime) (I : Log → Type 0) where
  abbrev executed : ToolIntent → World → World
  executed i w =
      (execute r.host r.executor.registry r.executor.runner r.executor.failure_injector i w).1

  execute_calls :
      (i : ToolIntent) (w : World)
      → ((executed i w).calls ≡ w.calls)
        ⊎ ((call : Call) × (call.idempotency_key ≡ i.effect_id)
            × ((executed i w).calls ≡ w.calls ++ call ∷ []))
  execute_calls i w =
      elim (execute-Ran r.host r.executor.registry r.executor.runner r.executor.failure_injector i
        w) [
          | inl same ↦ inl (ap (λ (u : World). u.calls) same)
          | inr (d, found, inl (quiet, rest)) ↦ inl quiet
          | inr (d, found, inr (inl (called, fresh, added))) ↦ inr (_, refl, called)
          | inr (d, found, inr (inr (called, idempotent, kept))) ↦ inr (_, refl, called)
        ]

  build_intent-effect :
      (run_id tool_call_id tool_name : String) (arguments : Fields) (i : ToolIntent)
      → build_intent r.host run_id tool_call_id tool_name arguments ≡ ok i
      → derive_effect_id r.host run_id tool_call_id ≡ ok i.effect_id
  unfolding build_intent tool_intent intent_identity
  build_intent-effect run_id tool_call_id tool_name arguments i e = ground arith

  effect-Recorded :
      (run_id call : String) (i : ToolIntent) (w : RuntimeWorld)
      → derive_effect_id r.host run_id call ≡ ok i.effect_id
      → Permitted r I run_id call w
      → IsRecorded r.host I (record w { effects = executed i w.effects })
  effect-Recorded run_id call i w e k =
      let permitted : All (HasPermit r.host k.0.log) (executed i w.effects).calls =
        elim (execute_calls i w.effects) [
          | inl quiet ↦ subst (All (HasPermit r.host k.0.log)) (sym quiet) k.0.permitted
          | inr (made, key, called) ↦ subst (All (HasPermit r.host k.0.log)) (sym called) (
              All-append (HasPermit r.host k.0.log) w.effects.calls made k.0.permitted (record {
                run_id = run_id;
                tool_call_id = call;
                effect = e ∙ ap ok (sym key);
                permit = k.1;
              }))
        ] in
      record {
        log = k.0.log;
        represents = record { rows = k.0.represents.rows; valid = k.0.represents.valid };
        snapshots = k.0.snapshots;
        permitted = permitted;
        kept = k.0.kept;
      }

  execute_intent-Recorded :
      (request : ToolRequest) (i : ToolIntent)
      → Gives
          (λ w. Permitted r I request.run_id request.tool_call_id w × (intent_of r request ≡ ok i))
          (IsRecorded r.host I)
          (execute_intent r i)
          (λ receipt. IsRecorded r.host I)
  execute_intent-Recorded request i = record {
    ends = λ w k.
        Ends-quiet {S = IsRecorded r.host I} {P = IsRecorded r.host I} (λ u p. p)
          (execute_intent r i w)
          (effect-Recorded request.run_id request.tool_call_id i w
            (build_intent-effect request.run_id request.tool_call_id request.tool_name
              (fields_of (arguments_of (r.host.loads request.arguments_json))) i k.1)
            k.0);
  }

  run_effect-Recorded :
      (request : ToolRequest)
      → Gives
          (Permitted r I request.run_id request.tool_call_id)
          (IsRecorded r.host I)
          (run_effect r request)
          (λ receipt. IsRecorded r.host I)
  unfolding run_effect
  run_effect-Recorded request =
      Gives-bind {m = lift (intent_of r request)} {f = execute_intent r}
        (Gives-lift {S = Permitted r I request.run_id request.tool_call_id} (λ w k. k.0)
          (intent_of r request))
        (execute_intent-Recorded request)

  module _ (c : IsCanonical r.host) (b : ReadsBack r.host c) (dates : ReadsDates r.host)
      (stable : Stable r.host I) where
    start_tool-Permitted :
        (request : ToolRequest) (append_started : Bool)
        → Gives
            (Permitted r I request.run_id request.tool_call_id)
            (IsRecorded r.host I)
            (start_tool r request append_started)
            (λ u. Permitted r I request.run_id request.tool_call_id)
    unfolding start_tool
    start_tool-Permitted request false = Gives-return tt
    start_tool-Permitted request true =
        Gives-bind {m = append r request.run_id tool_started _}
          (append-Permitted r c b dates I stable request.run_id request.tool_call_id request.run_id
            tool_started _)
          (λ s. Gives-return tt)

    -- Executing a call that the log permits keeps that every call has a permit.
    pub execute_tool-Recorded :
        (request : ToolRequest) (authorization : Option AuthorizationDecision)
        (evaluation : Option GateEvaluation) (attempt : Option ℕ) (append_started : Bool)
        → Gives
            (Permitted r I request.run_id request.tool_call_id)
            (IsRecorded r.host I)
            (execute_tool r request authorization evaluation attempt append_started)
            (λ result. IsRecorded r.host I)
    unfolding execute_tool
    execute_tool-Recorded request authorization evaluation attempt append_started =
        Gives-bind (start_tool-Permitted request append_started) (λ u.
          Gives-bind (run_effect-Recorded request) (λ receipt.
            Gives-bind
              (append-Recorded r c b dates I stable request.run_id (settled_type receipt.outcome) _)
              (λ s. Gives-return _)))
