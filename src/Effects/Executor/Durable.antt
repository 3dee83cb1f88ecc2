-- ===== src/Effects/Executor/Durable.antt =====
-- What a finished execution leaves behind, and its redelivery (durable_tool_executor.py).
use agent_runtime_lab.Prelude.{
  String, ◌≡◌, refl, inl, inr, Option, none, some, Bool-cases, ◌∙◌, [], ◌∷◌, ◌++◌, arith,
}
use agent_runtime_lab.Result.{ok, Result-cases}
use agent_runtime_lab.Json.{Host, Fields, dict, IsCanonical}
use agent_runtime_lab.Registry.{ToolDefinition, ToolRegistry, resolve}
use agent_runtime_lab.Effects.{
  ToolIntent, ToolReceipt, ToolOutcome, tool_receipt, build_receipt, IsIntent, IsReceipt,
  tool_receipt-IsReceipt, decide_recovery,
}
use agent_runtime_lab.Effects.Store.{
  EffectStore, load_intent, save_intent, save_receipt, load_receipt,
}
use agent_runtime_lab.Effects.Store.Laws.{
  load_intent-save_intent, load_receipt-save_receipt, save_intent_again,
}
use agent_runtime_lab.Effects.Executor.{
  ToolRunner, FailureInjector, World, Outcome, done, raised, stopped, continue, of_result,
  receipt_of, RunnerResult, returned, deadline, raising, interrupted, after_intent_persisted,
  reach_checkpoint, invoke, record_receipt, invoke_and_record, resolve_redelivery, execute_loaded,
  execute,
}
use agent_runtime_lab.Effects.Executor.Calls.{call_of, save_receipt-intents}

-- The intent and its receipt are stored.
abbrev pub IsRecorded : Host → EffectStore → ToolIntent → ToolReceipt → Type 0
IsRecorded h store i r =
    (load_intent h store i.effect_id ≡ ok (some i))
    × (load_receipt h store i.effect_id ≡ ok (some r))

module _ (h : Host) (c : IsCanonical h) where
  tool_receipt-effect_id :
      (effect_id : String) (outcome : ToolOutcome) (text : String) {r : ToolReceipt}
      → tool_receipt h effect_id outcome text ≡ ok r
      → r.effect_id ≡ effect_id
  unfolding tool_receipt
  tool_receipt-effect_id effect_id outcome text e = ground arith

  build_receipt-IsReceipt :
      (effect_id : String) (outcome : ToolOutcome) (output : Fields) (r : ToolReceipt)
      → of_result (build_receipt h effect_id outcome output) ≡ done r
      → IsReceipt h r × (r.effect_id ≡ effect_id)
  unfolding build_receipt
  build_receipt-IsReceipt effect_id outcome output r e =
      let text = h.dumps (dict output) in
      let built : tool_receipt h effect_id outcome text ≡ ok r = ground arith in
      (
        tool_receipt-IsReceipt h c effect_id outcome text built,
        tool_receipt-effect_id effect_id outcome text built,
      )

  receipt_of-IsReceipt :
      (i : ToolIntent) (answer : RunnerResult) (r : ToolReceipt)
      → receipt_of h i answer ≡ done r
      → IsReceipt h r × (r.effect_id ≡ i.effect_id)
  unfolding receipt_of
  receipt_of-IsReceipt i interrupted r e = absurd (ground arith)
  receipt_of-IsReceipt i (returned output) r e = build_receipt-IsReceipt i.effect_id _ output r e
  receipt_of-IsReceipt i (deadline error_type message t) r e =
      build_receipt-IsReceipt i.effect_id _ _ r e
  receipt_of-IsReceipt i (raising error_type message) r e =
      build_receipt-IsReceipt i.effect_id _ _ r e

module _ (h : Host) (registry : ToolRegistry) (runner : ToolRunner) (inject : FailureInjector) where
  record_receipt-done :
      (i : ToolIntent) (r r' : ToolReceipt) (w w' : World)
      → record_receipt h registry runner inject i r w ≡ (done r', w')
      → (r' ≡ r) × (save_receipt h w.store r ≡ ok w'.store)
  unfolding record_receipt reach_checkpoint
  record_receipt-done i r r' w w' e = elim (Result-cases (save_receipt h w.store r)) [
    | inl (store', saved) ↦ ground arith
    | inr (x, refused) ↦ absurd (ground arith)
  ]

  invoke_and_record-done :
      (c : IsCanonical h) (i : ToolIntent) (r : ToolReceipt) (w w' : World)
      → invoke_and_record h registry runner inject i w ≡ (done r, w')
      → (w'.store.tool_intents ≡ w.store.tool_intents)
        × (load_receipt h w'.store i.effect_id ≡ ok (some r))
  unfolding invoke_and_record invoke
  invoke_and_record-done c i r w w' e =
      ends (receipt_of h i (runner w.calls (call_of h registry runner inject i))) refl e
    where
      w₁ : World
      w₁ = record w { calls = w.calls ++ call_of h registry runner inject i ∷ [] }

      ends :
          (o : Outcome ToolReceipt)
          → receipt_of h i (runner w.calls (call_of h registry runner inject i)) ≡ o
          → continue o (record_receipt h registry runner inject i) w₁ ≡ (done r, w')
          → (w'.store.tool_intents ≡ w.store.tool_intents)
            × (load_receipt h w'.store i.effect_id ≡ ok (some r))
      ends (done r₁) from e₁ =
          let (valid, id) = receipt_of-IsReceipt h c i _ r₁ from in
          let (same, saved) = record_receipt-done i r₁ r w₁ w' e₁ in
          (
            save_receipt-intents h w.store r₁ saved,
            rw (same, ← id) (load_receipt-save_receipt h w.store r₁ valid saved),
          )
      ends (raised x) from e₁ = absurd (ground arith)
      ends stopped from e₁ = absurd (ground arith)

load_intent-tables :
    (h : Host) (s t : EffectStore) (effect_id : String)
    → s.tool_intents ≡ t.tool_intents
    → load_intent h s effect_id ≡ load_intent h t effect_id
unfolding load_intent
load_intent-tables h s t effect_id e = rw e

module _ (h : Host) (registry : ToolRegistry) (runner : ToolRunner) (inject : FailureInjector) where
  module _ (c : IsCanonical h) (i : ToolIntent) (v : IsIntent h i) where
    -- A call that follows a saved intent.
    invoked-IsRecorded :
        (r : ToolReceipt) (w w' : World)
        → load_intent h w.store i.effect_id ≡ ok (some i)
        → invoke_and_record h registry runner inject i w ≡ (done r, w')
        → IsRecorded h w'.store i r
    invoked-IsRecorded r w w' saved e =
        let (kept, recorded) = invoke_and_record-done h registry runner inject c i r w w' e in
        (load_intent-tables h w'.store w.store i.effect_id kept ∙ saved, recorded)

    redelivered-IsRecorded :
        (d : ToolDefinition) (persisted : ToolIntent) (o : Option ToolReceipt) (r : ToolReceipt)
        (w w' : World)
        → load_intent h w.store i.effect_id ≡ ok (some i)
        → load_receipt h w.store i.effect_id ≡ ok o
        → resolve_redelivery h registry runner inject d i persisted o w ≡ (done r, w')
        → IsRecorded h w'.store i r
    unfolding resolve_redelivery decide_recovery
    redelivered-IsRecorded d persisted (some r₀) r w w' saved found e = ground arith
    redelivered-IsRecorded d persisted none r w w' saved found e =
        elim (Bool-cases d.retry_is_idempotent) [
          | inl retry ↦ invoked-IsRecorded r w w' saved (ground arith)
          | inr refused ↦ absurd (ground arith)
        ]

    execute_loaded-IsRecorded :
        (d : ToolDefinition) (persisted : Option ToolIntent) (r : ToolReceipt) (w w' : World)
        → execute_loaded h registry runner inject d i persisted w ≡ (done r, w')
        → IsRecorded h w'.store i r
    unfolding execute_loaded reach_checkpoint
    execute_loaded-IsRecorded d none r w w' e = elim (Result-cases (save_intent h w.store i)) [
      | inr (x, refused) ↦ absurd (ground arith)
      | inl (store', saved) ↦
          let stored = load_intent-save_intent h w.store i v saved in
          elim (Bool-cases (inject after_intent_persisted i)) [
            | inl stop ↦ absurd (ground arith)
            | inr on ↦ invoked-IsRecorded r (record w { store = store' }) w' stored (ground arith)
          ]
    ]
    execute_loaded-IsRecorded d (some persisted) r w w' e =
        elim (Result-cases (save_intent h w.store i)) [
          | inr (x, refused) ↦ absurd (ground arith)
          | inl (store', saved) ↦
              let stored = load_intent-save_intent h w.store i v saved in
              elim (Result-cases (load_receipt h store' i.effect_id)) [
                | inr (x, refused) ↦ absurd (ground arith)
                | inl (o, found) ↦
                    redelivered-IsRecorded d persisted o r (record w { store = store' }) w' stored
                      found (ground arith)
              ]
        ]

    -- Where JSON text is canonical and the intent is a constructed one, an execution that returns a
    -- receipt has stored the intent and exactly that receipt, whatever the store held before.
    pub execute-IsRecorded :
        (r : ToolReceipt) (w w' : World)
        → execute h registry runner inject i w ≡ (done r, w')
        → IsRecorded h w'.store i r
    unfolding execute
    execute-IsRecorded r w w' e = elim (Result-cases (resolve registry i.tool_name)) [
      | inr (x, refused) ↦ absurd (ground arith)
      | inl (d, found) ↦ elim (Result-cases (load_intent h w.store i.effect_id)) [
        | inr (x, refused) ↦ absurd (ground arith)
        | inl (persisted, loaded) ↦ execute_loaded-IsRecorded d persisted r w w' (ground arith)
      ]
    ]

  -- A recorded effect of a registered tool is not run again: whatever the tool would answer now and
  -- wherever the process might stop, an execution returns the stored receipt, calls no tool and
  -- changes nothing.
  pub execute_recorded :
      (i : ToolIntent) (d : ToolDefinition) (r : ToolReceipt) (w : World)
      → resolve registry i.tool_name ≡ ok d
      → IsRecorded h w.store i r
      → execute h registry runner inject i w ≡ (done r, w)
  unfolding execute execute_loaded resolve_redelivery
  execute_recorded i d r w found (stored, recorded) =
      ground (arith, save_intent_again h w.store i stored)
