-- ===== src/Effects/Executor.antt =====
-- src/agent_runtime_lab/durable_tool_executor.py: intent and receipt around one tool invocation.
-- The process may stop at each checkpoint and inside the tool; what was written before stays.
pub mod Calls
pub mod AtMostOnce
pub mod Durable
use agent_runtime_lab.Prelude.{
  String, Bool, true, false, Option, none, some, List, [], ◌∷◌, ◌++◌, if◌then◌else◌,
}
use agent_runtime_lab.Result.{Result, ok, err, Error, unsafe_tool_retry}
use agent_runtime_lab.Json.{Json, str, Fields, field, no_fields, Host}
use agent_runtime_lab.Registry.{ToolDefinition, ToolRegistry, resolve}
use agent_runtime_lab.Effects.{
  ToolIntent, ToolReceipt, ToolOutcome, succeeded, failed, timed_out, RecoveryDecision, completed,
  safe_retry, unknown, intent_arguments, build_receipt, decide_recovery,
}
use agent_runtime_lab.Effects.Store
use agent_runtime_lab.Effects.Store.{EffectStore}

pub data ExecutionCheckpoint : Type 0 where
  after_intent_persisted after_tool_invoked after_receipt_persisted : ExecutionCheckpoint

-- One call of `runner.invoke`.
pub record Call : Type 0 where
  pub tool_name : String
  pub arguments : Fields
  pub idempotency_key : String

-- How a call ends: with an output, with ToolTimeoutError or another Exception (the name of its class
-- and its message), or by stopping the process.
pub data RunnerResult : Type 0 where
  returned : Fields → RunnerResult
  deadline : String → String → Json → RunnerResult
  raising : String → String → RunnerResult
  interrupted : RunnerResult

-- The runner is not part of this code: its answer may depend on all earlier calls.
abbrev pub ToolRunner : Type 0
ToolRunner = List Call → Call → RunnerResult

-- `true` where the failure injector stops the process.
abbrev pub FailureInjector : Type 0
FailureInjector = ExecutionCheckpoint → ToolIntent → Bool

-- What outlives the process: the tables, and the calls that the tool has seen.
pub record World : Type 0 where
  pub store : EffectStore
  pub calls : List Call

pub data Outcome {ℓ} (A : Type ℓ) : Type ℓ where
  done : A → Outcome A
  raised : Error → Outcome A
  stopped : Outcome A

abbrev pub Exec : Type 0 → Type 0
Exec A = World → Outcome A × World

abbrev pub continue : {A B : Type 0} → Outcome A → (A → Exec B) → Exec B
continue (done a) f w = f a w
continue (raised e) f w = (raised e, w)
continue stopped f w = (stopped, w)

infixl 5 ◌>>=◌ ◌>>◌
abbrev pub ◌>>=◌ : {A B : Type 0} → Exec A → (A → Exec B) → Exec B
◌>>=◌ m f w = let (r, w') = m w in continue r f w'

abbrev pub ◌>>◌ : {A B : Type 0} → Exec A → Exec B → Exec B
m >> k = m >>= λ _. k

abbrev pub pure : {A : Type 0} → A → Exec A
pure a w = (done a, w)

abbrev pub raise : {A : Type 0} → Error → Exec A
raise e w = (raised e, w)

abbrev pub of_result : {A : Type 0} → Result A → Outcome A
of_result (ok a) = done a
of_result (err e) = raised e

abbrev pub lift : {A : Type 0} → Result A → Exec A
lift r w = (of_result r, w)

-- A query of the store.
abbrev pub query : {A : Type 0} → (EffectStore → Result A) → Exec A
query f w = (of_result (f w.store), w)

abbrev commit : World → Result EffectStore → Outcome (Unit {0}) × World
commit w (ok store) = (done tt, record w { store = store })
commit w (err e) = (raised e, w)

-- A transaction on the store: rolled back where it raises.
abbrev pub transact : (EffectStore → Result EffectStore) → Exec (Unit {0})
transact f w = commit w (f w.store)

-- The outcome that a finished call is recorded with.
unfoldable pub receipt_of : Host → ToolIntent → RunnerResult → Outcome ToolReceipt
receipt_of h intent (returned output) =
    of_result (build_receipt h intent.effect_id succeeded output)
receipt_of h intent (deadline error_type message timeout_seconds) = of_result (
    build_receipt h intent.effect_id timed_out (
      field "error_type" (str error_type)
        (field "message" (str message) (field "timeout_seconds" timeout_seconds no_fields))))
receipt_of h intent (raising error_type message) = of_result (
    build_receipt h intent.effect_id failed
      (field "error_type" (str error_type) (field "message" (str message) no_fields)))
receipt_of h intent interrupted = stopped

module _ (h : Host) (registry : ToolRegistry) (runner : ToolRunner) (inject : FailureInjector) where
  -- `_reach_checkpoint`
  unfoldable pub reach_checkpoint : ExecutionCheckpoint → ToolIntent → Exec (Unit {0})
  reach_checkpoint checkpoint intent w =
      if inject checkpoint intent then (stopped, w) else (done tt, w)

  -- `runner.invoke(...)` inside the `try` of `_invoke_and_record`
  unfoldable pub invoke : ToolIntent → Exec ToolReceipt
  invoke intent w =
      let call : Call = record {
        tool_name = intent.tool_name;
        arguments = intent_arguments h intent;
        idempotency_key = intent.effect_id;
      } in
      (receipt_of h intent (runner w.calls call), record w { calls = w.calls ++ call ∷ [] })

  unfoldable pub record_receipt : ToolIntent → ToolReceipt → Exec ToolReceipt
  record_receipt intent receipt = do
    reach_checkpoint after_tool_invoked intent
    transact (λ store. Store.save_receipt h store receipt)
    reach_checkpoint after_receipt_persisted intent
    pure receipt

  unfoldable pub invoke_and_record : ToolIntent → Exec ToolReceipt
  invoke_and_record intent = do receipt ← invoke intent; record_receipt intent receipt

  abbrev retry_or_refuse : ToolIntent → RecoveryDecision → Exec ToolReceipt
  retry_or_refuse intent unknown = raise unsafe_tool_retry
  retry_or_refuse intent _ = invoke_and_record intent

  -- The receipt of a redelivered effect: the stored one, or that of a safe retry.
  unfoldable pub resolve_redelivery :
      ToolDefinition → ToolIntent → ToolIntent → Option ToolReceipt → Exec ToolReceipt
  resolve_redelivery definition intent persisted (some receipt) = pure receipt
  resolve_redelivery definition intent persisted none = do
    decision ← lift (decide_recovery persisted none definition.retry_is_idempotent)
    retry_or_refuse intent decision

  unfoldable pub execute_loaded : ToolDefinition → ToolIntent → Option ToolIntent → Exec ToolReceipt
  execute_loaded definition intent none = do
    transact (λ store. Store.save_intent h store intent)
    reach_checkpoint after_intent_persisted intent
    invoke_and_record intent
  execute_loaded definition intent (some persisted) = do
    transact (λ store. Store.save_intent h store intent)
    receipt ← query (λ store. Store.load_receipt h store intent.effect_id)
    resolve_redelivery definition intent persisted receipt

  -- `execute(intent=intent)`
  unfoldable pub execute : ToolIntent → Exec ToolReceipt
  execute intent = do
    definition ← lift (resolve registry intent.tool_name)
    persisted ← query (λ store. Store.load_intent h store intent.effect_id)
    execute_loaded definition intent persisted
