-- ===== src/Effects/Recovery.antt =====
-- src/agent_runtime_lab/tool_recovery.py: the recovery decision that the stored facts give.
use agent_runtime_lab.Prelude.{String, Bool, Option, none, some}
use agent_runtime_lab.Result.{Result, err, missing_tool_intent, ◌>>=◌}
use agent_runtime_lab.Json.{Host}
use agent_runtime_lab.Effects.{ToolIntent, RecoveryDecision, decide_recovery}
use agent_runtime_lab.Effects.Store
use agent_runtime_lab.Effects.Store.{EffectStore}

abbrev decide_stored :
    Host → EffectStore → String → Bool → Option ToolIntent → Result RecoveryDecision
decide_stored h store effect_id idempotent none = err missing_tool_intent
decide_stored h store effect_id idempotent (some intent) = do
  receipt ← Store.load_receipt h store effect_id
  decide_recovery intent receipt idempotent

-- `inspect_recovery(store, effect_id, retry_is_idempotent)`
unfoldable pub inspect_recovery : Host → EffectStore → String → Bool → Result RecoveryDecision
inspect_recovery h store effect_id idempotent = do
  intent ← Store.load_intent h store effect_id
  decide_stored h store effect_id idempotent intent
