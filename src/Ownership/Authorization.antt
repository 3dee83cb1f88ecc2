-- ===== src/Ownership/Authorization.antt =====
-- src/agent_runtime_lab/ownership/authorization.py: the check of a concrete tool request at
-- execution time.
pub mod Decisions
pub mod Paths
use Prim.Native.Char.{Char, code}
use agent_runtime_lab.Prelude.{
  String, Bool, true, false, not, ◌||◌, ◌&&◌, ◌==◌, Option, none, some, List, [], ◌∷◌, ◌<>◌,
  is_empty, holds, if◌then◌else◌,
}
use agent_runtime_lab.Result.{Result, ok, err, event_validation, ◌>>=◌, ◌>>◌, guard}
use agent_runtime_lab.Json.{Json, str, dict, Fields, get, Host}
use agent_runtime_lab.Registry.{ToolDefinition, ToolRegistry, resolve}
use agent_runtime_lab.Ownership.Risk.{PlanStep, RiskRule, portable}
use agent_runtime_lab.Ownership.Policy.{
  OwnershipMode, auto, pair, user_gate, mode_value, OwnershipPolicy, OwnershipContext,
  OwnershipDecision, classify_step,
}

pub record ToolRequest : Type 0 where
  pub run_id : String
  pub step_id : String
  pub tool_call_id : String
  pub tool_name : String
  pub arguments_json : String
  pub model_action_event_id : Option String

abbrev required_field : String → Result (Unit {0})
required_field value = guard (not (is_empty value)) event_validation

abbrev optional_field : Option String → Result (Unit {0})
optional_field none = ok tt
optional_field (some value) = required_field value

abbrev arguments_object : Option Json → Result Fields
arguments_object (some (dict arguments)) = ok arguments
arguments_object _ = err event_validation

abbrev pub arguments_of : Option Json → Option Fields
arguments_of (some (dict arguments)) = some arguments
arguments_of _ = none

-- `ToolRequest(...)`, with the checks of `__post_init__`
unfoldable pub tool_request :
    Host → String → String → String → String → String → Option String → Result ToolRequest
tool_request h run_id step_id tool_call_id tool_name arguments_json model_action_event_id = do
  required_field run_id
  required_field step_id
  required_field tool_call_id
  required_field tool_name
  optional_field model_action_event_id
  arguments ← arguments_object (h.loads arguments_json)
  ok (record {
    run_id = run_id;
    step_id = step_id;
    tool_call_id = tool_call_id;
    tool_name = tool_name;
    arguments_json = h.dumps (dict arguments);
    model_action_event_id = model_action_event_id;
  })

-- `request.arguments.get(name)`
abbrev pub argument : Option Fields → String → Option Json
argument none name = none
argument (some arguments) name = get name arguments

pub data AuthorizationOutcome : Type 0 where
  allow deny escalate : AuthorizationOutcome

pub record AuthorizationDecision : Type 0 where
  pub run_id : String
  pub step_id : String
  pub tool_call_id : String
  pub tool_name : String
  pub outcome : AuthorizationOutcome
  pub normalized_paths : List String
  pub ownership_decision : Option OwnershipDecision
  pub reasons : List String

-- What the workspace boundary asks of `pathlib`: whether a path has a Windows drive, and the path
-- resolved below the root, as a POSIX path relative to it (`none` where it lies outside). `repr` is
-- Python's.
pub record Workspace : Type 0 where
  pub has_drive : String → Bool
  pub resolve_below : String → Option String
  pub repr : String → String

-- A normalized path, or the message of the ValueError.
pub data Normalized {ℓ} (A : Type ℓ) : Type ℓ where
  normalized : A → Normalized A
  refused : String → Normalized A

abbrev pub starts_with_slash : String → Bool
starts_with_slash String.[] = false
starts_with_slash (String.◌∷◌ c rest) = code c == b'/'

abbrev pub below_root : Option String → Normalized String
below_root none = refused "workspace path escapes the configured root"
below_root (some path) = normalized (if is_empty path then "." else path)

-- `workspace.normalize(target)`
unfoldable pub normalize : Workspace → String → Normalized String
normalize workspace target =
    if is_empty target
    then refused "workspace path must not be empty"
    else if starts_with_slash (portable target) || workspace.has_drive target
    then refused "workspace path must be relative"
    else below_root (workspace.resolve_below (portable target))

pub record AuthorizationContext : Type 0 where
  pub registry : ToolRegistry
  pub workspace : Workspace
  pub risk_rules : List RiskRule
  pub policy : OwnershipPolicy
  pub minimum_mode : OwnershipMode

abbrev pub normalized_argument : Workspace → String → Option Json → Normalized String
normalized_argument workspace name (some (str target)) =
    if is_empty target
    then refused ("path argument " <> workspace.repr name <> " must be a non-empty string")
    else explain (normalize workspace target)
  where
    explain : Normalized String → Normalized String
    explain (normalized path) = normalized path
    explain (refused message) =
        refused ("invalid path argument " <> workspace.repr name <> ": " <> message)
normalized_argument workspace name _ =
    refused ("path argument " <> workspace.repr name <> " must be a non-empty string")

abbrev both : Normalized String → Normalized (List String) → Normalized (List String)
both (refused message) rest = refused message
both (normalized path) (refused message) = refused message
both (normalized path) (normalized paths) = normalized (path ∷ paths)

-- The loop over the path arguments: the first that is refused denies the request.
unfoldable pub normalize_all : Workspace → Option Fields → List String → Normalized (List String)
normalize_all workspace arguments [] = normalized []
normalize_all workspace arguments (name ∷ names) =
    both (normalized_argument workspace name (argument arguments name))
      (normalize_all workspace arguments names)

-- The step that is classified for the request; its claimed risks are empty.
abbrev pub execution_step : ToolRequest → List String → PlanStep
execution_step request paths = record {
  step_id = request.step_id;
  affected_paths = paths;
  proposed_tools = request.tool_name ∷ [];
  risk_tags = [];
}

abbrev pub ownership_context : AuthorizationContext → OwnershipContext
ownership_context context = record {
  risk_rules = context.risk_rules;
  policy = context.policy;
  minimum_mode = context.minimum_mode;
}

-- `_decision(request, ...)`
abbrev decision :
    ToolRequest
    → AuthorizationOutcome
    → List String
    → List String
    → Option OwnershipDecision
    → AuthorizationDecision
decision request outcome reasons paths ownership = record {
  run_id = request.run_id;
  step_id = request.step_id;
  tool_call_id = request.tool_call_id;
  tool_name = request.tool_name;
  outcome = outcome;
  normalized_paths = paths;
  ownership_decision = ownership;
  reasons = reasons;
}

abbrev pub is_auto : OwnershipMode → Bool
is_auto auto = true
is_auto _ = false

abbrev decide_mode : ToolRequest → List String → OwnershipDecision → AuthorizationDecision
decide_mode request paths ownership =
    if is_auto ownership.mode
    then decision request allow
        ("registered request is inside the workspace and requires auto mode" ∷ []) paths
        (some ownership)
    else decision request escalate
        (("request requires " <> mode_value ownership.mode <> " ownership") ∷ ownership.reasons)
        paths (some ownership)

module _ (h : Host) (fnmatchcase : String → String → Bool) where
  -- The decision on a request whose paths were normalized.
  unfoldable pub decide_paths :
      ToolRequest → AuthorizationContext → Normalized (List String) → AuthorizationDecision
  decide_paths request context (refused message) = decision request deny (message ∷ []) [] none
  decide_paths request context (normalized paths) =
      decide_mode request paths
        (classify_step fnmatchcase (execution_step request paths) (ownership_context context))

  unfoldable pub authorize_resolved :
      ToolRequest → AuthorizationContext → Result ToolDefinition → AuthorizationDecision
  authorize_resolved request context (err _) =
      decision request deny
        (("tool " <> context.workspace.repr request.tool_name <> " is not registered") ∷ []) [] none
  authorize_resolved request context (ok definition) = decide_paths request context (
      normalize_all context.workspace (arguments_of (h.loads request.arguments_json))
        definition.path_argument_names)

  -- `authorize(request, context)`
  unfoldable pub authorize : ToolRequest → AuthorizationContext → AuthorizationDecision
  authorize request context =
      authorize_resolved request context (resolve context.registry request.tool_name)
