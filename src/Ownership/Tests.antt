-- ===== src/Ownership/Tests.antt =====
-- Runs of the ownership policy and of authorization on a sample step and a sample request.
use agent_runtime_lab.Prelude.{
  ◌≤◌, String, ◌≡◌, ◌⊎◌, All, refl, Bool, true, false, none, some, [], ◌∷◌, string_dec, arith,
}
use agent_runtime_lab.Json.{str, dict, field, no_fields, get, Host}
use agent_runtime_lab.Registry.{ToolDefinition, find, resolve}
use agent_runtime_lab.Ownership.Risk.{PlanStep, member, intersects, derive_tags, evaluate, portable}
use agent_runtime_lab.Ownership.Policy.{
  OwnershipMode, auto, pair, user_gate, mode_order, more_restrictive, OwnershipPolicy,
  OwnershipRule, matching_rules, strictest, minimum_mode_for, OwnershipContext, classify_step,
}
use agent_runtime_lab.Ownership.Policy.Automatic.{
  Untouched, Apart, Any, Shares, minimum_mode_for_lem,
}
use agent_runtime_lab.Ownership.Policy.Monotone.{Includes, classify_claims_mono}
use agent_runtime_lab.Ownership.Authorization.{
  ToolRequest, allow, escalate, AuthorizationContext, normalize, normalize_all, decide_paths,
  authorize_resolved, authorize,
}
use agent_runtime_lab.Ownership.Authorization.Paths.{ArePathArguments}
use agent_runtime_lab.Ownership.Authorization.Decisions.{
  Listed, authorize-allow, EscalatesToo, authorize-escalate_mono,
}

abbrev rule : String → OwnershipMode → OwnershipRule
rule tag mode = record { risk_tags = tag ∷ []; minimum_mode = mode; reason = tag }

abbrev policy : OwnershipPolicy
policy = record {
  default_mode = auto;
  rules = rule "network" pair ∷ rule "credentials" user_gate ∷ [];
}

abbrev context : OwnershipContext
context = record {
  risk_rules = record { tag = "network"; path_patterns = []; tool_names = "http_get" ∷ [] } ∷ [];
  policy = policy;
  minimum_mode = auto;
}

abbrev step : PlanStep
step = record {
  step_id = "step-1";
  affected_paths = "./notes.txt" ∷ [];
  proposed_tools = "http_get" ∷ [];
  risk_tags = [];
}

abbrev matches_nothing : String → String → Bool
matches_nothing path pattern = false

no_claims : Includes [] ("credentials" ∷ [])
unfolding member
no_claims t h = ground arith

classify_claims_mono_example :
    mode_order (classify_step matches_nothing step context).mode
    ≤ mode_order
        (classify_step matches_nothing
          (record step { risk_tags = "credentials" ∷ [] })
          context).mode
classify_claims_mono_example =
    classify_claims_mono matches_nothing step ("credentials" ∷ []) context no_claims

minimum_mode_for_example :
    (mode_order auto ≤ mode_order (minimum_mode_for policy ("network" ∷ [])))
    × All
        (λ (r : OwnershipRule).
          (mode_order r.minimum_mode ≤ mode_order (minimum_mode_for policy ("network" ∷ [])))
          ⊎ Apart r.risk_tags ("network" ∷ []))
        policy.rules
    × ((minimum_mode_for policy ("network" ∷ []) ≡ auto)
        ⊎ Any
            (λ (r : OwnershipRule).
              (r.minimum_mode ≡ minimum_mode_for policy ("network" ∷ []))
              × Shares r.risk_tags ("network" ∷ []))
            policy.rules)
minimum_mode_for_example = minimum_mode_for_lem policy ("network" ∷ [])

-- A request of a reading tool, in a workspace that takes every path as it is.
abbrev host : Host
host = record {
  dumps = λ _. "{}";
  loads = λ _. some (dict (field "path" (str "notes.txt") no_fields));
  sha256 = λ text. text;
  isoformat = λ _. "";
  fromisoformat = λ _. none;
}

abbrev request : ToolRequest
request = record {
  run_id = "run";
  step_id = "step-1";
  tool_call_id = "call";
  tool_name = "read_file";
  arguments_json = "{}";
  model_action_event_id = none;
}

abbrev reader : ToolDefinition
reader = record {
  tool_name = "read_file";
  retry_is_idempotent = true;
  path_argument_names = "path" ∷ [];
}

abbrev authorization : AuthorizationContext
authorization = record {
  registry = record { definitions = reader ∷ [] };
  workspace = record {
    has_drive = λ _. false;
    resolve_below = λ path. some path;
    repr = λ text. text;
  };
  risk_rules = context.risk_rules;
  policy = policy;
  minimum_mode = auto;
}

reader_allowed : (authorize host matches_nothing request authorization).outcome ≡ allow
unfolding authorize authorize_resolved decide_paths normalize_all normalize classify_step evaluate
    minimum_mode_for matching_rules strictest derive_tags intersects more_restrictive resolve find
    string_dec portable get
reader_allowed = refl

authorize-allow_example :
    (definition : ToolDefinition) × Listed definition (reader ∷ [])
    × (definition.tool_name ≡ "read_file")
    × ArePathArguments authorization.workspace
        (host.loads request.arguments_json)
        definition.path_argument_names
        (authorize host matches_nothing request authorization).normalized_paths
    × (authorization.minimum_mode ≡ auto)
    × (policy.default_mode ≡ auto)
    × Untouched matches_nothing
        (authorize host matches_nothing request authorization).normalized_paths
        ("read_file" ∷ [])
        context.risk_rules
        policy.rules
authorize-allow_example =
    authorize-allow host matches_nothing request authorization
      (authorize host matches_nothing request authorization) refl reader_allowed

abbrev paired : AuthorizationContext
paired = record authorization { minimum_mode = pair }

reader_escalated : (authorize host matches_nothing request paired).outcome ≡ escalate
unfolding authorize authorize_resolved decide_paths normalize_all normalize classify_step evaluate
    minimum_mode_for matching_rules strictest derive_tags intersects more_restrictive resolve find
    string_dec portable get
reader_escalated = refl

authorize-escalate_mono_example :
    EscalatesToo user_gate
      (authorize host matches_nothing request paired)
      (authorize host matches_nothing request (record paired { minimum_mode = user_gate }))
authorize-escalate_mono_example =
    authorize-escalate_mono host matches_nothing request paired user_gate (omega arith)
      reader_escalated
