-- ===== src/Ownership/Policy.antt =====
-- src/agent_runtime_lab/ownership/policy.py: from risk tags to an ownership mode.
pub mod Automatic
pub mod Monotone
use agent_runtime_lab.Prelude.{
  ℕ, ◌≤◌, String, ◌≡◌, Bool, true, false, List, [], ◌∷◌, ◌++◌, map, filter, leb, ◌<>◌,
  if◌then◌else◌,
}
use agent_runtime_lab.Ownership.Risk.{PlanStep, RiskRule, RiskAssessment, intersects, evaluate}

pub data OwnershipMode : Type 0 where
  auto pair user_gate : OwnershipMode

pub OwnershipMode-discrete : Discrete OwnershipMode
OwnershipMode-discrete = hlevel

-- `mode.value`
abbrev pub mode_value : OwnershipMode → String
mode_value auto = "auto"
mode_value pair = "pair"
mode_value user_gate = "user_gate"

-- `_MODE_ORDER`
abbrev pub mode_order : OwnershipMode → ℕ
mode_order auto = 0
mode_order pair = 1
mode_order user_gate = 2

unfoldable pub more_restrictive : OwnershipMode → OwnershipMode → OwnershipMode
more_restrictive left right = if leb (mode_order right) (mode_order left) then left else right

pub record OwnershipRule : Type 0 where
  pub risk_tags : List String
  pub minimum_mode : OwnershipMode
  pub reason : String

pub record OwnershipPolicy : Type 0 where
  pub default_mode : OwnershipMode
  pub rules : List OwnershipRule

unfoldable pub matching_rules : OwnershipPolicy → List String → List OwnershipRule
matching_rules policy effective_tags =
    filter (λ rule. intersects rule.risk_tags effective_tags) policy.rules

-- The loop of `minimum_mode_for`, over the matching rules.
unfoldable pub strictest : OwnershipMode → List OwnershipRule → OwnershipMode
strictest mode [] = mode
strictest mode (rule ∷ rules) = strictest (more_restrictive mode rule.minimum_mode) rules

unfoldable pub minimum_mode_for : OwnershipPolicy → List String → OwnershipMode
minimum_mode_for policy effective_tags =
    strictest policy.default_mode (matching_rules policy effective_tags)

abbrev explain : OwnershipMode → List OwnershipRule → List String
explain mode [] = ("no risk rule matched; using default " <> mode_value mode) ∷ []
explain mode (rule ∷ rules) = map (λ r. r.reason) (rule ∷ rules)

unfoldable pub reasons_for : OwnershipPolicy → List String → List String
reasons_for policy effective_tags =
    explain policy.default_mode (matching_rules policy effective_tags)

pub record OwnershipContext : Type 0 where
  pub risk_rules : List RiskRule
  pub policy : OwnershipPolicy
  pub minimum_mode : OwnershipMode

pub record OwnershipDecision : Type 0 where
  pub step_id : String
  pub mode : OwnershipMode
  pub policy_minimum_mode : OwnershipMode
  pub context_minimum_mode : OwnershipMode
  pub risk_assessment : RiskAssessment
  pub reasons : List String

abbrev context_reasons : OwnershipMode → List String
context_reasons auto = []
context_reasons mode = ("global minimum mode requires " <> mode_value mode) ∷ []

unfoldable pub classify_step :
    (String → String → Bool) → PlanStep → OwnershipContext → OwnershipDecision
classify_step fnmatchcase step context =
    let assessment = evaluate fnmatchcase context.risk_rules step in
    let policy_mode = minimum_mode_for context.policy assessment.effective_tags in
    record {
      step_id = step.step_id;
      mode = more_restrictive policy_mode context.minimum_mode;
      policy_minimum_mode = policy_mode;
      context_minimum_mode = context.minimum_mode;
      risk_assessment = assessment;
      reasons =
          reasons_for context.policy assessment.effective_tags
          ++ context_reasons context.minimum_mode;
    }
