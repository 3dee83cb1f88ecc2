-- ===== src/Ownership/Risk.antt =====
-- src/agent_runtime_lab/domain/plan.py and ownership/risk_evaluator.py: the risks of one plan step.
-- A set of texts is a list of its members.
use Prim.Native.Char.{code}
use agent_runtime_lab.Prelude.{
  String, Bool, false, ◌&&◌, ◌||◌, List, [], ◌∷◌, ◌++◌, any, map, holds, string_dec, ◌==◌,
  if◌then◌else◌,
}

pub record PlanStep : Type 0 where
  pub step_id : String
  pub affected_paths : List String
  pub proposed_tools : List String
  pub risk_tags : List String

pub record RiskRule : Type 0 where
  pub tag : String
  pub path_patterns : List String
  pub tool_names : List String

pub record RiskAssessment : Type 0 where
  pub claimed_tags : List String
  pub derived_tags : List String
  pub effective_tags : List String

unfoldable pub member : String → List String → Bool
member x [] = false
member x (y ∷ ys) = holds (string_dec x y) || member x ys

-- `bool(a & b)`
unfoldable pub intersects : List String → List String → Bool
unfolding member
intersects [] ys = false
intersects (x ∷ xs) ys = member x ys || intersects xs ys

-- `path.replace("\\", "/")`
unfoldable pub portable : String → String
portable String.[] = String.[]
portable (String.◌∷◌ c s) =
    let rest = portable s in String.◌∷◌ (if code c == b'\\' then "/" else c) rest

-- `while normalized.startswith("./"): normalized = normalized[2:]`
unfoldable pub strip_dots : String → String
strip_dots String.[] = String.[]
strip_dots (String.◌∷◌ c String.[]) = String.◌∷◌ c String.[]
strip_dots (String.◌∷◌ c (String.◌∷◌ d rest)) =
    let stripped = strip_dots rest in
    if code c == b'.' && code d == b'/' then stripped else String.◌∷◌ c (String.◌∷◌ d rest)

unfoldable pub normalize_path : String → String
unfolding portable strip_dots
normalize_path path = strip_dots (portable path)

-- `fnmatch.fnmatchcase` is an argument of the evaluator.
module _ (fnmatchcase : String → String → Bool) where
  abbrev rule_matches : List String → List String → RiskRule → Bool
  rule_matches paths tools rule =
      any (λ path. any (fnmatchcase path) rule.path_patterns) paths
      || intersects tools rule.tool_names

  -- The loop over the rules; a tag may be listed twice.
  unfoldable pub derive_tags : List String → List String → List RiskRule → List String
  derive_tags paths tools [] = []
  derive_tags paths tools (rule ∷ rules) =
      let rest = derive_tags paths tools rules in
      if rule_matches paths tools rule then rule.tag ∷ rest else rest

  -- `RiskEvaluator(rules).evaluate(step)`
  unfoldable pub evaluate : List RiskRule → PlanStep → RiskAssessment
  evaluate rules step =
      let derived =
        derive_tags (map normalize_path step.affected_paths) step.proposed_tools rules in
      record {
        claimed_tags = step.risk_tags;
        derived_tags = derived;
        effective_tags = step.risk_tags ++ derived;
      }
