-- ===== src/Ownership/Policy/Automatic.antt =====
-- What a step in AUTO mode keeps clear of (ownership/policy.py, ownership/risk_evaluator.py).
use agent_runtime_lab.Prelude.{
  ◌≤◌, String, ◌≡◌, ◌≢◌, ◌⊎◌, inl, inr, Bool, true, false, ◌||◌, List, [], ◌∷◌, filter, map, any,
  All, All-map, Bool-cases, string_dec, arith,
}
use agent_runtime_lab.Ownership.Risk.{
  PlanStep, RiskRule, member, intersects, derive_tags, evaluate, normalize_path,
}
use agent_runtime_lab.Ownership.Policy.{
  OwnershipMode, auto, mode_order, more_restrictive, OwnershipRule, OwnershipPolicy, matching_rules,
  minimum_mode_for, OwnershipContext, classify_step,
}
use agent_runtime_lab.Ownership.Policy.Monotone.{
  more_restrictive_order, Demanded, fires, minimum_mode_for-IsStrictest,
}

-- The lists have no text in common.
abbrev pub Apart : List String → List String → Type 0
Apart xs ys = All (λ x. All (λ y. x ≢ y) ys) xs

-- The rule names none of the tools, and none of its patterns matches one of the paths.
abbrev pub Unmatched : (String → String → Bool) → List String → List String → RiskRule → Type 0
Unmatched fnmatchcase paths tools k =
    All (λ path. All (λ pattern. fnmatchcase (normalize_path path) pattern ≡ false) k.path_patterns)
      paths
    × Apart tools k.tool_names

-- Each rule of the policy demands AUTO mode only, or none of its tags is the tag of a risk rule that
-- matches one of the paths or tools.
abbrev pub Untouched :
    (String → String → Bool)
    → List String
    → List String
    → List RiskRule
    → List OwnershipRule
    → Type 0
Untouched fnmatchcase paths tools risk_rules rules =
    All
      (λ (r : OwnershipRule).
        (r.minimum_mode ≡ auto)
        ⊎ All
            (λ (k : RiskRule).
              All (λ tag. tag ≢ k.tag) r.risk_tags ⊎ Unmatched fnmatchcase paths tools k)
            risk_rules)
      rules

module _ {ℓ} {A : Type ℓ} where
  any-false : (p : A → Bool) (xs : List A) → any p xs ≡ false → All (λ x. p x ≡ false) xs
  any-false p [] e = tt
  any-false p (x ∷ xs) e = (ground arith, any-false p xs (ground arith))

  All-filter {κ} :
      (P : A → Type κ) (p : A → Bool) (xs : List A)
      → All P (filter p xs)
      → All (λ x. P x ⊎ (p x ≡ false)) xs
  All-filter P p [] a = tt
  All-filter P p (x ∷ xs) a = elim (Bool-cases (p x)) [
    | inl kept ↦ let (here, rest) = (rw kept at a) in (inl here, All-filter P p xs rest)
    | inr dropped ↦ (inr dropped, All-filter P p xs (rw dropped at a))
  ]

member-false : (x : String) (ys : List String) → member x ys ≡ false → All (λ y. x ≢ y) ys
unfolding member
member-false x [] e = tt
member-false x (y ∷ ys) e =
    (λ same. absurd (ground (arith, same)), member-false x ys (ground arith))

intersects-Apart : (xs ys : List String) → intersects xs ys ≡ false → Apart xs ys
unfolding intersects
intersects-Apart [] ys e = tt
intersects-Apart (x ∷ xs) ys e =
    (member-false x ys (ground arith), intersects-Apart xs ys (ground arith))

module _ (fnmatchcase : String → String → Bool) (paths tools : List String) where
  no_path_matches :
      (patterns ps : List String)
      → any (λ path. any (fnmatchcase path) patterns) (map normalize_path ps) ≡ false
      → All (λ path. All (λ pattern. fnmatchcase (normalize_path path) pattern ≡ false) patterns) ps
  no_path_matches patterns [] e = tt
  no_path_matches patterns (p ∷ ps) e = (
    any-false (fnmatchcase (normalize_path p)) patterns (ground arith),
    no_path_matches patterns ps (ground arith),
  )

  derive_tags-Apart :
      (tags : List String) (rules : List RiskRule)
      → Apart tags (derive_tags fnmatchcase (map normalize_path paths) tools rules)
      → All
          (λ (k : RiskRule). All (λ tag. tag ≢ k.tag) tags ⊎ Unmatched fnmatchcase paths tools k)
          rules
  unfolding derive_tags
  derive_tags-Apart tags [] a = tt
  derive_tags-Apart tags (k ∷ rules) a =
      elim (Bool-cases (
        any (λ path. any (fnmatchcase path) k.path_patterns) (map normalize_path paths)
        || intersects tools k.tool_names)) [
          | inl matches ↦
              let split = rw matches at a in
              (
                inl (All-map tags (λ t both. both.0) split),
                derive_tags-Apart tags rules (All-map tags (λ t both. both.1) split),
              )
          | inr none ↦ (
            inr (
              no_path_matches k.path_patterns paths (ground arith),
              intersects-Apart tools k.tool_names (ground arith),
            ),
            derive_tags-Apart tags rules (rw none at a),
          )
        ]

least : (m : OwnershipMode) → mode_order m ≤ 0 → m ≡ auto
least m low = ground arith

-- A step that claims no risk is in AUTO mode only where the context and the policy's default ask for
-- no more, and no rule of the policy that does is touched.
pub classify_step-auto :
    (fnmatchcase : String → String → Bool) (step : PlanStep) (context : OwnershipContext)
    → step.risk_tags ≡ []
    → (classify_step fnmatchcase step context).mode ≡ auto
    → (context.minimum_mode ≡ auto)
      × (context.policy.default_mode ≡ auto)
      × Untouched fnmatchcase step.affected_paths step.proposed_tools context.risk_rules
          context.policy.rules
unfolding classify_step evaluate matching_rules
classify_step-auto fnmatchcase step context unclaimed is =
    let derived =
      derive_tags fnmatchcase (map normalize_path step.affected_paths) step.proposed_tools
        context.risk_rules in
    let policy_mode = minimum_mode_for context.policy derived in
    let (of_policy, of_context) = more_restrictive_order policy_mode context.minimum_mode in
    let is' : more_restrictive policy_mode context.minimum_mode ≡ auto = rw unclaimed at is in
    let (default, covers, met) = minimum_mode_for-IsStrictest context.policy derived in
    let low : mode_order policy_mode ≤ 0 = rw is' at of_policy in
    (
      least context.minimum_mode (rw is' at of_context),
      least context.policy.default_mode (omega (arith, default, low)),
      All-map context.policy.rules
          (λ (r : OwnershipRule) clear. elim clear [
            | inl demands ↦ inl (least r.minimum_mode (omega (arith, demands, low)))
            | inr quiet ↦ inr (
                derive_tags-Apart fnmatchcase step.affected_paths step.proposed_tools r.risk_tags
                  context.risk_rules (intersects-Apart r.risk_tags derived quiet))
          ])
          (All-filter (λ r. mode_order r.minimum_mode ≤ mode_order policy_mode) (fires derived)
            context.policy.rules covers),
    )

-- Some element satisfies the predicate.
abbrev pub Any {ℓ} : {A : Type ℓ} → (A → Type 0) → List A → Type 0
Any P [] = ⊥
Any P (x ∷ xs) = P x ⊎ Any P xs

-- The lists have a text in common.
abbrev pub Shares : List String → List String → Type 0
Shares xs ys = Any (λ x. Any (λ y. x ≡ y) ys) xs

member-true : (x : String) (ys : List String) → member x ys ≡ true → Any (λ y. x ≡ y) ys
unfolding member
member-true x [] e = absurd (ground arith)
member-true x (y ∷ ys) e = elim (string_dec x y) [
  | yes same ↦ inl same
  | no other ↦ inr (member-true x ys (ground arith))
]

intersects-Shares : (xs ys : List String) → intersects xs ys ≡ true → Shares xs ys
unfolding intersects
intersects-Shares [] ys e = absurd (ground arith)
intersects-Shares (x ∷ xs) ys e = elim (Bool-cases (member x ys)) [
  | inl here ↦ inl (member-true x ys here)
  | inr there ↦ inr (intersects-Shares xs ys (ground arith))
]

demanding_rule :
    (mode : OwnershipMode) (tags : List String) (rules : List OwnershipRule)
    → Demanded mode (filter (fires tags) rules)
    → Any (λ r. (r.minimum_mode ≡ mode) × Shares r.risk_tags tags) rules
demanding_rule mode tags [] d = d
demanding_rule mode tags (r ∷ rules) d = elim (Bool-cases (fires tags r)) [
  | inl on ↦ elim (rw on at d) [
    | inl asks ↦ inl (asks, intersects-Shares r.risk_tags tags on)
    | inr later ↦ inr (demanding_rule mode tags rules later)
  ]
  | inr off ↦ inr (demanding_rule mode tags rules (rw off at d))
]

-- The policy's mode for a set of tags is the least one that is at least the default and at least the
-- mode of every rule that has one of the tags: it is the default, or the mode of one of those rules.
pub minimum_mode_for_lem :
    (policy : OwnershipPolicy) (tags : List String)
    → (mode_order policy.default_mode ≤ mode_order (minimum_mode_for policy tags))
      × All
          (λ (r : OwnershipRule).
            (mode_order r.minimum_mode ≤ mode_order (minimum_mode_for policy tags))
            ⊎ Apart r.risk_tags tags)
          policy.rules
      × ((minimum_mode_for policy tags ≡ policy.default_mode)
          ⊎ Any
              (λ (r : OwnershipRule).
                (r.minimum_mode ≡ minimum_mode_for policy tags) × Shares r.risk_tags tags)
              policy.rules)
unfolding matching_rules
minimum_mode_for_lem policy tags =
    let mode = minimum_mode_for policy tags in
    let (default, covers, met) = minimum_mode_for-IsStrictest policy tags in
    (
      default,
      All-map policy.rules
          (λ (r : OwnershipRule) covered. elim covered [
            | inl demands ↦ inl demands
            | inr quiet ↦ inr (intersects-Apart r.risk_tags tags quiet)
          ])
          (All-filter (λ r. mode_order r.minimum_mode ≤ mode_order mode) (fires tags) policy.rules
            covers),
      elim met [
        | inl same ↦ inl same
        | inr demanded ↦ inr (demanding_rule mode tags policy.rules demanded)
      ],
    )
