-- ===== src/Ownership/Policy/Monotone.antt =====
-- Risks only raise the ownership mode (ownership/policy.py, ownership/risk_evaluator.py).
use agent_runtime_lab.Prelude.{
  ◌≤◌, String, ◌≡◌, ◌⊎◌, inl, inr, refl, Bool, true, ◌||◌, List, [], ◌∷◌, ◌++◌, filter, map,
  Bool-cases, leb, ◌∙◌, sym, All, arith,
}
use agent_runtime_lab.Ownership.Risk.{
  PlanStep, member, intersects, derive_tags, evaluate, normalize_path,
}
use agent_runtime_lab.Ownership.Policy.{
  OwnershipMode, mode_order, more_restrictive, OwnershipRule, OwnershipPolicy, matching_rules,
  strictest, minimum_mode_for, OwnershipContext, classify_step,
}

pub more_restrictive_order :
    (a b : OwnershipMode)
    → (mode_order a ≤ mode_order (more_restrictive a b))
      × (mode_order b ≤ mode_order (more_restrictive a b))
unfolding more_restrictive
more_restrictive_order a b = ground arith

pub more_restrictive_mono :
    (a b c d : OwnershipMode)
    → mode_order a ≤ mode_order c
    → mode_order b ≤ mode_order d
    → mode_order (more_restrictive a b) ≤ mode_order (more_restrictive c d)
unfolding more_restrictive
more_restrictive_mono a b c d p q = ground arith

-- Every tag of the first list is in the second.
abbrev pub Includes : List String → List String → Type 0
Includes xs ys = (t : String) → member t xs ≡ true → member t ys ≡ true

intersects-Includes :
    (tags xs ys : List String)
    → Includes xs ys
    → intersects tags xs ≡ true
    → intersects tags ys ≡ true
unfolding intersects
intersects-Includes [] xs ys s h = h
intersects-Includes (t ∷ tags) xs ys s h = ground (arith, s t, intersects-Includes tags xs ys s)

strictest_start :
    (a b : OwnershipMode) (rules : List OwnershipRule)
    → mode_order a ≤ mode_order b
    → mode_order (strictest a rules) ≤ mode_order (strictest b rules)
unfolding strictest
strictest_start a b [] p = p
strictest_start a b (r ∷ rules) p =
    strictest_start (more_restrictive a r.minimum_mode) (more_restrictive b r.minimum_mode) rules
      (more_restrictive_mono a r.minimum_mode b r.minimum_mode p (omega arith))

abbrev pub fires : List String → OwnershipRule → Bool
fires tags rule = intersects rule.risk_tags tags

strictest_mono :
    (a b : OwnershipMode) (rules : List OwnershipRule) (xs ys : List String)
    → Includes xs ys
    → mode_order a ≤ mode_order b
    → mode_order (strictest a (filter (fires xs) rules))
      ≤ mode_order (strictest b (filter (fires ys) rules))
unfolding strictest
strictest_mono a b [] xs ys s p = p
strictest_mono a b (r ∷ rules) xs ys s p = elim (Bool-cases (fires xs r)) [
  | inl old ↦
      rw (old, intersects-Includes r.risk_tags xs ys s old)
        (strictest_mono (more_restrictive a r.minimum_mode) (more_restrictive b r.minimum_mode)
          rules xs ys s (more_restrictive_mono a r.minimum_mode b r.minimum_mode p (omega arith)))
  | inr missed ↦ elim (Bool-cases (fires ys r)) [
    | inl new ↦
        rw (missed, new)
          (strictest_mono a (more_restrictive b r.minimum_mode) rules xs ys s
            (omega (arith, more_restrictive_order b r.minimum_mode)))
    | inr still ↦ rw (missed, still) (strictest_mono a b rules xs ys s p)
  ]
]

member-append :
    (t : String) (xs ys : List String) → member t (xs ++ ys) ≡ (member t xs || member t ys)
unfolding member
member-append t [] ys = refl
member-append t (x ∷ xs) ys = ground (arith, member-append t xs ys)

Includes-append : (xs ys zs : List String) → Includes xs ys → Includes (xs ++ zs) (ys ++ zs)
Includes-append xs ys zs s t h = ground (arith, member-append t xs zs, member-append t ys zs, s t)

-- A step that claims more risks is never classified below one that claims fewer, with the same paths
-- and tools, in any policy.
pub classify_claims_mono :
    (fnmatchcase : String → String → Bool) (step : PlanStep) (claims : List String)
    (context : OwnershipContext)
    → Includes step.risk_tags claims
    → mode_order (classify_step fnmatchcase step context).mode
      ≤ mode_order (classify_step fnmatchcase (record step { risk_tags = claims }) context).mode
unfolding classify_step evaluate minimum_mode_for matching_rules
classify_claims_mono fnmatchcase step claims context s =
    more_restrictive_mono _ context.minimum_mode _ context.minimum_mode
      (strictest_mono context.policy.default_mode context.policy.default_mode context.policy.rules
        (step.risk_tags ++ derived) (claims ++ derived)
        (Includes-append step.risk_tags claims derived s) (omega arith))
      (omega arith)
  where
    derived : List String
    derived =
        derive_tags fnmatchcase (map normalize_path step.affected_paths) step.proposed_tools
          context.risk_rules

-- Some rule demands this mode.
abbrev pub Demanded : OwnershipMode → List OwnershipRule → Type 0
Demanded mode [] = ⊥
Demanded mode (r ∷ rules) = (r.minimum_mode ≡ mode) ⊎ Demanded mode rules

-- The least mode that is at least `start` and at least the mode of each rule.
abbrev pub IsStrictest : OwnershipMode → List OwnershipRule → OwnershipMode → Type 0
IsStrictest start rules mode =
    (mode_order start ≤ mode_order mode)
    × All (λ r. mode_order r.minimum_mode ≤ mode_order mode) rules
    × ((mode ≡ start) ⊎ Demanded mode rules)

more_restrictive_either :
    (a b : OwnershipMode) → (more_restrictive a b ≡ a) ⊎ (more_restrictive a b ≡ b)
unfolding more_restrictive
more_restrictive_either a b = elim (Bool-cases (leb (mode_order b) (mode_order a))) [
  | inl on ↦ inl (rw on refl)
  | inr off ↦ inr (rw off refl)
]

strictest-IsStrictest :
    (start : OwnershipMode) (rules : List OwnershipRule)
    → IsStrictest start rules (strictest start rules)
unfolding strictest
strictest-IsStrictest start [] = (omega arith, tt, inl refl)
strictest-IsStrictest start (r ∷ rules) =
    let (low, covers, met) = strictest-IsStrictest (more_restrictive start r.minimum_mode) rules in
    let (left, right) = more_restrictive_order start r.minimum_mode in
    (
      omega arith,
      (omega arith, covers),
      elim met [
        | inl e ↦ elim (more_restrictive_either start r.minimum_mode) [
          | inl same ↦ inl (e ∙ same)
          | inr rule ↦ inr (inl (sym (e ∙ rule)))
        ]
        | inr d ↦ inr (inr d)
      ],
    )

pub minimum_mode_for-IsStrictest :
    (policy : OwnershipPolicy) (tags : List String)
    → IsStrictest policy.default_mode (matching_rules policy tags) (minimum_mode_for policy tags)
unfolding minimum_mode_for
minimum_mode_for-IsStrictest policy tags =
    strictest-IsStrictest policy.default_mode (matching_rules policy tags)
