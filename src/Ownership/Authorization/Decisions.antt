-- ===== src/Ownership/Authorization/Decisions.antt =====
-- What an authorization decision says of the request (ownership/authorization.py).
use agent_runtime_lab.Prelude.{
  ◌≤◌, String, ◌≡◌, ◌⊎◌, refl, Bool, some, List, [], ◌∷◌, inl, inr, string_dec, arith,
}
use agent_runtime_lab.Result.{ok, Result-cases}
use agent_runtime_lab.Json.{Host}
use agent_runtime_lab.Registry.{ToolDefinition, ToolRegistry, find, resolve}
use agent_runtime_lab.Ownership.Policy.{
  OwnershipMode, OwnershipDecision, auto, mode_order, classify_step,
}
use agent_runtime_lab.Ownership.Policy.Automatic.{Untouched, classify_step-auto}
use agent_runtime_lab.Ownership.Policy.Monotone.{more_restrictive_order, more_restrictive_mono}
use agent_runtime_lab.Ownership.Authorization.{
  ToolRequest, allow, escalate, AuthorizationDecision, AuthorizationContext, Normalized, normalized,
  refused, execution_step, ownership_context, decide_paths, authorize_resolved, authorize,
}
use agent_runtime_lab.Ownership.Authorization.Paths.{
  ArePathArguments, normalize_all-ArePathArguments,
}

-- The definition is registered.
abbrev pub Listed : ToolDefinition → List ToolDefinition → Type 0
Listed d [] = ⊥
Listed d (x ∷ xs) = (x ≡ d) ⊎ Listed d xs

known-Listed :
    (name : String) (ds : List ToolDefinition) (d : ToolDefinition)
    → find name ds ≡ some d
    → Listed d ds × (d.tool_name ≡ name)
unfolding find
known-Listed name [] d e = absurd (ground arith)
known-Listed name (x ∷ xs) d e = elim (string_dec x.tool_name name) [
  | yes named ↦ ground arith
  | no other ↦ let (among, same) = known-Listed name xs d (ground arith) in (inr among, same)
]

resolve-Listed :
    (registry : ToolRegistry) (name : String) (d : ToolDefinition)
    → resolve registry name ≡ ok d
    → Listed d registry.definitions × (d.tool_name ≡ name)
unfolding resolve
resolve-Listed registry name d e = known-Listed name registry.definitions d (ground arith)

-- Both decisions escalate, and the second one holds a mode that is at least `m` and at least that
-- of the first one.
abbrev pub EscalatesToo : OwnershipMode → AuthorizationDecision → AuthorizationDecision → Type 0
EscalatesToo m before after =
    (first : OwnershipDecision) × (second : OwnershipDecision) × (before.ownership_decision
      ≡ some first)
    × (after.ownership_decision ≡ some second)
    × (after.outcome ≡ escalate)
    × (mode_order first.mode ≤ mode_order second.mode)
    × (mode_order m ≤ mode_order second.mode)

module _ (h : Host) (fnmatchcase : String → String → Bool) (request : ToolRequest)
    (context : AuthorizationContext) where
  -- The ownership mode of the request when it has these paths.
  abbrev pub mode_for : AuthorizationContext → List String → OwnershipMode
  mode_for c paths =
      (classify_step fnmatchcase (execution_step request paths) (ownership_context c)).mode

  decide_paths-allow :
      (n : Normalized (List String)) (d : AuthorizationDecision)
      → decide_paths h fnmatchcase request context n ≡ d
      → d.outcome ≡ allow
      → (n ≡ normalized d.normalized_paths) × (mode_for context d.normalized_paths ≡ auto)
  unfolding decide_paths
  decide_paths-allow n d e o = ground arith

  -- An allowed request names a registered tool. Its arguments text holds an object in which each
  -- path argument of that tool is a text that is not empty, does not start at the root, has no
  -- drive and resolves below the workspace's root, and the decision holds exactly these resolved
  -- paths, in order. The context's minimum mode and the policy's default are AUTO, and each rule
  -- of the policy demands AUTO too, or none of its tags is the tag of a risk rule that matches the
  -- tool or one of the paths.
  pub authorize-allow :
      (d : AuthorizationDecision)
      → authorize h fnmatchcase request context ≡ d
      → d.outcome ≡ allow
      → (definition : ToolDefinition) × Listed definition context.registry.definitions
        × (definition.tool_name ≡ request.tool_name)
        × ArePathArguments context.workspace
            (h.loads request.arguments_json)
            definition.path_argument_names
            d.normalized_paths
        × (context.minimum_mode ≡ auto)
        × (context.policy.default_mode ≡ auto)
        × Untouched fnmatchcase d.normalized_paths
            (request.tool_name ∷ [])
            context.risk_rules
            context.policy.rules
  unfolding authorize authorize_resolved
  authorize-allow d e o = elim (Result-cases (resolve context.registry request.tool_name)) [
    | inr (x, unknown) ↦ absurd (ground arith)
    | inl (definition, found) ↦
        let (normal, mode) = decide_paths-allow _ d (rw found at e) o in
        let (minimum, default, untouched) =
          classify_step-auto fnmatchcase (execution_step request d.normalized_paths)
            (ownership_context context) refl mode in
        let (listed, named) = resolve-Listed context.registry request.tool_name definition found in
        (
          definition,
          listed,
          named,
          normalize_all-ArePathArguments context.workspace (h.loads request.arguments_json)
              definition.path_argument_names d.normalized_paths normal,
          minimum,
          default,
          untouched,
        )
  ]

  mode_for_mono :
      (m : OwnershipMode) (paths : List String)
      → mode_order context.minimum_mode ≤ mode_order m
      → mode_order (mode_for context paths)
        ≤ mode_order (mode_for (record context { minimum_mode = m }) paths)
  unfolding classify_step
  mode_for_mono m paths low = more_restrictive_mono _ context.minimum_mode _ m (omega arith) low

  abbrev classified : AuthorizationContext → List String → OwnershipDecision
  classified c paths =
      classify_step fnmatchcase (execution_step request paths) (ownership_context c)

  mode_for_low :
      (c : AuthorizationContext) (paths : List String)
      → mode_order c.minimum_mode ≤ mode_order (mode_for c paths)
  unfolding classify_step
  mode_for_low c paths = (more_restrictive_order _ c.minimum_mode).1

  decide_paths-escalate :
      (m : OwnershipMode) (n : Normalized (List String))
      → mode_order context.minimum_mode ≤ mode_order m
      → (decide_paths h fnmatchcase request context n).outcome ≡ escalate
      → EscalatesToo m
          (decide_paths h fnmatchcase request context n)
          (decide_paths h fnmatchcase request (record context { minimum_mode = m }) n)
  unfolding decide_paths
  decide_paths-escalate m (refused message) low o = absurd (ground arith)
  decide_paths-escalate m (normalized paths) low o = (
    classified context paths,
    classified (record context { minimum_mode = m }) paths,
    ground arith,
    ground arith,
    ground (arith, mode_for_mono m paths low),
    mode_for_mono m paths low,
    mode_for_low (record context { minimum_mode = m }) paths,
  )

  -- A stricter minimum mode never lets through what was escalated: the request is escalated again,
  -- with an ownership mode that is at least the one before and at least the minimum mode.
  pub authorize-escalate_mono :
      (m : OwnershipMode)
      → mode_order context.minimum_mode ≤ mode_order m
      → (authorize h fnmatchcase request context).outcome ≡ escalate
      → EscalatesToo m
          (authorize h fnmatchcase request context)
          (authorize h fnmatchcase request (record context { minimum_mode = m }))
  unfolding authorize authorize_resolved
  authorize-escalate_mono m low o =
      elim (Result-cases (resolve context.registry request.tool_name)) [
        | inr (x, unknown) ↦ absurd (ground arith)
        | inl (definition, found) ↦ rw found (decide_paths-escalate m _ low (rw found at o))
      ]
