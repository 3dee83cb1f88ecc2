-- ===== src/Ownership/Authorization/Paths.antt =====
-- The path arguments of a request, normalized inside the workspace (ownership/authorization.py).
use Prim.Native.Char.{Char, code}
use agent_runtime_lab.Prelude.{
  String, ◌≡◌, ◌≢◌, ◌⊎◌, refl, false, Option, none, some, List, [], ◌∷◌, inl, inr, subst,
  if◌then◌else◌, is_empty, arith,
}
use agent_runtime_lab.Json.{Json, str, dict, Fields, get}
use agent_runtime_lab.Ownership.Risk.{portable}
use agent_runtime_lab.Ownership.Authorization.{
  Workspace, below_root, starts_with_slash, normalized_argument, argument, normalize, Normalized,
  normalized, refused, normalize_all, arguments_of,
}

-- The target is a path inside the workspace, and this is its normal form: it is not empty, does not
-- start at the root, has no drive, and resolves below the workspace's root.
pub record IsInside (workspace : Workspace) (target path : String) : Type 0 where
  pub given : is_empty target ≡ false
  pub relative : (c : Char) (rest : String) → portable target ≡ String.◌∷◌ c rest → code c ≢ b'/'
  pub driveless : workspace.has_drive target ≡ false
  pub below : String
  pub resolved : workspace.resolve_below (portable target) ≡ some below
  pub named : path ≡ (if is_empty below then "." else below)

below_root-some :
    (o : Option String) (path : String)
    → below_root o ≡ normalized path
    → (below : String) × (o ≡ some below) × (path ≡ (if is_empty below then "." else below))
below_root-some none path e = absurd (ground arith)
below_root-some (some below) path e = (below, refl, ground arith)

no_slash :
    (text : String)
    → starts_with_slash text ≡ false
    → (c : Char) (rest : String) → text ≡ String.◌∷◌ c rest
    → code c ≢ b'/'
no_slash text e c rest is slash = absurd (ground arith)

Normalized-cases {ℓ} :
    {A : Type ℓ} (n : Normalized A)
    → ((a : A) × (n ≡ normalized a)) ⊎ ((message : String) × (n ≡ refused message))
Normalized-cases (normalized a) = inl (a, refl)
Normalized-cases (refused message) = inr (message, refl)

argument_given :
    (loaded : Option Json) (name target : String)
    → argument (arguments_of loaded) name ≡ some (str target)
    → (object : Fields) × (loaded ≡ some (dict object)) × (get name object ≡ some (str target))
argument_given (some (dict object)) name target e = (object, refl, e)
argument_given _ name target e = absurd (ground arith)

module _ (workspace : Workspace) where
  normalize-IsInside :
      (target path : String)
      → normalize workspace target ≡ normalized path
      → IsInside workspace target path
  unfolding normalize
  normalize-IsInside target path e =
      let given : is_empty target ≡ false = ground arith in
      let relative : starts_with_slash (portable target) ≡ false = ground arith in
      let driveless : workspace.has_drive target ≡ false = ground arith in
      let (below, resolved, named) =
        below_root-some (workspace.resolve_below (portable target)) path
          (rw (given, relative, driveless) at e) in
      record {
        given = given;
        relative = no_slash (portable target) relative;
        driveless = driveless;
        below = below;
        resolved = resolved;
        named = named;
      }

  normalized_argument-IsInside :
      (name : String) (value : Option Json) (path : String)
      → normalized_argument workspace name value ≡ normalized path
      → (target : String) × (value ≡ some (str target)) × IsInside workspace target path
  normalized_argument-IsInside name (some (str target)) path e =
      elim (Normalized-cases (normalize workspace target)) [
        | inr (message, out) ↦ absurd (ground arith)
        | inl (inner, inside) ↦
            let same : inner ≡ path = ground arith in
            (
              target,
              refl,
              subst (IsInside workspace target) same (normalize-IsInside target inner inside),
            )
      ]
  normalized_argument-IsInside name _ path e = absurd (ground arith)

  module _ (loaded : Option Json) where
    -- The loaded value is an object whose field of this name is a text that is a path inside the workspace.
    abbrev pub IsPathArgument : String → String → Type 0
    IsPathArgument name path =
        (object : Fields) × (target : String) × (loaded ≡ some (dict object))
        × (get name object ≡ some (str target))
        × IsInside workspace target path

    -- Each of these arguments is a path inside the workspace, in order.
    abbrev pub ArePathArguments : List String → List String → Type 0
    ArePathArguments [] [] = Unit
    ArePathArguments [] (path ∷ paths) = ⊥
    ArePathArguments (name ∷ names) [] = ⊥
    ArePathArguments (name ∷ names) (path ∷ paths) =
        IsPathArgument name path × ArePathArguments names paths

    pub normalize_all-ArePathArguments :
        (names paths : List String)
        → normalize_all workspace (arguments_of loaded) names ≡ normalized paths
        → ArePathArguments names paths
    unfolding normalize_all
    normalize_all-ArePathArguments [] [] e = tt
    normalize_all-ArePathArguments [] (path ∷ paths) e = absurd (ground arith)
    normalize_all-ArePathArguments (name ∷ names) paths e =
        elim (Normalized-cases
          (normalized_argument workspace name (argument (arguments_of loaded) name))) [
            | inr (message, out) ↦ absurd (ground arith)
            | inl (path, first) ↦
                elim (Normalized-cases (normalize_all workspace (arguments_of loaded) names)) [
                  | inr (message, out) ↦ absurd (ground arith)
                  | inl (rest, others) ↦
                      let (target, given, inside) =
                        normalized_argument-IsInside name (argument (arguments_of loaded) name) path
                          first in
                      let (object, parsed, at) = argument_given loaded name target given in
                      let same : paths ≡ path ∷ rest = ground arith in
                      rw same (
                        (object, target, parsed, at, inside),
                        normalize_all-ArePathArguments names rest others,
                      )
                ]
          ]
