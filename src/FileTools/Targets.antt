-- ===== src/FileTools/Targets.antt =====
-- What the checks of a path and of a target establish (restricted_file_tools.py).
-- (restricted_file_tools.py).
use agent_runtime_lab.Prelude.{
  ℕ, ◌≤◌, String, ◌≡◌, ◌⊎◌, refl, inl, inr, Bool, true, false, not, Option, none, some, List, [],
  ◌∷◌, All, leb, Bool-cases, arith, if◌then◌else◌,
}
use agent_runtime_lab.Result.{ok, bound, guard, workspace_execution, tool_argument_validation}
use agent_runtime_lab.Json.{Json, str}
use agent_runtime_lab.Ownership.Authorization.{Normalized, normalized, refused}
use agent_runtime_lab.FileTools.{
  FileStatus, DiskCalls, text_value, below, inside, unless_os_error, is_skipped, is_redirection,
  check_component, walk, require_kind,
}

-- The paths that the walk over the components comes to.
abbrev pub walked : String → List String → List String
walked current [] = []
walked current (part ∷ parts) =
    if is_skipped part
    then walked current parts
    else below current part ∷ walked (below current part) parts

pub text_given :
    (allow_empty : Bool) (o : Option Json) (text : String)
    → text_value allow_empty o ≡ ok text
    → o ≡ some (str text)
text_given allow_empty none text e = absurd (ground arith)
text_given allow_empty (some value) text e = ground arith

pub inside_normal :
    (n : Normalized String) (path : String) → inside n ≡ ok path → n ≡ normalized path
inside_normal (normalized p) path e = ground arith
inside_normal (refused m) path e = absurd (ground arith)

pub passes : (test : Bool) → guard test workspace_execution ≡ ok tt → test ≡ true
passes true e = refl
passes false e = absurd (ground arith)

pub limited : (n m : ℕ) → guard (leb n m) tool_argument_validation ≡ ok tt → n ≤ m
limited n m e = ground arith

module _ {Disk : Type 0} (os : DiskCalls Disk) where
  -- A path that does not exist, or is neither a link nor a reparse point
  abbrev pub IsPlain : Disk → String → Type 0
  IsPlain disk path =
      (os.lexists disk path ≡ false)
      ⊎ ((s : FileStatus) × (os.lstat disk path ≡ some s) × (is_redirection s ≡ false))

  -- A path that does not exist, or is a regular file
  abbrev pub IsReplaceable : Disk → String → Type 0
  IsReplaceable disk path =
      (os.lexists disk path ≡ false)
      ⊎ ((s : FileStatus) × (os.lstat disk path ≡ some s) × (s.is_regular ≡ true))

  found : (o : Option FileStatus) (s : FileStatus) → unless_os_error o ≡ ok s → o ≡ some s
  found none s e = absurd (ground arith)
  found (some t) s e = ground arith

  checked_component :
      (disk : Disk) (path : String) → check_component os disk path ≡ ok tt → IsPlain disk path
  unfolding check_component
  checked_component disk path e = elim (Bool-cases (os.lexists disk path)) [
    | inr absent ↦ inl absent
    | inl there ↦
        let (s, status, plain) =
          bound (unless_os_error (os.lstat disk path))
            (λ s. guard (not (is_redirection s)) workspace_execution) tt (rw there at e) in
        inr (s, found (os.lstat disk path) s status, ground (arith, passes _ plain))
  ]

  pub walk-IsPlain :
      (disk : Disk) (current : String) (parts : List String)
      → walk os disk current parts ≡ ok tt
      → All (IsPlain disk) (walked current parts)
  unfolding walk
  walk-IsPlain disk current [] e = tt
  walk-IsPlain disk current (part ∷ parts) e = elim (Bool-cases (is_skipped part)) [
    | inl skip ↦ rw skip (walk-IsPlain disk current parts (rw skip at e))
    | inr go ↦
        let (u, first, rest) =
          bound (check_component os disk (below current part))
            (λ u. walk os disk (below current part) parts) tt (rw go at e) in
        rw go (
          checked_component disk (below current part) first,
          walk-IsPlain disk (below current part) parts rest,
        )
  ]

  pub directory_found :
      (disk : Disk) (target : String)
      → require_kind os (λ s. s.is_directory) disk target ≡ ok tt
      → (s : FileStatus) × (os.lstat disk target ≡ some s) × (s.is_directory ≡ true)
  unfolding require_kind
  directory_found disk target e =
      let (u, there, e₁) = bound (guard (os.lexists disk target) workspace_execution) _ tt e in
      let (s, status, directory) = bound (unless_os_error (os.lstat disk target)) _ tt e₁ in
      (s, found (os.lstat disk target) s status, passes s.is_directory directory)

  pub regular_target :
      (disk : Disk) (target : String)
      → require_kind os (λ s. s.is_regular) disk target ≡ ok tt
      → IsReplaceable disk target
  unfolding require_kind
  regular_target disk target e =
      let (u, there, e₁) = bound (guard (os.lexists disk target) workspace_execution) _ tt e in
      let (s, status, regular) = bound (unless_os_error (os.lstat disk target)) _ tt e₁ in
      inr (s, found (os.lstat disk target) s status, passes s.is_regular regular)
