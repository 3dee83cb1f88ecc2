-- ===== src/FileTools.antt =====
-- src/agent_runtime_lab/restricted_file_tools.py: the file tools of a workspace, as functions of the
-- disk. What the operating system, pathlib and the UTF-8 codec do is a parameter.
pub mod Contained
pub mod Targets
mod Tests
use agent_runtime_lab.Prelude.{
  ℕ, ◌+◌, leb, ltb, String, Bool, true, false, not, ◌&&◌, ◌||◌, ◌<>◌, Option, none, some, List, [],
  ◌∷◌, any, length, is_empty, holds, string_dec, if◌then◌else◌,
}
use agent_runtime_lab.Prelude.Int.{ℤ, pos, negsuc}
use agent_runtime_lab.Result
use agent_runtime_lab.Result.{
  Result, ok, err, Error, unknown_tool, tool_argument_validation, workspace_execution,
  restricted_tool_execution, value_error, guard,
}
use agent_runtime_lab.Json.{Json, bool, int, str, Fields, no_fields, field, get, all_keys}
use agent_runtime_lab.Registry.{ToolDefinition, ToolRegistry, tool_registry}
use agent_runtime_lab.Ownership.Authorization.{
  Workspace, Normalized, normalized, refused, normalize,
}
use agent_runtime_lab.Ownership.Risk.{portable}

abbrev pub Bytes : Type 0
Bytes = List ℕ

-- What `os.lstat` tells of a path.
pub record FileStatus : Type 0 where
  pub is_link : Bool
  pub is_reparse_point : Bool
  pub is_regular : Bool
  pub is_directory : Bool

-- The calls of the operating system, on paths below the root; a call that changes the disk says
-- whether it succeeded, and may have changed it otherwise too.
pub record DiskCalls (Disk : Type 0) : Type 0 where
  pub lexists : Disk → String → Bool
  pub lstat : Disk → String → Option FileStatus
  pub read_bytes : Disk → String → ℕ → Option Bytes
  pub mkstemp : Disk → String → Option String × Disk
  pub write_synced : Disk → String → Bytes → Bool × Disk
  pub replace : Disk → String → String → Bool × Disk
  pub unlink : Disk → String → Bool × Disk

-- pathlib, UTF-8 and SHA-256 on bytes
pub record Texts : Type 0 where
  pub parts : String → List String
  pub parent : String → String
  pub encode : String → Option Bytes
  pub decode : Bytes → Option String
  pub sha256 : Bytes → String

-- `RestrictedFileToolRunner`
pub record RestrictedFileToolRunner : Type 0 where
  pub workspace : Workspace
  pub max_bytes : ℕ

-- `RESTRICTED_FILE_TOOL_DEFINITIONS`
unfoldable pub restricted_file_tool_definitions : List ToolDefinition
restricted_file_tool_definitions =
    record {
      tool_name = "read_file";
      retry_is_idempotent = true;
      path_argument_names = "path" ∷ [];
    }
    ∷ record {
      tool_name = "write_file";
      retry_is_idempotent = false;
      path_argument_names = "path" ∷ [];
    }
    ∷ record {
      tool_name = "delete_file";
      retry_is_idempotent = false;
      path_argument_names = "path" ∷ [];
    }
    ∷ []

-- `make_restricted_file_registry()`
unfoldable pub restricted_file_registry : Result ToolRegistry
restricted_file_registry = tool_registry restricted_file_tool_definitions

-- `RestrictedFileToolRunner(workspace, max_bytes=...)`
unfoldable pub restricted_file_tool_runner : Workspace → ℤ → Result RestrictedFileToolRunner
restricted_file_tool_runner workspace (pos n) =
    if leb 1 n then ok (record { workspace = workspace; max_bytes = n }) else err value_error
restricted_file_tool_runner workspace (negsuc _) = err value_error

abbrev has_field : Fields → String → Bool
has_field arguments name = is_given (get name arguments)
  where
    is_given : Option Json → Bool
    is_given none = false
    is_given (some _) = true

abbrev is_in : List String → String → Bool
is_in names key = any (λ name. holds (string_dec name key)) names

unfoldable pub has_all : Fields → List String → Bool
has_all arguments [] = true
has_all arguments (name ∷ names) =
    let rest = has_all arguments names in has_field arguments name && rest

-- `_require_exact_arguments`
unfoldable pub require_exact_arguments : Fields → List String → Result (Unit {0})
require_exact_arguments arguments names =
    guard (all_keys (is_in names) arguments && has_all arguments names) tool_argument_validation

abbrev pub text_value : Bool → Option Json → Result String
text_value allow_empty (some (str text)) =
    if is_empty text && not allow_empty then err tool_argument_validation else ok text
text_value allow_empty _ = err tool_argument_validation

-- `_require_text(arguments, field, allow_empty=...)`, of a field that is given
unfoldable pub require_text : Fields → String → Bool → Result String
require_text arguments name allow_empty = text_value allow_empty (get name arguments)

abbrev pub below : String → String → String
below current part = if is_empty current then part else current <> ("/" <> part)

-- `normalize`, whose ValueError is a WorkspaceExecutionError
abbrev pub inside : Normalized String → Result String
inside (normalized path) = ok path
inside (refused message) = err workspace_execution

-- `_raise_os_error` in place of an OSError
abbrev pub unless_os_error : {A : Type 0} → Option A → Result A
unless_os_error none = err restricted_tool_execution
unless_os_error (some value) = ok value

abbrev pub is_skipped : String → Bool
is_skipped part = is_empty part || holds (string_dec part ".")

abbrev pub is_redirection : FileStatus → Bool
is_redirection s = s.is_link || s.is_reparse_point

module _ {Disk : Type 0} (os : DiskCalls Disk) where
  -- One step of the walk: a component that exists is no link.
  unfoldable pub check_component : Disk → String → Result (Unit {0})
  check_component disk current =
      if os.lexists disk current
      then Result.◌>>=◌ (unless_os_error (os.lstat disk current))
          (λ s. guard (not (is_redirection s)) workspace_execution)
      else ok tt

  -- `for part in original_parts`
  unfoldable pub walk : Disk → String → List String → Result (Unit {0})
  walk disk current [] = ok tt
  walk disk current (part ∷ parts) =
      let skipped = walk disk current parts in
      let further = walk disk (below current part) parts in
      if is_skipped part
      then skipped
      else Result.◌>>◌ (check_component disk (below current part)) further

  -- `_require_regular_file` and `_require_directory`
  unfoldable pub require_kind : (FileStatus → Bool) → Disk → String → Result (Unit {0})
  require_kind test disk target = Result.◌>>◌ (guard (os.lexists disk target) workspace_execution) (
      Result.◌>>=◌ (unless_os_error (os.lstat disk target))
        (λ s. guard (test s) workspace_execution))

  module _ (texts : Texts) (runner : RestrictedFileToolRunner) where
    -- `_resolve_for_execution(original_path)`
    unfoldable pub resolve_for_execution : Disk → String → Result String
    resolve_for_execution disk original =
        Result.◌>>◌
          (guard
            (not (any (λ part. holds (string_dec part "..")) (texts.parts (portable original))))
            workspace_execution)
          (Result.◌>>=◌ (inside (normalize runner.workspace original)) (λ relative.
            Result.◌>>◌ (walk disk "" (texts.parts (portable original))) (ok relative)))

    -- `_read_file(arguments)`
    unfoldable pub read_file : Disk → Fields → Result Fields
    read_file disk arguments = Result.◌>>◌ (require_exact_arguments arguments ("path" ∷ [])) (
        Result.◌>>=◌ (require_text arguments "path" false) (λ original.
          Result.◌>>=◌ (resolve_for_execution disk original) (λ relative.
            Result.◌>>◌ (require_kind (λ s. s.is_regular) disk relative) (
              Result.◌>>=◌ (unless_os_error (os.read_bytes disk relative (runner.max_bytes + 1)))
                (λ content_bytes.
                  Result.◌>>◌
                    (guard (leb (length content_bytes) runner.max_bytes) restricted_tool_execution)
                    (Result.◌>>=◌ (unless_os_error (texts.decode content_bytes)) (λ content. ok (
                      field "path" (str relative) (
                        field "content" (str content) (
                          field "bytes" (int (pos (length content_bytes)))
                            (field "sha256" (str (texts.sha256 content_bytes)) no_fields)))))))))))

    -- What `_write_file` writes, once its checks have passed.
    pub record PreparedWrite : Type 0 where
      pub relative : String
      pub content_bytes : Bytes
      pub replaced : Bool

    abbrev pub encoded_bytes : Option Bytes → Result Bytes
    encoded_bytes none = err tool_argument_validation
    encoded_bytes (some content_bytes) = ok content_bytes

    abbrev pub replaceable : Disk → String → Bool → Result (Unit {0})
    replaceable disk relative true = require_kind (λ s. s.is_regular) disk relative
    replaceable disk relative false = ok tt

    -- The checks of `_write_file`
    unfoldable pub prepare_write : Disk → Fields → Result PreparedWrite
    prepare_write disk arguments =
        Result.◌>>◌ (require_exact_arguments arguments ("path" ∷ "content" ∷ [])) (
          Result.◌>>=◌ (require_text arguments "path" false) (λ original.
            Result.◌>>=◌ (require_text arguments "content" true) (λ content.
              Result.◌>>=◌ (encoded_bytes (texts.encode content)) (λ content_bytes.
                Result.◌>>◌
                  (guard (leb (length content_bytes) runner.max_bytes) tool_argument_validation)
                  (Result.◌>>=◌ (resolve_for_execution disk original) (λ relative.
                    Result.◌>>◌ (require_kind (λ s. s.is_directory) disk (texts.parent relative)) (
                      Result.◌>>◌ (replaceable disk relative (os.lexists disk relative)) (
                        ok (record {
                          relative = relative;
                          content_bytes = content_bytes;
                          replaced = os.lexists disk relative;
                        })))))))))

    abbrev pub write_output : PreparedWrite → Bool → Result Fields
    write_output w false = err restricted_tool_execution
    write_output w true = ok (
        field "path" (str w.relative) (
          field "bytes" (int (pos (length w.content_bytes))) (
            field "sha256" (str (texts.sha256 w.content_bytes))
              (field "replaced" (bool w.replaced) no_fields))))

    abbrev pub moved : PreparedWrite → String → Bool × Disk → Bool × Disk
    moved w staging (true, disk) = os.replace disk staging w.relative
    moved w staging (false, disk) = (false, disk)

    -- The staging file is filled, moved onto the target, and in any case removed.
    abbrev pub staged : PreparedWrite → Option String × Disk → Result Fields × Disk
    staged w (none, disk) = (err restricted_tool_execution, disk)
    staged w (some staging, disk) =
        let (success, disk') = moved w staging (os.write_synced disk staging w.content_bytes) in
        (write_output w success, (os.unlink disk' staging).1)

    -- `_write_file(arguments)`
    unfoldable pub store_prepared : Disk → Result PreparedWrite → Result Fields × Disk
    store_prepared disk (err e) = (err e, disk)
    store_prepared disk (ok w) = staged w (os.mkstemp disk (texts.parent w.relative))

    unfoldable pub write_file : Disk → Fields → Result Fields × Disk
    write_file disk arguments = store_prepared disk (prepare_write disk arguments)

    -- The checks of `_delete_file`
    unfoldable pub prepare_delete : Disk → Fields → Result String
    prepare_delete disk arguments = Result.◌>>◌ (require_exact_arguments arguments ("path" ∷ [])) (
        Result.◌>>=◌ (require_text arguments "path" false) (λ original.
          Result.◌>>=◌ (resolve_for_execution disk original) (λ relative.
            Result.◌>>◌ (require_kind (λ s. s.is_regular) disk relative) (ok relative))))

    abbrev delete_output : String → Bool → Result Fields
    delete_output relative false = err restricted_tool_execution
    delete_output relative true =
        ok (field "path" (str relative) (field "deleted" (bool true) no_fields))

    unfoldable pub remove_prepared : Disk → Result String → Result Fields × Disk
    remove_prepared disk (err e) = (err e, disk)
    remove_prepared disk (ok relative) =
        let (success, disk') = os.unlink disk relative in (delete_output relative success, disk')

    -- `_delete_file(arguments)`
    unfoldable pub delete_file : Disk → Fields → Result Fields × Disk
    delete_file disk arguments = remove_prepared disk (prepare_delete disk arguments)

    -- `invoke(tool_name=..., arguments=..., idempotency_key=...)`
    unfoldable pub invoke_tool : Disk → String → Fields → Result Fields × Disk
    invoke_tool disk tool_name arguments =
        if holds (string_dec tool_name "read_file")
        then (read_file disk arguments, disk)
        else if holds (string_dec tool_name "write_file")
        then write_file disk arguments
        else if holds (string_dec tool_name "delete_file")
        then delete_file disk arguments
        else (err unknown_tool, disk)
