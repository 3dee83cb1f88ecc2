-- ===== src/FileTools/Contained.antt =====
-- The file tools change the disk only at a target inside the workspace that no link leads to
-- (restricted_file_tools.py).
use agent_runtime_lab.Prelude.{
  ◌≤◌, String, ◌≡◌, ◌⊎◌, refl, inl, inr, Bool, true, false, not, Option, none, some, [], ◌∷◌, any,
  All, leb, length, subst, holds, string_dec, Bool-cases, arith,
}
use agent_runtime_lab.Result.{
  ok, Result-cases, bound, guard, workspace_execution, tool_argument_validation,
}
use agent_runtime_lab.Json.{str, Fields, get}
use agent_runtime_lab.Ownership.Risk.{portable}
use agent_runtime_lab.Ownership.Authorization.{normalized, normalize}
use agent_runtime_lab.FileTools.{
  Bytes, FileStatus, DiskCalls, Texts, RestrictedFileToolRunner, require_text,
  require_exact_arguments, encoded_bytes, inside, walk, require_kind, resolve_for_execution,
  PreparedWrite, prepare_write, replaceable, staged, moved, store_prepared, write_file,
  prepare_delete, remove_prepared, delete_file, invoke_tool,
}
use agent_runtime_lab.FileTools.Targets.{
  walked, text_given, inside_normal, passes, limited, IsPlain, IsReplaceable, walk-IsPlain,
  directory_found, regular_target,
}

module _ {Disk : Type 0} (os : DiskCalls Disk) where
  module _ (texts : Texts) (runner : RestrictedFileToolRunner) (disk : Disk)
      (arguments : Fields) where
    -- The target of the arguments is a path inside the workspace: the path argument has no component
    -- "..", it was normalized, no component of it that exists is a link or a reparse point, and the
    -- target does not exist or is a regular file.
    pub record IsContained (relative : String) : Type 0 where
      pub original : String
      pub given : get "path" arguments ≡ some (str original)
      pub descends :
          any (λ part. holds (string_dec part "..")) (texts.parts (portable original)) ≡ false
      pub normal : normalize runner.workspace original ≡ normalized relative
      pub unlinked : All (IsPlain os disk) (walked "" (texts.parts (portable original)))
      pub replaceable : IsReplaceable os disk relative

    contained :
        (original relative : String)
        → require_text arguments "path" false ≡ ok original
        → resolve_for_execution os texts runner disk original ≡ ok relative
        → IsReplaceable os disk relative
        → IsContained relative
    unfolding require_text resolve_for_execution
    contained original relative text e target =
        let (u, descends, e₁) =
          bound
            (guard
              (not (any (λ part. holds (string_dec part "..")) (texts.parts (portable original))))
              workspace_execution)
            _ relative e in
        let (path, normal, e₂) =
          bound (inside (normalize runner.workspace original)) _ relative e₁ in
        let (v, walks, last) =
          bound (walk os disk "" (texts.parts (portable original))) _ relative e₂ in
        let same : path ≡ relative = ground arith in
        record {
          original = original;
          given = text_given false (get "path" arguments) original text;
          descends = ground (arith, passes _ descends);
          normal =
              ground (arith, inside_normal (normalize runner.workspace original) path normal, same);
          unlinked = walk-IsPlain os disk "" (texts.parts (portable original)) walks;
          replaceable = target;
        }

    encoded :
        (o : Option Bytes) (content_bytes : Bytes)
        → encoded_bytes os texts runner o ≡ ok content_bytes
        → o ≡ some content_bytes
    encoded none content_bytes e = absurd (ground arith)
    encoded (some b) content_bytes e = ground arith

    prepare_delete-IsContained :
        (relative : String)
        → prepare_delete os texts runner disk arguments ≡ ok relative
        → IsContained relative
    unfolding prepare_delete
    prepare_delete-IsContained relative e =
        let (u, exact, e₁) = bound (require_exact_arguments arguments ("path" ∷ [])) _ relative e in
        let (original, text, e₂) = bound (require_text arguments "path" false) _ relative e₁ in
        let (path, resolved, e₃) =
          bound (resolve_for_execution os texts runner disk original) _ relative e₂ in
        let (v, regular, last) =
          bound (require_kind os (λ s. s.is_regular) disk path) _ relative e₃ in
        let same : path ≡ relative = ground arith in
        subst IsContained same
          (contained original path text resolved (regular_target os disk path regular))

    target_checked :
        (relative : String) (there : Bool)
        → os.lexists disk relative ≡ there
        → replaceable os texts runner disk relative there ≡ ok tt
        → IsReplaceable os disk relative
    target_checked relative true is e = regular_target os disk relative e
    target_checked relative false is e = inl is

    -- These bytes are the content argument in UTF-8, within the byte limit, and the target's folder
    -- is a directory.
    pub record IsStorable (relative : String) (content_bytes : Bytes) : Type 0 where
      pub content : String
      pub given_content : get "content" arguments ≡ some (str content)
      pub encoding : texts.encode content ≡ some content_bytes
      pub short : length content_bytes ≤ runner.max_bytes
      pub folder :
          (s : FileStatus) × (os.lstat disk (texts.parent relative) ≡ some s)
          × (s.is_directory ≡ true)

    prepare_write-IsContained :
        (w : PreparedWrite os texts runner)
        → prepare_write os texts runner disk arguments ≡ ok w
        → IsContained w.relative × IsStorable w.relative w.content_bytes
    unfolding prepare_write require_text
    prepare_write-IsContained w e =
        let (u, exact, e₁) =
          bound (require_exact_arguments arguments ("path" ∷ "content" ∷ [])) _ w e in
        let (original, text, e₂) = bound (require_text arguments "path" false) _ w e₁ in
        let (content, given, e₃) = bound (require_text arguments "content" true) _ w e₂ in
        let (encoding, coded, e₄) =
          bound (encoded_bytes os texts runner (texts.encode content)) _ w e₃ in
        let (v, short, e₅) =
          bound (guard (leb (length encoding) runner.max_bytes) tool_argument_validation) _ w e₄ in
        let (path, resolved, e₆) =
          bound (resolve_for_execution os texts runner disk original) _ w e₅ in
        let (x, parent, e₇) =
          bound (require_kind os (λ s. s.is_directory) disk (texts.parent path)) _ w e₆ in
        let (y, target, last) =
          bound (replaceable os texts runner disk path (os.lexists disk path)) _ w e₇ in
        let same : path ≡ w.relative = ground arith in
        let bytes : encoding ≡ w.content_bytes = ground arith in
        (
          subst IsContained same (
              contained original path text resolved
                (target_checked path (os.lexists disk path) refl target)),
          record {
            content = content;
            given_content = text_given true (get "content" arguments) content given;
            encoding =
                subst (λ b. texts.encode content ≡ some b) bytes
                  (encoded (texts.encode content) encoding coded);
            short =
                subst (λ b. length b ≤ runner.max_bytes) bytes
                  (limited (length encoding) runner.max_bytes short);
            folder =
                subst
                  (λ r.
                    (s : FileStatus) × (os.lstat disk (texts.parent r) ≡ some s)
                    × (s.is_directory ≡ true))
                  same (directory_found os disk (texts.parent path) parent);
          },
        )

    -- The disk after these bytes were to be stored in a staging file of the target's folder: no such
    -- file was made, or it could not be filled and was removed, or it was filled, moved onto the
    -- target, and removed if the move left it.
    abbrev pub Stored : String → Bytes → Disk → Type 0
    Stored relative content_bytes after =
        (os.mkstemp disk (texts.parent relative) ≡ (none, after))
        ⊎ ((staging : String) × (made : Disk) × (filled : Disk) × (os.mkstemp disk
                (texts.parent relative)
              ≡ (some staging, made))
            × (((os.write_synced made staging content_bytes ≡ (false, filled))
                  × (after ≡ (os.unlink filled staging).1))
                ⊎ ((os.write_synced made staging content_bytes ≡ (true, filled))
                    × (after ≡ (os.unlink (os.replace filled staging relative).1 staging).1))))

    staged-Stored :
        (w : PreparedWrite os texts runner) (made : Option String × Disk)
        → os.mkstemp disk (texts.parent w.relative) ≡ made
        → Stored w.relative w.content_bytes (staged os texts runner w made).1
    staged-Stored w (none, made) e = inl e
    staged-Stored w (some staging, made) e = inr (
      staging,
      made,
      (os.write_synced made staging w.content_bytes).1,
      e,
      moved_cases (os.write_synced made staging w.content_bytes) refl,
    )
      where
        moved_cases :
            (done : Bool × Disk)
            → os.write_synced made staging w.content_bytes ≡ done
            → ((os.write_synced made staging w.content_bytes ≡ (false, done.1))
                × ((os.unlink (moved os texts runner w staging done).1 staging).1
                    ≡ (os.unlink done.1 staging).1))
              ⊎ ((os.write_synced made staging w.content_bytes ≡ (true, done.1))
                  × ((os.unlink (moved os texts runner w staging done).1 staging).1
                      ≡ (os.unlink (os.replace done.1 staging w.relative).1 staging).1))
        moved_cases (true, filled) written = inr (written, refl)
        moved_cases (false, filled) written = inl (written, refl)

    -- The disk after the target was removed, or written.
    abbrev pub TargetChanged : String → Disk → Type 0
    TargetChanged relative after =
        (after ≡ (os.unlink disk relative).1)
        ⊎ ((content_bytes : Bytes) × IsStorable relative content_bytes
            × Stored relative content_bytes after)

    abbrev pub OnlyContained : Disk → Type 0
    OnlyContained after =
        (after ≡ disk) ⊎ ((relative : String) × IsContained relative × TargetChanged relative after)

    write_file-OnlyContained : OnlyContained (write_file os texts runner disk arguments).1
    unfolding write_file store_prepared
    write_file-OnlyContained = elim (Result-cases (prepare_write os texts runner disk arguments)) [
      | inr (e, failing) ↦ inl (rw failing refl)
      | inl (w, prepared) ↦
          let (target, storable) = prepare_write-IsContained w prepared in
          rw prepared (
            inr (
              w.relative,
              target,
              inr (
                w.content_bytes,
                storable,
                staged-Stored w (os.mkstemp disk (texts.parent w.relative)) refl,
              ),
            ))
    ]

    delete_file-OnlyContained : OnlyContained (delete_file os texts runner disk arguments).1
    unfolding delete_file remove_prepared
    delete_file-OnlyContained =
        elim (Result-cases (prepare_delete os texts runner disk arguments)) [
          | inr (e, failing) ↦ inl (rw failing refl)
          | inl (relative, prepared) ↦
              inr (relative, prepare_delete-IsContained relative prepared, inl (rw prepared refl))
        ]

    -- Whatever a file tool is called with, and however the operating system answers, it leaves the
    -- disk as it was, or it acts on a target and then the path argument has no component "..", was
    -- normalized inside the workspace to the target, no component of it that existed was a link or
    -- a reparse point, and the target did not exist or was a regular file. It acts by removing the
    -- target, or by storing the content argument in UTF-8, within the byte limit, through a
    -- staging file made in the target's folder, which is a directory: if that file was made, it is
    -- filled, moved onto the target if filling it succeeded, and a removal of it is tried in any
    -- case.
    pub invoke_tool-OnlyContained :
        (tool_name : String)
        → OnlyContained (invoke_tool os texts runner disk tool_name arguments).1
    unfolding invoke_tool
    invoke_tool-OnlyContained tool_name =
        elim (Bool-cases (holds (string_dec tool_name "read_file"))) [
          | inl reads ↦ inl (rw reads refl)
          | inr other ↦ rw other (elim (Bool-cases (holds (string_dec tool_name "write_file"))) [
            | inl writes ↦ rw writes write_file-OnlyContained
            | inr neither ↦
                rw neither (elim (Bool-cases (holds (string_dec tool_name "delete_file"))) [
                  | inl deletes ↦ rw deletes delete_file-OnlyContained
                  | inr unknown ↦ inl (rw unknown refl)
                ])
          ])
        ]
