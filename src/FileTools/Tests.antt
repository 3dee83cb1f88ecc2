-- ===== src/FileTools/Tests.antt =====
-- Runs of the file tools on a sample disk, which has one file or none.
use agent_runtime_lab.Prelude.{
  String, ◌≡◌, refl, Bool, true, false, not, some, [], ◌∷◌, holds, string_dec, if◌then◌else◌,
}
use agent_runtime_lab.Prelude.Int.{pos}
use agent_runtime_lab.Result.{ok, err, workspace_execution}
use agent_runtime_lab.Json.{bool, int, str, Fields, no_fields, field, get, all_keys}
use agent_runtime_lab.Ownership.Authorization.{normalize}
use agent_runtime_lab.Ownership.Risk.{portable}
use agent_runtime_lab.FileTools.{
  FileStatus, DiskCalls, Texts, RestrictedFileToolRunner, invoke_tool, write_file, prepare_write,
  store_prepared, delete_file, prepare_delete, remove_prepared, require_exact_arguments, has_all,
  require_text, resolve_for_execution, walk, check_component, require_kind,
}
use agent_runtime_lab.FileTools.Contained.{OnlyContained, invoke_tool-OnlyContained}

-- The root is a directory, "l.txt" a link, any other path a regular file.
abbrev status : String → FileStatus
status path = record {
  is_link = holds (string_dec path "l.txt");
  is_reparse_point = false;
  is_regular = not (holds (string_dec path ""));
  is_directory = holds (string_dec path "");
}

-- The disk says whether "a.txt" is there.
abbrev os : DiskCalls Bool
os = record {
  lexists = λ disk path. if holds (string_dec path "a.txt") then disk else true;
  lstat = λ disk path. some (status path);
  read_bytes = λ disk path n. some [];
  mkstemp = λ disk directory. (some "tmp", disk);
  write_synced = λ disk path bytes. (true, disk);
  replace = λ disk source target. (true, true);
  unlink = λ disk path. (true, if holds (string_dec path "a.txt") then false else disk);
}

abbrev texts : Texts
texts = record {
  parts = λ path. path ∷ [];
  parent = λ path. "";
  encode = λ text. some [];
  decode = λ bytes. some "";
  sha256 = λ bytes. "digest";
}

abbrev runner : RestrictedFileToolRunner
runner = record {
  workspace = record {
    has_drive = λ path. false;
    resolve_below = λ path. some path;
    repr = λ text. text;
  };
  max_bytes = 4;
}

abbrev arguments : String → Fields
arguments path = field "path" (str path) no_fields

deleted_once :
    invoke_tool os texts runner true "delete_file" (arguments "a.txt")
    ≡ (ok (field "path" (str "a.txt") (field "deleted" (bool true) no_fields)), false)
unfolding invoke_tool delete_file prepare_delete remove_prepared require_exact_arguments has_all
    require_text resolve_for_execution walk check_component require_kind normalize portable all_keys
    get string_dec
deleted_once = refl

link_refused :
    invoke_tool os texts runner true "delete_file" (arguments "l.txt")
    ≡ (err workspace_execution, true)
unfolding invoke_tool delete_file prepare_delete remove_prepared require_exact_arguments has_all
    require_text resolve_for_execution walk check_component require_kind normalize portable all_keys
    get string_dec
link_refused = refl

abbrev content : Fields
content = field "content" (str "text") (arguments "a.txt")

written :
    (invoke_tool os texts runner false "write_file" content).0
    ≡ ok (
        field "path" (str "a.txt") (
          field "bytes"
            (int (pos 0))
            (field "sha256" (str "digest") (field "replaced" (bool false) no_fields))))
unfolding invoke_tool write_file prepare_write store_prepared require_exact_arguments has_all
    require_text resolve_for_execution walk check_component require_kind normalize portable all_keys
    get string_dec
written = refl

invoke_tool-OnlyContained_example :
    OnlyContained os texts runner false content
      (invoke_tool os texts runner false "write_file" content).1
invoke_tool-OnlyContained_example =
    invoke_tool-OnlyContained os texts runner false content "write_file"
