-- ===== src/Tools/FileOps/Tests.antt =====
-- Operations in a workspace beside another file.
use agentic_ai_tee.Base.{
  ◌≡◌, refl, none, [], ◌∷◌, ◌++◌, if◌then◌else◌, length, codes, text_eq, starts_with, ends_with,
  one_of,
}
use agentic_ai_tee.Base.Dict
use agentic_ai_tee.Tools.Disk.{Disk, directory, file, Platform, succeeded}
use agentic_ai_tee.Tools.FileOps.{
  Workspace, file_ops, below, parents_from, is_within, clean_path, lstrip_char, resolve_safe_path,
  guarded, operate, delete_safe, remove,
}
use agentic_ai_tee.Tools.FileOps.Paths.{IsRooted}
use agentic_ai_tee.Tools.FileOps.Laws.{IsKeptOutside, file_ops-IsKeptOutside}

abbrev here : Platform
here = record {
  resolve = λ path.
      if text_eq path (codes ".")
      then codes "/ws"
      else if text_eq path (codes "../etc")
      then codes "/etc"
      else codes "/ws/" ++ path;
  read_fault = λ path. none;
  write_fault = λ path content. none;
  unified_diff = λ path before after. [];
}

abbrev workspace : Workspace
workspace = record {
  root = codes "/ws";
  platform = here;
  mkdir_fault = λ path. none;
  removal_fault = λ path. none;
  encoded_length = length;
  listing = λ path d. succeeded [];
}

abbrev disk : Disk
disk =
    (codes "/ws", directory)
    ∷ (codes "/ws/a", file (codes "x"))
    ∷ (codes "/etc", file (codes "secret"))
    ∷ []

rooted : IsRooted (codes "/ws") disk
unfolding below parents_from Dict.get text_eq ends_with
rooted = (refl, tt)

file_ops-IsKeptOutside_example :
    IsKeptOutside workspace disk
      (file_ops workspace (codes "write") (codes "b/c") (codes "y") disk).1
file_ops-IsKeptOutside_example =
    file_ops-IsKeptOutside workspace (codes "write") (codes "b/c") (codes "y") disk rooted

-- The workspace itself is a path of the workspace, and can be deleted.
workspace_deleted :
    (file_ops workspace (codes "delete") (codes ".") [] disk).1
    ≡ (codes "/etc", file (codes "secret")) ∷ []
unfolding file_ops guarded operate resolve_safe_path clean_path lstrip_char is_within below
    delete_safe remove Dict.get text_eq starts_with ends_with one_of
workspace_deleted = refl

traversal_changes_nothing : (file_ops workspace (codes "delete") (codes "../etc") [] disk).1 ≡ disk
unfolding file_ops guarded operate resolve_safe_path clean_path lstrip_char is_within below text_eq
    starts_with ends_with one_of
traversal_changes_nothing = refl
