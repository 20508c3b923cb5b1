-- ===== src/Tools/FileOps.antt =====
-- enclave/tools/file_ops.py: file operations that are kept inside a workspace.
pub mod Paths
pub mod Laws
pub mod Tests
use agentic_ai_tee.Base.{
  ℕ, ◌*◌, ◌+◌, Bool, true, false, ◌&&◌, ◌||◌, not, Option, none, some, List, [], ◌∷◌, ◌++◌, take,
  length, ltb, ◌==◌, if◌then◌else◌, keep, is_empty, is_some, Text, codes, newline, decimal, join,
  text_eq, starts_with, ends_with, one_of, Value, bool, str, dict, Fields, end, field, get_field,
  truthy,
}
use agentic_ai_tee.Base.Result.{Result, ok, err}
use agentic_ai_tee.Base.Dict
use agentic_ai_tee.Base.Dict.{Dict}
use agentic_ai_tee.Agent.Models.{ToolOutput}
use agentic_ai_tee.Tools.Args.{missing, check_filled}
use agentic_ai_tee.Tools.Disk.{
  Node, directory, file, Disk, Platform, is_file_node, read_text, write_text, succeeded,
}
use agentic_ai_tee.Tools.Router.{failure}

-- A failed removal: its message, and which nodes it has left.
pub record RemovalFault : Type 0 where
  pub message : Text
  pub left : Text → Bool

-- The tool's directory, resolved, and what the operating system adds to `Platform`, whose `resolve`
-- stands for `(self._workspace_dir / clean).resolve()`.
pub record Workspace : Type 0 where
  pub root : Text
  pub platform : Platform
  pub mkdir_fault : Text → Option Text
  pub removal_fault : Text → Option RemovalFault
  -- the length in UTF-8, and the listing of a path that is there, which only reads
  pub encoded_length : Text → ℕ
  pub listing : Text → Disk → ToolOutput

abbrev pub max_read_bytes : ℕ
max_read_bytes = 100 * 1024

abbrev pub max_write_bytes : ℕ
max_write_bytes = 500 * 1024

abbrev pub valid_operations : List Text
valid_operations =
    codes "read" ∷ codes "write" ∷ codes "list" ∷ codes "delete" ∷ codes "exists" ∷ []

-- The text that every path below the directory begins with.
unfoldable pub below : Text → Text
below root = if ends_with root (codes "/") then root else root ++ codes "/"

-- `path.relative_to(root)` does not raise.
unfoldable pub is_within : Text → Text → Bool
is_within root path = text_eq path root || starts_with path (below root)

-- `t.lstrip(c)`
unfoldable pub lstrip_char : ℕ → Text → Text
lstrip_char c [] = []
lstrip_char c (d ∷ t) = let rest = lstrip_char c t in if d == c then rest else d ∷ t

unfoldable pub clean_path : Text → Text
clean_path path = lstrip_char b'\\' (lstrip_char b'/' path)

-- The directories above a path, from the top on; `seen` is what stands before it.
unfoldable pub parents_from : Text → Text → List Text
parents_from seen [] = []
parents_from seen (c ∷ t) =
    let rest = parents_from (seen ++ (c ∷ [])) t in
    if c == b'/' && not (is_empty seen) then seen ∷ rest else rest

abbrev pub parents : Text → List Text
parents = parents_from []

module _ (O : Workspace) where
  -- `_resolve_safe_path`
  unfoldable pub resolve_safe_path : Text → Option Text
  resolve_safe_path path =
      let candidate = O.platform.resolve (clean_path path) in
      if is_within O.root candidate then some candidate else none

  -- `mkdir(parents=True, exist_ok=True)`
  unfoldable pub make_dirs : List Text → Disk → Result Text (Unit {0}) × Disk
  make_dirs [] d = (ok tt, d)
  make_dirs (p ∷ ps) d = elim (Dict.get d p) [
    | some directory ↦ make_dirs ps d
    | some (file t) ↦ (err (codes "File exists: '" ++ (p ++ codes "'")), d)
    | none ↦ elim (O.mkdir_fault p) [
      | some message ↦ (err message, d)
      | none ↦ make_dirs ps (Dict.put d p directory)
    ]
  ]

  pub traversal_denied : Text → ToolOutput
  traversal_denied path = failure (codes "Path traversal denied: '" ++ (path ++ codes "'")) 0

  pub file_not_found : Text → ToolOutput
  file_not_found path = failure (codes "File not found: '" ++ (path ++ codes "'")) 0

  -- the content that a read returns, cut off
  unfoldable pub read_result : Text → Text
  read_result content =
      if ltb max_read_bytes (length content)
      then take max_read_bytes content ++ codes "\n... (truncated)"
      else content

  unfoldable pub read_safe : Text → Text → Disk → ToolOutput
  read_safe path safe d =
      if is_some (Dict.get d safe)
      then (if is_file_node (Dict.get d safe)
          then (elim (read_text O.platform safe d) [
            | ok content ↦ succeeded (read_result content)
            | err message ↦ failure (codes "Read failed: " ++ message) 0
          ])
          else failure (codes "Not a file: '" ++ (path ++ codes "'")) 0)
      else file_not_found path

  -- The write, behind the directories above it.
  unfoldable pub write_made : Text → Text → Text → Result Text (Unit {0}) × Disk → ToolOutput × Disk
  write_made path content safe (err message, d) = (failure (codes "Write failed: " ++ message) 0, d)
  write_made path content safe (ok u, d) =
      let (written, d') = write_text O.platform safe content d in
      (
        elim written [
          | ok u ↦ succeeded (
              codes "Written "
              ++ (decimal (length content) ++ (codes " chars to '" ++ (path ++ codes "'"))))
          | err message ↦ failure (codes "Write failed: " ++ message) 0
        ],
        d',
      )

  unfoldable pub write_safe : Text → Text → Text → Disk → ToolOutput × Disk
  write_safe path content safe d =
      if ltb max_write_bytes (O.encoded_length content)
      then (
        failure
            (codes "Content exceeds max write size ("
              ++ (decimal max_write_bytes ++ codes " bytes)"))
            0,
        d,
      )
      else write_made path content safe (make_dirs (parents safe) d)

  -- `unlink` and `rmtree`: what is at the path and below it goes, but for what a failure leaves.
  unfoldable pub remove : Text → (Text → Bool) → Disk → Disk
  remove safe left d = keep (λ e. not (is_within safe e.0) || left e.0) d

  unfoldable pub delete_safe : Text → Text → Disk → ToolOutput × Disk
  delete_safe path safe d =
      if is_some (Dict.get d safe)
      then (elim (O.removal_fault safe) [
        | none ↦ (succeeded (codes "Deleted '" ++ (path ++ codes "'")), remove safe (λ k. false) d)
        | some fault ↦
            (failure (codes "Delete failed: " ++ fault.message) 0, remove safe fault.left d)
      ])
      else (file_not_found path, d)

  abbrev type_name : Option Node → Text
  type_name none = codes "none"
  type_name (some directory) = codes "directory"
  type_name (some (file t)) = codes "file"

  unfoldable pub exists_safe : Text → Disk → ToolOutput
  exists_safe safe d = record {
    success = true;
    result = dict (
        field (codes "exists") (bool (is_some (Dict.get d safe)))
          (field (codes "type") (str (type_name (Dict.get d safe))) end));
    error = none;
    latency_ms = 0;
  }

  unfoldable pub list_safe : Text → Text → Disk → ToolOutput
  list_safe path safe d =
      if is_some (Dict.get d safe)
      then O.listing safe d
      else failure (codes "Directory not found: '" ++ (path ++ codes "'")) 0

  -- An operation behind `_resolve_safe_path`.
  unfoldable pub guarded :
      Text → Option Text → (Text → Disk → ToolOutput × Disk) → Disk → ToolOutput × Disk
  guarded path none f d = (traversal_denied path, d)
  guarded path (some safe) f d = f safe d

  unfoldable pub operate : Text → Text → Text → Text → Disk → ToolOutput × Disk
  operate operation path content safe d =
      if text_eq operation (codes "read")
      then (read_safe path safe d, d)
      else if text_eq operation (codes "write")
      then write_safe path content safe d
      else if text_eq operation (codes "list")
      then (list_safe path safe d, d)
      else if text_eq operation (codes "delete")
      then delete_safe path safe d
      else (exists_safe safe d, d)

  -- `run`: the operation, the path (or "."), and the content of a write.
  unfoldable pub file_ops : Text → Text → Text → Disk → ToolOutput × Disk
  file_ops operation path content d =
      if one_of operation valid_operations
      then guarded path (resolve_safe_path path) (operate operation path content) d
      else (failure (codes "Unknown operation: " ++ operation) 0, d)
