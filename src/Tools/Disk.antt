-- ===== src/Tools/Disk.antt =====
-- The file system that the file tools read and write through pathlib: nodes by resolved path.
use agentic_ai_tee.Base.{
  Bool, true, false, Option, none, some, [], ◌∷◌, ◌++◌, if◌then◌else◌, ◌==◌, Text, codes, newline,
  starts_with, is_some, str,
}
use agentic_ai_tee.Base.Result.{Result, ok, err}
use agentic_ai_tee.Base.Dict
use agentic_ai_tee.Base.Dict.{Dict, contains}
use agentic_ai_tee.Agent.Models.{ToolOutput}
use agentic_ai_tee.Tools.Router.{failure}

-- A file holds the text that its UTF-8 bytes decode to, line ends as they are.
pub data Node : Type 0 where
  directory : Node
  file : Text → Node

abbrev pub Disk : Type 0
Disk = Dict Node

-- A failed write: its message, and the text that it leaves in the file if it had opened it.
pub record WriteFault : Type 0 where
  pub message : Text
  pub left : Option Text

-- What the operating system and the library add: how a path resolves from the project's root, which
-- reads and writes fail, and `difflib.unified_diff` joined, of a path and the texts before and after.
pub record Platform : Type 0 where
  pub resolve : Text → Text
  pub read_fault : Text → Option Text
  pub write_fault : Text → Text → Option WriteFault
  pub unified_diff : Text → Text → Text → Text

-- What reading in text mode makes of line ends: "\r\n" and "\r" become "\n".
unfoldable pub universal_newlines : Text → Text
universal_newlines [] = []
universal_newlines (c ∷ t) =
    let rest = universal_newlines t in
    if c == 13 then (if starts_with t newline then rest else 10 ∷ rest) else c ∷ rest

abbrev pub is_file_node : Option Node → Bool
is_file_node (some (file t)) = true
is_file_node _ = false

-- `Path.read_text`
unfoldable pub read_text : Platform → Text → Disk → Result Text Text
read_text P path d = elim (P.read_fault path) [
  | some message ↦ err message
  | none ↦ elim (Dict.get d path) [
    | some (file t) ↦ ok (universal_newlines t)
    | _ ↦ err (codes "No such file or directory")
  ]
]

-- `Path.write_text`
unfoldable pub write_text : Platform → Text → Text → Disk → Result Text (Unit {0}) × Disk
write_text P path content d = elim (P.write_fault path content) [
  | none ↦ (ok tt, Dict.put d path (file content))
  | some fault ↦ elim fault.left [
    | none ↦ (err fault.message, d)
    | some left ↦ (err fault.message, Dict.put d path (file left))
  ]
]

abbrev pub succeeded : Text → ToolOutput
succeeded result = record { success = true; result = str result; error = none; latency_ms = 0 }

-- The checks and the read with which edit_file and multi_edit begin.
unfoldable pub load_file : Platform → Text → Disk → Result Text Text
load_file P path_str d =
    let node = Dict.get d (P.resolve path_str) in
    if is_some node
    then (if is_file_node node
        then (elim (read_text P (P.resolve path_str) d) [
          | ok original ↦ ok original
          | err message ↦ err (codes "Failed to read file: " ++ message)
        ])
        else err (codes "Not a file: '" ++ (path_str ++ codes "'")))
    else err (codes "File not found: '" ++ (path_str ++ codes "'"))

-- The write with which they end.
unfoldable pub save_file : Platform → Text → Text → Text → Disk → ToolOutput × Disk
save_file P path_str result content d =
    let (written, d') = write_text P (P.resolve path_str) content d in
    (
      elim written [
        | ok u ↦ succeeded result
        | err message ↦ failure (codes "Failed to write file: " ++ message) 0
      ],
      d',
    )
