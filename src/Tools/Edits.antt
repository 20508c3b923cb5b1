-- ===== src/Tools/Edits.antt =====
-- enclave/tools/edit_file.py and multi_edit_tool.py: search-and-replace edits of a file.
pub mod Laws
pub mod Files
pub mod Args
pub mod Tests
use agentic_ai_tee.Base.{
  ℕ, ◌+◌, ◌-◌, Bool, true, false, ◌||◌, not, Option, none, some, List, [], ◌∷◌, ◌++◌, if◌then◌else◌,
  ◌==◌, ltb, take, length, is_empty, Text, codes, newline, decimal, Value, Items, Fields, nil, cons,
  str, list, dict, get_field, truthy, is_str, is_dict, has_field,
}
use agentic_ai_tee.Base.Texts.Replace.{count, replace_first}
use agentic_ai_tee.Base.Result.{Result, ok, err}
use agentic_ai_tee.Agent.Models.{ToolOutput}
use agentic_ai_tee.Tools.Router.{failure}
use agentic_ai_tee.Tools.Disk.{Disk, Platform, load_file, save_file}

pub record Edit : Type 0 where
  pub old_str : Text
  pub new_str : Text

pub not_found : Text → Text
not_found path =
    codes "old_str not found in '"
    ++ (path
        ++ codes
            "'. Make sure the string matches exactly (including whitespace and indentation). Use read_file to see the current contents.")

pub ambiguous : ℕ → Text → Text
ambiguous n path =
    codes "old_str matches "
    ++ (decimal n
        ++ (codes " locations in '"
            ++ (path
                ++ codes
                    "'. It must match exactly 1 location. Include more surrounding context in old_str to make it unique.")))

-- The text behind one edit of edit_file, or the error.
unfoldable pub edit_text : Text → Text → Edit → Result Text Text
edit_text path original e =
    if count original e.old_str == 0
    then err (not_found path)
    else if ltb 1 (count original e.old_str)
    then err (ambiguous (count original e.old_str) path)
    else ok (replace_first original e.old_str e.new_str)

-- `text.count("\n") + 1`
abbrev pub line_count : Text → ℕ
line_count t = count t newline + 1

-- " (+3 lines)" or " (-3 lines)", or what else stands for no change
pub delta_text : ℕ → ℕ → Text → Text
delta_text old_lines new_lines otherwise =
    if ltb old_lines new_lines
    then codes " (+" ++ (decimal (new_lines - old_lines) ++ codes " lines)")
    else if ltb new_lines old_lines
    then codes " (-" ++ (decimal (old_lines - new_lines) ++ codes " lines)")
    else otherwise

abbrev pub with_diff : Text → Text → Text
with_diff summary diff = if is_empty diff then summary else summary ++ (codes "\n\n" ++ diff)

module _ (P : Platform) where
  pub edit_summary : Text → Text → Text → Edit → Text
  edit_summary path original content e =
      with_diff
        (codes "Edited '"
          ++ (path
              ++ (codes "'"
                  ++ delta_text (line_count e.old_str) (line_count e.new_str)
                      (codes " (" ++ (decimal (line_count e.old_str) ++ codes " lines changed)")))))
        (P.unified_diff path original content)

  -- `EditFileTool.run`
  unfoldable pub edit_file : Text → Edit → Disk → ToolOutput × Disk
  edit_file path e d = elim (load_file P path d) [
    | err message ↦ (failure message 0, d)
    | ok original ↦ elim (edit_text path original e) [
      | err message ↦ (failure message 0, d)
      | ok content ↦ save_file P path (edit_summary path original content e) content d
    ]
  ]

-- The first error of multi_edit is a conditional of the whole message: only a long `old_str` gets it.
pub edit_not_found : Text → ℕ → Text → Text
edit_not_found path applied old_str =
    if ltb 80 (length old_str)
    then codes "Edit #"
      ++ (decimal (applied + 1)
          ++ (codes ": old_str not found in '"
              ++ (path
                  ++ (codes "' (after applying "
                      ++ (decimal applied
                          ++ (codes
                                " previous edits). Make sure the string matches exactly. old_str preview: '"
                              ++ (take 80 old_str ++ codes "...'")))))))
    else codes "old_str: '" ++ (old_str ++ codes "'")

pub edit_ambiguous : Text → ℕ → ℕ → Text
edit_ambiguous path applied n =
    codes "Edit #"
    ++ (decimal (applied + 1)
        ++ (codes ": old_str matches "
            ++ (decimal n
                ++ (codes " locations in '"
                    ++ (path
                        ++ codes
                            "'. Must match exactly 1. Include more context to make it unique.")))))

-- One pass of multi_edit's loop, with so many edits applied.
unfoldable pub edit_next : Text → ℕ → Text → Edit → Result Text Text
edit_next path applied current e =
    if count current e.old_str == 0
    then err (edit_not_found path applied e.old_str)
    else if ltb 1 (count current e.old_str)
    then err (edit_ambiguous path applied (count current e.old_str))
    else ok (replace_first current e.old_str e.new_str)

unfoldable pub apply_edits : Text → ℕ → Text → List Edit → Result Text Text
apply_edits path applied current [] = ok current
apply_edits path applied current (e ∷ es) = elim (edit_next path applied current e) [
  | err message ↦ err message
  | ok next ↦ apply_edits path (applied + 1) next es
]

module _ (P : Platform) where
  pub edits_summary : Text → Text → Text → ℕ → Text
  edits_summary path original content applied =
      with_diff
        (codes "Applied "
          ++ (decimal applied
              ++ (codes " edits to '"
                  ++ (path
                      ++ (codes "'" ++ delta_text (line_count original) (line_count content) [])))))
        (P.unified_diff path original content)

  -- `MultiEditTool.run`
  unfoldable pub multi_edit : Text → List Edit → Disk → ToolOutput × Disk
  multi_edit path edits d = elim (load_file P path d) [
    | err message ↦ (failure message 0, d)
    | ok original ↦ elim (apply_edits path 0 original edits) [
      | err message ↦ (failure message 0, d)
      | ok content ↦ save_file P path (edits_summary path original content (length edits)) content d
    ]
  ]
