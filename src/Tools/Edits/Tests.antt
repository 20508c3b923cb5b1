-- ===== src/Tools/Edits/Tests.antt =====
-- Edits of a small disk.
use agentic_ai_tee.Base.{
  ◌≡◌, refl, none, [], ◌∷◌, ◌++◌, Text, codes, str, list, dict, nil, cons, Fields, end, field,
  get_field, text_eq, starts_with,
}
use agentic_ai_tee.Base.Texts.Replace.{count, count_from, replace_first}
use agentic_ai_tee.Base.Result.{ok}
use agentic_ai_tee.Base.Dict
use agentic_ai_tee.Tools.Args.{check_filled, check_given}
use agentic_ai_tee.Tools.Disk.{
  Disk, Platform, file, load_file, read_text, universal_newlines, save_file, write_text,
}
use agentic_ai_tee.Tools.Edits.{Edit, multi_edit, edit_text, edit_next, apply_edits}
use agentic_ai_tee.Tools.Edits.Args.{
  validate_edit_file, validate_multi_edit, validate_edits, validate_edit, check_edits,
}

abbrev here : Platform
here = record {
  resolve = λ path. codes "/repo/" ++ path;
  read_fault = λ path. none;
  write_fault = λ path content. none;
  unified_diff = λ path before after. [];
}

abbrev disk : Disk
disk = (codes "/repo/a", file (codes "x = aaa")) ∷ []

abbrev first : Edit
first = record { old_str = codes "x ="; new_str = codes "y :=" }

abbrev second : Edit
second = record { old_str = codes "y"; new_str = codes "z" }

two_edits :
    (multi_edit here (codes "a") (first ∷ second ∷ []) disk).1
    ≡ (codes "/repo/a", file (codes "z := aaa")) ∷ []
unfolding multi_edit load_file read_text universal_newlines apply_edits edit_next count count_from
    replace_first save_file write_text Dict.get Dict.put text_eq starts_with
two_edits = refl

-- Two places that overlap count as one.
overlapping :
    edit_text (codes "a") (codes "x = aaa") (record { old_str = codes "aa"; new_str = codes "b" })
    ≡ ok (codes "x = ba")
unfolding edit_text count count_from replace_first starts_with
overlapping = refl

-- The line ends of a file change with its first edit.
line_ends : universal_newlines (codes "a\r\nb\rc") ≡ codes "a\nb\nc"
unfolding universal_newlines starts_with
line_ends = refl

abbrev edit_fields : Text → Text → Fields → Fields
edit_fields o n rest = field (codes "old_str") (str o) (field (codes "new_str") (str n) rest)

abbrev edit_args : Fields
edit_args = field (codes "path") (str (codes "a")) (edit_fields (codes "x") (codes "y") end)

edit_args-valid : validate_edit_file edit_args ≡ none
unfolding validate_edit_file check_filled check_given get_field text_eq
edit_args-valid = refl

abbrev multi_args : Fields
multi_args =
    field (codes "path") (str (codes "a"))
      (field (codes "edits") (list (cons (dict (edit_fields (codes "x") (codes "y") end)) nil)) end)

multi_args-valid : validate_multi_edit multi_args ≡ none
unfolding validate_multi_edit check_filled check_edits validate_edits validate_edit get_field
    text_eq
multi_args-valid = refl
