-- ===== src/Tools/Edits/Args.antt =====
-- The validation of the arguments of edit_file and multi_edit, and the tools as the router runs them.
use agentic_ai_tee.Base.{
  ℕ, ◌+◌, ◌≡◌, refl, false, Option, none, some, List, [], ◌∷◌, ◌++◌, if◌then◌else◌, is_empty, Text,
  codes, decimal, Value, str, list, dict, Items, nil, cons, Fields, get_field, truthy, has_field,
  arith,
}
use agentic_ai_tee.Base.Result.{Result, ok, err}
use agentic_ai_tee.Agent.Models.{ToolOutput, Exn, Stop, raised}
use agentic_ai_tee.Tools.Registry.{Tool}
use agentic_ai_tee.Tools.Args.{
  check_filled, check_given, or_then, missing, text_arg, check_filled-text, check_given-text,
  text_arg-str,
}
use agentic_ai_tee.Tools.Disk.{Disk, Platform}
use agentic_ai_tee.Tools.Edits.{Edit, edit_file, multi_edit}

-- `EditFileTool.validate_args`
unfoldable pub validate_edit_file : Fields → Option Text
validate_edit_file args = or_then (check_filled (codes "path") (get_field args (codes "path"))) (
    or_then (check_given (codes "old_str") (get_field args (codes "old_str")))
      (check_given (codes "new_str") (get_field args (codes "new_str"))))

abbrev pub edit_of : Fields → Option Edit
edit_of d = elim (text_arg d (codes "old_str")) [
  | none ↦ none
  | some o ↦ elim (text_arg d (codes "new_str")) [
    | none ↦ none
    | some n ↦ some (record { old_str = o; new_str = n })
  ]
]

-- "Edit #2", and what is wrong with it
pub edit_error : ℕ → Text → Text
edit_error i text = codes "Edit #" ++ (decimal (i + 1) ++ text)

abbrev check_key : Fields → Text → Text → Option Text
check_key d key error = if has_field d key then none else some error

abbrev check_text : Option Value → Text → Option Text
check_text (some (str t)) error = none
check_text _ error = some error

-- The checks of one edit of multi_edit.
unfoldable pub validate_edit : ℕ → Value → Option Text
validate_edit i (dict d) =
    or_then (check_key d (codes "old_str") (edit_error i (codes " missing 'old_str'"))) (
      or_then (check_key d (codes "new_str") (edit_error i (codes " missing 'new_str'"))) (
        or_then
          (check_text (get_field d (codes "old_str"))
            (edit_error i (codes ": 'old_str' must be a string")))
          (check_text (get_field d (codes "new_str"))
            (edit_error i (codes ": 'new_str' must be a string")))))
validate_edit i _ = some (edit_error i (codes " must be an object with 'old_str' and 'new_str'"))

unfoldable pub validate_edits : ℕ → Items → Option Text
validate_edits i nil = none
validate_edits i (cons v vs) = or_then (validate_edit i v) (validate_edits (i + 1) vs)

unfoldable pub check_edits : Option Value → Option Text
check_edits none = some (missing (codes "edits"))
check_edits (some (list nil)) = some (missing (codes "edits"))
check_edits (some (list (cons v vs))) = validate_edits 0 (cons v vs)
check_edits (some v) =
    if truthy v
    then some (codes "'edits' must be a list of {old_str, new_str} objects")
    else some (missing (codes "edits"))

-- `MultiEditTool.validate_args`
unfoldable pub validate_multi_edit : Fields → Option Text
validate_multi_edit args =
    or_then (check_filled (codes "path") (get_field args (codes "path")))
      (check_edits (get_field args (codes "edits")))

-- The edits that `run` reads, if all of them can be read.
abbrev pub read_edit : Value → Option Edit
read_edit (dict d) = edit_of d
read_edit _ = none

unfoldable pub read_edits : Items → Option (List Edit)
read_edits nil = some []
read_edits (cons v vs) = elim (read_edit v) [
  | none ↦ none
  | some e ↦ elim (read_edits vs) [ none ↦ none | some es ↦ some (e ∷ es) ]
]

abbrev pub edits_arg : Option Value → Option (List Edit)
edits_arg (some (list vs)) = read_edits vs
edits_arg _ = none

edit_of-texts :
    (d : Fields) (o n : Text)
    → get_field d (codes "old_str") ≡ some (str o)
    → get_field d (codes "new_str") ≡ some (str n)
    → edit_of d ≡ some (record { old_str = o; new_str = n })
edit_of-texts d o n p q = rw (p, q, edit_of, text_arg)

or_then-first : (a b : Option Text) → or_then a b ≡ none → a ≡ none
or_then-first none b h = refl
or_then-first (some e) b h = absurd (cc)

or_then-next : (a b : Option Text) → or_then a b ≡ none → b ≡ none
or_then-next none b h = h
or_then-next (some e) b h = absurd (cc)

-- If edit_file's validation lets arguments through, they hold a path that is not empty, and an edit.
pub validate_edit_file-reads :
    (args : Fields)
    → validate_edit_file args ≡ none
    → (path : Text) × (e : Edit) × (text_arg args (codes "path") ≡ some path)
      × (is_empty path ≡ false)
      × (edit_of args ≡ some e)
unfolding validate_edit_file
validate_edit_file-reads args h =
    let rest = or_then-next _ _ h in
    let (path, p, filled) = check_filled-text (codes "path") _ (or_then-first _ _ h) in
    let (o, q) = check_given-text (codes "old_str") _ (or_then-first _ _ rest) in
    let (n, r) = check_given-text (codes "new_str") _ (or_then-next _ _ rest) in
    (
      path,
      record { old_str = o; new_str = n },
      text_arg-str args _ path p,
      filled,
      edit_of-texts args o n q r,
    )

check_text-text :
    (v : Option Value) (error : Text) → check_text v error ≡ none → (t : Text) × (v ≡ some (str t))
check_text-text none error h = absurd (cc)
check_text-text (some (str t)) error h = (t, refl)
check_text-text (some v) error h = absurd (cc)

validate_edit-reads :
    (i : ℕ) (v : Value) → validate_edit i v ≡ none → (e : Edit) × (read_edit v ≡ some e)
unfolding validate_edit
validate_edit-reads i (dict d) h =
    let texts = or_then-next _ _ (or_then-next _ _ h) in
    let (o, q) = check_text-text _ _ (or_then-first _ _ texts) in
    let (n, r) = check_text-text _ _ (or_then-next _ _ texts) in
    (record { old_str = o; new_str = n }, edit_of-texts d o n q r)
validate_edit-reads i v h = absurd (cc)

read_edits-cons :
    (v : Value) (vs : Items) (e : Edit) (es : List Edit)
    → read_edit v ≡ some e
    → read_edits vs ≡ some es
    → read_edits (cons v vs) ≡ some (e ∷ es)
unfolding read_edits
read_edits-cons v vs e es p q = rw (read_edits, p, q)

validate_edits-reads :
    (i : ℕ) (vs : Items) → validate_edits i vs ≡ none → (es : List Edit) × (read_edits vs ≡ some es)
unfolding validate_edits read_edits
validate_edits-reads i nil h = ([], refl)
validate_edits-reads i (cons v vs) h =
    let (e, p) = validate_edit-reads i v (or_then-first _ _ h) in
    let (es, q) = validate_edits-reads (i + 1) vs (or_then-next _ _ h) in
    (e ∷ es, read_edits-cons v vs e es p q)

check_edits-reads :
    (v : Option Value) → check_edits v ≡ none → (es : List Edit) × (edits_arg v ≡ some es)
unfolding check_edits
check_edits-reads none h = absurd (cc)
check_edits-reads (some (list nil)) h = absurd (cc)
check_edits-reads (some (list (cons v vs))) h = validate_edits-reads 0 (cons v vs) h
check_edits-reads (some v) h = absurd (ground arith)

-- If multi_edit's validation lets arguments through, they hold a path that is not empty, and a list
-- of edits all of whose texts are there.
pub validate_multi_edit-reads :
    (args : Fields)
    → validate_multi_edit args ≡ none
    → (path : Text) × (es : List Edit) × (text_arg args (codes "path") ≡ some path)
      × (is_empty path ≡ false)
      × (edits_arg (get_field args (codes "edits")) ≡ some es)
unfolding validate_multi_edit
validate_multi_edit-reads args h =
    let (path, p, filled) = check_filled-text (codes "path") _ (or_then-first _ _ h) in
    let (es, q) = check_edits-reads _ (or_then-next _ _ h) in
    (path, es, text_arg-str args _ path p, filled, q)

-- The tools as the router runs them. What the arguments lack after a validation raises; it never does.
abbrev key_error : Exn
key_error = record { type_name = codes "KeyError"; message = []; is_timeout = false }

-- a run on what could be read of the arguments, and the time that it took
abbrev run_read :
    {A : Type 0}
    → Option Text
    → Option A
    → (Text → A → Disk → ToolOutput × Disk)
    → ℕ
    → Disk
    → Result Stop ToolOutput × ℕ × Disk
run_read (some path) (some a) f elapsed d =
    let (output, d') = f path a d in (ok output, elapsed, d')
run_read _ _ f elapsed d = (err (raised key_error), elapsed, d)

module _ (P : Platform) (elapsed : ℕ) where
  abbrev pub edit_file_tool : Fields → Tool Disk
  edit_file_tool definition = record {
    name = codes "edit_file";
    description =
        codes
          "Edit a file by replacing an exact string match with new content. The old_str must match exactly ONE location in the file (the tool will error if it matches zero or multiple locations). Always read the file first to see its current contents before editing. The tool returns a diff of the change.";
    definition = definition;
    validate_args = λ args. ok (validate_edit_file args);
    run = λ limit args d.
        run_read (text_arg args (codes "path")) (edit_of args) (edit_file P) elapsed d;
  }

  abbrev pub multi_edit_tool : Fields → Tool Disk
  multi_edit_tool definition = record {
    name = codes "multi_edit";
    description =
        codes
          "Apply multiple edits to a single file in one call. Each edit is a {old_str, new_str} pair applied sequentially. Use this when you need to make several non-adjacent changes to the same file — more efficient than multiple separate edit_file calls. Each old_str must match exactly one location in the file.";
    definition = definition;
    validate_args = λ args. ok (validate_multi_edit args);
    run = λ limit args d.
        run_read (text_arg args (codes "path")) (edits_arg (get_field args (codes "edits")))
          (multi_edit P) elapsed d;
  }
