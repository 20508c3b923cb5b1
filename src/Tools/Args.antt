-- ===== src/Tools/Args.antt =====
-- The checks of arguments that the tools' validate_args share, and the reading of what they let through.
use agentic_ai_tee.Base.{
  ◌≡◌, refl, false, Option, none, some, [], ◌∷◌, ◌++◌, if◌then◌else◌, is_empty, Text, codes, Value,
  none_value, str, Fields, get_field, truthy, is_str, arith,
}

abbrev pub missing : Text → Text
missing name = codes "Missing required argument: '" ++ (name ++ codes "'")

abbrev pub not_a_string : Text → Text
not_a_string name = codes "'" ++ (name ++ codes "' must be a string")

-- `if not v`, and then `if not isinstance(v, str)`
unfoldable pub check_filled : Text → Option Value → Option Text
check_filled name none = some (missing name)
check_filled name (some v) =
    if truthy v then (if is_str v then none else some (not_a_string name)) else some (missing name)

-- `if v is None`, and then `if not isinstance(v, str)`
unfoldable pub check_given : Text → Option Value → Option Text
check_given name none = some (missing name)
check_given name (some none_value) = some (missing name)
check_given name (some v) = if is_str v then none else some (not_a_string name)

-- The first error of two checks.
abbrev pub or_then : Option Text → Option Text → Option Text
or_then (some error) next = some error
or_then none next = next

abbrev pub text_of : Value → Option Text
text_of (str t) = some t
text_of _ = none

abbrev pub text_arg : Fields → Text → Option Text
text_arg args name = elim (get_field args name) [ none ↦ none | some v ↦ text_of v ]

pub check_filled-text :
    (name : Text) (v : Option Value)
    → check_filled name v ≡ none
    → (t : Text) × (v ≡ some (str t)) × (is_empty t ≡ false)
unfolding check_filled
check_filled-text name none h = absurd (cc)
check_filled-text name (some (str [])) h = absurd (cc)
check_filled-text name (some (str (c ∷ t))) h = (c ∷ t, refl, refl)
check_filled-text name (some v) h = absurd (ground arith)

pub check_given-text :
    (name : Text) (v : Option Value) → check_given name v ≡ none → (t : Text) × (v ≡ some (str t))
unfolding check_given
check_given-text name none h = absurd (cc)
check_given-text name (some none_value) h = absurd (cc)
check_given-text name (some (str t)) h = (t, refl)
check_given-text name (some v) h = absurd (ground arith)

pub text_arg-str :
    (args : Fields) (name t : Text)
    → get_field args name ≡ some (str t)
    → text_arg args name ≡ some t
text_arg-str args name t e = rw (e, text_arg)
