-- ===== src/Tools/Edits/Laws.antt =====
-- What edits make of a text: each replaces the one occurrence that its count found.
use agentic_ai_tee.Base.{
  ℕ, ◌+◌, ◌≡◌, false, inl, inr, List, [], ◌∷◌, ◌++◌, length, take, drop, ltb, ◌==◌, Bool-cases,
  Text, arith,
}
use mathlib.Core.Path.{subst}
use agentic_ai_tee.Base.Texts.Replace.{count, replace_first, IsOnly, count-IsOnly}
use agentic_ai_tee.Base.Result.{ok, Result-cases}
use agentic_ai_tee.Tools.Edits.{Edit, edit_text, edit_next, apply_edits}

-- A text edited: the old text stands in it, every place where it stands overlaps the first, and the
-- first is replaced.
pub record IsEdited (original : Text) (e : Edit) (content : Text) : Type 0 where
  pub only : IsOnly original e.old_str e.new_str
  pub spliced :
      content
      ≡ take only.place original ++ (e.new_str ++ drop (only.place + length e.old_str) original)

-- A text edited one edit after the other.
pub data Edited : Text → List Edit → Text → Type 0 where
  done : {t : Text} → Edited t [] t
  step :
      {t u v : Text} {e : Edit} {es : List Edit}
      → IsEdited t e u
      → Edited u es v
      → Edited t (e ∷ es) v

one_occurrence : (n : ℕ) → (n == 0) ≡ false → ltb 1 n ≡ false → n ≡ 1
one_occurrence n some_one few = ground arith

IsEdited-once :
    (t : Text) (e : Edit)
    → (count t e.old_str == 0) ≡ false
    → ltb 1 (count t e.old_str) ≡ false
    → IsEdited t e (replace_first t e.old_str e.new_str)
IsEdited-once t e some_one few =
    let only : IsOnly t e.old_str e.new_str =
      count-IsOnly t e.old_str e.new_str (one_occurrence _ some_one few) in
    record { only = only; spliced = only.replaced }

pub edit_text-IsEdited : (path t u : Text) (e : Edit) → edit_text path t e ≡ ok u → IsEdited t e u
unfolding edit_text
edit_text-IsEdited path t u e h = elim (Bool-cases (count t e.old_str == 0)) [
  | inl missing ↦ absurd (ground arith)
  | inr found ↦ elim (Bool-cases (ltb 1 (count t e.old_str))) [
    | inl many ↦ absurd (ground arith)
    | inr one ↦
        subst (IsEdited t e) {x = replace_first t e.old_str e.new_str} {y = u} (ground arith)
          (IsEdited-once t e found one)
  ]
]

edit_next-IsEdited :
    (path : Text) (applied : ℕ) (t u : Text) (e : Edit)
    → edit_next path applied t e ≡ ok u
    → IsEdited t e u
unfolding edit_next
edit_next-IsEdited path applied t u e h = elim (Bool-cases (count t e.old_str == 0)) [
  | inl missing ↦ absurd (ground arith)
  | inr found ↦ elim (Bool-cases (ltb 1 (count t e.old_str))) [
    | inl many ↦ absurd (ground arith)
    | inr one ↦
        subst (IsEdited t e) {x = replace_first t e.old_str e.new_str} {y = u} (ground arith)
          (IsEdited-once t e found one)
  ]
]

pub apply_edits-Edited :
    (path : Text) (applied : ℕ) (t v : Text) (es : List Edit)
    → apply_edits path applied t es ≡ ok v
    → Edited t es v
unfolding apply_edits
apply_edits-Edited path applied t v [] h = subst (Edited t []) {x = t} {y = v} (ground arith) done
apply_edits-Edited path applied t v (e ∷ es) h = elim (Result-cases (edit_next path applied t e)) [
  | inl (message, failed) ↦ absurd (ground arith)
  | inr (u, next) ↦
      step (edit_next-IsEdited path applied t u e next)
        (apply_edits-Edited path (applied + 1) u v es (ground arith))
]
