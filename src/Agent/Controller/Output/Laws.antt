-- ===== src/Agent/Controller/Output/Laws.antt =====
-- What a truncated output keeps, and how long it can be.
use agentic_ai_tee.Base.Texts.Length.{length-grouped}
use mathlib.Core.List.{append_assoc}
use agentic_ai_tee.Base.{
  leb→lt, drop-append, ◌⊎◌, ℕ, zero, suc, ◌+◌, ◌-◌, ◌/◌, ◌≤◌, ◌<◌, ◌≡◌, refl, ap, ◌∙◌, sym, true,
  [], ◌∷◌, ◌++◌, leb, ltb, if◌then◌else◌, length, take, drop, last_n, Text, grouped, codes, arith,
  length-append, length-take, length-last_n, Bool-cases, inl, inr, leb→le, lt→leb,
}
use agentic_ai_tee.Agent.Controller.Output.{
  max_tool_output_chars, truncation_keep_head, truncation_keep_tail, truncation_mark,
  truncate_output, preview_value,
}

length-cut : (n : ℕ) (t : Text) → length (if ltb n (length t) then take n t else t) ≤ n
length-cut n t = ground (arith, length-take n t)

length-cut_dots :
    (n : ℕ) (t : Text) → length (if ltb n (length t) then take n t ++ codes "..." else t) ≤ n + 3
length-cut_dots n t = ground (arith, length-take n t, length-append (take n t) (codes "..."))

-- A preview is at most 200 characters long, whatever the argument.
pub preview_value_bound : (key value : Text) → length (preview_value key value) ≤ 200
unfolding preview_value
preview_value_bound key value =
    ground (arith, length-cut_dots 100 value, length-cut 200 value, length-cut 150 value)

length-truncation_mark : (n : ℕ) → length (truncation_mark n) ≤ 50 + n / 5000
unfolding truncation_mark
length-truncation_mark n =
    omega (arith, length-grouped n, length-append (grouped n) (codes " characters...]\n\n"))

truncate_short :
    (output : Text)
    → leb (length output) max_tool_output_chars ≡ true
    → truncate_output output ≡ output
unfolding truncate_output
truncate_short output h = rw h

truncate_long :
    (output : Text)
    → max_tool_output_chars < length output
    → truncate_output output
      ≡ take truncation_keep_head output
        ++ (truncation_mark (length output - truncation_keep_head - truncation_keep_tail)
            ++ last_n truncation_keep_tail output)
unfolding truncate_output
truncate_long output h = rw (lt→leb _ _ h)

take-take : (n : ℕ) (xs ys : Text) → n ≤ length xs → take n (take n xs ++ ys) ≡ take n xs
take-take zero xs ys h = refl
take-take (suc n) [] ys h = absurd (omega arith)
take-take (suc n) (x ∷ xs) ys h = ap (λ t. x ∷ t) (take-take n xs ys (omega arith))

last_n-append : (n : ℕ) (xs ys : Text) → length ys ≡ n → last_n n (xs ++ ys) ≡ ys
last_n-append n xs ys h =
    ap (λ k. drop k (xs ++ ys)) (omega (arith, length-append xs ys)) ∙ drop-append xs ys

-- What is kept of an output past the limit: its first and its last ten thousand characters.
abbrev pub KeepsEnds : Text → Text → Type 0
KeepsEnds output cut =
    (take truncation_keep_head cut ≡ take truncation_keep_head output)
    × (last_n truncation_keep_tail cut ≡ last_n truncation_keep_tail output)

truncate-KeepsEnds :
    (output : Text)
    → max_tool_output_chars < length output
    → KeepsEnds output (truncate_output output)
truncate-KeepsEnds output h = rw (truncate_long output h) (
  take-take truncation_keep_head output _ (omega arith),
  ap (last_n truncation_keep_tail) (sym (append_assoc (take truncation_keep_head output) _ _))
      ∙ last_n-append truncation_keep_tail (take truncation_keep_head output ++ _) _
          (omega (arith, length-last_n truncation_keep_tail output)),
)

truncate-length :
    (output : Text)
    → max_tool_output_chars < length output
    → length (truncate_output output) ≤ 20_050 + length output / 5000
truncate-length output h = rw (truncate_long output h) (
    omega (
      arith,
      length-append (take truncation_keep_head output) _,
      length-append (truncation_mark (length output - truncation_keep_head - truncation_keep_tail))
          (last_n truncation_keep_tail output),
      length-take truncation_keep_head output,
      length-last_n truncation_keep_tail output,
      length-truncation_mark (length output - truncation_keep_head - truncation_keep_tail),
    ))

-- An output of at most 30,000 characters is left alone. A longer one keeps its first and its last
-- 10,000 characters, and becomes shorter: 20,050 characters, and one for each 5,000 that it had.
pub truncate_output_lem :
    (output : Text)
    → ((length output ≤ max_tool_output_chars) × (truncate_output output ≡ output))
      ⊎ ((max_tool_output_chars < length output)
          × KeepsEnds output (truncate_output output)
          × (length (truncate_output output) ≤ 20_050 + length output / 5000)
          × (length (truncate_output output) < length output))
truncate_output_lem output = elim (Bool-cases (leb (length output) max_tool_output_chars)) [
  | inl short ↦ inl (leb→le _ _ short, truncate_short output short)
  | inr long ↦
      let h : max_tool_output_chars < length output = leb→lt _ _ long in
      inr (
        h,
        truncate-KeepsEnds output h,
        truncate-length output h,
        omega (arith, truncate-length output h),
      )
]
