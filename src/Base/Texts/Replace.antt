-- ===== src/Base/Texts/Replace.antt =====
-- Python's `t.count(s)` and `t.replace(s, r, 1)`, and what a count of one says.
use Prim.Native.Nat.{ℕ, zero, suc, ◌+◌, ◌-◌, ◌≤◌}
use mathlib.Core.Path.{◌≡◌, refl, ap, ◌∙◌}
use mathlib.Core.Logic.{inl, inr}
use mathlib.Core.Bool.{true, false}
use mathlib.Core.List.{[], ◌∷◌, ◌++◌}
use native.Mathlib.Omega.{arith}
use agentic_ai_tee.Base.Tests.{Bool-cases, leb, leb→le, leb→lt}
use agentic_ai_tee.Base.Lists.{length, take, drop}
use agentic_ai_tee.Base.Texts.{Text, starts_with}

-- The occurrences from so many characters on that do not overlap; `more` is the length of the text
-- sought less one.
unfoldable pub count_from : Text → ℕ → ℕ → Text → ℕ
count_from s more skip [] = 0
count_from s more (suc skip) (c ∷ t) = count_from s more skip t
count_from s more zero (c ∷ t) = elim (starts_with (c ∷ t) s) [
  | true ↦ suc (count_from s more more t)
  | false ↦ count_from s more zero t
]

-- The empty text occurs in front of each character and at the end.
unfoldable pub count : Text → Text → ℕ
count t [] = length t + 1
count t (c ∷ s) = count_from (c ∷ s) (length s) 0 t

unfoldable pub replace_first : Text → Text → Text → Text
replace_first t [] r = r ++ t
replace_first [] (d ∷ s) r = []
replace_first (c ∷ t) (d ∷ s) r = elim (starts_with (c ∷ t) (d ∷ s)) [
  | true ↦ r ++ drop (length s) t
  | false ↦ c ∷ replace_first t (d ∷ s) r
]

-- The text `s` stands in `t` at the place `j`.
abbrev pub OccursAt : Text → Text → ℕ → Type 0
OccursAt t s j = (j ≤ length t) × (starts_with (drop j t) s ≡ true)

none_past_end : (d : ℕ) (s : Text) (j : ℕ) → starts_with (drop j []) (d ∷ s) ≡ false
unfolding starts_with
none_past_end d s zero = refl
none_past_end d s (suc j) = refl

-- Without an occurrence that is counted, there is none from there on.
count_from_none :
    (d : ℕ) (s : Text) (more skip : ℕ) (t : Text)
    → count_from (d ∷ s) more skip t ≡ 0
    → (j : ℕ) → skip ≤ j
    → starts_with (drop j t) (d ∷ s) ≡ false
unfolding count_from
count_from_none d s more skip [] h j past = none_past_end d s j
count_from_none d s more (suc skip) (c ∷ t) h zero past = absurd (omega arith)
count_from_none d s more (suc skip) (c ∷ t) h (suc j) past =
    count_from_none d s more skip t h j (omega arith)
count_from_none d s more zero (c ∷ t) h zero past = ground arith
count_from_none d s more zero (c ∷ t) h (suc j) past =
    count_from_none d s more zero t (ground arith) j (omega arith)

-- The one occurrence that a count of one finds: the first, which all others overlap.
pub record IsOnly (t s r : Text) : Type 0 where
  pub place : ℕ
  pub found : OccursAt t s place
  pub replaced : replace_first t s r ≡ take place t ++ (r ++ drop (place + length s) t)
  pub others : (j : ℕ) → OccursAt t s j → (place ≤ j) × (j ≤ place + (length s - 1))

starts_with_nil : (t : Text) → starts_with t [] ≡ true
unfolding starts_with
starts_with_nil [] = refl
starts_with_nil (c ∷ t) = refl

-- an occurrence at the head, with none counted behind it
IsOnly-here :
    (c : ℕ) (t : Text) (d : ℕ) (s r : Text)
    → starts_with (c ∷ t) (d ∷ s) ≡ true
    → count_from (d ∷ s) (length s) (length s) t ≡ 0
    → IsOnly (c ∷ t) (d ∷ s) r
unfolding replace_first
IsOnly-here c t d s r here behind = record {
  place = 0;
  found = (omega arith, here);
  replaced =
      rw (here, replace_first)
        (ap (λ k. r ++ drop k (c ∷ t)) {x = suc (length s)} {y = 0 + length (d ∷ s)} (omega arith));
  others = λ j occurs. (omega arith, within j occurs);
}
  where
    within : (j : ℕ) → OccursAt (c ∷ t) (d ∷ s) j → j ≤ 0 + (length (d ∷ s) - 1)
    within zero occurs = omega arith
    within (suc j) occurs = elim (Bool-cases (leb (length s) j)) [
      | inl far ↦
          absurd
            (ground (arith, count_from_none d s (length s) (length s) t behind j (leb→le _ _ far)))
      | inr near ↦ omega (arith, leb→lt _ _ near)
    ]

IsOnly-later :
    (c : ℕ) (t : Text) (d : ℕ) (s r : Text)
    → starts_with (c ∷ t) (d ∷ s) ≡ false
    → IsOnly t (d ∷ s) r
    → IsOnly (c ∷ t) (d ∷ s) r
unfolding replace_first
IsOnly-later c t d s r not_here only = record {
  place = suc only.place;
  found = (omega (arith, only.found.0), only.found.1);
  replaced =
      rw (not_here, replace_first)
        (ap (λ u. c ∷ u) only.replaced
          ∙ ap (λ k. c ∷ (take only.place t ++ (r ++ drop k (c ∷ t))))
              {x = suc (only.place + length (d ∷ s))} {y = suc only.place + length (d ∷ s)}
              (omega arith));
  others = later;
}
  where
    later :
        (j : ℕ)
        → OccursAt (c ∷ t) (d ∷ s) j
        → (suc only.place ≤ j) × (j ≤ suc only.place + (length (d ∷ s) - 1))
    later zero occurs = absurd (ground arith)
    later (suc j) occurs =
        let (after, before) = only.others j (omega (arith, occurs.0), occurs.1) in
        (omega (arith, after), omega (arith, before))

count_from-IsOnly :
    (t : Text) (d : ℕ) (s r : Text) → count_from (d ∷ s) (length s) 0 t ≡ 1 → IsOnly t (d ∷ s) r
unfolding count_from
count_from-IsOnly [] d s r h = absurd (omega arith)
count_from-IsOnly (c ∷ t) d s r h = elim (Bool-cases (starts_with (c ∷ t) (d ∷ s))) [
  | inl here ↦ IsOnly-here c t d s r here (ground arith)
  | inr later ↦ IsOnly-later c t d s r later (count_from-IsOnly t d s r (ground arith))
]

pub count-IsOnly : (t s r : Text) → count t s ≡ 1 → IsOnly t s r
unfolding count replace_first
count-IsOnly (c ∷ t) [] r h = absurd (omega arith)
count-IsOnly [] [] r h = record {
  place = 0;
  found = (omega arith, starts_with_nil []);
  replaced = refl;
  others = λ j occurs. (omega arith, occurs.0);
}
count-IsOnly t (d ∷ s) r h = count_from-IsOnly t d s r h
