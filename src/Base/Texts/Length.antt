-- ===== src/Base/Texts/Length.antt =====
-- How long a printed number is.
use Prim.Native.Nat.{ℕ, zero, suc, ◌+◌, ◌*◌, ◌/◌, ◌≤◌, ◌<◌, min}
use mathlib.Core.Logic.{inl, inr}
use mathlib.Core.List.{[], ◌∷◌, reverse}
use native.Mathlib.Omega.{arith}
use agentic_ai_tee.Base.Tests.{ltb, Bool-cases, tests}
use agentic_ai_tee.Base.Lists.{length, length-reverse}
use agentic_ai_tee.Base.Texts.{Text, digits, decimal, commas, grouped}

-- one digit, one more from each of 10, 100, 1000 on, and one for each ten thousand
abbrev digit_bound : ℕ → ℕ
digit_bound n = 1 + min 1 (n / 10) + min 1 (n / 100) + min 1 (n / 1000) + n / 10000

length-digits :
    (f n : ℕ) (acc : Text) → n < f → length (digits f n acc) ≤ length acc + digit_bound n
unfolding digits
length-digits zero n acc h = absurd (omega arith)
length-digits (suc f) n acc h = elim (Bool-cases (ltb n 10)) [
  | inl small ↦ rw small (omega arith)
  | inr big ↦ rw big (omega (tests, length-digits f (n / 10) _ (omega tests)))
]

length-decimal : (n : ℕ) → length (decimal n) ≤ digit_bound n
unfolding decimal
length-decimal n = omega (arith, length-digits (suc n) n [])

length-commas : (t : Text) → length (commas t) ≤ 2 * length t
length-commas (a ∷ b ∷ c ∷ d ∷ t) = omega (arith, length-commas (d ∷ t))
length-commas t = omega arith

-- A number with its commas has few characters.
pub length-grouped : (n : ℕ) → length (grouped n) ≤ 10 + n / 5000
unfolding grouped
length-grouped n = omega (
  arith,
  length-reverse (commas (reverse (decimal n))),
  length-commas (reverse (decimal n)),
  length-reverse (decimal n),
  length-decimal n,
)
