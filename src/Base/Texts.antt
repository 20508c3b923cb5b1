-- ===== src/Base/Texts.antt =====
-- Python's `str` as the list of its code points, and the methods of it that the program calls.
pub mod Length
pub mod Replace
use Prim.Native.Nat.{ℕ, zero, suc, ◌+◌, ◌/◌, ◌%◌}
use Prim.Native.Char.{code}
use Prim.Native.String.{String}
use mathlib.Core.Path.{◌≡◌, refl}
use mathlib.Core.Logic.{◌↔◌}
use mathlib.Core.Bool.{Bool, true, false, ◌&&◌, ◌||◌}
use mathlib.Core.List.{List, [], ◌∷◌, ◌++◌, reverse}
use native.Mathlib.Omega.{arith}
use agentic_ai_tee.Base.Tests.{◌==◌, ltb, leb, if◌then◌else◌}

abbrev pub Text : Type 0
Text = List ℕ

-- The code points of a literal.
abbrev pub codes : String → Text
codes String.[] = []
codes (String.◌∷◌ c s) = code c ∷ codes s

-- `s == t`
unfoldable pub text_eq : Text → Text → Bool
text_eq [] [] = true
text_eq [] (d ∷ t) = false
text_eq (c ∷ s) [] = false
text_eq (c ∷ s) (d ∷ t) = (c == d) && text_eq s t

pub text_eq_iff : (s t : Text) → (text_eq s t ≡ true) ↔ (s ≡ t)
unfolding text_eq
text_eq_iff [] [] = ground arith
text_eq_iff [] (d ∷ t) = ground arith
text_eq_iff (c ∷ s) [] = ground arith
text_eq_iff (c ∷ s) (d ∷ t) = ground (arith, text_eq_iff s t)

pub text_eq_refl : (s : Text) → text_eq s s ≡ true
text_eq_refl s = (text_eq_iff s s).1 refl

-- `t in {…}` for a set of texts that is written out.
unfoldable pub one_of : Text → List Text → Bool
unfolding text_eq
one_of t [] = false
one_of t (s ∷ ss) = text_eq s t || one_of t ss

-- `t.startswith(p)`
unfoldable pub starts_with : Text → Text → Bool
starts_with t [] = true
starts_with [] (d ∷ p) = false
starts_with (c ∷ t) (d ∷ p) = (c == d) && starts_with t p

-- `t.endswith(p)`
unfoldable pub ends_with : Text → Text → Bool
unfolding starts_with
ends_with t p = starts_with (reverse t) (reverse p)

-- `sep.join(parts)`
abbrev pub join : Text → List Text → Text
join sep [] = []
join sep (p ∷ []) = p
join sep (p ∷ q ∷ ps) = p ++ (sep ++ join sep (q ∷ ps))

abbrev pub newline : Text
newline = 10 ∷ []

-- The whitespace of `str.strip()` and `str.split()`, after `str.isspace`.
unfoldable pub is_space : ℕ → Bool
is_space c =
    (leb 9 c && leb c 13)
    || ((leb 28 c && leb c 32)
        || ((c == 133)
            || ((c == 160)
                || ((c == 5760)
                    || ((leb 8192 c && leb c 8202)
                        || ((c == 8232)
                            || ((c == 8233) || ((c == 8239) || ((c == 8287) || (c == 12288))))))))))

abbrev pub lstrip : Text → Text
lstrip [] = []
lstrip (c ∷ t) = elim (is_space c) [ true ↦ lstrip t | false ↦ c ∷ t ]

-- `t.strip()`
abbrev pub strip : Text → Text
strip t = reverse (lstrip (reverse (lstrip t)))

-- `str(n)` for a number, on fuel; a number has at most as many digits as its value plus one.
digits : ℕ → ℕ → Text → Text
digits zero n acc = acc
digits (suc f) n acc =
    let rest = digits f (n / 10) ((48 + n % 10) ∷ acc) in if ltb n 10 then (48 + n) ∷ acc else rest

unfoldable pub decimal : ℕ → Text
unfolding digits
decimal n = digits (suc n) n []

decimal_tests : (decimal 0 ≡ codes "0") × (decimal 4096 ≡ codes "4096")
unfolding decimal
decimal_tests = (refl, refl)

-- a comma behind every three digits, from the last digit on
abbrev commas : Text → Text
commas (a ∷ b ∷ c ∷ d ∷ t) = a ∷ b ∷ c ∷ b',' ∷ commas (d ∷ t)
commas t = t

-- `f"{n:,}"`
unfoldable pub grouped : ℕ → Text
unfolding decimal
grouped n = reverse (commas (reverse (decimal n)))

grouped_tests : (grouped 987 ≡ codes "987") × (grouped 1234567 ≡ codes "1,234,567")
unfolding grouped
grouped_tests = (refl, refl)
