-- ===== src/Tools/Affixes.antt =====
-- What `startswith` and `endswith` say of a text.
use agentic_ai_tee.Base.{
  ◌≡◌, refl, ap, sym, ◌∙◌, true, [], ◌∷◌, ◌++◌, Text, starts_with, ends_with, arith,
}
use mathlib.Core.List.{reverse, reverse-append, reverse-reverse}

pub starts_with-append : (p rest : Text) → starts_with (p ++ rest) p ≡ true
unfolding starts_with
starts_with-append [] rest = refl
starts_with-append (d ∷ p) rest = ground (arith, starts_with-append p rest)

pub starts_with-rest : (t p : Text) → starts_with t p ≡ true → (rest : Text) × (t ≡ p ++ rest)
unfolding starts_with
starts_with-rest t [] h = (t, refl)
starts_with-rest [] (d ∷ p) h = absurd (cc)
starts_with-rest (c ∷ t) (d ∷ p) h =
    let (rest, e) = starts_with-rest t p (ground arith) in (rest, ground arith)

pub ends_with-append : (front p : Text) → ends_with (front ++ p) p ≡ true
unfolding ends_with
ends_with-append front p =
    rw (reverse-append front p) (starts_with-append (reverse p) (reverse front))

pub ends_with-front : (t p : Text) → ends_with t p ≡ true → (front : Text) × (t ≡ front ++ p)
unfolding ends_with
ends_with-front t p h =
    let (rest, e) = starts_with-rest (reverse t) (reverse p) h in
    (
      reverse rest,
      sym (reverse-reverse t)
          ∙ (ap reverse e
              ∙ (reverse-append (reverse p) rest
                  ∙ ap (λ q. reverse rest ++ q) (reverse-reverse p))),
    )
