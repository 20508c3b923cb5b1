-- ===== src/Tools/FileOps/Paths.antt =====
-- Paths below the workspace, and the directories above them.
use agentic_ai_tee.Base.{
  ◌≡◌, ◌⊎◌, inl, inr, refl, ap, sym, ◌∙◌, Bool, Bool-cases, true, false, some, List, [], ◌∷◌, ◌++◌,
  All, Text, codes, text_eq, text_eq_iff, ends_with, if◌then◌else◌, arith,
}
use agentic_ai_tee.Base.Dict
use agentic_ai_tee.Base.Dict.{get-put}
use agentic_ai_tee.Tools.Affixes.{starts_with-append, starts_with-rest}
use agentic_ai_tee.Tools.Disk.{directory, Disk}
use agentic_ai_tee.Tools.FileOps.{below, is_within, parents_from, parents}
use mathlib.Core.List.{append_assoc, append-nil}
use mathlib.Core.Path.{subst}

module _ (Q : Text → Type 0) where
  with_cut :
      (b : Bool) (x : Text) (xs : List Text)
      → (b ≡ true → Q x)
      → All Q xs
      → All Q (if b then x ∷ xs else xs)
  with_cut true x xs h hs = (h refl, hs)
  with_cut false x xs h hs = hs

  of_cut :
      (b : Bool) (x : Text) (xs : List Text)
      → All Q (if b then x ∷ xs else xs)
      → (b ≡ true → Q x) × All Q xs
  of_cut true x xs (h, hs) = ((λ e. h), hs)
  of_cut false x xs hs = ((λ e. absurd (cc)), hs)

  -- If it holds of every path that begins so, it holds of the directories above one.
  All-parents_below : (seen t : Text) → ((f : Text) → Q (seen ++ f)) → All Q (parents_from seen t)
  unfolding parents_from
  All-parents_below seen [] begins = tt
  All-parents_below seen (c ∷ t) begins =
      with_cut _ seen _ (λ e. subst Q (append-nil seen) (begins []))
        (All-parents_below (seen ++ (c ∷ [])) t
          (λ f. subst Q (sym (append_assoc seen (c ∷ []) f)) (begins (c ∷ f))))

  -- Whatever holds of the directories above a prefix, and of all paths that begin with the prefix,
  -- holds of the directories above such a path.
  All-parents_from :
      (seen r rest : Text)
      → All Q (parents_from seen r)
      → ((f : Text) → Q (seen ++ (r ++ f)))
      → All Q (parents_from seen (r ++ rest))
  unfolding parents_from
  All-parents_from seen [] rest h begins = All-parents_below seen rest begins
  All-parents_from seen (c ∷ r) rest h begins =
      let (here, deeper) = of_cut _ seen _ h in
      with_cut _ seen _ here (
        All-parents_from (seen ++ (c ∷ [])) r rest deeper
          (λ f. subst Q (sym (append_assoc seen (c ∷ []) (r ++ f))) (begins f)))

  -- What holds of the directories above a path holds of those above a prefix of it.
  All-parents_prefix :
      (seen r rest : Text) → All Q (parents_from seen (r ++ rest)) → All Q (parents_from seen r)
  unfolding parents_from
  All-parents_prefix seen [] rest h = tt
  All-parents_prefix seen (c ∷ r) rest h =
      let (here, deeper) = of_cut _ seen _ h in
      with_cut _ seen _ here (All-parents_prefix (seen ++ (c ∷ [])) r rest deeper)

All-imp : (P Q : Text → Type 0) → ((t : Text) → P t → Q t) → (ts : List Text) → All P ts → All Q ts
All-imp P Q f [] h = tt
All-imp P Q f (t ∷ ts) h = (f t h.0, All-imp P Q f ts h.1)

module _ (root : Text) where
  pub is_within-below : (f : Text) → is_within root (below root ++ f) ≡ true
  unfolding is_within
  is_within-below f = grind (arith, starts_with-append (below root) f)

  pub is_within-cases :
      (path : Text)
      → is_within root path ≡ true
      → (path ≡ root) ⊎ ((rest : Text) × (path ≡ below root ++ rest))
  unfolding is_within
  is_within-cases path h = elim (Bool-cases (text_eq path root)) [
    | inl same ↦ inl ((text_eq_iff path root).0 same)
    | inr below_it ↦ inr (starts_with-rest path (below root) (ground arith))
  ]

  pub below-prefix : (rest : Text) × (below root ≡ root ++ rest)
  unfolding below
  below-prefix = elim (Bool-cases (ends_with root (codes "/"))) [
    | inl slash ↦ ([], rw slash (sym (append-nil root)))
    | inr plain ↦ (codes "/", rw plain refl)
  ]

  -- The directory and those above it are there.
  abbrev pub IsRooted : Disk → Type 0
  IsRooted d = All (λ p. Dict.get d p ≡ some directory) (parents (below root))

  abbrev pub IsMade : Disk → Text → Type 0
  IsMade d p = (is_within root p ≡ true) ⊎ (Dict.get d p ≡ some directory)

  pub parents-IsMade :
      (d : Disk) (path : Text)
      → IsRooted d
      → is_within root path ≡ true
      → All (IsMade d) (parents path)
  parents-IsMade d path rooted inside =
      let made = All-imp _ (IsMade d) (λ p e. inr e) _ rooted in
      elim (is_within-cases path inside) [
        | inl same ↦
            let (rest, e) = below-prefix in
            subst (λ p. All (IsMade d) (parents p)) (sym same)
              (All-parents_prefix (IsMade d) [] root rest
                (subst (λ p. All (IsMade d) (parents p)) e made))
        | inr (rest, e) ↦
            subst (λ p. All (IsMade d) (parents p)) (sym e)
              (All-parents_from (IsMade d) [] (below root) rest made (λ f. inl (is_within-below f)))
      ]

is_within_trans :
    (root path deeper : Text)
    → is_within root path ≡ true
    → is_within path deeper ≡ true
    → is_within root deeper ≡ true
is_within_trans root path deeper h k = elim (is_within-cases root path h) [
  | inl same ↦ subst (λ p. is_within p deeper ≡ true) same k
  | inr (rest, e) ↦ elim (is_within-cases path deeper k) [
    | inl same ↦ subst (λ p. is_within root p ≡ true) (sym same) h
    | inr (more, e') ↦
        let (slash, b) = below-prefix path in
        subst (λ p. is_within root p ≡ true)
          (sym (
            e'
            ∙ (ap (λ p. p ++ more) b
                ∙ (append_assoc path slash more
                    ∙ (ap (λ p. p ++ (slash ++ more)) e
                        ∙ append_assoc (below root) rest (slash ++ more))))))
          (is_within-below root (rest ++ (slash ++ more)))
  ]
]

pub is_within-outside :
    (root path j : Text)
    → is_within root path ≡ true
    → is_within root j ≡ false
    → is_within path j ≡ false
is_within-outside root path j inside out = elim (Bool-cases (is_within path j)) [
  | inl deeper ↦ absurd (cc (is_within_trans root path j inside deeper))
  | inr apart ↦ apart
]
