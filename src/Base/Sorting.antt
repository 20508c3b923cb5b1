-- ===== src/Base/Sorting.antt =====
-- Python's `list.sort(key=…, reverse=True)`: the largest key first, and equal keys in the order they had.
-- `le` compares the keys of two items, and is total and transitive.
use Prim.Native.Nat.{ℕ}
use mathlib.Core.Path.{◌≡◌}
use mathlib.Core.Logic.{inl, inr, ◌⊎◌}
use mathlib.Core.Bool.{Bool, true}
use mathlib.Core.List.{List, [], ◌∷◌, Perm}
use mathlib.Core.List.Perm
use native.Mathlib.Omega.{arith}
use agentic_ai_tee.Base.Tests.{leb, Bool-cases, if◌then◌else◌}
use agentic_ai_tee.Base.Lists.{All}

module _ {ℓ} {A : Type ℓ} (le : A → A → Bool) where
  -- An item that goes in front of those with a smaller key or the same.
  unfoldable pub insert_desc : A → List A → List A
  insert_desc x [] = x ∷ []
  insert_desc x (y ∷ ys) = let rest = insert_desc x ys in if le y x then x ∷ y ∷ ys else y ∷ rest

  unfoldable pub sort_desc : List A → List A
  unfolding insert_desc
  sort_desc [] = []
  sort_desc (x ∷ xs) = insert_desc x (sort_desc xs)

  insert_desc-perm : (x : A) (ys : List A) → Perm (insert_desc x ys) (x ∷ ys)
  unfolding insert_desc
  insert_desc-perm x [] = Perm.rfl
  insert_desc-perm x (y ∷ ys) = elim (Bool-cases (le y x)) [
    | inl before ↦ rw before Perm.rfl
    | inr after ↦ rw after (Perm.trans (Perm.cons y (insert_desc-perm x ys)) (Perm.swap x y ys))
  ]

  pub sort_desc-perm : (xs : List A) → Perm (sort_desc xs) xs
  unfolding sort_desc
  sort_desc-perm [] = Perm.rfl
  sort_desc-perm (x ∷ xs) =
      Perm.trans (insert_desc-perm x (sort_desc xs)) (Perm.cons x (sort_desc-perm xs))

  -- No key is above the one in front of it.
  abbrev pub Below : A → List A → Type 0
  Below x xs = All (λ y. le y x ≡ true) xs

  abbrev pub IsDesc : List A → Type 0
  IsDesc [] = Unit
  IsDesc (x ∷ xs) = Below x xs × IsDesc xs

  module _ (total : (x y : A) → (le x y ≡ true) ⊎ (le y x ≡ true))
      (trans : (x y z : A) → le x y ≡ true → le y z ≡ true → le x z ≡ true) where
    Below-weaken : (x y : A) (xs : List A) → le x y ≡ true → Below x xs → Below y xs
    Below-weaken x y [] h below = tt
    Below-weaken x y (z ∷ zs) h below = (trans z x y below.0 h, Below-weaken x y zs h below.1)

    insert_desc-Below :
        (z x : A) (ys : List A) → le x z ≡ true → Below z ys → Below z (insert_desc x ys)
    unfolding insert_desc
    insert_desc-Below z x [] h below = (h, tt)
    insert_desc-Below z x (y ∷ ys) h below = elim (Bool-cases (le y x)) [
      | inl before ↦ rw before (h, below)
      | inr after ↦ rw after (below.0, insert_desc-Below z x ys h below.1)
    ]

    insert_desc-IsDesc : (x : A) (ys : List A) → IsDesc ys → IsDesc (insert_desc x ys)
    unfolding insert_desc
    insert_desc-IsDesc x [] sorted = (tt, tt)
    insert_desc-IsDesc x (y ∷ ys) sorted = elim (Bool-cases (le y x)) [
      | inl before ↦ rw before ((before, Below-weaken y x ys before sorted.0), sorted)
      | inr after ↦ rw after (
        insert_desc-Below y x ys (ground (arith, total x y)) sorted.0,
        insert_desc-IsDesc x ys sorted.1,
      )
    ]

    pub sort_desc-IsDesc : (xs : List A) → IsDesc (sort_desc xs)
    unfolding sort_desc
    sort_desc-IsDesc [] = tt
    sort_desc-IsDesc (x ∷ xs) = insert_desc-IsDesc x (sort_desc xs) (sort_desc-IsDesc xs)

-- Keys that are numbers.
module _ {ℓ} {A : Type ℓ} (key : A → ℕ) where
  abbrev pub by_key : A → A → Bool
  by_key x y = leb (key x) (key y)

  pub by_key-total : (x y : A) → (by_key x y ≡ true) ⊎ (by_key y x ≡ true)
  by_key-total x y = ground arith

  pub by_key_trans : (x y z : A) → by_key x y ≡ true → by_key y z ≡ true → by_key x z ≡ true
  by_key_trans x y z h k = ground arith
