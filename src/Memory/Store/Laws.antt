-- ===== src/Memory/Store/Laws.antt =====
-- The store keeps the latest entries.
use mathlib.Core.List.{append_assoc, append-nil}
use agentic_ai_tee.Base.{
  ℕ, zero, suc, ◌+◌, ◌-◌, ◌≤◌, ◌<◌, ◌≡◌, refl, sym, ap, ◌∙◌, false, Bool-cases, inl, inr, List, [],
  ◌∷◌, ◌++◌, ltb, ltb→le, ◌==◌, length, length-append, length-drop, drop, last_n, arith,
}
use agentic_ai_tee.Memory.Store.{MemoryEntry, store, store_all, slice_last}

module _ {A : Type 0} where
  drop-append_le : (k : ℕ) (xs ys : List A) → k ≤ length xs → drop k xs ++ ys ≡ drop k (xs ++ ys)
  drop-append_le zero xs ys h = refl
  drop-append_le (suc k) [] ys h = absurd (omega arith)
  drop-append_le (suc k) (x ∷ xs) ys h = drop-append_le k xs ys (omega arith)

  drop-nil : (n : ℕ) → drop {A = A} n [] ≡ []
  drop-nil zero = refl
  drop-nil (suc n) = refl

  drop-drop : (j k : ℕ) (xs : List A) → drop j (drop k xs) ≡ drop (k + j) xs
  drop-drop j zero xs = ap (λ n. drop n xs) (omega arith)
  drop-drop j (suc k) [] = drop-nil j ∙ sym (drop-nil (suc k + j))
  drop-drop j (suc k) (x ∷ xs) =
      drop-drop j k xs ∙ ap (λ n. drop n (x ∷ xs)) {x = suc (k + j)} {y = suc k + j} (omega arith)

  -- Of the last items and one more, the last items are those of all of them.
  last_n-last_n :
      (n : ℕ) (xs : List A) (x : A) → last_n n (last_n n xs ++ (x ∷ [])) ≡ last_n n (xs ++ (x ∷ []))
  last_n-last_n n xs x =
      ap (last_n n) (drop-append_le (length xs - n) xs (x ∷ []) (omega arith))
      ∙ (drop-drop (length (drop (length xs - n) (xs ++ (x ∷ []))) - n) (length xs - n)
            (xs ++ (x ∷ []))
          ∙ ap (λ k. drop k (xs ++ (x ∷ [])))
              (omega
                (arith, length-drop (length xs - n) (xs ++ (x ∷ [])), length-append xs (x ∷ []))))

not_zero : (n : ℕ) → 0 < n → (n == 0) ≡ false
not_zero n h = ground arith

store-last_n :
    (n : ℕ) (entries : List MemoryEntry) (e : MemoryEntry)
    → 0 < n
    → store n entries e ≡ last_n n (entries ++ (e ∷ []))
unfolding store
store-last_n zero entries e positive = absurd (omega arith)
store-last_n (suc m) entries e positive =
    elim (Bool-cases (ltb (suc m) (length (entries ++ (e ∷ []))))) [
      | inl many ↦ rw (many, slice_last, not_zero (suc m) positive)
      | inr few ↦ rw few (
          ap (λ k. drop k (entries ++ (e ∷ []))) {x = 0} {y = length (entries ++ (e ∷ [])) - suc m}
            (omega (arith, ltb→le _ _ few)))
    ]

-- A store of one entry or more at most keeps, of the entries stored in it one after the other, the last
-- ones, in order and as many as it may hold.
pub store_all_lem :
    (n : ℕ) (stored es : List MemoryEntry)
    → 0 < n
    → store_all n (last_n n stored) es ≡ last_n n (stored ++ es)
unfolding store_all
store_all_lem n stored [] positive = ap (last_n n) (sym (append-nil stored))
store_all_lem n stored (e ∷ es) positive =
    ap (λ entries. store_all n entries es)
      (store-last_n n (last_n n stored) e positive ∙ last_n-last_n n stored e)
    ∙ (store_all_lem n (stored ++ (e ∷ [])) es positive
        ∙ ap (last_n n) (append_assoc stored (e ∷ []) es))
