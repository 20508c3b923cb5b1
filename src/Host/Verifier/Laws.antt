-- ===== src/Host/Verifier/Laws.antt =====
-- What a valid verification says of the PCR values and of a receipt.
use agentic_ai_tee.Base.{
  ◌≡◌, ◌≢◌, ◌↔◌, inl, inr, refl, Bool, true, false, Bool-cases, Option, none, some, List, [], ◌∷◌,
  ◌++◌, All, is_empty, length, Text, text_eq, text_eq_iff, ℤ, ◌==◌, and_left, and_right, arith,
}
use agentic_ai_tee.Base.Result.{Result, ok, err}
use agentic_ai_tee.Host.Verifier.{
  Pcrs, get_pcr, mismatch, find_mismatches, zeros, all_zero, verify_pcrs, Receipt, int_keys,
  same_hash, verify_task_integrity,
}

-- Every expected index has exactly its expected value.
abbrev pub Meets : Pcrs → Pcrs → Type 0
Meets expected actual = All (λ e. get_pcr actual e.0 ≡ some e.1) expected

-- Every value is written with zeros alone, as in debug mode; so is every value of no values.
abbrev pub AllZero : Pcrs → Type 0
AllZero actual = All (λ e. All (λ c. c ≡ b'0') e.1) actual

abbrev pub IsMeasured : Pcrs → Pcrs → Type 0
IsMeasured expected actual = (expected ≢ []) × (AllZero actual → ⊥) × Meets expected actual

mismatch_iff :
    (i : ℤ) (expected : Text) (actual : Option Text)
    → (mismatch i expected actual ≡ []) ↔ (actual ≡ some expected)
unfolding mismatch
mismatch_iff i expected none = ((λ h. absurd (cc)), (λ h. absurd (cc)))
mismatch_iff i expected (some a) = ground (arith, text_eq_iff a expected)

append_nil_iff : {A : Type 0} (xs ys : List A) → (xs ++ ys ≡ []) ↔ ((xs ≡ []) × (ys ≡ []))
append_nil_iff [] ys = ((λ h. (refl, h)), (λ h. h.1))
append_nil_iff (x ∷ xs) ys = ((λ h. absurd (cc)), (λ h. absurd (cc (h.0))))

find_mismatches_iff :
    (expected actual : Pcrs) → (find_mismatches expected actual ≡ []) ↔ Meets expected actual
unfolding find_mismatches
find_mismatches_iff [] actual = ((λ h. tt), (λ h. refl))
find_mismatches_iff ((i, v) ∷ rest) actual = (
  (λ h.
      let (p, q) = (append_nil_iff _ _).0 h in
      ((mismatch_iff i v _).0 p, (find_mismatches_iff rest actual).0 q)),
  (λ h.
      (append_nil_iff _ _).1 ((mismatch_iff i v _).1 h.0, (find_mismatches_iff rest actual).1 h.1)),
)

zeros_iff : (t : Text) → (text_eq t (zeros (length t)) ≡ true) ↔ All (λ c. c ≡ b'0') t
unfolding text_eq
zeros_iff [] = ((λ h. tt), (λ h. refl))
zeros_iff (c ∷ t) = (
  (λ h. (
    ground (arith, and_left (c == b'0') (text_eq t (zeros (length t))) h),
    (zeros_iff t).0 (and_right _ _ h),
  )),
  (λ h. ground (arith, (zeros_iff t).1 h.1)),
)

all_zero_iff : (actual : Pcrs) → (all_zero actual ≡ true) ↔ AllZero actual
unfolding all_zero
all_zero_iff [] = ((λ h. tt), (λ h. refl))
all_zero_iff ((i, v) ∷ rest) = (
  (λ h. ((zeros_iff v).0 (and_left _ _ h), (all_zero_iff rest).0 (and_right _ _ h))),
  (λ h. ground (arith, (zeros_iff v).1 h.0, (all_zero_iff rest).1 h.1)),
)

is_empty_iff : {A : Type 0} (xs : List A) → (is_empty xs ≡ true) ↔ (xs ≡ [])
is_empty_iff [] = ((λ h. refl), (λ h. refl))
is_empty_iff (x ∷ xs) = ((λ h. absurd (cc)), (λ h. absurd (cc)))

valid_tests :
    (expected actual : Pcrs)
    → ((verify_pcrs expected actual).valid ≡ true) ↔ (
        (is_empty expected ≡ false)
        × (all_zero actual ≡ false)
        × (is_empty (find_mismatches expected actual) ≡ true))
unfolding verify_pcrs
valid_tests expected actual = ground arith

-- PCR values verify exactly if some values are expected, the actual values are not all written with
-- zeros alone, and every expected index has exactly its expected value.
pub verify_pcrs_iff :
    (expected actual : Pcrs)
    → ((verify_pcrs expected actual).valid ≡ true) ↔ IsMeasured expected actual
verify_pcrs_iff expected actual = (
  (λ h.
      let (some_expected, some_measured, none_wrong) = (valid_tests expected actual).0 h in
      (
        (λ e. absurd (cc ((is_empty_iff expected).1 e, some_expected))),
        (λ zero. absurd (cc ((all_zero_iff actual).1 zero, some_measured))),
        (find_mismatches_iff expected actual).0 ((is_empty_iff _).0 none_wrong),
      )),
  (λ m. (valid_tests expected actual).1 (
    not_true (is_empty expected) (λ e. m.0 ((is_empty_iff expected).0 e)),
    not_true (all_zero actual) (λ z. m.1 ((all_zero_iff actual).0 z)),
    (is_empty_iff _).1 ((find_mismatches_iff expected actual).1 m.2),
  )),
)
  where
    not_true : (b : Bool) → (b ≡ true → ⊥) → b ≡ false
    not_true true h = absurd (h refl)
    not_true false h = refl

same_hash_iff : (h : Option Text) (t : Text) → (same_hash h t ≡ true) ↔ (h ≡ some t)
same_hash_iff none t = ((λ h. absurd (cc)), (λ h. absurd (cc)))
same_hash_iff (some h) t = ground (arith, text_eq_iff h t)

integrity_tests :
    (expected : Pcrs) (task_hash : Text) (receipt : Receipt) (keys : Result Text Pcrs)
    → int_keys [] receipt.pcrs ≡ keys
    → (verify_task_integrity expected task_hash receipt ≡ ok true) ↔ (
        (same_hash receipt.task_hash task_hash ≡ true)
        × (pcrs : Pcrs) × (keys ≡ ok pcrs)
        × ((verify_pcrs expected pcrs).valid ≡ true))
unfolding verify_task_integrity
integrity_tests expected task_hash receipt (err k) e =
    ((λ h. absurd (ground arith)), (λ x. absurd (cc (x.2))))
integrity_tests expected task_hash receipt (ok pcrs) e = (
  (λ h. elim (Bool-cases (same_hash receipt.task_hash task_hash)) [
    | inl same ↦ (same, pcrs, refl, ground arith)
    | inr other ↦ absurd (ground arith)
  ]),
  (λ x. let (same, p, q, valid) = x in ground arith),
)

-- A receipt verifies exactly if it has the task's hash, the indices of its PCR values are numbers, and
-- its values, by these numbers, are as measured.
pub verify_task_integrity_iff :
    (expected : Pcrs) (task_hash : Text) (receipt : Receipt)
    → (verify_task_integrity expected task_hash receipt ≡ ok true) ↔ (
        (receipt.task_hash ≡ some task_hash)
        × (pcrs : Pcrs) × (int_keys [] receipt.pcrs ≡ ok pcrs)
        × IsMeasured expected pcrs)
verify_task_integrity_iff expected task_hash receipt =
    let tests = integrity_tests expected task_hash receipt _ refl in
    (
      (λ h.
          let (same, pcrs, keys, valid) = tests.0 h in
          ((same_hash_iff _ _).0 same, pcrs, keys, (verify_pcrs_iff expected pcrs).0 valid)),
      (λ h.
          let (same, pcrs, keys, measured) = h in
          tests.1
            ((same_hash_iff _ _).1 same, pcrs, keys, (verify_pcrs_iff expected pcrs).1 measured)),
    )
