-- ===== src/Host/Verifier.antt =====
-- host/attestation/verifier.py: PCR values against their expected measurements, and task receipts.
-- The values are texts, as the signatures say; a receipt's other fields are not read.
pub mod Laws
pub mod Tests
use agentic_ai_tee.Base.{
  ℕ, zero, suc, ◌+◌, ◌*◌, ◌-◌, Bool, true, false, not, ◌&&◌, ◌||◌, Option, none, some, List, [],
  ◌∷◌, ◌++◌, map, if◌then◌else◌, ◌==◌, leb, all, is_empty, take, length, Text, codes, text_eq, join,
  strip, decimal, ℤ, pos, negsuc,
}
use agentic_ai_tee.Base.Result.{Result, ok, err}

abbrev pub eq_int : ℤ → ℤ → Bool
eq_int (pos m) (pos n) = m == n
eq_int (negsuc m) (negsuc n) = m == n
eq_int _ _ = false

pub int_text : ℤ → Text
int_text (pos n) = decimal n
int_text (negsuc n) = codes "-" ++ decimal (n + 1)

-- PCR index to hex value
abbrev pub Pcrs : Type 0
Pcrs = List (ℤ × Text)

unfoldable pub get_pcr : Pcrs → ℤ → Option Text
get_pcr [] i = none
get_pcr ((j, v) ∷ d) i = if eq_int j i then some v else get_pcr d i

unfoldable pub put_pcr : Pcrs → ℤ → Text → Pcrs
put_pcr [] i v = (i, v) ∷ []
put_pcr ((j, w) ∷ d) i v = if eq_int j i then (j, v) ∷ d else (j, w) ∷ put_pcr d i v

pub data Details : Type 0 where
  no_details : Details
  debug_mode : Details
  mismatched : List Text → Details

pub record VerificationResult : Type 0 where
  pub valid : Bool
  pub pcrs : Pcrs
  pub image_hash_match : Bool
  pub certificate_valid : Bool
  pub error : Option Text
  pub details : Details

pub missing_pcr : ℤ → Text
missing_pcr i = codes "PCR[" ++ (int_text i ++ codes "]: missing from attestation")

pub wrong_pcr : ℤ → Text → Text → Text
wrong_pcr i expected actual =
    codes "PCR["
    ++ (int_text i
        ++ (codes "]: expected "
            ++ (take 16 expected ++ (codes "... got " ++ (take 16 actual ++ codes "...")))))

-- What one expected value adds to the mismatches.
unfoldable pub mismatch : ℤ → Text → Option Text → List Text
mismatch i expected none = missing_pcr i ∷ []
mismatch i expected (some actual) =
    if text_eq actual expected then [] else wrong_pcr i expected actual ∷ []

unfoldable pub find_mismatches : Pcrs → Pcrs → List Text
find_mismatches [] actual = []
find_mismatches ((i, expected) ∷ rest) actual =
    mismatch i expected (get_pcr actual i) ++ find_mismatches rest actual

-- `"0" * n`
abbrev pub zeros : ℕ → Text
zeros zero = []
zeros (suc n) = b'0' ∷ zeros n

-- `v == "0" * len(v)` for all values
unfoldable pub all_zero : Pcrs → Bool
all_zero pcrs = all (λ e. text_eq e.1 (zeros (length e.1))) pcrs

abbrev pub invalid : Pcrs → Text → Details → VerificationResult
invalid pcrs message details = record {
  valid = false;
  pcrs = pcrs;
  image_hash_match = false;
  certificate_valid = false;
  error = some message;
  details = details;
}

-- `verify_pcrs`, with the expected values of the verifier
unfoldable pub verify_pcrs : Pcrs → Pcrs → VerificationResult
verify_pcrs expected actual =
    let mismatches = find_mismatches expected actual in
    if is_empty expected
    then invalid actual (codes "No expected PCR values configured") no_details
    else if all_zero actual
    then invalid actual (codes "All PCR values are zero — enclave is in debug mode") debug_mode
    else if not (is_empty mismatches)
    then invalid actual (codes "PCR mismatch: " ++ join (codes "; ") mismatches)
        (mismatched mismatches)
    else record {
      valid = true;
      pcrs = actual;
      image_hash_match = true;
      certificate_valid = true;
      error = none;
      details = no_details;
    }

abbrev pub is_digit : ℕ → Bool
is_digit c = leb b'0' c && leb c b'9'

-- The digits of `int(text)`, of which two may have one underscore between them. `after_digit` tells
-- whether a digit stands in front.
unfoldable pub read_digits : Bool → ℕ → Text → Option ℕ
read_digits after_digit n [] = if after_digit then some n else none
read_digits after_digit n (c ∷ t) = elim (is_digit c) [
  | true ↦ read_digits true (n * 10 + (c - 48)) t
  | false ↦ elim (after_digit && ((c == b'_') && not (is_empty t))) [
    | true ↦ read_digits false n t
    | false ↦ none
  ]
]

abbrev pub negative : ℕ → ℤ
negative zero = pos 0
negative (suc n) = negsuc n

abbrev pub signed : Text → Option ℤ
signed [] = none
signed (c ∷ t) =
    if c == b'-'
    then (elim (read_digits false 0 t) [ none ↦ none | some n ↦ some (negative n) ])
    else (elim (read_digits false 0 (if c == b'+' then t else c ∷ t)) [
      | none ↦ none
      | some n ↦ some (pos n)
    ])

-- `int(text)` for ASCII digits; `none` is a ValueError.
unfoldable pub parse_int : Text → Option ℤ
parse_int t = signed (strip t)

-- A receipt as `verify_task_integrity` reads it.
pub record Receipt : Type 0 where
  pub task_hash : Option Text
  pub pcrs : List (Text × Text)

-- `{int(k): v for k, v in pcrs.items()}`, behind so many items; an error is the text that is no number.
unfoldable pub int_keys : Pcrs → List (Text × Text) → Result Text Pcrs
int_keys acc [] = ok acc
int_keys acc ((k, v) ∷ rest) = elim (parse_int k) [
  | none ↦ err k
  | some i ↦ int_keys (put_pcr acc i v) rest
]

abbrev pub same_hash : Option Text → Text → Bool
same_hash none task_hash = false
same_hash (some h) task_hash = text_eq h task_hash

unfoldable pub verify_task_integrity : Pcrs → Text → Receipt → Result Text Bool
verify_task_integrity expected task_hash receipt =
    if same_hash receipt.task_hash task_hash
    then (elim (int_keys [] receipt.pcrs) [
      | err k ↦ err k
      | ok pcrs ↦ ok (verify_pcrs expected pcrs).valid
    ])
    else ok false
