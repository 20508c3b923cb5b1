-- ===== src/Crypto/Sealing.antt =====
-- enclave/crypto/sealing.py, with derive_key, seal_data and unseal_data of enclave/crypto/keys.py. The
-- cipher, the digest and the key derivation are a parameter.
pub mod Laws
pub mod Tests
use agentic_ai_tee.Base.{
  ℕ, Bool, true, false, Option, none, some, List, [], ◌∷◌, ◌++◌, map, if◌then◌else◌, Text, codes,
  decimal, ℤ, leb_ℤ,
}
use agentic_ai_tee.Base.Result.{Result, ok, err}
use agentic_ai_tee.Base.Dict
use agentic_ai_tee.Base.Dict.{Dict}

abbrev pub Bytes : Type 0
Bytes = List ℕ

-- hashlib.sha256; HKDF-SHA256 of a secret and an info text; SecretBox with its nonce written out.
pub record Crypto : Type 0 where
  pub sha256 : Bytes → Bytes
  pub hkdf : Bytes → Text → Bytes
  pub encrypt : Bytes → Bytes → Bytes → Bytes
  pub decrypt : Bytes → Bytes → Option Bytes

-- PCR index to value
abbrev pub PcrValues : Type 0
PcrValues = List (ℤ × Bytes)

-- The items by index, as `sorted(pcr_values.keys())` visits them.
unfoldable pub insert_by_index : ℤ × Bytes → PcrValues → PcrValues
insert_by_index e [] = e ∷ []
insert_by_index e (f ∷ d) =
    let rest = insert_by_index e d in if leb_ℤ e.0 f.0 then e ∷ f ∷ d else f ∷ rest

unfoldable pub by_index : PcrValues → PcrValues
by_index [] = []
by_index (e ∷ d) = insert_by_index e (by_index d)

unfoldable pub joined : PcrValues → Bytes
joined [] = []
joined ((i, v) ∷ d) = v ++ joined d

-- `pcr_material`
unfoldable pub pcr_material : PcrValues → Bytes
pcr_material pcr_values = joined (by_index pcr_values)

pub data SealingError : Type 0 where
  unsealing_failed : Text → SealingError
  file_not_found : Text → SealingError

module _ (X : Crypto) where
  unfoldable pub derive_key : Bytes → Text → ℕ → Bytes
  derive_key master_secret context subkey_id =
      X.hkdf master_secret (context ++ (codes ":" ++ decimal subkey_id))

  unfoldable pub pcr_to_key : PcrValues → Bytes
  pcr_to_key pcr_values =
      derive_key (X.sha256 (pcr_material pcr_values)) (codes "sealed_secret_store") 1

  unfoldable pub seal_data : Bytes → Bytes → Bytes → Bytes
  seal_data nonce plaintext key = X.encrypt key nonce plaintext

  unfoldable pub unseal_data : Bytes → Bytes → Option Bytes
  unseal_data ciphertext key = X.decrypt key ciphertext

  unfoldable pub seal : Bytes → Bytes → PcrValues → Bytes
  seal nonce secret pcr_values = seal_data nonce secret (pcr_to_key pcr_values)

  unfoldable pub unseal : Bytes → PcrValues → Text → Result SealingError Bytes
  unseal sealed_data pcr_values label = elim (unseal_data sealed_data (pcr_to_key pcr_values)) [
    | none ↦ err (unsealing_failed label)
    | some secret ↦ ok secret
  ]

  -- The directory of sealed files, by path; `path_of` is `storage_path / f"{label}.sealed"`.
  unfoldable pub seal_to_file :
      (Text → Text) → Bytes → Bytes → PcrValues → Text → Dict Bytes → Text × Dict Bytes
  seal_to_file path_of nonce secret pcr_values label files =
      (path_of label, Dict.put files (path_of label) (seal nonce secret pcr_values))

  unfoldable pub unseal_from_file :
      (Text → Text) → PcrValues → Text → Dict Bytes → Result SealingError Bytes
  unseal_from_file path_of pcr_values label files = elim (Dict.get files (path_of label)) [
    | none ↦ err (file_not_found (path_of label))
    | some sealed ↦ unseal sealed pcr_values label
  ]
