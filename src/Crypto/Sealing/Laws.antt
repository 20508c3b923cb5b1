-- ===== src/Crypto/Sealing/Laws.antt =====
-- Which measurements unseal a secret.
use mathlib.Core.Path.{subst}
use agentic_ai_tee.Base.{
  ◌≡◌, ◌↔◌, ap, ◌∙◌, Option-cases, inl, inr, some, Text, text_eq_refl, codes, arith,
}
use agentic_ai_tee.Base.Result.{ok}
use agentic_ai_tee.Base.Dict.{Dict, get-put}
use agentic_ai_tee.Crypto.Sealing.{
  Bytes, Crypto, PcrValues, pcr_material, derive_key, pcr_to_key, seal_data, unseal_data, seal,
  unseal, seal_to_file, unseal_from_file,
}

-- What the libraries promise: a sealed text opens under its key, and under no other; digests
-- and derived keys do not collide.
pub record IsIdeal (X : Crypto) : Type 0 where
  pub opens :
      (key nonce plaintext : Bytes) → X.decrypt key (X.encrypt key nonce plaintext) ≡ some plaintext
  pub own_key :
      (key other nonce plaintext q : Bytes)
      → X.decrypt other (X.encrypt key nonce plaintext) ≡ some q
      → key ≡ other
  pub sha256_injective : (a b : Bytes) → X.sha256 a ≡ X.sha256 b → a ≡ b
  pub hkdf_injective : (a b : Bytes) (info : Text) → X.hkdf a info ≡ X.hkdf b info → a ≡ b

module _ (X : Crypto) (I : IsIdeal X) where
  pcr_to_key-injective :
      (p q : PcrValues) → pcr_to_key X p ≡ pcr_to_key X q → pcr_material p ≡ pcr_material q
  unfolding pcr_to_key derive_key
  pcr_to_key-injective p q h = I.sha256_injective _ _ (I.hkdf_injective _ _ _ h)

  same_key : (p q : PcrValues) → pcr_material p ≡ pcr_material q → pcr_to_key X p ≡ pcr_to_key X q
  unfolding pcr_to_key
  same_key p q h = ap (λ m. derive_key X (X.sha256 m) (codes "sealed_secret_store") 1) h

  unseal-opened :
      (sealed : Bytes) (q : PcrValues) (label : Text) (secret : Bytes)
      → X.decrypt (pcr_to_key X q) sealed ≡ some secret
      → unseal X sealed q label ≡ ok secret
  unfolding unseal unseal_data
  unseal-opened sealed q label secret h = rw (h, unseal, unseal_data)

  opened-unseal :
      (sealed : Bytes) (q : PcrValues) (label : Text) (secret : Bytes)
      → unseal X sealed q label ≡ ok secret
      → X.decrypt (pcr_to_key X q) sealed ≡ some secret
  unfolding unseal unseal_data
  opened-unseal sealed q label secret h = elim (Option-cases (X.decrypt (pcr_to_key X q) sealed)) [
    | inl closed ↦ absurd (ground arith)
    | inr (s, opened) ↦ opened ∙ ap some (ground arith)
  ]

  pub unseal-seal_iff :
      (nonce secret : Bytes) (p q : PcrValues) (label : Text)
      → (unseal X (seal X nonce secret p) q label ≡ ok secret) ↔ (pcr_material p ≡ pcr_material q)
  unfolding seal seal_data
  unseal-seal_iff nonce secret p q label = (
    (λ h. pcr_to_key-injective p q (
        I.own_key _ _ nonce secret secret
          (opened-unseal (seal X nonce secret p) q label secret h))),
    (λ same. unseal-opened (seal X nonce secret p) q label secret (
        subst (λ key. X.decrypt key (X.encrypt (pcr_to_key X p) nonce secret) ≡ some secret)
          (same_key p q same) (I.opens (pcr_to_key X p) nonce secret))),
  )

  -- A secret that was sealed to a file comes back from the file of its label under any measurements
  -- whose values, joined in the order of their indices, are the same bytes.
  pub unseal_from_file-seal_to_file :
      (path_of : Text → Text) (nonce secret : Bytes) (p q : PcrValues) (label : Text)
      (files : Dict Bytes)
      → pcr_material p ≡ pcr_material q
      → unseal_from_file X path_of q label (seal_to_file X path_of nonce secret p label files).1
        ≡ ok secret
  unfolding unseal_from_file seal_to_file
  unseal_from_file-seal_to_file path_of nonce secret p q label files same =
      rw
        (
          get-put files (path_of label) (path_of label) (seal X nonce secret p),
          text_eq_refl (path_of label),
          unseal_from_file,
          seal_to_file,
        )
        ((unseal-seal_iff nonce secret p q label).1 same)
