-- ===== src/Crypto/Sealing/Tests.antt =====
-- Sealing with a stand-in for the cipher that writes the key in front of the text.
use agentic_ai_tee.Base.{
  ◌≡◌, refl, Option, none, some, [], ◌∷◌, ◌++◌, length, take, drop, take-append, drop-append,
  text_eq, if◌then◌else◌, codes, pos,
}
use agentic_ai_tee.Crypto.Sealing.{
  Bytes, Crypto, PcrValues, pcr_material, by_index, insert_by_index, joined,
}

abbrev pub open_box : Bytes → Bytes → Option Bytes
open_box key [] = none
open_box key (n ∷ c) = if text_eq (take n c) key then some (drop n c) else none

abbrev plain_crypto : Crypto
plain_crypto = record {
  sha256 = λ b. b;
  hkdf = λ secret info. secret;
  encrypt = λ key nonce plaintext. length key ∷ key ++ plaintext;
  decrypt = open_box;
}

pub open_box-own :
    (key other plaintext : Bytes)
    → open_box other (length key ∷ key ++ plaintext)
      ≡ (if text_eq key other then some plaintext else none)
open_box-own key other plaintext = cc (take-append key plaintext, drop-append key plaintext)

abbrev measured : PcrValues
measured = (pos 0, codes "ab") ∷ (pos 1, codes "c") ∷ []

-- The same values, listed in another order.
abbrev relisted : PcrValues
relisted = (pos 1, codes "c") ∷ (pos 0, codes "ab") ∷ []

-- Other values at other indices, with the same bytes.
abbrev shifted : PcrValues
shifted = (pos 3, codes "a") ∷ (pos 8, codes "bc") ∷ []

same_bytes : pcr_material measured ≡ pcr_material relisted
unfolding pcr_material by_index insert_by_index joined
same_bytes = refl

shifted_bytes : pcr_material measured ≡ pcr_material shifted
unfolding pcr_material by_index insert_by_index joined
shifted_bytes = refl
