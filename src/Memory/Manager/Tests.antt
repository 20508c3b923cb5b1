-- ===== src/Memory/Manager/Tests.antt =====
-- An entry of the memory under two collections, with stand-ins for the cipher and the encodings.
use mathlib.Core.List.{append_cancel_left, append_cancel_right}
use agentic_ai_tee.Base.{
  ◌≡◌, refl, some, none, [], ◌∷◌, ◌++◌, length, if◌then◌else◌, codes, text_eq, text_eq_iff, end,
  arith,
}
use agentic_ai_tee.Crypto.Sealing.{Crypto}
use agentic_ai_tee.Crypto.Sealing.Laws.{IsIdeal}
use agentic_ai_tee.Crypto.Sealing.Tests.{open_box, open_box-own}
use agentic_ai_tee.Memory.Manager.{Encoding, sealed_entry, verify_encrypted_entry}
use agentic_ai_tee.Memory.Manager.Laws.{IsFaithful, verify_encrypted_entry-sealed_entry}

-- The derived key is the info and the secret.
abbrev crypto : Crypto
crypto = record {
  sha256 = λ b. b;
  hkdf = λ secret info. info ++ secret;
  encrypt = λ key nonce plaintext. length key ∷ key ++ plaintext;
  decrypt = open_box;
}

crypto-IsIdeal : IsIdeal crypto
crypto-IsIdeal = record {
  opens = λ key nonce p. ground (arith, open_box-own key key p, text_eq_iff key key);
  own_key =
      λ key other nonce p q e. ground (arith, open_box-own key other p, text_eq_iff key other);
  sha256_injective = λ a b e. e;
  hkdf_injective = λ a b info e. append_cancel_left info a b e;
}

abbrev encoding : Encoding
encoding = record { utf8 = some; utf8_decode = some; hex = λ b. b; unhex = some }

encoding-IsFaithful : IsFaithful encoding
encoding-IsFaithful = record {
  unhex-hex = λ b. refl;
  hex-nonempty = λ b h. h;
  utf8_round = λ t b e. ground arith;
}

verify_encrypted_entry-sealed_entry_example :
    verify_encrypted_entry crypto encoding
      (codes "secret")
      (sealed_entry crypto encoding []
        (codes "secret")
        (codes "1")
        (codes "A note.")
        (codes "work")
        end
        (codes "A note."))
      (codes "home")
    ≡ (if text_eq (codes "work") (codes "home") then some (codes "A note.") else none)
verify_encrypted_entry-sealed_entry_example =
    verify_encrypted_entry-sealed_entry crypto encoding encoding-IsFaithful crypto-IsIdeal
      (λ a i j e. append_cancel_right i j a e) (λ key nonce p. refl) (codes "secret") []
      (codes "A note.") (codes "1") (codes "A note.") (codes "work") (codes "home") end refl
