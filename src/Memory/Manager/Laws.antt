-- ===== src/Memory/Manager/Laws.antt =====
-- Under which collection a stored entry verifies.
use agentic_ai_tee.Base.{
  ◌≡◌, refl, sym, ◌∙◌, false, Bool-cases, Option-cases, inl, inr, none, some, ◌++◌, is_empty, Text,
  codes, text_eq, text_eq_iff, Value, Fields, end, field, str, get_field, if◌then◌else◌, arith,
}
use mathlib.Core.List.{append_cancel_left, append_cancel_right}
use agentic_ai_tee.Crypto.Sealing.{Bytes, Crypto, derive_key, seal_data, unseal_data}
use agentic_ai_tee.Crypto.Sealing.Laws.{IsIdeal}
use agentic_ai_tee.Memory.Manager.{
  Encoding, put_field, get_collection_key, sealed_metadata, sealed_entry, opened,
  verify_encrypted_entry,
}

get_field-put_field :
    (d : Fields) (k j : Text) (v : Value)
    → get_field (put_field d k v) j ≡ (if text_eq k j then some v else get_field d j)
unfolding get_field put_field
get_field-put_field end k j v = refl
get_field-put_field (field i w d) k j v =
    ground (arith, text_eq_iff k j, text_eq_iff i k, text_eq_iff i j, get_field-put_field d k j v)

-- What Python promises of its encodings, for bytes that are not empty.
pub record IsFaithful (E : Encoding) : Type 0 where
  pub unhex-hex : (b : Bytes) → E.unhex (E.hex b) ≡ some b
  pub hex-nonempty : (b : Bytes) → is_empty b ≡ false → is_empty (E.hex b) ≡ false
  pub utf8_round : (t : Text) (b : Bytes) → E.utf8 t ≡ some b → E.utf8_decode b ≡ some t

module _ (X : Crypto) (E : Encoding) (faithful : IsFaithful E) where
  encrypted-sealed_metadata :
      (metadata : Fields) (encrypted : Bytes) (collection : Text)
      → get_field (sealed_metadata X E metadata encrypted collection) (codes "_encrypted")
        ≡ some (str (E.hex encrypted))
  unfolding sealed_metadata text_eq
  encrypted-sealed_metadata metadata encrypted collection =
      get_field-put_field (put_field metadata (codes "_encrypted") (str (E.hex encrypted)))
        (codes "_collection") (codes "_encrypted") (str collection)
      ∙ get_field-put_field metadata (codes "_encrypted") (codes "_encrypted")
          (str (E.hex encrypted))

  module _ (ideal : IsIdeal X)
      (separates : (a : Bytes) (i j : Text) → X.hkdf a i ≡ X.hkdf a j → i ≡ j)
      (some_bytes : (key nonce p : Bytes) → is_empty (X.encrypt key nonce p) ≡ false) where
    collection_key-injective :
        (secret : Bytes) (c d : Text)
        → get_collection_key X E secret c ≡ get_collection_key X E secret d
        → c ≡ d
    unfolding get_collection_key derive_key
    collection_key-injective secret c d h = append_cancel_left (codes "memory:") c d (
        append_cancel_right (codes "memory:" ++ c) (codes "memory:" ++ d) _
          (separates secret _ _ h))

    opened-other :
        (key other nonce plaintext : Bytes)
        → (key ≡ other → ⊥)
        → opened X E other (str (E.hex (X.encrypt key nonce plaintext))) ≡ none
    unfolding opened unseal_data
    opened-other key other nonce plaintext apart =
        elim (Option-cases (X.decrypt other (X.encrypt key nonce plaintext))) [
          | inl closed ↦ rw (faithful.unhex-hex (X.encrypt key nonce plaintext), closed) refl
          | inr (q, open_) ↦ absurd (apart (ideal.own_key key other nonce plaintext q open_))
        ]

    opened-own :
        (key nonce plaintext : Bytes) (content : Text)
        → E.utf8 content ≡ some plaintext
        → opened X E key (str (E.hex (X.encrypt key nonce plaintext))) ≡ some content
    unfolding opened unseal_data
    opened-own key nonce plaintext content encoded =
        rw
          (
            faithful.unhex-hex (X.encrypt key nonce plaintext),
            ideal.opens key nonce plaintext,
            faithful.utf8_round content plaintext encoded,
          )
          refl

    verified :
        (secret nonce plaintext : Bytes) (content c d : Text)
        → E.utf8 content ≡ some plaintext
        → opened X E
            (get_collection_key X E secret d)
            (str (E.hex (X.encrypt (get_collection_key X E secret c) nonce plaintext)))
          ≡ (if text_eq c d then some content else none)
    verified secret nonce plaintext content c d encoded = elim (Bool-cases (text_eq c d)) [
      | inl same ↦
          rw (same, sym ((text_eq_iff c d).0 same))
            (opened-own (get_collection_key X E secret c) nonce plaintext content encoded)
      | inr differ ↦ rw differ (
          opened-other (get_collection_key X E secret c) (get_collection_key X E secret d) nonce
            plaintext
            (λ e. absurd (ground (arith, text_eq_iff c d, collection_key-injective secret c d e))))
    ]

    -- The entry that is stored for a content in a collection verifies as this content under the key of
    -- its own collection, and under the key of every other collection it does not verify.
    pub verify_encrypted_entry-sealed_entry :
        (secret nonce plaintext : Bytes) (entry_id content c d : Text) (metadata : Fields)
        → E.utf8 content ≡ some plaintext
        → verify_encrypted_entry X E secret
            (sealed_entry X E nonce secret entry_id content c metadata plaintext)
            d
          ≡ (if text_eq c d then some content else none)
    unfolding verify_encrypted_entry sealed_entry seal_data
    verify_encrypted_entry-sealed_entry secret nonce plaintext entry_id content c d metadata
          encoded =
        rw
          (
            encrypted-sealed_metadata metadata
                (X.encrypt (get_collection_key X E secret c) nonce plaintext) c,
            faithful.hex-nonempty _ (some_bytes (get_collection_key X E secret c) nonce plaintext),
          )
          (verified secret nonce plaintext content c d encoded)
