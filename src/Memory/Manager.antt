-- ===== src/Memory/Manager.antt =====
-- enclave/memory/manager.py: MemoryManager over the stores of the collections. The id of an entry and the
-- nonce of its encryption are given; `unhex` and `utf8_decode` are none where Python raises.
pub mod Laws
pub mod Tests
use agentic_ai_tee.Base.{
  ℕ, Bool, true, false, Option, none, some, List, [], ◌∷◌, ◌++◌, if◌then◌else◌, length, Text, codes,
  text_eq, Value, Fields, end, field, none_value, str, truthy, get_field,
}
use agentic_ai_tee.Base.Optional.{◌>>=◌}
use agentic_ai_tee.Base.Dict
use agentic_ai_tee.Base.Dict.{Dict, keys}
use agentic_ai_tee.Crypto.Sealing.{Bytes, Crypto, derive_key, seal_data, unseal_data}
use agentic_ai_tee.Memory.Store.{MemoryEntry}
use agentic_ai_tee.Memory.Store
use agentic_ai_tee.Memory.Search

-- Python's encodings of a text and of bytes
pub record Encoding : Type 0 where
  pub utf8 : Text → Option Bytes
  pub utf8_decode : Bytes → Option Text
  pub hex : Bytes → Text
  pub unhex : Text → Option Bytes

pub record MemoryManager : Type 0 where
  pub master_secret : Bytes
  pub stores : Dict (List MemoryEntry)
  pub max_entries : ℕ

-- `d[k] = v`
unfoldable pub put_field : Fields → Text → Value → Fields
put_field end k v = field k v end
put_field (field j w d) k v =
    let rest = put_field d k v in if text_eq j k then field j v d else field j w rest

abbrev pub or_empty : Option (List MemoryEntry) → List MemoryEntry
or_empty none = []
or_empty (some entries) = entries

module _ (X : Crypto) (E : Encoding) where
  -- `_get_collection_key`
  unfoldable pub get_collection_key : Bytes → Text → Bytes
  get_collection_key master_secret collection =
      derive_key X master_secret (codes "memory:" ++ collection) 1

  -- The metadata of a stored entry.
  unfoldable pub sealed_metadata : Fields → Bytes → Text → Fields
  sealed_metadata metadata encrypted collection =
      put_field (put_field metadata (codes "_encrypted") (str (E.hex encrypted)))
        (codes "_collection") (str collection)

  unfoldable pub sealed_entry : Bytes → Bytes → Text → Text → Text → Fields → Bytes → MemoryEntry
  sealed_entry nonce master_secret entry_id content collection metadata plaintext = record {
    entry_id = entry_id;
    content = content;
    metadata =
        sealed_metadata metadata
          (seal_data X nonce plaintext (get_collection_key master_secret collection)) collection;
  }

  -- `store`: a text that has no UTF-8 raises before anything is stored.
  unfoldable pub store :
      Bytes → Text → Text → Text → Fields → MemoryManager → Option (Text × MemoryManager)
  store nonce entry_id content collection metadata m = do
    plaintext ← E.utf8 content
    some (
      entry_id,
      record m {
        stores = Dict.put m.stores collection (
            Store.store m.max_entries (or_empty (Dict.get m.stores collection))
              (sealed_entry nonce m.master_secret entry_id content collection metadata plaintext));
      },
    )

  -- `search`, which makes the collection if there is none
  unfoldable pub search :
      (Text → Text) → Text → Text → ℕ → MemoryManager → List MemoryEntry × MemoryManager
  search lower query collection n_results m =
      let entries = or_empty (Dict.get m.stores collection) in
      (
        Search.search lower query n_results entries,
        record m { stores = Dict.put m.stores collection entries },
      )

  unfoldable pub list_collections : MemoryManager → List Text
  list_collections m = keys m.stores

  unfoldable pub collection_count : Text → MemoryManager → ℕ
  collection_count collection m = length (or_empty (Dict.get m.stores collection))

  -- what is decrypted of a value of the metadata; a value that is no text raises and is none
  unfoldable pub opened : Bytes → Value → Option Text
  opened key (str t) = do
    ciphertext ← E.unhex t
    plaintext ← unseal_data X ciphertext key
    E.utf8_decode plaintext
  opened key _ = none

  abbrev value_or_none : Option Value → Value
  value_or_none none = none_value
  value_or_none (some v) = v

  unfoldable pub verify_encrypted_entry : Bytes → MemoryEntry → Text → Option Text
  verify_encrypted_entry master_secret entry collection =
      let encrypted = value_or_none (get_field entry.metadata (codes "_encrypted")) in
      if truthy encrypted
      then opened (get_collection_key master_secret collection) encrypted
      else some entry.content
