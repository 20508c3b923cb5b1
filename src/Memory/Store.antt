-- ===== src/Memory/Store.antt =====
-- SimpleVectorStore of enclave/tools/memory_tool.py: storing with eviction, and the recent entries. The
-- search by keywords is left out. The id of an entry, a digest of its content and the time, is given.
pub mod Laws
pub mod Tests
use agentic_ai_tee.Base.{
  ℕ, ◌+◌, List, [], ◌∷◌, ◌++◌, reverse, ltb, ◌==◌, if◌then◌else◌, length, last_n, Text, Fields,
}

pub record MemoryEntry : Type 0 where
  pub entry_id : Text
  pub content : Text
  pub metadata : Fields

-- `entries[-n:]`: for `n` zero that is every entry.
abbrev pub slice_last : ℕ → List MemoryEntry → List MemoryEntry
slice_last n entries = if n == 0 then entries else last_n n entries

-- `store`, on the entries of a store with so many at most
unfoldable pub store : ℕ → List MemoryEntry → MemoryEntry → List MemoryEntry
store max_entries entries entry =
    let longer = entries ++ (entry ∷ []) in
    if ltb max_entries (length longer) then slice_last max_entries longer else longer

unfoldable pub list_recent : ℕ → List MemoryEntry → List MemoryEntry
list_recent n entries = reverse (slice_last n entries)

-- `store` for each of a list of entries
unfoldable pub store_all : ℕ → List MemoryEntry → List MemoryEntry → List MemoryEntry
store_all max_entries entries [] = entries
store_all max_entries entries (e ∷ es) = store_all max_entries (store max_entries entries e) es
