-- ===== src/Memory/Store/Tests.antt =====
-- A store of two entries at most, and one of none.
use agentic_ai_tee.Base.{◌≡◌, refl, List, [], ◌∷◌, ◌++◌, Text, codes, end, last_n, arith}
use agentic_ai_tee.Memory.Store.{MemoryEntry, store, store_all}
use agentic_ai_tee.Memory.Store.Laws.{store_all_lem}

abbrev note : Text → MemoryEntry
note t = record { entry_id = t; content = t; metadata = end }

abbrev three : List MemoryEntry
three = note (codes "a") ∷ note (codes "b") ∷ note (codes "c") ∷ []

store_all_lem_example : store_all 2 (last_n 2 []) three ≡ last_n 2 ([] ++ three)
store_all_lem_example = store_all_lem 2 [] three (omega arith)

-- A store of no entries keeps every entry.
unlimited : store_all 0 [] three ≡ three
unfolding store_all store
unlimited = refl
