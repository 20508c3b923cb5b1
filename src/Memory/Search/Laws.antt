-- ===== src/Memory/Search/Laws.antt =====
-- The search returns the best entries.
use agentic_ai_tee.Base.{List, Text}
use agentic_ai_tee.Memory.Store.{MemoryEntry}
use agentic_ai_tee.Memory.Search.{Score, word_set, scored}

module _ (lower : Text → Text) where
  -- The entries that a query scores, with their scores.
  abbrev matches : Text → List MemoryEntry → List (Score × MemoryEntry)
  matches query entries = scored lower (word_set lower query) entries
