-- ===== src/Memory/Search/Tests.antt =====
-- Searching three entries.
use agentic_ai_tee.Base.{List, [], ◌∷◌, Text, codes, end}
use agentic_ai_tee.Memory.Store.{MemoryEntry}

abbrev entry : Text → MemoryEntry
entry content = record { entry_id = content; content = content; metadata = end }

abbrev entries : List MemoryEntry
entries =
    entry (codes "sort a list of words")
    ∷ entry (codes "sort a list")
    ∷ entry (codes "open the file")
    ∷ []
