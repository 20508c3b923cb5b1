-- ===== src/Memory/Search.antt =====
-- SimpleVectorStore.search of enclave/tools/memory_tool.py. `lower` is `str.lower`. A score is a fraction
-- of two word counts, compared exactly; the quotients as floats compare the same way, as long as an entry
-- has less than 2^26 words.
pub mod Laws
pub mod Tests
use agentic_ai_tee.Base.{
  ℕ, zero, suc, ◌+◌, ◌-◌, ◌*◌, Bool, true, false, not, Option, none, some, List, [], ◌∷◌, ◌++◌, map,
  if◌then◌else◌, ltb, leb, is_empty, keep, take, length, Text, is_space, one_of,
}
use agentic_ai_tee.Base.Sorting.{sort_desc}
use agentic_ai_tee.Memory.Store.{MemoryEntry}

-- `t.split()`, with the word that is being read
abbrev words_from : Text → Text → List Text
words_from word [] = if is_empty word then [] else word ∷ []
words_from word (c ∷ t) = elim (is_space c) [
  | true ↦ if is_empty word then words_from [] t else word ∷ words_from [] t
  | false ↦ words_from (word ++ (c ∷ [])) t
]

-- `set(…)`: each word once
unfoldable pub distinct : List Text → List Text
distinct [] = []
distinct (w ∷ ws) = let rest = distinct ws in if one_of w ws then rest else w ∷ rest

-- `len(a & b)` for sets
unfoldable pub overlap : List Text → List Text → ℕ
overlap a b = length (keep (λ w. one_of w b) a)

-- A fraction: `below` is its denominator less one.
pub record Score : Type 0 where
  pub common : ℕ
  pub below : ℕ

unfoldable pub score_le : Score → Score → Bool
score_le s t = leb (s.common * suc t.below) (t.common * suc s.below)

module _ (lower : Text → Text) where
  unfoldable pub word_set : Text → List Text
  word_set t = distinct (words_from [] (lower t))

  -- The Jaccard similarity of two sets of words; none where the loop skips the entry.
  unfoldable pub jaccard : List Text → List Text → Option Score
  jaccard query entry =
      if is_empty query
      then none
      else if is_empty entry
      then none
      else if ltb 0 (overlap query entry)
      then some (record {
        common = overlap query entry;
        below = length query + length entry - overlap query entry - 1;
      })
      else none

  -- `scored`
  unfoldable pub scored : List Text → List MemoryEntry → List (Score × MemoryEntry)
  scored query [] = []
  scored query (e ∷ es) =
      let rest = scored query es in
      elim (jaccard query (word_set e.content)) [ none ↦ rest | some s ↦ (s, e) ∷ rest ]

  abbrev pub by_score : Score × MemoryEntry → Score × MemoryEntry → Bool
  by_score a b = score_le a.0 b.0

  unfoldable pub search : Text → ℕ → List MemoryEntry → List MemoryEntry
  search query n_results entries =
      map (λ x. x.1) (take n_results (sort_desc by_score (scored (word_set query) entries)))
