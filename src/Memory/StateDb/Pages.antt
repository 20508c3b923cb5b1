-- ===== src/Memory/StateDb/Pages.antt =====
-- Listing the tasks page by page.
use agentic_ai_tee.Base.{ℕ, zero, suc, ◌*◌, List, [], ◌++◌}

-- The first so many pages of a size.
abbrev pub pages {ℓ} : {A : Type ℓ} → (ℕ → List A) → ℕ → ℕ → List A
pages page size zero = []
pages page size (suc n) = pages page size n ++ page (n * size)
