-- ===== src/Tools/Edits/Files.antt =====
-- What edit_file and multi_edit leave on the disk.
use agentic_ai_tee.Base.{
  ◌≡◌, refl, true, false, some, inl, inr, ◌⊎◌, [], ◌∷◌, ◌==◌, ltb, Bool-cases, Text,
}
use agentic_ai_tee.Base.Texts.Replace.{count}
use agentic_ai_tee.Base.Result.{Result, ok, Result-cases}
use agentic_ai_tee.Base.Dict
use agentic_ai_tee.Base.Dict.{get-put}
use agentic_ai_tee.Agent.Models.{ToolOutput}
use agentic_ai_tee.Tools.Disk.{Disk, Platform, WriteFault, file, load_file, save_file}
use agentic_ai_tee.Tools.Edits.{Edit, edit_text, edit_next, apply_edits, edit_file, multi_edit}

module _ (P : Platform) (path : Text) where
  -- Some write of the file failed.
  abbrev pub Faulty : Type 0
  Faulty =
      (content : Text) × (fault : WriteFault) × (P.write_fault (P.resolve path) content
        ≡ some fault)

  -- What a tool may do to the disk: all or, unless a write fails, nothing.
  abbrev pub Effect : Disk → Result Text Text → (Text → Text → Type 0) → ToolOutput × Disk → Type 0
  Effect d loaded Wrote (output, d') =
      ((output.success ≡ true)
        × (original : Text) × (content : Text) × (loaded ≡ ok original)
        × Wrote original content
        × (d' ≡ Dict.put d (P.resolve path) (file content)))
      ⊎ ((output.success ≡ false) × ((d' ≡ d) ⊎ Faulty))

  save_file-disk :
      (r s content : Text) (d : Disk)
      → (save_file P path r content d).1 ≡ (save_file P path s content d).1
  unfolding save_file
  save_file-disk r s content d = refl

  -- One edit by multi_edit leaves the disk as edit_file does.
  pub multi_edit-edit_file :
      (e : Edit) (d : Disk) → (multi_edit P path (e ∷ []) d).1 ≡ (edit_file P path e d).1
  unfolding multi_edit edit_file apply_edits edit_next edit_text
  multi_edit-edit_file e d = elim (Result-cases (load_file P path d)) [
    | inl (message, failed) ↦ rw (failed, multi_edit, edit_file)
    | inr (original, loaded) ↦ elim (Bool-cases (count original e.old_str == 0)) [
      | inl missing ↦ rw (loaded, missing, multi_edit, edit_file, apply_edits, edit_next, edit_text)
      | inr found ↦ elim (Bool-cases (ltb 1 (count original e.old_str))) [
        | inl many ↦
            rw (loaded, found, many, multi_edit, edit_file, apply_edits, edit_next, edit_text)
        | inr one ↦
            rw (loaded, found, one, multi_edit, edit_file, apply_edits, edit_next, edit_text)
              (save_file-disk _ _ _ d)
      ]
    ]
  ]
