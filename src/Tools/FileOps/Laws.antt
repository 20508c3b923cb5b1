-- ===== src/Tools/FileOps/Laws.antt =====
-- What stays as it is outside of the workspace.
use agentic_ai_tee.Base.{
  ◌≡◌, inl, inr, refl, ap, ◌∙◌, Bool, Bool-cases, true, false, ◌||◌, not, none, some, Option-cases,
  List, [], ◌∷◌, All, keep, Text, codes, text_eq, text_eq_iff, one_of, if◌then◌else◌, ltb, is_some,
  arith,
}
use agentic_ai_tee.Base.Dict
use agentic_ai_tee.Base.Dict.{get-put}
use agentic_ai_tee.Base.Result.{Result, ok, err}
use agentic_ai_tee.Agent.Models.{ToolOutput}
use agentic_ai_tee.Tools.Disk.{Node, directory, file, Disk, write_text}
use agentic_ai_tee.Tools.FileOps.{
  max_write_bytes, valid_operations, Workspace, is_within, parents, make_dirs, resolve_safe_path,
  clean_path, write_made, write_safe, remove, delete_safe, guarded, operate, file_ops,
}
use agentic_ai_tee.Tools.FileOps.Paths.{IsRooted, IsMade, parents-IsMade, is_within-outside}

module _ (O : Workspace) where
  -- Outside of the workspace, every path has the node that it had.
  abbrev pub IsKeptOutside : Disk → Disk → Type 0
  IsKeptOutside d d' = (j : Text) → is_within O.root j ≡ false → Dict.get d' j ≡ Dict.get d j

  put-IsKeptOutside :
      (d : Disk) (p : Text) (n : Node)
      → is_within O.root p ≡ true
      → IsKeptOutside d (Dict.put d p n)
  put-IsKeptOutside d p n inside j out = elim (Bool-cases (text_eq p j)) [
    | inl same ↦ absurd (cc ((text_eq_iff p j).0 same))
    | inr apart ↦ get-put d p j n ∙ rw apart refl
  ]

  IsMade-put :
      (d : Disk) (p q : Text) → IsMade O.root d q → IsMade O.root (Dict.put d p directory) q
  IsMade-put d p q (inl inside) = inl inside
  IsMade-put d p q (inr e) = inr (get-put d p q directory ∙ ground (arith, e))

  All-IsMade-put :
      (d : Disk) (p : Text) (qs : List Text)
      → All (IsMade O.root d) qs
      → All (IsMade O.root (Dict.put d p directory)) qs
  All-IsMade-put d p [] h = tt
  All-IsMade-put d p (q ∷ qs) h = (IsMade-put d p q h.0, All-IsMade-put d p qs h.1)

  new_within :
      (d : Disk) (p : Text) → Dict.get d p ≡ none → IsMade O.root d p → is_within O.root p ≡ true
  new_within d p absent (inl inside) = inside
  new_within d p absent (inr e) = absurd (cc)

  make_dirs-IsKeptOutside :
      (ps : List Text) (d : Disk) → All (IsMade O.root d) ps → IsKeptOutside d (make_dirs O ps d).1
  unfolding make_dirs
  make_dirs-IsKeptOutside [] d h j out = refl
  make_dirs-IsKeptOutside (p ∷ ps) d h j out = elim (Option-cases (Dict.get d p)) [
    | inl absent ↦ elim (Option-cases (O.mkdir_fault p)) [
      | inl fine ↦
          rw (absent, fine, make_dirs)
            (make_dirs-IsKeptOutside ps (Dict.put d p directory) (All-IsMade-put d p ps h.1) j out
              ∙ put-IsKeptOutside d p directory (new_within d p absent h.0) j out)
      | inr (message, fails) ↦ rw (absent, fails, make_dirs) refl
    ]
    | inr (directory, there) ↦ rw (there, make_dirs) (make_dirs-IsKeptOutside ps d h.1 j out)
    | inr (file t, there) ↦ rw (there, make_dirs) refl
  ]

  write_text-IsKeptOutside :
      (safe content : Text) (d : Disk)
      → is_within O.root safe ≡ true
      → IsKeptOutside d (write_text O.platform safe content d).1
  unfolding write_text
  write_text-IsKeptOutside safe content d inside j out =
      elim (Option-cases (O.platform.write_fault safe content)) [
        | inl fine ↦ rw (fine, write_text) (put-IsKeptOutside d safe (file content) inside j out)
        | inr (fault, fails) ↦ elim (Option-cases fault.left) [
          | inl kept ↦ rw (fails, kept, write_text) refl
          | inr (left, cut) ↦
              rw (fails, cut, write_text) (put-IsKeptOutside d safe (file left) inside j out)
        ]
      ]

  write_made-IsKeptOutside :
      (path content safe : Text) (made : Result Text (Unit {0}) × Disk)
      → is_within O.root safe ≡ true
      → IsKeptOutside made.1 (write_made O path content safe made).1
  unfolding write_made
  write_made-IsKeptOutside path content safe (err message, d) inside j out = refl
  write_made-IsKeptOutside path content safe (ok u, d) inside j out =
      write_text-IsKeptOutside safe content d inside j out

  get-keep :
      (p : Text → Bool) (d : Disk) (j : Text)
      → p j ≡ true
      → Dict.get (keep (λ e. p e.0) d) j ≡ Dict.get d j
  unfolding Dict.get
  get-keep p [] j h = refl
  get-keep p ((k, n) ∷ d) j h = elim (Bool-cases (p k)) [
    | inl kept ↦ rw kept (ap (λ o. if text_eq k j then some n else o) (get-keep p d j h))
    | inr gone ↦ elim (Bool-cases (text_eq k j)) [
      | inl same ↦ absurd (cc ((text_eq_iff k j).0 same))
      | inr apart ↦ rw (gone, apart) (get-keep p d j h)
    ]
  ]

  remove-IsKeptOutside :
      (safe : Text) (left : Text → Bool) (d : Disk)
      → is_within O.root safe ≡ true
      → IsKeptOutside d (remove O safe left d)
  unfolding remove
  remove-IsKeptOutside safe left d inside j out =
      get-keep (λ k. not (is_within safe k) || left k) d j
        (rw (is_within-outside O.root safe j inside out) refl)

  delete_safe-IsKeptOutside :
      (path safe : Text) (d : Disk)
      → is_within O.root safe ≡ true
      → IsKeptOutside d (delete_safe O path safe d).1
  unfolding delete_safe
  delete_safe-IsKeptOutside path safe d inside j out =
      elim (Bool-cases (is_some (Dict.get d safe))) [
        | inl there ↦ elim (Option-cases (O.removal_fault safe)) [
          | inl fine ↦ rw (there, fine) (remove-IsKeptOutside safe (λ k. false) d inside j out)
          | inr (fault, fails) ↦
              rw (there, fails) (remove-IsKeptOutside safe fault.left d inside j out)
        ]
        | inr absent ↦ rw absent refl
      ]

  -- The same of an operation's end.
  record Leaves (d : Disk) (end : ToolOutput × Disk) : Type 0 where
    kept : IsKeptOutside d end.1

  if-Leaves :
      (d : Disk) (b : Bool) (x y : ToolOutput × Disk)
      → Leaves d x
      → Leaves d y
      → Leaves d (if b then x else y)
  if-Leaves d true x y h k = h
  if-Leaves d false x y h k = k

  reads-Leaves : (d : Disk) (output : ToolOutput) → Leaves d (output, d)
  reads-Leaves d output = record { kept = λ j out. refl }

  write_safe-Leaves :
      (path content safe : Text) (d : Disk)
      → IsRooted O.root d
      → is_within O.root safe ≡ true
      → Leaves d (write_safe O path content safe d)
  unfolding write_safe
  write_safe-Leaves path content safe d rooted inside =
      if-Leaves d (ltb max_write_bytes (O.encoded_length content)) _ _ (reads-Leaves d _) (record {
        kept = λ j out.
            write_made-IsKeptOutside path content safe (make_dirs O (parents safe) d) inside j out
            ∙ make_dirs-IsKeptOutside (parents safe) d (parents-IsMade O.root d safe rooted inside)
                j out;
      })

  operate-Leaves :
      (operation path content safe : Text) (d : Disk)
      → IsRooted O.root d
      → is_within O.root safe ≡ true
      → Leaves d (operate O operation path content safe d)
  unfolding operate
  operate-Leaves operation path content safe d rooted inside =
      if-Leaves d (text_eq operation (codes "read")) _ _ (reads-Leaves d _) (
        if-Leaves d (text_eq operation (codes "write")) _ _
          (write_safe-Leaves path content safe d rooted inside)
          (if-Leaves d (text_eq operation (codes "list")) _ _ (reads-Leaves d _) (
            if-Leaves d (text_eq operation (codes "delete")) _ _
              (record { kept = delete_safe-IsKeptOutside path safe d inside }) (reads-Leaves d _))))

  guarded-Leaves :
      (operation path content : Text) (d : Disk)
      → IsRooted O.root d
      → Leaves d (guarded O path (resolve_safe_path O path) (operate O operation path content) d)
  unfolding guarded resolve_safe_path
  guarded-Leaves operation path content d rooted =
      elim (Bool-cases (is_within O.root (O.platform.resolve (clean_path path)))) [
        | inl inside ↦
            rw (inside, guarded) (operate-Leaves operation path content _ d rooted inside)
        | inr outside ↦ rw (outside, guarded) (reads-Leaves d _)
      ]

  -- If the workspace and the directories above it are there, then whatever the operation, the path and
  -- the content, and whatever of it fails, every path outside of the workspace has the node that it had.
  pub file_ops-IsKeptOutside :
      (operation path content : Text) (d : Disk)
      → IsRooted O.root d
      → IsKeptOutside d (file_ops O operation path content d).1
  unfolding file_ops
  file_ops-IsKeptOutside operation path content d rooted =
      (if-Leaves d (one_of operation valid_operations) _ _
        (guarded-Leaves operation path content d rooted) (reads-Leaves d _)).kept
