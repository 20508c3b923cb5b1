-- ===== src/Tools/Registry/Laws.antt =====
-- The registry holds valid, unique names, and keeps the order of registration.
use mathlib.Core.List.{append-nil, append_assoc}
use mathlib.Core.Path.{subst}
use agentic_ai_tee.Base.{
  ℕ, ◌≡◌, ◌≢◌, ◌⊎◌, ◌↔◌, inl, inr, refl, ap, ◌∙◌, true, false, none, some, List, [], ◌∷◌, ◌++◌, map,
  Text, text_eq, newline, arith, Bool-cases, and_left, and_right, All, All-append, if◌then◌else◌,
}
use agentic_ai_tee.Base.Result.{ok, err}
use agentic_ai_tee.Base.Dict
use agentic_ai_tee.Base.Dict.{
  Dict, contains, keys, values, NodupKeys, put-NodupKeys, put_new, get-put,
}
use agentic_ai_tee.Tools.Registry.{
  Tool, ToolSpec, ToolRegistry, not_snake_case, duplicate_name, name_pattern, matches_tail,
  is_name_char, is_lower, register, get_tool, list_tools, names, register_all,
}

-- [a-z][a-z0-9_]*
abbrev pub IsSnakeCase : Text → Type 0
IsSnakeCase [] = ⊥
IsSnakeCase (c ∷ t) = (is_lower c ≡ true) × All (λ d. is_name_char d ≡ true) t

module _ {W : Type 0} where
  abbrev entry : Tool W → Text × ToolSpec W
  entry t = (t.name, record { name = t.name; description = t.description; tool = t })

  -- A registered tool has a name that the pattern admits, and stands under its name.
  abbrev IsEntry : Text × ToolSpec W → Type 0
  IsEntry (k, spec) = (name_pattern k ≡ true) × (spec.tool.name ≡ k) × (spec.name ≡ k)

  pub record IsRegistry (tools : ToolRegistry W) : Type 0 where
    pub unique : NodupKeys tools
    pub named : All IsEntry tools

  register-append :
      (tools tools' : ToolRegistry W) (t : Tool W)
      → register tools t ≡ ok tools'
      → (tools' ≡ tools ++ (entry t ∷ []))
        × (name_pattern t.name ≡ true)
        × (Dict.get tools t.name ≡ none)
        × (tools' ≡ Dict.put tools t.name (entry t).1)
  unfolding register
  register-append tools tools' t h = ground (arith, put_new tools t.name (entry t).1)

  -- Registering keeps every name unique and in the pattern.
  pub register-IsRegistry :
      (tools tools' : ToolRegistry W) (t : Tool W)
      → IsRegistry tools
      → register tools t ≡ ok tools'
      → IsRegistry tools'
  register-IsRegistry tools tools' t r h =
      let (appended, valid, fresh, placed) = register-append tools tools' t h in
      record {
        unique = rw placed (put-NodupKeys tools t.name (entry t).1 r.unique);
        named =
            rw appended (All-append IsEntry tools (entry t ∷ []) r.named ((valid, refl, refl), tt));
      }

  -- After a registration the new name finds the new tool, and every other name what it found.
  pub get_tool-register :
      (tools tools' : ToolRegistry W) (t : Tool W) (name : Text)
      → register tools t ≡ ok tools'
      → get_tool tools' name ≡ (if text_eq t.name name then some t else get_tool tools name)
  unfolding get_tool
  get_tool-register tools tools' t name h =
      rw (register-append tools tools' t h).3
        (ground (arith, get-put tools t.name name (entry t).1))

  -- A registration raises exactly for a name outside the pattern, or else for one that is taken.
  pub register_refused_iff :
      (tools : ToolRegistry W) (t : Tool W)
      → ((register tools t ≡ err (not_snake_case t.name)) ↔ (name_pattern t.name ≡ false))
        × ((register tools t ≡ err (duplicate_name t.name))
            ↔ ((name_pattern t.name ≡ true) × (Dict.get tools t.name ≢ none)))
  unfolding register
  register_refused_iff tools t = ground arith

  register_all-cons :
      (tools tools' : ToolRegistry W) (t : Tool W) (ts : List (Tool W))
      → register_all tools (t ∷ ts) ≡ ok tools'
      → (mid : ToolRegistry W) × (register tools t ≡ ok mid) × (register_all mid ts ≡ ok tools')
  unfolding register_all
  register_all-cons tools tools' t ts h = ground arith

  register_all-append :
      (tools tools' : ToolRegistry W) (ts : List (Tool W))
      → register_all tools ts ≡ ok tools'
      → tools' ≡ tools ++ map entry ts
  unfolding register_all
  register_all-append tools tools' [] h = cc (append-nil tools)
  register_all-append tools tools' (t ∷ ts) h =
      let (mid, first, rest) = register_all-cons tools tools' t ts h in
      register_all-append mid tools' ts rest
      ∙ (ap (λ r. r ++ map entry ts) (register-append tools mid t first).0
          ∙ append_assoc tools (entry t ∷ []) (map entry ts))

  register_all-IsRegistry :
      (tools tools' : ToolRegistry W) (ts : List (Tool W))
      → IsRegistry tools
      → register_all tools ts ≡ ok tools'
      → IsRegistry tools'
  unfolding register_all
  register_all-IsRegistry tools tools' [] r h = subst IsRegistry (cc) r
  register_all-IsRegistry tools tools' (t ∷ ts) r h =
      let (mid, first, rest) = register_all-cons tools tools' t ts h in
      register_all-IsRegistry mid tools' ts (register-IsRegistry tools mid t r first) rest

  list_tools-entries : (ts : List (Tool W)) → list_tools (map entry ts) ≡ ts
  unfolding list_tools
  list_tools-entries [] = refl
  list_tools-entries (t ∷ ts) = ap (λ r. t ∷ r) (list_tools-entries ts)

  names-entries : (ts : List (Tool W)) → names (map entry ts) ≡ map (λ t. t.name) ts
  unfolding names
  names-entries [] = refl
  names-entries (t ∷ ts) = ap (λ r. t.name ∷ r) (names-entries ts)

  -- When no call of a sequence of registrations on an empty registry raises, the registry lists
  -- exactly those tools, in that order, under their names, and all names are unique and in the
  -- pattern.
  pub register_all_order :
      (ts : List (Tool W)) (tools : ToolRegistry W)
      → register_all [] ts ≡ ok tools
      → (list_tools tools ≡ ts) × (names tools ≡ map (λ t. t.name) ts) × IsRegistry tools
  register_all_order ts tools h =
      let e : tools ≡ map entry ts = register_all-append [] tools ts h in
      (
        ap list_tools e ∙ list_tools-entries ts,
        ap names e ∙ names-entries ts,
        register_all-IsRegistry [] tools ts (record { unique = tt; named = tt }) h,
      )

last_newline : (c : ℕ) → matches_tail (c ∷ []) ≡ true → is_name_char c ≡ false → c ≡ 10
unfolding matches_tail
last_newline c h e = ground arith

matches_tail_sound :
    (t : Text)
    → matches_tail t ≡ true
    → All (λ d. is_name_char d ≡ true) t
      ⊎ ((m : Text) × (t ≡ m ++ newline) × All (λ d. is_name_char d ≡ true) m)
unfolding matches_tail
matches_tail_sound [] h = inl tt
matches_tail_sound (c ∷ []) h = elim (Bool-cases (is_name_char c)) [
  | inl e ↦ inl (e, tt)
  | inr e ↦ inr ([], ap (λ d. d ∷ []) (last_newline c h e), tt)
]
matches_tail_sound (c ∷ d ∷ t) h = elim (matches_tail_sound (d ∷ t) (and_right _ _ h)) [
  | inl all_name ↦ inl (and_left _ _ h, all_name)
  | inr (m, e, all_name) ↦ inr (c ∷ m, ap (λ r. c ∷ r) e, (and_left _ _ h, all_name))
]

matches_tail-All : (t : Text) → All (λ d. is_name_char d ≡ true) t → matches_tail t ≡ true
unfolding matches_tail
matches_tail-All [] h = refl
matches_tail-All (c ∷ []) h = rw h.0
matches_tail-All (c ∷ d ∷ t) h = rw h.0 (matches_tail-All (d ∷ t) h.1)

matches_tail-newline :
    (t : Text) → All (λ d. is_name_char d ≡ true) t → matches_tail (t ++ newline) ≡ true
unfolding matches_tail
matches_tail-newline [] h = refl
matches_tail-newline (c ∷ []) h = rw h.0
matches_tail-newline (c ∷ d ∷ t) h = rw h.0 (matches_tail-newline (d ∷ t) h.1)

-- The pattern admits exactly the snake_case names, and those with a newline behind.
pub name_pattern_iff :
    (n : Text)
    → (name_pattern n ≡ true) ↔ (IsSnakeCase n ⊎ ((m : Text) × (n ≡ m ++ newline) × IsSnakeCase m))
unfolding name_pattern
name_pattern_iff n = (sound n, complete n)
  where
    sound :
        (n : Text)
        → name_pattern n ≡ true
        → IsSnakeCase n ⊎ ((m : Text) × (n ≡ m ++ newline) × IsSnakeCase m)
    sound [] h = absurd (ground arith)
    sound (c ∷ t) h = elim (matches_tail_sound t (and_right _ _ h)) [
      | inl all_name ↦ inl (and_left _ _ h, all_name)
      | inr (m, e, all_name) ↦ inr (c ∷ m, ap (λ r. c ∷ r) e, (and_left _ _ h, all_name))
    ]

    complete :
        (n : Text)
        → IsSnakeCase n ⊎ ((m : Text) × (n ≡ m ++ newline) × IsSnakeCase m)
        → name_pattern n ≡ true
    complete [] (inl h) = absurd h
    complete (c ∷ t) (inl h) = rw h.0 (matches_tail-All t h.1)
    complete n (inr ([], e, h)) = absurd h
    complete n (inr (c ∷ m, e, h)) = rw e (rw h.0 (matches_tail-newline m h.1))
