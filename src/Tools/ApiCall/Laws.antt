-- ===== src/Tools/ApiCall/Laws.antt =====
-- Which requests leave the enclave.
use agentic_ai_tee.Base.{
  ◌≡◌, ◌⊎◌, inl, inr, refl, ap, Bool-cases, true, false, some, List, [], ◌∷◌, ◌++◌, Text, codes,
  text_eq, text_eq_iff, text_eq_refl, any, arith,
}
use agentic_ai_tee.Tools.Affixes.{ends_with-append, ends_with-front}
use agentic_ai_tee.Base.Result.{Result, ok, err, Result-cases}
use agentic_ai_tee.Agent.Models.{ToolOutput, Exn, Stop, raised}
use agentic_ai_tee.Tools.Router.{failure}
use agentic_ai_tee.Tools.ApiCall.{
  Url, Net, Call, matches_domain, domain_of, is_domain_allowed, request_of, send_request,
  not_allowed, guarded, api_call,
}

-- The domain is the allowed one, or ends in a dot and the allowed one.
abbrev pub IsWithin : Text → Text → Type 0
IsWithin domain allowed =
    (domain ≡ allowed) ⊎ ((front : Text) × (domain ≡ front ++ (codes "." ++ allowed)))

-- It is within a domain of the list.
abbrev pub IsAllowed : List Text → Text → Type 0
IsAllowed allowlist domain =
    (before : List Text) × (allowed : Text) × (after : List Text) × (allowlist
      ≡ before ++ (allowed ∷ after))
    × IsWithin domain allowed

matches_domain-IsWithin :
    (domain allowed : Text) → matches_domain domain allowed ≡ true → IsWithin domain allowed
unfolding matches_domain
matches_domain-IsWithin domain allowed h = elim (Bool-cases (text_eq domain allowed)) [
  | inl same ↦ inl ((text_eq_iff domain allowed).0 same)
  | inr differ ↦ inr (ends_with-front domain (codes "." ++ allowed) (ground arith))
]

IsWithin-matches :
    (domain allowed : Text) → IsWithin domain allowed → matches_domain domain allowed ≡ true
unfolding matches_domain
IsWithin-matches domain allowed (inl same) = rw (same, text_eq_refl allowed) refl
IsWithin-matches domain allowed (inr (front, e)) = elim (Bool-cases (text_eq domain allowed)) [
  | inl same ↦ rw same refl
  | inr differ ↦ rw (differ, e) (ends_with-append front (codes "." ++ allowed))
]

any-IsAllowed :
    (domain : Text) (allowlist : List Text)
    → any (matches_domain domain) allowlist ≡ true
    → IsAllowed allowlist domain
any-IsAllowed domain [] h = absurd (cc)
any-IsAllowed domain (d ∷ ds) h = elim (Bool-cases (matches_domain domain d)) [
  | inl fits ↦ ([], d, ds, refl, matches_domain-IsWithin domain d fits)
  | inr other ↦
      let (before, allowed, after, e, within) = any-IsAllowed domain ds (ground arith) in
      (d ∷ before, allowed, after, ap (λ xs. d ∷ xs) e, within)
]

any-fits :
    (domain allowed : Text) (before after : List Text)
    → matches_domain domain allowed ≡ true
    → any (matches_domain domain) (before ++ (allowed ∷ after)) ≡ true
any-fits domain allowed [] after h = rw h refl
any-fits domain allowed (d ∷ before) after h =
    ground (arith, any-fits domain allowed before after h)

module _ {S : Type 0} (N : Net S) (allowlist : List Text) (c : Call) (s : S) where
  -- What a call under an allowlist may do.
  abbrev pub Outcome : Result Stop ToolOutput × S → Type 0
  Outcome (output, s') =
      ((u : Url) × (N.urlparse c.url ≡ ok u)
        × IsAllowed allowlist (domain_of u)
        × ((output, s') ≡ send_request N (request_of N c) s))
      ⊎ (((u : Url) × (N.urlparse c.url ≡ ok u)
            × (¬ IsAllowed allowlist (domain_of u))
            × (output ≡ ok (failure (not_allowed N allowlist u) 0))
            × (s' ≡ s))
          ⊎ ((e : Exn) × (N.urlparse c.url ≡ err e) × (output ≡ err (raised e)) × (s' ≡ s)))

  -- Under an allowlist, a call sends its request if the host of its URL is a domain of the list or one
  -- below such a domain; otherwise it sends nothing, and fails with a message, or with what the parsing
  -- of the URL raises.
  pub api_call-Outcome : Outcome (api_call N (some allowlist) c s)
  unfolding api_call guarded is_domain_allowed
  api_call-Outcome = elim (Result-cases (N.urlparse c.url)) [
    | inl (e, fails) ↦ rw (fails, api_call, guarded) (inr (inr (e, refl, refl, refl)))
    | inr (u, parsed) ↦ elim (Bool-cases (any (matches_domain (domain_of u)) allowlist)) [
      | inl good ↦
          rw (parsed, guarded, good)
            (inl (u, refl, any-IsAllowed (domain_of u) allowlist good, refl))
      | inr bad ↦
          rw (parsed, guarded, bad) (inr (inl (u, refl, (λ h. refused u bad h), refl, refl)))
    ]
  ]
    where
      refused :
          (u : Url)
          → any (matches_domain (domain_of u)) allowlist ≡ false
          → ¬ IsAllowed allowlist (domain_of u)
      refused u bad (before, allowed, after, e, within) = absurd (
          cc (
            bad,
            ap (any (matches_domain (domain_of u))) e,
            any-fits (domain_of u) allowed before after
                (IsWithin-matches (domain_of u) allowed within),
          ))
