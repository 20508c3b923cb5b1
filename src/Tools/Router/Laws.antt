-- ===== src/Tools/Router/Laws.antt =====
-- What the router lets through.
use agentic_ai_tee.Base.{
  ℕ, ◌≡◌, ◌≢◌, ap, sym, ◌∙◌, Option-cases, ◌∷◌, ◌⊎◌, inl, inr, refl, true, false, Option, none,
  some, [], Text, arith,
}
use agentic_ai_tee.Base.Result.{Result, ok, err}
use agentic_ai_tee.Agent.Models.{ToolCall, ToolOutput, Exn, Stop, raised, cancelled}
use agentic_ai_tee.Tools.Registry.{Tool, ToolRegistry, get_tool, names}
use agentic_ai_tee.Tools.Router.{
  Format, failure, unknown_tool, finish, execute, validated, effective_timeout, dispatch,
}

-- The validation let the call through: no error text, or an empty one.
abbrev pub Passes : Result Exn (Option Text) → Type 0
Passes (ok none) = Unit
Passes (ok (some [])) = Unit
Passes (ok (some (c ∷ t))) = ⊥
Passes (err e) = ⊥

module _ (F : Format) {W : Type 0} (tool : Tool W) (call : ToolCall) (timeout : ℕ) (w : W) where
  abbrev run : Result Stop ToolOutput × ℕ × W
  run = tool.run timeout call.args w

  validated_guarded :
      (v : Result Exn (Option Text))
      → (validated F tool call timeout v w).1 ≢ w
      → Passes v × ((validated F tool call timeout v w).1 ≡ run.2)
  unfolding validated execute
  validated_guarded (ok none) h = (tt, refl)
  validated_guarded (ok (some [])) h = (tt, refl)
  validated_guarded (ok (some (c ∷ t))) h = absurd (h refl)
  validated_guarded (err e) h = absurd (h refl)

  -- the ends of a validated run that are no output
  abbrev pub Stops : Result Exn (Option Text) → Stop → Type 0
  Stops v s =
      ((e : Exn) × (v ≡ err e) × (s ≡ raised e))
      ⊎ ((s ≡ cancelled) × Passes v × (run.0 ≡ err cancelled))

  finish_stops :
      (r : Result Stop ToolOutput) (elapsed : ℕ) (s : Stop)
      → finish F call.name timeout r elapsed ≡ err s
      → (s ≡ cancelled) × (r ≡ err cancelled)
  unfolding finish
  finish_stops (ok o) elapsed s h = cc
  finish_stops (err cancelled) elapsed s h = ground arith
  finish_stops (err (raised e)) elapsed s h = ground arith

  validated-Stops :
      (v : Result Exn (Option Text)) (s : Stop)
      → (validated F tool call timeout v w).0 ≡ err s
      → Stops v s
  unfolding validated execute
  validated-Stops (ok none) s h = let (p, q) = finish_stops run.0 run.1 s h in inr (p, tt, q)
  validated-Stops (ok (some [])) s h = let (p, q) = finish_stops run.0 run.1 s h in inr (p, tt, q)
  validated-Stops (ok (some (c ∷ t))) s h = cc
  validated-Stops (err e) s h = inl (e, refl, ground arith)

  -- an output of the tool's own, with the measured latency
  abbrev pub Own : ToolOutput → Type 0
  Own o = (result : ToolOutput) × (run.0 ≡ ok result) × (o ≡ record result { latency_ms = run.1 })

  finish_outputs :
      (r : Result Stop ToolOutput) (elapsed : ℕ) (o : ToolOutput)
      → finish F call.name timeout r elapsed ≡ ok o
      → (o.success ≡ false)
        ⊎ ((result : ToolOutput) × (r ≡ ok result) × (o ≡ record result { latency_ms = elapsed }))
  unfolding finish
  finish_outputs (ok result) elapsed o h = inr (result, refl, ground arith)
  finish_outputs (err cancelled) elapsed o h = cc
  finish_outputs (err (raised e)) elapsed o h = inl (ground arith)

  validated_outputs :
      (v : Result Exn (Option Text)) (o : ToolOutput)
      → (validated F tool call timeout v w).0 ≡ ok o
      → (o.success ≡ false) ⊎ (Passes v × Own o)
  unfolding validated execute
  validated_outputs (ok none) o h = elim (finish_outputs run.0 run.1 o h) [
    | inl f ↦ inl f
    | inr r ↦ inr (tt, r)
  ]
  validated_outputs (ok (some [])) o h = elim (finish_outputs run.0 run.1 o h) [
    | inl f ↦ inl f
    | inr r ↦ inr (tt, r)
  ]
  validated_outputs (ok (some (c ∷ t))) o h = inl (ground arith)
  validated_outputs (err e) o h = cc

module _ (F : Format) {W : Type 0} (registry : ToolRegistry W) (default : ℕ) (timeout : Option ℕ)
    (call : ToolCall) (w : W) where
  abbrev limit : ℕ
  limit = effective_timeout timeout default

  dispatch-none :
      get_tool registry call.name ≡ none
      → dispatch F registry default timeout call w
        ≡ (ok (failure (unknown_tool F call.name (names registry)) 0), w)
  unfolding dispatch
  dispatch-none e = rw (e, dispatch)

  dispatch-some :
      (tool : Tool W)
      → get_tool registry call.name ≡ some tool
      → dispatch F registry default timeout call w
        ≡ validated F tool call limit (tool.validate_args call.args) w
  unfolding dispatch
  dispatch-some tool e = rw (e, dispatch)

  -- A dispatch that changes the world has run a registered tool of the call's name, once, after its
  -- validation let the call through, and leaves the world as that run left it.
  pub dispatch_guarded :
      (dispatch F registry default timeout call w).1 ≢ w
      → (tool : Tool W) × (get_tool registry call.name ≡ some tool)
        × Passes (tool.validate_args call.args)
        × ((dispatch F registry default timeout call w).1 ≡ (tool.run limit call.args w).2)
  dispatch_guarded h = elim (Option-cases (get_tool registry call.name)) [
    | inl e ↦ absurd (h (ap (λ r. r.1) (dispatch-none e)))
    | inr (tool, e) ↦
        let step = dispatch-some tool e in
        let (passes, world) =
          validated_guarded F tool call limit w (tool.validate_args call.args)
            (λ same. h (ap (λ r. r.1) step ∙ same)) in
        (tool, e, passes, ap (λ r. r.1) step ∙ world)
  ]

  -- A dispatch that returns no output has met an exception of the tool's validation, which it passes
  -- on, or the cancellation of the tool's run.
  pub dispatch-Stops :
      (s : Stop)
      → (dispatch F registry default timeout call w).0 ≡ err s
      → (tool : Tool W) × (get_tool registry call.name ≡ some tool)
        × Stops F tool call limit w (tool.validate_args call.args) s
  dispatch-Stops s h = elim (Option-cases (get_tool registry call.name)) [
    | inl e ↦ absurd (cc (ap (λ r. r.0) (dispatch-none e)))
    | inr (tool, e) ↦ (
      tool,
      e,
      validated-Stops F tool call limit w (tool.validate_args call.args) s
          (sym (ap (λ r. r.0) (dispatch-some tool e)) ∙ h),
    )
  ]

  -- An output with `success` is the tool's own, with the measured latency, and its validation let
  -- the call through.
  pub dispatch_success :
      (o : ToolOutput)
      → (dispatch F registry default timeout call w).0 ≡ ok o
      → o.success ≡ true
      → (tool : Tool W) × (get_tool registry call.name ≡ some tool)
        × Passes (tool.validate_args call.args)
        × Own F tool call limit w o
  dispatch_success o h success = elim (Option-cases (get_tool registry call.name)) [
    | inl e ↦ absurd (ground (arith, dispatch-none e))
    | inr (tool, e) ↦
        elim (validated_outputs F tool call limit w (tool.validate_args call.args) o
          (sym (ap (λ r. r.0) (dispatch-some tool e)) ∙ h)) [
            | inl failed ↦ absurd (cc)
            | inr (passes, own) ↦ (tool, e, passes, own)
          ]
  ]
