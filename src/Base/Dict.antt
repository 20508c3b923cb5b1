-- ===== src/Base/Dict.antt =====
-- A Python `dict` with string keys, in insertion order.
use mathlib.Core.Path.{◌≡◌, refl}
use mathlib.Core.Bool.{Bool, false}
use mathlib.Core.Option.{Option, none, some}
use mathlib.Core.List.{List, [], ◌∷◌, ◌++◌, map}
use native.Mathlib.Omega.{arith}
use agentic_ai_tee.Base.Tests.{if◌then◌else◌, is_some}
use agentic_ai_tee.Base.Texts.{Text, text_eq, text_eq_iff}

abbrev pub Dict {ℓ} : Type ℓ → Type ℓ
Dict V = List (Text × V)

module _ {ℓ} {V : Type ℓ} where
  -- `d.get(k)`
  unfoldable pub get : Dict V → Text → Option V
  get [] k = none
  get ((j, v) ∷ d) k = if text_eq j k then some v else get d k

  -- `d[k] = v`: a key that is there keeps its place.
  unfoldable pub put : Dict V → Text → V → Dict V
  put [] k v = (k, v) ∷ []
  put ((j, w) ∷ d) k v = if text_eq j k then (j, v) ∷ d else (j, w) ∷ put d k v

  -- `k in d`
  abbrev pub contains : Dict V → Text → Bool
  contains d k = is_some (get d k)

  abbrev pub keys : Dict V → List Text
  keys = map (λ e. e.0)

  abbrev pub values : Dict V → List V
  values = map (λ e. e.1)

  pub get-put :
      (d : Dict V) (k j : Text) (v : V)
      → get (put d k v) j ≡ (if text_eq k j then some v else get d j)
  unfolding get put
  get-put [] k j v = refl
  get-put ((i, w) ∷ d) k j v =
      ground (arith, text_eq_iff k j, text_eq_iff i k, text_eq_iff i j, get-put d k j v)

  -- Every key once.
  abbrev pub NodupKeys : Dict V → Type 0
  NodupKeys [] = Unit
  NodupKeys ((k, v) ∷ d) = (contains d k ≡ false) × NodupKeys d

  pub put-NodupKeys : (d : Dict V) (k : Text) (v : V) → NodupKeys d → NodupKeys (put d k v)
  unfolding put get
  put-NodupKeys [] k v h = (refl, tt)
  put-NodupKeys ((j, w) ∷ d) k v h =
      ground (arith, put-NodupKeys d k v h.1, get-put d k j v, text_eq_iff j k, text_eq_iff k j)

  -- A new key goes to the end.
  pub put_new : (d : Dict V) (k : Text) (v : V) → get d k ≡ none → put d k v ≡ d ++ ((k, v) ∷ [])
  unfolding put get
  put_new [] k v h = refl
  put_new ((j, w) ∷ d) k v h = ground (arith, put_new d k v)
