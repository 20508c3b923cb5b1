-- ===== src/Base/Coroutine.antt =====
-- A coroutine that acts on a world and returns or is ended early.
use mathlib.Core.Path.{◌≡◌, refl}
use native.Mathlib.Omega.{arith}
use agentic_ai_tee.Base.Result.{Result, ok, err}

abbrev pub Coroutine : Type 0 → Type 0 → Type 0 → Type 0
Coroutine E W A = W → Result E A × W

module _ {E W : Type 0} where
  abbrev pub return : {A : Type 0} → A → Coroutine E W A
  return a w = (ok a, w)

  abbrev pub stop : {A : Type 0} → E → Coroutine E W A
  stop e w = (err e, w)

  -- what follows a first part, by how that ended
  abbrev pub after : {A B : Type 0} → (A → Coroutine E W B) → Result E A × W → Result E B × W
  after f (ok a, w) = f a w
  after f (err e, w) = (err e, w)

  infixl 5 ◌>>=◌ ◌>>◌
  abbrev pub ◌>>=◌ : {A B : Type 0} → Coroutine E W A → (A → Coroutine E W B) → Coroutine E W B
  ◌>>=◌ m f w = after f (m w)

  abbrev pub ◌>>◌ : {A B : Type 0} → Coroutine E W A → Coroutine E W B → Coroutine E W B
  m >> k = m >>= λ _. k

  module _ {A B : Type 0} (m : Coroutine E W A) (f : A → Coroutine E W B) where
    bind-ok :
        (w w1 w' : W) (r : Result E A) (b : B)
        → m w ≡ (r, w1)
        → (m >>= f) w ≡ (ok b, w')
        → (a : A) × (w2 : W) × (m w ≡ (ok a, w2)) × (f a w2 ≡ (ok b, w'))
    bind-ok w w1 w' (ok a) b e h = (a, w1, e, ground arith)
    bind-ok w w1 w' (err s) b e h = absurd (ground arith)

    -- A sequence that returns has returned from both its parts.
    pub >>=-eq-ok :
        (w w' : W) (b : B)
        → (m >>= f) w ≡ (ok b, w')
        → (a : A) × (w1 : W) × (m w ≡ (ok a, w1)) × (f a w1 ≡ (ok b, w'))
    >>=-eq-ok w w' b h = bind-ok w _ w' _ b refl h
