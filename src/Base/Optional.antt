-- ===== src/Base/Optional.antt =====
-- A computation that may have no result, for `do` blocks.
use mathlib.Core.Path.{◌≡◌, refl}
use mathlib.Core.Option.{Option, none, some}

module _ {ℓ} where
  infixl 5 ◌>>=◌ ◌>>◌
  abbrev pub ◌>>=◌ {κ} : {A : Type ℓ} {B : Type κ} → Option A → (A → Option B) → Option B
  none >>= f = none
  some a >>= f = f a

  abbrev pub ◌>>◌ {κ} : {A : Type ℓ} {B : Type κ} → Option A → Option B → Option B
  m >> k = m >>= λ _. k

  -- What a sequence with a result did.
  pub >>=-eq-some {κ} :
      {A : Type ℓ} {B : Type κ} (m : Option A) (f : A → Option B) (b : B)
      → (m >>= f) ≡ some b
      → (a : A) × (m ≡ some a) × (f a ≡ some b)
  >>=-eq-some none f b h = absurd (cc)
  >>=-eq-some (some a) f b h = (a, refl, h)

-- What holds of the result, if there is one.
pub data Every {ℓ μ} {A : Type ℓ} (P : A → Type μ) : Option A → Type (ℓ ⊔ μ) where
  absent : Every P none
  holds : {a : A} → P a → Every P (some a)

pub >>=-Every {ℓ μ} :
    {A B : Type ℓ} (P : B → Type μ) (m : Option A) (f : A → Option B)
    → ((a : A) → Every P (f a))
    → Every P (m >>= f)
>>=-Every P none f h = absent
>>=-Every P (some a) f h = h a

-- As above, with what holds of the first result.
pub >>=-Every-with {ℓ μ} :
    {A B : Type ℓ} (P : A → Type μ) (Q : B → Type μ) (m : Option A) (f : A → Option B)
    → Every P m
    → ((a : A) → P a → Every Q (f a))
    → Every Q (m >>= f)
>>=-Every-with P Q m f absent h = absent
>>=-Every-with P Q m f (holds {a} p) h = h a p
