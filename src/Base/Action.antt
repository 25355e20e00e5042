-- ===== src/Base/Action.antt =====
-- Results, and methods that change a state and may raise. What was committed before a raise stays
-- committed, so the state comes back beside the error too.

use mathlib.Core.Path.{◌≡◌, refl}
use native.Mathlib.Omega.{arith}
use mathlib.Core.Logic.{◌⊎◌, inl, inr}

pub data Result {ℓ} (E A : Type ℓ) : Type ℓ where
  ok : A → Result E A
  err : E → Result E A

pub Result-cases {ℓ} :
    {E A : Type ℓ} (r : Result E A) → ((e : E) × (r ≡ err e)) ⊎ ((a : A) × (r ≡ ok a))
Result-cases (ok a) = inr (a, refl)
Result-cases (err e) = inl (e, refl)

abbrev pub Exec {ℓ} : Type ℓ → Type ℓ → Type ℓ → Type ℓ
Exec S E A = S → Result E A × S

module _ {ℓ} {S E A : Type ℓ} where
  abbrev pub pure : A → Exec S E A
  pure a s = (ok a, s)

  abbrev pub raise : E → Exec S E A
  raise e s = (err e, s)

  -- a read of the state
  abbrev pub gets : (S → A) → Exec S E A
  gets f s = (ok (f s), s)

  abbrev pub lift : Result E A → Exec S E A
  lift r s = (r, s)

module _ {ℓ} {S E A B : Type ℓ} where
  abbrev pub continue : Result E A → (A → Exec S E B) → Exec S E B
  continue (ok a) f s = f a s
  continue (err e) f s = (err e, s)

  infixl 10 ◌>>=◌ ◌>>◌
  abbrev pub ◌>>=◌ : Exec S E A → (A → Exec S E B) → Exec S E B
  ◌>>=◌ m f s = let (r, s') = m s in continue r f s'

  abbrev pub ◌>>◌ : Exec S E A → Exec S E B → Exec S E B
  m >> n = m >>= λ _. n

-- What an action comes to.
pub Exec-cases {ℓ} :
    {S E A : Type ℓ} (out : Result E A × S)
    → ((e : E) × (s : S) × (out ≡ (err e, s))) ⊎ ((a : A) × (s : S) × (out ≡ (ok a, s)))
Exec-cases (ok a, s) = inr (a, s, refl)
Exec-cases (err e, s) = inl (e, s, refl)

-- An action does not both raise and return.
pub clash {ℓ} :
    {S E A : Type ℓ} {e : E} {a : A} {s s' : S} {out : Result E A × S}
    → out ≡ (err e, s)
    → out ≡ (ok a, s')
    → ⊥
clash f h = ground arith

pub same_ok {ℓ} :
    {S E A : Type ℓ} {a b : A} {s s' : S} → ◌≡◌ {A = Result E A × S} (ok a, s) (ok b, s') → a ≡ b
same_ok h = ground arith
