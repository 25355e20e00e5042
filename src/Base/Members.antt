-- ===== src/Base/Members.antt =====
-- Membership in filtered, searched and appended lists.

use mathlib.Core.Path.{◌≡◌, refl}
use mathlib.Core.Bool.{Bool, true, false}
use mathlib.Core.Logic.{inl, inr}
use mathlib.Core.Option.{some}
use mathlib.Core.List.{List, [], ◌∷◌, Memᴰ}
use native.Mathlib.Omega.{arith}
use certman.Base.Tests.{Bool-cases}
use certman.Base.Lists.{All, any, filter, find?}

module _ {ℓ} {A : Type ℓ} where
  later :
      (p : A → Bool) (x : A) (xs : List A) {a : A}
      → Memᴰ a xs × (p a ≡ true)
      → Memᴰ a (x ∷ xs) × (p a ≡ true)
  later p x xs (q, r) = (Memᴰ.tail q, r)

  kept :
      (p : A → Bool) (x : A) (ys xs : List A) {a : A}
      → p x ≡ true
      → (Memᴰ a ys → Memᴰ a xs × (p a ≡ true))
      → Memᴰ a (x ∷ ys)
      → Memᴰ a (x ∷ xs) × (p a ≡ true)
  kept p x ys xs pass rest (Memᴰ.head e) = (Memᴰ.head e, rw e pass)
  kept p x ys xs pass rest (Memᴰ.tail t) = later p x xs (rest t)

  -- A member of the filtered list is a member that passes the test.
  pub mem_of_mem-filter :
      (p : A → Bool) (xs : List A) {a : A} → Memᴰ a (filter p xs) → Memᴰ a xs × (p a ≡ true)
  mem_of_mem-filter p [] m = elim m [ ]
  mem_of_mem-filter p (x ∷ xs) m = elim (Bool-cases (p x)) [
    | inl pass ↦ kept p x (filter p xs) xs pass (λ t. mem_of_mem-filter p xs t) (rw pass at m)
    | inr fail ↦ later p x xs (mem_of_mem-filter p xs (rw fail at m))
  ]

  pub mem_of_find? :
      (p : A → Bool) (xs : List A) (a : A) → find? p xs ≡ some a → Memᴰ a xs × (p a ≡ true)
  mem_of_find? p [] a h = ground arith
  mem_of_find? p (x ∷ xs) a h = elim (Bool-cases (p x)) [
    | inl pass ↦ (Memᴰ.head (ground arith), ground arith)
    | inr fail ↦ let (m, e) = mem_of_find? p xs a (ground arith) in (Memᴰ.tail m, e)
  ]

  pub All-mem {κ} : (P : A → Type κ) (xs : List A) {a : A} → All P xs → Memᴰ a xs → P a
  All-mem P [] h m = elim m [ ]
  All-mem P (x ∷ xs) h (Memᴰ.head e) = rw e h.0
  All-mem P (x ∷ xs) h (Memᴰ.tail m) = All-mem P xs h.1 m

  -- What holds of the filtered list holds of every element that passes the test.
  pub All-of_filter {κ} :
      (P : A → Type κ) (p : A → Bool) (xs : List A)
      → All P (filter p xs)
      → All (λ x. p x ≡ true → P x) xs
  All-of_filter P p [] h = tt
  All-of_filter P p (x ∷ xs) h = elim (Bool-cases (p x)) [
    | inl pass ↦ (λ _. (rw pass at h).0, All-of_filter P p xs ((rw pass at h).1))
    | inr fail ↦ (λ pass. absurd (ground arith), All-of_filter P p xs (rw fail at h))
  ]

  pub mem-filter :
      (p : A → Bool) (xs : List A) (a : A) → Memᴰ a xs → p a ≡ true → Memᴰ a (filter p xs)
  mem-filter p [] a m h = elim m [ ]
  mem-filter p (x ∷ xs) a (Memᴰ.head e) h = rw (← e, h) (Memᴰ.head refl)
  mem-filter p (x ∷ xs) a (Memᴰ.tail m) h = elim (Bool-cases (p x)) [
    | inl b ↦ rw b (Memᴰ.tail (mem-filter p xs a m h))
    | inr b ↦ rw b (mem-filter p xs a m h)
  ]

  -- Every element of the list is a member, and what holds of all members holds of all elements.
  pub All-of_mem {κ} : (P : A → Type κ) (xs : List A) → ((a : A) → Memᴰ a xs → P a) → All P xs
  All-of_mem P [] f = tt
  All-of_mem P (x ∷ xs) f = (f x (Memᴰ.head refl), All-of_mem P xs (λ a m. f a (Memᴰ.tail m)))

module _ {ℓ} {A : Type ℓ} where
  pub any_of_mem : (p : A → Bool) (xs : List A) (a : A) → Memᴰ a xs → p a ≡ true → any p xs ≡ true
  any_of_mem p [] a m h = elim m [ ]
  any_of_mem p (x ∷ xs) a (Memᴰ.head e) h = let pass : p x ≡ true = rw (← e) h in ground arith
  any_of_mem p (x ∷ xs) a (Memᴰ.tail m) h = ground (arith, any_of_mem p xs a m h)

  pub any_of_none : (p : A → Bool) (xs : List A) → All (λ x. p x ≡ false) xs → any p xs ≡ false
  any_of_none p [] h = refl
  any_of_none p (x ∷ xs) h = ground (arith, any_of_none p xs h.1)
