-- ===== src/Job/Queue.antt =====
-- What the two queries of `JobService` that take the oldest row select.
use certman.Base.{
  ◌≤◌, ◌≡◌, refl, Bool, true, false, Option, none, some, List, [], ◌∷◌, Memᴰ, leb, All, All-mono,
  All-of_filter, mem_of_mem-filter, filter, Option-cases, inl, inr, if◌then◌else◌, arith,
}
use mathlib.Core.Path.{subst}
use certman.Job.Table.{Job}
use certman.Job.Service.{oldest}

-- `a` is not younger than any of the rows.
abbrev pub IsOldest : Job → List Job → Type 0
IsOldest a = All (λ k. a.created_at ≤ k.created_at)

pub oldest-eq-none : (js : List Job) → oldest js ≡ none → js ≡ []
unfolding oldest
oldest-eq-none [] h = refl
oldest-eq-none (j ∷ js) h = ground arith

step_sound :
    (j : Job) (js : List Job) (k : Job) (b : Bool)
    → leb j.created_at k.created_at ≡ b
    → Memᴰ k js × IsOldest k js
    → let a = (if b then j else k) in Memᴰ a (j ∷ js) × IsOldest a (j ∷ js)
step_sound j js k true older (m, o) = (
  Memᴰ.head refl,
  (
    omega arith,
    All-mono (λ x. k.created_at ≤ x.created_at) (λ x. j.created_at ≤ x.created_at) js
        (λ x h. ground arith) o,
  ),
)
step_sound j js k false younger (m, o) = (Memᴰ.tail m, (ground arith, o))

last_sound : (j a : Job) (js : List Job) → js ≡ [] → j ≡ a → Memᴰ a (j ∷ js) × IsOldest a (j ∷ js)
last_sound j a js e f = rw (e, ← f) (Memᴰ.head refl, (omega arith, tt))

picked :
    (j k a : Job) (o : Option Job)
    → o ≡ some k
    → (elim o [ none ↦ some j | some k ↦ some (if leb j.created_at k.created_at then j else k) ])
      ≡ some a
    → (if leb j.created_at k.created_at then j else k) ≡ a
picked j k a o e h = ground arith

-- What `oldest` selects is in the list, and no element is older.
pub oldest_sound : (js : List Job) (a : Job) → oldest js ≡ some a → Memᴰ a js × IsOldest a js
unfolding oldest
oldest_sound [] a h = ground arith
oldest_sound (j ∷ js) a h = elim (Option-cases (oldest js)) [
  | inl e ↦ last_sound j a js (oldest-eq-none js e) (ground arith)
  | inr (k, e) ↦
      subst (λ x. Memᴰ x (j ∷ js) × IsOldest x (j ∷ js)) (picked j k a (oldest js) e h)
        (step_sound j js k (leb j.created_at k.created_at) refl (oldest_sound js k e))
]

-- The same for the rows that pass a test.
pub oldest-filter :
    (p : Job → Bool) (db : List Job) (a : Job)
    → oldest (filter p db) ≡ some a
    → Memᴰ a db × (p a ≡ true) × All (λ k. p k ≡ true → a.created_at ≤ k.created_at) db
oldest-filter p db a h =
    let (m, o) = oldest_sound (filter p db) a h in
    let (m', e) = mem_of_mem-filter p db m in
    (m', e, All-of_filter (λ k. a.created_at ≤ k.created_at) p db o)

nothing-filtered : (p : Job → Bool) (db : List Job) → filter p db ≡ [] → All (λ k. p k ≡ false) db
nothing-filtered p [] h = tt
nothing-filtered p (x ∷ xs) h = (ground arith, nothing-filtered p xs (ground arith))

pub oldest-filter-none :
    (p : Job → Bool) (db : List Job) → oldest (filter p db) ≡ none → All (λ k. p k ≡ false) db
oldest-filter-none p db h = nothing-filtered p db (oldest-eq-none (filter p db) h)
