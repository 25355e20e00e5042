-- ===== src/Job/Unique.antt =====
-- The two unique constraints of the `job` table as an invariant, and its preservation.
use certman.Base.{
  ◌≡◌, true, false, List, [], ◌∷◌, ◌++◌, ◌==◌, inl, inr, any, All, All-append, arith, eq_iff,
  Bool-cases,
}
use certman.Job.Table.{Job, same_key, clashes, key_taken, replace, insert, save}

-- No two rows have one identifier, or one job type, subject and status.
abbrev pub IsUnique : List Job → Type 0
IsUnique [] = Unit
IsUnique (j ∷ js) = All (λ k. clashes j k ≡ false) js × IsUnique js

clashes_comm : (j k : Job) → clashes j k ≡ clashes k j
unfolding clashes
clashes_comm j k = ground (
  arith,
  eq_iff j.job_id k.job_id,
  eq_iff k.job_id j.job_id,
  eq_iff j.job_type k.job_type,
  eq_iff k.job_type j.job_type,
  eq_iff j.subject_id k.subject_id,
  eq_iff k.subject_id j.subject_id,
  eq_iff j.status k.status,
  eq_iff k.status j.status,
)

append-IsUnique :
    (j : Job) (rows : List Job)
    → any (clashes j) rows ≡ false
    → IsUnique rows
    → IsUnique (rows ++ j ∷ [])
append-IsUnique j [] h u = (tt, tt)
append-IsUnique j (k ∷ ks) h u = (
  All-append (λ x. clashes k x ≡ false) ks (j ∷ []) u.0 (ground (arith, clashes_comm j k), tt),
  append-IsUnique j ks (ground arith) u.1,
)

-- the row that `j` replaces: `j` clashes with none of the others
replaced-clear :
    (j k : Job) (ks : List Job)
    → (k.job_id == j.job_id) ≡ true
    → All (λ x. clashes k x ≡ false) ks
    → key_taken j ks ≡ false
    → All (λ x. clashes j x ≡ false) (replace j ks)
unfolding key_taken replace clashes
replaced-clear j k [] e h t = tt
replaced-clear j k (x ∷ xs) e h t = (
  ground (
    arith,
    eq_iff k.job_id j.job_id,
    eq_iff k.job_id x.job_id,
    eq_iff x.job_id j.job_id,
    eq_iff j.job_id x.job_id,
  ),
  replaced-clear j k xs e h.1 (ground arith),
)

clear_of_key :
    (j k : Job) → (k.job_id == j.job_id) ≡ false → same_key j k ≡ false → clashes k j ≡ false
unfolding clashes
clear_of_key j k e s = ground (
  arith,
  eq_iff j.job_type k.job_type,
  eq_iff k.job_type j.job_type,
  eq_iff j.subject_id k.subject_id,
  eq_iff k.subject_id j.subject_id,
  eq_iff j.status k.status,
  eq_iff k.status j.status,
)

-- any other row: it clashes with none of the rows after the replacement
kept-clear :
    (j k : Job) (ks : List Job)
    → (k.job_id == j.job_id) ≡ false
    → same_key j k ≡ false
    → All (λ x. clashes k x ≡ false) ks
    → All (λ x. clashes k x ≡ false) (replace j ks)
unfolding replace
kept-clear j k [] e s h = tt
kept-clear j k (x ∷ xs) e s h = (
  ground (arith, clear_of_key j k e s, Bool-cases (x.job_id == j.job_id)),
  kept-clear j k xs e s h.1,
)

replace-IsUnique :
    (j : Job) (rows : List Job)
    → key_taken j rows ≡ false
    → IsUnique rows
    → IsUnique (replace j rows)
unfolding key_taken replace
replace-IsUnique j [] h u = tt
replace-IsUnique j (k ∷ ks) h u = elim (Bool-cases (k.job_id == j.job_id)) [
  | inl same ↦
      rw same
        (replaced-clear j k ks same u.0 (ground arith), replace-IsUnique j ks (ground arith) u.1)
  | inr other ↦
      rw other
        (kept-clear j k ks other (ground arith) u.0, replace-IsUnique j ks (ground arith) u.1)
]

-- A commit of an INSERT or of an UPDATE keeps the constraints, whether it raises or not.
pub insert-IsUnique : (j : Job) (rows : List Job) → IsUnique rows → IsUnique (insert j rows).1
unfolding insert
insert-IsUnique j rows u = elim (Bool-cases (any (clashes j) rows)) [
  | inl taken ↦ rw taken u
  | inr free ↦ rw free (append-IsUnique j rows free u)
]

pub save-IsUnique : (j : Job) (rows : List Job) → IsUnique rows → IsUnique (save j rows).1
unfolding save
save-IsUnique j rows u = elim (Bool-cases (key_taken j rows)) [
  | inl taken ↦ rw taken u
  | inr free ↦ rw free (replace-IsUnique j rows free u)
]
