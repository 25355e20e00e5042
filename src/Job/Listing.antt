-- ===== src/Job/Listing.antt =====
-- `list_jobs`: what it returns, in which order, and what its limit leaves out.
use certman.Base.{
  ℕ, zero, suc, ◌≤◌, String, ◌≡◌, refl, true, Option, List, [], ◌∷◌, Memᴰ, ◌⊎◌, All, All-mono,
  All-mem, Bool-cases, inl, inr, ok, arith, ltb, filter, take, length, mem_of_mem-filter,
  length-take-le, All-of_mem, mem-filter, All-take,
}
use certman.Job.Table.{Job}
use certman.Job.Service.{insert_newest, newest_first, is_listed, list_jobs}

abbrev pub IsNewestFirst : List Job → Type 0
IsNewestFirst [] = Unit
IsNewestFirst (j ∷ js) = All (λ k. k.created_at ≤ j.created_at) js × IsNewestFirst js

All-insert_newest :
    (P : Job → Type 0) (j : Job) (js : List Job) → P j → All P js → All P (insert_newest j js)
unfolding insert_newest
All-insert_newest P j [] p h = (p, tt)
All-insert_newest P j (k ∷ ks) p h = elim (Bool-cases (ltb j.created_at k.created_at)) [
  | inl e ↦ rw e (h.0, All-insert_newest P j ks p h.1)
  | inr e ↦ rw e (p, h)
]

insert_newest-IsNewestFirst :
    (j : Job) (js : List Job) → IsNewestFirst js → IsNewestFirst (insert_newest j js)
unfolding insert_newest
insert_newest-IsNewestFirst j [] s = (tt, tt)
insert_newest-IsNewestFirst j (k ∷ ks) s = elim (Bool-cases (ltb j.created_at k.created_at)) [
  | inl e ↦ rw e (
    All-insert_newest (λ x. x.created_at ≤ k.created_at) j ks (ground arith) s.0,
    insert_newest-IsNewestFirst j ks s.1,
  )
  | inr e ↦ rw e (
    (
      ground arith,
      All-mono (λ x. x.created_at ≤ k.created_at) (λ x. x.created_at ≤ j.created_at) ks
          (λ x h. ground arith) s.0,
    ),
    s,
  )
]

newest_first-IsNewestFirst : (js : List Job) → IsNewestFirst (newest_first js)
unfolding newest_first
newest_first-IsNewestFirst [] = tt
newest_first-IsNewestFirst (j ∷ js) =
    insert_newest-IsNewestFirst j (newest_first js) (newest_first-IsNewestFirst js)

All-newest_first : (P : Job → Type 0) (js : List Job) → All P js → All P (newest_first js)
unfolding newest_first
All-newest_first P [] h = tt
All-newest_first P (j ∷ js) h = All-insert_newest P j _ h.0 (All-newest_first P js h.1)

mem-insert_newest : (j k : Job) (js : List Job) → (k ≡ j) ⊎ Memᴰ k js → Memᴰ k (insert_newest j js)
unfolding insert_newest
mem-insert_newest j k [] (inl e) = Memᴰ.head e
mem-insert_newest j k [] (inr m) = elim m [ ]
mem-insert_newest j k (x ∷ xs) (inl e) = elim (Bool-cases (ltb j.created_at x.created_at)) [
  | inl b ↦ rw b (Memᴰ.tail (mem-insert_newest j k xs (inl e)))
  | inr b ↦ rw b (Memᴰ.head e)
]
mem-insert_newest j k (x ∷ xs) (inr (Memᴰ.head e)) =
    elim (Bool-cases (ltb j.created_at x.created_at)) [
      | inl b ↦ rw b (Memᴰ.head e)
      | inr b ↦ rw b (Memᴰ.tail (Memᴰ.head e))
    ]
mem-insert_newest j k (x ∷ xs) (inr (Memᴰ.tail m)) =
    elim (Bool-cases (ltb j.created_at x.created_at)) [
      | inl b ↦ rw b (Memᴰ.tail (mem-insert_newest j k xs (inr m)))
      | inr b ↦ rw b (Memᴰ.tail (Memᴰ.tail m))
    ]

mem-newest_first : (k : Job) (js : List Job) → Memᴰ k js → Memᴰ k (newest_first js)
unfolding newest_first
mem-newest_first k [] m = elim m [ ]
mem-newest_first k (j ∷ js) (Memᴰ.head e) = mem-insert_newest j k _ (inl e)
mem-newest_first k (j ∷ js) (Memᴰ.tail m) = mem-insert_newest j k _ (inr (mem-newest_first k js m))

take-IsNewestFirst : (n : ℕ) (js : List Job) → IsNewestFirst js → IsNewestFirst (take n js)
take-IsNewestFirst zero js s = tt
take-IsNewestFirst (suc n) [] s = tt
take-IsNewestFirst (suc n) (j ∷ js) s = (All-take _ n js s.0, take-IsNewestFirst n js s.1)

-- What the limit cuts off is not newer than what stays.
take_keeps_newest :
    (n : ℕ) (js : List Job) (k : Job)
    → IsNewestFirst js
    → Memᴰ k js
    → Memᴰ k (take n js) ⊎ All (λ r. k.created_at ≤ r.created_at) (take n js)
take_keeps_newest zero js k s m = inr tt
take_keeps_newest (suc n) [] k s m = elim m [ ]
take_keeps_newest (suc n) (j ∷ js) k s (Memᴰ.head e) = inl (Memᴰ.head e)
take_keeps_newest (suc n) (j ∷ js) k s (Memᴰ.tail m) = elim (take_keeps_newest n js k s.1 m) [
  | inl p ↦ inl (Memᴰ.tail p)
  | inr a ↦ inr (All-mem (λ x. x.created_at ≤ j.created_at) js s.0 m, a)
]

-- The rows returned are at most `limit`, newest first, each a row of the table that the filters
-- select; and a selected row that is left out is not newer than any row returned.
list_jobs_lem :
    (subject_id status target_scope : Option String) (limit : ℕ) (db : List Job)
    → (rows : List Job) × (list_jobs subject_id status target_scope limit db ≡ (ok rows, db))
      × (length rows ≤ limit)
      × IsNewestFirst rows
      × All (λ r. Memᴰ r db × (is_listed subject_id status target_scope r ≡ true)) rows
      × ((k : Job)
          → Memᴰ k db
          → is_listed subject_id status target_scope k ≡ true
          → Memᴰ k rows ⊎ All (λ r. k.created_at ≤ r.created_at) rows)
unfolding list_jobs
list_jobs_lem subject_id status target_scope limit db =
    let p = is_listed subject_id status target_scope in
    let listed = newest_first (filter p db) in
    (
      take limit listed,
      refl,
      length-take-le limit listed,
      take-IsNewestFirst limit listed (newest_first-IsNewestFirst (filter p db)),
      All-take (λ r. Memᴰ r db × (p r ≡ true)) limit listed
          (All-newest_first _ (filter p db)
            (All-of_mem _ (filter p db) (λ r m. mem_of_mem-filter p db m))),
      λ k m h.
          take_keeps_newest limit listed k (newest_first-IsNewestFirst (filter p db))
            (mem-newest_first k (filter p db) (mem-filter p db k m h)),
    )
