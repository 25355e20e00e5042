-- ===== src/Job/Update.antt =====
-- `update_status`: when it writes, and when it is refused.
use certman.Base.{
  ℕ, String, ◌≡◌, ◌≢◌, refl, false, Option, none, some, List, [], ◌∷◌, Memᴰ, ◌==◌, Bool-cases, inl,
  inr, ok, err, arith, eq_iff, str_refl, mem_of_find?,
}
use certman.Job.Table.{Job, integrity_error, get_row, key_taken, replace, save}
use certman.Job.Service.{update_status}
use certman.Job.Rival.{Rival, key_taken_of_Rival, Rival-of_key_taken}

get_row-id : (id : String) (db : List Job) (j : Job) → get_row id db ≡ some j → j.job_id ≡ id
get_row-id id db j h = (eq_iff j.job_id id).0 (mem_of_find? (λ k. k.job_id == id) db j h).1

present :
    (id : String) (db : List Job) (j : Job)
    → get_row id db ≡ some j
    → j.job_id ≡ id
    → get_row j.job_id db ≢ none
present id db j e p = rw p (λ n. ground arith)

-- After the replacement a lookup of the identifier finds the new row.
pub get_row-replace_self :
    (j : Job) (db : List Job)
    → get_row j.job_id db ≢ none
    → get_row j.job_id (replace j db) ≡ some j
unfolding replace
get_row-replace_self j [] h = absurd (h refl)
get_row-replace_self j (k ∷ ks) h =
    ground (arith, get_row-replace_self j ks, str_refl j.job_id, eq_iff k.job_id j.job_id)

-- Any other lookup finds what it found before.
pub get_row-replace_ne :
    (j : Job) (id : String) (db : List Job)
    → (j.job_id == id) ≡ false
    → get_row id (replace j db) ≡ get_row id db
unfolding replace
get_row-replace_ne j id [] h = refl
get_row-replace_ne j id (k ∷ ks) h = ground (
  arith,
  get_row-replace_ne j id ks h,
  eq_iff k.job_id j.job_id,
  eq_iff k.job_id id,
  eq_iff j.job_id id,
)

module _ (id status : String) (result error : Option String) (now : ℕ) where
  -- The row that `update_status` writes over `j`.
  abbrev pub updated : Job → Job
  updated j = record j { status = status; result = result; error = error; updated_at = now }

  -- With no rival in the new status, the row with the identifier takes the new status, result and
  -- error, and lookups of other identifiers find what they found before.
  pub update_writes :
      (db : List Job) (j : Job)
      → get_row id db ≡ some j
      → ((k : Job) → Memᴰ k db → ¬ Rival status j k)
      → (db' : List Job) × (update_status id status result error now db
          ≡ (ok (some (updated j)), db'))
        × (get_row id db' ≡ some (updated j))
        × ((other : String) → (id == other) ≡ false → get_row other db' ≡ get_row other db)
  unfolding update_status save
  update_writes db j e none_rival = elim (Bool-cases (key_taken (updated j) db)) [
    | inl taken ↦
        let (k, m, v) = Rival-of_key_taken j (updated j) db refl refl refl refl taken in
        absurd (none_rival k m v)
    | inr free ↦ (
      replace (updated j) db,
      ground arith,
      rw (← get_row-id id db j e)
          (get_row-replace_self (updated j) db (present id db j e (get_row-id id db j e))),
      λ other ne. get_row-replace_ne (updated j) other db (rw (get_row-id id db j e) ne),
    )
  ]

  -- With a rival in the new status, the update raises and nothing is written.
  pub update_refused :
      (db : List Job) (j k : Job)
      → get_row id db ≡ some j
      → Memᴰ k db
      → Rival status j k
      → update_status id status result error now db ≡ (err integrity_error, db)
  unfolding update_status save
  update_refused db j k e m v =
      ground (arith, key_taken_of_Rival j (updated j) k db refl refl refl refl v m)

  -- An update that returns has written the row.
  pub update_ok :
      (db db' : List Job) (j : Job) (o : Option Job)
      → get_row id db ≡ some j
      → update_status id status result error now db ≡ (ok o, db')
      → (o ≡ some (updated j)) × (db' ≡ replace (updated j) db)
  unfolding update_status save
  update_ok db db' j o e h = (ground arith, ground arith)

  -- Lookups after the row of `j` was written over.
  pub update_lookup :
      (db : List Job) (j : Job)
      → get_row id db ≡ some j
      → (get_row id (replace (updated j) db) ≡ some (updated j))
        × ((other : String)
            → (id == other) ≡ false
            → get_row other (replace (updated j) db) ≡ get_row other db)
  update_lookup db j e = (
    rw (← get_row-id id db j e)
        (get_row-replace_self (updated j) db (present id db j e (get_row-id id db j e))),
    λ other ne. get_row-replace_ne (updated j) other db (rw (get_row-id id db j e) ne),
  )
