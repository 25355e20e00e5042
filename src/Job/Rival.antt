-- ===== src/Job/Rival.antt =====
-- The unique constraint on job type, subject and status, seen from the row that is being updated.
use certman.Base.{
  String, ◌≡◌, ◌≢◌, refl, true, List, [], ◌∷◌, Memᴰ, Bool-cases, inl, inr, arith, eq_iff,
}
use certman.Job.Table.{Job, key_taken}

-- `k` is another row that has the key which `j` gets with the status `st`.
pub record Rival (st : String) (j k : Job) : Type 0 where
  pub other : k.job_id ≢ j.job_id
  pub type : k.job_type ≡ j.job_type
  pub subject : k.subject_id ≡ j.subject_id
  pub holds : k.status ≡ st

pub key_taken_of_Rival :
    {st : String} (j c k : Job) (db : List Job)
    → c.job_id ≡ j.job_id
    → c.job_type ≡ j.job_type
    → c.subject_id ≡ j.subject_id
    → c.status ≡ st
    → Rival st j k
    → Memᴰ k db
    → key_taken c db ≡ true
unfolding key_taken
key_taken_of_Rival j c k [] a b s r v m = elim m [ ]
key_taken_of_Rival j c k (x ∷ xs) a b s r v (Memᴰ.head e) = ground (
  arith,
  eq_iff x.job_id c.job_id,
  eq_iff c.job_type x.job_type,
  eq_iff c.subject_id x.subject_id,
  eq_iff c.status x.status,
)
key_taken_of_Rival j c k (x ∷ xs) a b s r v (Memᴰ.tail m) =
    ground (arith, key_taken_of_Rival j c k xs a b s r v m)

pub Rival-of_key_taken :
    {st : String} (j c : Job) (db : List Job)
    → c.job_id ≡ j.job_id
    → c.job_type ≡ j.job_type
    → c.subject_id ≡ j.subject_id
    → c.status ≡ st
    → key_taken c db ≡ true
    → (k : Job) × Memᴰ k db × Rival st j k
unfolding key_taken
Rival-of_key_taken j c [] a b s r h = ground arith
Rival-of_key_taken j c (x ∷ xs) a b s r h = elim (Bool-cases (key_taken c xs)) [
  | inl later ↦ let (k, m, v) = Rival-of_key_taken j c xs a b s r later in (k, Memᴰ.tail m, v)
  | inr now ↦ (
    x,
    Memᴰ.head refl,
    ground (
      arith,
      eq_iff x.job_id c.job_id,
      eq_iff x.job_id j.job_id,
      eq_iff c.job_type x.job_type,
      eq_iff c.subject_id x.subject_id,
      eq_iff c.status x.status,
    ),
  )
]
