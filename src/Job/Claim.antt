-- ===== src/Job/Claim.antt =====
-- `claim_next_job`: which job a claim hands out, and when it hands out none or raises.

use certman.Base.{
  ◌⊎◌, ◌==◌, ◌&&◌, ◌||◌, is_some_of, is_none, All-mem, Bool-cases, eq_iff, str_refl, ℕ, ◌≤◌, ◌+◌,
  String, ◌≡◌, refl, Bool, true, false, Option, none, some, List, Memᴰ, All, Option-cases, inl, inr,
  filter, ok, err, arith,
}
use certman.Job.Table.{Job, DbError, integrity_error, replace, save}
use certman.Job.Service.{oldest, optional, eligible, claimed, claim_next_job}
use certman.Job.Rival.{Rival, key_taken_of_Rival, Rival-of_key_taken}
use certman.Job.Queue.{oldest-filter, oldest-filter-none}

matching : (held : Option String) (s : String) → is_some_of held s ≡ true → held ≡ some s
matching none s h = absurd (ground arith)
matching (some t) s h = ground (arith, eq_iff t s)

unheld : (held : Option String) → is_none held ≡ true → held ≡ none
unheld none h = refl
unheld (some t) h = absurd (ground arith)

asked :
    (o held : Option String)
    → ((s : String) → o ≡ some s → held ≡ some s)
    → optional o (is_some_of held) ≡ true
unfolding optional
asked none held f = refl
asked (some s) held f = rw (f s refl) (str_refl s)

module _ (node_id : Option String) (include_unassigned : Bool) (target_scope : Option String)
    (now : ℕ) where
  -- `j` is the row that the inner SELECT returns: it is in the table and eligible, and no eligible row
  -- is older.
  abbrev pub IsNext : Job → List Job → Type 0
  IsNext j db =
      Memᴰ j db
      × (eligible node_id include_unassigned target_scope j ≡ true)
      × All
          (λ k.
            eligible node_id include_unassigned target_scope k ≡ true → j.created_at ≤ k.created_at)
          db

  -- `c` is the row `j` after it was handed out: running, with one more attempt, held by the node that
  -- held it or else by the claiming one.
  abbrev pub IsClaimed : Job → Job → Type 0
  IsClaimed j c =
      (c.status ≡ "running")
      × (c.attempts ≡ j.attempts + 1)
      × ((j.node_id ≡ none) → (c.node_id ≡ node_id))
      × ((m : String) → j.node_id ≡ some m → c.node_id ≡ some m)
      × (c.updated_at ≡ now)
      × (c.job_id ≡ j.job_id)
      × (c.job_type ≡ j.job_type)
      × (c.subject_id ≡ j.subject_id)
      × (c.target_type ≡ j.target_type)
      × (c.target_scope ≡ j.target_scope)
      × (c.result ≡ j.result)
      × (c.error ≡ j.error)
      × (c.created_at ≡ j.created_at)

  claimed-IsClaimed : (j : Job) → IsClaimed j (claimed node_id now j)
  unfolding claimed
  claimed-IsClaimed j = (
    refl,
    refl,
    λ e. ground arith,
    λ m e. ground arith,
    refl,
    refl,
    refl,
    refl,
    refl,
    refl,
    refl,
    refl,
    refl,
  )

  -- A claim that returns a job returns the claimed form of a next row, and that form alone is
  -- written over the row.
  pub claim_writes :
      (db db' : List Job) (c : Job)
      → claim_next_job node_id include_unassigned target_scope now db ≡ (ok (some c), db')
      → (j : Job) × IsNext j db × (c ≡ claimed node_id now j) × (db' ≡ replace c db)
  unfolding claim_next_job save
  claim_writes db db' c h =
      elim (Option-cases (oldest (filter (eligible node_id include_unassigned target_scope) db))) [
        | inl e ↦ absurd (ground arith)
        | inr (j, e) ↦ (j, oldest-filter _ db j e, ground arith, ground arith)
      ]

  -- The claim may take the row: it is queued, of the scope asked for if any, and held by the claiming
  -- node, or by none where that is included; a claim for no node takes it whoever holds it.
  abbrev pub IsEligible : Job → Type 0
  IsEligible j =
      (j.status ≡ "queued")
      × ((scope : String) → target_scope ≡ some scope → j.target_scope ≡ some scope)
      × (((node : String) → node_id ≡ some node → j.node_id ≡ some node)
          ⊎ ((include_unassigned ≡ true) × (j.node_id ≡ none)))

  eligible-IsEligible :
      (j : Job) → eligible node_id include_unassigned target_scope j ≡ true → IsEligible j
  unfolding eligible optional
  eligible-IsEligible j h = (
    ground (arith, eq_iff j.status "queued"),
    λ scope e. matching j.target_scope scope (ground arith),
    elim (Bool-cases (optional node_id (is_some_of j.node_id))) [
      | inl own ↦ inl (λ node e. matching j.node_id node (ground arith))
      | inr other ↦ inr (ground arith, unheld j.node_id (ground arith))
    ],
  )

  IsEligible-eligible :
      (j : Job) → IsEligible j → eligible node_id include_unassigned target_scope j ≡ true
  unfolding eligible
  IsEligible-eligible j (queued, scoped, held) =
      let a : (j.status == "queued") ≡ true = ground (arith, eq_iff j.status "queued") in
      let b = asked target_scope j.target_scope scoped in
      let c : (optional node_id (is_some_of j.node_id) || (include_unassigned && is_none j.node_id))
          ≡ true =
        elim held [
          | inl own ↦ rw (asked node_id j.node_id own) refl
          | inr (u, none_there) ↦ rw (u, none_there) (ground arith)
        ] in
      rw (a, b, c) refl

  -- The row is in the table, the claim may take it, and none that it may take is older.
  abbrev pub IsOldest : Job → List Job → Type 0
  IsOldest j db =
      Memᴰ j db
      × IsEligible j
      × ((k : Job) → Memᴰ k db → IsEligible k → j.created_at ≤ k.created_at)

  -- A claim that returns a job returns an oldest eligible row, now running, with one more attempt, held
  -- by its node or else the claiming one and otherwise unchanged, and writes exactly that over the row.
  pub claim_sound :
      (db db' : List Job) (c : Job)
      → claim_next_job node_id include_unassigned target_scope now db ≡ (ok (some c), db')
      → (j : Job) × IsOldest j db × IsClaimed j c × (db' ≡ replace c db)
  claim_sound db db' c h =
      let (j, (m, q, older), e, w) = claim_writes db db' c h in
      (
        j,
        (m, eligible-IsEligible j q, λ k n f. All-mem _ db older n (IsEligible-eligible k f)),
        rw e (claimed-IsClaimed j),
        w,
      )

  -- When a claim returns nothing, no row is eligible, and nothing is written.
  pub claim_idle :
      (db db' : List Job)
      → claim_next_job node_id include_unassigned target_scope now db ≡ (ok none, db')
      → All (λ k. eligible node_id include_unassigned target_scope k ≡ false) db × (db' ≡ db)
  unfolding claim_next_job save
  claim_idle db db' h =
      elim (Option-cases (oldest (filter (eligible node_id include_unassigned target_scope) db))) [
        | inl e ↦ (oldest-filter-none _ db e, ground arith)
        | inr (j, e) ↦ absurd (ground arith)
      ]

  -- A claim that raises has met a next row with a rival, and writes nothing.
  pub claim_raises :
      (db db' : List Job) (e : DbError)
      → claim_next_job node_id include_unassigned target_scope now db ≡ (err e, db')
      → (j : Job) × IsNext j db × ((k : Job) × Memᴰ k db × Rival "running" j k) × (db' ≡ db)
  unfolding claim_next_job save
  claim_raises db db' x h =
      elim (Option-cases (oldest (filter (eligible node_id include_unassigned target_scope) db))) [
        | inl e ↦ absurd (ground arith)
        | inr (j, e) ↦ (
          j,
          oldest-filter _ db j e,
          Rival-of_key_taken j (claimed node_id now j) db refl refl refl refl (ground arith),
          ground arith,
        )
      ]

  -- While the row at the head of the queue has a running rival, every claim raises, whatever else
  -- is eligible.
  pub claim_blocked :
      (db : List Job) (j k : Job)
      → oldest (filter (eligible node_id include_unassigned target_scope) db) ≡ some j
      → Memᴰ k db
      → Rival "running" j k
      → claim_next_job node_id include_unassigned target_scope now db ≡ (err integrity_error, db)
  unfolding claim_next_job save
  claim_blocked db j k e m v =
      ground (arith, key_taken_of_Rival j (claimed node_id now j) k db refl refl refl refl v m)
