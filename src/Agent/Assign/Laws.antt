-- ===== src/Agent/Assign/Laws.antt =====
-- What a poll hands out, to whom, and what it leaves behind when it fails.
use mathlib.Core.Path.{subst}
use certman.Base.{
  ℕ, String, ◌<>◌, ◌≡◌, ◌≢◌, refl, true, Option, none, some, List, [], ◌∷◌, Memᴰ, ◌⊎◌, inl, inr, ap,
  ◌∙◌, Result, ok, err, Result-cases, arith, eq_iff, str_refl, Option-cases, continue,
}
use certman.Job.Table.{Job, DbError, integrity_error, get_row}
use certman.Job.Service.{eligible, claimed, claim_next_job}
use certman.Job.Claim.{claim_writes, claim_idle}
use certman.Job.Update.{get_row-replace_self}
use certman.Agent.Platform.{Platform}
use certman.Agent.State.{Server, Settings, jobs_result}
use certman.Agent.Token.{bundle_token_secret, mint_bundle_token}
use certman.Agent.Assign.{
  Assignment, assignment_of, assignment_for, answer_claim, claim_assignment_payload,
}

claimed_owner :
    (node_id : String) (now : ℕ) (j : Job)
    → eligible (some node_id) true none j ≡ true
    → (claimed (some node_id) now j).node_id ≡ some node_id
unfolding eligible claimed
claimed_owner node_id now j h = elim (Option-cases j.node_id) [
  | inl e ↦ ground arith
  | inr (owner, e) ↦ ground (arith, eq_iff owner node_id)
]

pub get_row-mem : (j : Job) (db : List Job) → Memᴰ j db → get_row j.job_id db ≢ none
get_row-mem j [] m h = elim m [ ]
get_row-mem j (k ∷ ks) (Memᴰ.head e) h = ground (arith, str_refl j.job_id)
get_row-mem j (k ∷ ks) (Memᴰ.tail m) h = ground (arith, get_row-mem j ks m)

-- A claim for a node that returns a job leaves that job in the table, running, and held by the node.
pub claim_held :
    (node_id : String) (now : ℕ) (db db' : List Job) (c : Job)
    → claim_next_job (some node_id) true none now db ≡ (ok (some c), db')
    → (get_row c.job_id db' ≡ some c) × (c.status ≡ "running") × (c.node_id ≡ some node_id)
unfolding claimed
claim_held node_id now db db' c h =
    let (j, (m, q, _), e, f) = claim_writes (some node_id) true none now db db' c h in
    (
      rw (f, e) (get_row-replace_self (claimed (some node_id) now j) db (get_row-mem j db m)),
      ap (λ (x : Job). x.status) e,
      ap (λ (x : Job). x.node_id) e ∙ claimed_owner node_id now j q,
    )

module _ (p : Platform) (c : Settings) where
  -- An assignment for the node: a job of the table that is running and held by the node, with a
  -- bundle token for exactly that job and node.
  abbrev pub IsAssigned : String → ℕ → List Job → Assignment → Type 0
  IsAssigned node_id now jobs a =
      ((j : Job) × (get_row a.job_id jobs ≡ some j)
        × (j.job_id ≡ a.job_id)
        × (j.status ≡ "running")
        × (j.node_id ≡ some node_id))
      × (mint_bundle_token p c now node_id a.job_id
          ≡ ok (a.bundle_token, a.bundle_token_expires_at))
      × (a.bundle_url ≡ "/api/v1/node-agent/bundles/" <> a.job_id)

  assigned :
      (nonce : String) (now : ℕ) (node_id : String) (j : Job) (jobs : List Job)
      (l : List Assignment)
      → (get_row j.job_id jobs ≡ some j) × (j.status ≡ "running") × (j.node_id ≡ some node_id)
      → assignment_for p c nonce now node_id j ≡ ok l
      → (a : Assignment) × (l ≡ a ∷ []) × IsAssigned node_id now jobs a
  unfolding assignment_for
  assigned nonce now node_id j jobs l (g, st, o) h =
      elim (Result-cases (mint_bundle_token p c now node_id j.job_id)) [
        | inl (e, m) ↦ absurd (ground arith)
        | inr ((token, exp), m) ↦ elim (Result-cases (bundle_token_secret c)) [
          | inl (e, b) ↦ absurd (ground arith)
          | inr (key, b) ↦ (
            assignment_of p c nonce now key token exp j,
            ground arith,
            ((j, g, refl, st, o), m, refl),
          )
        ]
      ]

  payload :
      (nonce : String) (now : ℕ) (node_id : String) (s s' : Server) (l : List Assignment)
      (r : Result DbError (Option Job) × List Job)
      → claim_next_job (some node_id) true none now s.jobs ≡ r
      → continue
          (jobs_result s r).0
          (λ job t. (answer_claim p c nonce now node_id job, t))
          (jobs_result s r).1
        ≡ (ok l, s')
      → ((l ≡ []) × (s' ≡ s)) ⊎ ((a : Assignment) × (l ≡ a ∷ []) × IsAssigned node_id now s'.jobs a)
  unfolding answer_claim
  payload nonce now node_id s s' l (ok none, db) e h =
      inl (ground arith, ground (arith, (claim_idle (some node_id) true none now s.jobs db e).1))
  payload nonce now node_id s s' l (ok (some j), db) e h =
      let jobs : db ≡ s'.jobs = ground arith in
      inr (
        assigned nonce now node_id j s'.jobs l
          (subst
            (λ rows.
              (get_row j.job_id rows ≡ some j)
              × (j.status ≡ "running")
              × (j.node_id ≡ some node_id))
            jobs (claim_held node_id now s.jobs db j e))
          (ground arith))
  payload nonce now node_id s s' l (err integrity_error, db) e h = absurd (ground arith)

  -- A claim for a node gives no assignment and writes nothing, or gives one assignment for it.
  pub claim_payload_sound :
      (nonce : String) (now : ℕ) (node_id : String) (s s' : Server) (l : List Assignment)
      → claim_assignment_payload p c nonce now node_id s ≡ (ok l, s')
      → ((l ≡ []) × (s' ≡ s)) ⊎ ((a : Assignment) × (l ≡ a ∷ []) × IsAssigned node_id now s'.jobs a)
  unfolding claim_assignment_payload
  claim_payload_sound nonce now node_id s s' l h =
      payload nonce now node_id s s' l (claim_next_job (some node_id) true none now s.jobs) refl h
