-- ===== src/Agent/Bundle/Laws.antt =====
-- Who may read the files of a certificate.
use certman.Base.{
  ℕ, String, ◌≡◌, inl, inr, refl, true, Option, none, some, Result, ok, err, or_empty, arith,
  Result-cases, sym,
}
use certman.Job.Table.{Job, get_row}
use certman.Job.Service.{get_job}
use certman.Agent.Platform.{Platform}
use certman.Agent.State.{Server, Settings, Failure}
use certman.Agent.Auth.{ActiveNode, admit, authenticate}
use certman.Agent.Replay.{authenticate_stores, authenticate_jobs, holds}
use certman.Agent.Token.{verify_bundle_token}
use certman.Agent.Report.{check_running}
use certman.Agent.Report.Laws.{MaySettle, check_running_sound}
use certman.Agent.Bundle.{Download, token_answer, download_payload, check_token, authorize_download}

token_answer_ok : (r : Result Failure (Option String)) → token_answer r ≡ ok tt → r ≡ ok none
unfolding token_answer
token_answer_ok (err e) h = ground arith
token_answer_ok (ok none) h = refl
token_answer_ok (ok (some code)) h = ground arith

module _ (p : Platform) (c : Settings) where
  check_token_sound :
      (r : Download) (now : ℕ)
      → check_token p c r now ≡ ok tt
      → c.bundle_token_required ≡ true
      → verify_bundle_token p c now (or_empty r.bundle_token) r.node_id r.job_id ≡ ok none
  unfolding check_token
  check_token_sound r now h q = ground (
    arith,
    token_answer_ok (verify_bundle_token p c now (or_empty r.bundle_token) r.node_id r.job_id),
  )

  -- Files are read for a request only if its node and signature are admitted, its nonce is spent, its
  -- bundle token passes for this node and job where tokens are required, and the job is a running job
  -- of the node or of none. No job is written.
  pub download_sound :
      (row : String) (r : Download) (now : ℕ) (s s' : Server) (node : ActiveNode) (j : Job)
      → authorize_download p c row r now s ≡ (ok (node, j), s')
      → (admit p r.signed (download_payload p c r.job_id) now s ≡ ok node)
        × (holds r.node_id r.nonce now s'.nonces ≡ true)
        × (c.bundle_token_required ≡ true
            → verify_bundle_token p c now (or_empty r.bundle_token) r.node_id r.job_id ≡ ok none)
        × (get_row r.job_id s.jobs ≡ some j)
        × MaySettle r.node_id j
        × (s'.jobs ≡ s.jobs)
  unfolding authorize_download get_job
  download_sound row r now s s' node j h =
      let auth = authenticate p row r.signed (download_payload p c r.job_id) now s in
      elim (Result-cases auth.0) [
        | inl (e, f) ↦ absurd (ground arith)
        | inr (n, f) ↦ elim (Result-cases (check_token p c r now)) [
          | inl (e, g) ↦ absurd (ground arith)
          | inr (u, g) ↦
              elim (Result-cases (check_running r.node_id (get_row r.job_id auth.1.jobs))) [
                | inl (e, k) ↦ absurd (ground arith)
                | inr (j', k) ↦
                    let same =
                      authenticate_jobs p row r.signed (download_payload p c r.job_id) now s in
                    let (a, held) =
                      authenticate_stores p row r.signed (download_payload p c r.job_id) now s
                        auth.1 n (ground arith) in
                    let (found, may) =
                      check_running_sound r.node_id (get_row r.job_id auth.1.jobs) j' k in
                    let node_eq : n ≡ node = ground arith in
                    let job_eq : j' ≡ j = ground arith in
                    let end : auth.1 ≡ s' = ground arith in
                    (
                      rw (sym node_eq) a,
                      rw (sym end) held,
                      λ q. check_token_sound r now (ground arith) q,
                      rw (sym same, sym job_eq) found,
                      rw (sym job_eq) may,
                      rw (sym end) same,
                    )
              ]
        ]
      ]
