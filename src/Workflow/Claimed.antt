-- ===== src/Workflow/Claimed.antt =====
-- A job after `claim` of workflow/repository.py: its worker is honoured, any other lease is refused.
use homez.Prelude.{
  ℕ, ◌≡◌, ◌≢◌, refl, subst, Bool, true, false, String, Option, none, some, ok, err, lost_lease,
  >>=-eq-ok, ok-injective, Unique-Owns, Owns, find-insert, find-replace, insert, where_rows,
  where_rows-All, All-map, first-All, Option-cases, inl, inr, commit-eq-ok, arith, ◌==◌,
}
use homez.Workflow.Jobs.{
  succeeded, Job, JobAttempt, JobDb, ClaimedJob, job_key, job_attempt_key, get_job, get_job_attempt,
  is_due, job_before, next_job, taken, taken_attempt, take_job, claim_job,
}
use homez.Workflow.Leases.{
  leased_job, is_held, end_job, succeed_job, finished_job, lose_job, fail_job, put_off, defer_job,
}
use homez.Workflow.Acknowledged.{succeed_job-accepted}
use homez.Workflow.Invariant.{JobsOk, job_id}

-- the job that a claim took, in the store after it
pub record Taken (c : ClaimedJob) (db : JobDb) : Type 0 where
  pub row : Job
  pub found : get_job db c.id ≡ some row
  pub held : is_held c row ≡ true
  pub token : row.lease_token ≡ some c.lease_token
  pub attempt : JobAttempt
  pub opened : get_job_attempt db row.id row.attempt_count ≡ some attempt

abbrev TakenOut : Option ClaimedJob × JobDb → Type 0
TakenOut (none, db) = ⊥
TakenOut (some c, db) = Taken c db

pub next_job-get_job :
    (locked : ℕ → Bool) (now : ℕ) (db : JobDb) {j : Job}
    → JobsOk db
    → next_job locked now db ≡ some j
    → get_job db j.id ≡ some j
unfolding next_job get_job
next_job-get_job locked now db h e =
    let p = is_due locked now in
    let P = Owns job_id db.jobs in
    first-All P job_before (where_rows p db.jobs)
      (All-map (λ (j : Job). P j × (p j ≡ true)) P (where_rows p db.jobs) (λ x both. both.0)
        (where_rows-All P p db.jobs (Unique-Owns job_id db.jobs h.unique)))
      e

taken-Taken :
    (worker : String) (token now lease_for : ℕ) (j : Job) (db : JobDb)
    {out : Option ClaimedJob × JobDb}
    → get_job db j.id ≡ some j
    → take_job worker token now lease_for (some j) db ≡ ok out
    → TakenOut out
unfolding get_job get_job_attempt is_held
taken-Taken worker token now lease_for j db own done =
    let row = taken worker token now lease_for j in
    let new = taken_attempt worker token now row in
    let (rows, added, made) =
      >>=-eq-ok (insert (job_attempt_key row.id row.attempt_count) new db.job_attempts) _ done in
    let number : (row.attempt_count == row.attempt_count) ≡ true = ground arith in
    let same : (j.id == j.id) ≡ true = ground arith in
    subst TakenOut (ok-injective made) (record {
      row = row;
      found = find-replace (job_key j.id) (job_key j.id) row db.jobs own same (λ z e. e);
      held = ground arith;
      token = refl;
      attempt = new;
      opened =
          find-insert (job_attempt_key row.id row.attempt_count)
            (job_attempt_key row.id row.attempt_count) new db.job_attempts rows added (ground arith)
            (λ z e. e);
    })

pub claim_job-Taken :
    (locked : ℕ → Bool) (worker : String) (token now lease_for : ℕ) (c : ClaimedJob)
    (db db' : JobDb)
    → JobsOk db
    → claim_job locked worker token now lease_for db ≡ (ok (some c), db')
    → Taken c db'
unfolding claim_job
claim_job-Taken locked worker token now lease_for c db db' h done =
    let made =
      commit-eq-ok (take_job worker token now lease_for (next_job locked now db) db) db db' (some c)
        done in
    elim (Option-cases (next_job locked now db)) [
      | inl idle ↦ absurd (let e = ok-injective (rw idle at made) in ground arith)
      | inr (j, found) ↦
          taken-Taken worker token now lease_for j db (next_job-get_job locked now db h found)
            (rw found at made)
    ]

-- A lease that another token guards is not accepted.
refused-leased_job :
    (c c' : ClaimedJob) (db : JobDb)
    → Taken c db
    → c'.id ≡ c.id
    → c'.lease_token ≢ c.lease_token
    → leased_job db c' ≡ err lost_lease
unfolding leased_job is_held
refused-leased_job c c' db t same other =
    let token = t.token in
    let stale : is_held c' t.row ≡ false = rw token (ground arith) in rw (same, t.found, stale) refl

-- After `claim` returned a job, an acknowledgement of the same job with another token (a success,
-- a failure or a deferral) raises and leaves the store as it was.
pub claim_job-fences :
    (digest : ℕ → ℕ → ℕ) (locked : ℕ → Bool) (worker : String) (token now lease_for : ℕ)
    (c c' : ClaimedJob) (now' at : ℕ) (code detail : String) (retryable manual : Bool)
    (db db' : JobDb)
    → JobsOk db
    → claim_job locked worker token now lease_for db ≡ (ok (some c), db')
    → c'.id ≡ c.id
    → c'.lease_token ≢ c.lease_token
    → (succeed_job c' now' db' ≡ (err lost_lease, db'))
      × (fail_job digest c' now' code detail retryable manual db' ≡ (err lost_lease, db'))
      × (defer_job c' now' at code detail db' ≡ (err lost_lease, db'))
unfolding succeed_job fail_job defer_job end_job lose_job put_off
claim_job-fences digest locked worker token now lease_for c c' now' at code detail retryable manual
      db db' h done same other =
    let t = claim_job-Taken locked worker token now lease_for c db db' h done in
    let refused = refused-leased_job c c' db' t same other in
    (rw refused refl, rw refused refl, rw refused refl)

-- After `claim` returned a job, `succeed` with it goes through, at any time before the job is
-- touched again: the job then has succeeded, is finished, and holds no lease.
pub claim_job-honoured :
    (locked : ℕ → Bool) (worker : String) (token now lease_for now' : ℕ) (c : ClaimedJob)
    (db db' : JobDb)
    → JobsOk db
    → claim_job locked worker token now lease_for db ≡ (ok (some c), db')
    → (r : Job) × ((succeed_job c now' db').0 ≡ ok succeeded)
      × (get_job (succeed_job c now' db').1 c.id ≡ some r)
      × (r.state ≡ succeeded)
      × (r.finished_at ≡ some now')
      × (r.lease_token ≡ none)
claim_job-honoured locked worker token now lease_for now' c db db' h done =
    let t = claim_job-Taken locked worker token now lease_for c db db' h done in
    let (answer, row) = succeed_job-accepted c now' db' t.row t.attempt t.found t.held t.opened in
    (finished_job now' t.row, answer, row, refl, refl, refl)
