-- ===== src/Workflow/Invariant.antt =====
-- What holds of the jobs between two transactions of workflow/repository.py.
use homez.Prelude.{
  ℕ, ◌≤◌, ◌≡◌, refl, subst, Bool, true, false, List, [], ◌∷◌, String, Option, none, some, is_some,
  ok, >>=-eq-ok, ok-injective, All, All-replace, All-insert, Unique, Unique-replace, Unique-insert,
  insert, Option-cases, Bool-cases, inl, inr, arith, str_eq, ◌&&◌,
}
use homez.Workflow.Jobs.{
  JobState, succeeded, dead_letter, manual_review, is_running_job, Job, JobAttempt, JobDb,
  JobRequest, ClaimedJob, job_key, job_attempt_key, get_job_attempt, find_job, put_job, new_job,
  add_job, taken, taken_attempt, take_job,
}
use homez.Prelude.Chars.{take_chars}
use homez.Workflow.Leases.{
  leased_job, needs_attempt, finished_job, end_job, failed_state, failed_job, lose_job,
  job_retry_delay, deferred_job, put_off, reaped_job, mark_lost, reap_job, reap_jobs,
}

abbrev pub is_ended : JobState → Bool
is_ended succeeded = true
is_ended dead_letter = true
is_ended manual_review = true
is_ended _ = false

-- A running job is leased on a counted attempt.
pub record IsTaken (j : Job) : Type 0 where
  pub owned : is_some j.lease_owner ≡ true
  pub fenced : is_some j.lease_token ≡ true
  pub expires : is_some j.lease_expires_at ≡ true
  pub counted : 1 ≤ j.attempt_count

-- No column of a lease is left behind.
pub record IsReleased (j : Job) : Type 0 where
  pub owner : j.lease_owner ≡ none
  pub token : j.lease_token ≡ none
  pub expiry : j.lease_expires_at ≡ none

pub record JobOk (j : Job) : Type 0 where
  pub leased : is_running_job j.state ≡ true → IsTaken j
  pub free : is_running_job j.state ≡ false → IsReleased j
  pub ended : is_ended j.state ≡ true → is_some j.finished_at ≡ true

abbrev pub job_id : Job → ℕ
job_id j = j.id

pub record JobsOk (db : JobDb) : Type 0 where
  pub unique : Unique job_id db.jobs
  pub rows : All JobOk db.jobs

-- A job that is not running and holds no lease.
pub idle-JobOk :
    (j : Job)
    → is_running_job j.state ≡ false
    → IsReleased j
    → (is_ended j.state ≡ true → is_some j.finished_at ≡ true)
    → JobOk j
idle-JobOk j idle free ended = record { leased = λ e. absurd (cc); free = λ _. free; ended = ended }

pub put_job-JobsOk : (j : Job) (db : JobDb) → JobOk j → JobsOk db → JobsOk (put_job j db)
put_job-JobsOk j db good h = record {
  unique = Unique-replace job_id j.id j db.jobs refl h.unique;
  rows = All-replace JobOk (job_key j.id) j db.jobs good h.rows;
}

put_attempts-JobsOk :
    (rows : List JobAttempt) (db : JobDb) → JobsOk db → JobsOk (record db { job_attempts = rows })
put_attempts-JobsOk rows db h = record { unique = h.unique; rows = h.rows }

pub add_job-JobsOk :
    (r : JobRequest) (id now : ℕ) (db : JobDb) {out : ℕ × JobDb}
    → JobsOk db
    → add_job r id now db ≡ ok out
    → JobsOk out.1
unfolding add_job
add_job-JobsOk r id now db h done = elim (Option-cases (find_job db r.idempotency_key)) [
  | inl new ↦
      let (rows, added, made) =
        >>=-eq-ok (insert (job_key id) (new_job r id now) db.jobs) _ (rw (add_job, new) at done) in
      subst (λ (o : ℕ × JobDb). JobsOk o.1) (ok-injective made)
        (record {
          unique = Unique-insert job_id id (new_job r id now) db.jobs rows refl added h.unique;
          rows =
              All-insert JobOk (job_key id) (new_job r id now) db.jobs rows added
                (idle-JobOk (new_job r id now) refl
                  (record { owner = refl; token = refl; expiry = refl })
                  (λ e. absurd (ground arith)))
                h.rows;
        })
  | inr (j, old) ↦ elim (Bool-cases (str_eq j.kind r.kind && str_eq j.payload_json r.payload)) [
    | inl same ↦
        subst (λ (o : ℕ × JobDb). JobsOk o.1) (ok-injective (rw (add_job, old, same) at done)) h
    | inr other ↦ absurd (let e = rw (add_job, old, other) at done in cc)
  ]
]

taken-JobOk :
    (worker : String) (token now lease_for : ℕ) (j : Job)
    → JobOk (taken worker token now lease_for j)
taken-JobOk worker token now lease_for j = record {
  leased = λ _. record { owned = refl; fenced = refl; expires = refl; counted = omega arith };
  free = λ e. absurd (ground arith);
  ended = λ e. absurd (ground arith);
}

pub take_job-JobsOk :
    (worker : String) (token now lease_for : ℕ) (o : Option Job) (db : JobDb)
    {out : Option ClaimedJob × JobDb}
    → JobsOk db
    → take_job worker token now lease_for o db ≡ ok out
    → JobsOk out.1
take_job-JobsOk worker token now lease_for none db h done =
    subst (λ (o : Option ClaimedJob × JobDb). JobsOk o.1) (ok-injective done) h
take_job-JobsOk worker token now lease_for (some j) db h done =
    let row = taken worker token now lease_for j in
    let (rows, added, made) =
      >>=-eq-ok
        (insert (job_attempt_key row.id row.attempt_count) (taken_attempt worker token now row)
          db.job_attempts)
        _ done in
    subst (λ (o : Option ClaimedJob × JobDb). JobsOk o.1) (ok-injective made)
      (put_attempts-JobsOk rows (put_job row db)
        (put_job-JobsOk row db (taken-JobOk worker token now lease_for j) h))

pub end_job-JobsOk :
    (c : ClaimedJob) (now : ℕ) (db : JobDb) {out : JobState × JobDb}
    → JobsOk db
    → end_job db c now ≡ ok out
    → JobsOk out.1
unfolding end_job
end_job-JobsOk c now db h done =
    let (j, held, h1) = >>=-eq-ok (leased_job db c) _ done in
    let (a, found, made) =
      >>=-eq-ok (needs_attempt (get_job_attempt db j.id j.attempt_count)) _ h1 in
    let kept =
      put_job-JobsOk (finished_job now j) db
        (idle-JobOk (finished_job now j) refl (record { owner = refl; token = refl; expiry = refl })
          (λ e. refl))
        h in
    subst (λ (o : JobState × JobDb). JobsOk o.1) (ok-injective made)
      (record { unique = kept.unique; rows = kept.rows })

failed_job-JobOk :
    (now delay : ℕ) (code detail : String) (retryable manual : Bool) (j : Job)
    → JobOk (failed_job now delay code detail (failed_state j retryable manual) j)
unfolding failed_state
failed_job-JobOk now delay code detail retryable manual j =
    idle-JobOk (failed_job now delay code detail (failed_state j retryable manual) j) (ground arith)
      (record { owner = refl; token = refl; expiry = refl }) (λ e. ground arith)

pub lose_job-JobsOk :
    (digest : ℕ → ℕ → ℕ) (c : ClaimedJob) (now : ℕ) (code detail : String) (retryable manual : Bool)
    (db : JobDb) {out : JobState × JobDb}
    → JobsOk db
    → lose_job digest db c now code detail retryable manual ≡ ok out
    → JobsOk out.1
unfolding lose_job
lose_job-JobsOk digest c now code detail retryable manual db h done =
    let (j, held, h1) = >>=-eq-ok (leased_job db c) _ done in
    let (a, found, made) =
      >>=-eq-ok (needs_attempt (get_job_attempt db j.id j.attempt_count)) _ h1 in
    let row =
      failed_job now (job_retry_delay digest j.id j.attempt_count) (take_chars 100 code)
        (take_chars 500 detail) (failed_state j retryable manual) j in
    let kept =
      put_job-JobsOk row db
        (failed_job-JobOk now (job_retry_delay digest j.id j.attempt_count) (take_chars 100 code)
          (take_chars 500 detail) retryable manual j)
        h in
    subst (λ (o : JobState × JobDb). JobsOk o.1) (ok-injective made)
      (record { unique = kept.unique; rows = kept.rows })

pub put_off-JobsOk :
    (c : ClaimedJob) (now at : ℕ) (code detail : String) (db : JobDb) {out : JobState × JobDb}
    → JobsOk db
    → put_off db c now at code detail ≡ ok out
    → JobsOk out.1
unfolding put_off
put_off-JobsOk c now at code detail db h done =
    let (j, held, h1) = >>=-eq-ok (leased_job db c) _ done in
    let (a, found, made) =
      >>=-eq-ok (needs_attempt (get_job_attempt db j.id j.attempt_count)) _ h1 in
    let row = deferred_job now at (take_chars 100 code) (take_chars 500 detail) j in
    let kept =
      put_job-JobsOk row db
        (idle-JobOk row refl (record { owner = refl; token = refl; expiry = refl })
          (λ e. absurd (ground arith)))
        h in
    subst (λ (o : JobState × JobDb). JobsOk o.1) (ok-injective made)
      (record { unique = kept.unique; rows = kept.rows })

mark_lost-JobsOk :
    (now : ℕ) (a : Option JobAttempt) (db : JobDb) → JobsOk db → JobsOk (mark_lost now a db)
mark_lost-JobsOk now none db h = h
mark_lost-JobsOk now (some a) db h = elim (Bool-cases (is_some a.finished_at)) [
  | inl done ↦ rw done h
  | inr live ↦ rw live (record { unique = h.unique; rows = h.rows })
]

pub reap_jobs-JobsOk :
    (now : ℕ) (db : JobDb) (js : List Job) → JobsOk db → JobsOk (reap_jobs now db js)
unfolding reap_jobs reap_job
reap_jobs-JobsOk now db [] h = h
reap_jobs-JobsOk now db (j ∷ js) h = reap_jobs-JobsOk now (reap_job now db j) js (
    mark_lost-JobsOk now (get_job_attempt db j.id j.attempt_count) (put_job (reaped_job now j) db) (
      put_job-JobsOk (reaped_job now j) db
        (idle-JobOk (reaped_job now j) refl (record { owner = refl; token = refl; expiry = refl })
          (λ e. absurd (ground arith)))
        h))
