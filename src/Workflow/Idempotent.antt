-- ===== src/Workflow/Idempotent.antt =====
-- `enqueue` of workflow/repository.py is idempotent.
use homez.Prelude.{
  ℕ, ◌≡◌, refl, subst, true, some, ok, >>=-eq-ok, ok-injective, find-insert_new, insert,
  Option-cases, Bool-cases, inl, inr, commit-eq-ok, str_eq, ◌&&◌,
}
use homez.Prelude.TextKeys.{str_eq_self}
use homez.Workflow.Jobs.{Job, JobDb, JobRequest, job_key, find_job, new_job, add_job, enqueue}

-- A job of the request is found again.
record Stored (r : JobRequest) (out : ℕ × JobDb) : Type 0 where
  job : Job
  found : find_job out.1 r.idempotency_key ≡ some job
  id : job.id ≡ out.0
  agrees : (str_eq job.kind r.kind && str_eq job.payload_json r.payload) ≡ true

add_job-Stored :
    (r : JobRequest) (id now : ℕ) (db : JobDb) {out : ℕ × JobDb}
    → add_job r id now db ≡ ok out
    → Stored r out
unfolding add_job find_job
add_job-Stored r id now db done = elim (Option-cases (find_job db r.idempotency_key)) [
  | inl new ↦
      let (rows, added, made) =
        >>=-eq-ok (insert (job_key id) (new_job r id now) db.jobs) _ (rw (add_job, new) at done) in
      subst (Stored r) (ok-injective made) (record {
        job = new_job r id now;
        found =
            find-insert_new (job_key id) (λ j. str_eq j.idempotency_key r.idempotency_key)
              (new_job r id now) db.jobs rows new added (str_eq_self r.idempotency_key);
        id = refl;
        agrees = rw (str_eq_self r.kind, str_eq_self r.payload) refl;
      })
  | inr (j, old) ↦ elim (Bool-cases (str_eq j.kind r.kind && str_eq j.payload_json r.payload)) [
    | inl same ↦
        subst (Stored r) (ok-injective (rw (add_job, old, same) at done))
          (record { job = j; found = old; id = refl; agrees = same })
    | inr other ↦ absurd (let e = rw (add_job, old, other) at done in cc)
  ]
]

add_job-again :
    (r : JobRequest) (id now : ℕ) (db : JobDb) (j : Job)
    → find_job db r.idempotency_key ≡ some j
    → (str_eq j.kind r.kind && str_eq j.payload_json r.payload) ≡ true
    → add_job r id now db ≡ ok (j.id, db)
unfolding add_job
add_job-again r id now db j found agrees = rw (add_job, found, agrees) refl

-- A request that `enqueue` accepted is accepted again, at any later time, with the same id, and
-- the second call leaves the store as it was.
pub enqueue_again :
    (r : JobRequest) (id now id' now' n : ℕ) (db db' : JobDb)
    → enqueue r id now db ≡ (ok n, db')
    → enqueue r id' now' db' ≡ (ok n, db')
unfolding enqueue
enqueue_again r id now id' now' n db db' done =
    let s = add_job-Stored r id now db (commit-eq-ok (add_job r id now db) db db' n done) in
    let again = add_job-again r id' now' db' s.job s.found s.agrees in rw (again, s.id) refl
