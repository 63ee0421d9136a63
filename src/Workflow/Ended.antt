-- ===== src/Workflow/Ended.antt =====
-- What the operations of workflow/repository.py do with jobs that have ended.
use homez.Workflow.Kept.{
  Keeps, add_job-Keeps, end_job-Keeps, lose_job-Keeps, next_job_ne, put_off-Keeps, reap_lost-Keeps,
  take_job-Keeps,
}
use homez.Prelude.{ℕ, ◌≡◌, true, some, commit_keeps}
use homez.Workflow.Jobs.{Job, JobDb, get_job, add_job, enqueue, next_job, take_job, claim_job}
use homez.Workflow.Leases.{end_job, succeed_job, lose_job, fail_job, put_off, defer_job}
use homez.Workflow.Invariant.{is_ended, JobsOk}
use homez.Workflow.Reachable.{
  JobStep, enqueues, claims, succeeds, fails, defers, reaps, JobReach, here, next, JobReach-JobsOk,
}

module _ (n : ℕ) (j : Job) (ended : is_ended j.state ≡ true) where
  JobStep-Keeps :
      {digest : ℕ → ℕ → ℕ} {db db' : JobDb}
      → JobStep digest db db'
      → JobsOk db
      → Keeps n j ended db
      → Keeps n j ended db'
  unfolding enqueue claim_job succeed_job fail_job defer_job
  JobStep-Keeps (enqueues r id now db) ok_db h =
      commit_keeps (Keeps n j ended) (add_job r id now db) db h
        (λ out done. add_job-Keeps n j ended r id now db out h done)
  JobStep-Keeps (claims locked worker token now lease_for db) ok_db h =
      commit_keeps (Keeps n j ended)
        (take_job worker token now lease_for (next_job locked now db) db) db h
        (λ out done.
          take_job-Keeps n j ended worker token now lease_for (next_job locked now db) db out
            (next_job_ne n j ended locked now db ok_db h) h done)
  JobStep-Keeps (succeeds c now db) ok_db h =
      commit_keeps (Keeps n j ended) (end_job db c now) db h
        (λ out done. end_job-Keeps n j ended c now db out h done)
  JobStep-Keeps {digest} (fails c now code detail retryable manual db) ok_db h =
      commit_keeps (Keeps n j ended) (lose_job digest db c now code detail retryable manual) db h
        (λ out done.
          lose_job-Keeps n j ended digest c now code detail retryable manual db out h done)
  JobStep-Keeps (defers c now at code detail db) ok_db h =
      commit_keeps (Keeps n j ended) (put_off db c now at code detail) db h
        (λ out done. put_off-Keeps n j ended c now at code detail db out h done)
  JobStep-Keeps (reaps now db) ok_db h = reap_lost-Keeps n j ended now db ok_db h

-- From a store with the invariant, a job that has succeeded, is in the dead letters or under manual
-- review keeps its row as it is, whatever operations follow in any order: no lease is honoured on
-- it, no claim takes it and no reaping returns it.
pub JobReach-get_job :
    {digest : ℕ → ℕ → ℕ} {start db : JobDb} (n : ℕ) (j : Job)
    → JobsOk start
    → is_ended j.state ≡ true
    → get_job start n ≡ some j
    → JobReach digest start db
    → get_job db n ≡ some j
JobReach-get_job n j good ended found here = found
JobReach-get_job n j good ended found (next r s) =
    JobStep-Keeps n j ended s (JobReach-JobsOk good r) (JobReach-get_job n j good ended found r)
