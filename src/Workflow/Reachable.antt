-- ===== src/Workflow/Reachable.antt =====
-- The stores of jobs that the operations of workflow/repository.py reach.
use homez.Prelude.{ℕ, String, Bool, commit_keeps}
use homez.Workflow.Jobs.{
  JobDb, JobRequest, ClaimedJob, add_job, enqueue, next_job, take_job, claim_job,
}
use homez.Workflow.Leases.{end_job, succeed_job, lose_job, fail_job, put_off, defer_job, reap_lost}
use homez.Workflow.Invariant.{
  JobsOk, add_job-JobsOk, take_job-JobsOk, end_job-JobsOk, lose_job-JobsOk, put_off-JobsOk,
  reap_jobs-JobsOk,
}

-- One operation, by any worker, with any arguments.
pub data JobStep (digest : ℕ → ℕ → ℕ) : JobDb → JobDb → Type 0 where
  enqueues : (r : JobRequest) (id now : ℕ) (db : JobDb) → JobStep digest db (enqueue r id now db).1
  claims :
      (locked : ℕ → Bool) (worker : String) (token now lease_for : ℕ) (db : JobDb)
      → JobStep digest db (claim_job locked worker token now lease_for db).1
  succeeds : (c : ClaimedJob) (now : ℕ) (db : JobDb) → JobStep digest db (succeed_job c now db).1
  fails :
      (c : ClaimedJob) (now : ℕ) (code detail : String) (retryable manual : Bool) (db : JobDb)
      → JobStep digest db (fail_job digest c now code detail retryable manual db).1
  defers :
      (c : ClaimedJob) (now at : ℕ) (code detail : String) (db : JobDb)
      → JobStep digest db (defer_job c now at code detail db).1
  reaps : (now : ℕ) (db : JobDb) → JobStep digest db (reap_lost now db).1

pub data JobReach (digest : ℕ → ℕ → ℕ) (start : JobDb) : JobDb → Type 0 where
  here : JobReach digest start start
  next :
      {db db' : JobDb}
      → JobReach digest start db
      → JobStep digest db db'
      → JobReach digest start db'

JobStep-JobsOk :
    {digest : ℕ → ℕ → ℕ} {db db' : JobDb} → JobStep digest db db' → JobsOk db → JobsOk db'
unfolding enqueue claim_job succeed_job fail_job defer_job reap_lost
JobStep-JobsOk (enqueues r id now db) h =
    commit_keeps JobsOk (add_job r id now db) db h
      (λ out done. add_job-JobsOk r id now db {out = out} h done)
JobStep-JobsOk (claims locked worker token now lease_for db) h =
    commit_keeps JobsOk (take_job worker token now lease_for (next_job locked now db) db) db h
      (λ out done.
        take_job-JobsOk worker token now lease_for (next_job locked now db) db {out = out} h done)
JobStep-JobsOk (succeeds c now db) h =
    commit_keeps JobsOk (end_job db c now) db h
      (λ out done. end_job-JobsOk c now db {out = out} h done)
JobStep-JobsOk {digest} (fails c now code detail retryable manual db) h =
    commit_keeps JobsOk (lose_job digest db c now code detail retryable manual) db h
      (λ out done. lose_job-JobsOk digest c now code detail retryable manual db {out = out} h done)
JobStep-JobsOk (defers c now at code detail db) h =
    commit_keeps JobsOk (put_off db c now at code detail) db h
      (λ out done. put_off-JobsOk c now at code detail db {out = out} h done)
JobStep-JobsOk (reaps now db) h = reap_jobs-JobsOk now db _ h

-- From a store with the invariant, every store that the operations reach in any order keeps it:
-- the ids of the jobs are unique; a running job has an owner, a token, an expiry and at least one
-- attempt; any other job has no lease column set; a job that succeeded, is in the dead letters or
-- under manual review has its time of finishing.
pub JobReach-JobsOk :
    {digest : ℕ → ℕ → ℕ} {start db : JobDb} → JobsOk start → JobReach digest start db → JobsOk db
JobReach-JobsOk h here = h
JobReach-JobsOk h (next r s) = JobStep-JobsOk s (JobReach-JobsOk h r)
