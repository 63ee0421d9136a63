-- ===== src/Workflow/Tests.antt =====
-- A small store of jobs of workflow/, what its operations do, and the theorems applied to it.
use homez.Prelude.{
  ℕ, ◌+◌, ◌≤◌, ◌≡◌, ◌≢◌, refl, arith, Bool, true, false, not, ◌&&◌, [], ◌∷◌, none, some, ok, err,
  value_error, lost_lease, find, insert, replace, where_rows, first, if◌then◌else◌, ltb,
}
use homez.Workflow.Jobs.{
  retry_wait, succeeded, dead_letter, manual_review, Job, JobAttempt, JobDb, JobRequest, ClaimedJob,
  get_job, get_job_attempt, find_job, new_job, add_job, enqueue, is_due, next_job, taken,
  taken_attempt, claim_of, claim_job,
}
use homez.Prelude.Chars.{take_chars}
use homez.Workflow.Leases.{
  is_held, leased_job, base_delay, job_retry_delay, end_job, finished_job, succeed_job,
  failed_state, lose_job, fail_job, put_off, defer_job, is_lost, reap_job, reap_jobs, reap_lost,
}
use homez.Workflow.Invariant.{JobsOk}
use homez.Workflow.Reachable.{
  JobReach, here, next, enqueues, claims, succeeds, reaps, JobReach-JobsOk,
}
use homez.Workflow.Acknowledged.{fail_job-outcome, job_retry_delay_bounds}
use homez.Workflow.Ended.{JobReach-get_job}
use homez.Workflow.Idempotent.{enqueue_again}
use homez.Workflow.Claimed.{claim_job-fences, claim_job-honoured}

program : Unit {0}
unfolding find insert replace where_rows first get_job get_job_attempt find_job add_job enqueue
    is_due next_job claim_job take_chars is_held leased_job base_delay job_retry_delay end_job
    succeed_job failed_state lose_job fail_job put_off defer_job is_lost reap_job reap_jobs
    reap_lost
program = tt

-- no jitter
abbrev digest : ℕ → ℕ → ℕ
digest job attempt = 0

abbrev request : JobRequest
request = record {
  kind = "normalize";
  idempotency_key = "normalize:1";
  payload = "{}";
  available_at = 100;
  priority = 100;
  max_attempts = 2;
  parent_job_id = none;
  root_job_id = none;
}

abbrev empty : JobDb
empty = record { jobs = []; job_attempts = [] }

abbrev waiting : JobDb
waiting = record { jobs = new_job request 7 100 ∷ []; job_attempts = [] }

abbrev unlocked : ℕ → Bool
unlocked n = false

abbrev row : Job
row = taken "w" 55 200 300 (new_job request 7 100)

abbrev work : ClaimedJob
work = claim_of row 55 500

abbrev attempt : JobAttempt
attempt = taken_attempt "w" 55 200 row

abbrev busy : JobDb
busy = record { jobs = row ∷ []; job_attempts = attempt ∷ [] }

enqueue-empty : enqueue request 7 100 empty ≡ (ok 7, waiting)
unfolding program
enqueue-empty = refl

-- the key is not to be used for other work
enqueue_reused :
    enqueue (record request { kind = "rank" }) 8 100 waiting ≡ (err value_error, waiting)
unfolding program
enqueue_reused = refl

claim_job-waiting : claim_job unlocked "w" 55 200 300 waiting ≡ (ok (some work), busy)
unfolding program
claim_job-waiting = refl

fail_job-busy : (fail_job digest work 210 "timeout" "slow" true false busy).0 ≡ ok retry_wait
unfolding program
fail_job-busy = refl

take_chars-timeout : take_chars 4 "timeout" ≡ "time"
unfolding program
take_chars-timeout = refl

-- A lease that ends now is not lost yet.
reap_lost-busy : ((reap_lost 500 busy).0 ≡ ok 0) × ((reap_lost 501 busy).0 ≡ ok 1)
unfolding program
reap_lost-busy = (refl, refl)

empty-JobsOk : JobsOk empty
empty-JobsOk = record { unique = tt; rows = tt }

busy-JobReach : JobReach digest empty busy
unfolding program
busy-JobReach =
    next (next here (enqueues request 7 100 empty)) (claims unlocked "w" 55 200 300 waiting)

waiting-JobReach : JobReach digest empty waiting
unfolding program
waiting-JobReach = next here (enqueues request 7 100 empty)

waiting-JobsOk : JobsOk waiting
waiting-JobsOk = record {
  unique = (tt, tt);
  rows = (
    record {
      leased = λ e. absurd (ground arith);
      free = λ e. record { owner = refl; token = refl; expiry = refl };
      ended = λ e. absurd (ground arith);
    },
    tt,
  );
}

JobReach-JobsOk_example : JobsOk busy
JobReach-JobsOk_example = JobReach-JobsOk empty-JobsOk busy-JobReach

abbrev stale : ClaimedJob
stale = record work { lease_token = 54 }

stale_ne : stale.lease_token ≢ work.lease_token
stale_ne h = omega arith

claim_job-fences_example :
    (succeed_job stale 210 busy ≡ (err lost_lease, busy))
    × (fail_job digest stale 210 "timeout" "slow" true false busy ≡ (err lost_lease, busy))
    × (defer_job stale 210 400 "timeout" "slow" busy ≡ (err lost_lease, busy))
claim_job-fences_example =
    claim_job-fences digest unlocked "w" 55 200 300 work stale 210 400 "timeout" "slow" true false
      waiting busy waiting-JobsOk claim_job-waiting refl stale_ne

claim_job-honoured_example :
    (r : Job) × ((succeed_job work 210 busy).0 ≡ ok succeeded)
    × (get_job (succeed_job work 210 busy).1 7 ≡ some r)
    × (r.state ≡ succeeded)
    × (r.finished_at ≡ some 210)
    × (r.lease_token ≡ none)
claim_job-honoured_example =
    claim_job-honoured unlocked "w" 55 200 300 210 work waiting busy waiting-JobsOk
      claim_job-waiting

busy_found : get_job busy 7 ≡ some row
unfolding program
busy_found = refl

busy_held : is_held work row ≡ true
unfolding program
busy_held = refl

busy_opened : get_job_attempt busy 7 1 ≡ some attempt
unfolding program
busy_opened = refl

fail_job-outcome_example :
    (let state =
        (if false then manual_review else if true && ltb 1 2 then retry_wait else dead_letter) in
      let waits = not false && true && ltb 1 2 in
      (r : Job) × ((fail_job digest work 210 "timeout" "slow" true false busy).0 ≡ ok state)
      × (get_job (fail_job digest work 210 "timeout" "slow" true false busy).1 7 ≡ some r)
      × (r.state ≡ state)
      × (r.lease_token ≡ none)
      × (r.attempt_count ≡ 1)
      × (r.available_at ≡ (if waits then 210 + job_retry_delay digest 7 1 else 100))
      × (r.finished_at ≡ (if waits then none else some 210)))
fail_job-outcome_example =
    fail_job-outcome digest work 210 "timeout" "slow" true false busy row attempt busy_found
      busy_held busy_opened

job_retry_delay_bounds_example :
    (120 ≤ job_retry_delay digest 7 3) × (job_retry_delay digest 7 3 ≤ 144)
job_retry_delay_bounds_example = job_retry_delay_bounds digest 7 2

enqueue_again_example : enqueue request 9 300 waiting ≡ (ok 7, waiting)
enqueue_again_example = enqueue_again request 7 100 9 300 7 empty waiting enqueue-empty

abbrev over : JobDb
over = (succeed_job work 210 busy).1

over-JobsOk : JobsOk over
over-JobsOk = JobReach-JobsOk empty-JobsOk (next busy-JobReach (succeeds work 210 busy))

abbrev later : JobDb
later = (reap_lost 900 (claim_job unlocked "v" 56 800 300 over).1).1

later-JobReach : JobReach digest over later
later-JobReach =
    next (next here (claims unlocked "v" 56 800 300 over))
      (reaps 900 (claim_job unlocked "v" 56 800 300 over).1)

over_found : get_job over 7 ≡ some (finished_job 210 row)
unfolding program
over_found = refl

JobReach-get_job_example : get_job later 7 ≡ some (finished_job 210 row)
JobReach-get_job_example =
    JobReach-get_job 7 (finished_job 210 row) over-JobsOk refl over_found later-JobReach
