-- ===== src/Workflow/Acknowledged.antt =====
-- What an accepted acknowledgement of workflow/repository.py does to the job.
use homez.Prelude.{
  ℕ, zero, suc, ◌*◌, ◌^◌, min, ap, ◌+◌, ◌-◌, ◌/◌, ◌≤◌, ◌≡◌, refl, sym, ◌∙◌, subst, Bool, true,
  false, not, String, List, none, some, ok, find, find-holds, find-replace, arith, ==_iff, ◌==◌,
  ◌&&◌, ltb, if◌then◌else◌,
}
use native.Mathlib.Nat.{pow-suc}
use homez.Workflow.Jobs.{
  succeeded, retry_wait, dead_letter, manual_review, Job, JobAttempt, JobDb, ClaimedJob, job_key,
  get_job, get_job_attempt, put_job,
}
use homez.Prelude.Chars.{take_chars}
use homez.Workflow.Leases.{
  leased_job, is_held, end_job, succeed_job, finished_job, lose_job, fail_job, failed_state,
  failed_job, base_delay, job_retry_delay,
}

pub get_job-id : (db : JobDb) (n : ℕ) {j : Job} → get_job db n ≡ some j → j.id ≡ n
unfolding get_job
get_job-id db n {j} found = (==_iff j.id n).0 (find-holds (job_key n) db.jobs found)

-- An updated job is found by its id.
put_job-get_job :
    (db : JobDb) (n : ℕ) (old new : Job) (rows : List JobAttempt)
    → new.id ≡ old.id
    → get_job db n ≡ some old
    → get_job (record (put_job new db) { job_attempts = rows }) n ≡ some new
unfolding get_job
put_job-get_job db n old new rows same found =
    let own : new.id ≡ n = same ∙ get_job-id db n found in
    find-replace (job_key new.id) (job_key n) new db.jobs {x = old}
      (subst (λ m. find (job_key m) db.jobs ≡ some old) (sym own) found) ((==_iff new.id n).1 own)
      (λ z e. subst (λ m. (z.id == m) ≡ false) own e)

pub accepted-leased_job :
    (db : JobDb) (c : ClaimedJob) (j : Job)
    → get_job db c.id ≡ some j
    → is_held c j ≡ true
    → leased_job db c ≡ ok j
unfolding leased_job
accepted-leased_job db c j found held = rw (found, held) refl

-- `succeed` with the lease that a job is held under finishes the job.
pub succeed_job-accepted :
    (c : ClaimedJob) (now : ℕ) (db : JobDb) (j : Job) (a : JobAttempt)
    → get_job db c.id ≡ some j
    → is_held c j ≡ true
    → get_job_attempt db j.id j.attempt_count ≡ some a
    → ((succeed_job c now db).0 ≡ ok succeeded)
      × (get_job (succeed_job c now db).1 c.id ≡ some (finished_job now j))
unfolding succeed_job end_job
succeed_job-accepted c now db j a found held opened =
    let lease = accepted-leased_job db c j found held in
    (
      rw (lease, opened) refl,
      rw (lease, opened) (put_job-get_job db c.id j (finished_job now j) _ refl found),
    )

-- `fail` with the lease that a job is held under answers "manual_review" if that is asked,
-- "retry_wait" if the failure may be retried and attempts are left, and "dead_letter" otherwise.
-- The job is then in that state and holds no lease; it waits out the back-off, or is finished.
pub fail_job-outcome :
    (digest : ℕ → ℕ → ℕ) (c : ClaimedJob) (now : ℕ) (code detail : String) (retryable manual : Bool)
    (db : JobDb) (j : Job) (a : JobAttempt)
    → get_job db c.id ≡ some j
    → is_held c j ≡ true
    → get_job_attempt db j.id j.attempt_count ≡ some a
    → (let state =
          (if manual
            then manual_review
            else if retryable && ltb j.attempt_count j.max_attempts
            then retry_wait
            else dead_letter) in
        let waits = not manual && retryable && ltb j.attempt_count j.max_attempts in
        (r : Job) × ((fail_job digest c now code detail retryable manual db).0 ≡ ok state)
        × (get_job (fail_job digest c now code detail retryable manual db).1 c.id ≡ some r)
        × (r.state ≡ state)
        × (r.lease_token ≡ none)
        × (r.attempt_count ≡ j.attempt_count)
        × (r.available_at
            ≡ (if waits then now + job_retry_delay digest j.id j.attempt_count else j.available_at))
        × (r.finished_at ≡ (if waits then j.finished_at else some now)))
unfolding fail_job lose_job failed_state
fail_job-outcome digest c now code detail retryable manual db j a found held opened =
    let lease = accepted-leased_job db c j found held in
    let state = failed_state j retryable manual in
    let row =
      failed_job now (job_retry_delay digest j.id j.attempt_count) (take_chars 100 code)
        (take_chars 500 detail) state j in
    (
      row,
      rw (lease, opened) refl,
      rw (lease, opened) (put_job-get_job db c.id j row _ refl found),
      refl,
      refl,
      refl,
      ground arith,
      ground arith,
    )

-- Half a minute, doubled so many times, and six hours from where it would be more.
abbrev pub doubled : ℕ → ℕ
doubled zero = 30
doubled (suc n) = min 21600 (2 * doubled n)

capped_double : (x : ℕ) → min 21600 (2 * min 21600 x) ≡ min 21600 (2 * x)
capped_double x = omega arith

capped-doubled : (n : ℕ) → min 21600 (30 * 2 ^ n) ≡ doubled n
capped-doubled zero = refl
capped-doubled (suc n) =
    let twice : 30 * 2 ^ suc n ≡ 2 * (30 * 2 ^ n) = rw (pow-suc 2 n) (omega arith) in
    ap (min 21600) twice
    ∙ sym (capped_double (30 * 2 ^ n))
    ∙ ap (λ x. min 21600 (2 * x)) (capped-doubled n)

base_delay-doubled : (n : ℕ) → base_delay (n + 1) ≡ doubled n
unfolding base_delay
base_delay-doubled n =
    let exponent : n + 1 - 1 ≡ n = omega arith in
    ap (λ k. min 21600 (30 * 2 ^ k)) exponent ∙ capped-doubled n

-- The back-off after the first attempt is half a minute, after each attempt that follows twice that
-- of the attempt before but never more than six hours, and in each case up to a fifth of it more.
pub job_retry_delay_bounds :
    (digest : ℕ → ℕ → ℕ) (job n : ℕ)
    → (doubled n ≤ job_retry_delay digest job (n + 1))
      × (job_retry_delay digest job (n + 1) ≤ doubled n + doubled n / 5)
unfolding job_retry_delay
job_retry_delay_bounds digest job n = rw (← base_delay-doubled n) (omega arith, omega arith)
