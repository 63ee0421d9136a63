-- ===== src/Workflow/Leases.antt =====
-- workflow/repository.py: `_leased`, the acknowledgements, `reap_expired` and `retry_delay`.
use homez.Prelude.{
  ℕ, ◌+◌, ◌-◌, ◌*◌, ◌/◌, ◌%◌, ◌^◌, min, max, Bool, true, false, ◌&&◌, String, List, [], ◌∷◌, Option,
  none, some, is_some, Result, ok, err, lost_lease, ◌>>=◌, where_rows, length, ltb, ◌==◌,
  if◌then◌else◌, commit,
}
use homez.Prelude.Chars.{take_chars}
use homez.Workflow.Jobs.{
  JobState, retry_wait, succeeded, dead_letter, manual_review, job_state_value, is_running_job, Job,
  JobAttempt, JobDb, ClaimedJob, get_job, get_job_attempt, put_job, put_job_attempt,
}

abbrev pub has_token : Option ℕ → ℕ → Bool
has_token none token = false
has_token (some t) token = t == token

unfoldable pub is_held : ClaimedJob → Job → Bool
is_held c j = is_running_job j.state && has_token j.lease_token c.lease_token

abbrev pub check_held : Option Job → ClaimedJob → Result Job
check_held none c = err lost_lease
check_held (some j) c = if is_held c j then ok j else err lost_lease

-- `_leased`; it does not ask whether the lease has expired
unfoldable pub leased_job : JobDb → ClaimedJob → Result Job
leased_job db c = check_held (get_job db c.id) c

-- `retry_delay`; `digest` is the number of the first two bytes of the SHA-256 of "id:attempt"
unfoldable pub base_delay : ℕ → ℕ
base_delay attempt = min 21600 (30 * 2 ^ (attempt - 1))

unfoldable pub job_retry_delay : (ℕ → ℕ → ℕ) → ℕ → ℕ → ℕ
unfolding base_delay
job_retry_delay digest job attempt =
    base_delay attempt + digest job attempt % max 1 (base_delay attempt / 5 + 1)

abbrev pub released : Job → Job
released j = record j { lease_owner = none; lease_token = none; lease_expires_at = none }

abbrev pub needs_attempt : Option JobAttempt → Result JobAttempt
needs_attempt none = err lost_lease
needs_attempt (some a) = ok a

abbrev pub done_attempt : ℕ → String → JobAttempt → JobAttempt
done_attempt now outcome a = record a { finished_at = some now; outcome = some outcome }

abbrev pub failed_attempt : ℕ → String → String → String → JobAttempt → JobAttempt
failed_attempt now outcome code detail a = record (done_attempt now outcome a) {
  error_code = some code;
  error_detail = some detail;
}

-- `_finish`, which only `succeed` calls
abbrev pub finished_job : ℕ → Job → Job
finished_job now j =
    released (record j { state = succeeded; updated_at = now; finished_at = some now })

unfoldable pub end_job : JobDb → ClaimedJob → ℕ → Result (JobState × JobDb)
end_job db c now = do
  j ← leased_job db c
  a ← needs_attempt (get_job_attempt db j.id j.attempt_count)
  ok (succeeded, put_job_attempt (done_attempt now "succeeded" a) (put_job (finished_job now j) db))

unfoldable pub succeed_job : ClaimedJob → ℕ → JobDb → Result JobState × JobDb
succeed_job c now db = commit (end_job db c now) db

-- the state that `fail` settles on
unfoldable pub failed_state : Job → Bool → Bool → JobState
failed_state j retryable manual =
    if manual
    then manual_review
    else if retryable && ltb j.attempt_count j.max_attempts
    then retry_wait
    else dead_letter

abbrev pub is_retry_wait : JobState → Bool
is_retry_wait retry_wait = true
is_retry_wait _ = false

abbrev pub failed_job : ℕ → ℕ → String → String → JobState → Job → Job
failed_job now delay code detail state j = released (record j {
  state = state;
  available_at = if is_retry_wait state then now + delay else j.available_at;
  updated_at = now;
  last_error_code = some code;
  last_error_detail = some detail;
  finished_at = if is_retry_wait state then j.finished_at else some now;
})

unfoldable pub lose_job :
    (ℕ → ℕ → ℕ) → JobDb → ClaimedJob → ℕ → String → String → Bool → Bool → Result (JobState × JobDb)
lose_job digest db c now code detail retryable manual = do
  j ← leased_job db c
  let state = failed_state j retryable manual
  a ← needs_attempt (get_job_attempt db j.id j.attempt_count)
  ok (
    state,
    put_job_attempt
        (failed_attempt now (job_state_value state) (take_chars 100 code) (take_chars 500 detail) a)
        (put_job
          (failed_job now (job_retry_delay digest j.id j.attempt_count) (take_chars 100 code)
            (take_chars 500 detail) state j)
          db),
  )

unfoldable pub fail_job :
    (ℕ → ℕ → ℕ) → ClaimedJob → ℕ → String → String → Bool → Bool → JobDb → Result JobState × JobDb
fail_job digest c now code detail retryable manual db =
    commit (lose_job digest db c now code detail retryable manual) db

-- the row after `defer`; a naive time is read as UTC
abbrev pub deferred_job : ℕ → ℕ → String → String → Job → Job
deferred_job now at code detail j = released (record j {
  state = retry_wait;
  available_at = max at now;
  updated_at = now;
  last_error_code = some code;
  last_error_detail = some detail;
})

unfoldable pub put_off : JobDb → ClaimedJob → ℕ → ℕ → String → String → Result (JobState × JobDb)
put_off db c now at code detail = do
  j ← leased_job db c
  a ← needs_attempt (get_job_attempt db j.id j.attempt_count)
  ok (
    retry_wait,
    put_job_attempt
        (failed_attempt now "retry_wait" (take_chars 100 code) (take_chars 500 detail) a)
        (put_job (deferred_job now at (take_chars 100 code) (take_chars 500 detail) j) db),
  )

unfoldable pub defer_job : ClaimedJob → ℕ → ℕ → String → String → JobDb → Result JobState × JobDb
defer_job c now at code detail db = commit (put_off db c now at code detail) db

abbrev pub is_over : Option ℕ → ℕ → Bool
is_over none now = false
is_over (some t) now = ltb t now

-- the WHERE clause of `reap_expired`
unfoldable pub is_lost : ℕ → Job → Bool
is_lost now j = is_running_job j.state && is_over j.lease_expires_at now

abbrev pub reaped_job : ℕ → Job → Job
reaped_job now j = released (record j {
  state = retry_wait;
  available_at = now;
  last_error_code = some "lease-expired";
  last_error_detail = some "worker lease expired before acknowledgement";
  updated_at = now;
})

-- the attempt is marked unless it is finished
abbrev pub mark_lost : ℕ → Option JobAttempt → JobDb → JobDb
mark_lost now none db = db
mark_lost now (some a) db =
    if is_some a.finished_at then db else put_job_attempt (done_attempt now "lease-expired" a) db

unfoldable pub reap_job : ℕ → JobDb → Job → JobDb
reap_job now db j =
    mark_lost now (get_job_attempt db j.id j.attempt_count) (put_job (reaped_job now j) db)

unfoldable pub reap_jobs : ℕ → JobDb → List Job → JobDb
reap_jobs now db [] = db
reap_jobs now db (j ∷ js) = reap_jobs now (reap_job now db j) js

unfoldable pub reap_lost : ℕ → JobDb → Result ℕ × JobDb
reap_lost now db =
    let rows = where_rows (is_lost now) db.jobs in (ok (length rows), reap_jobs now db rows)
