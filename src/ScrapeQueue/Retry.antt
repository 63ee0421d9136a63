-- ===== src/ScrapeQueue/Retry.antt =====
-- What `fail` of scrape_queue/repository.py decides about another attempt.
use homez.Prelude.{
  ℕ, ◌+◌, ◌-◌, ◌≤◌, ◌≡◌, refl, Bool, true, false, String, none, some, arith, Result, ok, Datetime,
  ltb, str_eq, eq_iff, if◌then◌else◌, ap, ◌&&◌, ◌∙◌, sym, subst,
}
use native.Mathlib.Nat.{pow-le-pow_right, one-le-pow}
use homez.ScrapeQueue.Contracts.{WorkerIdentity, ScrapeLease, QueuePolicy}
use homez.ScrapeQueue.Records.{
  Task, Attempt, Db, Repository, current, get_attempt, get_task, contains, TaskState, deferred,
  failed,
}
use homez.ScrapeQueue.Accepted.{leased-Accepted}
use homez.ScrapeQueue.Invariant.{get_task-id, get_task-put}
use homez.ScrapeQueue.Lease.{leased}
use homez.ScrapeQueue.Finish.{
  fail, finish, conclude, failure, failure_codes, retry_delay, settle, settled_state, settled_time,
  finished_task,
}

-- The back-off grows with the attempts, from half a minute up to six hours.
pub retry_delay_bounds :
    (m n : ℕ)
    → m ≤ n
    → (retry_delay m ≤ retry_delay n) × (30 ≤ retry_delay m) × (retry_delay n ≤ 21600)
unfolding retry_delay
retry_delay_bounds m n h =
    let grows = pow-le-pow_right {n = 2} (omega arith) {i = m - 1} {j = n - 1} (omega arith) in
    let pos = one-le-pow (m - 1) 2 (omega arith) in omega (arith, grows, pos)

failure_codes-ne_budget :
    (code : String) → contains failure_codes code ≡ true → str_eq code "budget-exhausted" ≡ false
failure_codes-ne_budget code h = ground (
  arith,
  eq_iff "transport-error" code,
  eq_iff "parser-error" code,
  eq_iff "invalid-target" code,
  eq_iff "artifact-unavailable" code,
  eq_iff code "budget-exhausted",
  eq_iff "transport-error" "budget-exhausted",
  eq_iff "parser-error" "budget-exhausted",
  eq_iff "invalid-target" "budget-exhausted",
  eq_iff "artifact-unavailable" "budget-exhausted",
)

-- A failure is tried again if it was of transport and attempts are left.
abbrev pub tries_again : QueuePolicy → Task → String → Bool
tries_again policy t code = str_eq code "transport-error" && ltb t.attempt_count policy.max_attempts

settled_failure :
    (policy : QueuePolicy) (t : Task) (code : String)
    → settled_state policy t (failure code)
      ≡ (if tries_again policy t code then deferred else failed)
settled_failure policy t code = ground arith

-- The row of a task after an accepted failure.
abbrev failed_row : QueuePolicy → Task → String → ℕ → Task
failed_row policy t code later =
    finished_task t (settled_state policy t (failure code))
      (settled_time policy t (failure code) later) later

fail-settle :
    (repo : Repository) (worker : WorkerIdentity) (lease : ScrapeLease) (now later : ℕ)
    (code : String) (db : Db) (t : Task) (a : Attempt)
    → contains failure_codes code ≡ true
    → leased repo db worker lease now ≡ ok t
    → current repo 1 now ≡ ok later
    → get_attempt db t.id t.attempt_count ≡ some a
    → a.finished_at ≡ none
    → fail repo worker lease (Datetime.aware now) code db ≡ (
      ok (settle repo.policy t a (failure code) later db).0,
      (settle repo.policy t a (failure code) later db).1,
    )
unfolding fail finish conclude
fail-settle repo worker lease now later code db t a known held read found unfinished =
    rw known
      (rw held (rw read (rw found (rw unfinished (rw (failure_codes-ne_budget code known))))))

-- When the lease is accepted and its attempt is open, `fail` with one of its codes answers
-- "deferred" exactly if the failure was of transport and attempts are left, and "failed" otherwise.
-- The row then is in the state answered, holds no lease and has as many attempts as before; a
-- deferred row is available after the back-off, a failed one is finished at the time read.
pub fail_outcome :
    (repo : Repository) (worker : WorkerIdentity) (lease : ScrapeLease) (now later : ℕ)
    (code : String) (db : Db) (t : Task) (a : Attempt)
    → contains failure_codes code ≡ true
    → leased repo db worker lease now ≡ ok t
    → current repo 1 now ≡ ok later
    → get_attempt db t.id t.attempt_count ≡ some a
    → a.finished_at ≡ none
    → (let after = fail repo worker lease (Datetime.aware now) code db in
        (r : Task) × (after.0 ≡ ok (if tries_again repo.policy t code then deferred else failed))
        × (get_task after.1 t.id ≡ some r)
        × (r.state ≡ (if tries_again repo.policy t code then deferred else failed))
        × (r.lease_token ≡ none)
        × (r.attempt_count ≡ t.attempt_count)
        × (tries_again repo.policy t code ≡ true
            → r.available_at ≡ later + retry_delay t.attempt_count)
        × (tries_again repo.policy t code ≡ false → r.finished_at ≡ some later))
fail_outcome repo worker lease now later code db t a known held read found unfinished =
    let done =
      fail-settle repo worker lease now later code db t a known held read found unfinished in
    let state = settled_failure repo.policy t code in
    let accepted = leased-Accepted repo db worker lease now held in
    let own : get_task db t.id ≡ some t =
      subst (λ m. get_task db m ≡ some t) (sym (get_task-id db lease.task_id accepted.found))
        accepted.found in
    (
      failed_row repo.policy t code later,
      ap (λ (o : Result TaskState × Db). o.0) done ∙ ap ok state,
      subst
          (λ (o : Result TaskState × Db).
            get_task o.1 t.id ≡ some (failed_row repo.policy t code later))
          (sym done) (get_task-put db t (failed_row repo.policy t code later) _ refl own),
      state,
      refl,
      refl,
      ground arith,
      ground arith,
    )
