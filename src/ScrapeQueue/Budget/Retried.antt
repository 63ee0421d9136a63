-- ===== src/ScrapeQueue/Budget/Retried.antt =====
-- The task that waits for its direct attempt after an outcome of scrape_queue/budget.py.
use homez.Prelude.{
  ℕ, ◌≤◌, ◌≡◌, refl, sym, subst, Bool, true, false, List, Option, none, some, ok, arith, Datetime,
}
use homez.ScrapeQueue.Contracts.{WorkerIdentity, ScrapeLease, TaskClass}
use homez.ScrapeQueue.Records.{deferred, Task, Activation, Repository, get_task}
use homez.ScrapeQueue.Reaping.{is_expired}
use homez.ScrapeQueue.Claim.{is_candidate}
use homez.Scraper.DenialPolicy.{ResponseClassification, RouteDecision}
use homez.ScrapeQueue.Budget.Records.{NetworkPermit, BudgetDb, BudgetRepository}
use homez.ScrapeQueue.Budget.Outcomes.{retried_task, record_outcome}
use homez.ScrapeQueue.Budget.Judged.{record_outcome-task}

-- When `record_outcome` grants a direct retry, the task is deferred until the time granted, holds
-- no lease, waits for its direct attempt, and has as many attempts as before.
pub record_outcome-retries :
    (repo : BudgetRepository) (worker : WorkerIdentity) (lease : ScrapeLease)
    (permit : NetworkPermit) (c : ResponseClassification) (now bytes at : ℕ)
    (retry_after : Option ℕ) (db db' : BudgetDb) (d : RouteDecision) (t : Task)
    → get_task db.queue lease.task_id ≡ some t
    → record_outcome repo worker lease permit c (Datetime.aware now) bytes retry_after db
      ≡ (ok d, db')
    → d.retry_direct_at ≡ some at
    → (r : Task) × (get_task db'.queue lease.task_id ≡ some r)
      × (r.state ≡ deferred)
      × (r.lease_token ≡ none)
      × (r.available_at ≡ at)
      × (r.direct_fallback_pending ≡ true)
      × (r.attempt_count ≡ t.attempt_count)
record_outcome-retries repo worker lease permit c now bytes at retry_after db db' d t found done
      granted =
    let row =
      record_outcome-task repo worker lease permit c now bytes retry_after db db' d t found done in
    (
      retried_task d t,
      row,
      rw granted refl,
      rw granted refl,
      rw granted refl,
      rw granted refl,
      rw granted refl,
    )

spent-is_candidate :
    (queue : Repository) (locked : ℕ → Bool) (claimer : WorkerIdentity) (active : Option Activation)
    (classes : List TaskClass) (later : ℕ) (r : Task)
    → queue.policy.max_attempts ≤ r.attempt_count
    → is_candidate queue locked claimer active classes later r ≡ false
unfolding is_candidate
spent-is_candidate queue locked claimer active classes later r spent = ground arith

deferred-is_expired :
    (locked : ℕ → Bool) (later : ℕ) (r : Task)
    → r.state ≡ deferred
    → is_expired locked later r ≡ false
unfolding is_expired
deferred-is_expired locked later r state = rw state refl

-- When `record_outcome` grants a direct retry for a task with no attempts left, the row it leaves
-- is neither a candidate of any later claim nor expired for any later reaping.
pub record_outcome-strands :
    (repo : BudgetRepository) (worker : WorkerIdentity) (lease : ScrapeLease)
    (permit : NetworkPermit) (c : ResponseClassification) (now bytes at : ℕ)
    (retry_after : Option ℕ) (db db' : BudgetDb) (d : RouteDecision) (t : Task) (queue : Repository)
    (locked : ℕ → Bool) (claimer : WorkerIdentity) (active : Option Activation)
    (classes : List TaskClass) (later : ℕ)
    → get_task db.queue lease.task_id ≡ some t
    → record_outcome repo worker lease permit c (Datetime.aware now) bytes retry_after db
      ≡ (ok d, db')
    → d.retry_direct_at ≡ some at
    → queue.policy.max_attempts ≤ t.attempt_count
    → (r : Task) × (get_task db'.queue lease.task_id ≡ some r)
      × (r.state ≡ deferred)
      × (is_candidate queue locked claimer active classes later r ≡ false)
      × (is_expired locked later r ≡ false)
record_outcome-strands repo worker lease permit c now bytes at retry_after db db' d t queue locked
      claimer active classes later found done granted spent =
    let (r, row, state, _, _, _, count) =
      record_outcome-retries repo worker lease permit c now bytes at retry_after db db' d t found
        done granted in
    (
      r,
      row,
      state,
      spent-is_candidate queue locked claimer active classes later r
          (subst (λ n. queue.policy.max_attempts ≤ n) (sym count) spent),
      deferred-is_expired locked later r state,
    )
