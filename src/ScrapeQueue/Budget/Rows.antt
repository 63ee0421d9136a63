-- ===== src/ScrapeQueue/Budget/Rows.antt =====
-- The tasks that scrape_queue/budget.py writes keep the invariant of the queue.
use homez.Prelude.{
  ℕ, ◌≡◌, refl, true, false, Option, none, some, ok, lost_lease, >>=-eq-ok, guard, guard-eq-ok,
  ok-injective, subst, find, arith, if◌then◌else◌, ap,
}
use homez.Scraper.DenialPolicy.{RouteDecision}
use homez.ScrapeQueue.Contracts.{QueuePolicy, WorkerIdentity, ScrapeLease}
use homez.ScrapeQueue.Records.{Task, Attempt, Db, get_task}
use homez.ScrapeQueue.Invariant.{TaskOk, DbOk, get_task-TaskOk}
use homez.ScrapeQueue.Budget.Permits.{validate_lease, found_both, token_key, is_valid, started_task}
use homez.ScrapeQueue.Budget.Outcomes.{retried_task}

found_both-some :
    (t : Option Task) (a : Option Attempt) {out : Task × Attempt}
    → found_both t a ≡ ok out
    → (t ≡ some out.0) × (a ≡ some out.1)
found_both-some none a h = absurd (ground arith)
found_both-some (some t) none h = absurd (ground arith)
found_both-some (some t) (some a) {out} h =
    let same : (t, a) ≡ out = ok-injective h in
    (ap (λ (o : Task × Attempt). some o.0) same, ap (λ (o : Task × Attempt). some o.1) same)

-- What a validated lease gives: the task and the attempt that the store has for it.
pub validate_lease-found :
    (db : Db) (worker : WorkerIdentity) (lease : ScrapeLease) (now : ℕ) {out : Task × Attempt}
    → validate_lease db worker lease now ≡ ok out
    → (get_task db lease.task_id ≡ some out.0)
      × (find (token_key lease.lease_token) db.attempts ≡ some out.1)
      × (is_valid db worker lease now out.0 ≡ true)
unfolding validate_lease
validate_lease-found db worker lease now {out} done =
    let (both, found, h1) =
      >>=-eq-ok
        (found_both (get_task db lease.task_id) (find (token_key lease.lease_token) db.attempts)) _
        done in
    let (_, valid, made) =
      >>=-eq-ok (guard (is_valid db worker lease now both.0) lost_lease) _ h1 in
    let (task, attempt) =
      found_both-some (get_task db lease.task_id) (find (token_key lease.lease_token) db.attempts)
        found in
    subst
      (λ (o : Task × Attempt).
        (get_task db lease.task_id ≡ some o.0)
        × (find (token_key lease.lease_token) db.attempts ≡ some o.1)
        × (is_valid db worker lease now o.0 ≡ true))
      (ok-injective made)
      (task, attempt, guard-eq-ok (is_valid db worker lease now both.0) lost_lease valid)

pub validate_lease-TaskOk :
    (policy : QueuePolicy) (db : Db) (worker : WorkerIdentity) (lease : ScrapeLease) (now : ℕ)
    {out : Task × Attempt}
    → DbOk policy db
    → validate_lease db worker lease now ≡ ok out
    → TaskOk policy out.0
validate_lease-TaskOk policy db worker lease now h done =
    get_task-TaskOk policy db lease.task_id h (validate_lease-found db worker lease now done).0

pub started_task-TaskOk :
    (policy : QueuePolicy) (t : Task) → TaskOk policy t → TaskOk policy (started_task t)
started_task-TaskOk policy t h =
    elim t.direct_fallback_pending
      as (λ b. TaskOk policy (
        if b
        then record t { direct_fallback_pending = false; direct_fallback_available_at = none }
        else t)) [
          | true ↦ record {
            leased = λ e.
                let l = h.leased e in
                record {
                  owned = l.owned;
                  fenced = l.fenced;
                  window = l.window;
                  counted = l.counted;
                };
            free = λ e.
                let f = h.free e in
                record { owner = f.owner; token = f.token; start = f.start; expiry = f.expiry };
            bounded = h.bounded;
            ended = h.ended;
          }
          | false ↦ h
        ]

pub retried_task-TaskOk :
    (policy : QueuePolicy) (d : RouteDecision) (t : Task)
    → TaskOk policy t
    → TaskOk policy (retried_task d t)
retried_task-TaskOk policy d t h =
    elim d.retry_direct_at
      as (λ o. TaskOk policy (retried_task (record d { retry_direct_at = o }) t)) [
        | none ↦ h
        | some at ↦ record {
          leased = λ e. absurd (ground arith);
          free = λ e. record { owner = refl; token = refl; start = refl; expiry = refl };
          bounded = h.bounded;
          ended = λ e. absurd (ground arith);
        }
      ]
