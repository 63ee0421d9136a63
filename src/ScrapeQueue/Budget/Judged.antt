-- ===== src/ScrapeQueue/Budget/Judged.antt =====
-- What a call of `record_outcome` of scrape_queue/budget.py went through, and the task it wrote.
use homez.Prelude.{
  ℕ, ◌≡◌, refl, sym, ◌∙◌, ap, subst, false, Option, none, some, ok, value_error, lost_lease,
  >>=-eq-ok, guard, ok-injective, find, find-replace, leb, ==_iff, ◌==◌, arith, Datetime,
  commit-eq-ok,
}
use homez.ScrapeQueue.Contracts.{Portal, WorkerIdentity, ScrapeLease}
use homez.ScrapeQueue.Records.{Task, Attempt, Db, get_task, task_key}
use homez.ScrapeQueue.Lease.{put_task, put_attempt}
use homez.ScrapeQueue.Invariant.{get_task-id}
use homez.Scraper.DenialPolicy.{
  RouteClass, ResponseClassification, RouteDecision, decide_route_outcome,
}
use homez.ScrapeQueue.Budget.Records.{
  SourceState, SourceBudgetPolicy, NetworkPermit, BudgetDb, BudgetRepository, policy_of, put_state,
  locked_source_state,
}
use homez.ScrapeQueue.Budget.Permits.{validate_lease}
use homez.ScrapeQueue.Budget.Outcomes.{
  route_of, awaits, reconcile_route, count_success, cool, mark_route, quarantine_route, classified,
  retried_task, retried_attempt, apply_decision, judge, record_outcome,
}
use homez.ScrapeQueue.Budget.Rows.{validate_lease-found}
use homez.ScrapeQueue.Budget.Frames.{
  reconcile_route-Same, mark_route-Same, quarantine_route-Same, locked_source_state-queue,
}

-- the queue after an outcome: its task and its attempt are written, the rest is left alone
record Written (db : Db) (t : Task) (out : RouteDecision × BudgetDb) : Type 0 where
  attempt : Attempt
  queue : out.1.queue ≡ put_attempt attempt (put_task (retried_task out.0 t) db)

apply_decision-Written :
    (repo : BudgetRepository) (source : Portal) (route : RouteClass) (permit : NetworkPermit)
    (c : ResponseClassification) (d : RouteDecision) (bytes now : ℕ) (t : Task) (a : Attempt)
    (s : SourceState) (db : BudgetDb) {out : RouteDecision × BudgetDb}
    → apply_decision repo source route permit c d bytes now t a s db ≡ ok out
    → Written db.queue t out
unfolding apply_decision
apply_decision-Written repo source route permit c d bytes now t a s db {out} done =
    let ((a1, db1), paid, h1) =
      >>=-eq-ok (reconcile_route repo route (classified c bytes a) bytes now db) _ done in
    let (s1, counted, h2) = >>=-eq-ok (count_success c route s) _ h1 in
    let db3 = mark_route d permit.route_id now (put_state (cool d now s1) db1) in
    let (db4, held, made) = >>=-eq-ok (quarantine_route d permit.route_id source now db3) _ h2 in
    let e4 = (quarantine_route-Same d permit.route_id source now db3 held).queue in
    let e3 = (mark_route-Same d permit.route_id now (put_state (cool d now s1) db1)).queue in
    let e1 = (reconcile_route-Same repo route (classified c bytes a) bytes now db paid).queue in
    subst (Written db.queue t) (ok-injective made) (record {
      attempt = retried_attempt d now a1;
      queue =
          ap (λ q. put_attempt (retried_attempt d now a1) (put_task (retried_task d t) q))
            (e4 ∙ e3 ∙ e1);
    })

-- the stages of `record_outcome` up to the decision
pub record Judged (repo : BudgetRepository) (worker : WorkerIdentity) (lease : ScrapeLease)
    (permit : NetworkPermit) (c : ResponseClassification) (now bytes : ℕ) (db : BudgetDb)
    (out : RouteDecision × BudgetDb) : Type 0 where
  pub policy : SourceBudgetPolicy
  pub route : RouteClass
  pub task : Task
  pub attempt : Attempt
  pub state : SourceState
  pub store : BudgetDb
  pub decision : RouteDecision
  pub found : get_task db.queue lease.task_id ≡ some task
  pub locked : locked_source_state worker.source policy now db ≡ ok (state, store)
  pub applied :
      apply_decision repo worker.source route permit c decision bytes now task attempt state store
      ≡ ok out

pub judge-Judged :
    (repo : BudgetRepository) (worker : WorkerIdentity) (lease : ScrapeLease)
    (permit : NetworkPermit) (c : ResponseClassification) (now bytes : ℕ) (retry_after : Option ℕ)
    (db : BudgetDb) {out : RouteDecision × BudgetDb}
    → judge repo worker lease permit c (Datetime.aware now) bytes retry_after db ≡ ok out
    → Judged repo worker lease permit c now bytes db out
unfolding judge
judge-Judged repo worker lease permit c now bytes retry_after db {out} done =
    let (_, _, h2) = >>=-eq-ok (guard permit.granted value_error) _ done in
    let (route, _, h3) = >>=-eq-ok (route_of permit.route_class) _ h2 in
    let (_, _, h4) = >>=-eq-ok (guard (leb bytes 2000000) value_error) _ h3 in
    let (p, known, h5) = >>=-eq-ok (policy_of repo worker.source) _ h4 in
    let ((t, a), valid, h6) = >>=-eq-ok (validate_lease db.queue worker lease now) _ h5 in
    let (_, _, h7) = >>=-eq-ok (guard (awaits a route permit) lost_lease) _ h6 in
    let ((s, db1), locked, h8) = >>=-eq-ok (locked_source_state worker.source p now db) _ h7 in
    let (d, _, h9) =
      >>=-eq-ok
        (decide_route_outcome route c (Datetime.aware now) false s.direct_denial_count retry_after)
        _ h8 in
    record {
      policy = p;
      route = route;
      task = t;
      attempt = a;
      state = s;
      store = db1;
      decision = d;
      found = (validate_lease-found db.queue worker lease now valid).0;
      locked = locked;
      applied = h9;
    }

retried_task-id : (d : RouteDecision) (t : Task) → (retried_task d t).id ≡ t.id
retried_task-id d t =
    elim d.retry_direct_at as (λ o. (retried_task (record d { retry_direct_at = o }) t).id ≡ t.id) [
      | none ↦ refl
      | some at ↦ refl
    ]

-- the queue that an outcome writes
abbrev written : RouteDecision → Attempt → Task → Db → Db
written d a t q = put_attempt a (put_task (retried_task d t) q)

written-get_task :
    (q : Db) (n : ℕ) (d : RouteDecision) (a : Attempt) (t : Task)
    → get_task q n ≡ some t
    → get_task (written d a t q) n ≡ some (retried_task d t)
unfolding get_task
written-get_task q n d a t found =
    let same = retried_task-id d t in
    let own : t.id ≡ n = get_task-id q n found in
    find-replace (task_key (retried_task d t).id) (task_key n) (retried_task d t) q.tasks {x = t}
      (subst (λ m. find (task_key m) q.tasks ≡ some t) (sym (same ∙ own)) found)
      ((==_iff (retried_task d t).id n).1 (same ∙ own))
      (λ z e. subst (λ m. (z.id == m) ≡ false) (same ∙ own) e)

-- The task of a recorded outcome, in the new store.
pub record_outcome-task :
    (repo : BudgetRepository) (worker : WorkerIdentity) (lease : ScrapeLease)
    (permit : NetworkPermit) (c : ResponseClassification) (now bytes : ℕ) (retry_after : Option ℕ)
    (db db' : BudgetDb) (d : RouteDecision) (t : Task)
    → get_task db.queue lease.task_id ≡ some t
    → record_outcome repo worker lease permit c (Datetime.aware now) bytes retry_after db
      ≡ (ok d, db')
    → get_task db'.queue lease.task_id ≡ some (retried_task d t)
unfolding record_outcome
record_outcome-task repo worker lease permit c now bytes retry_after db db' d t found done =
    let made =
      commit-eq-ok (judge repo worker lease permit c (Datetime.aware now) bytes retry_after db) db
        db' d done in
    let j = judge-Judged repo worker lease permit c now bytes retry_after db made in
    let w =
      apply_decision-Written repo worker.source j.route permit c j.decision bytes now j.task
        j.attempt j.state j.store j.applied in
    let kept : j.store.queue ≡ db.queue =
      locked_source_state-queue worker.source j.policy now db j.locked in
    let same : j.task ≡ t = (let f = j.found in ground arith) in
    let queue =
      w.queue
      ∙ ap (λ q. written d w.attempt j.task q) kept
      ∙ ap (λ u. written d w.attempt u db.queue) same in
    subst (λ q. get_task q lease.task_id ≡ some (retried_task d t)) (sym queue)
      (written-get_task db.queue lease.task_id d w.attempt t found)
