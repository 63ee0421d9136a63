-- ===== src/ScrapeQueue/Budget/Midnight.antt =====
-- Successes that scrape_queue/budget.py refuses at the turn of the day.
use homez.Prelude.{
  ℕ, ◌≡◌, ◌≢◌, refl, subst, false, Option, some, ok, >>=-eq-ok, ok-injective, find, is_ok, ◌==◌,
  arith, Datetime, commit_refused,
}
use homez.ScrapeQueue.Contracts.{Portal, WorkerIdentity, ScrapeLease}
use homez.Scraper.DenialPolicy.{RouteClass, success}
use homez.ScrapeQueue.Budget.Calendar.{day_number}
use homez.ScrapeQueue.Budget.Records.{
  SourceState, SourceBudgetPolicy, NetworkPermit, BudgetDb, BudgetRepository, state_key, roll_over,
  locked_source_state,
}
use homez.ScrapeQueue.Budget.Outcomes.{
  reconcile_route, add_success, count_success, classified, apply_decision, judge, record_outcome,
}
use homez.ScrapeQueue.Budget.Judged.{judge-Judged}

-- The counts of a new day start at zero.
locked_source_state-new_day :
    (source : Portal) (p : SourceBudgetPolicy) (now : ℕ) (s : SourceState) (db : BudgetDb)
    {out : SourceState × BudgetDb}
    → find (state_key source) db.states ≡ some s
    → s.day_key ≢ day_number now
    → locked_source_state source p now db ≡ ok out
    → (out.0.attempt_count ≡ 0) × (out.0.success_count ≡ 0)
unfolding locked_source_state roll_over
locked_source_state-new_day source p now s db found other done =
    let late : (s.day_key == day_number now) ≡ false = ground arith in
    subst (λ (o : SourceState × BudgetDb). (o.0.attempt_count ≡ 0) × (o.0.success_count ≡ 0))
      (ok-injective (rw (locked_source_state, found) at done)) (rw late (refl, refl))

add_success_unearned :
    (s : SourceState) {s' : SourceState}
    → s.attempt_count ≡ 0
    → s.success_count ≡ 0
    → add_success s ≢ ok s'
unfolding add_success
add_success_unearned s none_yet no_success done = ground arith

count_success-unearned :
    (route : RouteClass) (s : SourceState) {s' : SourceState}
    → s.attempt_count ≡ 0
    → s.success_count ≡ 0
    → count_success success route s ≢ ok s'
unfolding count_success
count_success-unearned route s none_yet no_success done =
    let (_, added, _) = >>=-eq-ok (add_success s) _ done in
    add_success_unearned s none_yet no_success added

-- The first success of a new day is refused if its attempt started the day before: with no start
-- counted on the day of `now`, `record_outcome` of a success raises and leaves the store as it was.
pub record_outcome-midnight :
    (repo : BudgetRepository) (worker : WorkerIdentity) (lease : ScrapeLease)
    (permit : NetworkPermit) (now bytes : ℕ) (retry_after : Option ℕ) (db : BudgetDb)
    (s : SourceState)
    → find (state_key worker.source) db.states ≡ some s
    → s.day_key ≢ day_number now
    → (is_ok
          (record_outcome repo worker lease permit success
            (Datetime.aware now)
            bytes
            retry_after
            db).0
        ≡ false)
      × ((record_outcome repo worker lease permit success
            (Datetime.aware now)
            bytes
            retry_after
            db).1
          ≡ db)
unfolding record_outcome apply_decision
record_outcome-midnight repo worker lease permit now bytes retry_after db s found other =
    commit_refused
      (judge repo worker lease permit success (Datetime.aware now) bytes retry_after db) db
      (λ out done.
        let j =
          judge-Judged repo worker lease permit success now bytes retry_after db {out = out} done in
        let zero =
          locked_source_state-new_day worker.source j.policy now s db found other j.locked in
        let (_, _, h1) =
          >>=-eq-ok
            (reconcile_route repo j.route (classified success bytes j.attempt) bytes now j.store) _
            j.applied in
        let (_, counted, _) = >>=-eq-ok (count_success success j.route j.state) _ h1 in
        count_success-unearned j.route j.state zero.0 zero.1 counted)
