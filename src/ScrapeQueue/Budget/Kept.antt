-- ===== src/ScrapeQueue/Budget/Kept.antt =====
-- Every operation of scrape_queue/budget.py keeps the limits.
use homez.Prelude.{
  ℕ, ◌+◌, ◌≤◌, ◌<◌, ◌≡◌, sym, ◌∙◌, subst, false, not, ◌&&◌, String, Option, none, some, ok,
  value_error, >>=-eq-ok, guard, ok-injective, Bool-cases, inl, inr, leb, arith, Datetime,
  require_aware,
}
use homez.ScrapeQueue.Contracts.{QueuePolicy, Portal, WorkerIdentity, ScrapeLease}
use homez.ScrapeQueue.Records.{Task, Attempt}
use homez.ScrapeQueue.Invariant.{TaskOk}
use homez.ScrapeQueue.Budget.Signed.{plus, fits}
use homez.ScrapeQueue.Budget.Records.{
  SourceState, ProxyLedger, ProxyRoute, SourceBudgetPolicy, NetworkPermit, BudgetDb,
  BudgetRepository, usable_bytes, policy_of, put_state, locked_source_state, locked_proxy_ledger,
}
use homez.ScrapeQueue.Budget.Permits.{
  validate_lease, is_unassigned, is_refused, free_route, take_bytes, choose_route, started_state,
  started_task, started_attempt, start, reserve,
}
use homez.ScrapeQueue.Budget.Rows.{validate_lease-TaskOk, started_task-TaskOk}
use homez.ScrapeQueue.Budget.Limits.{
  StateOk, LedgerOk, BudgetOk, put_state-BudgetOk, put_ledger-BudgetOk, put_work-BudgetOk,
  locked_source_state-Locked, locked_proxy_ledger-ok,
}

module _ (policy : QueuePolicy) (repo : BudgetRepository) where
  take_bytes-BudgetOk :
      (r : Option ProxyRoute) (l : ProxyLedger) (bytes : ℕ) (db : BudgetDb)
      → LedgerOk l
      → BudgetOk policy repo db
      → BudgetOk policy repo (take_bytes r l bytes db).1
  take_bytes-BudgetOk none l bytes db good h = h
  take_bytes-BudgetOk (some r) l bytes db good h =
      elim (Bool-cases (fits (plus l.allocated_bytes bytes) usable_bytes)) [
        | inl room ↦ rw room (
            put_ledger-BudgetOk policy repo
              (record l { allocated_bytes = plus l.allocated_bytes bytes }) db room h)
        | inr full ↦ rw full h
      ]

  choose_route-BudgetOk :
      (source : Portal) (t : Task) (bytes now : ℕ) (db : BudgetDb)
      {out : (Option String × ℕ) × BudgetDb}
      → BudgetOk policy repo db
      → choose_route repo source t bytes now db ≡ ok out
      → BudgetOk policy repo out.1
  unfolding choose_route
  choose_route-BudgetOk source t bytes now db {out} h done =
      elim (Bool-cases (leb 1 bytes && not t.direct_fallback_pending)) [
        | inl asked ↦
            let ((l, db1), locked, made) =
              >>=-eq-ok (locked_proxy_ledger repo now db) _ (rw (choose_route, asked) at done) in
            let (good, kept) = locked_proxy_ledger-ok policy repo now db h locked in
            subst (λ (o : (Option String × ℕ) × BudgetDb). BudgetOk policy repo o.1)
              (ok-injective made)
              (take_bytes-BudgetOk (free_route repo db1 source now) l bytes db1 good kept)
        | inr plain ↦
            subst (λ (o : (Option String × ℕ) × BudgetDb). BudgetOk policy repo o.1)
              (ok-injective (rw (choose_route, plain) at done)) h
      ]

  started_state-StateOk :
      (source : Portal) (p : SourceBudgetPolicy) (s : SourceState) (t : Task) (now : ℕ)
      → policy_of repo source ≡ ok p
      → s.source ≡ source
      → is_refused p s t now ≡ false
      → StateOk repo s
      → StateOk repo (started_state p now s)
  unfolding is_refused
  started_state-StateOk source p s t now known own free h =
      let room : s.attempt_count < p.daily_attempt_limit = ground arith in
      let earned = h.earned in
      record {
        earned = omega arith;
        bounded = λ q e.
            let same : p ≡ q = ok-injective (sym (rw own known) ∙ e) in
            subst (λ (r : SourceBudgetPolicy). s.attempt_count + 1 ≤ r.daily_attempt_limit) same
              (omega arith);
      }

  start-BudgetOk :
      (p : SourceBudgetPolicy) (source : Portal) (t : Task) (a : Attempt) (bytes now : ℕ)
      (db : BudgetDb) {out : NetworkPermit × BudgetDb}
      → policy_of repo source ≡ ok p
      → TaskOk policy t
      → BudgetOk policy repo db
      → start repo p source t a bytes now db ≡ ok out
      → BudgetOk policy repo out.1
  unfolding start
  start-BudgetOk p source t a bytes now db {out} known row h done =
      let ((s, db1), locked, rest) = >>=-eq-ok (locked_source_state source p now db) _ done in
      let l = locked_source_state-Locked policy repo source p now db h locked in
      elim (Bool-cases (is_refused p s t now)) [
        | inl refused ↦
            subst (λ (o : NetworkPermit × BudgetDb). BudgetOk policy repo o.1)
              (ok-injective (rw refused at rest)) l.store
        | inr free ↦
            let ((route, db2), chosen, made) =
              >>=-eq-ok (choose_route repo source t bytes now db1) _ (rw free at rest) in
            let kept = choose_route-BudgetOk source t bytes now db1 l.store chosen in
            let more =
              put_state-BudgetOk policy repo (started_state p now s) db2
                (started_state-StateOk source p s t now known l.source free l.state) kept in
            subst (λ (o : NetworkPermit × BudgetDb). BudgetOk policy repo o.1) (ok-injective made)
              (put_work-BudgetOk policy repo (started_task t) (started_attempt route now a)
                (put_state (started_state p now s) db2) (started_task-TaskOk policy t row) more)
      ]

  pub reserve-BudgetOk :
      (worker : WorkerIdentity) (lease : ScrapeLease) (supplied : Datetime) (bytes : ℕ)
      (db : BudgetDb) {out : NetworkPermit × BudgetDb}
      → BudgetOk policy repo db
      → reserve repo worker lease supplied bytes db ≡ ok out
      → BudgetOk policy repo out.1
  unfolding reserve
  reserve-BudgetOk worker lease supplied bytes db {out} h done =
      let (now, _, h1) = >>=-eq-ok (require_aware supplied) _ done in
      let (_, _, h2) = >>=-eq-ok (guard (leb bytes 2000000) value_error) _ h1 in
      let (p, known, h3) = >>=-eq-ok (policy_of repo worker.source) _ h2 in
      let ((t, a), valid, h4) = >>=-eq-ok (validate_lease db.queue worker lease now) _ h3 in
      elim (Bool-cases (is_unassigned a.route_class)) [
        | inl new ↦
            start-BudgetOk p worker.source t a bytes now db known
              (validate_lease-TaskOk policy db.queue worker lease now h.queue valid) h
              (rw new at h4)
        | inr held ↦
            subst (λ (o : NetworkPermit × BudgetDb). BudgetOk policy repo o.1)
              (ok-injective (rw held at h4)) h
      ]
