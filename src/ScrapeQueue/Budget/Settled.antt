-- ===== src/ScrapeQueue/Budget/Settled.antt =====
-- The outcomes that scrape_queue/budget.py records keep the limits.
use homez.Prelude.{
  ℕ, ◌+◌, ◌≡◌, subst, false, String, Option, none, some, ok, value_error, lost_lease, >>=-eq-ok,
  guard, guard-eq-ok, ok-injective, find, Option-cases, Bool-cases, inl, inr, leb, arith, Datetime,
  require_aware, insert,
}
use homez.ScrapeQueue.Contracts.{QueuePolicy, Portal, WorkerIdentity, ScrapeLease}
use homez.ScrapeQueue.Records.{Task, Attempt}
use homez.ScrapeQueue.Invariant.{TaskOk}
use homez.Scraper.DenialPolicy.{
  RouteClass, ResponseClassification, RouteDecision, is_proxy, decide_route_outcome,
}
use homez.ScrapeQueue.Budget.Signed.{plus, minus, fits}
use homez.ScrapeQueue.Budget.Records.{
  SourceState, NetworkPermit, BudgetDb, BudgetRepository, usable_bytes, policy_of, route_key,
  quarantine_key, put_state, locked_source_state, locked_proxy_ledger,
}
use homez.ScrapeQueue.Budget.Permits.{validate_lease}
use homez.ScrapeQueue.Budget.Outcomes.{
  retried_task, retried_attempt, route_of, awaits, reconcile, reconcile_route, add_success,
  count_success, is_success, cool, mark_route, quarantine, quarantine_route, classified,
  apply_decision, judge,
}
use homez.ScrapeQueue.Budget.Rows.{validate_lease-TaskOk, retried_task-TaskOk}
use homez.ScrapeQueue.Budget.Limits.{
  StateOk, BudgetOk, put_state-BudgetOk, put_ledger-BudgetOk, put_work-BudgetOk,
  locked_source_state-Locked, locked_proxy_ledger-ok,
}

module _ (policy : QueuePolicy) (repo : BudgetRepository) where
  reconcile-BudgetOk :
      (a : Attempt) (bytes now : ℕ) (db : BudgetDb) {out : Attempt × BudgetDb}
      → BudgetOk policy repo db
      → reconcile repo a bytes now db ≡ ok out
      → BudgetOk policy repo out.1
  unfolding reconcile
  reconcile-BudgetOk a bytes now db {out} h done =
      let ((l, db1), locked, h1) = >>=-eq-ok (locked_proxy_ledger repo now db) _ done in
      let spent = plus (minus l.allocated_bytes a.proxy_reserved_bytes) bytes in
      let (_, room, made) = >>=-eq-ok (guard (fits spent usable_bytes) value_error) _ h1 in
      let (good, kept) = locked_proxy_ledger-ok policy repo now db h locked in
      subst (λ (o : Attempt × BudgetDb). BudgetOk policy repo o.1) (ok-injective made)
        (put_ledger-BudgetOk policy repo
          (record l { transferred_bytes = l.transferred_bytes + bytes; allocated_bytes = spent })
          db1 (guard-eq-ok (fits spent usable_bytes) value_error room) kept)

  reconcile_route-BudgetOk :
      (route : RouteClass) (a : Attempt) (bytes now : ℕ) (db : BudgetDb) {out : Attempt × BudgetDb}
      → BudgetOk policy repo db
      → reconcile_route repo route a bytes now db ≡ ok out
      → BudgetOk policy repo out.1
  reconcile_route-BudgetOk RouteClass.proxy a bytes now db h done =
      reconcile-BudgetOk a bytes now db h done
  reconcile_route-BudgetOk RouteClass.direct a bytes now db h done =
      subst (λ (o : Attempt × BudgetDb). BudgetOk policy repo o.1) (ok-injective done) h

  pub add_success-StateOk :
      (s : SourceState) {s' : SourceState}
      → StateOk repo s
      → add_success s ≡ ok s'
      → StateOk repo s'
  unfolding add_success
  add_success-StateOk s {s'} h done = elim (Bool-cases (leb s.attempt_count s.success_count)) [
    | inl spent ↦ absurd (ground arith)
    | inr earned ↦
        subst (StateOk repo) (ok-injective (rw (add_success, earned) at done))
          (record { earned = ground arith; bounded = h.bounded })
  ]

  count_success-StateOk :
      (c : ResponseClassification) (route : RouteClass) (s : SourceState) {s' : SourceState}
      → StateOk repo s
      → count_success c route s ≡ ok s'
      → StateOk repo s'
  unfolding count_success
  count_success-StateOk c route s h done = elim (Bool-cases (is_success c)) [
    | inl good ↦
        let (s1, added, made) = >>=-eq-ok (add_success s) _ (rw (count_success, good) at done) in
        let h1 = add_success-StateOk s h added in
        elim (Bool-cases (is_proxy route)) [
          | inl by_proxy ↦ subst (StateOk repo) (ok-injective (rw by_proxy at made)) h1
          | inr by_self ↦
              subst (StateOk repo) (ok-injective (rw by_self at made))
                (record { earned = h1.earned; bounded = h1.bounded })
        ]
    | inr bad ↦ subst (StateOk repo) (ok-injective (rw (count_success, bad) at done)) h
  ]

  cool-StateOk :
      (d : RouteDecision) (now : ℕ) (s : SourceState) → StateOk repo s → StateOk repo (cool d now s)
  cool-StateOk d now s h =
      elim d.source_cooldown_until
        as (λ o. StateOk repo (cool (record d { source_cooldown_until = o }) now s)) [
          | none ↦ h
          | some until ↦ record { earned = h.earned; bounded = h.bounded }
        ]

  mark_route-BudgetOk :
      (d : RouteDecision) (route : Option String) (now : ℕ) (db : BudgetDb)
      → BudgetOk policy repo db
      → BudgetOk policy repo (mark_route d route now db)
  mark_route-BudgetOk d none now db h = h
  mark_route-BudgetOk d (some id) now db h = elim (Bool-cases d.mark_proxy_unhealthy) [
    | inl marked ↦ elim (Option-cases (find (route_key id) db.routes)) [
      | inl unknown ↦ rw (marked, unknown) h
      | inr (r, found) ↦
          rw (marked, found) (record { states = h.states; ledgers = h.ledgers; queue = h.queue })
    ]
    | inr fine ↦ rw fine h
  ]

  quarantine_route-BudgetOk :
      (d : RouteDecision) (route : Option String) (source : Portal) (now : ℕ) (db : BudgetDb)
      {db' : BudgetDb}
      → BudgetOk policy repo db
      → quarantine_route d route source now db ≡ ok db'
      → BudgetOk policy repo db'
  unfolding quarantine
  quarantine_route-BudgetOk d none source now db h done =
      subst (BudgetOk policy repo) (ok-injective done) h
  quarantine_route-BudgetOk d (some id) source now db {db'} h done =
      elim (Bool-cases d.quarantine_proxy_source) [
        | inl kept ↦ elim (Option-cases (find (quarantine_key id source) db.quarantines)) [
          | inl fresh ↦
              let (rows, added, made) =
                >>=-eq-ok (insert (quarantine_key id source) _ db.quarantines) _
                  (rw (quarantine_route, quarantine, kept, fresh) at done) in
              subst (BudgetOk policy repo) (ok-injective made)
                (record { states = h.states; ledgers = h.ledgers; queue = h.queue })
          | inr (q, found) ↦
              subst (BudgetOk policy repo)
                (ok-injective (rw (quarantine_route, quarantine, kept, found) at done))
                (record { states = h.states; ledgers = h.ledgers; queue = h.queue })
        ]
        | inr free ↦
            subst (BudgetOk policy repo) (ok-injective (rw (quarantine_route, free) at done)) h
      ]

  apply_decision-BudgetOk :
      (source : Portal) (route : RouteClass) (permit : NetworkPermit) (c : ResponseClassification)
      (d : RouteDecision) (bytes now : ℕ) (t : Task) (a : Attempt) (s : SourceState) (db : BudgetDb)
      {out : RouteDecision × BudgetDb}
      → TaskOk policy t
      → StateOk repo s
      → BudgetOk policy repo db
      → apply_decision repo source route permit c d bytes now t a s db ≡ ok out
      → BudgetOk policy repo out.1
  unfolding apply_decision
  apply_decision-BudgetOk source route permit c d bytes now t a s db {out} row state h done =
      let ((a1, db1), paid, h1) =
        >>=-eq-ok (reconcile_route repo route (classified c bytes a) bytes now db) _ done in
      let kept = reconcile_route-BudgetOk route (classified c bytes a) bytes now db h paid in
      let (s1, counted, h2) = >>=-eq-ok (count_success c route s) _ h1 in
      let good = cool-StateOk d now s1 (count_success-StateOk c route s state counted) in
      let db2 = put_state (cool d now s1) db1 in
      let stored = put_state-BudgetOk policy repo (cool d now s1) db1 good kept in
      let marked = mark_route-BudgetOk d permit.route_id now db2 stored in
      let (db4, held, made) =
        >>=-eq-ok
          (quarantine_route d permit.route_id source now (mark_route d permit.route_id now db2)) _
          h2 in
      let last =
        quarantine_route-BudgetOk d permit.route_id source now
          (mark_route d permit.route_id now db2) marked held in
      subst (λ (o : RouteDecision × BudgetDb). BudgetOk policy repo o.1) (ok-injective made)
        (put_work-BudgetOk policy repo (retried_task d t) (retried_attempt d now a1) db4
          (retried_task-TaskOk policy d t row) last)

  pub judge-BudgetOk :
      (worker : WorkerIdentity) (lease : ScrapeLease) (permit : NetworkPermit)
      (c : ResponseClassification) (supplied : Datetime) (bytes : ℕ) (retry_after : Option ℕ)
      (db : BudgetDb) {out : RouteDecision × BudgetDb}
      → BudgetOk policy repo db
      → judge repo worker lease permit c supplied bytes retry_after db ≡ ok out
      → BudgetOk policy repo out.1
  unfolding judge
  judge-BudgetOk worker lease permit c supplied bytes retry_after db {out} h done =
      let (now, _, h1) = >>=-eq-ok (require_aware supplied) _ done in
      let (_, _, h2) = >>=-eq-ok (guard permit.granted value_error) _ h1 in
      let (route, _, h3) = >>=-eq-ok (route_of permit.route_class) _ h2 in
      let (_, _, h4) = >>=-eq-ok (guard (leb bytes 2000000) value_error) _ h3 in
      let (p, known, h5) = >>=-eq-ok (policy_of repo worker.source) _ h4 in
      let ((t, a), valid, h6) = >>=-eq-ok (validate_lease db.queue worker lease now) _ h5 in
      let (_, _, h7) = >>=-eq-ok (guard (awaits a route permit) lost_lease) _ h6 in
      let ((s, db1), locked, h8) = >>=-eq-ok (locked_source_state worker.source p now db) _ h7 in
      let l = locked_source_state-Locked policy repo worker.source p now db h locked in
      let (d, _, h9) =
        >>=-eq-ok
          (decide_route_outcome route c (Datetime.aware now) false s.direct_denial_count
            retry_after)
          _ h8 in
      apply_decision-BudgetOk worker.source route permit c d bytes now t a s db1
        (validate_lease-TaskOk policy db.queue worker lease now h.queue valid) l.state l.store h9
