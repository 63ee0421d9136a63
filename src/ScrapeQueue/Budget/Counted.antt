-- ===== src/ScrapeQueue/Budget/Counted.antt =====
-- The successes, routes and bytes that scrape_queue/budget.py counts keep the limits.
use homez.Prelude.{
  ℕ, ◌+◌, ◌≡◌, subst, ◌&&◌, String, ok, value_error, >>=-eq-ok, guard, guard-eq-ok, ok-injective,
  find, Option-cases, leb→le, inl, inr, leb, Datetime, require_aware, insert, is_some,
}
use homez.Prelude.Chars.{count_chars}
use homez.ScrapeQueue.Contracts.{QueuePolicy, Portal}
use homez.ScrapeQueue.Budget.Signed.{at_least, at_least-fits}
use homez.ScrapeQueue.Budget.Records.{
  SourceState, ProxyLedger, BudgetDb, BudgetRepository, usable_bytes, policy_of, route_key,
  locked_source_state, locked_proxy_ledger,
}
use homez.ScrapeQueue.Budget.Outcomes.{add_success}
use homez.ScrapeQueue.Budget.Accounts.{record_one, add_route, add_bytes, source_row, ledger_row}
use homez.ScrapeQueue.Budget.Limits.{
  BudgetOk, put_state-BudgetOk, put_ledger-BudgetOk, locked_source_state-Locked,
  locked_proxy_ledger-ok,
}
use homez.ScrapeQueue.Budget.Settled.{add_success-StateOk}

module _ (policy : QueuePolicy) (repo : BudgetRepository) where
  pub record_one-BudgetOk :
      (source : Portal) (supplied : Datetime) (db : BudgetDb) {out : Unit {0} × BudgetDb}
      → BudgetOk policy repo db
      → record_one repo source supplied db ≡ ok out
      → BudgetOk policy repo out.1
  unfolding record_one
  record_one-BudgetOk source supplied db h done =
      let (now, _, h1) = >>=-eq-ok (require_aware supplied) _ done in
      let (p, _, h2) = >>=-eq-ok (policy_of repo source) _ h1 in
      let ((s, db1), locked, h3) = >>=-eq-ok (locked_source_state source p now db) _ h2 in
      let (s', added, made) = >>=-eq-ok (add_success s) _ h3 in
      let l = locked_source_state-Locked policy repo source p now db h locked in
      subst (λ (o : Unit {0} × BudgetDb). BudgetOk policy repo o.1) (ok-injective made)
        (put_state-BudgetOk policy repo s' db1 (add_success-StateOk policy repo s l.state added)
          l.store)

  pub add_route-BudgetOk :
      (id : String) (supplied : Datetime) (db : BudgetDb) {out : Unit {0} × BudgetDb}
      → BudgetOk policy repo db
      → add_route id supplied db ≡ ok out
      → BudgetOk policy repo out.1
  unfolding add_route
  add_route-BudgetOk id supplied db h done =
      let (now, _, h1) = >>=-eq-ok (require_aware supplied) _ done in
      let (_, _, h2) =
        >>=-eq-ok (guard (leb 1 (count_chars id) && leb (count_chars id) 64) value_error) _ h1 in
      elim (Option-cases (find (route_key id) db.routes)) [
        | inl fresh ↦
            let (rows, _, made) =
              >>=-eq-ok (insert (route_key id) _ db.routes) _ (rw fresh at h2) in
            subst (λ (o : Unit {0} × BudgetDb). BudgetOk policy repo o.1) (ok-injective made)
              (record { states = h.states; ledgers = h.ledgers; queue = h.queue })
        | inr (r, found) ↦
            subst (λ (o : Unit {0} × BudgetDb). BudgetOk policy repo o.1)
              (ok-injective (rw found at h2))
              (record { states = h.states; ledgers = h.ledgers; queue = h.queue })
      ]

  pub add_bytes-BudgetOk :
      (id : String) (bytes : ℕ) (supplied : Datetime) (db : BudgetDb) {out : Unit {0} × BudgetDb}
      → BudgetOk policy repo db
      → add_bytes repo id bytes supplied db ≡ ok out
      → BudgetOk policy repo out.1
  unfolding add_bytes
  add_bytes-BudgetOk id bytes supplied db h done =
      let (now, _, h1) = >>=-eq-ok (require_aware supplied) _ done in
      let (_, _, h2) = >>=-eq-ok (guard (leb bytes usable_bytes) value_error) _ h1 in
      let (_, _, h3) =
        >>=-eq-ok (guard (is_some (find (route_key id) db.routes)) value_error) _ h2 in
      let ((l, db1), locked, h4) = >>=-eq-ok (locked_proxy_ledger repo now db) _ h3 in
      let total = l.transferred_bytes + bytes in
      let (_, room, made) = >>=-eq-ok (guard (leb total usable_bytes) value_error) _ h4 in
      let (good, kept) = locked_proxy_ledger-ok policy repo now db h locked in
      let small =
        leb→le total usable_bytes (guard-eq-ok (leb total usable_bytes) value_error room) in
      subst (λ (o : Unit {0} × BudgetDb). BudgetOk policy repo o.1) (ok-injective made)
        (put_ledger-BudgetOk policy repo
          (record l {
            transferred_bytes = total;
            allocated_bytes = at_least l.allocated_bytes total;
          })
          db1 (at_least-fits l.allocated_bytes total usable_bytes good small) kept)

  pub source_row-BudgetOk :
      (source : Portal) (supplied : Datetime) (db : BudgetDb) {out : SourceState × BudgetDb}
      → BudgetOk policy repo db
      → source_row repo source supplied db ≡ ok out
      → BudgetOk policy repo out.1
  unfolding source_row
  source_row-BudgetOk source supplied db h done =
      let (now, _, h1) = >>=-eq-ok (require_aware supplied) _ done in
      let (p, _, h2) = >>=-eq-ok (policy_of repo source) _ h1 in
      (locked_source_state-Locked policy repo source p now db h h2).store

  pub ledger_row-BudgetOk :
      (supplied : Datetime) (db : BudgetDb) {out : ProxyLedger × BudgetDb}
      → BudgetOk policy repo db
      → ledger_row repo supplied db ≡ ok out
      → BudgetOk policy repo out.1
  unfolding ledger_row
  ledger_row-BudgetOk supplied db h done =
      let (now, _, h1) = >>=-eq-ok (require_aware supplied) _ done in
      (locked_proxy_ledger-ok policy repo now db h h1).1
