-- ===== src/ScrapeQueue/Budget/Frames.antt =====
-- What the parts of scrape_queue/budget.py leave alone.
use homez.Prelude.{
  ℕ, ◌≡◌, refl, ◌∙◌, subst, true, not, ◌&&◌, String, Option, none, some, ok, value_error, >>=-eq-ok,
  guard, ok-injective, find, insert, Option-cases, Bool-cases, inl, inr, leb, arith,
}
use homez.ScrapeQueue.Contracts.{Portal, portal_eq}
use homez.ScrapeQueue.Records.{Task, Attempt}
use homez.Scraper.DenialPolicy.{RouteClass, RouteDecision}
use homez.ScrapeQueue.Budget.Calendar.{Date, billing_cycle}
use homez.ScrapeQueue.Budget.Signed.{plus, minus, fits}
use homez.ScrapeQueue.Budget.Records.{
  SourceState, ProxyLedger, ProxyRoute, SourceBudgetPolicy, BudgetDb, BudgetRepository,
  usable_bytes, state_key, ledger_key, route_key, quarantine_key, fresh_state, empty_ledger,
  locked_source_state, locked_ledger, locked_proxy_ledger,
}
use homez.ScrapeQueue.Budget.Permits.{take_bytes, choose_route, free_route}
use homez.ScrapeQueue.Budget.Outcomes.{
  reconcile, reconcile_route, mark_route, quarantine, quarantine_route,
}

-- The queue and the sources are the same.
pub record Same (a b : BudgetDb) : Type 0 where
  pub queue : a.queue ≡ b.queue
  pub states : a.states ≡ b.states

pub Same-trans : (a b c : BudgetDb) → Same a b → Same b c → Same a c
Same-trans a b c h k = record { queue = h.queue ∙ k.queue; states = h.states ∙ k.states }

pub portal_eq_refl : (a : Portal) → portal_eq a a ≡ true
portal_eq_refl a = ground arith

locked_ledger-Same :
    (cycle : Date) (db : BudgetDb) {out : ProxyLedger × BudgetDb}
    → locked_ledger cycle db ≡ ok out
    → Same out.1 db
unfolding locked_ledger
locked_ledger-Same cycle db done = elim (Option-cases (find (ledger_key cycle) db.ledgers)) [
  | inl empty ↦
      let (ledgers, added, made) =
        >>=-eq-ok (insert (ledger_key cycle) (empty_ledger cycle) db.ledgers) _
          (rw (locked_ledger, empty) at done) in
      subst (λ (o : ProxyLedger × BudgetDb). Same o.1 db) (ok-injective made)
        (record { queue = refl; states = refl })
  | inr (l, found) ↦
      subst (λ (o : ProxyLedger × BudgetDb). Same o.1 db)
        (ok-injective (rw (locked_ledger, found) at done)) (record { queue = refl; states = refl })
]

pub locked_proxy_ledger-Same :
    (repo : BudgetRepository) (now : ℕ) (db : BudgetDb) {out : ProxyLedger × BudgetDb}
    → locked_proxy_ledger repo now db ≡ ok out
    → Same out.1 db
unfolding locked_proxy_ledger
locked_proxy_ledger-Same repo now db done =
    locked_ledger-Same (billing_cycle repo.billing_cycle_anchor_day now) db done

take_bytes-Same :
    (r : Option ProxyRoute) (l : ProxyLedger) (bytes : ℕ) (db : BudgetDb)
    → Same (take_bytes r l bytes db).1 db
take_bytes-Same none l bytes db = record { queue = refl; states = refl }
take_bytes-Same (some r) l bytes db =
    elim (Bool-cases (fits (plus l.allocated_bytes bytes) usable_bytes)) [
      | inl room ↦ rw room (record { queue = refl; states = refl })
      | inr full ↦ rw full (record { queue = refl; states = refl })
    ]

pub choose_route-Same :
    (repo : BudgetRepository) (source : Portal) (t : Task) (bytes now : ℕ) (db : BudgetDb)
    {out : (Option String × ℕ) × BudgetDb}
    → choose_route repo source t bytes now db ≡ ok out
    → Same out.1 db
unfolding choose_route
choose_route-Same repo source t bytes now db done =
    elim (Bool-cases (leb 1 bytes && not t.direct_fallback_pending)) [
      | inl asked ↦
          let ((l, db1), locked, made) =
            >>=-eq-ok (locked_proxy_ledger repo now db) _ (rw (choose_route, asked) at done) in
          subst (λ (o : (Option String × ℕ) × BudgetDb). Same o.1 db) (ok-injective made)
            (Same-trans (take_bytes (free_route repo db1 source now) l bytes db1).1 db1 db
              (take_bytes-Same (free_route repo db1 source now) l bytes db1)
              (locked_proxy_ledger-Same repo now db locked))
      | inr plain ↦
          subst (λ (o : (Option String × ℕ) × BudgetDb). Same o.1 db)
            (ok-injective (rw (choose_route, plain) at done))
            (record { queue = refl; states = refl })
    ]

pub reconcile_route-Same :
    (repo : BudgetRepository) (route : RouteClass) (a : Attempt) (bytes now : ℕ) (db : BudgetDb)
    {out : Attempt × BudgetDb}
    → reconcile_route repo route a bytes now db ≡ ok out
    → Same out.1 db
unfolding reconcile
reconcile_route-Same repo RouteClass.direct a bytes now db done =
    subst (λ (o : Attempt × BudgetDb). Same o.1 db) (ok-injective done)
      (record { queue = refl; states = refl })
reconcile_route-Same repo RouteClass.proxy a bytes now db done =
    let ((l, db1), locked, h1) = >>=-eq-ok (locked_proxy_ledger repo now db) _ done in
    let (_, _, made) =
      >>=-eq-ok
        (guard (fits (plus (minus l.allocated_bytes a.proxy_reserved_bytes) bytes) usable_bytes)
          value_error)
        _ h1 in
    let same = locked_proxy_ledger-Same repo now db locked in
    subst (λ (o : Attempt × BudgetDb). Same o.1 db) (ok-injective made)
      (record { queue = same.queue; states = same.states })

pub mark_route-Same :
    (d : RouteDecision) (route : Option String) (now : ℕ) (db : BudgetDb)
    → Same (mark_route d route now db) db
mark_route-Same d none now db = record { queue = refl; states = refl }
mark_route-Same d (some id) now db = elim (Bool-cases d.mark_proxy_unhealthy) [
  | inl marked ↦ elim (Option-cases (find (route_key id) db.routes)) [
    | inl unknown ↦ rw (marked, unknown) (record { queue = refl; states = refl })
    | inr (r, found) ↦ rw (marked, found) (record { queue = refl; states = refl })
  ]
  | inr fine ↦ rw fine (record { queue = refl; states = refl })
]

pub quarantine_route-Same :
    (d : RouteDecision) (route : Option String) (source : Portal) (now : ℕ) (db : BudgetDb)
    {db' : BudgetDb}
    → quarantine_route d route source now db ≡ ok db'
    → Same db' db
unfolding quarantine
quarantine_route-Same d none source now db done =
    subst (λ o. Same o db) (ok-injective done) (record { queue = refl; states = refl })
quarantine_route-Same d (some id) source now db done = elim (Bool-cases d.quarantine_proxy_source) [
  | inl kept ↦ elim (Option-cases (find (quarantine_key id source) db.quarantines)) [
    | inl fresh ↦
        let (rows, added, made) =
          >>=-eq-ok (insert (quarantine_key id source) _ db.quarantines) _
            (rw (quarantine_route, quarantine, kept, fresh) at done) in
        subst (λ o. Same o db) (ok-injective made) (record { queue = refl; states = refl })
    | inr (q, found) ↦
        subst (λ o. Same o db)
          (ok-injective (rw (quarantine_route, quarantine, kept, found) at done))
          (record { queue = refl; states = refl })
  ]
  | inr free ↦
      subst (λ o. Same o db) (ok-injective (rw (quarantine_route, free) at done))
        (record { queue = refl; states = refl })
]

pub locked_source_state-queue :
    (source : Portal) (p : SourceBudgetPolicy) (now : ℕ) (db : BudgetDb)
    {out : SourceState × BudgetDb}
    → locked_source_state source p now db ≡ ok out
    → out.1.queue ≡ db.queue
unfolding locked_source_state
locked_source_state-queue source p now db done =
    elim (Option-cases (find (state_key source) db.states)) [
      | inl empty ↦
          let (states, added, made) =
            >>=-eq-ok (insert (state_key source) (fresh_state source p now) db.states) _
              (rw (locked_source_state, empty) at done) in
          subst (λ (o : SourceState × BudgetDb). o.1.queue ≡ db.queue) (ok-injective made) refl
      | inr (s, found) ↦
          subst (λ (o : SourceState × BudgetDb). o.1.queue ≡ db.queue)
            (ok-injective (rw (locked_source_state, found) at done)) refl
    ]
