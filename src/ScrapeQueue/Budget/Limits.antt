-- ===== src/ScrapeQueue/Budget/Limits.antt =====
-- The limits that scrape_queue/budget.py keeps: a portal's daily counts and the proxy's allowance.
use homez.Prelude.{
  ℕ, ◌≤◌, ◌≡◌, refl, subst, true, ok, >>=-eq-ok, ok-injective, All, All-replace, All-insert,
  find-All, find-holds, find, Option-cases, Bool-cases, inl, inr, arith, ◌==◌, insert,
}
use homez.ScrapeQueue.Contracts.{QueuePolicy, Portal, portal_eq, gratka, morizon, otodom, olx}
use homez.ScrapeQueue.Records.{Task, Attempt}
use homez.ScrapeQueue.Invariant.{TaskOk, DbOk, put_task-DbOk}
use homez.ScrapeQueue.Budget.Calendar.{Date, billing_cycle, day_number}
use homez.ScrapeQueue.Budget.Signed.{fits}
use homez.ScrapeQueue.Budget.Records.{
  SourceState, ProxyLedger, SourceBudgetPolicy, BudgetDb, BudgetRepository, usable_bytes, policy_of,
  put_work, state_key, ledger_key, put_state, put_ledger, fresh_state, roll_over,
  locked_source_state, locked_ledger, empty_ledger, locked_proxy_ledger,
}

-- A source had no more successes than starts, and no more starts than its policy allows a day.
pub record StateOk (repo : BudgetRepository) (s : SourceState) : Type 0 where
  pub earned : s.success_count ≤ s.attempt_count
  pub bounded :
      (p : SourceBudgetPolicy)
      → policy_of repo s.source ≡ ok p
      → s.attempt_count ≤ p.daily_attempt_limit

abbrev pub LedgerOk : ProxyLedger → Type 0
LedgerOk l = fits l.allocated_bytes usable_bytes ≡ true

pub record BudgetOk (policy : QueuePolicy) (repo : BudgetRepository) (db : BudgetDb) : Type 0 where
  pub states : All (StateOk repo) db.states
  pub ledgers : All LedgerOk db.ledgers
  pub queue : DbOk policy db.queue

pub portal_eq→≡ : (a b : Portal) → portal_eq a b ≡ true → a ≡ b
portal_eq→≡ gratka gratka h = refl
portal_eq→≡ morizon morizon h = refl
portal_eq→≡ otodom otodom h = refl
portal_eq→≡ olx olx h = refl
portal_eq→≡ a b h = cc

fresh_state-StateOk :
    (repo : BudgetRepository) (source : Portal) (p : SourceBudgetPolicy) (now : ℕ)
    → StateOk repo (fresh_state source p now)
fresh_state-StateOk repo source p now = record {
  earned = omega arith;
  bounded = λ q h. omega arith;
}

roll_over-StateOk :
    (repo : BudgetRepository) (p : SourceBudgetPolicy) (now : ℕ) (s : SourceState)
    → StateOk repo s
    → StateOk repo (roll_over p now s)
unfolding roll_over
roll_over-StateOk repo p now s h = elim (Bool-cases (s.day_key == day_number now)) [
  | inl same ↦ rw same (record { earned = h.earned; bounded = h.bounded })
  | inr other ↦ rw other (record { earned = omega arith; bounded = λ q e. omega arith })
]

roll_over-source :
    (p : SourceBudgetPolicy) (now : ℕ) (s : SourceState) → (roll_over p now s).source ≡ s.source
unfolding roll_over
roll_over-source p now s = ground arith

pub put_state-BudgetOk :
    (policy : QueuePolicy) (repo : BudgetRepository) (s : SourceState) (db : BudgetDb)
    → StateOk repo s
    → BudgetOk policy repo db
    → BudgetOk policy repo (put_state s db)
put_state-BudgetOk policy repo s db good h = record {
  states = All-replace (StateOk repo) (state_key s.source) s db.states good h.states;
  ledgers = h.ledgers;
  queue = h.queue;
}

pub put_ledger-BudgetOk :
    (policy : QueuePolicy) (repo : BudgetRepository) (l : ProxyLedger) (db : BudgetDb)
    → LedgerOk l
    → BudgetOk policy repo db
    → BudgetOk policy repo (put_ledger l db)
put_ledger-BudgetOk policy repo l db good h = record {
  states = h.states;
  ledgers = All-replace LedgerOk (ledger_key l.billing_cycle) l db.ledgers good h.ledgers;
  queue = h.queue;
}

pub put_work-BudgetOk :
    (policy : QueuePolicy) (repo : BudgetRepository) (t : Task) (a : Attempt) (db : BudgetDb)
    → TaskOk policy t
    → BudgetOk policy repo db
    → BudgetOk policy repo (put_work t a db)
put_work-BudgetOk policy repo t a db good h =
    let kept = put_task-DbOk policy t db.queue good h.queue in
    record {
      states = h.states;
      ledgers = h.ledgers;
      queue = record { unique = kept.unique; rows = kept.rows };
    }

-- What `_locked_source_state` gives: a row of the source, in a store with the invariant.
pub record Locked (policy : QueuePolicy) (repo : BudgetRepository) (of : Portal)
    (out : SourceState × BudgetDb) : Type 0 where
  pub source : out.0.source ≡ of
  pub state : StateOk repo out.0
  pub store : BudgetOk policy repo out.1

pub locked_source_state-Locked :
    (policy : QueuePolicy) (repo : BudgetRepository) (source : Portal) (p : SourceBudgetPolicy)
    (now : ℕ) (db : BudgetDb) {out : SourceState × BudgetDb}
    → BudgetOk policy repo db
    → locked_source_state source p now db ≡ ok out
    → Locked policy repo source out
unfolding locked_source_state
locked_source_state-Locked policy repo source p now db h done =
    elim (Option-cases (find (state_key source) db.states)) [
      | inl empty ↦
          let (states, added, made) =
            >>=-eq-ok (insert (state_key source) (fresh_state source p now) db.states) _
              (rw (locked_source_state, empty) at done) in
          subst (Locked policy repo source) (ok-injective made) (record {
            source = refl;
            state = fresh_state-StateOk repo source p now;
            store = record {
              states =
                  All-insert (StateOk repo) (state_key source) (fresh_state source p now) db.states
                    states added (fresh_state-StateOk repo source p now) h.states;
              ledgers = h.ledgers;
              queue = h.queue;
            };
          })
      | inr (s, found) ↦
          let good =
            roll_over-StateOk repo p now s
              (find-All (StateOk repo) (state_key source) db.states h.states found) in
          let own : s.source ≡ source =
            portal_eq→≡ s.source source (find-holds (state_key source) db.states found) in
          subst (Locked policy repo source) (ok-injective (rw (locked_source_state, found) at done))
            (record {
              source = rw (roll_over-source p now s) own;
              state = good;
              store = put_state-BudgetOk policy repo (roll_over p now s) db good h;
            })
    ]

locked_ledger-ok :
    (policy : QueuePolicy) (repo : BudgetRepository) (cycle : Date) (db : BudgetDb)
    {out : ProxyLedger × BudgetDb}
    → BudgetOk policy repo db
    → locked_ledger cycle db ≡ ok out
    → LedgerOk out.0 × BudgetOk policy repo out.1
unfolding locked_ledger
locked_ledger-ok policy repo cycle db h done =
    elim (Option-cases (find (ledger_key cycle) db.ledgers)) [
      | inl empty ↦
          let (ledgers, added, made) =
            >>=-eq-ok (insert (ledger_key cycle) (empty_ledger cycle) db.ledgers) _
              (rw (locked_ledger, empty) at done) in
          subst (λ (o : ProxyLedger × BudgetDb). LedgerOk o.0 × BudgetOk policy repo o.1)
            (ok-injective made)
            (
              refl,
              record {
                states = h.states;
                ledgers =
                    All-insert LedgerOk (ledger_key cycle) (empty_ledger cycle) db.ledgers ledgers
                      added refl h.ledgers;
                queue = h.queue;
              },
            )
      | inr (l, found) ↦
          subst (λ (o : ProxyLedger × BudgetDb). LedgerOk o.0 × BudgetOk policy repo o.1)
            (ok-injective (rw (locked_ledger, found) at done))
            (find-All LedgerOk (ledger_key cycle) db.ledgers h.ledgers found, h)
    ]

pub locked_proxy_ledger-ok :
    (policy : QueuePolicy) (repo : BudgetRepository) (now : ℕ) (db : BudgetDb)
    {out : ProxyLedger × BudgetDb}
    → BudgetOk policy repo db
    → locked_proxy_ledger repo now db ≡ ok out
    → LedgerOk out.0 × BudgetOk policy repo out.1
unfolding locked_proxy_ledger
locked_proxy_ledger-ok policy repo now db h done =
    locked_ledger-ok policy repo (billing_cycle repo.billing_cycle_anchor_day now) db h done
