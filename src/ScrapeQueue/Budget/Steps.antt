-- ===== src/ScrapeQueue/Budget/Steps.antt =====
-- The stores that the operations of scrape_queue/budget.py and of the queue reach together.
use homez.Prelude.{ℕ, String, Option, Datetime, commit_keeps}
use homez.ScrapeQueue.Contracts.{QueuePolicy, PolicyOk, Portal, WorkerIdentity, ScrapeLease}
use homez.ScrapeQueue.Records.{Db}
use homez.ScrapeQueue.Reachable.{Step, Step-DbOk}
use homez.Scraper.DenialPolicy.{ResponseClassification}
use homez.ScrapeQueue.Budget.Records.{NetworkPermit, BudgetDb, BudgetRepository}
use homez.ScrapeQueue.Budget.Permits.{reserve, reserve_start}
use homez.ScrapeQueue.Budget.Outcomes.{judge, record_outcome}
use homez.ScrapeQueue.Budget.Accounts.{
  record_one, record_success, add_route, register_proxy_route, add_bytes, record_proxy_bytes,
  source_row, snapshot, ledger_row, proxy_snapshot,
}
use homez.ScrapeQueue.Budget.Limits.{BudgetOk}
use homez.ScrapeQueue.Budget.Kept.{reserve-BudgetOk}
use homez.ScrapeQueue.Budget.Settled.{judge-BudgetOk}
use homez.ScrapeQueue.Budget.Counted.{
  record_one-BudgetOk, add_route-BudgetOk, add_bytes-BudgetOk, source_row-BudgetOk,
  ledger_row-BudgetOk,
}

-- One operation of the budget, or one of the queue on its tables.
pub data BudgetStep (policy : QueuePolicy) (repo : BudgetRepository)
    : BudgetDb → BudgetDb → Type 0 where
  reserves :
      (worker : WorkerIdentity) (lease : ScrapeLease) (now : Datetime) (bytes : ℕ) (db : BudgetDb)
      → BudgetStep policy repo db (reserve_start repo worker lease now bytes db).1
  records :
      (worker : WorkerIdentity) (lease : ScrapeLease) (permit : NetworkPermit)
      (c : ResponseClassification) (now : Datetime) (bytes : ℕ) (retry_after : Option ℕ)
      (db : BudgetDb)
      → BudgetStep policy repo db
          (record_outcome repo worker lease permit c now bytes retry_after db).1
  succeeds :
      (source : Portal) (now : Datetime) (db : BudgetDb)
      → BudgetStep policy repo db (record_success repo source now db).1
  routes :
      (id : String) (now : Datetime) (db : BudgetDb)
      → BudgetStep policy repo db (register_proxy_route id now db).1
  transfers :
      (id : String) (bytes : ℕ) (now : Datetime) (db : BudgetDb)
      → BudgetStep policy repo db (record_proxy_bytes repo id bytes now db).1
  looks :
      (source : Portal) (now : Datetime) (db : BudgetDb)
      → BudgetStep policy repo db (snapshot repo source now db).1
  looks_at_proxy :
      (now : Datetime) (db : BudgetDb) → BudgetStep policy repo db (proxy_snapshot repo now db).1
  queues :
      (db : BudgetDb) {queue : Db}
      → Step policy db.queue queue
      → BudgetStep policy repo db (record db { queue = queue })

pub data BudgetReach (policy : QueuePolicy) (repo : BudgetRepository) (start : BudgetDb)
    : BudgetDb → Type 0 where
  here : BudgetReach policy repo start start
  next :
      {db db' : BudgetDb}
      → BudgetReach policy repo start db
      → BudgetStep policy repo db db'
      → BudgetReach policy repo start db'

BudgetStep-BudgetOk :
    {policy : QueuePolicy} {repo : BudgetRepository} {db db' : BudgetDb}
    → PolicyOk policy
    → BudgetStep policy repo db db'
    → BudgetOk policy repo db
    → BudgetOk policy repo db'
unfolding reserve_start record_outcome record_success register_proxy_route record_proxy_bytes
    snapshot proxy_snapshot
BudgetStep-BudgetOk {policy} {repo} p (reserves worker lease now bytes db) h =
    commit_keeps (BudgetOk policy repo) (reserve repo worker lease now bytes db) db h
      (λ out done. reserve-BudgetOk policy repo worker lease now bytes db {out = out} h done)
BudgetStep-BudgetOk {policy} {repo} p (records worker lease permit c now bytes retry_after db) h =
    commit_keeps (BudgetOk policy repo) (judge repo worker lease permit c now bytes retry_after db)
      db h
      (λ out done.
        judge-BudgetOk policy repo worker lease permit c now bytes retry_after db {out = out} h
          done)
BudgetStep-BudgetOk {policy} {repo} p (succeeds source now db) h =
    commit_keeps (BudgetOk policy repo) (record_one repo source now db) db h
      (λ out done. record_one-BudgetOk policy repo source now db {out = out} h done)
BudgetStep-BudgetOk {policy} {repo} p (routes id now db) h =
    commit_keeps (BudgetOk policy repo) (add_route id now db) db h
      (λ out done. add_route-BudgetOk policy repo id now db {out = out} h done)
BudgetStep-BudgetOk {policy} {repo} p (transfers id bytes now db) h =
    commit_keeps (BudgetOk policy repo) (add_bytes repo id bytes now db) db h
      (λ out done. add_bytes-BudgetOk policy repo id bytes now db {out = out} h done)
BudgetStep-BudgetOk {policy} {repo} p (looks source now db) h =
    commit_keeps (BudgetOk policy repo) (source_row repo source now db) db h
      (λ out done. source_row-BudgetOk policy repo source now db {out = out} h done)
BudgetStep-BudgetOk {policy} {repo} p (looks_at_proxy now db) h =
    commit_keeps (BudgetOk policy repo) (ledger_row repo now db) db h
      (λ out done. ledger_row-BudgetOk policy repo now db {out = out} h done)
BudgetStep-BudgetOk p (queues db s) h = record {
  states = h.states;
  ledgers = h.ledgers;
  queue = Step-DbOk p s h.queue;
}

-- Under an accepted queue policy and from a store with the invariant, every store that the
-- operations of the budget and of the queue reach, interleaved in any order, keeps it: no portal
-- has more successes than starts, nor more starts than its daily limit; no ledger allocates more
-- than the usable bytes of the proxy; and the queue's own invariant holds.
pub BudgetReach-BudgetOk :
    {policy : QueuePolicy} {repo : BudgetRepository} {start db : BudgetDb}
    → PolicyOk policy
    → BudgetOk policy repo start
    → BudgetReach policy repo start db
    → BudgetOk policy repo db
BudgetReach-BudgetOk p h here = h
BudgetReach-BudgetOk p h (next r s) = BudgetStep-BudgetOk p s (BudgetReach-BudgetOk p h r)
