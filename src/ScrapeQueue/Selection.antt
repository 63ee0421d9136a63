-- ===== src/ScrapeQueue/Selection.antt =====
-- Which task a `claim` of scrape_queue/repository.py takes.
use homez.Prelude.{
  ℕ, ◌+◌, ◌≡◌, Bool, true, false, List, Option, none, some, arith, inl, inr, Datetime, All, ok, sym,
  subst, where_rows, refl, commit-eq-ok,
}
use homez.Prelude.Order.{IsOrder, first_least, All-of_where_rows}
use homez.ScrapeQueue.Contracts.{WorkerIdentity, ScrapeLease, TaskClass}
use homez.ScrapeQueue.Records.{Task, Db, Repository, get_activation, get_task}
use homez.ScrapeQueue.Reaping.{reap_expired}
use homez.ScrapeQueue.Claim.{claims_before, is_candidate, claim, select_and_lease}
use homez.ScrapeQueue.Granted.{Granted, select_and_lease-cases}
use homez.ScrapeQueue.Invariant.{DbOk}
use homez.ScrapeQueue.Invariant.Reap.{reap_expired-DbOk}
use homez.ScrapeQueue.Invariant.Claim.{next_task-is_candidate, next_task-get_task}

claims_before-IsOrder : IsOrder claims_before
claims_before-IsOrder = record {
  irrefl = λ x. ground arith;
  asym = λ x y h. ground arith;
  trans = λ x y z h k. ground arith;
}

-- The task of a lease, as the store had it when it was claimed.
pub record Selected (repo : Repository) (locked : ℕ → Bool) (worker : WorkerIdentity)
    (classes : List TaskClass) (now : ℕ) (db : Db) (l : ScrapeLease) : Type 0 where
  pub task : Task
  pub found : get_task db l.task_id ≡ some task
  pub candidate :
      is_candidate repo locked worker (get_activation db worker.source) classes now task ≡ true
  pub least :
      All
        (λ t.
          is_candidate repo locked worker (get_activation db worker.source) classes now t ≡ true
          → claims_before t task ≡ false)
        db.tasks
  pub attempt : l.attempt_number ≡ task.attempt_count + 1
  pub snapshot : l.snapshot_id ≡ task.snapshot_id
  pub address : l.canonical_url ≡ task.canonical_url

abbrev SelectedOut :
    Repository
    → (ℕ → Bool)
    → WorkerIdentity
    → List TaskClass
    → ℕ
    → Db
    → Option ScrapeLease × Db
    → Type 0
SelectedOut repo locked worker classes now db (none, db') = ⊥
SelectedOut repo locked worker classes now db (some l, db') =
    Selected repo locked worker classes now db l

Granted-Selected :
    (repo : Repository) (locked : ℕ → Bool) (worker : WorkerIdentity) (classes : List TaskClass)
    (token now : ℕ) (db : Db) {out : Option ScrapeLease × Db}
    → DbOk repo.policy db
    → Granted repo locked worker classes token now db out
    → SelectedOut repo locked worker classes now db out
Granted-Selected repo locked worker classes token now db {out} valid g =
    let p = is_candidate repo locked worker (get_activation db worker.source) classes now in
    subst (SelectedOut repo locked worker classes now db) (sym g.left) (record {
      task = g.task;
      found = next_task-get_task repo locked worker classes now db valid g.selected;
      candidate = next_task-is_candidate repo locked worker classes now db g.selected;
      least =
          All-of_where_rows (λ t. claims_before t g.task ≡ false) p db.tasks
            (first_least claims_before claims_before-IsOrder (where_rows p db.tasks) g.selected);
      attempt = refl;
      snapshot = refl;
      address = refl;
    })

-- A lease that `claim` returns is for a candidate task (of the worker's portal, of an allowed
-- class, pending or deferred, available, with attempts left, not locked) of the store after the
-- reaping, and no candidate of that store comes before it by priority, time of availability, time
-- of creation and id. The lease counts the next attempt and names the task's snapshot and URL.
pub claim-Selected :
    (repo : Repository) (locked : ℕ → Bool) (worker : WorkerIdentity) (classes : List TaskClass)
    (token now : ℕ) (l : ScrapeLease) (db db' : Db)
    → DbOk repo.policy db
    → claim repo locked worker classes token (Datetime.aware now) db ≡ (ok (some l), db')
    → Selected repo locked worker classes now
        (reap_expired repo locked 100 (Datetime.aware now) db).1
        l
unfolding claim
claim-Selected repo locked worker classes token now l db db' h done =
    let reaped_db = (reap_expired repo locked 100 (Datetime.aware now) db).1 in
    let valid = reap_expired-DbOk repo locked 100 (Datetime.aware now) db h in
    let made =
      commit-eq-ok (select_and_lease repo locked worker classes token now reaped_db) reaped_db db'
        (some l) done in
    elim (select_and_lease-cases repo locked worker classes token now reaped_db made) [
      | inl idle ↦ absurd (ground arith)
      | inr g ↦ Granted-Selected repo locked worker classes token now reaped_db valid g
    ]
