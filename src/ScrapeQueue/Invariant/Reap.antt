-- ===== src/ScrapeQueue/Invariant/Reap.antt =====
-- The invariant under `reap_expired`.
use homez.Prelude.{
  ℕ, ◌≡◌, refl, Bool, true, List, [], ◌∷◌, Option, none, some, Bool-cases, inl, inr, Datetime, leb,
  All, All-take, All-order_by, All-map, where_rows-All, order_by, where_rows, ◌&&◌,
}
use homez.ScrapeQueue.Contracts.{QueuePolicy}
use homez.ScrapeQueue.Records.{Task, Attempt, Db, Repository, get_attempt}
use homez.ScrapeQueue.Lease.{put_task}
use homez.ScrapeQueue.Reaping.{
  reaped, reap_one, reap_all, expired_tasks, reap_expired, mark_expired, expires_before, is_expired,
}
use homez.ScrapeQueue.Invariant.{TaskOk, DbOk, put_task-DbOk}
use homez.ScrapeQueue.Invariant.Finish.{idle-TaskOk}

reaped-TaskOk :
    (policy : QueuePolicy) (now : ℕ) (t : Task)
    → TaskOk policy t
    → TaskOk policy (reaped policy.max_attempts now t)
unfolding reaped
reaped-TaskOk policy now t h = elim (Bool-cases (leb policy.max_attempts t.attempt_count)) [
  | inl spent ↦ rw spent (idle-TaskOk policy _ refl refl refl refl refl h.bounded (λ _. refl))
  | inr more ↦ rw more (idle-TaskOk policy _ refl refl refl refl refl h.bounded (λ e. cc))
]

mark_expired-DbOk :
    (policy : QueuePolicy) (now number : ℕ) (a : Option Attempt) (db : Db)
    → DbOk policy db
    → DbOk policy (mark_expired now number a db)
mark_expired-DbOk policy now number none db h = h
mark_expired-DbOk policy now number (some a) db h = record { unique = h.unique; rows = h.rows }

reap_all-DbOk :
    (policy : QueuePolicy) (now : ℕ) (db : Db) (rows : List Task)
    → All (TaskOk policy) rows
    → DbOk policy db
    → DbOk policy (reap_all policy.max_attempts now db rows)
unfolding reap_all reap_one
reap_all-DbOk policy now db [] rows h = h
reap_all-DbOk policy now db (t ∷ ts) rows h =
    reap_all-DbOk policy now (reap_one policy.max_attempts now db t) ts rows.1 (
      mark_expired-DbOk policy now t.attempt_count (get_attempt db t.id t.attempt_count)
        (put_task (reaped policy.max_attempts now t) db)
        (put_task-DbOk policy (reaped policy.max_attempts now t) db
          (reaped-TaskOk policy now t rows.0) h))

-- The rows that are reaped are expired, and satisfy what every row of the table satisfies.
pub expired_tasks-All :
    (P : Task → Type 0) (locked : ℕ → Bool) (limit now : ℕ) (db : Db)
    → All P db.tasks
    → All (λ t. P t × (is_expired locked now t ≡ true)) (expired_tasks locked limit now db)
unfolding expired_tasks
expired_tasks-All P locked limit now db h =
    let p = is_expired locked now in
    let Q = λ (t : Task). P t × (p t ≡ true) in
    All-take Q limit (order_by expires_before (where_rows p db.tasks))
      (All-order_by Q expires_before (where_rows p db.tasks) (where_rows-All P p db.tasks h))

-- Reaping expired leases keeps the invariant.
pub reap_expired-DbOk :
    (repo : Repository) (locked : ℕ → Bool) (limit : ℕ) (now : Datetime) (db : Db)
    → DbOk repo.policy db
    → DbOk repo.policy (reap_expired repo locked limit now db).1
unfolding reap_expired
reap_expired-DbOk repo locked limit (Datetime.naive t) db h = h
reap_expired-DbOk repo locked limit (Datetime.aware t) db h =
    elim (Bool-cases (leb 1 limit && leb limit 500)) [
      | inl within ↦ rw within (
          reap_all-DbOk repo.policy t db (expired_tasks locked limit t db)
            (All-map _ (TaskOk repo.policy) (expired_tasks locked limit t db) (λ x both. both.0)
              (expired_tasks-All (TaskOk repo.policy) locked limit t db h.rows))
            h)
      | inr out ↦ rw out h
    ]
