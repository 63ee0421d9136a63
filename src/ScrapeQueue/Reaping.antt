-- ===== src/ScrapeQueue/Reaping.antt =====
-- scrape_queue/repository.py: `reap_expired`. Rows that other transactions hold locked are skipped
-- by the argument `locked`.
use homez.Prelude.{
  ℕ, Bool, not, ◌&&◌, ◌||◌, List, [], ◌∷◌, Option, none, some, Result, ok, err, value_error,
  where_rows, order_by, take, length, leb, ltb, ◌==◌, if◌then◌else◌, Datetime, require_aware,
}
use homez.ScrapeQueue.Records.{
  pending, failed, is_running, Task, Attempt, Db, Repository, get_attempt, is_at_most,
}
use homez.ScrapeQueue.Lease.{clear_lease, put_task, put_attempt}

-- the WHERE clause of `reap_expired`, on rows that are not locked
unfoldable pub is_expired : (ℕ → Bool) → ℕ → Task → Bool
is_expired locked now t =
    is_running t.state && is_at_most t.lease_expires_at now && not (locked t.id)

abbrev pub expiry : Task → ℕ
expiry t = elim t.lease_expires_at [ none ↦ 0 | some e ↦ e ]

-- `order_by(lease_expires_at, id)`
abbrev pub expires_before : Task → Task → Bool
expires_before a b = ltb (expiry a) (expiry b) || ((expiry a == expiry b) && ltb a.id b.id)

-- the body of the loop of `reap_expired`
unfoldable pub reaped : ℕ → ℕ → Task → Task
reaped max_attempts now t =
    let state = if leb max_attempts t.attempt_count then failed else pending in
    clear_lease (record t {
      state = state;
      available_at = now;
      finished_at = if leb max_attempts t.attempt_count then some now else t.finished_at;
    })

-- the attempt is marked, whether or not it is finished
abbrev pub mark_expired : ℕ → ℕ → Option Attempt → Db → Db
mark_expired now number none db = db
mark_expired now number (some a) db =
    put_attempt
      (record a {
        finished_at = some now;
        outcome = some "lease-expired";
        code = some "lease-expired";
      })
      db

unfoldable pub reap_one : ℕ → ℕ → Db → Task → Db
reap_one max_attempts now db t =
    mark_expired now t.attempt_count (get_attempt db t.id t.attempt_count)
      (put_task (reaped max_attempts now t) db)

unfoldable pub reap_all : ℕ → ℕ → Db → List Task → Db
reap_all max_attempts now db [] = db
reap_all max_attempts now db (t ∷ ts) =
    reap_all max_attempts now (reap_one max_attempts now db t) ts

-- the rows of its SELECT
unfoldable pub expired_tasks : (ℕ → Bool) → ℕ → ℕ → Db → List Task
expired_tasks locked limit now db =
    take limit (order_by expires_before (where_rows (is_expired locked now) db.tasks))

unfoldable pub reap_expired : Repository → (ℕ → Bool) → ℕ → Datetime → Db → Result ℕ × Db
reap_expired repo locked limit supplied db = elim (require_aware supplied) [
  | err e ↦ (err e, db)
  | ok now ↦
      if leb 1 limit && leb limit 500
      then (let rows = expired_tasks locked limit now db in
          (ok (length rows), reap_all repo.policy.max_attempts now db rows))
      else (err value_error, db)
]
