-- ===== src/ScrapeQueue/Invariant.antt =====
-- What holds of the queue's rows between two transactions of scrape_queue/repository.py.
pub mod Finish
pub mod Reap
pub mod Claim
use homez.Prelude.{
  ℕ, ◌≤◌, ◌+◌, ◌≡◌, Bool, true, false, Option, none, some, All, Unique, Unique-replace, All-replace,
  find-All, leb, is_some, refl, ==_iff, find-holds, find-replace, List, arith,
}
use homez.ScrapeQueue.Contracts.{QueuePolicy}
use homez.ScrapeQueue.Records.{Task, Attempt, Db, task_key, get_task, is_running, is_terminal}
use homez.ScrapeQueue.Lease.{put_task}

-- the lease ends at most `most` seconds after it started
abbrev pub within : Option ℕ → Option ℕ → ℕ → Bool
within (some started) (some expires) most = leb expires (started + most)
within _ _ most = false

-- A running task is leased, by somebody, for a bounded time, on a counted attempt.
pub record IsLeased (policy : QueuePolicy) (t : Task) : Type 0 where
  pub owned : is_some t.lease_owner ≡ true
  pub fenced : is_some t.lease_token ≡ true
  pub window : within t.lease_started_at t.lease_expires_at policy.max_lease_seconds ≡ true
  pub counted : 1 ≤ t.attempt_count

-- No column of a lease is left behind.
pub record IsFree (t : Task) : Type 0 where
  pub owner : t.lease_owner ≡ none
  pub token : t.lease_token ≡ none
  pub start : t.lease_started_at ≡ none
  pub expiry : t.lease_expires_at ≡ none

pub record TaskOk (policy : QueuePolicy) (t : Task) : Type 0 where
  pub leased : is_running t.state ≡ true → IsLeased policy t
  pub free : is_running t.state ≡ false → IsFree t
  pub bounded : t.attempt_count ≤ policy.max_attempts
  pub ended : is_terminal t.state ≡ true → is_some t.finished_at ≡ true

abbrev pub task_id : Task → ℕ
task_id t = t.id

pub record DbOk (policy : QueuePolicy) (db : Db) : Type 0 where
  pub unique : Unique task_id db.tasks
  pub rows : All (TaskOk policy) db.tasks

pub put_task-DbOk :
    (policy : QueuePolicy) (t : Task) (db : Db)
    → TaskOk policy t
    → DbOk policy db
    → DbOk policy (put_task t db)
put_task-DbOk policy t db ok h = record {
  unique = Unique-replace task_id t.id t db.tasks refl h.unique;
  rows = All-replace (TaskOk policy) (task_key t.id) t db.tasks ok h.rows;
}

pub get_task-TaskOk :
    (policy : QueuePolicy) (db : Db) (n : ℕ) {t : Task}
    → DbOk policy db
    → get_task db n ≡ some t
    → TaskOk policy t
unfolding get_task
get_task-TaskOk policy db n h found = find-All (TaskOk policy) (task_key n) db.tasks h.rows found

-- A row that is found by a key has that key.
pub get_task-id : (db : Db) (n : ℕ) {t : Task} → get_task db n ≡ some t → t.id ≡ n
unfolding get_task
get_task-id db n {t} found = (==_iff t.id n).0 (find-holds (task_key n) db.tasks found)

-- An updated row is found by its key.
pub get_task-put :
    (db : Db) (old new : Task) (rows : List Attempt)
    → new.id ≡ old.id
    → get_task db old.id ≡ some old
    → get_task (record (put_task new db) { attempts = rows }) new.id ≡ some new
unfolding get_task
get_task-put db old new rows same found =
    find-replace (task_key new.id) (task_key new.id) new db.tasks {x = old} (rw same found)
      (ground arith) (λ z e. e)
