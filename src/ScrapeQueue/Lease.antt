-- ===== src/ScrapeQueue/Lease.antt =====
-- scrape_queue/repository.py: `_leased`, `_clear_lease` and `heartbeat`.
-- Each method is one transaction: an error leaves the store as it was.
use homez.Prelude.{
  ℕ, ◌+◌, Bool, false, ◌&&◌, ◌||◌, Option, none, some, min, Result, ok, err, lost_lease, ◌>>=◌,
  ◌>>◌, guard, replace, ltb, ◌==◌, str_eq, if◌then◌else◌, Datetime, require_aware, commit,
}
use homez.ScrapeQueue.Contracts.{portal_eq, class_eq, is_discovery, WorkerIdentity, ScrapeLease}
use homez.ScrapeQueue.Records.{
  is_running, Task, Attempt, Activation, Db, Repository, current, task_key, attempt_key,
  same_identity, get_task, get_worker, get_activation, is_after, is_number, is_text,
}

-- the WHERE clause of `_leased`, behind the primary key
unfoldable pub held_by : WorkerIdentity → ScrapeLease → ℕ → Task → Bool
held_by worker lease now t =
    portal_eq t.source worker.source
    && is_running t.state
    && is_text t.lease_owner worker.worker_id
    && is_number t.lease_token lease.lease_token
    && is_after t.lease_expires_at now

-- `active is None or (task.release_hash, task.activation_epoch) != (active…)`, negated
unfoldable pub is_active : Option Activation → Task → Bool
is_active none t = false
is_active (some a) t =
    str_eq t.release_hash a.release_hash && (t.activation_epoch == a.activation_epoch)

-- the second test of `_leased`: the lease describes the task, and its epoch is not withdrawn
unfoldable pub agrees : Option Activation → ScrapeLease → ℕ → Task → Bool
agrees active lease now t =
    is_after t.lease_expires_at now
    && class_eq t.task_class lease.task_class
    && (t.snapshot_id == lease.snapshot_id)
    && str_eq t.canonical_url lease.canonical_url
    && (t.attempt_count == lease.attempt_number)
    && portal_eq lease.source t.source
    && str_eq lease.release_hash t.release_hash
    && (lease.activation_epoch == t.activation_epoch)
    && (is_discovery t.task_class || is_active active t)

-- The row of `lease.task_id`, where the WHERE clause holds.
abbrev pub select_held : Option Task → WorkerIdentity → ScrapeLease → ℕ → Option Task
select_held none worker lease now = none
select_held (some t) worker lease now = if held_by worker lease now t then some t else none

abbrev pub check_task : Option Task → Option Activation → ScrapeLease → ℕ → Result Task
check_task none active lease now = err lost_lease
check_task (some t) active lease now = if agrees active lease now t then ok t else err lost_lease

unfoldable pub known_worker : Db → WorkerIdentity → Bool
known_worker db worker = elim (get_worker db worker.worker_id) [
  | none ↦ false
  | some row ↦ same_identity row worker
]

-- `_leased`; its clock reading is the first of the operation
unfoldable pub leased : Repository → Db → WorkerIdentity → ScrapeLease → ℕ → Result Task
leased repo db worker lease now = do
  let active = get_activation db worker.source
  guard (known_worker db worker) lost_lease
  let task = select_held (get_task db lease.task_id) worker lease now
  later ← current repo 0 now
  check_task task active lease later

-- `_clear_lease`
abbrev pub clear_lease : Task → Task
clear_lease t = record t {
  lease_owner = none;
  lease_token = none;
  lease_expires_at = none;
  lease_started_at = none;
}

-- the flush of a changed task, and of a changed attempt
abbrev pub put_task : Task → Db → Db
put_task t db = record db { tasks = replace (task_key t.id) t db.tasks }

abbrev pub put_attempt : Attempt → Db → Db
put_attempt a db = record db {
  attempts = replace (attempt_key a.task_id a.attempt_number) a db.attempts;
}

abbrev pub lease_start : Task → Result ℕ
lease_start t = elim t.lease_started_at [ none ↦ err lost_lease | some s ↦ ok s ]

-- the body of `heartbeat` inside its transaction
unfoldable pub renew :
    Repository → Db → WorkerIdentity → ScrapeLease → Datetime → Result (ScrapeLease × Db)
renew repo db worker lease supplied = do
  now ← require_aware supplied
  task ← leased repo db worker lease now
  later ← current repo 1 now
  started ← lease_start task
  let expires = min (later + repo.policy.lease_seconds) (started + repo.policy.max_lease_seconds)
  guard (ltb later expires) lost_lease
  ok (
    record lease { lease_expires_at = expires },
    put_task (record task { lease_expires_at = some expires }) db,
  )

unfoldable pub heartbeat :
    Repository → WorkerIdentity → ScrapeLease → Datetime → Db → Result ScrapeLease × Db
heartbeat repo worker lease now db = commit (renew repo db worker lease now) db
