-- ===== src/ScrapeQueue/Accepted.antt =====
-- What it takes for `_leased` to accept a lease, as facts about the stored row.
use homez.Prelude.{
  ℕ, ◌+◌, ◌<◌, min, ◌≡◌, sym, ap, true, Option, some, none, ok, lost_lease, value_error, guard,
  ◌>>=◌, >>=-eq-ok, guard-eq-ok, ok-injective, arith, Bool-cases, inl, inr, leb, ltb, ltb→lt,
  str_eq, if◌then◌else◌, Datetime, require_aware,
}
use homez.ScrapeQueue.Contracts.{WorkerIdentity, ScrapeLease}
use homez.ScrapeQueue.Records.{
  TaskState, Task, Attempt, Activation, Db, Repository, current, get_task, get_activation,
  get_attempt,
}
use homez.ScrapeQueue.Lease.{
  leased, held_by, agrees, known_worker, select_held, check_task, lease_start, put_task, renew,
}
use homez.ScrapeQueue.Finish.{Ending, open_attempt, take_back, settle, conclude}

pub record Accepted (repo : Repository) (db : Db) (worker : WorkerIdentity) (lease : ScrapeLease)
    (now : ℕ) (t : Task) : Type 0 where
  pub known : known_worker db worker ≡ true
  pub found : get_task db lease.task_id ≡ some t
  pub held : held_by worker lease now t ≡ true
  pub later : ℕ
  pub read : current repo 0 now ≡ ok later
  pub agreed : agrees (get_activation db worker.source) lease later t ≡ true

check_task-eq-ok :
    (o : Option Task) (active : Option Activation) (worker : WorkerIdentity) (lease : ScrapeLease)
    (now later : ℕ) {t : Task}
    → check_task (select_held o worker lease now) active lease later ≡ ok t
    → (o ≡ some t) × (held_by worker lease now t ≡ true) × (agrees active lease later t ≡ true)
check_task-eq-ok none active worker lease now later h = cc
check_task-eq-ok (some r) active worker lease now later {t} h =
    elim (Bool-cases (held_by worker lease now r)) [
      | inr miss ↦ ground arith
      | inl held ↦ elim (Bool-cases (agrees active lease later r)) [
        | inr miss ↦ ground arith
        | inl agreed ↦
            let same : r ≡ t = ground arith in (ap some same, rw (← same) held, rw (← same) agreed)
      ]
    ]

pub leased-Accepted :
    (repo : Repository) (db : Db) (worker : WorkerIdentity) (lease : ScrapeLease) (now : ℕ)
    {t : Task}
    → leased repo db worker lease now ≡ ok t
    → Accepted repo db worker lease now t
unfolding leased
leased-Accepted repo db worker lease now {t} h =
    let (_, known, rest) =
      >>=-eq-ok (guard (known_worker db worker) lost_lease)
        (λ _.
          (current repo 0 now >>= λ later.
          check_task (select_held (get_task db lease.task_id) worker lease now)
            (get_activation db worker.source) lease later))
        h in
    let (later, read, checked) =
      >>=-eq-ok (current repo 0 now)
        (λ later.
          check_task (select_held (get_task db lease.task_id) worker lease now)
            (get_activation db worker.source) lease later)
        rest in
    let (found, held, agreed) =
      check_task-eq-ok (get_task db lease.task_id) (get_activation db worker.source) worker lease
        now later checked in
    record {
      known = guard-eq-ok _ _ known;
      found = found;
      held = held;
      later = later;
      read = read;
      agreed = agreed;
    }

-- Conversely, a lease that the stored row bears out is accepted.
pub Accepted-leased :
    (repo : Repository) (db : Db) (worker : WorkerIdentity) (lease : ScrapeLease) (now later : ℕ)
    (t : Task)
    → known_worker db worker ≡ true
    → get_task db lease.task_id ≡ some t
    → held_by worker lease now t ≡ true
    → current repo 0 now ≡ ok later
    → agrees (get_activation db worker.source) lease later t ≡ true
    → leased repo db worker lease now ≡ ok t
unfolding leased
Accepted-leased repo db worker lease now later t known found held read agreed =
    rw (known, found) (rw held (rw read (rw agreed)))

-- What a `_finish` that returned had in hand, and the store that it left.
pub record Concluded (repo : Repository) (db : Db) (worker : WorkerIdentity) (lease : ScrapeLease)
    (supplied : Datetime) (e : Ending) (out : TaskState × Db) : Type 0 where
  pub now : ℕ
  pub clocked : require_aware supplied ≡ ok now
  pub sized : leb e.response_bytes 2000000 ≡ true
  pub task : Task
  pub accepted : Accepted repo db worker lease now task
  pub later : ℕ
  pub read : current repo 1 now ≡ ok later
  pub attempt : Attempt
  pub opened : open_attempt (get_attempt db task.id task.attempt_count) ≡ ok attempt
  pub left :
      (if str_eq e.code "budget-exhausted"
        then take_back task e.available_at db
        else ok (settle repo.policy task attempt e later db))
      ≡ ok out

pub conclude-Concluded :
    (repo : Repository) (db : Db) (worker : WorkerIdentity) (lease : ScrapeLease)
    (supplied : Datetime) (e : Ending) {out : TaskState × Db}
    → conclude repo db worker lease supplied e ≡ ok out
    → Concluded repo db worker lease supplied e out
unfolding conclude
conclude-Concluded repo db worker lease supplied e h =
    let (now, clocked, h1) = >>=-eq-ok (require_aware supplied) _ h in
    let (_, sized, h2) = >>=-eq-ok (guard (leb e.response_bytes 2000000) value_error) _ h1 in
    let (task, held, h3) = >>=-eq-ok (leased repo db worker lease now) _ h2 in
    let (later, read, h4) = >>=-eq-ok (current repo 1 now) _ h3 in
    let (attempt, opened, left) =
      >>=-eq-ok (open_attempt (get_attempt db task.id task.attempt_count)) _ h4 in
    record {
      now = now;
      clocked = clocked;
      sized = guard-eq-ok _ _ sized;
      task = task;
      accepted = leased-Accepted repo db worker lease now held;
      later = later;
      read = read;
      attempt = attempt;
      opened = opened;
      left = left;
    }

-- What a heartbeat that returned had in hand.
pub record Renewed (repo : Repository) (db : Db) (worker : WorkerIdentity) (lease : ScrapeLease)
    (supplied : Datetime) (out : ScrapeLease × Db) : Type 0 where
  pub now : ℕ
  pub task : Task
  pub accepted : Accepted repo db worker lease now task
  pub later : ℕ
  pub started : ℕ
  pub start : task.lease_started_at ≡ some started
  pub fresh :
      later < min (later + repo.policy.lease_seconds) (started + repo.policy.max_lease_seconds)
  pub left :
      (let expires =
          min (later + repo.policy.lease_seconds) (started + repo.policy.max_lease_seconds) in
        out ≡ (
          record lease { lease_expires_at = expires },
          put_task (record task { lease_expires_at = some expires }) db,
        ))

lease_start-eq-ok : (t : Task) {s : ℕ} → lease_start t ≡ ok s → t.lease_started_at ≡ some s
lease_start-eq-ok t h = ground arith

pub renew-Renewed :
    (repo : Repository) (db : Db) (worker : WorkerIdentity) (lease : ScrapeLease)
    (supplied : Datetime) {out : ScrapeLease × Db}
    → renew repo db worker lease supplied ≡ ok out
    → Renewed repo db worker lease supplied out
unfolding renew
renew-Renewed repo db worker lease supplied h =
    let (now, clocked, h1) = >>=-eq-ok (require_aware supplied) _ h in
    let (task, held, h2) = >>=-eq-ok (leased repo db worker lease now) _ h1 in
    let (later, read, h3) = >>=-eq-ok (current repo 1 now) _ h2 in
    let (started, start, h4) = >>=-eq-ok (lease_start task) _ h3 in
    let (_, fresh, left) =
      >>=-eq-ok
        (guard
          (ltb later
            (min (later + repo.policy.lease_seconds) (started + repo.policy.max_lease_seconds)))
          lost_lease)
        _ h4 in
    record {
      now = now;
      task = task;
      accepted = leased-Accepted repo db worker lease now held;
      later = later;
      started = started;
      start = lease_start-eq-ok task start;
      fresh = ltb→lt _ _ (guard-eq-ok _ _ fresh);
      left = ok-injective (sym left);
    }
