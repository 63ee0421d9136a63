-- ===== src/ScrapeQueue/Invariant/Finish.antt =====
-- The invariant under `heartbeat` and `_finish`.
use homez.Prelude.{
  ℕ, ◌+◌, ◌≤◌, min, ◌≡◌, refl, Bool, true, false, Option, none, some, ok, arith, Bool-cases, inl,
  inr, Datetime, if◌then◌else◌, str_eq, ok-injective, subst, is_some, String, ◌&&◌, commit_keeps,
  sym, le→leb,
}
use homez.ScrapeQueue.Contracts.{WorkerIdentity, ScrapeLease, QueuePolicy}
use homez.ScrapeQueue.Records.{
  TaskState, pending, running, deferred, succeeded, failed, held, superseded, cancelled, Task, Db,
  Repository, is_running, is_terminal, contains,
}
use homez.ScrapeQueue.Lease.{held_by, renew, heartbeat}
use homez.ScrapeQueue.Finish.{
  Ending, take_back, settle, settled_state, settled_time, finished_task, conclude, finish, retries,
  succeed, fail, defer, success, failure, deferral, success_codes, failure_codes, defer_codes,
  earlier,
}
use homez.ScrapeQueue.Accepted.{Accepted, conclude-Concluded, renew-Renewed}
use homez.ScrapeQueue.Invariant.{TaskOk, DbOk, put_task-DbOk, get_task-TaskOk}

pub Accepted-running :
    (repo : Repository) (db : Db) (worker : WorkerIdentity) (lease : ScrapeLease) (now : ℕ)
    {t : Task}
    → Accepted repo db worker lease now t
    → is_running t.state ≡ true
unfolding held_by
Accepted-running repo db worker lease now {t} a = let h = a.held in ground arith

-- The states that `_finish` is called with.
abbrev pub IsEnding : TaskState → Type 0
IsEnding succeeded = Unit
IsEnding failed = Unit
IsEnding deferred = Unit
IsEnding _ = ⊥

-- A row that is not leased, in a state other than `running`.
pub idle-TaskOk :
    (policy : QueuePolicy) (t : Task)
    → is_running t.state ≡ false
    → t.lease_owner ≡ none
    → t.lease_token ≡ none
    → t.lease_started_at ≡ none
    → t.lease_expires_at ≡ none
    → t.attempt_count ≤ policy.max_attempts
    → (is_terminal t.state ≡ true → is_some t.finished_at ≡ true)
    → TaskOk policy t
idle-TaskOk policy t idle owner token start expiry few over = record {
  leased = λ r. cc;
  free = λ _. record { owner = owner; token = token; start = start; expiry = expiry };
  bounded = few;
  ended = over;
}

finished_task-TaskOk :
    (policy : QueuePolicy) (t : Task) (s : TaskState) (available : Option ℕ) (now : ℕ)
    → IsEnding s
    → t.attempt_count ≤ policy.max_attempts
    → TaskOk policy (finished_task t s available now)
finished_task-TaskOk policy t succeeded available now h few =
    idle-TaskOk policy _ refl refl refl refl refl few (λ _. refl)
finished_task-TaskOk policy t failed available now h few =
    idle-TaskOk policy _ refl refl refl refl refl few (λ _. refl)
finished_task-TaskOk policy t deferred available now h few =
    idle-TaskOk policy _ refl refl refl refl refl few (λ e. cc)
finished_task-TaskOk policy t pending available now h few = absurd h
finished_task-TaskOk policy t running available now h few = absurd h
finished_task-TaskOk policy t held available now h few = absurd h
finished_task-TaskOk policy t superseded available now h few = absurd h
finished_task-TaskOk policy t cancelled available now h few = absurd h

IsEnding-if : (b : Bool) (s u : TaskState) → IsEnding s → IsEnding u → IsEnding (if b then s else u)
IsEnding-if true s u hs hu = hs
IsEnding-if false s u hs hu = hu

settled_state-IsEnding :
    (policy : QueuePolicy) (t : Task) (e : Ending)
    → IsEnding e.state
    → IsEnding (settled_state policy t e)
settled_state-IsEnding policy t e h =
    let chosen = IsEnding-if (retries policy t e) deferred e.state tt h in
    IsEnding-if _ failed (if retries policy t e then deferred else e.state) tt chosen

take_back-DbOk :
    (policy : QueuePolicy) (t : Task) (at : Option ℕ) (db : Db) {out : TaskState × Db}
    → t.attempt_count ≤ policy.max_attempts
    → DbOk policy db
    → take_back t at db ≡ ok out
    → DbOk policy out.1
take_back-DbOk policy t none db few h e = absurd (ground arith)
take_back-DbOk policy t (some at) db few h e =
    subst (λ o. DbOk policy o.1) (ok-injective e)
      (put_task-DbOk policy _ _
        (idle-TaskOk policy _ refl refl refl refl refl (omega arith) (λ x. cc))
        (record { unique = h.unique; rows = h.rows }))

conclude-DbOk :
    (repo : Repository) (db : Db) (worker : WorkerIdentity) (lease : ScrapeLease)
    (supplied : Datetime) (e : Ending) {out : TaskState × Db}
    → IsEnding e.state
    → DbOk repo.policy db
    → conclude repo db worker lease supplied e ≡ ok out
    → DbOk repo.policy out.1
conclude-DbOk repo db worker lease supplied e ending h done =
    let c = conclude-Concluded repo db worker lease supplied e done in
    let few = (get_task-TaskOk repo.policy db lease.task_id h c.accepted.found).bounded in
    elim (Bool-cases (str_eq e.code "budget-exhausted")) [
      | inl spent ↦ take_back-DbOk repo.policy c.task e.available_at db few h (rw spent at c.left)
      | inr kept ↦
          let made = settle repo.policy c.task c.attempt e c.later db in
          let same : ok made ≡ ok _ = rw kept at c.left in
          subst (λ o. DbOk repo.policy o.1) (ok-injective same)
            (let put =
                put_task-DbOk repo.policy _ db
                  (finished_task-TaskOk repo.policy c.task (settled_state repo.policy c.task e)
                    (settled_time repo.policy c.task e c.later) c.later
                    (settled_state-IsEnding repo.policy c.task e ending) few)
                  h in
              record { unique = put.unique; rows = put.rows })
    ]

-- An acknowledgement, accepted or refused, keeps the invariant.
pub finish-DbOk :
    (repo : Repository) (worker : WorkerIdentity) (lease : ScrapeLease) (now : Datetime)
    (e : Ending) (db : Db)
    → IsEnding e.state
    → DbOk repo.policy db
    → DbOk repo.policy (finish repo worker lease now e db).1
unfolding finish
finish-DbOk repo worker lease now e db ending h =
    commit_keeps (DbOk repo.policy) (conclude repo db worker lease now e) db h
      (λ out done. conclude-DbOk repo db worker lease now e {out = out} ending h done)

renewed-TaskOk :
    (policy : QueuePolicy) (t : Task) (started later : ℕ)
    → is_running t.state ≡ true
    → t.lease_started_at ≡ some started
    → TaskOk policy t
    → TaskOk policy (record t {
      lease_expires_at =
          some (min (later + policy.lease_seconds) (started + policy.max_lease_seconds));
    })
renewed-TaskOk policy t started later r start h =
    let old = h.leased r in
    record {
      leased = λ _. record {
        owned = old.owned;
        fenced = old.fenced;
        window = rw start (le→leb _ _ (omega arith));
        counted = old.counted;
      };
      free = λ f. cc;
      bounded = h.bounded;
      ended = h.ended;
    }

-- So does a heartbeat.
pub heartbeat-DbOk :
    (repo : Repository) (worker : WorkerIdentity) (lease : ScrapeLease) (now : Datetime) (db : Db)
    → DbOk repo.policy db
    → DbOk repo.policy (heartbeat repo worker lease now db).1
unfolding heartbeat
heartbeat-DbOk repo worker lease now db h =
    commit_keeps (DbOk repo.policy) (renew repo db worker lease now) db h (λ out done.
      let r = renew-Renewed repo db worker lease now {out = out} done in
      subst (λ o. DbOk repo.policy o.1) (sym r.left)
        (put_task-DbOk repo.policy _ db
          (renewed-TaskOk repo.policy r.task r.started r.later
            (Accepted-running repo db worker lease r.now r.accepted) r.start
            (get_task-TaskOk repo.policy db lease.task_id h r.accepted.found))
          h))

module _ (repo : Repository) (worker : WorkerIdentity) (lease : ScrapeLease) (now : Datetime) where
  pub succeed-DbOk :
      (code : String) (bytes : ℕ) (db : Db)
      → DbOk repo.policy db
      → DbOk repo.policy (succeed repo worker lease now code bytes db).1
  unfolding succeed
  succeed-DbOk code bytes db h = elim (Bool-cases (contains success_codes code)) [
    | inl known ↦ rw known (finish-DbOk repo worker lease now (success code bytes) db tt h)
    | inr other ↦ rw other h
  ]

  pub fail-DbOk :
      (code : String) (db : Db)
      → DbOk repo.policy db
      → DbOk repo.policy (fail repo worker lease now code db).1
  unfolding fail
  fail-DbOk code db h = elim (Bool-cases (contains failure_codes code)) [
    | inl known ↦ rw known (finish-DbOk repo worker lease now (failure code) db tt h)
    | inr other ↦ rw other h
  ]

  pub defer-DbOk :
      (available : Datetime) (code : String) (db : Db)
      → DbOk repo.policy db
      → DbOk repo.policy (defer repo worker lease now available code db).1
  unfolding defer
  defer-DbOk (Datetime.naive at) code db h = h
  defer-DbOk (Datetime.aware at) code db h =
      elim (Bool-cases (contains defer_codes code && earlier at now)) [
        | inl known ↦ rw known (finish-DbOk repo worker lease now (deferral code at) db tt h)
        | inr other ↦ rw other h
      ]
