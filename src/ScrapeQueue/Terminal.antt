-- ===== src/ScrapeQueue/Terminal.antt =====
-- A task that succeeded or failed is not touched again by any operation of
-- scrape_queue/repository.py.
use homez.Prelude.{
  ℕ, ◌≡◌, refl, sym, ◌∙◌, Bool, true, false, Option, none, some, List, [], ◌∷◌, arith, Datetime,
  Bool-cases, inl, inr, ok, All, All-map, ◌==◌, find-replace_ne, commit_keeps, subst, str_eq, leb,
  ◌&&◌, ok-injective, Owns, Unique-Owns,
}
use homez.ScrapeQueue.Contracts.{QueuePolicy, WorkerIdentity, ScrapeLease, TaskClass}
use homez.ScrapeQueue.Records.{
  Task, TaskState, Attempt, Db, Repository, get_task, get_attempt, is_terminal, is_running,
  is_claimable, get_activation,
}
use homez.ScrapeQueue.Lease.{put_task, put_attempt, renew, heartbeat}
use homez.ScrapeQueue.Finish.{
  Ending, conclude, finish, take_back, settle, settled_state, settled_time, finished_task,
}
use homez.ScrapeQueue.Reaping.{
  is_expired, expired_tasks, reap_all, reap_one, reaped, reap_expired, mark_expired,
}
use homez.ScrapeQueue.Claim.{is_candidate, select_and_lease, claim, claimed}
use homez.ScrapeQueue.Accepted.{Accepted, conclude-Concluded, renew-Renewed}
use homez.ScrapeQueue.Granted.{select_and_lease-cases}
use homez.ScrapeQueue.Invariant.{DbOk, task_id, get_task-id}
use homez.ScrapeQueue.Invariant.Finish.{Accepted-running}
use homez.ScrapeQueue.Invariant.Claim.{next_task-get_task, next_task-is_candidate}
use homez.ScrapeQueue.Invariant.Reap.{reap_expired-DbOk, expired_tasks-All}

module _ (n : ℕ) (t : Task) (ended : is_terminal t.state ≡ true) where
  -- the row of `n` in the store
  abbrev pub Keeps : Db → Type 0
  Keeps db = get_task db n ≡ some t

  pub put_ne : (x : Task) (db : Db) → (n == x.id) ≡ false → Keeps db → Keeps (put_task x db)
  unfolding get_task
  put_ne x db other h = find-replace_ne task_id x.id n x db.tasks refl other ∙ h

  -- A running row has not ended.
  running-live : (s : TaskState) → is_running s ≡ true → is_terminal s ≡ false
  running-live s r = ground arith

  -- A row that has not ended has another key.
  live_ne :
      (x : Task) (db : Db)
      → get_task db x.id ≡ some x
      → is_terminal x.state ≡ false
      → Keeps db
      → (n == x.id) ≡ false
  live_ne x db own live h = elim (Bool-cases (n == x.id)) [
    | inr other ↦ other
    | inl same ↦ ground arith
  ]

  pub Accepted-live :
      (repo : Repository) (db : Db) (worker : WorkerIdentity) (lease : ScrapeLease) (now : ℕ)
      {x : Task}
      → Accepted repo db worker lease now x
      → Keeps db
      → (n == x.id) ≡ false
  Accepted-live repo db worker lease now {x} a h =
      let own : get_task db x.id ≡ some x =
        subst (λ m. get_task db m ≡ some x) (sym (get_task-id db lease.task_id a.found)) a.found in
      live_ne x db own (running-live x.state (Accepted-running repo db worker lease now a)) h

  put_attempt-Keeps : (a : Attempt) (db : Db) → Keeps db → Keeps (put_attempt a db)
  unfolding get_task
  put_attempt-Keeps a db h = h

  take_back-Keeps :
      (x : Task) (at : Option ℕ) (db : Db) {out : TaskState × Db}
      → (n == x.id) ≡ false
      → Keeps db
      → take_back x at db ≡ ok out
      → Keeps out.1
  take_back-Keeps x none db other h done = absurd (ground arith)
  take_back-Keeps x (some at) db {out} other h done =
      subst (λ (o : TaskState × Db). Keeps o.1) (ok-injective done)
        (put_ne _ _ other (unfold get_task in h))

  conclude-Keeps :
      (repo : Repository) (db : Db) (worker : WorkerIdentity) (lease : ScrapeLease)
      (supplied : Datetime) (e : Ending) {out : TaskState × Db}
      → Keeps db
      → conclude repo db worker lease supplied e ≡ ok out
      → Keeps out.1
  unfolding get_task
  conclude-Keeps repo db worker lease supplied e {out} h done =
      let c = conclude-Concluded repo db worker lease supplied e done in
      let other = Accepted-live repo db worker lease c.now c.accepted h in
      elim (Bool-cases (str_eq e.code "budget-exhausted")) [
        | inl spent ↦ take_back-Keeps c.task e.available_at db other h (rw spent at c.left)
        | inr kept ↦
            let same : ok (settle repo.policy c.task c.attempt e c.later db) ≡ ok out =
              rw kept at c.left in
            subst (λ (o : TaskState × Db). Keeps o.1) (ok-injective same)
              (put_ne
                (finished_task c.task (settled_state repo.policy c.task e)
                  (settled_time repo.policy c.task e c.later) c.later)
                db other h)
      ]

  put_reaped :
      (most now : ℕ) (x : Task) (db : Db)
      → (n == x.id) ≡ false
      → Keeps db
      → Keeps (put_task (reaped most now x) db)
  unfolding reaped
  put_reaped most now x db other h = put_ne (reaped most now x) db other h

  mark_expired-Keeps :
      (now number : ℕ) (a : Option Attempt) (db : Db)
      → Keeps db
      → Keeps (mark_expired now number a db)
  unfolding get_task
  mark_expired-Keeps now number none db h = h
  mark_expired-Keeps now number (some a) db h = h

  -- Reaping writes to rows that are not `n`.
  reap_all-Keeps :
      (most now : ℕ) (db : Db) (rows : List Task)
      → All (λ x. (n == x.id) ≡ false) rows
      → Keeps db
      → Keeps (reap_all most now db rows)
  unfolding reap_all reap_one
  reap_all-Keeps most now db [] other h = h
  reap_all-Keeps most now db (x ∷ xs) other h =
      reap_all-Keeps most now (reap_one most now db x) xs other.1 (
        mark_expired-Keeps now x.attempt_count (get_attempt db x.id x.attempt_count)
          (put_task (reaped most now x) db) (put_reaped most now x db other.0 h))

  expired_ne :
      (x : Task) (locked : ℕ → Bool) (now : ℕ) (db : Db)
      → Owns task_id db.tasks x
      → is_expired locked now x ≡ true
      → Keeps db
      → (n == x.id) ≡ false
  unfolding get_task is_expired
  expired_ne x locked now db own due h =
      let running : is_running x.state ≡ true = ground arith in
      live_ne x db own (running-live x.state running) h

  expired_tasks-ne :
      (policy : QueuePolicy) (locked : ℕ → Bool) (limit now : ℕ) (db : Db)
      → DbOk policy db
      → Keeps db
      → All (λ x. (n == x.id) ≡ false) (expired_tasks locked limit now db)
  expired_tasks-ne policy locked limit now db valid h =
      All-map _ (λ x. (n == x.id) ≡ false) (expired_tasks locked limit now db)
        (λ x both. expired_ne x locked now db both.0 both.1 h)
        (expired_tasks-All (Owns task_id db.tasks) locked limit now db
          (Unique-Owns task_id db.tasks valid.unique))

  pub reap_expired-Keeps :
      (repo : Repository) (locked : ℕ → Bool) (limit : ℕ) (now : Datetime) (db : Db)
      → DbOk repo.policy db
      → Keeps db
      → Keeps (reap_expired repo locked limit now db).1
  unfolding reap_expired
  reap_expired-Keeps repo locked limit (Datetime.naive at) db valid h = h
  reap_expired-Keeps repo locked limit (Datetime.aware at) db valid h =
      elim (Bool-cases (leb 1 limit && leb limit 500)) [
        | inl within ↦ rw within (
            reap_all-Keeps repo.policy.max_attempts at db (expired_tasks locked limit at db)
              (expired_tasks-ne repo.policy locked limit at db valid h) h)
        | inr out ↦ rw out h
      ]

  -- A claim writes to a pending or deferred row.
  candidate-live :
      (repo : Repository) (locked : ℕ → Bool) (worker : WorkerIdentity) (classes : List TaskClass)
      (now : ℕ) (db : Db) (x : Task)
      → is_candidate repo locked worker (get_activation db worker.source) classes now x ≡ true
      → is_terminal x.state ≡ false
  unfolding is_candidate
  candidate-live repo locked worker classes now db x h =
      let claimable : is_claimable x.state ≡ true = ground arith in ground arith

  pub claim-Keeps :
      (repo : Repository) (locked : ℕ → Bool) (worker : WorkerIdentity) (classes : List TaskClass)
      (token : ℕ) (now : Datetime) (db : Db)
      → DbOk repo.policy db
      → Keeps db
      → Keeps (claim repo locked worker classes token now db).1
  unfolding claim get_task
  claim-Keeps repo locked worker classes token (Datetime.naive at) db valid h = h
  claim-Keeps repo locked worker classes token (Datetime.aware at) db valid h =
      let reaped_db = (reap_expired repo locked 100 (Datetime.aware at) db).1 in
      let valid' = reap_expired-DbOk repo locked 100 (Datetime.aware at) db valid in
      let h' = reap_expired-Keeps repo locked 100 (Datetime.aware at) db valid h in
      commit_keeps Keeps (select_and_lease repo locked worker classes token at reaped_db) reaped_db
        h'
        (λ out done.
          elim (select_and_lease-cases repo locked worker classes token at reaped_db {out = out}
            done) [
              | inl idle ↦ subst (λ (o : Option ScrapeLease × Db). Keeps o.1) (sym idle) h'
              | inr g ↦
                  subst (λ (o : Option ScrapeLease × Db). Keeps o.1) (sym g.left)
                    (put_ne (claimed repo worker token g.later g.hash g.epoch g.task) reaped_db
                      (live_ne g.task reaped_db
                        (next_task-get_task repo locked worker classes at reaped_db valid'
                          g.selected)
                        (candidate-live repo locked worker classes at reaped_db g.task (
                          next_task-is_candidate repo locked worker classes at reaped_db
                            g.selected))
                        h')
                      h')
            ])

  pub finish-Keeps :
      (repo : Repository) (worker : WorkerIdentity) (lease : ScrapeLease) (now : Datetime)
      (e : Ending) (db : Db)
      → Keeps db
      → Keeps (finish repo worker lease now e db).1
  unfolding finish
  finish-Keeps repo worker lease now e db h =
      commit_keeps Keeps (conclude repo db worker lease now e) db h
        (λ out done. conclude-Keeps repo db worker lease now e {out = out} h done)

  pub heartbeat-Keeps :
      (repo : Repository) (worker : WorkerIdentity) (lease : ScrapeLease) (now : Datetime) (db : Db)
      → Keeps db
      → Keeps (heartbeat repo worker lease now db).1
  unfolding heartbeat
  heartbeat-Keeps repo worker lease now db h =
      commit_keeps Keeps (renew repo db worker lease now) db h (λ out done.
        let r = renew-Renewed repo db worker lease now {out = out} done in
        subst (λ (o : ScrapeLease × Db). Keeps o.1) (sym r.left)
          (put_ne _ db (Accepted-live repo db worker lease r.now r.accepted h) h))
