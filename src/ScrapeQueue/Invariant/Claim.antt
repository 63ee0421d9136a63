-- ===== src/ScrapeQueue/Invariant/Claim.antt =====
-- The invariant under `claim`.
use homez.Prelude.{
  ℕ, ◌+◌, ◌<◌, ◌≡◌, refl, Bool, true, List, Option, some, arith, inl, inr, Datetime, All,
  All-where_rows, where_rows, where_rows-holds, first-All, commit_keeps, ok, subst, sym, String,
  le→leb, Owns, Unique-Owns,
}
use homez.ScrapeQueue.Contracts.{WorkerIdentity, ScrapeLease, TaskClass, PolicyOk}
use homez.ScrapeQueue.Records.{Task, Db, Repository, get_activation, get_task}
use homez.ScrapeQueue.Reaping.{reap_expired}
use homez.ScrapeQueue.Claim.{
  claimed, claims_before, is_candidate, next_task, select_and_lease, claim,
}
use homez.ScrapeQueue.Granted.{select_and_lease-cases}
use homez.ScrapeQueue.Invariant.{TaskOk, DbOk, put_task-DbOk, task_id}
use homez.ScrapeQueue.Invariant.Reap.{reap_expired-DbOk}

module _ (repo : Repository) (locked : ℕ → Bool) (worker : WorkerIdentity)
    (classes : List TaskClass) (now : ℕ) (db : Db) where
  -- What the SELECT returns satisfies its WHERE clause, and all that every row satisfies.
  pub next_task-is_candidate :
      {t : Task}
      → next_task repo locked worker classes now db ≡ some t
      → is_candidate repo locked worker (get_activation db worker.source) classes now t ≡ true
  next_task-is_candidate h =
      let p = is_candidate repo locked worker (get_activation db worker.source) classes now in
      first-All (λ t. p t ≡ true) claims_before (where_rows p db.tasks)
        (where_rows-holds p db.tasks) h

  pub next_task-All :
      (P : Task → Type 0) {t : Task}
      → All P db.tasks
      → next_task repo locked worker classes now db ≡ some t
      → P t
  next_task-All P all h =
      let p = is_candidate repo locked worker (get_activation db worker.source) classes now in
      first-All P claims_before (where_rows p db.tasks) (All-where_rows P p db.tasks all) h

  -- With unique keys the selected row is the row of its key.
  pub next_task-get_task :
      {t : Task}
      → DbOk repo.policy db
      → next_task repo locked worker classes now db ≡ some t
      → get_task db t.id ≡ some t
  unfolding get_task
  next_task-get_task {t} h e =
      next_task-All (Owns task_id db.tasks) (Unique-Owns task_id db.tasks h.unique) e

candidate-lt_max :
    (repo : Repository) (locked : ℕ → Bool) (worker : WorkerIdentity) (classes : List TaskClass)
    (now : ℕ) (db : Db) (t : Task)
    → is_candidate repo locked worker (get_activation db worker.source) classes now t ≡ true
    → t.attempt_count < repo.policy.max_attempts
unfolding is_candidate
candidate-lt_max repo locked worker classes now db t h = ground arith

claimed-TaskOk :
    (repo : Repository) (worker : WorkerIdentity) (token now : ℕ) (hash : String) (epoch : ℕ)
    (t : Task)
    → PolicyOk repo.policy
    → t.attempt_count < repo.policy.max_attempts
    → TaskOk repo.policy (claimed repo worker token now hash epoch t)
claimed-TaskOk repo worker token now hash epoch t policy few = record {
  leased = λ _. record {
    owned = refl;
    fenced = refl;
    window =
        (let short = policy.renewable in
          le→leb (now + repo.policy.lease_seconds) (now + repo.policy.max_lease_seconds)
            (omega arith));
    counted = omega arith;
  };
  free = λ e. cc;
  bounded = omega arith;
  ended = λ e. cc;
}

module _ (repo : Repository) (locked : ℕ → Bool) (worker : WorkerIdentity)
    (classes : List TaskClass) (token : ℕ) where
  select_and_lease-DbOk :
      (now : ℕ) (db : Db) {out : Option ScrapeLease × Db}
      → PolicyOk repo.policy
      → DbOk repo.policy db
      → select_and_lease repo locked worker classes token now db ≡ ok out
      → DbOk repo.policy out.1
  select_and_lease-DbOk now db {out} policy h done =
      elim (select_and_lease-cases repo locked worker classes token now db done) [
        | inl idle ↦ subst (λ (o : Option ScrapeLease × Db). DbOk repo.policy o.1) (sym idle) h
        | inr g ↦
            subst (λ (o : Option ScrapeLease × Db). DbOk repo.policy o.1) (sym g.left)
              (let few =
                  candidate-lt_max repo locked worker classes now db g.task
                    (next_task-is_candidate repo locked worker classes now db g.selected) in
                let put =
                  put_task-DbOk repo.policy
                    (claimed repo worker token g.later g.hash g.epoch g.task) db
                    (claimed-TaskOk repo worker token g.later g.hash g.epoch g.task policy few) h in
                record { unique = put.unique; rows = put.rows })
      ]

  -- A claim, with the reaping before it, keeps the invariant.
  pub claim-DbOk :
      (now : Datetime) (db : Db)
      → PolicyOk repo.policy
      → DbOk repo.policy db
      → DbOk repo.policy (claim repo locked worker classes token now db).1
  unfolding claim
  claim-DbOk (Datetime.naive t) db policy h = h
  claim-DbOk (Datetime.aware t) db policy h =
      let reaped_db = (reap_expired repo locked 100 (Datetime.aware t) db).1 in
      let kept = reap_expired-DbOk repo locked 100 (Datetime.aware t) db h in
      commit_keeps (DbOk repo.policy)
        (select_and_lease repo locked worker classes token t reaped_db) reaped_db kept
        (λ out done. select_and_lease-DbOk t reaped_db {out = out} policy kept done)
