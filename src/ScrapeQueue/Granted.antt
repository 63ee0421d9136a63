-- ===== src/ScrapeQueue/Granted.antt =====
-- What the transaction of `claim` had in hand when it handed out a lease.
use homez.Prelude.{
  ℕ, ◌+◌, ◌≡◌, refl, Bool, true, List, Option, none, some, ok, Bool-cases, inl, inr, ◌⊎◌, String,
  insert, >>=-eq-ok, sym, ok-injective,
}
use homez.ScrapeQueue.Contracts.{WorkerIdentity, ScrapeLease, TaskClass}
use homez.ScrapeQueue.Records.{
  Task, Attempt, WorkerRow, Db, Repository, current, get_worker, get_activation,
}
use homez.ScrapeQueue.Lease.{put_task}
use homez.ScrapeQueue.Claim.{
  may_work, claimed, attempt_collides, new_attempt, lease_of, bound_release, is_fresh, grant_bound,
  take_task, serve_worker, next_task, select_and_lease,
}

pub record Granted (repo : Repository) (locked : ℕ → Bool) (worker : WorkerIdentity)
    (classes : List TaskClass) (token now : ℕ) (db : Db) (out : Option ScrapeLease × Db)
    : Type 0 where
  pub row : WorkerRow
  pub known : get_worker db worker.worker_id ≡ some row
  pub healthy : may_work repo worker row now ≡ true
  pub task : Task
  pub selected : next_task repo locked worker classes now db ≡ some task
  pub later : ℕ
  pub read : current repo 0 now ≡ ok later
  pub fresh : is_fresh repo row later ≡ true
  pub hash : String
  pub epoch : ℕ
  pub bound :
      bound_release task (get_activation db worker.source) row.release_hashes ≡ some (hash, epoch)
  pub attempts : List Attempt
  pub inserted :
      insert
        (attempt_collides
          (new_attempt worker token later (claimed repo worker token later hash epoch task)))
        (new_attempt worker token later (claimed repo worker token later hash epoch task))
        db.attempts
      ≡ ok attempts
  pub left : out ≡ (
    some (
        lease_of
          (claimed repo worker token later hash epoch task)
          token
          (later + repo.policy.lease_seconds)),
    record (put_task (claimed repo worker token later hash epoch task) db) { attempts = attempts },
  )

abbrev Outcome : Type 0
Outcome = Option ScrapeLease × Db

module _ (repo : Repository) (locked : ℕ → Bool) (worker : WorkerIdentity)
    (classes : List TaskClass) (token now : ℕ) (db : Db) where
  abbrev Claims : Outcome → Type 0
  Claims out = (out ≡ (none, db)) ⊎ Granted repo locked worker classes token now db out

  grant_bound-cases :
      (row : WorkerRow) (task : Task) (later : ℕ) (release : Option (String × ℕ))
      → get_worker db worker.worker_id ≡ some row
      → may_work repo worker row now ≡ true
      → next_task repo locked worker classes now db ≡ some task
      → current repo 0 now ≡ ok later
      → is_fresh repo row later ≡ true
      → bound_release task (get_activation db worker.source) row.release_hashes ≡ release
      → {out : Outcome} → grant_bound repo worker token later release task db ≡ ok out
      → Claims out
  grant_bound-cases row task later none known healthy selected read fresh bound h =
      inl (sym (ok-injective h))
  grant_bound-cases row task later (some (hash, epoch)) known healthy selected read fresh bound h =
      let (attempts, inserted, made) =
        >>=-eq-ok
          (insert
            (attempt_collides
              (new_attempt worker token later (claimed repo worker token later hash epoch task)))
            (new_attempt worker token later (claimed repo worker token later hash epoch task))
            db.attempts)
          _ h in
      inr (record {
        row = row;
        known = known;
        healthy = healthy;
        task = task;
        selected = selected;
        later = later;
        read = read;
        fresh = fresh;
        hash = hash;
        epoch = epoch;
        bound = bound;
        attempts = attempts;
        inserted = inserted;
        left = sym (ok-injective made);
      })

  take_task-cases :
      (row : WorkerRow) (task : Option Task)
      → get_worker db worker.worker_id ≡ some row
      → may_work repo worker row now ≡ true
      → next_task repo locked worker classes now db ≡ task
      → {out : Outcome}
      → take_task repo worker row (get_activation db worker.source) token now task db ≡ ok out
      → Claims out
  take_task-cases row none known healthy selected h = inl (sym (ok-injective h))
  take_task-cases row (some task) known healthy selected {out} h =
      let (later, read, rest) = >>=-eq-ok (current repo 0 now) _ h in
      elim (Bool-cases (is_fresh repo row later)) [
        | inl fresh ↦
            grant_bound-cases row task later _ known healthy selected read fresh refl
              (rw fresh at rest)
        | inr stale ↦ inl (sym (ok-injective (rw stale at rest)))
      ]

  serve_worker-cases :
      (row : Option WorkerRow)
      → get_worker db worker.worker_id ≡ row
      → {out : Outcome}
      → serve_worker repo worker row
          (get_activation db worker.source)
          token
          now
          (next_task repo locked worker classes now db)
          db
        ≡ ok out
      → Claims out
  serve_worker-cases none known h = inl (sym (ok-injective h))
  serve_worker-cases (some row) known {out} h = elim (Bool-cases (may_work repo worker row now)) [
    | inl healthy ↦ take_task-cases row _ known healthy refl (rw healthy at h)
    | inr unfit ↦ inl (sym (ok-injective (rw unfit at h)))
  ]

  -- Either nothing was claimed and the store is as it was, or a lease was granted.
  pub select_and_lease-cases :
      {out : Outcome}
      → select_and_lease repo locked worker classes token now db ≡ ok out
      → Claims out
  unfolding select_and_lease
  select_and_lease-cases {out} h = serve_worker-cases (get_worker db worker.worker_id) refl h
