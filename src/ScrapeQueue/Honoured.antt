-- ===== src/ScrapeQueue/Honoured.antt =====
-- A lease that `claim` hands out: it is good until it expires, and it shuts every other lease on
-- its task out.
use homez.Prelude.{
  ℕ, ◌+◌, ◌<◌, ◌≡◌, refl, Bool, true, String, List, Option, none, some, arith, ok, insert, ◌||◌,
  eq_iff, find-insert, find,
}
use homez.ScrapeQueue.Contracts.{WorkerIdentity, ScrapeLease, TaskClass, is_discovery, portal_eq}
use homez.ScrapeQueue.Records.{
  Task, Attempt, Activation, Db, Repository, current, get_task, get_worker, get_activation,
  get_attempt, attempt_key,
}
use homez.ScrapeQueue.Lease.{leased, held_by, agrees, known_worker, is_active, put_task}
use homez.ScrapeQueue.Claim.{
  attempt_collides, bound_release, is_candidate, claimed, new_attempt, lease_of, may_work,
}
use homez.ScrapeQueue.Accepted.{Accepted-leased}
use homez.ScrapeQueue.Granted.{Granted}
use homez.ScrapeQueue.Invariant.{DbOk, get_task-put}
use homez.ScrapeQueue.Invariant.Claim.{next_task-get_task, next_task-is_candidate}

-- the release of a granted lease is the active one, or the lease is a discovery's
bound-is_active :
    (repo : Repository) (worker : WorkerIdentity) (token now : ℕ) (t : Task)
    (active : Option Activation) (advertised : List String) (hash : String) (epoch : ℕ)
    → bound_release t active advertised ≡ some (hash, epoch)
    → (is_discovery t.task_class || is_active active (claimed repo worker token now hash epoch t))
      ≡ true
unfolding is_active
bound-is_active repo worker token now t none advertised hash epoch h = ground arith
bound-is_active repo worker token now t (some a) advertised hash epoch h =
    ground (arith, eq_iff hash a.release_hash)

module _ (repo : Repository) (worker : WorkerIdentity) (token later : ℕ) (hash : String) (epoch : ℕ)
    (t : Task) where
  abbrev pub claimed_row : Task
  claimed_row = claimed repo worker token later hash epoch t

  abbrev pub lease : ScrapeLease
  lease = lease_of claimed_row token (later + repo.policy.lease_seconds)

  claimed-held_by :
      (now : ℕ)
      → portal_eq t.source worker.source ≡ true
      → now < later + repo.policy.lease_seconds
      → held_by worker lease now claimed_row ≡ true
  unfolding held_by
  claimed-held_by now source early = ground (arith, eq_iff worker.worker_id worker.worker_id)

  claimed-agrees :
      (active : Option Activation) (now : ℕ)
      → (is_discovery t.task_class || is_active active claimed_row) ≡ true
      → now < later + repo.policy.lease_seconds
      → agrees active lease now claimed_row ≡ true
  unfolding agrees
  claimed-agrees active now bound early =
      ground (arith, eq_iff t.canonical_url t.canonical_url, eq_iff hash hash)

get_attempt-insert :
    (db : Db) (a : Attempt) (rows : List Attempt)
    → insert (attempt_collides a) a db.attempts ≡ ok rows
    → find (attempt_key a.task_id a.attempt_number) rows ≡ some a
get_attempt-insert db a rows inserted =
    find-insert (attempt_collides a) (attempt_key a.task_id a.attempt_number) a db.attempts rows
      inserted (ground arith) (λ z e. ground arith)

module _ (repo : Repository) (locked : ℕ → Bool) (worker : WorkerIdentity)
    (classes : List TaskClass) (token now : ℕ) (db : Db) where
  candidate-source :
      (t : Task)
      → is_candidate repo locked worker (get_activation db worker.source) classes now t ≡ true
      → portal_eq t.source worker.source ≡ true
  unfolding is_candidate
  candidate-source t h = ground arith

  module _ {out : Option ScrapeLease × Db} (g : Granted repo locked worker classes token now db out)
      (h : DbOk repo.policy db) where
    abbrev pub given : ScrapeLease
    given = lease repo worker token g.later g.hash g.epoch g.task

    abbrev pub row' : Task
    row' = claimed_row repo worker token g.later g.hash g.epoch g.task

    abbrev pub store : Db
    store = record (put_task row' db) { attempts = g.attempts }

    pub granted-get_task : get_task store g.task.id ≡ some row'
    granted-get_task =
        get_task-put db g.task row' g.attempts refl
          (next_task-get_task repo locked worker classes now db h g.selected)

    pub granted-get_attempt :
        get_attempt store row'.id row'.attempt_count ≡ some (new_attempt worker token g.later row')
    unfolding get_attempt
    granted-get_attempt =
        get_attempt-insert db (new_attempt worker token g.later row') g.attempts g.inserted

    granted-known_worker : known_worker store worker ≡ true
    unfolding known_worker get_worker may_work
    granted-known_worker = let k = g.known in let m = g.healthy in ground arith

    -- The row that a claim wrote is accepted under the lease that it returned, before it expires.
    pub granted-leased :
        (clocked : Repository) (now' r : ℕ)
        → current clocked 0 now' ≡ ok r
        → now' < g.later + repo.policy.lease_seconds
        → r < g.later + repo.policy.lease_seconds
        → leased clocked store worker given now' ≡ ok row'
    unfolding get_activation
    granted-leased clocked now' r read early early' =
        let source =
          candidate-source g.task
            (next_task-is_candidate repo locked worker classes now db g.selected) in
        let bound =
          bound-is_active repo worker token g.later g.task (get_activation db worker.source)
            g.row.release_hashes g.hash g.epoch g.bound in
        Accepted-leased clocked store worker given now' r row' granted-known_worker granted-get_task
          (claimed-held_by repo worker token g.later g.hash g.epoch g.task now' source early) read
          (claimed-agrees repo worker token g.later g.hash g.epoch g.task
            (get_activation store worker.source) r bound early')
