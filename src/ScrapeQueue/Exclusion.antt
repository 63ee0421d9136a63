-- ===== src/ScrapeQueue/Exclusion.antt =====
-- Mutual exclusion of the leases of scrape_queue/repository.py.
use homez.Prelude.{ℕ, ◌≡◌, none, some, refl, ok, arith, eq_iff}
use homez.ScrapeQueue.Contracts.{WorkerIdentity, ScrapeLease}
use homez.ScrapeQueue.Records.{Task, Db, Repository, get_task}
use homez.ScrapeQueue.Lease.{leased, held_by, agrees}
use homez.ScrapeQueue.Accepted.{Accepted, leased-Accepted}

-- the columns that a held row shares with its lease
record Holds (worker : WorkerIdentity) (lease : ScrapeLease) (t : Task) : Type 0 where
  owner : t.lease_owner ≡ some worker.worker_id
  token : t.lease_token ≡ some lease.lease_token
  number : t.attempt_count ≡ lease.attempt_number
  hash : lease.release_hash ≡ t.release_hash

Accepted-Holds :
    (repo : Repository) (db : Db) (worker : WorkerIdentity) (lease : ScrapeLease) (now : ℕ)
    {t : Task}
    → Accepted repo db worker lease now t
    → Holds worker lease t
unfolding held_by agrees
Accepted-Holds repo db worker lease now {t} a =
    let held = a.held in
    let agreed = a.agreed in
    record {
      owner =
          elim t.lease_owner as (λ o. t.lease_owner ≡ o → t.lease_owner ≡ some worker.worker_id) [
            | none ↦ λ e. ground arith
            | some w ↦ λ e. ground (arith, eq_iff w worker.worker_id)
          ]
            refl;
      token = ground arith;
      number = ground arith;
      hash = ground (arith, eq_iff lease.release_hash t.release_hash);
    }

-- Two leases on one task that one store accepts, at any two times, are one: the worker, the token,
-- the attempt and the release are the same.
pub leased_exclusive :
    (repo repo' : Repository) (db : Db) (w w' : WorkerIdentity) (l l' : ScrapeLease) (now now' : ℕ)
    (t t' : Task)
    → l.task_id ≡ l'.task_id
    → leased repo db w l now ≡ ok t
    → leased repo' db w' l' now' ≡ ok t'
    → (w.worker_id ≡ w'.worker_id)
      × (l.lease_token ≡ l'.lease_token)
      × (l.attempt_number ≡ l'.attempt_number)
      × (l.release_hash ≡ l'.release_hash)
leased_exclusive repo repo' db w w' l l' now now' t t' same h h' =
    let a = leased-Accepted repo db w l now h in
    let a' = leased-Accepted repo' db w' l' now' h' in
    let found : get_task db l.task_id ≡ some t = a.found in
    let found' : get_task db l.task_id ≡ some t' = rw (← same) at a'.found in
    let row : t ≡ t' = ground arith in
    let b = Accepted-Holds repo db w l now a in
    let b' = Accepted-Holds repo' db w' l' now' a' in
    (ground arith, ground arith, ground arith, ground arith)
