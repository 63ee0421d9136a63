-- ===== src/ScrapeQueue/Reachable.antt =====
-- The stores that the operations of scrape_queue/repository.py reach, in any order and from any
-- number of workers, whatever their arguments are.
use homez.Prelude.{
  ℕ, ◌≡◌, Bool, List, String, Datetime, ok, require_aware, guard, >>=-eq-ok, leb, length, ◌&&◌,
  value_error, sym, ap, ok-injective, commit_keeps,
}
use homez.ScrapeQueue.Contracts.{WorkerIdentity, ScrapeLease, TaskClass, QueuePolicy, PolicyOk}
use homez.ScrapeQueue.Records.{Db, Repository, Clock, same_identity}
use homez.ScrapeQueue.Lease.{heartbeat}
use homez.ScrapeQueue.Finish.{succeed, fail, defer}
use homez.ScrapeQueue.Registration.{upsert, all_hashes, register, register_worker}
use homez.ScrapeQueue.Reaping.{reap_expired}
use homez.ScrapeQueue.Claim.{claim}
use homez.ScrapeQueue.Captures.{CaptureOutcome}
use homez.ScrapeQueue.Insertion.{Catalog, Texts, Request, enqueue_task}
use homez.ScrapeQueue.Inserted.{enqueue_task-DbOk}
use homez.ScrapeQueue.Completion.{Drawn, complete}
use homez.ScrapeQueue.Completion.Checks.{Encoding}
use homez.ScrapeQueue.Canary.{CanaryRequest, CanaryAudit, release_discovery_canary}
use homez.ScrapeQueue.Canary.Released.{release_discovery_canary_keeps}
use homez.ScrapeQueue.Completion.Closed.{complete-DbOk}
use homez.ScrapeQueue.Completion.Replay.{Binding, complete_artifact_replay}
use homez.ScrapeQueue.Completion.Replayed.{complete_artifact_replay-DbOk}
use homez.Parsers.Results.{ParserResult}
use homez.ScrapeQueue.Invariant.{DbOk}
use homez.ScrapeQueue.Invariant.Finish.{heartbeat-DbOk, succeed-DbOk, fail-DbOk, defer-DbOk}
use homez.ScrapeQueue.Invariant.Reap.{reap_expired-DbOk}
use homez.ScrapeQueue.Invariant.Claim.{claim-DbOk}

abbrev pub queue : QueuePolicy → Clock → Repository
queue policy clock = record { policy = policy; clock = clock }

-- One operation. The clock may read anything, and any rows may be locked.
pub data Step (policy : QueuePolicy) : Db → Db → Type 0 where
  registers :
      (worker : WorkerIdentity) (hashes : List String) (now : Datetime) (healthy : Bool) (db : Db)
      → Step policy db (register_worker worker hashes now healthy db).1
  reaps :
      (clock : Clock) (locked : ℕ → Bool) (limit : ℕ) (now : Datetime) (db : Db)
      → Step policy db (reap_expired (queue policy clock) locked limit now db).1
  claims :
      (clock : Clock) (locked : ℕ → Bool) (worker : WorkerIdentity) (classes : List TaskClass)
      (token : ℕ) (now : Datetime) (db : Db)
      → Step policy db (claim (queue policy clock) locked worker classes token now db).1
  beats :
      (clock : Clock) (worker : WorkerIdentity) (lease : ScrapeLease) (now : Datetime) (db : Db)
      → Step policy db (heartbeat (queue policy clock) worker lease now db).1
  succeeds :
      (clock : Clock) (worker : WorkerIdentity) (lease : ScrapeLease) (now : Datetime)
      (code : String) (bytes : ℕ) (db : Db)
      → Step policy db (succeed (queue policy clock) worker lease now code bytes db).1
  fails :
      (clock : Clock) (worker : WorkerIdentity) (lease : ScrapeLease) (now : Datetime)
      (code : String) (db : Db)
      → Step policy db (fail (queue policy clock) worker lease now code db).1
  inserts :
      (catalog : Catalog) (x : Texts) (r : Request) (id : ℕ) (now : Datetime) (db : Db)
      → Step policy db (enqueue_task catalog x r id now db).1
  completes :
      (x : Encoding) (clock : Clock) (worker : WorkerIdentity) (lease : ScrapeLease)
      (o : CaptureOutcome) (ids : Drawn) (now : Datetime) (db : Db)
      → Step policy db (complete x (queue policy clock) worker lease o ids now db).1
  replays :
      (digest : ParserResult → String) (clock : Clock) (bindings : List Binding)
      (worker : WorkerIdentity) (lease : ScrapeLease) (p : ParserResult) (ids : Drawn) (now : ℕ)
      (db : Db)
      → Step policy db
          (complete_artifact_replay digest
            (queue policy clock)
            bindings
            worker
            lease
            p
            ids
            now
            db).1
  releases :
      (catalog : Catalog) (x : Texts) (r : CanaryRequest) (drawn : ℕ → ℕ) (now : Datetime) (db : Db)
      (audits : List CanaryAudit)
      → Step policy db (release_discovery_canary catalog x r drawn now db audits).1
  defers :
      (clock : Clock) (worker : WorkerIdentity) (lease : ScrapeLease) (now available : Datetime)
      (code : String) (db : Db)
      → Step policy db (defer (queue policy clock) worker lease now available code db).1

pub data Reach (policy : QueuePolicy) (start : Db) : Db → Type 0 where
  here : Reach policy start start
  next : {db db' : Db} → Reach policy start db → Step policy db db' → Reach policy start db'

pub register-tasks :
    (worker : WorkerIdentity) (hashes : List String) (now : Datetime) (healthy : Bool) (db : Db)
    {out : Unit {0} × Db}
    → register worker hashes now healthy db ≡ ok out
    → out.1.tasks ≡ db.tasks
unfolding register
register-tasks worker hashes supplied healthy db {out} h =
    let (now, _, h1) = >>=-eq-ok (require_aware supplied) _ h in
    let (_, _, h2) =
      >>=-eq-ok (guard (leb (length hashes) 64 && all_hashes hashes) value_error) _ h1 in
    let (found, _, h3) = >>=-eq-ok (upsert db worker hashes now healthy) _ h2 in
    let (_, _, h4) = >>=-eq-ok (guard (same_identity found.0 worker) value_error) _ h3 in
    let (_, _, h5) = >>=-eq-ok (guard (leb found.0.heartbeat_at now) value_error) _ h4 in
    ap (λ (o : Unit {0} × Db). o.1.tasks) (sym (ok-injective h5))

register_worker-DbOk :
    (policy : QueuePolicy) (worker : WorkerIdentity) (hashes : List String) (now : Datetime)
    (healthy : Bool) (db : Db)
    → DbOk policy db
    → DbOk policy (register_worker worker hashes now healthy db).1
unfolding register_worker
register_worker-DbOk policy worker hashes now healthy db h =
    commit_keeps (DbOk policy) (register worker hashes now healthy db) db h (λ out done.
      let same = register-tasks worker hashes now healthy db {out = out} done in
      record { unique = rw same h.unique; rows = rw same h.rows })

pub Step-DbOk :
    {policy : QueuePolicy} {db db' : Db}
    → PolicyOk policy
    → Step policy db db'
    → DbOk policy db
    → DbOk policy db'
Step-DbOk {policy} p (registers worker hashes now healthy db) h =
    register_worker-DbOk policy worker hashes now healthy db h
Step-DbOk {policy} p (reaps clock locked limit now db) h =
    reap_expired-DbOk (queue policy clock) locked limit now db h
Step-DbOk {policy} p (claims clock locked worker classes token now db) h =
    claim-DbOk (queue policy clock) locked worker classes token now db p h
Step-DbOk {policy} p (beats clock worker lease now db) h =
    heartbeat-DbOk (queue policy clock) worker lease now db h
Step-DbOk {policy} p (succeeds clock worker lease now code bytes db) h =
    succeed-DbOk (queue policy clock) worker lease now code bytes db h
Step-DbOk {policy} p (fails clock worker lease now code db) h =
    fail-DbOk (queue policy clock) worker lease now code db h
Step-DbOk {policy} p (inserts catalog x r id now db) h =
    enqueue_task-DbOk policy catalog x r id now db h
Step-DbOk {policy} p (completes x clock worker lease o ids now db) h =
    complete-DbOk x (queue policy clock) worker lease o ids now db h
Step-DbOk {policy} p (replays digest clock bindings worker lease result ids now db) h =
    complete_artifact_replay-DbOk digest (queue policy clock) bindings worker lease result ids now
      db h
Step-DbOk {policy} p (releases catalog x r drawn now db audits) h =
    release_discovery_canary_keeps (DbOk policy) catalog x now
      (λ request id before. enqueue_task-DbOk policy catalog x request id now before) r drawn db
      audits h
Step-DbOk {policy} p (defers clock worker lease now available code db) h =
    defer-DbOk (queue policy clock) worker lease now available code db h

-- From a store that satisfies the invariant, under an accepted policy, every store that the
-- operations reach in any order satisfies it: keys are unique; a running task has an owner, a
-- token, a lease window of at most `max_lease_seconds` and at least one attempt; any other task
-- has no lease column set; no task has more than `max_attempts` attempts; a succeeded or failed
-- task has its time of finishing.
pub Reach-DbOk :
    {policy : QueuePolicy} {start db : Db}
    → PolicyOk policy
    → DbOk policy start
    → Reach policy start db
    → DbOk policy db
Reach-DbOk p h here = h
Reach-DbOk p h (next r s) = Step-DbOk p s (Reach-DbOk p h r)
