-- ===== src/ScrapeQueue/Finished.antt =====
-- Finished tasks of scrape_queue/ over any sequence of operations.
use homez.Prelude.{
  ℕ, ◌≡◌, true, some, Bool-cases, inl, inr, Datetime, Bool, List, String, ◌&&◌, commit_keeps,
}
use homez.ScrapeQueue.Contracts.{QueuePolicy, PolicyOk, WorkerIdentity, ScrapeLease}
use homez.ScrapeQueue.Records.{Task, Db, get_task, is_terminal, contains, Repository}
use homez.ScrapeQueue.Finish.{
  succeed, fail, defer, success, failure, deferral, success_codes, failure_codes, defer_codes,
  earlier,
}
use homez.ScrapeQueue.Registration.{register, register_worker}
use homez.ScrapeQueue.Invariant.{DbOk}
use homez.ScrapeQueue.Terminal.{
  Keeps, finish-Keeps, heartbeat-Keeps, claim-Keeps, reap_expired-Keeps,
}
use homez.ScrapeQueue.Inserted.{enqueue_task-get_task}
use homez.ScrapeQueue.Canary.Released.{release_discovery_canary_keeps}
use homez.ScrapeQueue.Completion.Closed.{complete-Keeps}
use homez.ScrapeQueue.Completion.Replayed.{complete_artifact_replay-Keeps}
use homez.ScrapeQueue.Reachable.{
  Step, registers, reaps, claims, beats, succeeds, fails, defers, inserts, completes, replays,
  releases, Reach, here, next, queue, Reach-DbOk, register-tasks,
}

module _ (n : ℕ) (t : Task) (ended : is_terminal t.state ≡ true) where
  register-Keeps :
      (worker : WorkerIdentity) (hashes : List String) (now : Datetime) (healthy : Bool) (db : Db)
      → Keeps n t ended db
      → Keeps n t ended (register_worker worker hashes now healthy db).1
  unfolding register_worker get_task
  register-Keeps worker hashes now healthy db h =
      commit_keeps (Keeps n t ended) (register worker hashes now healthy db) db h
        (λ out done. rw (register-tasks worker hashes now healthy db {out = out} done) h)

  succeed-Keeps :
      (repo : Repository) (worker : WorkerIdentity) (lease : ScrapeLease) (now : Datetime)
      (code : String) (bytes : ℕ) (db : Db)
      → Keeps n t ended db
      → Keeps n t ended (succeed repo worker lease now code bytes db).1
  unfolding succeed
  succeed-Keeps repo worker lease now code bytes db h =
      elim (Bool-cases (contains success_codes code)) [
        | inl known ↦
            rw known (finish-Keeps n t ended repo worker lease now (success code bytes) db h)
        | inr other ↦ rw other h
      ]

  fail-Keeps :
      (repo : Repository) (worker : WorkerIdentity) (lease : ScrapeLease) (now : Datetime)
      (code : String) (db : Db)
      → Keeps n t ended db
      → Keeps n t ended (fail repo worker lease now code db).1
  unfolding fail
  fail-Keeps repo worker lease now code db h = elim (Bool-cases (contains failure_codes code)) [
    | inl known ↦ rw known (finish-Keeps n t ended repo worker lease now (failure code) db h)
    | inr other ↦ rw other h
  ]

  defer-Keeps :
      (repo : Repository) (worker : WorkerIdentity) (lease : ScrapeLease) (now available : Datetime)
      (code : String) (db : Db)
      → Keeps n t ended db
      → Keeps n t ended (defer repo worker lease now available code db).1
  unfolding defer
  defer-Keeps repo worker lease now (Datetime.naive at) code db h = h
  defer-Keeps repo worker lease now (Datetime.aware at) code db h =
      elim (Bool-cases (contains defer_codes code && earlier at now)) [
        | inl known ↦
            rw known (finish-Keeps n t ended repo worker lease now (deferral code at) db h)
        | inr other ↦ rw other h
      ]

  Step-Keeps :
      {policy : QueuePolicy} {db db' : Db}
      → DbOk policy db
      → Step policy db db'
      → Keeps n t ended db
      → Keeps n t ended db'
  Step-Keeps valid (registers worker hashes now healthy db) h =
      register-Keeps worker hashes now healthy db h
  Step-Keeps {policy} valid (reaps clock locked limit now db) h =
      reap_expired-Keeps n t ended (queue policy clock) locked limit now db valid h
  Step-Keeps {policy} valid (claims clock locked worker classes token now db) h =
      claim-Keeps n t ended (queue policy clock) locked worker classes token now db valid h
  Step-Keeps {policy} valid (beats clock worker lease now db) h =
      heartbeat-Keeps n t ended (queue policy clock) worker lease now db h
  Step-Keeps {policy} valid (succeeds clock worker lease now code bytes db) h =
      succeed-Keeps (queue policy clock) worker lease now code bytes db h
  Step-Keeps {policy} valid (fails clock worker lease now code db) h =
      fail-Keeps (queue policy clock) worker lease now code db h
  Step-Keeps valid (inserts catalog x r id now db) h =
      enqueue_task-get_task n t catalog x r id now db h
  Step-Keeps {policy} valid (completes x clock worker lease o ids now db) h =
      complete-Keeps n t ended x (queue policy clock) worker lease o ids now db h
  Step-Keeps {policy} valid (replays digest clock bindings worker lease p ids now db) h =
      complete_artifact_replay-Keeps digest (queue policy clock) bindings worker lease p ids now db
        n t ended h
  Step-Keeps valid (releases catalog x r drawn now db audits) h =
      release_discovery_canary_keeps (Keeps n t ended) catalog x now
        (λ request id before. enqueue_task-get_task n t catalog x request id now before) r drawn db
        audits h
  Step-Keeps {policy} valid (defers clock worker lease now available code db) h =
      defer-Keeps (queue policy clock) worker lease now available code db h

-- Under an accepted policy and from a store that satisfies the invariant, the row of a succeeded
-- or failed task is the same in every store that the operations reach: it is never claimed,
-- renewed, acknowledged, completed, replayed or reaped again.
pub Reach-get_task :
    {policy : QueuePolicy} {start db : Db} (n : ℕ) (t : Task)
    → PolicyOk policy
    → DbOk policy start
    → get_task start n ≡ some t
    → is_terminal t.state ≡ true
    → Reach policy start db
    → get_task db n ≡ some t
Reach-get_task n t p valid found ended here = found
Reach-get_task n t p valid found ended (next r s) =
    Step-Keeps n t ended (Reach-DbOk p valid r) s (Reach-get_task n t p valid found ended r)
