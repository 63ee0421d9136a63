-- ===== src/ScrapeQueue/Claim.antt =====
-- scrape_queue/repository.py: `claim`. Rows that other transactions hold locked are skipped by the
-- argument `locked`.
use homez.Prelude.{
  ℕ, ◌+◌, Bool, false, not, ◌&&◌, ◌||◌, String, List, [], ◌∷◌, Option, none, some, Result, ok, err,
  ◌>>=◌, insert, where_rows, first, leb, ltb, ◌==◌, if◌then◌else◌, Datetime, require_aware, commit,
}
use homez.ScrapeQueue.Contracts.{
  portal_eq, TaskClass, class_eq, is_discovery, WorkerIdentity, ScrapeLease,
}
use homez.ScrapeQueue.Records.{
  running, unassigned, is_claimable, Task, Attempt, WorkerRow, Activation, Db, Repository, current,
  attempt_key, same_identity, get_worker, get_activation, contains,
}
use homez.ScrapeQueue.Lease.{put_task}
use homez.ScrapeQueue.Reaping.{reap_expired}

abbrev pub has_class : List TaskClass → TaskClass → Bool
has_class [] c = false
has_class (x ∷ xs) c = class_eq x c || has_class xs c

-- `row is None or not row.healthy or … or heartbeat too old`, negated
abbrev pub is_fresh : Repository → WorkerRow → ℕ → Bool
is_fresh repo row now = ltb now (row.heartbeat_at + repo.policy.worker_health_seconds)

unfoldable pub may_work : Repository → WorkerIdentity → WorkerRow → ℕ → Bool
may_work repo worker row now = row.healthy && same_identity row worker && is_fresh repo row now

-- the classes that the worker may take: with no active parser, discovery alone
abbrev pub is_allowed : Option Activation → List TaskClass → TaskClass → Bool
is_allowed none classes c = has_class classes c && is_discovery c
is_allowed (some a) classes c = has_class classes c

-- the WHERE clause of the SELECT, on rows that are not locked
unfoldable pub is_candidate :
    Repository → (ℕ → Bool) → WorkerIdentity → Option Activation → List TaskClass → ℕ → Task → Bool
is_candidate repo locked worker active classes now t =
    portal_eq t.source worker.source
    && is_allowed active classes t.task_class
    && is_claimable t.state
    && leb t.available_at now
    && ltb t.attempt_count repo.policy.max_attempts
    && not (locked t.id)

-- `order_by(priority, available_at, created_at, id)`
abbrev pub claims_before : Task → Task → Bool
claims_before a b =
    ltb a.priority b.priority
    || ((a.priority == b.priority)
        && (ltb a.available_at b.available_at
            || ((a.available_at == b.available_at)
                && (ltb a.created_at b.created_at
                    || ((a.created_at == b.created_at) && ltb a.id b.id)))))

-- the release that the lease is bound to, if the worker advertises it
abbrev pub bound_release : Task → Option Activation → List String → Option (String × ℕ)
bound_release t active advertised =
    if is_discovery t.task_class
    then (if contains advertised t.release_hash
        then some (t.release_hash, t.activation_epoch)
        else none)
    else elim active [
      | none ↦ none
      | some a ↦
          if contains advertised a.release_hash
          then some (a.release_hash, a.activation_epoch)
          else none
    ]

-- the columns that a claim writes
abbrev pub claimed : Repository → WorkerIdentity → ℕ → ℕ → String → ℕ → Task → Task
claimed repo worker token now hash epoch t = record t {
  release_hash = hash;
  activation_epoch = epoch;
  state = running;
  attempt_count = t.attempt_count + 1;
  lease_owner = some worker.worker_id;
  lease_token = some token;
  lease_started_at = some now;
  lease_expires_at = some (now + repo.policy.lease_seconds);
}

abbrev pub new_attempt : WorkerIdentity → ℕ → ℕ → Task → Attempt
new_attempt worker token now t = record {
  task_id = t.id;
  attempt_number = t.attempt_count;
  lease_token = token;
  worker_id = worker.worker_id;
  release_hash = t.release_hash;
  activation_epoch = t.activation_epoch;
  started_at = now;
  finished_at = none;
  outcome = none;
  code = none;
  route_class = unassigned;
  route_id = none;
  proxy_reserved_bytes = 0;
  network_attempt_count = 0;
  network_started_at = none;
  classification = none;
  response_bytes = 0;
}

abbrev pub lease_of : Task → ℕ → ℕ → ScrapeLease
lease_of t token expires = record {
  task_id = t.id;
  source = t.source;
  snapshot_id = t.snapshot_id;
  canonical_url = t.canonical_url;
  task_class = t.task_class;
  release_hash = t.release_hash;
  activation_epoch = t.activation_epoch;
  lease_token = token;
  lease_expires_at = expires;
  attempt_number = t.attempt_count;
}

-- the primary key and the UNIQUE lease token of an attempt
abbrev pub attempt_collides : Attempt → Attempt → Bool
attempt_collides new a =
    attempt_key new.task_id new.attempt_number a || (a.lease_token == new.lease_token)

-- the end of `claim`: the row is taken and the attempt inserted
abbrev pub grant :
    Repository → WorkerIdentity → ℕ → ℕ → String × ℕ → Task → Db → Result (Option ScrapeLease × Db)
grant repo worker token now release t db =
    let taken = claimed repo worker token now release.0 release.1 t in
    do
      rows ←
          insert (attempt_collides (new_attempt worker token now taken))
            (new_attempt worker token now taken) db.attempts
      ok (
        some (lease_of taken token (now + repo.policy.lease_seconds)),
        record (put_task taken db) { attempts = rows },
      )

-- no lease, where the worker does not advertise the release
abbrev pub grant_bound :
    Repository
    → WorkerIdentity
    → ℕ
    → ℕ
    → Option (String × ℕ)
    → Task
    → Db
    → Result (Option ScrapeLease × Db)
grant_bound repo worker token now none t db = ok (none, db)
grant_bound repo worker token now (some release) t db = grant repo worker token now release t db

-- the part of `claim` behind the SELECT of the task
abbrev pub take_task :
    Repository
    → WorkerIdentity
    → WorkerRow
    → Option Activation
    → ℕ
    → ℕ
    → Option Task
    → Db
    → Result (Option ScrapeLease × Db)
take_task repo worker row active token now none db = ok (none, db)
take_task repo worker row active token now (some t) db = do
  later ← current repo 0 now
  if is_fresh repo row later
      then grant_bound repo worker token later (bound_release t active row.release_hashes) t db
      else ok (none, db)

-- the part of `claim` behind the SELECT of the worker
abbrev pub serve_worker :
    Repository
    → WorkerIdentity
    → Option WorkerRow
    → Option Activation
    → ℕ
    → ℕ
    → Option Task
    → Db
    → Result (Option ScrapeLease × Db)
serve_worker repo worker none active token now task db = ok (none, db)
serve_worker repo worker (some row) active token now task db =
    if may_work repo worker row now
    then take_task repo worker row active token now task db
    else ok (none, db)

-- the SELECT of the task
abbrev pub next_task :
    Repository → (ℕ → Bool) → WorkerIdentity → List TaskClass → ℕ → Db → Option Task
next_task repo locked worker classes now db = first claims_before (
    where_rows (is_candidate repo locked worker (get_activation db worker.source) classes now)
      db.tasks)

-- the transaction of `claim`; `token` is the value of `uuid4()`
unfoldable pub select_and_lease :
    Repository
    → (ℕ → Bool)
    → WorkerIdentity
    → List TaskClass
    → ℕ
    → ℕ
    → Db
    → Result (Option ScrapeLease × Db)
select_and_lease repo locked worker classes token now db =
    serve_worker repo worker (get_worker db worker.worker_id) (get_activation db worker.source)
      token now (next_task repo locked worker classes now db) db

-- `claim`: the expired leases are reaped in a transaction of their own first.
unfoldable pub claim :
    Repository
    → (ℕ → Bool)
    → WorkerIdentity
    → List TaskClass
    → ℕ
    → Datetime
    → Db
    → Result (Option ScrapeLease) × Db
claim repo locked worker classes token supplied db = elim (require_aware supplied) [
  | err e ↦ (err e, db)
  | ok now ↦
      let reaped_db = (reap_expired repo locked 100 supplied db).1 in
      commit (select_and_lease repo locked worker classes token now reaped_db) reaped_db
]
