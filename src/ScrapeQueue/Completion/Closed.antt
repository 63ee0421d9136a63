-- ===== src/ScrapeQueue/Completion/Closed.antt =====
-- What `complete` of scrape_queue/repository.py does to the tasks.
use homez.Prelude.{
  ℕ, ◌≡◌, refl, sym, subst, ap, Bool, true, false, String, Option, none, some, ok, err, lost_lease,
  value_error, >>=-eq-ok, guard, ok-injective, Bool-cases, inl, inr, arith, Datetime, commit_keeps,
  find, insert, is_some, if◌then◌else◌,
}
use homez.ScrapeQueue.Contracts.{WorkerIdentity, ScrapeLease, is_discovery}
use homez.ScrapeQueue.Captures.{CaptureOutcome, Captured, DiscoveryCapture, ProductionResult}
use homez.ScrapeQueue.Records.{
  Task, Attempt, Db, Repository, current, get_task, get_attempt, get_activation, is_terminal,
}
use homez.ScrapeQueue.Lease.{leased, put_task, put_attempt}
use homez.ScrapeQueue.Accepted.{Accepted, leased-Accepted}
use homez.ScrapeQueue.Invariant.{DbOk, put_task-DbOk, get_task-TaskOk}
use homez.ScrapeQueue.Invariant.Finish.{idle-TaskOk}
use homez.ScrapeQueue.Terminal.{Keeps, put_ne, Accepted-live}
use homez.ScrapeQueue.Completion.Checks.{Encoding, Checked, check_outcome}
use homez.ScrapeQueue.Completion.{
  Drawn, capture_of, discovery_of, artifact_or_empty, is_fetched_since, open_row, completed_attempt,
  completed_task, close_task, same_discovery, discovery_collides, store_capture, complete_discovery,
  store_result, completion_code, complete_result, complete_capture, complete, discovery_key,
  result_key,
}

-- The end of a completion: the open attempt and the task are written, over the tables given.
pub record Closed (repo : Repository) (t : Task) (code : String) (bytes now : ℕ) (tables : Captured)
    (db : Db) (out : Unit {0} × Db) : Type 0 where
  pub attempt : Attempt
  pub opened : get_attempt db t.id t.attempt_count ≡ some attempt
  pub first : ℕ
  pub second : ℕ
  pub read : current repo 2 now ≡ ok second
  pub left : out ≡ (
    tt,
    record (put_attempt
        (completed_attempt attempt first code bytes)
        (put_task (completed_task t second) db)) { captured = tables },
  )

pub open_row-eq-ok : (o : Option Attempt) {a : Attempt} → open_row o ≡ ok a → o ≡ some a
open_row-eq-ok none h = absurd (ground arith)
open_row-eq-ok (some b) h = ap some (ok-injective h)

pub close_task-Closed :
    (repo : Repository) (t : Task) (code : String) (bytes now : ℕ) (tables : Captured) (db : Db)
    {out : Unit {0} × Db}
    → close_task repo t code bytes now tables db ≡ ok out
    → Closed repo t code bytes now tables db out
unfolding close_task
close_task-Closed repo t code bytes now tables db done =
    let (a, opened, h1) = >>=-eq-ok (open_row (get_attempt db t.id t.attempt_count)) _ done in
    let (first, _, h2) = >>=-eq-ok (current repo 1 now) _ h1 in
    let (second, read, h3) = >>=-eq-ok (current repo 2 now) _ h2 in
    record {
      attempt = a;
      opened = open_row-eq-ok (get_attempt db t.id t.attempt_count) opened;
      first = first;
      second = second;
      read = read;
      left = sym (ok-injective h3);
    }

-- What a completion that went through did: nothing, or the end of the leased task.
pub data Completed (repo : Repository) (worker : WorkerIdentity) (lease : ScrapeLease) (db : Db)
    : Unit {0} × Db → Type 0 where
  before : Completed repo worker lease db (tt, db)
  closed :
      (t : Task) (attempt : Attempt) (at now : ℕ) (tables : Captured) {out : Unit {0} × Db}
      → Accepted repo db worker lease now t
      → out ≡ (
        tt,
        record (put_attempt attempt (put_task (completed_task t at) db)) { captured = tables },
      )
      → Completed repo worker lease db out

Closed-Completed :
    (repo : Repository) (worker : WorkerIdentity) (lease : ScrapeLease) (t : Task) (code : String)
    (bytes now : ℕ) (tables : Captured) (db : Db) {out : Unit {0} × Db}
    → Accepted repo db worker lease now t
    → Closed repo t code bytes now tables db out
    → Completed repo worker lease db out
Closed-Completed repo worker lease t code bytes now tables db a c =
    closed t (completed_attempt c.attempt c.first code bytes) c.second now tables a c.left

module _ (repo : Repository) (worker : WorkerIdentity) (lease : ScrapeLease) (o : CaptureOutcome)
    (k : Checked) (db : Db) where
  accepted_before :
      (same : Bool) {out : Unit {0} × Db}
      → (if same then ok (tt, db) else err lost_lease) ≡ ok out
      → Completed repo worker lease db out
  accepted_before true done = subst (Completed repo worker lease db) (ok-injective done) before
  accepted_before false done = absurd (ground arith)

  complete_discovery-Completed :
      (prior : Option DiscoveryCapture) {out : Unit {0} × Db}
      → complete_discovery repo worker lease o k prior db ≡ ok out
      → Completed repo worker lease db out
  unfolding complete_discovery
  complete_discovery-Completed (some prior) done = accepted_before (same_discovery prior o) done
  complete_discovery-Completed none done =
      let (t, held, h1) = >>=-eq-ok (leased repo db worker lease k.now) _ done in
      let (_, _, h2) =
        >>=-eq-ok (guard (is_fetched_since t.lease_started_at k.fetched) value_error) _ h1 in
      let (tables, _, h3) = >>=-eq-ok (store_capture db.captured (capture_of t o k.fetched)) _ h2 in
      let (rows, _, h4) =
        >>=-eq-ok
          (insert
            (discovery_collides (discovery_of t o (artifact_or_empty o.artifact_id) k.fetched))
            (discovery_of t o (artifact_or_empty o.artifact_id) k.fetched) tables.discoveries)
          _ h3 in
      Closed-Completed repo worker lease t "discovery-captured" o.size_bytes k.now
        (record tables { discoveries = rows }) db (leased-Accepted repo db worker lease k.now held)
        (close_task-Closed repo t "discovery-captured" o.size_bytes k.now _ db h4)

  complete_result-Completed :
      (x : Encoding) (ids : Drawn) (prior : Option ProductionResult) {out : Unit {0} × Db}
      → complete_result x repo worker lease o k ids prior db ≡ ok out
      → Completed repo worker lease db out
  unfolding complete_result
  complete_result-Completed x ids (some prior) done = accepted_before _ done
  complete_result-Completed x ids none done =
      let (t, held, h1) = >>=-eq-ok (leased repo db worker lease k.now) _ done in
      let (_, _, h2) =
        >>=-eq-ok (guard (is_fetched_since t.lease_started_at k.fetched) value_error) _ h1 in
      let (tables, _, h3) = >>=-eq-ok (store_result x t o k ids db.captured) _ h2 in
      Closed-Completed repo worker lease t (completion_code o) o.size_bytes k.now tables db
        (leased-Accepted repo db worker lease k.now held)
        (close_task-Closed repo t (completion_code o) o.size_bytes k.now tables db h3)

complete_capture-Completed :
    (x : Encoding) (repo : Repository) (worker : WorkerIdentity) (lease : ScrapeLease)
    (o : CaptureOutcome) (ids : Drawn) (now : Datetime) (db : Db) {out : Unit {0} × Db}
    → complete_capture x repo worker lease o ids now db ≡ ok out
    → Completed repo worker lease db out
unfolding complete_capture
complete_capture-Completed x repo worker lease o ids now db {out} done =
    let (k, _, h1) = >>=-eq-ok (check_outcome x lease o now) _ done in
    elim (Bool-cases (is_discovery lease.task_class)) [
      | inl page ↦
          complete_discovery-Completed repo worker lease o k db
            (find (discovery_key lease.task_id) db.captured.discoveries) (rw page at h1)
      | inr other ↦
          let (_, _, h2) =
            >>=-eq-ok (guard (is_some (get_activation db worker.source)) value_error)
              (λ _.
                complete_result x repo worker lease o k ids
                  (find (result_key lease.task_id) db.captured.results) db)
              (rw other at h1) in
          complete_result-Completed repo worker lease o k db x ids
            (find (result_key lease.task_id) db.captured.results) h2
    ]

pub Completed-DbOk :
    (repo : Repository) (worker : WorkerIdentity) (lease : ScrapeLease) (db : Db)
    {out : Unit {0} × Db}
    → DbOk repo.policy db
    → Completed repo worker lease db out
    → DbOk repo.policy out.1
Completed-DbOk repo worker lease db h before = h
Completed-DbOk repo worker lease db h (closed t attempt at now tables held left) =
    let few = (get_task-TaskOk repo.policy db lease.task_id h held.found).bounded in
    let put =
      put_task-DbOk repo.policy (completed_task t at) db
        (idle-TaskOk repo.policy _ refl refl refl refl refl few (λ _. refl)) h in
    subst (λ (o : Unit {0} × Db). DbOk repo.policy o.1) (sym left)
      (record { unique = put.unique; rows = put.rows })

pub complete-DbOk :
    (x : Encoding) (repo : Repository) (worker : WorkerIdentity) (lease : ScrapeLease)
    (o : CaptureOutcome) (ids : Drawn) (now : Datetime) (db : Db)
    → DbOk repo.policy db
    → DbOk repo.policy (complete x repo worker lease o ids now db).1
unfolding complete
complete-DbOk x repo worker lease o ids now db h =
    commit_keeps (DbOk repo.policy) (complete_capture x repo worker lease o ids now db) db h
      (λ out done.
        Completed-DbOk repo worker lease db h
          (complete_capture-Completed x repo worker lease o ids now db {out = out} done))

module _ (n : ℕ) (row : Task) (ended : is_terminal row.state ≡ true) where
  pub Completed-Keeps :
      (repo : Repository) (worker : WorkerIdentity) (lease : ScrapeLease) (db : Db)
      {out : Unit {0} × Db}
      → Keeps n row ended db
      → Completed repo worker lease db out
      → Keeps n row ended out.1
  unfolding get_task
  Completed-Keeps repo worker lease db h before = h
  Completed-Keeps repo worker lease db h (closed t attempt at now tables held left) =
      subst (λ (o : Unit {0} × Db). Keeps n row ended o.1) (sym left)
        (put_ne n row ended (completed_task t at) db
          (Accepted-live n row ended repo db worker lease now held h) h)

  pub complete-Keeps :
      (x : Encoding) (repo : Repository) (worker : WorkerIdentity) (lease : ScrapeLease)
      (o : CaptureOutcome) (ids : Drawn) (now : Datetime) (db : Db)
      → Keeps n row ended db
      → Keeps n row ended (complete x repo worker lease o ids now db).1
  unfolding complete
  complete-Keeps x repo worker lease o ids now db h =
      commit_keeps (Keeps n row ended) (complete_capture x repo worker lease o ids now db) db h
        (λ out done.
          Completed-Keeps repo worker lease db h
            (complete_capture-Completed x repo worker lease o ids now db {out = out} done))
