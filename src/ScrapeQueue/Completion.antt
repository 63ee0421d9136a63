-- ===== src/ScrapeQueue/Completion.antt =====
-- scrape_queue/repository.py: `complete`, one transaction behind the checks of the outcome.
-- The ids that `uuid4` draws are arguments. Rows has the rows that it writes.
pub mod Checks
pub mod Rows
pub mod Closed
pub mod Later
pub mod Recorded
pub mod Again
pub mod Replay
pub mod Replayed
pub mod Samples
mod Tests
unfoldable pub use Rows.*
use homez.Prelude.{
  ℕ, ◌+◌, ◌-◌, ◌*◌, ◌/◌, ◌%◌, Bool, false, ◌&&◌, ◌||◌, String, ◌∷◌, ◌++◌, Option, none, some,
  is_some, Result, ok, err, value_error, lost_lease, ◌>>=◌, ◌>>◌, guard, find, insert, ◌==◌, str_eq,
  if◌then◌else◌, Datetime, commit,
}
use homez.ScrapeQueue.Contracts.{WorkerIdentity, ScrapeLease, portal_eq, class_eq, is_discovery}
use homez.ScrapeQueue.Captures.{CaptureOutcome, DiscoveryCapture, ProductionResult, Captured}
use homez.ScrapeQueue.Records.{
  Task, Attempt, Db, Repository, current, succeeded, get_task, get_attempt, get_activation,
}
use homez.ScrapeQueue.Lease.{leased, clear_lease, put_task, put_attempt}
use homez.ScrapeQueue.Completion.Checks.{Encoding, Checked, check_outcome}

abbrev pub open_row : Option Attempt → Result Attempt
open_row none = err lost_lease
open_row (some a) = ok a

abbrev pub completed_attempt : Attempt → ℕ → String → ℕ → Attempt
completed_attempt a at code bytes = record a {
  finished_at = some at;
  outcome = some "succeeded";
  code = some code;
  response_bytes = bytes;
}

abbrev pub completed_task : Task → ℕ → Task
completed_task t at = clear_lease (record t { state = succeeded; finished_at = some at })

-- the attempt and the task at the end of a completion, over the tables of captures
unfoldable pub close_task :
    Repository → Task → String → ℕ → ℕ → Captured → Db → Result (Unit {0} × Db)
close_task repo t code bytes now tables db = do
  a ← open_row (get_attempt db t.id t.attempt_count)
  first ← current repo 1 now
  second ← current repo 2 now
  ok (
    tt,
    record (put_attempt (completed_attempt a first code bytes)
        (put_task (completed_task t second) db)) { captured = tables },
  )

unfoldable pub complete_discovery :
    Repository
    → WorkerIdentity
    → ScrapeLease
    → CaptureOutcome
    → Checked
    → Option DiscoveryCapture
    → Db
    → Result (Unit {0} × Db)
complete_discovery repo worker lease o k (some prior) db =
    if same_discovery prior o then ok (tt, db) else err lost_lease
complete_discovery repo worker lease o k none db = do
  t ← leased repo db worker lease k.now
  guard (is_fetched_since t.lease_started_at k.fetched) value_error
  tables ← store_capture db.captured (capture_of t o k.fetched)
  let new = discovery_of t o (artifact_or_empty o.artifact_id) k.fetched
  discoveries ← insert (discovery_collides new) new tables.discoveries
  close_task repo t "discovery-captured" o.size_bytes k.now
      (record tables { discoveries = discoveries }) db

-- the test of a completion that was accepted before
abbrev pub same_task : Option Task → WorkerIdentity → ScrapeLease → Bool
same_task none worker lease = false
same_task (some t) worker lease =
    portal_eq t.source worker.source
    && class_eq t.task_class lease.task_class
    && (t.snapshot_id == lease.snapshot_id)

abbrev pub same_attempt : Option Attempt → WorkerIdentity → ScrapeLease → Bool
same_attempt none worker lease = false
same_attempt (some a) worker lease =
    (a.lease_token == lease.lease_token) && str_eq a.worker_id worker.worker_id

abbrev pub same_result : ProductionResult → ScrapeLease → String → Bool
same_result r lease hash =
    str_eq r.release_hash lease.release_hash
    && (r.activation_epoch == lease.activation_epoch)
    && str_eq r.result_hash hash

unfoldable pub complete_result :
    Encoding
    → Repository
    → WorkerIdentity
    → ScrapeLease
    → CaptureOutcome
    → Checked
    → Drawn
    → Option ProductionResult
    → Db
    → Result (Unit {0} × Db)
complete_result x repo worker lease o k ids (some prior) db =
    if same_task (get_task db lease.task_id) worker lease
      && same_result prior lease (x.result_hash o)
      && same_attempt (get_attempt db lease.task_id lease.attempt_number) worker lease
    then ok (tt, db)
    else err lost_lease
complete_result x repo worker lease o k ids none db = do
  t ← leased repo db worker lease k.now
  guard (is_fetched_since t.lease_started_at k.fetched) value_error
  tables ← store_result x t o k ids db.captured
  close_task repo t (completion_code o) o.size_bytes k.now tables db

-- the body of `complete`
unfoldable pub complete_capture :
    Encoding
    → Repository
    → WorkerIdentity
    → ScrapeLease
    → CaptureOutcome
    → Drawn
    → Datetime
    → Db
    → Result (Unit {0} × Db)
complete_capture x repo worker lease o ids supplied db = do
  k ← check_outcome x lease o supplied
  if is_discovery lease.task_class
      then complete_discovery repo worker lease o k
          (find (discovery_key lease.task_id) db.captured.discoveries) db
      else (do
        guard (is_some (get_activation db worker.source)) value_error
        complete_result x repo worker lease o k ids
            (find (result_key lease.task_id) db.captured.results) db)

unfoldable pub complete :
    Encoding
    → Repository
    → WorkerIdentity
    → ScrapeLease
    → CaptureOutcome
    → Drawn
    → Datetime
    → Db
    → Result (Unit {0}) × Db
complete x repo worker lease o ids now db =
    commit (complete_capture x repo worker lease o ids now db) db
