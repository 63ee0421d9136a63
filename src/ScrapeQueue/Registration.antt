-- ===== src/ScrapeQueue/Registration.antt =====
-- scrape_queue/repository.py: `register_worker`.
-- Transactions run one after another, so the branches for a row that another transaction inserts
-- between a SELECT and an INSERT do not arise.
use homez.Prelude.{
  ℕ, Bool, true, ◌&&◌, String, List, [], ◌∷◌, none, some, Result, ok, value_error, ◌>>=◌, ◌>>◌,
  guard, replace, insert, length, leb, Datetime, require_aware, commit,
}
use homez.Prelude.Chars.{fullmatch, is_hex}
use homez.ScrapeQueue.Contracts.{WorkerIdentity}
use homez.ScrapeQueue.Records.{WorkerRow, Db, worker_key, same_identity, get_worker}

-- `re.fullmatch(r"[0-9a-f]{64}", value)` for every hash
abbrev pub all_hashes : List String → Bool
all_hashes [] = true
all_hashes (h ∷ hs) = fullmatch is_hex 64 64 h && all_hashes hs

-- The row of the worker after the select and the insert of `register_worker`, with the table.
abbrev pub upsert :
    Db → WorkerIdentity → List String → ℕ → Bool → Result (WorkerRow × List WorkerRow)
upsert db worker hashes now healthy = elim (get_worker db worker.worker_id) [
  | some row ↦ ok (row, db.workers)
  | none ↦
      let row : WorkerRow = record {
        worker_id = worker.worker_id;
        source = worker.source;
        deployment = worker.deployment;
        heartbeat_at = now;
        release_hashes = hashes;
        healthy = healthy;
      } in
      do rows ← insert (worker_key worker.worker_id) row db.workers; ok (row, rows)
]

-- the body of `register_worker`, its transaction included
unfoldable pub register :
    WorkerIdentity → List String → Datetime → Bool → Db → Result (Unit {0} × Db)
register worker hashes supplied healthy db = do
  now ← require_aware supplied
  guard (leb (length hashes) 64 && all_hashes hashes) value_error
  (row, rows) ← upsert db worker hashes now healthy
  guard (same_identity row worker) value_error
  guard (leb row.heartbeat_at now) value_error
  ok (
    tt,
    record db {
      workers =
          replace (worker_key worker.worker_id)
            (record row { heartbeat_at = now; release_hashes = hashes; healthy = healthy }) rows;
    },
  )

unfoldable pub register_worker :
    WorkerIdentity → List String → Datetime → Bool → Db → Result (Unit {0}) × Db
register_worker worker hashes now healthy db = commit (register worker hashes now healthy db) db
