-- ===== src/ScrapeQueue/Completion/Replayed.antt =====
-- What `complete_artifact_replay` of scrape_queue/repository.py does to the tasks.
use homez.Prelude.{
  ℕ, ◌≡◌, sym, true, ◌&&◌, ◌==◌, List, String, ok, value_error, >>=-eq-ok, guard, ok-injective,
  commit_keeps, length, str_eq,
}
use homez.ScrapeQueue.Contracts.{WorkerIdentity, ScrapeLease}
use homez.ScrapeQueue.Records.{Task, Db, Repository, get_attempt, is_terminal}
use homez.ScrapeQueue.Lease.{leased}
use homez.ScrapeQueue.Accepted.{leased-Accepted}
use homez.ScrapeQueue.Invariant.{DbOk}
use homez.ScrapeQueue.Terminal.{Keeps}
use homez.Parsers.Fields.{declared_fields}
use homez.Parsers.Results.{ParserResult}
use homez.ScrapeQueue.Completion.Checks.{used_fields}
use homez.ScrapeQueue.Completion.{Drawn, open_row}
use homez.ScrapeQueue.Completion.Closed.{Completed, closed, Completed-DbOk, Completed-Keeps}
use homez.ScrapeQueue.Completion.Replay.{
  Binding, is_recovery, get_binding, bound_to, store_replay, replayed_attempt, replay_artifact,
  complete_artifact_replay,
}

module _ (digest : ParserResult → String) (repo : Repository) (bindings : List Binding)
    (worker : WorkerIdentity) (lease : ScrapeLease) (p : ParserResult) (ids : Drawn) (now : ℕ)
    (db : Db) where
  replay_artifact-Completed :
      {out : Unit {0} × Db}
      → replay_artifact digest repo bindings worker lease p ids now db ≡ ok out
      → Completed repo worker lease db out
  unfolding replay_artifact
  replay_artifact-Completed done =
      let (_, _, h1) = >>=-eq-ok (guard (is_recovery lease.task_class) value_error) _ done in
      let (fields, _, h2) = >>=-eq-ok (used_fields p.fields p.candidates) _ h1 in
      let (_, _, h3) =
        >>=-eq-ok
          (guard
            (str_eq p.release_hash lease.release_hash && (length fields == length declared_fields))
            value_error)
          _ h2 in
      let (t, held, h4) = >>=-eq-ok (leased repo db worker lease now) _ h3 in
      let (b, _, h5) = >>=-eq-ok (bound_to (get_binding bindings t.id) p.capture_id) _ h4 in
      let (tables, _, h6) =
        >>=-eq-ok (store_replay (digest p) t b p fields ids now db.captured) _ h5 in
      let (a, _, h7) = >>=-eq-ok (open_row (get_attempt db t.id t.attempt_count)) _ h6 in
      closed t (replayed_attempt a p now) now now tables
        (leased-Accepted repo db worker lease now held) (sym (ok-injective h7))

  pub complete_artifact_replay-DbOk :
      DbOk repo.policy db
      → DbOk repo.policy (complete_artifact_replay digest repo bindings worker lease p ids now db).1
  unfolding complete_artifact_replay
  complete_artifact_replay-DbOk h =
      commit_keeps (DbOk repo.policy)
        (replay_artifact digest repo bindings worker lease p ids now db) db h
        (λ out done.
          Completed-DbOk repo worker lease db h (replay_artifact-Completed {out = out} done))

  pub complete_artifact_replay-Keeps :
      (n : ℕ) (row : Task) (ended : is_terminal row.state ≡ true)
      → Keeps n row ended db
      → Keeps n row ended
          (complete_artifact_replay digest repo bindings worker lease p ids now db).1
  unfolding complete_artifact_replay
  complete_artifact_replay-Keeps n row ended h =
      commit_keeps (Keeps n row ended)
        (replay_artifact digest repo bindings worker lease p ids now db) db h
        (λ out done.
          Completed-Keeps n row ended repo worker lease db h
            (replay_artifact-Completed {out = out} done))
