-- ===== src/ScrapeQueue/Completion/Tests.antt =====
-- A completion of the sample queue, and the theorems on it applied.
use homez.ScrapeQueue.Samples.{leased_task, db', repo, worker, lease}
use homez.ScrapeQueue.Completion.Samples.{
  outcome, encoding, drawn, drawn', completion_program, completed_db, complete-db',
}
use homez.Prelude.{
  [], ◌∷◌, length, ◌≡◌, refl, true, ok, err, value_error, lost_lease, Datetime, arith,
}
use homez.ScrapeQueue.Records.{Db, get_attempt}
use homez.ScrapeQueue.Contracts.{ScrapeLease, artifact_recovery}
use homez.ScrapeQueue.Completion.Replay.{
  Binding, insert_fields, store_replay, replay_artifact, artifact_replay_input,
  complete_artifact_replay,
}
use homez.ScrapeQueue.Completion.{complete, same_attempt, two_years_on}
use homez.ScrapeQueue.Completion.Again.{complete_again}

-- 2024-02-29 12:00 and 1970-01-01
two_years_on-leap : two_years_on 1709208000 ≡ 1772280000
unfolding completion_program
two_years_on-leap = refl

two_years_on-epoch : two_years_on 0 ≡ 63072000
unfolding completion_program
two_years_on-epoch = refl

-- An outcome fetched before the lease started is refused.
complete_early :
    (complete encoding repo worker lease
      (record outcome { fetched_at = Datetime.aware 999 })
      drawn
      (Datetime.aware 1010)
      db').0
    ≡ err value_error
unfolding completion_program
complete_early = refl

-- Another outcome for the completed task is refused.
complete_other :
    (complete encoding repo worker lease
      (record outcome {
        content_hash = "ffffffffffffffffffffffffffffffffffffffffffffffffffffffffffffffff";
      })
      drawn'
      (Datetime.aware 1020)
      completed_db).0
    ≡ err lost_lease
unfolding completion_program
complete_other = refl

held_attempt : same_attempt (get_attempt db' lease.task_id lease.attempt_number) worker lease ≡ true
unfolding completion_program
held_attempt = refl

complete_again_example :
    complete encoding repo worker lease outcome drawn' (Datetime.aware 1020) completed_db
    ≡ (ok tt, completed_db)
complete_again_example =
    complete_again encoding repo worker lease outcome drawn drawn' 1010 1020 db' completed_db
      held_attempt (omega arith) complete-db'

-- The replay of an artifact.
abbrev replay_lease : ScrapeLease
replay_lease = record lease { task_class = artifact_recovery }

abbrev replay_db : Db
replay_db = record db' { tasks = record leased_task { task_class = artifact_recovery } ∷ [] }

abbrev binding : Binding
binding = record {
  task_id = 2;
  capture_id = 9;
  artifact_id = "01234567-89ab-4def-8123-456789abcdef";
  content_hash = outcome.content_hash;
  fetched_at = 500;
  result_expires_at = 5000;
}

unfoldable replay_program : Unit {0}
unfolding completion_program insert_fields store_replay replay_artifact artifact_replay_input
    complete_artifact_replay
replay_program = tt

artifact_replay_input-bound :
    artifact_replay_input repo (binding ∷ []) worker replay_lease 1010 replay_db
    ≡ ok (record {
      capture_id = 9;
      artifact_id = binding.artifact_id;
      fetched_at = 500;
      content_hash = binding.content_hash;
      result_expires_at = 5000;
    })
unfolding replay_program
artifact_replay_input-bound = refl

complete_artifact_replay-stored :
    (let after =
        complete_artifact_replay
          (λ p. "hash")
          repo
          (binding ∷ [])
          worker
          replay_lease
          outcome.result
          drawn
          1010
          replay_db in
      (after.0 ≡ ok tt)
      × (length after.1.captured.fields ≡ 12)
      × (length after.1.captured.diagnostics ≡ 1))
unfolding replay_program
complete_artifact_replay-stored = (refl, refl, refl)

-- It is not accepted twice: the lease is gone.
complete_artifact_replay-once :
    (let after =
        complete_artifact_replay
          (λ p. "hash")
          repo
          (binding ∷ [])
          worker
          replay_lease
          outcome.result
          drawn
          1010
          replay_db in
      (complete_artifact_replay
        (λ p. "hash")
        repo
        (binding ∷ [])
        worker
        replay_lease
        outcome.result
        drawn'
        1011
        after.1).0
      ≡ err lost_lease)
unfolding replay_program
complete_artifact_replay-once = refl
