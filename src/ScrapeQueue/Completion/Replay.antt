-- ===== src/ScrapeQueue/Completion/Replay.antt =====
-- scrape_queue/repository.py: `artifact_replay_input` and `complete_artifact_replay`. The bindings,
-- which the queue only reads, are an argument, as are the SHA-256 of the result and the ids that
-- `uuid4` draws. The time is one that `_leased` can compare, so it is aware.
use homez.Prelude.{
  ℕ, ◌+◌, min, Bool, true, false, ◌&&◌, String, List, [], ◌∷◌, ◌++◌, Option, none, some, Result, ok,
  err, value_error, lost_lease, ◌>>=◌, ◌>>◌, guard, find, insert, length, ◌==◌, str_eq,
  if◌then◌else◌, commit,
}
use homez.ScrapeQueue.Contracts.{WorkerIdentity, ScrapeLease, TaskClass, artifact_recovery}
use homez.ScrapeQueue.Captures.{Captured, ProductionResult, FieldRow, DiagnosticRun}
use homez.ScrapeQueue.Records.{Task, Attempt, Db, Repository, get_attempt}
use homez.ScrapeQueue.Lease.{leased, put_task, put_attempt}
use homez.Parsers.Fields.{FieldValue, nothing, ResolvedField, declared_fields}
use homez.Parsers.Results.{ParserResult}
use homez.ScrapeQueue.Completion.Checks.{used_fields}
use homez.ScrapeQueue.Completion.{
  Drawn, thirty_days, open_row, completed_task, result_collides, candidate_rows, has_missing,
  diagnostic_collides,
}

-- ArtifactRecoveryBindingRecord
pub record Binding : Type 0 where
  pub task_id : ℕ
  pub capture_id : ℕ
  pub artifact_id : String
  pub content_hash : String
  pub fetched_at : ℕ
  pub result_expires_at : ℕ

-- ArtifactReplayInput, less the token that the interface adds
pub record ReplayInput : Type 0 where
  pub capture_id : ℕ
  pub artifact_id : String
  pub fetched_at : ℕ
  pub content_hash : String
  pub result_expires_at : ℕ

abbrev pub is_recovery : TaskClass → Bool
is_recovery artifact_recovery = true
is_recovery _ = false

abbrev pub input_of : Option Binding → Result ReplayInput
input_of none = err lost_lease
input_of (some b) = ok (record {
  capture_id = b.capture_id;
  artifact_id = b.artifact_id;
  fetched_at = b.fetched_at;
  content_hash = b.content_hash;
  result_expires_at = b.result_expires_at;
})

abbrev pub get_binding : List Binding → ℕ → Option Binding
get_binding bindings n = find (λ (b : Binding). b.task_id == n) bindings

unfoldable pub artifact_replay_input :
    Repository → List Binding → WorkerIdentity → ScrapeLease → ℕ → Db → Result ReplayInput
artifact_replay_input repo bindings worker lease now db = do
  guard (is_recovery lease.task_class) value_error
  t ← leased repo db worker lease now
  input_of (get_binding bindings t.id)

-- the binding, if the result is of its capture
abbrev pub bound_to : Option Binding → ℕ → Result Binding
bound_to none capture = err lost_lease
bound_to (some b) capture = if capture == b.capture_id then ok b else err lost_lease

abbrev pub replayed_result : String → Task → Binding → ParserResult → ℕ → ProductionResult
replayed_result hash t b p id = record {
  id = id;
  task_id = t.id;
  capture_id = b.capture_id;
  release_hash = t.release_hash;
  activation_epoch = t.activation_epoch;
  variant = p.variant;
  facts = p.facts;
  missing_fields = p.missing_fields;
  result_hash = hash;
  expires_at = b.result_expires_at;
}

-- `json.dumps(field.value) if field.value is not None else None`
abbrev pub not_null : Option FieldValue → Option FieldValue
not_null (some nothing) = none
not_null v = v

abbrev pub replayed_field : ℕ → ResolvedField → FieldRow
replayed_field id f = record {
  result_id = id;
  name = f.name;
  state = f.state;
  value = not_null f.value;
  selected_origin = f.selected_origin;
}

-- the primary key of the rows of fields
abbrev pub field_collides : FieldRow → FieldRow → Bool
field_collides new f = (f.result_id == new.result_id) && str_eq f.name new.name

unfoldable pub insert_fields : ℕ → List ResolvedField → List FieldRow → Result (List FieldRow)
insert_fields id [] rows = ok rows
insert_fields id (f ∷ fs) rows = do
  grown ← insert (field_collides (replayed_field id f)) (replayed_field id f) rows
  insert_fields id fs grown

abbrev pub replayed_diagnostic : Binding → ParserResult → Drawn → ℕ → DiagnosticRun
replayed_diagnostic b p ids now = record {
  id = ids.diagnostic;
  result_id = ids.result;
  artifact_id = some b.artifact_id;
  artifact_status = "stored";
  missing_fields = p.missing_fields;
  created_at = now;
  expires_at = min b.result_expires_at (now + thirty_days);
}

abbrev pub insert_diagnostic :
    Binding → ParserResult → Drawn → ℕ → List DiagnosticRun → Result (List DiagnosticRun)
insert_diagnostic b p ids now rows =
    if has_missing p.missing_fields
    then insert (diagnostic_collides (replayed_diagnostic b p ids now))
        (replayed_diagnostic b p ids now) rows
    else ok rows

unfoldable pub store_replay :
    String
    → Task
    → Binding
    → ParserResult
    → List ResolvedField
    → Drawn
    → ℕ
    → Captured
    → Result Captured
store_replay hash t b p fields ids now old = do
  let new = replayed_result hash t b p ids.result
  results ← insert (result_collides new) new old.results
  rows ← insert_fields ids.result fields old.fields
  diagnostics ← insert_diagnostic b p ids now old.diagnostics
  ok (record old {
    results = results;
    candidates = old.candidates ++ candidate_rows ids.result 0 p.candidates;
    fields = rows;
    diagnostics = diagnostics;
  })

-- the bytes of the response are left as they are
abbrev pub replayed_attempt : Attempt → ParserResult → ℕ → Attempt
replayed_attempt a p now = record a {
  finished_at = some now;
  outcome = some "succeeded";
  code = some (if has_missing p.missing_fields then "partial" else "downloaded");
}

-- the body of `complete_artifact_replay`
unfoldable pub replay_artifact :
    (ParserResult → String)
    → Repository
    → List Binding
    → WorkerIdentity
    → ScrapeLease
    → ParserResult
    → Drawn
    → ℕ
    → Db
    → Result (Unit {0} × Db)
replay_artifact digest repo bindings worker lease p ids now db = do
  guard (is_recovery lease.task_class) value_error
  fields ← used_fields p.fields p.candidates
  guard (str_eq p.release_hash lease.release_hash && (length fields == length declared_fields))
      value_error
  t ← leased repo db worker lease now
  b ← bound_to (get_binding bindings t.id) p.capture_id
  tables ← store_replay (digest p) t b p fields ids now db.captured
  a ← open_row (get_attempt db t.id t.attempt_count)
  ok (
    tt,
    record (put_attempt (replayed_attempt a p now) (put_task (completed_task t now) db)) {
      captured = tables;
    },
  )

unfoldable pub complete_artifact_replay :
    (ParserResult → String)
    → Repository
    → List Binding
    → WorkerIdentity
    → ScrapeLease
    → ParserResult
    → Drawn
    → ℕ
    → Db
    → Result (Unit {0}) × Db
complete_artifact_replay digest repo bindings worker lease p ids now db =
    commit (replay_artifact digest repo bindings worker lease p ids now db) db
