-- ===== src/ScrapeQueue/Completion/Rows.antt =====
-- scrape_queue/repository.py: the rows that `complete` writes. Times are UTC, so two years later is
-- so in UTC.
use homez.Prelude.{
  ℕ, suc, ◌+◌, ◌-◌, ◌*◌, ◌/◌, ◌%◌, Bool, true, false, not, ◌&&◌, ◌||◌, String, List, [], ◌∷◌, ◌++◌,
  Option, none, some, is_some, Result, ok, ◌>>=◌, insert, leb, ◌==◌, str_eq, if◌then◌else◌,
}
use homez.ScrapeQueue.Captures.{
  CaptureOutcome, PageCapture, DiscoveryCapture, ProductionResult, CandidateRow, FieldRow,
  DiagnosticRun, Captured,
}
use homez.ScrapeQueue.Records.{Task}
use homez.ScrapeQueue.Budget.Calendar.{Date, day_number, civil_date}
use homez.Parsers.Fields.{Candidate, ResolvedField}
use homez.ScrapeQueue.Completion.Checks.{Encoding, Checked, is_value_state}

-- what `uuid4` draws
pub record Drawn : Type 0 where
  pub result : ℕ
  pub diagnostic : ℕ

-- the days from 1970-01-01 to a date
abbrev pub days_to : Date → ℕ
days_to d =
    let y = if leb d.month 2 then d.year - 1 else d.year in
    let mp = if leb d.month 2 then d.month + 9 else d.month - 3 in
    let yoe = y % 400 in
    y / 400 * 146097
    + (yoe * 365 + yoe / 4 - yoe / 100 + ((153 * mp + 2) / 5 + (d.day - 1)))
    - 719468

abbrev pub is_leap : ℕ → Bool
is_leap y = (y % 4 == 0) && (not (y % 100 == 0) || (y % 400 == 0))

-- `replace(year=year + 2)`, and the 28th where that is no date
abbrev pub two_years_later : Date → Date
two_years_later d = record {
  year = d.year + 2;
  month = d.month;
  day = if (d.month == 2) && (d.day == 29) && not (is_leap (d.year + 2)) then 28 else d.day;
}

unfoldable pub two_years_on : ℕ → ℕ
two_years_on t = days_to (two_years_later (civil_date (day_number t))) * 86400 + t % 86400

-- `timedelta(days=30)`
abbrev pub thirty_days : ℕ
thirty_days = 2592000

abbrev pub capture_of : Task → CaptureOutcome → ℕ → PageCapture
capture_of t o fetched = record {
  id = o.capture_id;
  snapshot_id = t.snapshot_id;
  fetched_at = fetched;
  content_hash = o.content_hash;
  size_bytes = o.size_bytes;
}

abbrev pub capture_key : ℕ → PageCapture → Bool
capture_key n c = c.id == n

-- `task.lease_started_at is None or outcome.fetched_at < task.lease_started_at`, negated
abbrev pub is_fetched_since : Option ℕ → ℕ → Bool
is_fetched_since none fetched = false
is_fetched_since (some started) fetched = leb started fetched

-- Discoveries.

abbrev pub discovery_key : ℕ → DiscoveryCapture → Bool
discovery_key n d = d.task_id == n

abbrev pub has_artifact : Option String → String → Bool
has_artifact none id = false
has_artifact (some a) id = str_eq id a

abbrev pub same_discovery : DiscoveryCapture → CaptureOutcome → Bool
same_discovery d o =
    (d.capture_id == o.capture_id)
    && has_artifact o.artifact_id d.artifact_id
    && str_eq d.content_hash o.content_hash

-- the primary key and the two UNIQUE columns
abbrev pub discovery_collides : DiscoveryCapture → DiscoveryCapture → Bool
discovery_collides new d =
    (d.task_id == new.task_id)
    || (d.capture_id == new.capture_id)
    || str_eq d.artifact_id new.artifact_id

abbrev pub discovery_of : Task → CaptureOutcome → String → ℕ → DiscoveryCapture
discovery_of t o artifact fetched = record {
  task_id = t.id;
  capture_id = o.capture_id;
  artifact_id = artifact;
  source = t.source;
  content_hash = o.content_hash;
  fetched_at = fetched;
  expires_at = fetched + thirty_days;
}

abbrev pub artifact_or_empty : Option String → String
artifact_or_empty none = ""
artifact_or_empty (some id) = id

unfoldable pub store_capture : Captured → PageCapture → Result Captured
store_capture tables c = do
  captures ← insert (capture_key c.id) c tables.captures
  ok (record tables { captures = captures })

-- Other captures.

abbrev pub result_key : ℕ → ProductionResult → Bool
result_key n r = r.task_id == n

-- the primary key and the UNIQUE task
abbrev pub result_collides : ProductionResult → ProductionResult → Bool
result_collides new r = (r.id == new.id) || (r.task_id == new.task_id)

abbrev pub result_of : Encoding → Task → CaptureOutcome → ℕ → ℕ → ProductionResult
result_of x t o id fetched = record {
  id = id;
  task_id = t.id;
  capture_id = o.capture_id;
  release_hash = t.release_hash;
  activation_epoch = t.activation_epoch;
  variant = o.result.variant;
  facts = o.result.facts;
  missing_fields = o.result.missing_fields;
  result_hash = x.result_hash o;
  expires_at = two_years_on fetched;
}

-- the rows of the candidates, by position, and of the fields
abbrev pub candidate_rows : ℕ → ℕ → List Candidate → List CandidateRow
candidate_rows id position [] = []
candidate_rows id position (c ∷ cs) =
    record {
      result_id = id;
      position = position;
      name = c.name;
      value = c.value;
      origin = c.origin;
      locator = c.locator;
    }
    ∷ candidate_rows id (suc position) cs

abbrev pub field_row : ℕ → ResolvedField → FieldRow
field_row id f = record {
  result_id = id;
  name = f.name;
  state = f.state;
  value = if is_value_state f.state then f.value else none;
  selected_origin = f.selected_origin;
}

abbrev pub field_rows : ℕ → List ResolvedField → List FieldRow
field_rows id [] = []
field_rows id (f ∷ fs) = field_row id f ∷ field_rows id fs

abbrev pub has_missing : List String → Bool
has_missing [] = false
has_missing (x ∷ xs) = true

abbrev pub diagnostic_collides : DiagnosticRun → DiagnosticRun → Bool
diagnostic_collides new d = (d.id == new.id) || (d.result_id == new.result_id)

abbrev pub diagnostic_of : CaptureOutcome → Drawn → ℕ → DiagnosticRun
diagnostic_of o ids fetched = record {
  id = ids.diagnostic;
  result_id = ids.result;
  artifact_id = o.artifact_id;
  artifact_status = if is_some o.artifact_id then "stored" else "unavailable";
  missing_fields = o.result.missing_fields;
  created_at = fetched;
  expires_at = fetched + thirty_days;
}

unfoldable pub store_diagnostic :
    CaptureOutcome → Drawn → ℕ → List DiagnosticRun → Result (List DiagnosticRun)
store_diagnostic o ids fetched rows =
    if has_missing o.result.missing_fields
    then insert (diagnostic_collides (diagnostic_of o ids fetched)) (diagnostic_of o ids fetched)
        rows
    else ok rows

-- the code of the attempt
abbrev pub completion_code : CaptureOutcome → String
completion_code o =
    if has_missing o.result.missing_fields && is_some o.artifact_id
    then "partial"
    else if has_missing o.result.missing_fields
    then "artifact-unavailable"
    else "downloaded"

unfoldable pub store_result :
    Encoding → Task → CaptureOutcome → Checked → Drawn → Captured → Result Captured
store_result x t o k ids old = do
  tables ← store_capture old (capture_of t o k.fetched)
  let new = result_of x t o ids.result k.fetched
  results ← insert (result_collides new) new tables.results
  diagnostics ← store_diagnostic o ids k.fetched tables.diagnostics
  ok (record tables {
    results = results;
    diagnostics = diagnostics;
    candidates = tables.candidates ++ candidate_rows ids.result 0 o.result.candidates;
    fields = tables.fields ++ field_rows ids.result k.fields;
  })
