-- ===== src/ScrapeQueue/Captures.antt =====
-- scrape_queue/contracts.py and catalog/orm.py: what a worker hands in for a page, and the rows in
-- which the coordinator keeps it. A column of JSON is the value that it encodes.
use homez.Prelude.{ℕ, String, List, [], Option, Datetime}
use homez.ScrapeQueue.Contracts.{Portal}
use homez.Parsers.Fields.{FieldValue, FieldState}
use homez.Parsers.Results.{PageFacts, ParserResult}

pub record CaptureOutcome : Type 0 where
  pub capture_id : ℕ
  pub fetched_at : Datetime
  pub content_hash : String
  pub size_bytes : ℕ
  pub result : ParserResult
  pub artifact_id : Option String

-- PageCaptureRecord
pub record PageCapture : Type 0 where
  pub id : ℕ
  pub snapshot_id : ℕ
  pub fetched_at : ℕ
  pub content_hash : String
  pub size_bytes : ℕ

-- DiscoveryCaptureRecord
pub record DiscoveryCapture : Type 0 where
  pub task_id : ℕ
  pub capture_id : ℕ
  pub artifact_id : String
  pub source : Portal
  pub content_hash : String
  pub fetched_at : ℕ
  pub expires_at : ℕ

-- ProductionParserResultRecord
pub record ProductionResult : Type 0 where
  pub id : ℕ
  pub task_id : ℕ
  pub capture_id : ℕ
  pub release_hash : String
  pub activation_epoch : ℕ
  pub variant : String
  pub facts : PageFacts
  pub missing_fields : List String
  pub result_hash : String
  pub expires_at : ℕ

-- ProductionFieldCandidateRecord
pub record CandidateRow : Type 0 where
  pub result_id : ℕ
  pub position : ℕ
  pub name : String
  pub value : FieldValue
  pub origin : String
  pub locator : String

-- ProductionResolvedFieldRecord
pub record FieldRow : Type 0 where
  pub result_id : ℕ
  pub name : String
  pub state : FieldState
  pub value : Option FieldValue
  pub selected_origin : Option String

-- DiagnosticRunRecord
pub record DiagnosticRun : Type 0 where
  pub id : ℕ
  pub result_id : ℕ
  pub artifact_id : Option String
  pub artifact_status : String
  pub missing_fields : List String
  pub created_at : ℕ
  pub expires_at : ℕ

-- The tables of captures and results.
pub record Captured : Type 0 where
  pub captures : List PageCapture
  pub discoveries : List DiscoveryCapture
  pub results : List ProductionResult
  pub candidates : List CandidateRow
  pub fields : List FieldRow
  pub diagnostics : List DiagnosticRun

abbrev pub nothing_captured : Captured
nothing_captured = record {
  captures = [];
  discoveries = [];
  results = [];
  candidates = [];
  fields = [];
  diagnostics = [];
}
