-- ===== src/Scraper/Worker.antt =====
-- scraper/worker.py: one round of a scrape worker, `ScrapeWorker.run_once`.
-- A round is the list of its calls of the coordinator, the transport and the artifact writer, with
-- what they gave. What they give is an argument, and so are the clock, the parsers, the hash of a
-- body, and the heartbeat thread, of which the round reads no more than whether it lost the lease:
-- the i-th reading may be anything. Exceptions of a call are told apart where the round does so.
pub mod Round
pub mod Protocol
pub mod Followed
mod Tests
use homez.Prelude.{
  ℕ, ◌+◌, Bool, true, false, ◌&&◌, ◌||◌, String, List, [], ◌∷◌, Option, if◌then◌else◌, ◌==◌,
}
use homez.ScrapeQueue.Contracts.{
  Portal, TaskClass, live, artifact_recovery, network_recovery, discovery_capture, ScrapeLease,
}
use homez.ScrapeQueue.Budget.Records.{NetworkPermit}
use homez.Parsers.Fields.{declared_fields}
use homez.Parsers.Results.{ParserResult, no_facts}
use homez.ScrapeQueue.Captures.{CaptureOutcome}
use homez.Scraper.DenialPolicy.{ResponseClassification, RouteDecision}
use homez.Scraper.DenialPolicy
use homez.Scraper.Transport.{FetchRequest, PageInput, CapturedPage, TransportError}

-- what a call gives
pub data Reply (A : Type 0) : Type 0 where
  raised : Reply A
  gave : A → Reply A

-- what `fetch` gives; a transport may give a page with or without the bytes transferred
pub data Capture : Type 0 where
  captured : CapturedPage → Capture
  page_only : PageInput → Capture
  refused : TransportError → Capture
  broke : Capture

-- what `complete` gives
pub data Completion : Type 0 where
  completed lost_lease failed_call : Completion

pub data Call : Type 0 where
  advertising : Call
  claiming : Reply (Option ScrapeLease) → Call
  reserving : ScrapeLease → Reply NetworkPermit → Call
  deferring : ScrapeLease → ℕ → String → Call
  fetching : FetchRequest → Capture → Call
  recording :
      ScrapeLease
      → NetworkPermit
      → ResponseClassification
      → ℕ
      → Option ℕ
      → Reply RouteDecision
      → Call
  failing : ScrapeLease → String → Call
  storing : Portal → PageInput → Option String → Call
  completing : ScrapeLease → CaptureOutcome → Completion → Call

pub record World : Type 0 where
  pub source : Portal
  pub heartbeat_seconds : ℕ
  pub stop : Bool
  pub advertised : Bool
  pub claimed : Reply (Option ScrapeLease)
  pub now : ℕ
  pub parses : String → Option (PageInput → Option ParserResult)
  pub has_parsers : Bool
  pub permit : Reply NetworkPermit
  pub fetched : Capture
  pub lost : ℕ → Bool
  pub decision : Reply RouteDecision
  pub writer : Option (Portal → PageInput → Option String)
  pub hash : List ℕ → String
  pub completion : ℕ → Completion

abbrev pub unknown_result : ScrapeLease → PageInput → String → ParserResult
unknown_result lease page variant = record {
  capture_id = page.capture_id;
  release_hash = lease.release_hash;
  variant = variant;
  candidates = [];
  missing_fields = declared_fields;
  facts = no_facts;
  fields = [];
}

abbrev pub is_capture_class : TaskClass → Bool
is_capture_class live = true
is_capture_class network_recovery = true
is_capture_class discovery_capture = true
is_capture_class artifact_recovery = false

abbrev pub is_discovery_task : TaskClass → Bool
is_discovery_task discovery_capture = true
is_discovery_task _ = false

abbrev pub has_any : List String → Bool
has_any [] = false
has_any (x ∷ xs) = true
