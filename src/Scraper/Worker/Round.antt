-- ===== src/Scraper/Worker/Round.antt =====
-- scraper/worker.py: the calls of one round, `ScrapeWorker.run_once`.
use homez.Prelude.{
  ℕ, zero, suc, ◌+◌, Bool, true, false, not, ◌&&◌, ◌||◌, String, List, [], ◌∷◌, Option, none, some,
  is_some, Result, ok, err, length, leb, if◌then◌else◌, str_eq, ◌==◌,
}
use homez.ScrapeQueue.Contracts.{Portal, portal_eq, ScrapeLease}
use homez.ScrapeQueue.Budget.Records.{NetworkPermit}
use homez.ScrapeQueue.Budget.Outcomes.{route_of}
use homez.Scraper.DenialPolicy.{
  RouteClass, ResponseClassification, ResponseEvidence, RouteDecision, classify_response,
}
use homez.Scraper.DenialPolicy
use homez.Parsers.Results.{ParserResult}
use homez.ScrapeQueue.Captures.{CaptureOutcome}
use homez.Scraper.Worker.{
  Call, Capture, Completion, Reply, World, advertising, broke, captured, claiming, completing,
  completed, deferring, failing, failed_call, fetching, gave, has_any, is_capture_class,
  is_discovery_task, lost_lease, page_only, raised, recording, refused, reserving, storing,
  unknown_result,
}
use homez.Scraper.Transport.{FetchRequest, PageInput}

-- a call that failed is tried again; a lost lease ends the loop at its next test
abbrev pub after_completion : Completion → List Call → List Call
after_completion completed again = []
after_completion lost_lease again = []
after_completion failed_call again = again

module _ (w : World) where
  -- the loop over `complete`, with the rounds left and those done
  unfoldable pub complete_task : ℕ → ℕ → ScrapeLease → CaptureOutcome → List Call
  complete_task zero i lease outcome = []
  complete_task (suc n) i lease outcome =
      let again = complete_task n (i + 1) lease outcome in
      if w.lost (i + 1)
      then []
      else completing lease outcome (w.completion i) ∷ after_completion (w.completion i) again

  abbrev pub outcome_of : PageInput → ParserResult → Option String → CaptureOutcome
  outcome_of page result artifact = record {
    capture_id = page.capture_id;
    fetched_at = page.fetched_at;
    content_hash = w.hash page.body;
    size_bytes = length page.body;
    result = result;
    artifact_id = artifact;
  }

  abbrev pub send_outcome : ScrapeLease → PageInput → ParserResult → Option String → List Call
  send_outcome lease page result artifact =
      complete_task 3 0 lease (outcome_of page result artifact)

  -- the artifact of a discovery, without which the task fails
  abbrev pub use_artifact : ScrapeLease → PageInput → ParserResult → Option String → List Call
  use_artifact lease page result none = failing lease "artifact-unavailable" ∷ []
  use_artifact lease page result (some artifact) = send_outcome lease page result (some artifact)

  unfoldable pub store_discovery :
      ScrapeLease
      → PageInput
      → ParserResult
      → Option (Portal → PageInput → Option String)
      → List Call
  store_discovery lease page result none = failing lease "artifact-unavailable" ∷ []
  store_discovery lease page result (some put) =
      storing w.source page (put w.source page) ∷ use_artifact lease page result (put w.source page)

  -- the artifact of another task, which is optional
  unfoldable pub store_missing :
      ScrapeLease
      → PageInput
      → ParserResult
      → Option (Portal → PageInput → Option String)
      → List Call
  store_missing lease page result none = send_outcome lease page result none
  store_missing lease page result (some put) =
      if has_any result.missing_fields
      then storing w.source page (put w.source page)
        ∷ send_outcome lease page result (put w.source page)
      else send_outcome lease page result none

  abbrev pub checked_result : ScrapeLease → PageInput → Option ParserResult → ParserResult
  checked_result lease page none = unknown_result lease page "unknown-variant"
  checked_result lease page (some result) =
      if (result.capture_id == page.capture_id) && str_eq result.release_hash lease.release_hash
      then result
      else unknown_result lease page "unknown-variant"

  abbrev pub parse_page :
      ScrapeLease → PageInput → Option (PageInput → Option ParserResult) → ParserResult
  parse_page lease page none = unknown_result lease page "unknown-variant"
  parse_page lease page (some parse) = checked_result lease page (parse page)

  -- after the outcome of a success is recorded
  unfoldable pub keep_page : ScrapeLease → PageInput → Reply RouteDecision → List Call
  keep_page lease page raised = []
  keep_page lease page (gave d) =
      if is_discovery_task lease.task_class
      then store_discovery lease page (unknown_result lease page "discovery-capture") w.writer
      else store_missing lease page (parse_page lease page (w.parses lease.release_hash)) w.writer

  unfoldable pub record_page : ScrapeLease → NetworkPermit → PageInput → ℕ → List Call
  record_page lease permit page transferred =
      if w.lost 0
      then []
      else recording lease permit ResponseClassification.success transferred none w.decision
        ∷ keep_page lease page w.decision

  abbrev pub cool_down : ScrapeLease → Option ℕ → List Call
  cool_down lease none = failing lease "transport-error" ∷ []
  cool_down lease (some until) = deferring lease until "source-cooldown" ∷ []

  -- after the outcome of a refusal is recorded
  unfoldable pub give_back : ScrapeLease → Reply RouteDecision → List Call
  give_back lease raised = []
  give_back lease (gave d) =
      if is_some d.retry_direct_at then [] else cool_down lease d.source_cooldown_until

  abbrev pub no_response : ResponseEvidence
  no_response = record {
    status_code = none;
    failure = some DenialPolicy.FailureEvidence.transport_failure;
    portal_responded = false;
    retry_after_seconds = none;
    challenge = false;
  }

  unfoldable pub after_fetch : ScrapeLease → NetworkPermit → RouteClass → Capture → List Call
  after_fetch lease permit route (captured c) = record_page lease permit c.page c.transferred_bytes
  after_fetch lease permit route (page_only page) = record_page lease permit page (length page.body)
  after_fetch lease permit route (refused e) =
      if w.lost 0
      then []
      else recording lease permit (classify_response route e.evidence) e.transferred_bytes
          e.evidence.retry_after_seconds w.decision
        ∷ give_back lease w.decision
  after_fetch lease permit route broke =
      if w.lost 0
      then []
      else recording lease permit (classify_response route no_response) 0 none w.decision
        ∷ failing lease "transport-error"
        ∷ []

  abbrev pub request_of : ScrapeLease → NetworkPermit → FetchRequest
  request_of lease permit = record {
    source = w.source;
    canonical_url = lease.canonical_url;
    route_id = permit.route_id;
  }

  unfoldable pub use_route : ScrapeLease → NetworkPermit → Result RouteClass → List Call
  use_route lease permit (err e) = []
  use_route lease permit (ok route) =
      fetching (request_of lease permit) w.fetched ∷ after_fetch lease permit route w.fetched

  unfoldable pub after_permit : ScrapeLease → Reply NetworkPermit → List Call
  after_permit lease raised = []
  after_permit lease (gave permit) =
      if not permit.granted
      then deferring lease permit.available_at "budget-exhausted" ∷ []
      else use_route lease permit (route_of permit.route_class)

  unfoldable pub is_unfit : ScrapeLease → Bool
  is_unfit lease =
      leb lease.lease_expires_at (w.now + w.heartbeat_seconds)
      || not (portal_eq lease.source w.source)
      || not (is_some (w.parses lease.release_hash))
      || not (is_capture_class lease.task_class)

  unfoldable pub take_lease : Reply (Option ScrapeLease) → Option Bool × List Call
  take_lease raised = (none, [])
  take_lease (gave none) = (some false, [])
  take_lease (gave (some lease)) =
      if is_unfit lease
      then (some true, [])
      else (some true, reserving lease w.permit ∷ after_permit lease w.permit)

  -- `run_once`: nothing where it raises, and its calls
  unfoldable pub run_round : Option Bool × List Call
  run_round =
      if w.stop
      then (some false, [])
      else if not w.advertised
      then (none, advertising ∷ [])
      else if not w.has_parsers
      then (some false, advertising ∷ [])
      else ((take_lease w.claimed).0, advertising ∷ claiming w.claimed ∷ (take_lease w.claimed).1)
