-- ===== src/Scraper/Worker/Protocol.antt =====
-- The protocol of a round of scraper/worker.py towards the coordinator.
use homez.Prelude.{
  ℕ, ◌+◌, ◌≤◌, ◌≡◌, true, false, String, List, [], ◌∷◌, Option, none, some, is_some, ok, length,
}
use homez.ScrapeQueue.Contracts.{Portal, portal_eq, ScrapeLease}
use homez.ScrapeQueue.Budget.Records.{NetworkPermit}
use homez.ScrapeQueue.Budget.Outcomes.{route_of}
use homez.Scraper.DenialPolicy.{
  RouteClass, ResponseClassification, RouteDecision, classify_response,
}
use homez.Scraper.Transport.{FetchRequest, PageInput}
use homez.ScrapeQueue.Captures.{CaptureOutcome}
use homez.Scraper.Worker.{
  Reply, gave, Capture, captured, page_only, refused, broke, Completion, failed_call, Call,
  advertising, claiming, reserving, deferring, fetching, recording, failing, storing, completing,
  is_capture_class, is_discovery_task,
}

-- how far a round is, with what it was given
pub data Phase : Type 0 where
  idle ready : Phase
  asked : Reply (Option ScrapeLease) → Phase
  reserved : ScrapeLease → Reply NetworkPermit → Phase
  fetched : ScrapeLease → NetworkPermit → Capture → Phase
  recorded : ScrapeLease → Capture → Reply RouteDecision → Phase
  stored : ScrapeLease → PageInput → Option String → Phase
  tried : ScrapeLease → CaptureOutcome → Completion → ℕ → Phase

-- the page of a capture, if it is one
abbrev pub page_of : Capture → Option PageInput
page_of (captured c) = some c.page
page_of (page_only page) = some page
page_of (refused e) = none
page_of broke = none

-- What is to be recorded of a capture: a success with its bytes for a page, the classification of
-- the evidence with its bytes and its retry delay for a refusal, and no bytes otherwise.
abbrev pub Evidences : NetworkPermit → Capture → ResponseClassification → ℕ → Option ℕ → Type 0
Evidences permit (captured c) class bytes delay =
    (class ≡ ResponseClassification.success) × (bytes ≡ c.transferred_bytes) × (delay ≡ none)
Evidences permit (page_only page) class bytes delay =
    (class ≡ ResponseClassification.success) × (bytes ≡ length page.body) × (delay ≡ none)
Evidences permit (refused e) class bytes delay =
    ((route : RouteClass) × (route_of permit.route_class ≡ ok route)
      × (class ≡ classify_response route e.evidence))
    × (bytes ≡ e.transferred_bytes)
    × (delay ≡ e.evidence.retry_after_seconds)
Evidences permit broke class bytes delay = (bytes ≡ 0) × (delay ≡ none)

-- The calls of a round from a phase on, for a worker of a portal.
pub data Follows (source : Portal) : Phase → List Call → Type 0 where
  ends : {p : Phase} → Follows source p []
  advertises :
      {calls : List Call} → Follows source ready calls → Follows source idle (advertising ∷ calls)
  claims :
      {r : Reply (Option ScrapeLease)} {calls : List Call}
      → Follows source (asked r) calls
      → Follows source ready (claiming r ∷ calls)
  reserves :
      {lease : ScrapeLease} {r : Reply NetworkPermit} {calls : List Call}
      → portal_eq lease.source source ≡ true
      → is_capture_class lease.task_class ≡ true
      → Follows source (reserved lease r) calls
      → Follows source (asked (gave (some lease))) (reserving lease r ∷ calls)
  defers :
      {lease : ScrapeLease} {permit : NetworkPermit}
      → permit.granted ≡ false
      → Follows source
          (reserved lease (gave permit))
          (deferring lease permit.available_at "budget-exhausted" ∷ [])
  fetches :
      {lease : ScrapeLease} {permit : NetworkPermit} {request : FetchRequest} {c : Capture}
      {calls : List Call}
      → permit.granted ≡ true
      → request ≡ record {
        source = source;
        canonical_url = lease.canonical_url;
        route_id = permit.route_id;
      }
      → Follows source (fetched lease permit c) calls
      → Follows source (reserved lease (gave permit)) (fetching request c ∷ calls)
  records :
      {lease : ScrapeLease} {permit : NetworkPermit} {c : Capture} {class : ResponseClassification}
      {bytes : ℕ} {delay : Option ℕ} {r : Reply RouteDecision} {calls : List Call}
      → Evidences permit c class bytes delay
      → Follows source (recorded lease c r) calls
      → Follows source (fetched lease permit c) (recording lease permit class bytes delay r ∷ calls)
  cools :
      {lease : ScrapeLease} {c : Capture} {d : RouteDecision} {until : ℕ}
      → page_of c ≡ none
      → d.retry_direct_at ≡ none
      → d.source_cooldown_until ≡ some until
      → Follows source (recorded lease c (gave d)) (deferring lease until "source-cooldown" ∷ [])
  gives_up :
      {lease : ScrapeLease} {c : Capture} {r : Reply RouteDecision}
      → page_of c ≡ none
      → Follows source (recorded lease c r) (failing lease "transport-error" ∷ [])
  stores :
      {lease : ScrapeLease} {c : Capture} {d : RouteDecision} {page : PageInput}
      {artifact : Option String} {calls : List Call}
      → page_of c ≡ some page
      → Follows source (stored lease page artifact) calls
      → Follows source (recorded lease c (gave d)) (storing source page artifact ∷ calls)
  stores_none :
      {lease : ScrapeLease} {c : Capture} {d : RouteDecision} {page : PageInput} {calls : List Call}
      → page_of c ≡ some page
      → Follows source (stored lease page none) calls
      → Follows source (recorded lease c (gave d)) calls
  discards :
      {lease : ScrapeLease} {page : PageInput}
      → is_discovery_task lease.task_class ≡ true
      → Follows source (stored lease page none) (failing lease "artifact-unavailable" ∷ [])
  completes :
      {lease : ScrapeLease} {page : PageInput} {artifact : Option String} {outcome : CaptureOutcome}
      {reply : Completion} {calls : List Call}
      → outcome.capture_id ≡ page.capture_id
      → outcome.size_bytes ≡ length page.body
      → outcome.artifact_id ≡ artifact
      → (is_discovery_task lease.task_class ≡ true → is_some artifact ≡ true)
      → Follows source (tried lease outcome reply 1) calls
      → Follows source (stored lease page artifact) (completing lease outcome reply ∷ calls)
  completes_again :
      {lease : ScrapeLease} {outcome : CaptureOutcome} {reply : Completion} {tries : ℕ}
      {calls : List Call}
      → tries ≤ 2
      → Follows source (tried lease outcome reply (tries + 1)) calls
      → Follows source
          (tried lease outcome failed_call tries)
          (completing lease outcome reply ∷ calls)
