-- ===== src/Scraper/Worker/Tests.antt =====
-- Rounds of scraper/worker.py, and the theorem applied to one.
use homez.Prelude.{
  ◌≡◌, refl, true, false, [], ◌∷◌, none, some, Datetime, str_eq, if◌then◌else◌, ◌==◌,
}
use homez.ScrapeQueue.Contracts.{otodom, TaskClass, live, ScrapeLease}
use homez.ScrapeQueue.Records.{RouteColumn}
use homez.ScrapeQueue.Budget.Records.{NetworkPermit}
use homez.Scraper.DenialPolicy.{
  RouteDecision, ResponseClassification, is_denial, pre_response_failure, is_infrastructure,
  by_status, classify_response,
}
use homez.Scraper.Transport.{PageInput, TransportError, evidence_of}
use homez.ScrapeQueue.Captures.{CaptureOutcome}
use homez.Scraper.Worker.{
  gave, Capture, captured, refused, completed, failed_call, advertising, claiming, reserving,
  deferring, fetching, recording, completing, World, unknown_result,
}
use homez.Scraper.Worker.Round.{
  complete_task, store_discovery, store_missing, keep_page, record_page, give_back, after_fetch,
  use_route, after_permit, is_unfit, take_lease, run_round, request_of, outcome_of,
}
use homez.Scraper.Worker.Protocol.{Follows, idle}
use homez.Scraper.Worker.Followed.{run_round-Follows}

program : Unit {0}
unfolding is_denial pre_response_failure is_infrastructure by_status classify_response complete_task
    store_discovery store_missing keep_page record_page give_back after_fetch use_route after_permit
    is_unfit take_lease run_round
program = tt

abbrev lease : TaskClass → ScrapeLease
lease class = record {
  task_id = 1;
  source = otodom;
  snapshot_id = 2;
  canonical_url = "https://www.otodom.pl/pl/oferta/x-ID1";
  task_class = class;
  release_hash = "r1";
  activation_epoch = 1;
  lease_token = 3;
  lease_expires_at = 1060;
  attempt_number = 1;
}

abbrev permit : NetworkPermit
permit = record {
  granted = true;
  available_at = 1000;
  route_class = some RouteColumn.direct;
  route_id = none;
}

abbrev page : PageInput
page = record { capture_id = 7; fetched_at = Datetime.aware 1001; body = 60 ∷ 62 ∷ [] }

abbrev plain_decision : RouteDecision
plain_decision = record {
  retry_direct_at = none;
  source_cooldown_until = none;
  mark_proxy_unhealthy = false;
  quarantine_proxy_source = false;
  direct_attempt_used = true;
  consecutive_direct_denials = 0;
}

abbrev world : TaskClass → Capture → RouteDecision → World
world class capture decision = record {
  source = otodom;
  heartbeat_seconds = 20;
  stop = false;
  advertised = true;
  claimed = gave (some (lease class));
  now = 1000;
  parses = λ hash. if str_eq hash "r1" then some (λ p. none) else none;
  has_parsers = true;
  permit = gave permit;
  fetched = capture;
  lost = λ i. false;
  decision = gave decision;
  writer = none;
  hash = λ body. "h";
  completion = λ i. if i == 0 then failed_call else completed;
}

abbrev page_world : World
page_world = world live (captured (record { page = page; transferred_bytes = 2 })) plain_decision

abbrev outcome : CaptureOutcome
outcome = outcome_of page_world page (unknown_result (lease live) page "unknown-variant") none

completes_twice : run_round page_world ≡ (
  some true,
  advertising
      ∷ claiming (gave (some (lease live)))
      ∷ reserving (lease live) (gave permit)
      ∷ fetching
          (request_of page_world (lease live) permit)
          (captured (record { page = page; transferred_bytes = 2 }))
      ∷ recording (lease live) permit ResponseClassification.success 2 none (gave plain_decision)
      ∷ completing (lease live) outcome failed_call
      ∷ completing (lease live) outcome completed
      ∷ [],
)
unfolding program
completes_twice = refl

abbrev limited : TransportError
limited = record {
  message = "capture response rejected";
  evidence = evidence_of (some 429) (some 120);
  transferred_bytes = 5;
}

abbrev denied_world : World
denied_world =
    world live (refused limited) (record plain_decision { source_cooldown_until = some 22600 })

cools_down : run_round denied_world ≡ (
  some true,
  advertising
      ∷ claiming (gave (some (lease live)))
      ∷ reserving (lease live) (gave permit)
      ∷ fetching (request_of denied_world (lease live) permit) (refused limited)
      ∷ recording
          (lease live)
          permit
          ResponseClassification.portal_denial
          5
          (some 120)
          (gave (record plain_decision { source_cooldown_until = some 22600 }))
      ∷ deferring (lease live) 22600 "source-cooldown"
      ∷ [],
)
unfolding program
cools_down = refl

run_round-Follows_example : Follows otodom idle (run_round page_world).1
run_round-Follows_example = run_round-Follows page_world
