-- ===== src/Scraper/Worker/Followed.antt =====
-- That a round of scraper/worker.py keeps to the protocol towards the coordinator.
use homez.Scraper.Worker.Protocol.{
  idle, asked, reserved, fetched, recorded, stored, tried, page_of, Follows, ends, advertises,
  claims, reserves, defers, fetches, records, cools, gives_up, stores, stores_none, discards,
  completes, completes_again,
}
use homez.Prelude.{
  ℕ, zero, suc, ◌+◌, ◌≡◌, refl, Bool, true, false, not, String, List, Option, none, some, is_some,
  Result, ok, err, if_both, Bool-cases, inl, inr, arith,
}
use homez.ScrapeQueue.Contracts.{Portal, ScrapeLease}
use homez.ScrapeQueue.Budget.Records.{NetworkPermit}
use homez.ScrapeQueue.Budget.Outcomes.{route_of}
use homez.Scraper.DenialPolicy.{RouteClass, RouteDecision}
use homez.Scraper.Transport.{PageInput}
use homez.Parsers.Results.{ParserResult}
use homez.ScrapeQueue.Captures.{CaptureOutcome}
use homez.Scraper.Worker.{
  Reply, raised, gave, Capture, captured, page_only, refused, broke, Completion, completed,
  lost_lease, failed_call, Call, World, is_discovery_task, has_any,
}
use homez.Scraper.Worker.Round.{
  complete_task, after_completion, send_outcome, use_artifact, cool_down, store_discovery,
  store_missing, keep_page, record_page, give_back, after_fetch, use_route, after_permit, is_unfit,
  take_lease, run_round,
}

is_some-false : {A : Type 0} (o : Option A) → is_some o ≡ false → o ≡ none
is_some-false none h = refl
is_some-false (some a) h = absurd (ground arith)

Follows-after_completion :
    {source : Portal} (lease : ScrapeLease) (outcome : CaptureOutcome) (tries : ℕ)
    (reply : Completion) (again : List Call)
    → Follows source (tried lease outcome failed_call tries) again
    → Follows source (tried lease outcome reply tries) (after_completion reply again)
Follows-after_completion lease outcome tries completed again h = ends
Follows-after_completion lease outcome tries lost_lease again h = ends
Follows-after_completion lease outcome tries failed_call again h = h

module _ (w : World) where
  Follows-complete_task :
      (n i tries : ℕ) (lease : ScrapeLease) (outcome : CaptureOutcome)
      → tries + n ≡ 3
      → Follows w.source (tried lease outcome failed_call tries) (complete_task w n i lease outcome)
  unfolding complete_task
  Follows-complete_task zero i tries lease outcome left = ends
  Follows-complete_task (suc n) i tries lease outcome left =
      if_both (Follows w.source (tried lease outcome failed_call tries)) (w.lost (i + 1)) _ _
        (λ gone. ends)
        λ held. completes_again (omega arith) (
          Follows-after_completion lease outcome (tries + 1) (w.completion i) _
            (Follows-complete_task n (i + 1) (tries + 1) lease outcome (omega arith)))

  Follows-send_outcome :
      (lease : ScrapeLease) (page : PageInput) (result : ParserResult) (artifact : Option String)
      → (is_discovery_task lease.task_class ≡ true → is_some artifact ≡ true)
      → Follows w.source (stored lease page artifact) (send_outcome w lease page result artifact)
  unfolding complete_task
  Follows-send_outcome lease page result artifact needed =
      if_both (Follows w.source (stored lease page artifact)) (w.lost 1) _ _ (λ gone. ends)
        λ held. completes refl refl refl needed (
          Follows-after_completion lease _ 1 (w.completion 0) _
            (Follows-complete_task 2 1 1 lease _ refl))

  Follows-store_discovery :
      (lease : ScrapeLease) (c : Capture) (d : RouteDecision) (page : PageInput)
      (result : ParserResult) (writer : Option (Portal → PageInput → Option String))
      → page_of c ≡ some page
      → is_discovery_task lease.task_class ≡ true
      → Follows w.source (recorded lease c (gave d)) (store_discovery w lease page result writer)
  unfolding store_discovery
  Follows-store_discovery lease c d page result none paged found =
      stores_none paged (discards found)
  Follows-store_discovery lease c d page result (some put) paged found =
      stores paged (used (put w.source page))
    where
      used :
          (artifact : Option String)
          → Follows w.source
              (stored lease page artifact)
              (use_artifact w lease page result artifact)
      used none = discards found
      used (some artifact) = Follows-send_outcome lease page result (some artifact) (λ e. refl)

  Follows-store_missing :
      (lease : ScrapeLease) (c : Capture) (d : RouteDecision) (page : PageInput)
      (result : ParserResult) (writer : Option (Portal → PageInput → Option String))
      → page_of c ≡ some page
      → is_discovery_task lease.task_class ≡ false
      → Follows w.source (recorded lease c (gave d)) (store_missing w lease page result writer)
  unfolding store_missing
  Follows-store_missing lease c d page result none paged other =
      stores_none paged (Follows-send_outcome lease page result none (λ e. absurd (ground arith)))
  Follows-store_missing lease c d page result (some put) paged other =
      if_both (Follows w.source (recorded lease c (gave d))) (has_any result.missing_fields) _ _
        (λ partial.
          stores paged (Follows-send_outcome lease page result _ (λ e. absurd (ground arith))))
        λ whole.
          stores_none paged
            (Follows-send_outcome lease page result none (λ e. absurd (ground arith)))

  Follows-keep_page :
      (lease : ScrapeLease) (c : Capture) (page : PageInput) (r : Reply RouteDecision)
      → page_of c ≡ some page
      → Follows w.source (recorded lease c r) (keep_page w lease page r)
  unfolding keep_page
  Follows-keep_page lease c page raised paged = ends
  Follows-keep_page lease c page (gave d) paged =
      if_both (Follows w.source (recorded lease c (gave d))) (is_discovery_task lease.task_class) _
        _ (λ found. Follows-store_discovery lease c d page _ w.writer paged found)
        λ other. Follows-store_missing lease c d page _ w.writer paged other

  Follows-cool_down :
      (lease : ScrapeLease) (c : Capture) (d : RouteDecision) (cooldown : Option ℕ)
      → page_of c ≡ none
      → d.retry_direct_at ≡ none
      → d.source_cooldown_until ≡ cooldown
      → Follows w.source (recorded lease c (gave d)) (cool_down w lease cooldown)
  Follows-cool_down lease c d none unpaged direct e = gives_up unpaged
  Follows-cool_down lease c d (some until) unpaged direct e = cools unpaged direct e

  Follows-give_back :
      (lease : ScrapeLease) (c : Capture) (r : Reply RouteDecision)
      → page_of c ≡ none
      → Follows w.source (recorded lease c r) (give_back w lease r)
  unfolding give_back
  Follows-give_back lease c raised unpaged = ends
  Follows-give_back lease c (gave d) unpaged =
      if_both (Follows w.source (recorded lease c (gave d))) (is_some d.retry_direct_at) _ _
        (λ again. ends)
        λ never.
          Follows-cool_down lease c d d.source_cooldown_until unpaged
            (is_some-false d.retry_direct_at never) refl

  Follows-after_fetch :
      (lease : ScrapeLease) (permit : NetworkPermit) (route : RouteClass) (c : Capture)
      → route_of permit.route_class ≡ ok route
      → Follows w.source (fetched lease permit c) (after_fetch w lease permit route c)
  unfolding after_fetch record_page
  Follows-after_fetch lease permit route (captured c) on_route =
      if_both (Follows w.source (fetched lease permit (captured c))) (w.lost 0) _ _ (λ gone. ends)
        λ held.
          records (refl, refl, refl) (Follows-keep_page lease (captured c) c.page w.decision refl)
  Follows-after_fetch lease permit route (page_only page) on_route =
      if_both (Follows w.source (fetched lease permit (page_only page))) (w.lost 0) _ _
        (λ gone. ends)
        λ held.
          records (refl, refl, refl) (Follows-keep_page lease (page_only page) page w.decision refl)
  Follows-after_fetch lease permit route (refused e) on_route =
      if_both (Follows w.source (fetched lease permit (refused e))) (w.lost 0) _ _ (λ gone. ends)
        λ held.
          records ((route, on_route, refl), refl, refl)
            (Follows-give_back lease (refused e) w.decision refl)
  Follows-after_fetch lease permit route broke on_route =
      if_both (Follows w.source (fetched lease permit broke)) (w.lost 0) _ _ (λ gone. ends)
        λ held. records (refl, refl) (gives_up refl)

  Follows-use_route :
      (lease : ScrapeLease) (permit : NetworkPermit) (route : Result RouteClass)
      → permit.granted ≡ true
      → route_of permit.route_class ≡ route
      → Follows w.source (reserved lease (gave permit)) (use_route w lease permit route)
  unfolding use_route
  Follows-use_route lease permit (err e) granted on_route = ends
  Follows-use_route lease permit (ok route) granted on_route =
      fetches granted refl (Follows-after_fetch lease permit route w.fetched on_route)

  Follows-after_permit :
      (lease : ScrapeLease) (r : Reply NetworkPermit)
      → Follows w.source (reserved lease r) (after_permit w lease r)
  unfolding after_permit
  Follows-after_permit lease raised = ends
  Follows-after_permit lease (gave permit) =
      if_both (Follows w.source (reserved lease (gave permit))) (not permit.granted) _ _
        (λ refused. defers (ground arith))
        λ granted. Follows-use_route lease permit _ (ground arith) refl

  Follows-take_lease :
      (r : Reply (Option ScrapeLease)) → Follows w.source (asked r) (take_lease w r).1
  unfolding take_lease is_unfit
  Follows-take_lease raised = ends
  Follows-take_lease (gave none) = ends
  Follows-take_lease (gave (some lease)) = elim (Bool-cases (is_unfit w lease)) [
    | inl unfit ↦ rw unfit ends
    | inr fit ↦
        rw fit (reserves (ground arith) (ground arith) (Follows-after_permit lease w.permit))
  ]

-- The calls of a round, whatever the coordinator, the transport, the parsers and the artifact
-- writer give, follow the protocol of a worker, each only after the one before it: advertise; claim;
-- reserve a start, for a lease of the worker's own portal and of a class to be fetched; if no start
-- is granted, defer the task until the time given, and otherwise fetch the URL of the lease by the
-- route of the permit, once; record the outcome, which is a success with the bytes transferred for
-- a page, and for a refusal the classification of its evidence on the route of the permit. After a
-- refusal the task is at most deferred or failed; after a page it is at most completed, with the
-- page's own id, size and artifact and in at most three calls, of which the later follow failed
-- ones, or failed if it is a discovery whose artifact was not stored. A round may end after any
-- call.
pub run_round-Follows : (w : World) → Follows w.source idle (run_round w).1
unfolding run_round
run_round-Follows w =
    if_both P w.stop _ _ (λ stops. ends)
      λ goes.
        if_both P (not w.advertised) _ _ (λ broken. advertises ends)
          λ fine.
            if_both P (not w.has_parsers) _ _ (λ bare. advertises ends)
              λ equipped. advertises (claims (Follows-take_lease w w.claimed))
  where
    P : Option Bool × List Call → Type 0
    P r = Follows w.source idle r.1
