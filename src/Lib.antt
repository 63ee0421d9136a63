-- ===== src/Lib.antt =====
-- Homez: a home-finding assistant (src/homefinder), whose coordinator hands out scrape tasks to
-- workers, decides by which route they may fetch a portal's page, and keeps what they found.
--
-- The parts modelled, each a tree of modules:
-- * ScrapeQueue is scrape_queue/: the coordinator's queue of tasks. ScrapeQueue/Contracts models
--   contracts.py (WorkerIdentity, QueuePolicy, ScrapeLease), ScrapeQueue/Records the rows of
--   catalog/orm.py that the queue uses; Registration, Reaping, Claim, Lease and Finish have the
--   methods of ScrapeQueueRepository in repository.py. `leased` is `_leased`, `finish` is
--   `_finish`, `conclude` the body of its transaction, `settle` and `take_back` its two ends; the
--   other names are the methods' own. ScrapeQueue/Insertion has `enqueue` (`enqueue_task`, with
--   `insert_task` the body of its transaction), ScrapeQueue/Completion has `complete`, whose checks
--   before the transaction are `check_outcome` of its child Checks and whose body is
--   `complete_capture`; Captures has the rows that it stores, and ScrapeQueue/Outcome has `outcome`
--   (`read_outcome`), which reads them; Completion/Replay has `complete_artifact_replay` and
--   ScrapeQueue/Canary `release_discovery_canary`. ScrapeQueue/Budget models SourceBudgetRepository of
--   budget.py: Permits has `reserve_start` (`reserve` and `start` are the body of its transaction),
--   Outcomes `record_outcome` (`judge` and `apply_decision`), Accounts the rest. The modules beside
--   them hold what the theorems need, named for what they prove.
-- * Scraper is scraper/: Scraper/DenialPolicy models denial_policy.py, Scraper/RateLimit the
--   limiter of rate_limit.py (`before_request`, whose body is `admission` and `pace`,
--   `after_success` and `after_failure`), Scraper/Transport the capture of a page, transport.py and
--   contracts.py: Body has the loops (`loop`, whose round is `round`, and `discard`, which is
--   `_discard_bounded`), Fetch has `fetch`, RetryAfter `_retry_after`. Scraper/Worker has
--   `run_once` of worker.py (`run_round`), which calls the coordinator and the transport: the
--   evidence of a failed fetch is classified by DenialPolicy and recorded in the budget.
--   Scraper/Worker/Round has the calls, Scraper/Worker/Protocol their order.
-- * Parsers is parsers/ and parser_releases/: Parsers/Fields has `resolve_fields` of
--   parsers/contracts.py; Parsers/Releases and Parsers/Activation have ParserReleaseRepository:
--   `register_release`, `activate_release` and `rollback_release` are `register`, `activate` and
--   `rollback`, and `change_pointer` is `_change`. The releases of a portal's pointer are those that
--   the queue asks for in a claim.
-- * Digest is digest/: Digest/Outbox has DeliveryOutbox of delivery.py: `enqueue_delivery`,
--   `claim_delivery`, `acknowledge` and `fail_delivery`, with `claimed_row` for `_claimed`;
--   Digest/Outbox/Worker has `run_once` of DeliveryWorker. Digest/Outbox/Contract is the abstract
--   view, in which a period has a stage.
-- * Domain is domain/: Domain/Costs models costs.py, Domain/Commute routing.py (`best_route` is `_best`).
-- * Routing is routing/: Routing/Quota models quota.py, where `reserve_units` is `reserve`.
-- * Workflow is workflow/: the jobs of the pipeline, models.py and repository.py. Workflow/Jobs has
--   the rows, `enqueue` and `claim` (`claim_job`), Workflow/Leases the acknowledgements: `end_job`,
--   `lose_job` and `put_off` are the bodies of `succeed`, `fail` and `defer`, which are
--   `succeed_job`, `fail_job` and `defer_job`; `reap_lost` is `reap_expired`.
-- * Prelude holds what the parts share: tests, results of fallible code, tables and their keys,
--   texts and decimal numbers.
--
-- How the code is read. A method of the repository is one database transaction: a function from
-- the store (`Db`, a record of tables as lists of rows) to a result and a store, which on an error
-- is the store before. `commit` is that rule. Row locks order the transactions, so a run is a
-- sequence of steps (ScrapeQueue/Reachable); rows that another transaction has locked are skipped
-- by SKIP LOCKED, which the argument `locked` says of each row. Three operations do not hold to this
-- and are modelled as one step each: `reap_expired` of workflow/repository.py takes no row locks,
-- `rollback` of the parser releases reads its target in a session of its own, and so does
-- `release_discovery_canary`, whose insertions are transactions each. The coordinator's clock is an
-- argument too, since it is read again after a lock was waited for: the i-th reading within an
-- operation may be anything. UUIDs are numbers, and those that `uuid4` draws are arguments. Times
-- are whole seconds since 1970-01-01 UTC, and the budget's days are UTC days, as the coordinator's
-- clock is UTC; the column `day_key` is the number of the day that its text names. A datetime is
-- aware or naive, as `require_aware` asks. Numbers are natural: counts that the code refuses below
-- zero are not values of the model. `allocated_bytes`, which can fall below zero, is an integer
-- (ScrapeQueue/Budget/Signed).
--
-- Loops over rows are structural recursion. Three loops take fuel. Those of a fetch have 2,000,001
-- rounds, which suffice, as every round but the last transfers a byte and no more than 2,000,000
-- are let through. `show`, which writes a number, has one round
-- more than the number, which has no more digits than that.
--
-- Not modelled: the web application and command line, parsing of HTML and mail, network and file
-- I/O (the response, the decompressor and the clocks of a fetch are arguments), migrations; of the
-- queue, the page of its status, the lengths of JSON texts and SHA-256 (arguments of `complete` and
-- `enqueue_task`) and foreign keys; of the digests, the preparation of
-- reports, the scheduler of time zones, the adapter of the mail provider and the private links; of
-- the parsers, the pages themselves and the recovery that an activation plans.
pub mod Prelude
pub mod ScrapeQueue
pub mod Scraper
pub mod Workflow
pub mod Digest
pub mod Domain
pub mod Parsers
pub mod Routing
