-- ===== src/ScrapeQueue/Budget/Samples.antt =====
-- A portal's budget of scrape_queue/budget.py, with two tasks leased and one of them started.
use homez.Prelude.{true, false, [], ◌∷◌, none, some, Result, Datetime}
use homez.ScrapeQueue.Contracts.{otodom, ScrapeLease}
use homez.ScrapeQueue.Records.{pending, Task, Attempt, proxy}
use homez.ScrapeQueue.Claim.{claimed, new_attempt, lease_of}
use homez.ScrapeQueue.Samples.{repo, worker, row, lease, leased_task, attempt, db', queue_program}
use homez.Scraper.DenialPolicy.{portal_denial, RouteDecision, decide_route_outcome}
use homez.ScrapeQueue.Budget.Calendar.{civil_date, cycle_start, billing_cycle, next_utc_day}
use homez.ScrapeQueue.Budget.Signed.{plus, minus}
use homez.ScrapeQueue.Budget.Records.{
  SourceBudgetPolicy, NetworkPermit, BudgetDb, BudgetRepository, policy_of, lookup, roll_over,
  locked_source_state, locked_ledger, locked_proxy_ledger,
}
use homez.ScrapeQueue.Budget.Permits.{
  validate_lease, holds_lease, is_valid, available_from, is_refused, is_free, free_route,
  choose_route, start, reserve, reserve_start,
}
use homez.ScrapeQueue.Budget.Outcomes.{
  awaits, reconcile, add_success, count_success, quarantine, apply_decision, judge, record_outcome,
}

unfoldable pub program : Unit {0}
unfolding queue_program civil_date cycle_start billing_cycle next_utc_day plus minus lookup
    policy_of roll_over locked_source_state locked_ledger locked_proxy_ledger holds_lease is_valid
    validate_lease available_from is_refused is_free free_route choose_route start reserve
    reserve_start awaits reconcile add_success count_success quarantine apply_decision judge
    record_outcome decide_route_outcome
program = tt

abbrev pub otodom_policy : SourceBudgetPolicy
otodom_policy = record {
  minimum_interval = 10;
  daily_attempt_limit = 100;
  daily_success_limit = 50;
  policy_version = "reference-v1";
}

abbrev pub budget : BudgetRepository
budget = record {
  policies = (otodom, otodom_policy) ∷ [];
  billing_cycle_anchor_day = 15;
  text_before = λ a b. false;
}

-- two tasks are leased to the worker
abbrev pub second_task : Task
second_task = claimed repo worker 56 1000 "r2" 2 (row 1 20 pending none)

abbrev pub second_lease : ScrapeLease
second_lease = lease_of second_task 56 1060

abbrev pub second_attempt : Attempt
second_attempt = new_attempt worker 56 1000 second_task

abbrev pub open_db : BudgetDb
open_db = record {
  queue = record db' {
    tasks = second_task ∷ leased_task ∷ [];
    attempts = attempt ∷ second_attempt ∷ [];
  };
  states = [];
  ledgers = [];
  routes = record { route_id = "p1"; healthy = true; updated_at = 900 } ∷ [];
  quarantines = [];
}

abbrev pub started_db : BudgetDb
started_db = (reserve_start budget worker lease (Datetime.aware 1001) 5000 open_db).1

abbrev pub proxy_permit : NetworkPermit
proxy_permit = record {
  granted = true;
  available_at = 1001;
  route_class = some proxy;
  route_id = some "p1";
}

abbrev pub denied : Result RouteDecision × BudgetDb
denied =
    record_outcome budget worker lease proxy_permit portal_denial (Datetime.aware 1010) 300 none
      started_db

abbrev pub decision : RouteDecision
decision = record {
  retry_direct_at = some 1910;
  source_cooldown_until = none;
  mark_proxy_unhealthy = false;
  quarantine_proxy_source = true;
  direct_attempt_used = true;
  consecutive_direct_denials = 0;
}
