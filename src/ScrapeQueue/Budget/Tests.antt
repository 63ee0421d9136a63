-- ===== src/ScrapeQueue/Budget/Tests.antt =====
-- A portal's budget of scrape_queue/budget.py, what its operations do, and the theorems applied to it.
use homez.ScrapeQueue.Budget.Samples.{
  budget, decision, denied, open_db, otodom_policy, program, proxy_permit, second_attempt,
  second_lease, second_task, started_db,
}
use homez.Prelude.{
  ◌+◌, ◌≤◌, ◌≡◌, ◌≢◌, refl, arith, true, false, List, [], ◌∷◌, none, some, Result, ok, err,
  Datetime, is_ok, find, ◌*◌,
}
use homez.ScrapeQueue.Contracts.{otodom, live, ScrapeLease, default_policy}
use homez.ScrapeQueue.Records.{pending, deferred, Task, Attempt, Repository, get_task, direct}
use homez.ScrapeQueue.Reaping.{is_expired}
use homez.ScrapeQueue.Claim.{claim, claimed, new_attempt, lease_of, is_candidate}
use homez.ScrapeQueue.Reachable.{claims}
use homez.ScrapeQueue.Samples.{repo, worker, row, db, unlocked, lease, leased_task, attempt, db'}
use homez.ScrapeQueue.Tests.{default-PolicyOk, db-DbOk}
use homez.Scraper.DenialPolicy.{success, portal_denial}
use homez.ScrapeQueue.Budget.Calendar.{day_number, civil_date, billing_cycle}
use homez.ScrapeQueue.Budget.Signed.{pos, negsuc}
use homez.ScrapeQueue.Budget.Records.{
  SourceState, ProxyLedger, NetworkPermit, BudgetDb, policy_of, state_key,
}
use homez.ScrapeQueue.Budget.Permits.{validate_lease, reserve_start}
use homez.ScrapeQueue.Budget.Outcomes.{reconcile, record_outcome}
use homez.ScrapeQueue.Budget.Limits.{BudgetOk}
use homez.ScrapeQueue.Budget.Steps.{BudgetReach, here, next, reserves, queues, BudgetReach-BudgetOk}
use homez.ScrapeQueue.Budget.Pacing.{reserve_start-paces}
use homez.ScrapeQueue.Budget.Retried.{record_outcome-retries, record_outcome-strands}
use homez.ScrapeQueue.Budget.Midnight.{record_outcome-midnight}

civil_dates :
    (civil_date 0 ≡ record { year = 1970; month = 1; day = 1 })
    × (civil_date 19782 ≡ record { year = 2024; month = 2; day = 29 })
    × (civil_date 20819 ≡ record { year = 2027; month = 1; day = 1 })
unfolding program
civil_dates = (refl, refl, refl)

cycle_january : billing_cycle 15 (20819 * 86400) ≡ record { year = 2026; month = 12; day = 15 }
unfolding program
cycle_january = refl

reserve_start-open :
    reserve_start budget worker lease (Datetime.aware 1001) 5000 open_db
    ≡ (ok proxy_permit, started_db)
unfolding program
reserve_start-open = refl

second_permit :
    (reserve_start budget worker second_lease (Datetime.aware 1005) 0 started_db).0
    ≡ ok (record { granted = false; available_at = 1011; route_class = none; route_id = none })
unfolding program
second_permit = refl

record_outcome-started : denied ≡ (ok decision, denied.1)
unfolding program
record_outcome-started = refl

-- A reservation that is reconciled in the next billing cycle drives that cycle's ledger below zero.
next_cycle : Result (Attempt × BudgetDb)
unfolding program
next_cycle =
    reconcile budget (record attempt { proxy_reserved_bytes = 5000 }) 300 (14 * 86400) started_db

ledgers_of : Result (Attempt × BudgetDb) → List ProxyLedger
ledgers_of (ok out) = out.1.ledgers
ledgers_of (err e) = []

reconcile-next_cycle : ledgers_of next_cycle ≡ (
    record {
      billing_cycle = record { year = 1969; month = 12; day = 15 };
      allocated_bytes = pos 5000;
      transferred_bytes = 0;
    }
    ∷ record {
      billing_cycle = record { year = 1970; month = 1; day = 15 };
      allocated_bytes = negsuc 4699;
      transferred_bytes = 300;
    }
    ∷ [])
unfolding program next_cycle ledgers_of
reconcile-next_cycle = refl

open_db-BudgetOk : BudgetOk default_policy budget (record open_db { queue = db })
open_db-BudgetOk = record { states = tt; ledgers = tt; queue = db-DbOk }

abbrev claimed_db : BudgetDb
claimed_db = record open_db {
  queue = (claim repo unlocked worker (live ∷ []) 55 (Datetime.aware 1000) db).1;
}

-- a claim, and a start under its lease
start-BudgetReach :
    BudgetReach default_policy budget
      (record open_db { queue = db })
      (reserve_start budget worker lease (Datetime.aware 1001) 5000 claimed_db).1
start-BudgetReach =
    next
      (next here (
        queues (record open_db { queue = db })
          (claims none unlocked worker (live ∷ []) 55 (Datetime.aware 1000) db)))
      (reserves worker lease (Datetime.aware 1001) 5000 claimed_db)

BudgetReach-BudgetOk_example :
    BudgetOk default_policy budget
      (reserve_start budget worker lease (Datetime.aware 1001) 5000 claimed_db).1
BudgetReach-BudgetOk_example =
    BudgetReach-BudgetOk default-PolicyOk open_db-BudgetOk start-BudgetReach

otodom_pace : policy_of budget otodom ≡ ok otodom_policy
unfolding program
otodom_pace = refl

first_valid : validate_lease open_db.queue worker lease 1001 ≡ ok (leased_task, attempt)
unfolding program
first_valid = refl

second_valid :
    validate_lease started_db.queue worker second_lease 1005 ≡ ok (second_task, second_attempt)
unfolding program
second_valid = refl

abbrev refused : NetworkPermit
refused = record { granted = false; available_at = 1011; route_class = none; route_id = none }

abbrev refused_db : BudgetDb
refused_db = (reserve_start budget worker second_lease (Datetime.aware 1005) 0 started_db).1

second_refused :
    reserve_start budget worker second_lease (Datetime.aware 1005) 0 started_db
    ≡ (ok refused, refused_db)
unfolding program
second_refused = refl

reserve_start-paces_example : (refused.granted ≡ false) × (1001 + 10 ≤ refused.available_at)
reserve_start-paces_example =
    reserve_start-paces budget worker worker lease second_lease 5000 0 1001 1005 otodom_policy
      leased_task second_task attempt second_attempt proxy_permit refused open_db started_db
      refused_db refl otodom_pace first_valid refl reserve_start-open refl second_valid refl
      (omega arith) second_refused

started_found : get_task started_db.queue 2 ≡ some leased_task
unfolding program
started_found = refl

record_outcome-retries_example :
    (r : Task) × (get_task denied.1.queue 2 ≡ some r)
    × (r.state ≡ deferred)
    × (r.lease_token ≡ none)
    × (r.available_at ≡ 1910)
    × (r.direct_fallback_pending ≡ true)
    × (r.attempt_count ≡ 1)
record_outcome-retries_example =
    record_outcome-retries budget worker lease proxy_permit portal_denial 1010 300 1910 none
      started_db denied.1 decision leased_task started_found record_outcome-started refl

-- with one attempt for each task
abbrev single : Repository
single = record { policy = record default_policy { max_attempts = 1 }; clock = none }

record_outcome-strands_example :
    (r : Task) × (get_task denied.1.queue 2 ≡ some r)
    × (r.state ≡ deferred)
    × (is_candidate single unlocked worker none (live ∷ []) 2000 r ≡ false)
    × (is_expired unlocked 2000 r ≡ false)
record_outcome-strands_example =
    record_outcome-strands budget worker lease proxy_permit portal_denial 1010 300 1910 none
      started_db denied.1 decision leased_task single unlocked worker none (live ∷ []) 2000
      started_found record_outcome-started refl (omega arith)

-- a lease that is claimed ten seconds before midnight, and started five seconds before it
abbrev late_task : Task
late_task = claimed repo worker 55 86390 "r2" 2 (row 2 0 pending none)

abbrev late_lease : ScrapeLease
late_lease = lease_of late_task 55 86450

abbrev late_db : BudgetDb
late_db = record open_db {
  queue = record db' {
    tasks = late_task ∷ [];
    attempts = new_attempt worker 55 86390 late_task ∷ [];
  };
}

abbrev direct_permit : NetworkPermit
direct_permit = record {
  granted = true;
  available_at = 86395;
  route_class = some direct;
  route_id = none;
}

abbrev late_started : BudgetDb
late_started = (reserve_start budget worker late_lease (Datetime.aware 86395) 0 late_db).1

abbrev late_state : SourceState
late_state = record {
  source = otodom;
  policy_version = "reference-v1";
  day_key = 0;
  attempt_count = 1;
  success_count = 0;
  next_start_at = some 86405;
  cooldown_until = none;
  direct_denial_count = 0;
}

late_found : find (state_key otodom) late_started.states ≡ some late_state
unfolding program
late_found = refl

next_day : late_state.day_key ≢ day_number 86401
next_day h = omega arith

-- Before midnight the same success is recorded.
record_outcome-before_midnight :
    is_ok
      (record_outcome budget worker late_lease direct_permit success
        (Datetime.aware 86399)
        100
        none
        late_started).0
    ≡ true
unfolding program
record_outcome-before_midnight = refl

record_outcome-midnight_example :
    (is_ok
        (record_outcome budget worker late_lease direct_permit success
          (Datetime.aware 86401)
          100
          none
          late_started).0
      ≡ false)
    × ((record_outcome budget worker late_lease direct_permit success
          (Datetime.aware 86401)
          100
          none
          late_started).1
        ≡ late_started)
record_outcome-midnight_example =
    record_outcome-midnight budget worker late_lease direct_permit 86401 100 none late_started
      late_state late_found next_day
