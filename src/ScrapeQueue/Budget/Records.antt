-- ===== src/ScrapeQueue/Budget/Records.antt =====
-- scrape_queue/budget.py: its rows of catalog/orm.py, its policy and permits of
-- scrape_queue/contracts.py, and the lookups of the repository.
use homez.Prelude.{
  ℕ, Bool, ◌&&◌, String, List, [], ◌∷◌, Option, none, some, Result, ok, err, value_error, ◌>>=◌,
  find, insert, replace, leb, ◌==◌, str_eq, if◌then◌else◌,
}
use homez.Prelude.Chars.{count_chars}
use homez.ScrapeQueue.Contracts.{Portal, portal_eq}
use homez.ScrapeQueue.Records.{Task, Attempt, Db, RouteColumn}
use homez.ScrapeQueue.Lease.{put_task, put_attempt}
use homez.ScrapeQueue.Budget.Calendar.{Date, date_eq, day_number, billing_cycle}
use homez.ScrapeQueue.Budget.Signed.{ℤ, pos}

-- SourceRuntimeStateRecord; `day_key` is the day that the text of the column names
pub record SourceState : Type 0 where
  pub source : Portal
  pub policy_version : String
  pub day_key : ℕ
  pub attempt_count : ℕ
  pub success_count : ℕ
  pub next_start_at : Option ℕ
  pub cooldown_until : Option ℕ
  pub direct_denial_count : ℕ

-- ProxyUsageLedgerRecord
pub record ProxyLedger : Type 0 where
  pub billing_cycle : Date
  pub allocated_bytes : ℤ
  pub transferred_bytes : ℕ

-- ProxyRouteHealthRecord
pub record ProxyRoute : Type 0 where
  pub route_id : String
  pub healthy : Bool
  pub updated_at : ℕ

-- ProxySourceQuarantineRecord
pub record Quarantine : Type 0 where
  pub route_id : String
  pub source : Portal
  pub until : ℕ

pub record SourceBudgetPolicy : Type 0 where
  pub minimum_interval : ℕ
  pub daily_attempt_limit : ℕ
  pub daily_success_limit : ℕ
  pub policy_version : String

-- `SourceBudgetPolicy(…)`, with its interval in seconds
unfoldable pub make_budget_policy : SourceBudgetPolicy → Result SourceBudgetPolicy
make_budget_policy p =
    if leb 1 p.minimum_interval
      && leb p.minimum_interval 3600
      && leb 1 p.daily_success_limit
      && leb p.daily_success_limit p.daily_attempt_limit
      && leb p.daily_attempt_limit 100000
      && leb 1 (count_chars p.policy_version)
      && leb (count_chars p.policy_version) 80
    then ok p
    else err value_error

pub record NetworkPermit : Type 0 where
  pub granted : Bool
  pub available_at : ℕ
  pub route_class : Option RouteColumn
  pub route_id : Option String

-- The tables that the budget uses, the queue's among them.
pub record BudgetDb : Type 0 where
  pub queue : Db
  pub states : List SourceState
  pub ledgers : List ProxyLedger
  pub routes : List ProxyRoute
  pub quarantines : List Quarantine

-- SourceBudgetRepository; the order of texts is the database's
pub record BudgetRepository : Type 0 where
  pub policies : List (Portal × SourceBudgetPolicy)
  pub billing_cycle_anchor_day : ℕ
  pub text_before : String → String → Bool

abbrev pub usable_bytes : ℕ
usable_bytes = 900000000

-- the checks of the constructor
unfoldable pub make_budget : BudgetRepository → Result BudgetRepository
make_budget repo = elim repo.policies [
  | [] ↦ err value_error
  | p ∷ ps ↦
      if leb 1 repo.billing_cycle_anchor_day && leb repo.billing_cycle_anchor_day 28
      then ok repo
      else err value_error
]

unfoldable pub lookup : Portal → List (Portal × SourceBudgetPolicy) → Result SourceBudgetPolicy
lookup source [] = err value_error
lookup source (p ∷ ps) =
    let rest = lookup source ps in if portal_eq p.0 source then ok p.1 else rest

-- `_policy`
unfoldable pub policy_of : BudgetRepository → Portal → Result SourceBudgetPolicy
policy_of repo source = lookup source repo.policies

abbrev pub state_key : Portal → SourceState → Bool
state_key source s = portal_eq s.source source

abbrev pub ledger_key : Date → ProxyLedger → Bool
ledger_key cycle l = date_eq l.billing_cycle cycle

abbrev pub route_key : String → ProxyRoute → Bool
route_key id r = str_eq r.route_id id

abbrev pub quarantine_key : String → Portal → Quarantine → Bool
quarantine_key id source q = str_eq q.route_id id && portal_eq q.source source

-- the flushes of changed rows
abbrev pub put_state : SourceState → BudgetDb → BudgetDb
put_state s db = record db { states = replace (state_key s.source) s db.states }

abbrev pub put_ledger : ProxyLedger → BudgetDb → BudgetDb
put_ledger l db = record db { ledgers = replace (ledger_key l.billing_cycle) l db.ledgers }

abbrev pub put_work : Task → Attempt → BudgetDb → BudgetDb
put_work t a db = record db { queue = put_attempt a (put_task t db.queue) }

abbrev pub fresh_state : Portal → SourceBudgetPolicy → ℕ → SourceState
fresh_state source policy now = record {
  source = source;
  policy_version = policy.policy_version;
  day_key = day_number now;
  attempt_count = 0;
  success_count = 0;
  next_start_at = none;
  cooldown_until = none;
  direct_denial_count = 0;
}

-- the counts start again with a new day
unfoldable pub roll_over : SourceBudgetPolicy → ℕ → SourceState → SourceState
roll_over policy now s =
    if s.day_key == day_number now
    then record s { policy_version = policy.policy_version }
    else record s {
      policy_version = policy.policy_version;
      day_key = day_number now;
      attempt_count = 0;
      success_count = 0;
    }

-- `_locked_source_state`
unfoldable pub locked_source_state :
    Portal → SourceBudgetPolicy → ℕ → BudgetDb → Result (SourceState × BudgetDb)
locked_source_state source policy now db = elim (find (state_key source) db.states) [
  | none ↦ do
    states ← insert (state_key source) (fresh_state source policy now) db.states
    ok (fresh_state source policy now, record db { states = states })
  | some s ↦ ok (roll_over policy now s, put_state (roll_over policy now s) db)
]

-- the ledger of a cycle, which is empty at first
abbrev pub empty_ledger : Date → ProxyLedger
empty_ledger cycle = record {
  billing_cycle = cycle;
  allocated_bytes = pos 0;
  transferred_bytes = 0;
}

unfoldable pub locked_ledger : Date → BudgetDb → Result (ProxyLedger × BudgetDb)
locked_ledger cycle db = elim (find (ledger_key cycle) db.ledgers) [
  | none ↦ do
    ledgers ← insert (ledger_key cycle) (empty_ledger cycle) db.ledgers
    ok (empty_ledger cycle, record db { ledgers = ledgers })
  | some l ↦ ok (l, db)
]

-- `_locked_proxy_ledger`
unfoldable pub locked_proxy_ledger :
    BudgetRepository → ℕ → BudgetDb → Result (ProxyLedger × BudgetDb)
locked_proxy_ledger repo now db = locked_ledger (billing_cycle repo.billing_cycle_anchor_day now) db
