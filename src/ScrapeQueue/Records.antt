-- ===== src/ScrapeQueue/Records.antt =====
-- The rows of catalog/orm.py that the queue reads and writes, and the coordinator's store.
-- A column that may be NULL is an `Option`; stored timestamps are instants, as `aware` of
-- scrape_queue/repository.py reads them.
use homez.Prelude.{
  ℕ, Bool, true, false, ◌&&◌, ◌||◌, String, List, [], ◌∷◌, Option, none, some, Result, ok, find,
  leb, ltb, ◌==◌, str_eq, Datetime, require_aware,
}
use homez.ScrapeQueue.Captures.{Captured}
use homez.ScrapeQueue.Contracts.{
  Portal, portal_eq, TaskClass, Deployment, deployment_eq, WorkerIdentity, QueuePolicy,
}

-- the states that the CHECK constraint of the column allows
pub data TaskState : Type 0 where
  pending running deferred succeeded failed held superseded cancelled : TaskState

-- the text of a state in the column
abbrev pub state_value : TaskState → String
state_value pending = "pending"
state_value running = "running"
state_value deferred = "deferred"
state_value succeeded = "succeeded"
state_value failed = "failed"
state_value held = "held"
state_value superseded = "superseded"
state_value cancelled = "cancelled"

abbrev pub is_running : TaskState → Bool
is_running running = true
is_running _ = false

abbrev pub is_deferred : TaskState → Bool
is_deferred deferred = true
is_deferred _ = false

-- `state.in_(("pending", "deferred"))`
abbrev pub is_claimable : TaskState → Bool
is_claimable pending = true
is_claimable deferred = true
is_claimable _ = false

-- `state in {"succeeded", "failed"}`
abbrev pub is_terminal : TaskState → Bool
is_terminal succeeded = true
is_terminal failed = true
is_terminal _ = false

-- ScrapeTaskRecord
pub record Task : Type 0 where
  pub id : ℕ
  pub source : Portal
  pub snapshot_id : ℕ
  pub canonical_url : String
  pub task_class : TaskClass
  pub release_hash : String
  pub activation_epoch : ℕ
  pub idempotency_key : String
  pub state : TaskState
  pub priority : ℕ
  pub available_at : ℕ
  pub created_at : ℕ
  pub attempt_count : ℕ
  pub lease_owner : Option String
  pub lease_token : Option ℕ
  pub lease_expires_at : Option ℕ
  pub lease_started_at : Option ℕ
  pub finished_at : Option ℕ
  pub direct_fallback_pending : Bool
  pub direct_fallback_available_at : Option ℕ

-- the words of the column `route_class`
pub data RouteColumn : Type 0 where
  unassigned direct proxy : RouteColumn

-- ScrapeAttemptRecord; its primary key is the task and the attempt's number
pub record Attempt : Type 0 where
  pub task_id : ℕ
  pub attempt_number : ℕ
  pub lease_token : ℕ
  pub worker_id : String
  pub release_hash : String
  pub activation_epoch : ℕ
  pub started_at : ℕ
  pub finished_at : Option ℕ
  pub outcome : Option String
  pub code : Option String
  pub route_class : RouteColumn
  pub route_id : Option String
  pub proxy_reserved_bytes : ℕ
  pub network_attempt_count : ℕ
  pub network_started_at : Option ℕ
  pub classification : Option String
  pub response_bytes : ℕ

-- ScraperWorkerRecord; `release_hashes_json` is the set that the column encodes
pub record WorkerRow : Type 0 where
  pub worker_id : String
  pub source : Portal
  pub deployment : Deployment
  pub heartbeat_at : ℕ
  pub release_hashes : List String
  pub healthy : Bool

-- PortalParserActivationRecord
pub record Activation : Type 0 where
  pub source : Portal
  pub release_hash : String
  pub activation_epoch : ℕ

-- The tables of the queue.
pub record Db : Type 0 where
  pub tasks : List Task
  pub attempts : List Attempt
  pub workers : List WorkerRow
  pub activations : List Activation
  pub captured : Captured

-- The coordinator's clock, if one is bound: its readings within one operation, in order.
abbrev pub Clock : Type 0
Clock = Option (ℕ → Datetime)

-- ScrapeQueueRepository, less its session factory
pub record Repository : Type 0 where
  pub policy : QueuePolicy
  pub clock : Clock

-- `_current`, as the i-th reading of the operation
unfoldable pub current : Repository → ℕ → ℕ → Result ℕ
current repo i supplied = elim repo.clock [
  | none ↦ ok supplied
  | some clock ↦ require_aware (clock i)
]

-- the rows with a primary key
abbrev pub task_key : ℕ → Task → Bool
task_key n t = t.id == n

abbrev pub attempt_key : ℕ → ℕ → Attempt → Bool
attempt_key task number a = (a.task_id == task) && (a.attempt_number == number)

abbrev pub worker_key : String → WorkerRow → Bool
worker_key name w = str_eq w.worker_id name

-- `(row.source, row.deployment) == (worker.source, worker.deployment)`
unfoldable pub same_identity : WorkerRow → WorkerIdentity → Bool
same_identity row worker =
    portal_eq row.source worker.source && deployment_eq row.deployment worker.deployment

unfoldable pub get_task : Db → ℕ → Option Task
get_task db n = find (task_key n) db.tasks

unfoldable pub get_worker : Db → String → Option WorkerRow
get_worker db name = find (worker_key name) db.workers

unfoldable pub get_activation : Db → Portal → Option Activation
get_activation db source = find (λ a. portal_eq a.source source) db.activations

unfoldable pub get_attempt : Db → ℕ → ℕ → Option Attempt
get_attempt db task number = find (attempt_key task number) db.attempts

-- a nullable column against a value: NULL satisfies no comparison
abbrev pub is_at_most : Option ℕ → ℕ → Bool
is_at_most none t = false
is_at_most (some x) t = leb x t

abbrev pub is_after : Option ℕ → ℕ → Bool
is_after none t = false
is_after (some x) t = ltb t x

abbrev pub is_number : Option ℕ → ℕ → Bool
is_number none t = false
is_number (some x) t = x == t

abbrev pub is_text : Option String → String → Bool
is_text none t = false
is_text (some x) t = str_eq x t

-- `value in {…}` on texts
abbrev pub contains : List String → String → Bool
contains [] s = false
contains (x ∷ xs) s = str_eq x s || contains xs s
