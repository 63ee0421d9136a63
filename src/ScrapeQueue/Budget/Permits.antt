-- ===== src/ScrapeQueue/Budget/Permits.antt =====
-- scrape_queue/budget.py: `_validate_lease` and `reserve_start`.
use homez.Prelude.{
  ℕ, ◌+◌, Bool, true, false, not, ◌&&◌, ◌||◌, String, Option, none, some, max, get_or, is_some,
  Result, ok, err, value_error, lost_lease, ◌>>=◌, ◌>>◌, guard, find, where_rows, order_by, leb,
  ltb, ◌==◌, str_eq, if◌then◌else◌, Datetime, require_aware, commit,
}
use homez.ScrapeQueue.Contracts.{Portal, portal_eq, is_discovery, WorkerIdentity, ScrapeLease}
use homez.ScrapeQueue.Records.{
  Task, Attempt, Db, RouteColumn, unassigned, direct, proxy, is_running, get_task, get_activation,
  is_text, is_number, is_after,
}
use homez.ScrapeQueue.Lease.{is_active, known_worker}
use homez.ScrapeQueue.Budget.Calendar.{next_utc_day}
use homez.ScrapeQueue.Budget.Signed.{plus, fits}
use homez.ScrapeQueue.Budget.Records.{
  SourceState, ProxyLedger, ProxyRoute, SourceBudgetPolicy, NetworkPermit, BudgetDb,
  BudgetRepository, usable_bytes, policy_of, quarantine_key, put_state, put_ledger, put_work,
  locked_source_state, locked_proxy_ledger,
}

-- the WHERE clause of `_validate_lease`, behind the primary key
unfoldable pub holds_lease : WorkerIdentity → ScrapeLease → ℕ → Task → Bool
holds_lease worker lease now t =
    portal_eq t.source worker.source
    && (t.snapshot_id == lease.snapshot_id)
    && is_text t.lease_owner worker.worker_id
    && is_number t.lease_token lease.lease_token
    && is_running t.state
    && is_after t.lease_expires_at now

abbrev pub token_key : ℕ → Attempt → Bool
token_key token a = a.lease_token == token

-- the tests on a task and an attempt that were found
unfoldable pub is_valid : Db → WorkerIdentity → ScrapeLease → ℕ → Task → Bool
is_valid db worker lease now t =
    holds_lease worker lease now t
    && known_worker db worker
    && (is_discovery t.task_class || is_active (get_activation db worker.source) t)
    && str_eq t.release_hash lease.release_hash
    && (t.activation_epoch == lease.activation_epoch)

abbrev pub found_both : Option Task → Option Attempt → Result (Task × Attempt)
found_both none a = err lost_lease
found_both (some t) none = err lost_lease
found_both (some t) (some a) = ok (t, a)

-- `_validate_lease`
unfoldable pub validate_lease : Db → WorkerIdentity → ScrapeLease → ℕ → Result (Task × Attempt)
validate_lease db worker lease now = do
  (t, a) ← found_both (get_task db lease.task_id) (find (token_key lease.lease_token) db.attempts)
  guard (is_valid db worker lease now t) lost_lease
  ok (t, a)

abbrev pub is_unassigned : RouteColumn → Bool
is_unassigned unassigned = true
is_unassigned _ = false

-- the permit of an attempt that has its route already
abbrev pub held_permit : Attempt → NetworkPermit
held_permit a = record {
  granted = true;
  available_at = get_or a.network_started_at a.started_at;
  route_class = some a.route_class;
  route_id = a.route_id;
}

abbrev pub refusal : ℕ → NetworkPermit
refusal at = record { granted = false; available_at = at; route_class = none; route_id = none }

-- the time of a pending direct attempt
abbrev pub fallback_at : Task → ℕ → ℕ
fallback_at t now =
    if t.direct_fallback_pending then get_or t.direct_fallback_available_at now else now

-- `available_at`
unfoldable pub available_from : SourceState → Task → ℕ → ℕ
available_from s t now =
    max (max now (get_or s.next_start_at now))
      (max (get_or s.cooldown_until now) (fallback_at t now))

unfoldable pub is_refused : SourceBudgetPolicy → SourceState → Task → ℕ → Bool
is_refused policy s t now =
    ltb now (available_from s t now)
    || leb policy.daily_attempt_limit s.attempt_count
    || leb policy.daily_success_limit s.success_count

-- a route is free for the portal: no quarantine of the two, or one that is over
unfoldable pub is_free : BudgetDb → Portal → ℕ → ProxyRoute → Bool
is_free db source now r = elim (find (quarantine_key r.route_id source) db.quarantines) [
  | none ↦ true
  | some q ↦ leb q.until now
]

-- the first healthy route that is free
unfoldable pub free_route : BudgetRepository → BudgetDb → Portal → ℕ → Option ProxyRoute
free_route repo db source now = find (is_free db source now) (
    order_by (λ a b. repo.text_before a.route_id b.route_id)
      (where_rows (λ r. r.healthy) db.routes))

-- what a reservation of bytes came to: the route, if there is one, and its bytes
abbrev pub take_bytes :
    Option ProxyRoute → ProxyLedger → ℕ → BudgetDb → (Option String × ℕ) × BudgetDb
take_bytes none l bytes db = ((none, 0), db)
take_bytes (some r) l bytes db =
    if fits (plus l.allocated_bytes bytes) usable_bytes
    then (
      (some r.route_id, bytes),
      put_ledger (record l { allocated_bytes = plus l.allocated_bytes bytes }) db,
    )
    else ((none, 0), db)

-- `if requested_proxy_bytes and not task.direct_fallback_pending`
unfoldable pub choose_route :
    BudgetRepository → Portal → Task → ℕ → ℕ → BudgetDb → Result ((Option String × ℕ) × BudgetDb)
choose_route repo source t bytes now db =
    if leb 1 bytes && not t.direct_fallback_pending
    then (do
      (l, db1) ← locked_proxy_ledger repo now db
      ok (take_bytes (free_route repo db1 source now) l bytes db1))
    else ok ((none, 0), db)

abbrev pub route_class_of : Option String → RouteColumn
route_class_of route = if is_some route then proxy else direct

-- the columns of the attempt, the task and the source that a start writes
abbrev pub started_attempt : Option String × ℕ → ℕ → Attempt → Attempt
started_attempt (route, bytes) now a = record a {
  route_class = route_class_of route;
  route_id = route;
  proxy_reserved_bytes = bytes;
  network_attempt_count = 1;
  network_started_at = some now;
}

abbrev pub started_task : Task → Task
started_task t =
    if t.direct_fallback_pending
    then record t { direct_fallback_pending = false; direct_fallback_available_at = none }
    else t

abbrev pub started_state : SourceBudgetPolicy → ℕ → SourceState → SourceState
started_state policy now s = record s {
  attempt_count = s.attempt_count + 1;
  next_start_at = some (now + policy.minimum_interval);
}

abbrev pub new_permit : Option String → ℕ → NetworkPermit
new_permit route now = record {
  granted = true;
  available_at = now;
  route_class = some (route_class_of route);
  route_id = route;
}

-- `reserve_start` for an attempt without a route
unfoldable pub start :
    BudgetRepository
    → SourceBudgetPolicy
    → Portal
    → Task
    → Attempt
    → ℕ
    → ℕ
    → BudgetDb
    → Result (NetworkPermit × BudgetDb)
start repo policy source t a bytes now db = do
  (s, db1) ← locked_source_state source policy now db
  if is_refused policy s t now
      then ok (
        refusal
            (if ltb now (available_from s t now) then available_from s t now else next_utc_day now),
        db1,
      )
      else (do
        (route, db2) ← choose_route repo source t bytes now db1
        ok (
          new_permit route.0 now,
          put_work (started_task t) (started_attempt route now a)
              (put_state (started_state policy now s) db2),
        ))

unfoldable pub reserve :
    BudgetRepository
    → WorkerIdentity
    → ScrapeLease
    → Datetime
    → ℕ
    → BudgetDb
    → Result (NetworkPermit × BudgetDb)
reserve repo worker lease supplied bytes db = do
  now ← require_aware supplied
  guard (leb bytes 2000000) value_error
  policy ← policy_of repo worker.source
  (t, a) ← validate_lease db.queue worker lease now
  if is_unassigned a.route_class
      then start repo policy worker.source t a bytes now db
      else ok (held_permit a, db)

unfoldable pub reserve_start :
    BudgetRepository
    → WorkerIdentity
    → ScrapeLease
    → Datetime
    → ℕ
    → BudgetDb
    → Result NetworkPermit × BudgetDb
reserve_start repo worker lease now bytes db = commit (reserve repo worker lease now bytes db) db
