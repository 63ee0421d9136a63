-- ===== src/ScrapeQueue/Budget/Outcomes.antt =====
-- scrape_queue/budget.py: `record_outcome` and what it writes.
use homez.Prelude.{
  ℕ, ◌+◌, Bool, true, false, not, ◌&&◌, String, Option, none, some, max, get_or, is_some, Result,
  ok, err, value_error, lost_lease, ◌>>=◌, ◌>>◌, guard, find, insert, replace, leb, if◌then◌else◌,
  Datetime, require_aware, commit,
}
use homez.ScrapeQueue.Contracts.{Portal, WorkerIdentity, ScrapeLease}
use homez.ScrapeQueue.Records.{Task, Attempt, RouteColumn, direct, proxy, deferred, is_text}
use homez.ScrapeQueue.Lease.{clear_lease}
use homez.Scraper.DenialPolicy.{
  RouteClass, ResponseClassification, success, portal_denial, proxy_infrastructure_failure,
  portal_response, RouteDecision, decide_route_outcome, is_proxy,
}
use homez.ScrapeQueue.Budget.Signed.{plus, minus, fits}
use homez.ScrapeQueue.Budget.Records.{
  SourceState, NetworkPermit, BudgetDb, BudgetRepository, usable_bytes, policy_of, route_key,
  quarantine_key, put_state, put_ledger, put_work, locked_source_state, locked_proxy_ledger,
}
use homez.ScrapeQueue.Budget.Permits.{validate_lease}

-- `ResponseClassification.value`
abbrev pub classification_value : ResponseClassification → String
classification_value success = "success"
classification_value proxy_infrastructure_failure = "proxy-infrastructure-failure"
classification_value portal_denial = "portal-denial"
classification_value portal_response = "portal-response"
classification_value ResponseClassification.transport_failure = "transport-failure"

abbrev pub is_success : ResponseClassification → Bool
is_success success = true
is_success _ = false

-- the route of a granted permit
abbrev pub route_of : Option RouteColumn → Result RouteClass
route_of (some direct) = ok RouteClass.direct
route_of (some proxy) = ok RouteClass.proxy
route_of _ = err value_error

abbrev pub same_class : RouteColumn → RouteClass → Bool
same_class direct RouteClass.direct = true
same_class proxy RouteClass.proxy = true
same_class _ _ = false

-- `!=` of two nullable texts, negated
abbrev pub same_text : Option String → Option String → Bool
same_text none none = true
same_text (some a) b = is_text b a
same_text none (some b) = false

-- the attempt is the permit's, and its outcome is not recorded yet
unfoldable pub awaits : Attempt → RouteClass → NetworkPermit → Bool
awaits a route permit =
    same_class a.route_class route
    && same_text a.route_id permit.route_id
    && not (is_some a.classification)

-- `_reconcile_proxy_reservation`
unfoldable pub reconcile :
    BudgetRepository → Attempt → ℕ → ℕ → BudgetDb → Result (Attempt × BudgetDb)
reconcile repo a bytes now db = do
  (l, db1) ← locked_proxy_ledger repo now db
  let spent = plus (minus l.allocated_bytes a.proxy_reserved_bytes) bytes
  guard (fits spent usable_bytes) value_error
  ok (
    record a { proxy_reserved_bytes = 0 },
    put_ledger
        (record l { transferred_bytes = l.transferred_bytes + bytes; allocated_bytes = spent }) db1,
  )

-- one success more, of a reserved attempt
unfoldable pub add_success : SourceState → Result SourceState
add_success s =
    if leb s.attempt_count s.success_count
    then err value_error
    else ok (record s { success_count = s.success_count + 1 })

unfoldable pub count_success :
    ResponseClassification → RouteClass → SourceState → Result SourceState
count_success c route s =
    if is_success c
    then (do
      s' ← add_success s
      ok (if is_proxy route then s' else record s' { direct_denial_count = 0 }))
    else ok s

-- the cooldown is only ever extended
abbrev pub cool : RouteDecision → ℕ → SourceState → SourceState
cool d now s = elim d.source_cooldown_until [
  | none ↦ s
  | some until ↦ record s {
    cooldown_until = some (max (get_or s.cooldown_until now) until);
    direct_denial_count = d.consecutive_direct_denials;
  }
]

-- `route.healthy = False`, if the route is known
abbrev pub mark_route : RouteDecision → Option String → ℕ → BudgetDb → BudgetDb
mark_route d none now db = db
mark_route d (some id) now db =
    if d.mark_proxy_unhealthy
    then elim (find (route_key id) db.routes) [
      | none ↦ db
      | some r ↦ record db {
        routes = replace (route_key id) (record r { healthy = false; updated_at = now }) db.routes;
      }
    ]
    else db

-- the route is kept from the portal, for as long as the longest request
unfoldable pub quarantine : String → Portal → ℕ → BudgetDb → Result BudgetDb
quarantine id source until db = elim (find (quarantine_key id source) db.quarantines) [
  | none ↦ do
    rows ←
        insert (quarantine_key id source) (record { route_id = id; source = source; until = until })
          db.quarantines
    ok (record db { quarantines = rows })
  | some q ↦ ok (record db {
    quarantines =
        replace (quarantine_key id source) (record q { until = max q.until until }) db.quarantines;
  })
]

abbrev pub quarantine_route :
    RouteDecision → Option String → Portal → ℕ → BudgetDb → Result BudgetDb
quarantine_route d none source now db = ok db
quarantine_route d (some id) source now db =
    if d.quarantine_proxy_source
    then quarantine id source (get_or d.retry_direct_at (now + 900)) db
    else ok db

-- the task and the attempt after the outcome: with a direct retry, the lease ends
abbrev pub retried_task : RouteDecision → Task → Task
retried_task d t = elim d.retry_direct_at [
  | none ↦ t
  | some at ↦ clear_lease (record t {
    direct_fallback_pending = true;
    direct_fallback_available_at = some at;
    state = deferred;
    available_at = at;
  })
]

abbrev pub retried_attempt : RouteDecision → ℕ → Attempt → Attempt
retried_attempt d now a = elim d.retry_direct_at [
  | none ↦ a
  | some at ↦ record a {
    finished_at = some now;
    outcome = some "deferred";
    code = some "portal-denied";
  }
]

abbrev pub classified : ResponseClassification → ℕ → Attempt → Attempt
classified c bytes a = record a {
  classification = some (classification_value c);
  response_bytes = bytes;
}

abbrev pub reconcile_route :
    BudgetRepository → RouteClass → Attempt → ℕ → ℕ → BudgetDb → Result (Attempt × BudgetDb)
reconcile_route repo RouteClass.proxy a bytes now db = reconcile repo a bytes now db
reconcile_route repo RouteClass.direct a bytes now db = ok (a, db)

-- the part of `record_outcome` behind the decision
unfoldable pub apply_decision :
    BudgetRepository
    → Portal
    → RouteClass
    → NetworkPermit
    → ResponseClassification
    → RouteDecision
    → ℕ
    → ℕ
    → Task
    → Attempt
    → SourceState
    → BudgetDb
    → Result (RouteDecision × BudgetDb)
apply_decision repo source route permit c d bytes now t a s db = do
  (a1, db1) ← reconcile_route repo route (classified c bytes a) bytes now db
  s1 ← count_success c route s
  let db2 = put_state (cool d now s1) db1
  let db3 = mark_route d permit.route_id now db2
  db4 ← quarantine_route d permit.route_id source now db3
  ok (d, put_work (retried_task d t) (retried_attempt d now a1) db4)

unfoldable pub judge :
    BudgetRepository
    → WorkerIdentity
    → ScrapeLease
    → NetworkPermit
    → ResponseClassification
    → Datetime
    → ℕ
    → Option ℕ
    → BudgetDb
    → Result (RouteDecision × BudgetDb)
judge repo worker lease permit c supplied bytes retry_after db = do
  now ← require_aware supplied
  guard permit.granted value_error
  route ← route_of permit.route_class
  guard (leb bytes 2000000) value_error
  policy ← policy_of repo worker.source
  (t, a) ← validate_lease db.queue worker lease now
  guard (awaits a route permit) lost_lease
  (s, db1) ← locked_source_state worker.source policy now db
  d ← decide_route_outcome route c (Datetime.aware now) false s.direct_denial_count retry_after
  apply_decision repo worker.source route permit c d bytes now t a s db1

unfoldable pub record_outcome :
    BudgetRepository
    → WorkerIdentity
    → ScrapeLease
    → NetworkPermit
    → ResponseClassification
    → Datetime
    → ℕ
    → Option ℕ
    → BudgetDb
    → Result RouteDecision × BudgetDb
record_outcome repo worker lease permit c now bytes retry_after db =
    commit (judge repo worker lease permit c now bytes retry_after db) db
