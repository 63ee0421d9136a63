-- ===== src/ScrapeQueue/Canary.antt =====
-- scrape_queue/repository.py: `release_discovery_canary`. Its checks and the choice of snapshots read
-- in one session; each insertion is a transaction of its own, and so is the row of the audit. The
-- ids that `uuid4` draws for the tasks are a function of the position.
pub mod Released
mod Tests
use homez.Prelude.{
  ℕ, zero, suc, max, Bool, true, false, not, ◌&&◌, ◌||◌, String, List, [], ◌∷◌, Option, none, some,
  is_some, Result, ok, err, value_error, ◌>>=◌, ◌>>◌, guard, find, order_by, length, leb, ltb, ◌==◌,
  str_eq, if◌then◌else◌, Datetime, require_aware,
}
use homez.Prelude.Chars.{count_chars}
use homez.ScrapeQueue.Contracts.{Portal, discovery_capture}
use homez.ScrapeQueue.Records.{Db, get_activation}
use homez.ScrapeQueue.Insertion.{
  Source, Lifecycle, inactive_listing, Listing, Snapshot, Catalog, Texts, portal_value,
  find_release, discovery_release, enqueue_task,
}

-- the arguments of the call
pub record CanaryRequest : Type 0 where
  pub source : Portal
  pub release_hash : String
  pub limit : ℕ
  pub execute : Bool
  pub actor : Option String

-- DiscoveryCanaryPlan
pub record CanaryPlan : Type 0 where
  pub source : Portal
  pub selected_count : ℕ
  pub enqueued_count : ℕ
  pub execute : Bool

-- DiscoveryCanaryAuditRecord
pub record CanaryAudit : Type 0 where
  pub source : Portal
  pub release_hash : String
  pub actor : String
  pub selected_count : ℕ
  pub enqueued_count : ℕ
  pub created_at : ℕ

abbrev pub is_actor : Option String → Bool
is_actor none = false
is_actor (some actor) = leb 1 (count_chars actor) && leb (count_chars actor) 200

abbrev pub is_inactive : Lifecycle → Bool
is_inactive inactive_listing = true
is_inactive _ = false

-- `max(observed_at)` of the snapshots of a listing
abbrev pub newest_of : ℕ → List Snapshot → ℕ
newest_of listing [] = 0
newest_of listing (s ∷ ss) =
    let rest = newest_of listing ss in
    if s.listing_id == listing then max s.observed_at rest else rest

-- a row of the SELECT
pub record CanaryRow : Type 0 where
  pub snapshot_id : ℕ
  pub observed_at : ℕ
  pub canonical_url : String

abbrev pub has_source_key : String → Option Source → Bool
has_source_key key none = false
has_source_key key (some s) = str_eq s.key key

abbrev pub join_listing :
    Catalog → Portal → Snapshot → Option Listing → List CanaryRow → List CanaryRow
join_listing catalog source s none rest = rest
join_listing catalog source s (some l) rest =
    if has_source_key (portal_value source)
        (find (λ (o : Source). o.id == l.source_id) catalog.sources)
      && not (is_inactive l.lifecycle)
      && (s.observed_at == newest_of s.listing_id catalog.snapshots)
    then record { snapshot_id = s.id; observed_at = s.observed_at; canonical_url = l.canonical_url }
      ∷ rest
    else rest

abbrev pub canary_rows : Catalog → Portal → List Snapshot → List CanaryRow
canary_rows catalog source [] = []
canary_rows catalog source (s ∷ ss) =
    join_listing catalog source s (find (λ (l : Listing). l.id == s.listing_id) catalog.listings)
      (canary_rows catalog source ss)

-- `observed_at.desc(), id`
abbrev pub observed_later : CanaryRow → CanaryRow → Bool
observed_later a b =
    ltb b.observed_at a.observed_at
    || ((a.observed_at == b.observed_at) && ltb a.snapshot_id b.snapshot_id)

-- the loop: the first `limit` rows whose URL is valid
abbrev pub first_valid : Texts → Portal → ℕ → List CanaryRow → List ℕ
first_valid x source zero rows = []
first_valid x source (suc n) [] = []
first_valid x source (suc n) (r ∷ rs) =
    let fewer = first_valid x source n rs in
    let same = first_valid x source (suc n) rs in
    if is_some (x.validate source r.canonical_url) then r.snapshot_id ∷ fewer else same

-- the checks and the choice
unfoldable pub select_canary : Catalog → Texts → CanaryRequest → Datetime → Db → Result (List ℕ)
select_canary catalog x r supplied db = do
  now ← require_aware supplied
  guard (leb 1 r.limit && leb r.limit 25) value_error
  guard (not r.execute || is_actor r.actor) value_error
  guard (not (is_some (get_activation db r.source))) value_error
  selected ← discovery_release r.source (find_release catalog (some r.release_hash))
  ok (
      first_valid x r.source r.limit
        (order_by observed_later (canary_rows catalog r.source catalog.snapshots)))

-- the insertions, one transaction each; an error ends the loop and leaves those before it
abbrev pub enqueue_all :
    Catalog → Texts → CanaryRequest → (ℕ → ℕ) → Datetime → ℕ → List ℕ → Db → Result ℕ × Db
enqueue_all catalog x r drawn now count [] db = (ok count, db)
enqueue_all catalog x r drawn now count (s ∷ ss) db =
    let out =
      enqueue_task catalog x
        (record {
          source = r.source;
          snapshot_id = s;
          task_class = discovery_capture;
          release_hash = some r.release_hash;
        })
        (drawn count) now db in
    let rest = enqueue_all catalog x r drawn now (suc count) ss out.1 in
    elim out.0 [ err e ↦ (err e, out.1) | ok id ↦ rest ]

abbrev pub actor_name : Option String → String
actor_name none = ""
actor_name (some actor) = actor

abbrev pub canary_audit : CanaryRequest → ℕ → ℕ → ℕ → CanaryAudit
canary_audit r selected enqueued now = record {
  source = r.source;
  release_hash = r.release_hash;
  actor = actor_name r.actor;
  selected_count = selected;
  enqueued_count = enqueued;
  created_at = now;
}

abbrev pub plan_of : CanaryRequest → ℕ → ℕ → CanaryPlan
plan_of r selected enqueued = record {
  source = r.source;
  selected_count = selected;
  enqueued_count = enqueued;
  execute = r.execute;
}

-- the end of an executed canary: the row of the audit
abbrev pub audit_canary :
    CanaryRequest
    → Datetime
    → ℕ
    → Result ℕ × Db
    → List CanaryAudit
    → Result CanaryPlan × Db × List CanaryAudit
audit_canary r supplied selected (err e, db) audits = (err e, db, audits)
audit_canary r (Datetime.naive now) selected (ok n, db) audits = (err value_error, db, audits)
audit_canary r (Datetime.aware now) selected (ok n, db) audits =
    (ok (plan_of r selected n), db, canary_audit r selected n now ∷ audits)

abbrev pub execute_canary :
    Catalog
    → Texts
    → CanaryRequest
    → (ℕ → ℕ)
    → Datetime
    → Result (List ℕ)
    → Db
    → List CanaryAudit
    → Result CanaryPlan × Db × List CanaryAudit
execute_canary catalog x r drawn now (err e) db audits = (err e, db, audits)
execute_canary catalog x r drawn now (ok chosen) db audits =
    if r.execute
    then audit_canary r now (length chosen) (enqueue_all catalog x r drawn now 0 chosen db) audits
    else (ok (plan_of r (length chosen) 0), db, audits)

unfoldable pub release_discovery_canary :
    Catalog
    → Texts
    → CanaryRequest
    → (ℕ → ℕ)
    → Datetime
    → Db
    → List CanaryAudit
    → Result CanaryPlan × Db × List CanaryAudit
release_discovery_canary catalog x r drawn now db audits =
    execute_canary catalog x r drawn now (select_canary catalog x r now db) db audits
