-- ===== src/ScrapeQueue/Insertion.antt =====
-- scrape_queue/repository.py: `enqueue`, one transaction.
-- The catalog, which the queue only reads, is an argument; so are `validate_listing_url`, which
-- gives nothing where it raises, the text of a UUID, SHA-256, and the id that `uuid4` draws.
mod Tests
use Prim.Native.String.{◌++◌ as str_append}
use homez.Prelude.{
  ℕ, Bool, false, not, ◌&&◌, ◌||◌, String, List, Option, none, some, Result, ok, err, value_error,
  integrity_error, ◌>>=◌, ◌>>◌, find, insert, ◌==◌, str_eq, if◌then◌else◌, Datetime, require_aware,
  commit,
}
use homez.Prelude.Decimal.{show}
use homez.ScrapeQueue.Contracts.{
  Portal, gratka, morizon, otodom, olx, portal_eq, TaskClass, live, artifact_recovery,
  network_recovery, discovery_capture, is_discovery,
}
use homez.ScrapeQueue.Records.{TaskState, pending, held, Task, Activation, Db, get_activation}
use homez.Parsers.Releases.{Release, is_revoked}

-- SourceRecord, ListingRecord and ListingSnapshotRecord, as far as the queue reads them
pub record Source : Type 0 where
  pub id : ℕ
  pub key : String

-- the words of `lifecycle_state`
pub data Lifecycle : Type 0 where
  active_listing stale_listing inactive_listing : Lifecycle

pub record Listing : Type 0 where
  pub id : ℕ
  pub source_id : ℕ
  pub source_listing_id : String
  pub canonical_url : String
  pub lifecycle : Lifecycle

pub record Snapshot : Type 0 where
  pub id : ℕ
  pub listing_id : ℕ
  pub observed_at : ℕ

pub record Catalog : Type 0 where
  pub releases : List Release
  pub snapshots : List Snapshot
  pub listings : List Listing
  pub sources : List Source

pub record Texts : Type 0 where
  pub validate : Portal → String → Option (String × String)
  pub id_text : ℕ → String
  pub digest : String → String

pub record Request : Type 0 where
  pub source : Portal
  pub snapshot_id : ℕ
  pub task_class : TaskClass
  pub release_hash : Option String

-- the words of `Portal` and `TaskClass`
abbrev pub portal_value : Portal → String
portal_value gratka = "gratka"
portal_value morizon = "morizon"
portal_value otodom = "otodom"
portal_value olx = "olx"

abbrev pub class_value : TaskClass → String
class_value live = "live"
class_value artifact_recovery = "artifact_recovery"
class_value network_recovery = "network_recovery"
class_value discovery_capture = "discovery_capture"

-- PRIORITIES
abbrev pub priority_of : TaskClass → ℕ
priority_of live = 0
priority_of artifact_recovery = 10
priority_of network_recovery = 20
priority_of discovery_capture = 30

abbrev pub first_state : TaskClass → TaskState
first_state network_recovery = held
first_state _ = pending

-- the release and the epoch that a task is bound to
pub record Selected : Type 0 where
  pub release_hash : String
  pub epoch : ℕ

-- `session.get(ParserReleaseRecord, release_hash)`
abbrev pub find_release : Catalog → Option String → Option Release
find_release catalog none = none
find_release catalog (some hash) =
    find (λ (r : Release). str_eq r.release_hash hash) catalog.releases

abbrev pub discovery_release : Portal → Option Release → Result Selected
discovery_release source none = err value_error
discovery_release source (some r) =
    if portal_eq r.source source && not (is_revoked r.status)
    then ok (record { release_hash = r.release_hash; epoch = 1 })
    else err value_error

-- `_active`, behind the test that no release was named
abbrev pub active_release : Option String → Option Activation → Result Selected
active_release (some hash) active = err value_error
active_release none none = err value_error
active_release none (some a) =
    ok (record { release_hash = a.release_hash; epoch = a.activation_epoch })

unfoldable pub select_release : Catalog → Request → Db → Result Selected
select_release catalog r db =
    if is_discovery r.task_class
    then discovery_release r.source (find_release catalog r.release_hash)
    else active_release r.release_hash (get_activation db r.source)

-- the listing of the snapshot, if it is one of the portal
abbrev pub own_listing : Portal → Option Source → Listing → Result Listing
own_listing source none listing = err value_error
own_listing source (some origin) listing =
    if str_eq origin.key (portal_value source) then ok listing else err value_error

abbrev pub listing_of : Catalog → Portal → Option Listing → Result Listing
listing_of catalog source none = err value_error
listing_of catalog source (some listing) =
    own_listing source (find (λ (s : Source). s.id == listing.source_id) catalog.sources) listing

abbrev pub snapshot_listing : Catalog → Option Snapshot → Option Listing
snapshot_listing catalog none = none
snapshot_listing catalog (some s) = find (λ (l : Listing). l.id == s.listing_id) catalog.listings

unfoldable pub find_listing : Catalog → Request → Result Listing
find_listing catalog r =
    listing_of catalog r.source
      (snapshot_listing catalog (find (λ (s : Snapshot). s.id == r.snapshot_id) catalog.snapshots))

-- the canonical URL, whose listing has to be the recorded one unless this is a discovery
abbrev pub check_identity : Request → Listing → Option (String × String) → Result String
check_identity r listing none = err value_error
check_identity r listing (some (canonical, identity)) =
    if is_discovery r.task_class || str_eq identity listing.source_listing_id
    then ok canonical
    else err value_error

-- `f"{source}:{snapshot_id}:{canonical}:{task_class.value}"`
abbrev pub common_key : Texts → Request → String → String
common_key x r canonical = str_append (portal_value r.source) (
    str_append ":" (
      str_append (x.id_text r.snapshot_id)
        (str_append ":" (str_append canonical (str_append ":" (class_value r.task_class))))))

-- `f":{selected_release}:{selected_epoch}"`
abbrev pub release_key : Selected → String
release_key s = str_append ":" (str_append s.release_hash (str_append ":" (show s.epoch)))

unfoldable pub identity_key : Texts → Request → String → Selected → String
identity_key x r canonical s = x.digest (elim r.task_class [
  | live ↦ common_key x r canonical
  | _ ↦ str_append (common_key x r canonical) (release_key s)
])

abbrev pub has_request_key : String → Task → Bool
has_request_key key t = str_eq t.idempotency_key key

abbrev pub new_task : Request → String → Selected → String → ℕ → ℕ → Task
new_task r canonical s key id now = record {
  id = id;
  source = r.source;
  snapshot_id = r.snapshot_id;
  canonical_url = canonical;
  task_class = r.task_class;
  release_hash = s.release_hash;
  activation_epoch = s.epoch;
  idempotency_key = key;
  state = first_state r.task_class;
  priority = priority_of r.task_class;
  available_at = now;
  created_at = now;
  attempt_count = 0;
  lease_owner = none;
  lease_token = none;
  lease_expires_at = none;
  lease_started_at = none;
  finished_at = none;
  direct_fallback_pending = false;
  direct_fallback_available_at = none;
}

-- the primary key and the UNIQUE idempotency key
abbrev pub collides : Task → Task → Bool
collides new t = (t.id == new.id) || has_request_key new.idempotency_key t

-- the INSERT; after a collision the task with the key is the winner, if there is one
abbrev pub add_task : Task → Db → Result (List Task) → Result (ℕ × Db)
add_task new db (ok tasks) = ok (new.id, record db { tasks = tasks })
add_task new db (err e) = elim (find (has_request_key new.idempotency_key) db.tasks) [
  | none ↦ err integrity_error
  | some winner ↦ ok (winner.id, db)
]

unfoldable pub store_task : Task → Db → Option Task → Result (ℕ × Db)
store_task new db (some existing) = ok (existing.id, db)
store_task new db none = add_task new db (insert (collides new) new db.tasks)

-- the body of `enqueue`
unfoldable pub insert_task : Catalog → Texts → Request → ℕ → Datetime → Db → Result (ℕ × Db)
insert_task catalog x r id supplied db = do
  now ← require_aware supplied
  selected ← select_release catalog r db
  listing ← find_listing catalog r
  canonical ← check_identity r listing (x.validate r.source listing.canonical_url)
  let key = identity_key x r canonical selected
  store_task (new_task r canonical selected key id now) db (find (has_request_key key) db.tasks)

unfoldable pub enqueue_task : Catalog → Texts → Request → ℕ → Datetime → Db → Result ℕ × Db
enqueue_task catalog x r id now db = commit (insert_task catalog x r id now db) db
