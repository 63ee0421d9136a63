-- ===== src/Parsers/Activation.antt =====
-- parser_releases/__init__.py: `activate`, `rollback` and `_change`, which moves the pointer of a portal.
-- The test of the benchmark evidence, which the constructor takes, is an argument. An activation
-- ends with the transaction of `_change`; the recovery that it then plans is another component's.
-- ActivationRejected is a RuntimeError.
pub mod Replay
pub mod Status
pub mod Changed
pub mod Runs
pub mod Again
mod Tests
use homez.Prelude.{
  ℕ, ◌+◌, Bool, true, false, not, is_some, ◌&&◌, ◌||◌, String, List, [], ◌∷◌, Option, none, some,
  Result, ok, err, value_error, runtime_error, integrity_error, ◌>>=◌, ◌>>◌, guard, find, replace,
  leb, ltb, ◌==◌, str_eq, if◌then◌else◌, commit, Datetime, require_aware,
}
use homez.Prelude.Chars.{count_chars}
use homez.ScrapeQueue.Contracts.{Portal, portal_eq, Deployment, nas, vps, deployment_eq}
use homez.ScrapeQueue.Records.{WorkerRow, Activation, contains}
use homez.Parsers.Releases.{
  ReleaseStatus, is_revoked, Release, Action, Audit, ReleaseDb, has_hash, get_release,
  is_pointer_of, get_pointer, active, retired, revoked, activate_action, rollback_action,
}

-- `_audit_text`
abbrev pub audit_text : String → String → Bool
audit_text actor detail =
    leb 1 (count_chars actor)
    && leb (count_chars actor) 200
    && leb 1 (count_chars detail)
    && leb (count_chars detail) 1000

abbrev pub has_portal : Portal → List Portal → Bool
has_portal source [] = false
has_portal source (p ∷ ps) = portal_eq p source || has_portal source ps

abbrev pub current_hash : Option Activation → Option String
current_hash none = none
current_hash (some p) = some p.release_hash

abbrev pub current_epoch : Option Activation → ℕ
current_epoch none = 0
current_epoch (some p) = p.activation_epoch

abbrev pub is_expected : Option ℕ → ℕ → Bool
is_expected none epoch = true
is_expected (some e) epoch = e == epoch

-- `heartbeat_at > now - worker_health`, of a healthy worker of the portal and the deployment
unfoldable pub is_live : Portal → Deployment → ℕ → ℕ → WorkerRow → Bool
is_live source deployment health now w =
    portal_eq w.source source
    && w.healthy
    && deployment_eq w.deployment deployment
    && ltb now (w.heartbeat_at + health)

-- a live worker of the deployment advertises the release
unfoldable pub is_advertised : Portal → Deployment → ℕ → ℕ → String → List WorkerRow → Bool
is_advertised source deployment health now hash [] = false
is_advertised source deployment health now hash (w ∷ ws) =
    (is_live source deployment health now w && contains w.release_hashes hash)
    || is_advertised source deployment health now hash ws

abbrev pub all_advertised : Portal → Deployment → ℕ → ℕ → List String → List WorkerRow → Bool
all_advertised source deployment health now [] ws = true
all_advertised source deployment health now (h ∷ hs) ws =
    is_advertised source deployment health now h ws
    && all_advertised source deployment health now hs ws

-- `required`
abbrev pub required_hashes : String → Option String → List String
required_hashes hash none = hash ∷ []
required_hashes hash (some current) = hash ∷ current ∷ []

abbrev pub owned_release : Option Release → Portal → Result Release
owned_release none source = err runtime_error
owned_release (some r) source = if portal_eq r.source source then ok r else err runtime_error

-- the benchmark evidence that an activation asks for, and a rollback does not
abbrev pub has_evidence : (Portal → String → String → ℕ → Bool) → Action → Release → ℕ → Bool
has_evidence eligible rollback_action r now = true
has_evidence eligible activate_action r now = elim r.qualifying_benchmark_run [
  | none ↦ false
  | some run ↦ eligible r.source r.release_hash run now
]

-- the pointer after the change
abbrev pub move_pointer : Option Activation → Activation → List Activation → List Activation
move_pointer none new pointers = new ∷ pointers
move_pointer (some p) new pointers = replace (is_pointer_of new.source) new pointers

abbrev pub withdrawn_status : Action → ReleaseStatus
withdrawn_status activate_action = retired
withdrawn_status rollback_action = revoked

abbrev pub set_status : ReleaseStatus → Option Release → ReleaseDb → ReleaseDb
set_status status none db = db
set_status status (some r) db = record db {
  releases = replace (has_hash r.release_hash) (record r { status = status }) db.releases;
}

-- the release that the pointer leaves, if it is another one
abbrev pub withdraw : Action → String → Option String → ReleaseDb → ReleaseDb
withdraw action hash none db = db
withdraw action hash (some current) db =
    if str_eq current hash
    then db
    else set_status (withdrawn_status action) (get_release db current) db

abbrev pub audit_key : Portal → ℕ → Audit → Bool
audit_key source epoch a = portal_eq a.source source && (a.activation_epoch == epoch)

-- what the transaction writes, after its checks
unfoldable pub moved :
    Portal → String → String → String → ℕ → Action → Option Activation → ReleaseDb → ReleaseDb
moved source hash actor detail now action pointer db =
    let epoch = current_epoch pointer + 1 in
    let left = withdraw action hash (current_hash pointer) db in
    record (set_status active (get_release left hash) left) {
      pointers =
          move_pointer pointer
            (record { source = source; release_hash = hash; activation_epoch = epoch }) db.pointers;
      audits =
          (record {
            source = source;
            activation_epoch = epoch;
            previous_release_hash = current_hash pointer;
            release_hash = hash;
            action = action;
            actor = actor;
            compared_metrics = detail;
            occurred_at = now;
          })
          ∷ db.audits;
    }

-- `_change` inside its transaction; `health` is the worker health in seconds, and a pair of a
-- portal and an epoch is UNIQUE among the audits
unfoldable pub change_pointer :
    (Portal → String → String → ℕ → Bool)
    → ℕ
    → Portal
    → String
    → String
    → String
    → Datetime
    → Action
    → Option ℕ
    → ReleaseDb
    → Result (ℕ × ReleaseDb)
change_pointer eligible health source hash actor detail supplied action expected db = do
  now ← require_aware supplied
  guard (audit_text actor detail) value_error
  guard (has_portal source db.sources) runtime_error
  let pointer = get_pointer db source
  guard (is_expected expected (current_epoch pointer)) runtime_error
  candidate ← owned_release (get_release db hash) source
  guard (not (is_revoked candidate.status)) runtime_error
  guard
      (all_advertised source nas health now (required_hashes hash (current_hash pointer)) db.workers
        && all_advertised source vps health now (required_hashes hash (current_hash pointer))
            db.workers)
      runtime_error
  guard (has_evidence eligible action candidate now) runtime_error
  guard (not (is_some (find (audit_key source (current_epoch pointer + 1)) db.audits)))
      integrity_error
  ok (current_epoch pointer + 1, moved source hash actor detail now action pointer db)

-- `activate`
unfoldable pub activate_release :
    (Portal → String → String → ℕ → Bool)
    → ℕ
    → Portal
    → String
    → String
    → String
    → Datetime
    → Option ℕ
    → ReleaseDb
    → Result ℕ × ReleaseDb
activate_release eligible health source hash actor detail now expected db =
    commit (change_pointer eligible health source hash actor detail now activate_action expected db)
      db

-- the newest audit of the portal that put the release in the place of another
abbrev pub replaces : Portal → String → Audit → Bool
replaces source hash a =
    portal_eq a.source source && str_eq a.release_hash hash && is_some a.previous_release_hash

abbrev pub previous_of : Option Audit → Option String
previous_of none = none
previous_of (some a) = a.previous_release_hash

-- the target of `rollback`; the audits stand the last first
unfoldable pub rollback_target : ReleaseDb → Portal → Option String
rollback_target db source = elim (get_pointer db source) [
  | none ↦ none
  | some p ↦ previous_of (find (replaces source p.release_hash) db.audits)
]

unfoldable pub roll_back :
    (Portal → String → String → ℕ → Bool)
    → ℕ
    → Portal
    → String
    → String
    → Datetime
    → ℕ
    → ReleaseDb
    → Result (ℕ × ReleaseDb)
roll_back eligible health source actor reason now expected db = do
  guard (audit_text actor reason) value_error
  elim (rollback_target db source) [
    | none ↦ err runtime_error
    | some target ↦
        change_pointer eligible health source target actor reason now rollback_action
          (some expected) db
  ]

-- `rollback`
unfoldable pub rollback_release :
    (Portal → String → String → ℕ → Bool)
    → ℕ
    → Portal
    → String
    → String
    → Datetime
    → ℕ
    → ReleaseDb
    → Result ℕ × ReleaseDb
rollback_release eligible health source actor reason now expected db =
    commit (roll_back eligible health source actor reason now expected db) db
