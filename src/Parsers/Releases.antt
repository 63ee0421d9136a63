-- ===== src/Parsers/Releases.antt =====
-- parser_releases/__init__.py: the rows of the releases and of their activation, and `register`.
-- The hash of a build (SHA-256) is an argument.
use homez.Prelude.{
  ℕ, Bool, true, false, ◌&&◌, ◌||◌, String, List, Option, none, some, Result, ok, err, value_error,
  ◌>>=◌, find, insert, leb, ◌==◌, str_eq, if◌then◌else◌, commit, Datetime, require_aware,
}
use homez.Prelude.Chars.{fullmatch, is_hex, after_prefix}
use homez.ScrapeQueue.Contracts.{Portal, portal_eq, portal_code}
use homez.ScrapeQueue.Records.{WorkerRow, Activation}

-- ReleaseBuild
pub record Build : Type 0 where
  pub source : Portal
  pub parser_version : String
  pub git_commit : String
  pub parser_content_hash : String
  pub configuration_hash : String
  pub dependency_lock_hash : String
  pub deployable_digest : String
  pub qualifying_benchmark_run : String

-- `[a-zA-Z0-9_.:-]`
abbrev pub is_safe : ℕ → Bool
is_safe c =
    (leb b'a' c && leb c b'z')
    || (leb b'A' c && leb c b'Z')
    || (leb b'0' c && leb c b'9')
    || (c == b'_')
    || (c == b'.')
    || (c == b':')
    || (c == b'-')

-- `sha256:[0-9a-f]{64}`
abbrev pub is_digest : Option String → Bool
is_digest none = false
is_digest (some rest) = fullmatch is_hex 64 64 rest

-- `ReleaseBuild(…)`; the sources that it refuses are no values of the type
unfoldable pub make_build : Build → Result Build
make_build b =
    if fullmatch is_safe 1 100 b.parser_version
      && (fullmatch is_hex 40 40 b.git_commit || fullmatch is_hex 64 64 b.git_commit)
      && fullmatch is_hex 64 64 b.parser_content_hash
      && fullmatch is_hex 64 64 b.configuration_hash
      && fullmatch is_hex 64 64 b.dependency_lock_hash
      && is_digest (after_prefix "sha256:" b.deployable_digest)
      && fullmatch is_safe 1 100 b.qualifying_benchmark_run
    then ok b
    else err value_error

pub data ReleaseStatus : Type 0 where
  draft active retired revoked : ReleaseStatus

abbrev pub is_revoked : ReleaseStatus → Bool
is_revoked revoked = true
is_revoked _ = false

-- ParserReleaseRecord
pub record Release : Type 0 where
  pub release_hash : String
  pub source : Portal
  pub created_at : ℕ
  pub parser_version : Option String
  pub git_commit : Option String
  pub parser_content_hash : Option String
  pub configuration_hash : Option String
  pub dependency_lock_hash : Option String
  pub deployable_digest : Option String
  pub qualifying_benchmark_run : Option String
  pub status : ReleaseStatus

pub data Action : Type 0 where
  activate_action rollback_action : Action

abbrev pub is_activate : Action → Bool
is_activate activate_action = true
is_activate rollback_action = false

-- ParserActivationAuditRecord
pub record Audit : Type 0 where
  pub source : Portal
  pub activation_epoch : ℕ
  pub previous_release_hash : Option String
  pub release_hash : String
  pub action : Action
  pub actor : String
  pub compared_metrics : String
  pub occurred_at : ℕ

-- The tables; the audits stand the last first. `sources` are the configured portals.
pub record ReleaseDb : Type 0 where
  pub sources : List Portal
  pub releases : List Release
  pub pointers : List Activation
  pub audits : List Audit
  pub workers : List WorkerRow

abbrev pub has_hash : String → Release → Bool
has_hash hash r = str_eq r.release_hash hash

unfoldable pub get_release : ReleaseDb → String → Option Release
get_release db hash = find (has_hash hash) db.releases

abbrev pub is_pointer_of : Portal → Activation → Bool
is_pointer_of source p = portal_code p.source == portal_code source

unfoldable pub get_pointer : ReleaseDb → Portal → Option Activation
get_pointer db source = find (is_pointer_of source) db.pointers

-- `persisted != values`, negated: every column is the value of the build
abbrev pub is_value : Option String → String → Bool
is_value none s = false
is_value (some t) s = str_eq t s

abbrev pub same_build : Release → Build → Bool
same_build r b =
    portal_eq r.source b.source
    && is_value r.parser_version b.parser_version
    && is_value r.git_commit b.git_commit
    && is_value r.parser_content_hash b.parser_content_hash
    && is_value r.configuration_hash b.configuration_hash
    && is_value r.dependency_lock_hash b.dependency_lock_hash
    && is_value r.deployable_digest b.deployable_digest
    && is_value r.qualifying_benchmark_run b.qualifying_benchmark_run

abbrev pub new_release : String → Build → ℕ → Release
new_release hash b now = record {
  release_hash = hash;
  source = b.source;
  created_at = now;
  parser_version = some b.parser_version;
  git_commit = some b.git_commit;
  parser_content_hash = some b.parser_content_hash;
  configuration_hash = some b.configuration_hash;
  dependency_lock_hash = some b.dependency_lock_hash;
  deployable_digest = some b.deployable_digest;
  qualifying_benchmark_run = some b.qualifying_benchmark_run;
  status = draft;
}

-- what RegisteredRelease says, less the source
unfoldable pub add_release :
    String → Build → Datetime → ReleaseDb → Result ((String × ReleaseStatus) × ReleaseDb)
add_release hash b supplied db = do
  now ← require_aware supplied
  elim (get_release db hash) [
    | some r ↦ if same_build r b then ok ((hash, r.status), db) else err value_error
    | none ↦ do
      rows ← insert (has_hash hash) (new_release hash b now) db.releases
      ok ((hash, draft), record db { releases = rows })
  ]

-- `register`, with the hash of the build
unfoldable pub register_release :
    String → Build → Datetime → ReleaseDb → Result (String × ReleaseStatus) × ReleaseDb
register_release hash b now db = commit (add_release hash b now db) db
