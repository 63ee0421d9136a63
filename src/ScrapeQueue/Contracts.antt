-- ===== src/ScrapeQueue/Contracts.antt =====
-- scrape_queue/contracts.py: who works on a task, under which policy, and what a lease says.
-- UUIDs are numbers, and texts are native strings; both are only compared for equality here.

use homez.Prelude.{
  ℕ, ◌*◌, ◌≤◌, ◌<◌, ◌≡◌, Bool, true, false, ◌&&◌, String, Result, ok, err, value_error, leb, ltb,
  ◌==◌, if◌then◌else◌, arith,
}
use homez.Prelude.Chars.{fullmatch, is_word_or_dash}

-- `Portal` of parsers/contracts.py
pub data Portal : Type 0 where
  gratka morizon otodom olx : Portal

abbrev pub portal_code : Portal → ℕ
portal_code gratka = 0
portal_code morizon = 1
portal_code otodom = 2
portal_code olx = 3

-- `==` on portals
abbrev pub portal_eq : Portal → Portal → Bool
portal_eq a b = portal_code a == portal_code b

pub data TaskClass : Type 0 where
  live artifact_recovery network_recovery discovery_capture : TaskClass

abbrev pub class_code : TaskClass → ℕ
class_code live = 0
class_code artifact_recovery = 1
class_code network_recovery = 2
class_code discovery_capture = 3

abbrev pub class_eq : TaskClass → TaskClass → Bool
class_eq a b = class_code a == class_code b

abbrev pub is_discovery : TaskClass → Bool
is_discovery c = class_eq c discovery_capture

-- `deployment` is one of two words
pub data Deployment : Type 0 where
  nas vps : Deployment

abbrev pub deployment_eq : Deployment → Deployment → Bool
deployment_eq nas nas = true
deployment_eq vps vps = true
deployment_eq _ _ = false

pub record WorkerIdentity : Type 0 where
  pub worker_id : String
  pub source : Portal
  pub deployment : Deployment

-- `WorkerIdentity(…)`; the sources and the deployments it refuses are no values of the types
unfoldable pub make_worker : WorkerIdentity → Result WorkerIdentity
make_worker w = if fullmatch is_word_or_dash 1 80 w.worker_id then ok w else err value_error

pub record QueuePolicy : Type 0 where
  pub lease_seconds : ℕ
  pub heartbeat_seconds : ℕ
  pub max_lease_seconds : ℕ
  pub worker_health_seconds : ℕ
  pub max_attempts : ℕ
  pub metadata_retention_days : ℕ

-- The test of `QueuePolicy.__post_init__`.
unfoldable pub policy_accepted : QueuePolicy → Bool
policy_accepted p =
    (leb 1 p.heartbeat_seconds
      && ltb p.heartbeat_seconds p.lease_seconds
      && leb p.lease_seconds 300)
    && (leb p.lease_seconds p.max_lease_seconds && leb p.max_lease_seconds 3600)
    && (leb (p.heartbeat_seconds * 2) p.worker_health_seconds && leb p.worker_health_seconds 600)
    && (leb 1 p.max_attempts && leb p.max_attempts 32)
    && (leb 1 p.metadata_retention_days && leb p.metadata_retention_days 365)

-- `QueuePolicy(…)`: the fields as given, or `ValueError`.
unfoldable pub make_policy : QueuePolicy → Result QueuePolicy
unfolding policy_accepted
make_policy p = if policy_accepted p then ok p else err value_error

-- the defaults of the class
abbrev pub default_policy : QueuePolicy
default_policy = record {
  lease_seconds = 60;
  heartbeat_seconds = 20;
  max_lease_seconds = 600;
  worker_health_seconds = 90;
  max_attempts = 8;
  metadata_retention_days = 30;
}

pub record ScrapeLease : Type 0 where
  pub task_id : ℕ
  pub source : Portal
  pub snapshot_id : ℕ
  pub canonical_url : String
  pub task_class : TaskClass
  pub release_hash : String
  pub activation_epoch : ℕ
  pub lease_token : ℕ
  pub lease_expires_at : ℕ
  pub attempt_number : ℕ

-- What an accepted policy promises: a lease outlives a heartbeat, two heartbeats fit in the health
-- window, and every bound is finite.
pub record PolicyOk (p : QueuePolicy) : Type 0 where
  pub beats : 1 ≤ p.heartbeat_seconds
  pub outlives : p.heartbeat_seconds < p.lease_seconds
  pub renewable : p.lease_seconds ≤ p.max_lease_seconds
  pub bounded : p.max_lease_seconds ≤ 3600
  pub healthy : 2 * p.heartbeat_seconds ≤ p.worker_health_seconds
  pub tries : 1 ≤ p.max_attempts
  pub few : p.max_attempts ≤ 32

pub make_policy-PolicyOk : (p : QueuePolicy) {q : QueuePolicy} → make_policy p ≡ ok q → PolicyOk q
unfolding make_policy
make_policy-PolicyOk p {q} h = ground arith
