-- ===== src/ScrapeQueue/Samples.antt =====
-- A small queue of scrape_queue/: its worker, tasks and lease.
use homez.Prelude.{
  ℕ, ◌+◌, Bool, String, true, false, [], ◌∷◌, Option, none, some, find, where_rows, first, order_by,
  take, insert, replace, delete,
}
use homez.Parsers.Releases.{Release, ReleaseStatus}
use homez.ScrapeQueue.Captures.{nothing_captured}
use homez.ScrapeQueue.Contracts.{
  otodom, live, nas, WorkerIdentity, default_policy, policy_accepted, make_policy, ScrapeLease,
}
use homez.ScrapeQueue.Records.{
  TaskState, pending, succeeded, Task, Attempt, Db, Repository, same_identity, get_task, get_worker,
  get_activation, get_attempt, current,
}
use homez.ScrapeQueue.Lease.{is_active, agrees, known_worker, renew, held_by, leased, heartbeat}
use homez.ScrapeQueue.Finish.{conclude, finish, succeed, fail, defer, retry_delay}
use homez.ScrapeQueue.Registration.{register, register_worker}
use homez.ScrapeQueue.Reaping.{is_expired, reaped, reap_one, reap_all, expired_tasks, reap_expired}
use homez.ScrapeQueue.Claim.{new_attempt, may_work, is_candidate, select_and_lease, claim, claimed}

abbrev pub repo : Repository
repo = record { policy = default_policy; clock = none }

abbrev pub worker : WorkerIdentity
worker = record { worker_id = "w1"; source = otodom; deployment = nas }

abbrev pub row : ℕ → ℕ → TaskState → Option ℕ → Task
row id priority state finished = record {
  id = id;
  source = otodom;
  snapshot_id = 70 + id;
  canonical_url = "https://www.otodom.pl/a";
  task_class = live;
  release_hash = "r1";
  activation_epoch = 1;
  idempotency_key = "k";
  state = state;
  priority = priority;
  available_at = 900;
  created_at = 900;
  attempt_count = 0;
  lease_owner = none;
  lease_token = none;
  lease_expires_at = none;
  lease_started_at = none;
  finished_at = finished;
  direct_fallback_pending = false;
  direct_fallback_available_at = none;
}

abbrev pub db : Db
db = record {
  tasks = row 1 20 pending none ∷ row 2 0 pending none ∷ row 3 0 succeeded (some 950) ∷ [];
  attempts = [];
  workers =
      record {
        worker_id = "w1";
        source = otodom;
        deployment = nas;
        heartbeat_at = 990;
        release_hashes = "r2" ∷ [];
        healthy = true;
      }
      ∷ [];
  activations = record { source = otodom; release_hash = "r2"; activation_epoch = 2 } ∷ [];
  captured = nothing_captured;
}

abbrev pub unlocked : ℕ → Bool
unlocked n = false

unfoldable pub queue_program : Unit {0}
unfolding make_policy policy_accepted find where_rows first order_by take insert replace delete
    current same_identity get_task get_worker get_activation get_attempt held_by is_active agrees
    known_worker leased renew heartbeat retry_delay conclude finish succeed fail defer register
    register_worker is_expired reaped reap_one reap_all expired_tasks reap_expired may_work
    is_candidate select_and_lease claim
queue_program = tt

abbrev pub lease : ScrapeLease
lease = record {
  task_id = 2;
  source = otodom;
  snapshot_id = 72;
  canonical_url = "https://www.otodom.pl/a";
  task_class = live;
  release_hash = "r2";
  activation_epoch = 2;
  lease_token = 55;
  lease_expires_at = 1060;
  attempt_number = 1;
}

abbrev pub leased_task : Task
leased_task = claimed repo worker 55 1000 "r2" 2 (row 2 0 pending none)

abbrev pub attempt : Attempt
attempt = new_attempt worker 55 1000 leased_task

abbrev pub db' : Db
db' = record db {
  tasks = row 1 20 pending none ∷ leased_task ∷ row 3 0 succeeded (some 950) ∷ [];
  attempts = attempt ∷ [];
}

abbrev pub release_row : String → ReleaseStatus → Release
release_row hash status = record {
  release_hash = hash;
  source = otodom;
  created_at = 0;
  parser_version = none;
  git_commit = none;
  parser_content_hash = none;
  configuration_hash = none;
  dependency_lock_hash = none;
  deployable_digest = none;
  qualifying_benchmark_run = none;
  status = status;
}
