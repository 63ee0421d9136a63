-- ===== src/ScrapeQueue/Tests.antt =====
-- A small queue of scrape_queue/, what its operations do, and the theorems applied to it.
use homez.ScrapeQueue.Samples.{
  attempt, db, db', lease, leased_task, queue_program, repo, row, unlocked, worker,
}
use homez.Prelude.{
  ℕ, ◌+◌, ◌≡◌, ◌≢◌, refl, arith, true, false, [], ◌∷◌, none, some, ok, err, lost_lease, Datetime,
  is_ok, if◌then◌else◌, value_error,
}
use homez.ScrapeQueue.Contracts.{live, default_policy, PolicyOk, make_policy, ScrapeLease}
use homez.ScrapeQueue.Records.{
  pending, deferred, succeeded, failed, Task, get_task, get_attempt, current, contains,
}
use homez.ScrapeQueue.Lease.{leased, heartbeat}
use homez.ScrapeQueue.Finish.{success, finish, succeed, fail, retry_delay}
use homez.ScrapeQueue.Reaping.{reap_expired}
use homez.ScrapeQueue.Claim.{claim}
use homez.ScrapeQueue.Invariant.{DbOk, TaskOk}
use homez.ScrapeQueue.Reachable.{Reach, here, next, claims, Reach-DbOk}
use homez.ScrapeQueue.Finished.{Reach-get_task}
use homez.ScrapeQueue.Lifetime.{claim-honoured, claim-fences}
use homez.ScrapeQueue.Selection.{Selected, claim-Selected}
use homez.ScrapeQueue.Api.{payload_codes}
use homez.ScrapeQueue.Exclusion.{leased_exclusive}
use homez.ScrapeQueue.Retry.{fail_outcome, tries_again}

-- The task of the lower priority is leased.
claim-db :
    claim repo unlocked worker (live ∷ []) 55 (Datetime.aware 1000) db ≡ (ok (some lease), db')
unfolding queue_program
claim-db = refl

-- A failure of transport waits half a minute.
fail-db' : (fail repo worker lease (Datetime.aware 1010) "transport-error" db').0 ≡ ok deferred
unfolding queue_program
fail-db' = refl

-- An expired lease is refused.
succeed_late :
    (succeed repo worker lease (Datetime.aware 1060) "downloaded" 10 db').0 ≡ err lost_lease
unfolding queue_program
succeed_late = refl

-- The expired task is pending again, and a second worker cannot be told from the first.
reap_expired-db' : (reap_expired repo unlocked 100 (Datetime.aware 1060) db').0 ≡ ok 1
unfolding queue_program
reap_expired-db' = refl

pub default-PolicyOk : PolicyOk default_policy
default-PolicyOk = record {
  beats = omega arith;
  outlives = omega arith;
  renewable = omega arith;
  bounded = omega arith;
  healthy = omega arith;
  tries = omega arith;
  few = omega arith;
}

pending-TaskOk : (id priority : ℕ) → TaskOk default_policy (row id priority pending none)
pending-TaskOk id priority = record {
  leased = λ e. absurd (ground arith);
  free = λ e. record { owner = refl; token = refl; start = refl; expiry = refl };
  bounded = omega arith;
  ended = λ e. absurd (ground arith);
}

succeeded-TaskOk : TaskOk default_policy (row 3 0 succeeded (some 950))
succeeded-TaskOk = record {
  leased = λ e. absurd (ground arith);
  free = λ e. record { owner = refl; token = refl; start = refl; expiry = refl };
  bounded = omega arith;
  ended = λ e. refl;
}

pub db-DbOk : DbOk default_policy db
db-DbOk = record {
  unique = ((refl, (refl, tt)), ((refl, tt), (tt, tt)));
  rows = (pending-TaskOk 1 20, (pending-TaskOk 2 0, (succeeded-TaskOk, tt)));
}

-- a claim, and a failure under its lease
pub claim-Reach : Reach default_policy db db'
unfolding queue_program
claim-Reach = next here (claims none unlocked worker (live ∷ []) 55 (Datetime.aware 1000) db)

Reach-DbOk_example : DbOk default_policy db'
Reach-DbOk_example = Reach-DbOk default-PolicyOk db-DbOk claim-Reach

finished_found : get_task db 3 ≡ some (row 3 0 succeeded (some 950))
unfolding queue_program
finished_found = refl

Reach-get_task_example : get_task db' 3 ≡ some (row 3 0 succeeded (some 950))
Reach-get_task_example =
    Reach-get_task 3 (row 3 0 succeeded (some 950)) default-PolicyOk db-DbOk finished_found refl
      claim-Reach

current_unbound : (i now : ℕ) → current repo i now ≡ ok now
unfolding queue_program
current_unbound i now = refl

claim-honoured_example :
    (succeed repo worker lease (Datetime.aware 1050) "downloaded" 10 db').0 ≡ ok succeeded
claim-honoured_example =
    claim-honoured repo repo unlocked worker (live ∷ []) 55 1000 1050 1050 1050 10 "downloaded"
      lease db db' db-DbOk claim-db refl (omega arith) (current_unbound 0 1050)
      (current_unbound 1 1050) (omega arith) (omega arith)

abbrev stale : ScrapeLease
stale = record lease { lease_token = 54 }

stale_ne : stale.lease_token ≢ lease.lease_token
stale_ne h = omega arith

claim-fences_example :
    (is_ok (finish repo worker stale (Datetime.aware 1010) (success "downloaded" 5) db').0 ≡ false)
    × ((finish repo worker stale (Datetime.aware 1010) (success "downloaded" 5) db').1 ≡ db')
    × (is_ok (heartbeat repo worker stale (Datetime.aware 1010) db').0 ≡ false)
    × ((heartbeat repo worker stale (Datetime.aware 1010) db').1 ≡ db')
claim-fences_example =
    claim-fences repo repo unlocked worker worker (live ∷ []) 55 1000 lease stale
      (Datetime.aware 1010) (success "downloaded" 5) db db' db-DbOk claim-db refl stale_ne

claim-Selected_example :
    Selected repo unlocked worker
      (live ∷ [])
      1000
      (reap_expired repo unlocked 100 (Datetime.aware 1000) db).1
      lease
claim-Selected_example =
    claim-Selected repo unlocked worker (live ∷ []) 55 1000 lease db db' db-DbOk claim-db

leased-db' : leased repo db' worker lease 1010 ≡ ok leased_task
unfolding queue_program
leased-db' = refl

opened-db' : get_attempt db' 2 1 ≡ some attempt
unfolding queue_program
opened-db' = refl

fail_outcome_example :
    (let after = fail repo worker lease (Datetime.aware 1010) "transport-error" db' in
      (r : Task) × (after.0
        ≡ ok
            (if tries_again default_policy leased_task "transport-error" then deferred else failed))
      × (get_task after.1 2 ≡ some r)
      × (r.state
          ≡ (if tries_again default_policy leased_task "transport-error" then deferred else failed))
      × (r.lease_token ≡ none)
      × (r.attempt_count ≡ 1)
      × (tries_again default_policy leased_task "transport-error" ≡ true
          → r.available_at ≡ 1010 + retry_delay 1)
      × (tries_again default_policy leased_task "transport-error" ≡ false
          → r.finished_at ≡ some 1010))
fail_outcome_example =
    fail_outcome repo worker lease 1010 1010 "transport-error" db' leased_task attempt refl
      leased-db' (current_unbound 1 1010) opened-db' refl

leased_exclusive_example :
    (worker.worker_id ≡ worker.worker_id)
    × (lease.lease_token ≡ lease.lease_token)
    × (lease.attempt_number ≡ lease.attempt_number)
    × (lease.release_hash ≡ lease.release_hash)
leased_exclusive_example =
    leased_exclusive repo repo db' worker worker lease lease 1010 1010 leased_task leased_task refl
      leased-db' leased-db'

make_policy-default : make_policy default_policy ≡ ok default_policy
unfolding queue_program
make_policy-default = refl

-- Two codes that the interface admits are refused.
recovery_codes_refused :
    (contains payload_codes "invalid-recovery-lease" ≡ true)
    × (fail repo worker lease (Datetime.aware 1010) "invalid-recovery-lease" db'
        ≡ (err value_error, db'))
    × (contains payload_codes "artifact-recovery-failed" ≡ true)
    × (fail repo worker lease (Datetime.aware 1010) "artifact-recovery-failed" db'
        ≡ (err value_error, db'))
unfolding queue_program
recovery_codes_refused = (refl, refl, refl, refl)
