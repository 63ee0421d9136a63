-- ===== src/ScrapeQueue/Lifetime.antt =====
-- The life of a lease of scrape_queue/repository.py: what `claim` returns is good until it expires,
-- and shuts every other lease on its task out.
use homez.Prelude.{
  ℕ, ◌<◌, ◌≤◌, ◌≡◌, ◌≢◌, refl, sym, Bool, true, false, String, List, Option, none, some, arith, ok,
  Datetime, le→leb, str_eq, eq_iff, subst, inl, inr, commit-eq-ok, commit_refused, is_ok,
}
use homez.ScrapeQueue.Contracts.{WorkerIdentity, ScrapeLease, TaskClass}
use homez.ScrapeQueue.Records.{
  Task, Attempt, Db, Repository, current, get_task, get_attempt, contains, succeeded,
}
use homez.ScrapeQueue.Lease.{leased, held_by, heartbeat, renew}
use homez.ScrapeQueue.Finish.{finish, succeed, conclude, success_codes, Ending}
use homez.ScrapeQueue.Reaping.{reap_expired}
use homez.ScrapeQueue.Claim.{select_and_lease, claim}
use homez.ScrapeQueue.Accepted.{Accepted, conclude-Concluded, renew-Renewed}
use homez.ScrapeQueue.Granted.{Granted, select_and_lease-cases}
use homez.ScrapeQueue.Honoured.{row', granted-get_task, granted-get_attempt, granted-leased}
use homez.ScrapeQueue.Invariant.{DbOk}
use homez.ScrapeQueue.Invariant.Reap.{reap_expired-DbOk}

success_codes-ne_budget :
    (code : String) → contains success_codes code ≡ true → str_eq code "budget-exhausted" ≡ false
success_codes-ne_budget code h = ground (
  arith,
  eq_iff "downloaded" code,
  eq_iff "partial" code,
  eq_iff "artifact-unavailable" code,
  eq_iff code "budget-exhausted",
  eq_iff "downloaded" "budget-exhausted",
  eq_iff "partial" "budget-exhausted",
  eq_iff "artifact-unavailable" "budget-exhausted",
)

-- An acknowledgement of success under an accepted lease with an open attempt goes through.
succeed-accepted :
    (repo : Repository) (worker : WorkerIdentity) (lease : ScrapeLease) (now later : ℕ)
    (code : String) (bytes : ℕ) (db : Db) (t : Task) (a : Attempt)
    → contains success_codes code ≡ true
    → bytes ≤ 2000000
    → leased repo db worker lease now ≡ ok t
    → current repo 1 now ≡ ok later
    → get_attempt db t.id t.attempt_count ≡ some a
    → a.finished_at ≡ none
    → (succeed repo worker lease (Datetime.aware now) code bytes db).0 ≡ ok succeeded
unfolding succeed finish conclude
succeed-accepted repo worker lease now later code bytes db t a known small held read found
      unfinished =
    rw (known, le→leb bytes 2000000 small)
      (rw held (rw read (rw found (rw unfinished (rw (success_codes-ne_budget code known))))))

-- What the store that a claim left says of the lease that it returned.
pub record Claimed (worker : WorkerIdentity) (l : ScrapeLease) (db : Db) : Type 0 where
  pub row : Task
  pub found : get_task db l.task_id ≡ some row
  pub fenced : row.lease_token ≡ some l.lease_token
  pub attempt : Attempt
  pub opened : get_attempt db row.id row.attempt_count ≡ some attempt
  pub unfinished : attempt.finished_at ≡ none
  pub honours :
      (clocked : Repository) (now r : ℕ)
      → current clocked 0 now ≡ ok r
      → now < l.lease_expires_at
      → r < l.lease_expires_at
      → leased clocked db worker l now ≡ ok row

abbrev ClaimedOut : WorkerIdentity → Option ScrapeLease × Db → Type 0
ClaimedOut worker (none, db) = ⊥
ClaimedOut worker (some l, db) = Claimed worker l db

module _ (repo : Repository) (locked : ℕ → Bool) (worker : WorkerIdentity)
    (classes : List TaskClass) (token now : ℕ) (db : Db) where
  Granted-Claimed :
      {out : Option ScrapeLease × Db}
      → Granted repo locked worker classes token now db out
      → DbOk repo.policy db
      → ClaimedOut worker out
  Granted-Claimed {out} g h = subst (ClaimedOut worker) (sym g.left) (record {
    row = row' repo locked worker classes token now db g h;
    found = granted-get_task repo locked worker classes token now db g h;
    fenced = refl;
    attempt = _;
    opened = granted-get_attempt repo locked worker classes token now db g h;
    unfinished = refl;
    honours = granted-leased repo locked worker classes token now db g h;
  })

module _ (repo : Repository) (locked : ℕ → Bool) (worker : WorkerIdentity)
    (classes : List TaskClass) (token now : ℕ) (db : Db) where
  pub claim-Claimed :
      (l : ScrapeLease) (db' : Db)
      → DbOk repo.policy db
      → claim repo locked worker classes token (Datetime.aware now) db ≡ (ok (some l), db')
      → Claimed worker l db'
  unfolding claim
  claim-Claimed l db' h done =
      let reaped_db = (reap_expired repo locked 100 (Datetime.aware now) db).1 in
      let made =
        commit-eq-ok (select_and_lease repo locked worker classes token now reaped_db) reaped_db db'
          (some l) done in
      elim (select_and_lease-cases repo locked worker classes token now reaped_db made) [
        | inl idle ↦ absurd (ground arith)
        | inr g ↦
            Granted-Claimed repo locked worker classes token now reaped_db g
              (reap_expired-DbOk repo locked 100 (Datetime.aware now) db h)
      ]

-- After `claim` returned a lease, `succeed` with one of its codes and an accepted byte count goes
-- through for the same worker while the lease has not expired, by the time supplied and by both
-- readings of the clock.
pub claim-honoured :
    (repo clocked : Repository) (locked : ℕ → Bool) (worker : WorkerIdentity)
    (classes : List TaskClass) (token now now' r r' bytes : ℕ) (code : String) (l : ScrapeLease)
    (db db' : Db)
    → DbOk repo.policy db
    → claim repo locked worker classes token (Datetime.aware now) db ≡ (ok (some l), db')
    → contains success_codes code ≡ true
    → bytes ≤ 2000000
    → current clocked 0 now' ≡ ok r
    → current clocked 1 now' ≡ ok r'
    → now' < l.lease_expires_at
    → r < l.lease_expires_at
    → (succeed clocked worker l (Datetime.aware now') code bytes db').0 ≡ ok succeeded
claim-honoured repo clocked locked worker classes token now now' r r' bytes code l db db' h done
      known small read read' early early' =
    let c = claim-Claimed repo locked worker classes token now db l db' h done in
    succeed-accepted clocked worker l now' r' code bytes db' c.row c.attempt known small
      (c.honours clocked now' r read early early') read' c.opened c.unfinished

-- No other lease on the task is accepted in that store.
fenced-leased :
    (repo : Repository) (worker worker' : WorkerIdentity) (l l' : ScrapeLease) (now : ℕ) (db : Db)
    {t : Task}
    → Claimed worker l db
    → l'.task_id ≡ l.task_id
    → l'.lease_token ≢ l.lease_token
    → Accepted repo db worker' l' now t
    → ⊥
unfolding held_by
fenced-leased repo worker worker' l l' now db {t} c same other a =
    let found : get_task db l.task_id ≡ some t = rw same at a.found in
    let fact = c.found in let fence = c.fenced in let held = a.held in other (ground arith)

-- After `claim` returned a lease, a heartbeat or an acknowledgement under a lease on the same task
-- with another token, by any worker at any time, raises and leaves the store as it was.
pub claim-fences :
    (repo clocked : Repository) (locked : ℕ → Bool) (worker worker' : WorkerIdentity)
    (classes : List TaskClass) (token now : ℕ) (l l' : ScrapeLease) (now' : Datetime) (e : Ending)
    (db db' : Db)
    → DbOk repo.policy db
    → claim repo locked worker classes token (Datetime.aware now) db ≡ (ok (some l), db')
    → l'.task_id ≡ l.task_id
    → l'.lease_token ≢ l.lease_token
    → (is_ok (finish clocked worker' l' now' e db').0 ≡ false)
      × ((finish clocked worker' l' now' e db').1 ≡ db')
      × (is_ok (heartbeat clocked worker' l' now' db').0 ≡ false)
      × ((heartbeat clocked worker' l' now' db').1 ≡ db')
unfolding finish heartbeat
claim-fences repo clocked locked worker worker' classes token now l l' now' e db db' h done same
      other =
    let c = claim-Claimed repo locked worker classes token now db l db' h done in
    let ended = commit_refused (conclude clocked db' worker' l' now' e) db' (λ out r.
      let f = conclude-Concluded clocked db' worker' l' now' e {out = out} r in
      fenced-leased clocked worker worker' l l' f.now db' c same other f.accepted) in
    let beaten = commit_refused (renew clocked db' worker' l' now') db' (λ out r.
      let f = renew-Renewed clocked db' worker' l' now' {out = out} r in
      fenced-leased clocked worker worker' l l' f.now db' c same other f.accepted) in
    (ended.0, ended.1, beaten.0, beaten.1)
