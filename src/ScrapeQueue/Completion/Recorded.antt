-- ===== src/ScrapeQueue/Completion/Recorded.antt =====
-- scrape_queue/repository.py: when `complete` returns at once, and that its store is then such.
use homez.Prelude.{
  ℕ, ◌≡◌, refl, sym, subst, ap, true, false, ◌&&◌, ◌==◌, String, none, some, is_some, ok, >>=-eq-ok,
  ok-injective, Option-cases, inl, inr, arith, aware, find, insert, find-holds, find-replace,
  find-insert_new, eq_iff,
}
use homez.Prelude.TextKeys.{str_eq_self}
use homez.ScrapeQueue.Contracts.{WorkerIdentity, ScrapeLease, is_discovery}
use homez.ScrapeQueue.Captures.{
  CaptureOutcome, PageCapture, Captured, DiscoveryCapture, ProductionResult,
}
use homez.ScrapeQueue.Records.{
  Task, Db, Repository, get_task, get_attempt, get_activation, attempt_key,
}
use homez.ScrapeQueue.Lease.{held_by, agrees}
use homez.ScrapeQueue.Accepted.{Accepted}
use homez.ScrapeQueue.Invariant.{get_task-put, get_task-id}
use homez.ScrapeQueue.Completion.Checks.{Encoding, Checked, check_outcome}
use homez.ScrapeQueue.Completion.Closed.{Closed}
use homez.ScrapeQueue.Completion.{
  Drawn, capture_key, capture_of, discovery_of, artifact_or_empty, completed_attempt,
  completed_task, same_discovery, same_task, same_result, same_attempt, discovery_key,
  store_capture, complete_discovery, result_of, result_key, result_collides, store_diagnostic,
  store_result, complete_result, complete_capture,
}

pub store_capture_keeps :
    (old : Captured) (c : PageCapture) (tables : Captured)
    → store_capture old c ≡ ok tables
    → (tables.discoveries ≡ old.discoveries) × (tables.results ≡ old.results)
unfolding store_capture
store_capture_keeps old c tables done =
    let (rows, _, h) = >>=-eq-ok (insert (capture_key c.id) c old.captures) _ done in
    (
      ap (λ (x : Captured). x.discoveries) (sym (ok-injective h)),
      ap (λ (x : Captured). x.results) (sym (ok-injective h)),
    )

pub own_key : (m n : ℕ) → m ≡ n → (m == n) ≡ true
own_key m n e = ground arith

-- What lets `complete` return at once: the row of an earlier completion agrees with this one.
pub data Recorded (x : Encoding) (worker : WorkerIdentity) (lease : ScrapeLease)
    (o : CaptureOutcome) (db : Db) : Type 0 where
  page :
      is_discovery lease.task_class ≡ true
      → (prior : DiscoveryCapture)
      → find (discovery_key lease.task_id) db.captured.discoveries ≡ some prior
      → same_discovery prior o ≡ true
      → Recorded x worker lease o db
  parsed :
      is_discovery lease.task_class ≡ false
      → is_some (get_activation db worker.source) ≡ true
      → (prior : ProductionResult)
      → find (result_key lease.task_id) db.captured.results ≡ some prior
      → (same_task (get_task db lease.task_id) worker lease
          && same_result prior lease (x.result_hash o)
          && same_attempt (get_attempt db lease.task_id lease.attempt_number) worker lease)
        ≡ true
      → Recorded x worker lease o db

module _ (x : Encoding) (repo : Repository) (worker : WorkerIdentity) (lease : ScrapeLease)
    (o : CaptureOutcome) where
  pub Recorded-complete_capture :
      (ids : Drawn) (now : ℕ) (k : Checked) (db : Db)
      → check_outcome x lease o (aware now) ≡ ok k
      → Recorded x worker lease o db
      → complete_capture x repo worker lease o ids (aware now) db ≡ ok (tt, db)
  unfolding complete_capture complete_discovery complete_result
  Recorded-complete_capture ids now k db checked (page kind prior found same) =
      rw (checked, kind) (rw found (rw same refl))
  Recorded-complete_capture ids now k db checked (parsed kind active prior found same) =
      rw (checked, kind) (rw active (rw found (rw same refl)))

  -- the rows of an accepted lease
  same_task-completed :
      (now at : ℕ) (t : Task) (db : Db)
      → Accepted repo db worker lease now t
      → same_task (some (completed_task t at)) worker lease ≡ true
  unfolding held_by agrees
  same_task-completed now at t db a = let h = a.held in let g = a.agreed in ground arith

  pub same_result-result_of :
      (now id fetched : ℕ) (t : Task) (db : Db)
      → Accepted repo db worker lease now t
      → same_result (result_of x t o id fetched) lease (x.result_hash o) ≡ true
  unfolding agrees
  same_result-result_of now id fetched t db a =
      let g = a.agreed in
      ground (
        arith,
        eq_iff lease.release_hash t.release_hash,
        eq_iff t.release_hash lease.release_hash,
        str_eq_self (x.result_hash o),
      )

  pub same_discovery-discovery_of :
      (t : Task) (fetched : ℕ)
      → is_some o.artifact_id ≡ true
      → same_discovery (discovery_of t o (artifact_or_empty o.artifact_id) fetched) o ≡ true
  same_discovery-discovery_of t fetched there = elim (Option-cases o.artifact_id) [
    | inl none_id ↦ absurd (ground arith)
    | inr (id, e) ↦ rw e (ground (arith, str_eq_self id, str_eq_self o.content_hash))
  ]

  Accepted-attempt_count :
      (now : ℕ) (t : Task) (db : Db)
      → Accepted repo db worker lease now t
      → t.attempt_count ≡ lease.attempt_number
  unfolding agrees
  Accepted-attempt_count now t db a = let g = a.agreed in ground arith

  module _ (now : ℕ) (t : Task) (code : String) (bytes : ℕ) (tables : Captured) (db : Db)
      {out : Unit {0} × Db} (a : Accepted repo db worker lease now t)
      (c : Closed repo t code bytes now tables db out) where
    own : t.id ≡ lease.task_id
    own = get_task-id db lease.task_id a.found

    pub Closed-same_task : same_task (get_task out.1 lease.task_id) worker lease ≡ true
    unfolding get_task
    Closed-same_task =
        let put =
          get_task-put db t (completed_task t c.second) db.attempts refl
            (subst (λ n. get_task db n ≡ some t) (sym own) a.found) in
        let found : get_task out.1 lease.task_id ≡ some (completed_task t c.second) =
          rw (c.left, ← own) put in
        rw found (same_task-completed now c.second t db a)

    Closed-opened : get_attempt db lease.task_id lease.attempt_number ≡ some c.attempt
    Closed-opened = rw (← own, ← Accepted-attempt_count now t db a) c.opened

    pub Closed-same_attempt :
        same_attempt (get_attempt db lease.task_id lease.attempt_number) worker lease ≡ true
        → same_attempt (get_attempt out.1 lease.task_id lease.attempt_number) worker lease ≡ true
    unfolding get_attempt
    Closed-same_attempt h =
        let key =
          find-holds (attempt_key lease.task_id lease.attempt_number) db.attempts Closed-opened in
        let task : c.attempt.task_id ≡ lease.task_id = ground arith in
        let number : c.attempt.attempt_number ≡ lease.attempt_number = ground arith in
        let here : find (attempt_key c.attempt.task_id c.attempt.attempt_number) db.attempts
            ≡ some c.attempt =
          subst (λ m. find (attempt_key m c.attempt.attempt_number) db.attempts ≡ some c.attempt)
            (sym task)
            (subst (λ m. find (attempt_key lease.task_id m) db.attempts ≡ some c.attempt)
              (sym number) Closed-opened) in
        let put =
          find-replace (attempt_key c.attempt.task_id c.attempt.attempt_number)
            (attempt_key lease.task_id lease.attempt_number)
            (completed_attempt c.attempt c.first code bytes) db.attempts {x = c.attempt} here key
            (λ z e. rw (← task, ← number) e) in
        rw (c.left, put) (rw Closed-opened at h)

  pub store_result-found :
      (n : ℕ) (ids : Drawn) (t : Task) (k : Checked) (old tables : Captured)
      → t.id ≡ n
      → find (result_key n) old.results ≡ none
      → store_result x t o k ids old ≡ ok tables
      → find (result_key n) tables.results ≡ some (result_of x t o ids.result k.fetched)
  unfolding store_result
  store_result-found n ids t k old tables key absent done =
      let new = result_of x t o ids.result k.fetched in
      let (tables', stored, h1) = >>=-eq-ok (store_capture old (capture_of t o k.fetched)) _ done in
      let (rows, made, h2) = >>=-eq-ok (insert (result_collides new) new tables'.results) _ h1 in
      let (diagnostics, _, h3) =
        >>=-eq-ok (store_diagnostic o ids k.fetched tables'.diagnostics) _ h2 in
      let same = store_capture_keeps old (capture_of t o k.fetched) tables' stored in
      rw (← ok-injective h3) (
        find-insert_new (result_collides new) (result_key n) new tables'.results rows
          (rw same.1 absent) made (own_key t.id n key))
