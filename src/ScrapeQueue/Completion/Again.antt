-- ===== src/ScrapeQueue/Completion/Again.antt =====
-- scrape_queue/repository.py: a completion that is handed in again.
use homez.Prelude.{
  ℕ, ◌≤◌, ◌≡◌, refl, subst, true, false, ◌&&◌, Option, none, some, is_some, ok, value_error,
  >>=-eq-ok, guard, guard-eq-ok, ok-injective, Bool-cases, inl, inr, arith, aware, commit-eq-ok,
  find, insert, find-insert_new,
}
use homez.ScrapeQueue.Contracts.{WorkerIdentity, ScrapeLease, is_discovery}
use homez.ScrapeQueue.Captures.{CaptureOutcome, DiscoveryCapture, ProductionResult}
use homez.ScrapeQueue.Records.{Db, Repository, get_task, get_attempt, get_activation}
use homez.ScrapeQueue.Lease.{leased}
use homez.ScrapeQueue.Accepted.{leased-Accepted}
use homez.ScrapeQueue.Invariant.{get_task-id}
use homez.ScrapeQueue.Completion.Checks.{Encoding, Checked, check_outcome}
use homez.ScrapeQueue.Completion.Later.{check_outcome_later, check_outcome-artifact}
use homez.ScrapeQueue.Completion.Recorded.{
  Recorded, page, parsed, store_capture_keeps, own_key, Recorded-complete_capture,
  same_result-result_of, same_discovery-discovery_of, store_result-found, Closed-same_task,
  Closed-same_attempt,
}
use homez.ScrapeQueue.Completion.Closed.{close_task-Closed}
use homez.ScrapeQueue.Completion.{
  Drawn, capture_of, discovery_of, artifact_or_empty, is_fetched_since, same_discovery, same_task,
  same_result, same_attempt, discovery_collides, discovery_key, store_capture, complete_discovery,
  result_of, result_key, store_result, completion_code, complete_result, complete_capture, complete,
}

module _ (x : Encoding) (repo : Repository) (worker : WorkerIdentity) (lease : ScrapeLease)
    (o : CaptureOutcome) where
  module _ (ids : Drawn) (k : Checked) (db : Db) {out : Unit {0} × Db} where
    complete_discovery-Recorded :
        is_discovery lease.task_class ≡ true
        → is_some o.artifact_id ≡ true
        → (prior : Option DiscoveryCapture)
        → find (discovery_key lease.task_id) db.captured.discoveries ≡ prior
        → complete_discovery repo worker lease o k prior db ≡ ok out
        → Recorded x worker lease o out.1
    unfolding complete_discovery store_capture
    complete_discovery-Recorded kind there (some prior) found done =
        elim (Bool-cases (same_discovery prior o)) [
          | inr other ↦ absurd (ground arith)
          | inl same ↦
              subst (λ (r : Unit {0} × Db). Recorded x worker lease o r.1)
                (ok-injective (rw same at done)) (page kind prior found same)
        ]
    complete_discovery-Recorded kind there none absent done =
        let (t, held, h1) = >>=-eq-ok (leased repo db worker lease k.now) _ done in
        let a = leased-Accepted repo db worker lease k.now held in
        let (_, _, h2) =
          >>=-eq-ok (guard (is_fetched_since t.lease_started_at k.fetched) value_error) _ h1 in
        let (tables, stored, h3) =
          >>=-eq-ok (store_capture db.captured (capture_of t o k.fetched)) _ h2 in
        let new = discovery_of t o (artifact_or_empty o.artifact_id) k.fetched in
        let (rows, made, h4) =
          >>=-eq-ok (insert (discovery_collides new) new tables.discoveries) _ h3 in
        let c =
          close_task-Closed repo t "discovery-captured" o.size_bytes k.now
            (record tables { discoveries = rows }) db h4 in
        let same = store_capture_keeps db.captured (capture_of t o k.fetched) tables stored in
        let found =
          find-insert_new (discovery_collides new) (discovery_key lease.task_id) new
            tables.discoveries rows (rw same.0 absent) made
            (own_key t.id lease.task_id (get_task-id db lease.task_id a.found)) in
        page kind new (rw c.left found)
          (same_discovery-discovery_of x repo worker lease o t k.fetched there)

    complete_result-Recorded :
        is_discovery lease.task_class ≡ false
        → is_some (get_activation db worker.source) ≡ true
        → same_attempt (get_attempt db lease.task_id lease.attempt_number) worker lease ≡ true
        → (prior : Option ProductionResult)
        → find (result_key lease.task_id) db.captured.results ≡ prior
        → complete_result x repo worker lease o k ids prior db ≡ ok out
        → Recorded x worker lease o out.1
    unfolding complete_result get_activation
    complete_result-Recorded kind active mine (some prior) found done =
        elim (Bool-cases (
          same_task (get_task db lease.task_id) worker lease
          && same_result prior lease (x.result_hash o)
          && same_attempt (get_attempt db lease.task_id lease.attempt_number) worker lease)) [
            | inr other ↦ absurd (ground arith)
            | inl same ↦
                subst (λ (r : Unit {0} × Db). Recorded x worker lease o r.1)
                  (ok-injective (rw same at done)) (parsed kind active prior found same)
          ]
    complete_result-Recorded kind active mine none absent done =
        let (t, held, h1) = >>=-eq-ok (leased repo db worker lease k.now) _ done in
        let a = leased-Accepted repo db worker lease k.now held in
        let (_, _, h2) =
          >>=-eq-ok (guard (is_fetched_since t.lease_started_at k.fetched) value_error) _ h1 in
        let (tables, stored, h3) = >>=-eq-ok (store_result x t o k ids db.captured) _ h2 in
        let c = close_task-Closed repo t (completion_code o) o.size_bytes k.now tables db h3 in
        let found =
          store_result-found x repo worker lease o lease.task_id ids t k db.captured tables
            (get_task-id db lease.task_id a.found) absent stored in
        parsed kind (rw c.left active) (result_of x t o ids.result k.fetched) (rw c.left found) (
          rw
            (
              Closed-same_task x repo worker lease o k.now t (completion_code o) o.size_bytes tables
                  db a c,
              same_result-result_of x repo worker lease o k.now ids.result k.fetched t db a,
            )
            (Closed-same_attempt x repo worker lease o k.now t (completion_code o) o.size_bytes
              tables db a c mine))

  complete_capture-Recorded :
      (ids : Drawn) (now now' : ℕ) (db : Db) {out : Unit {0} × Db}
      → same_attempt (get_attempt db lease.task_id lease.attempt_number) worker lease ≡ true
      → now ≤ now'
      → complete_capture x repo worker lease o ids (aware now) db ≡ ok out
      → (k : Checked) × (check_outcome x lease o (aware now') ≡ ok k)
        × Recorded x worker lease o out.1
  unfolding complete_capture
  complete_capture-Recorded ids now now' db mine later done =
      let (k, checked, h1) = >>=-eq-ok (check_outcome x lease o (aware now)) _ done in
      (
        record k { now = now' },
        check_outcome_later x lease o now now' k later checked,
        elim (Bool-cases (is_discovery lease.task_class)) [
          | inl kind ↦
              complete_discovery-Recorded ids k db kind
                (check_outcome-artifact x lease o now k kind checked)
                (find (discovery_key lease.task_id) db.captured.discoveries) refl (rw kind at h1)
          | inr kind ↦
              let (_, active, h2) =
                >>=-eq-ok (guard (is_some (get_activation db worker.source)) value_error)
                  (λ _.
                    complete_result x repo worker lease o k ids
                      (find (result_key lease.task_id) db.captured.results) db)
                  (rw kind at h1) in
              complete_result-Recorded ids k db kind (guard-eq-ok _ _ active) mine
                (find (result_key lease.task_id) db.captured.results) refl h2
        ],
      )

  -- A completion that went through goes through again, at any later time and whatever ids are
  -- drawn, and the second call leaves the store as it was: what a worker that lost the response
  -- relies on. The condition is that the attempt of the lease is the worker's and has its token.
  pub complete_again :
      (ids ids' : Drawn) (now now' : ℕ) (db db' : Db)
      → same_attempt (get_attempt db lease.task_id lease.attempt_number) worker lease ≡ true
      → now ≤ now'
      → complete x repo worker lease o ids (aware now) db ≡ (ok tt, db')
      → complete x repo worker lease o ids' (aware now') db' ≡ (ok tt, db')
  unfolding complete
  complete_again ids ids' now now' db db' mine later done =
      let made =
        commit-eq-ok (complete_capture x repo worker lease o ids (aware now) db) db db' tt done in
      let (k, checked, kept) = complete_capture-Recorded ids now now' db mine later made in
      rw (Recorded-complete_capture x repo worker lease o ids' now' k db' checked kept) refl
