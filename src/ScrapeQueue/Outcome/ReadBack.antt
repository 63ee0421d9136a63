-- ===== src/ScrapeQueue/Outcome/ReadBack.antt =====
-- What `complete` stored is what `outcome` of scrape_queue/repository.py returns.
use homez.Prelude.{
  ℕ, ◌<◌, ◌≡◌, refl, sym, ap, ◌∙◌, true, false, List, none, some, is_some, ok, value_error,
  >>=-eq-ok, guard, ok-injective, All, find, first, ◌==◌, str_eq, aware, commit-eq-ok,
}
use homez.ScrapeQueue.Contracts.{WorkerIdentity, ScrapeLease, is_discovery}
use homez.ScrapeQueue.Captures.{CaptureOutcome, Captured, CandidateRow, FieldRow}
use homez.ScrapeQueue.Records.{Task, Db, Repository, current, get_activation}
use homez.ScrapeQueue.Lease.{leased}
use homez.ScrapeQueue.Accepted.{Accepted, leased-Accepted}
use homez.Parsers.Results.{ParserResult}
use homez.Parsers.Releases.{Release, Audit}
use homez.ScrapeQueue.Completion.Checks.{Encoding, Checked, check_outcome}
use homez.ScrapeQueue.Completion.Later.{is_valid_capture-Agreed, check_outcome-Valid}
use homez.ScrapeQueue.Completion.Closed.{Closed, close_task-Closed}
use homez.ScrapeQueue.Completion.{
  Drawn, is_fetched_since, result_of, result_key, completed_attempt, completion_code, store_result,
  complete_result, complete_capture, complete, two_years_on,
}
use homez.ScrapeQueue.Outcome.{
  Joined, is_served, parsed_of, readable_rows, read_outcome, finished_later,
}
use homez.ScrapeQueue.Outcome.Stored.{result_candidates-stored, result_fields-stored}
use homez.ScrapeQueue.Outcome.Newest.{
  is_finished_before, Added, store_result-Added, Accepted-release_hash, first-after,
}

-- What a first completion had in hand.
record Stored (x : Encoding) (repo : Repository) (worker : WorkerIdentity) (lease : ScrapeLease)
    (o : CaptureOutcome) (k : Checked) (id : ℕ) (db : Db) (out : Unit {0} × Db) : Type 0 where
  task : Task
  accepted : Accepted repo db worker lease k.now task
  tables : Captured
  added : Added x task o k id db.captured tables
  closed : Closed repo task (completion_code o) o.size_bytes k.now tables db out

module _ (x : Encoding) (repo : Repository) (worker : WorkerIdentity) (lease : ScrapeLease)
    (o : CaptureOutcome) (ids : Drawn) (now : ℕ) (k : Checked) (db : Db)
    (kind : is_discovery lease.task_class ≡ false)
    (absent : find (result_key lease.task_id) db.captured.results ≡ none)
    (checked : check_outcome x lease o (aware now) ≡ ok k) where
  complete_capture-Stored :
      {out : Unit {0} × Db}
      → complete_capture x repo worker lease o ids (aware now) db ≡ ok out
      → Stored x repo worker lease o k ids.result db out
  unfolding complete_capture complete_result
  complete_capture-Stored done =
      let (_, _, h1) =
        >>=-eq-ok (guard (is_some (get_activation db worker.source)) value_error)
          (λ _.
            complete_result x repo worker lease o k ids
              (find (result_key lease.task_id) db.captured.results) db)
          (rw (checked, kind) at done) in
      let h2 = rw absent at h1 in
      let (t, held, h3) = >>=-eq-ok (leased repo db worker lease k.now) _ h2 in
      let (_, _, h4) =
        >>=-eq-ok (guard (is_fetched_since t.lease_started_at k.fetched) value_error) _ h3 in
      let (tables, stored, h5) = >>=-eq-ok (store_result x t o k ids db.captured) _ h4 in
      record {
        task = t;
        accepted = leased-Accepted repo db worker lease k.now held;
        tables = tables;
        added = store_result-Added x t o k ids db.captured tables stored;
        closed = close_task-Closed repo t (completion_code o) o.size_bytes k.now tables db h5;
      }

  -- The result read from the stored row.
  parsed_of-stored :
      (t : Task) (tables : Captured)
      → t.release_hash ≡ lease.release_hash
      → Added x t o k ids.result db.captured tables
      → All (λ (c : CandidateRow). (c.result_id == ids.result) ≡ false) db.captured.candidates
      → All (λ (f : FieldRow). (f.result_id == ids.result) ≡ false) db.captured.fields
      → parsed_of tables (result_of x t o ids.result k.fetched)
        ≡ ok (record o.result { fields = k.fields })
  unfolding parsed_of
  parsed_of-stored t tables bound added new_candidates new_fields =
      let v = check_outcome-Valid x lease o now k checked in
      let fields : k.fields ≡ v.fields = ap (λ (c : Checked). c.fields) v.left in
      let agreed = is_valid_capture-Agreed lease o v.fields v.fetched now v.capture in
      let candidates =
        result_candidates-stored x lease ids.result db.captured.candidates o.result.candidates
          tables added.candidates new_candidates v.candidates in
      let resolved =
        result_fields-stored ids.result db.captured.fields k.fields tables o.result.candidates
          added.fields new_fields (rw fields agreed.named) (rw fields agreed.sound) in
      rw (bound, candidates, resolved, agreed.capture_id, ← agreed.release_hash) refl

  read_outcome-after :
      (releases : List Release) (audits : List Audit) (at : ℕ) (db' : Db) (j : Joined)
      (p : ParserResult)
      → first finished_later (readable_rows releases audits db' worker.source lease.snapshot_id at)
        ≡ some j
      → parsed_of db'.captured j.result ≡ ok p
      → read_outcome releases audits db' worker.source lease.snapshot_id (aware at) ≡ ok (some p)
  unfolding read_outcome
  read_outcome-after releases audits at db' j p found parsed = rw (found, parsed) refl

  -- The outcome of a task that is no discovery and had no result, once its completion went
  -- through, is what `outcome` returns for the snapshot from then on, with the fields that were
  -- declared or resolved: as long as the release is there and not revoked, and two years have not
  -- passed since the fetch. The conditions are that the readable results of the snapshot are of
  -- tasks that finished before, and that the id drawn for the result is new.
  pub complete-read_outcome :
      (releases : List Release) (audits : List Audit) (second at : ℕ) (db' : Db)
      → current repo 2 now ≡ ok second
      → is_served (find (λ (r : Release). str_eq r.release_hash lease.release_hash) releases) ≡ true
      → at < two_years_on k.fetched
      → All
          (λ (j : Joined). is_finished_before second j ≡ true)
          (readable_rows releases audits db worker.source lease.snapshot_id at)
      → All (λ (c : CandidateRow). (c.result_id == ids.result) ≡ false) db.captured.candidates
      → All (λ (f : FieldRow). (f.result_id == ids.result) ≡ false) db.captured.fields
      → complete x repo worker lease o ids (aware now) db ≡ (ok tt, db')
      → read_outcome releases audits db' worker.source lease.snapshot_id (aware at)
        ≡ ok (some (record o.result { fields = k.fields }))
  unfolding complete
  complete-read_outcome releases audits second at db' read served fresh older new_candidates
        new_fields done =
      let s =
        complete_capture-Stored (
          commit-eq-ok (complete_capture x repo worker lease o ids (aware now) db) db db' tt
            done) in
      let c = s.closed in
      let same : k.now ≡ now =
        ap (λ (y : Checked). y.now) (check_outcome-Valid x lease o now k checked).left in
      let time : c.second ≡ second = ok-injective (sym c.read ∙ rw same read) in
      let attempt = completed_attempt c.attempt c.first (completion_code o) o.size_bytes in
      let left : db' ≡ _ = ap (λ (out : Unit {0} × Db). out.1) c.left in
      let found =
        first-after releases audits x repo worker lease o db s.task k.now s.accepted k ids.result
          c.second at attempt s.tables s.added absent kind served fresh (rw time older) in
      rw left (
        read_outcome-after releases audits at _ _ _ found (
          parsed_of-stored s.task s.tables
            (Accepted-release_hash releases audits x repo worker lease o db s.task k.now s.accepted)
            s.added new_candidates new_fields))
