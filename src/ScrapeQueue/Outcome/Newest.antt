-- ===== src/ScrapeQueue/Outcome/Newest.antt =====
-- The rows that `outcome` selects, after a task was completed.
use homez.Prelude.{
  ℕ, ◌<◌, ◌≡◌, refl, sym, ap, ◌∙◌, subst, Bool, true, false, List, [], ◌∷◌, ◌++◌, Option, none,
  some, ok, arith, All, All-map, where_rows, find, first, insert, ◌==◌, str_eq, eq_iff, >>=-eq-ok,
  ok-injective, find-replace_ne,
}
use homez.Prelude.Appended.{insert-++, where_rows-++, where_rows-All_hold, first-++, find-missed}
use homez.ScrapeQueue.Contracts.{is_discovery, WorkerIdentity, ScrapeLease}
use homez.ScrapeQueue.Captures.{CaptureOutcome, Captured, ProductionResult}
use homez.ScrapeQueue.Records.{Task, Attempt, Activation, Db, Repository, get_task, get_activation}
use homez.ScrapeQueue.Lease.{held_by, agrees, is_active, put_task, put_attempt}
use homez.ScrapeQueue.Accepted.{Accepted}
use homez.ScrapeQueue.Invariant.{task_id, get_task-id, get_task-put}
use homez.ScrapeQueue.Budget.Limits.{portal_eq→≡}
use homez.ScrapeQueue.Completion.Checks.{Encoding, Checked}
use homez.ScrapeQueue.Completion.{
  Drawn, capture_of, result_of, result_key, result_collides, store_capture, store_diagnostic,
  candidate_rows, field_rows, store_result, completed_task, two_years_on,
}
use homez.ScrapeQueue.Outcome.{
  Joined, join_task, joined, is_served, is_pointed, is_readable, readable_rows, finished_later,
  ends_later,
}
use homez.Parsers.Releases.{Release, Audit}

join_task-++ :
    (r : ProductionResult) (o : Option Task) (xs ys : List Joined)
    → join_task r o (xs ++ ys) ≡ join_task r o xs ++ ys
join_task-++ r none xs ys = refl
join_task-++ r (some t) xs ys = refl

joined-++ :
    (db : Db) (xs ys : List ProductionResult) → joined db (xs ++ ys) ≡ joined db xs ++ joined db ys
unfolding joined
joined-++ db [] ys = refl
joined-++ db (x ∷ xs) ys =
    rw (joined-++ db xs ys) (join_task-++ x (get_task db x.task_id) (joined db xs) (joined db ys))

joined_same :
    (db db' : Db) (rs : List ProductionResult)
    → All (λ (r : ProductionResult). get_task db' r.task_id ≡ get_task db r.task_id) rs
    → joined db' rs ≡ joined db rs
unfolding joined
joined_same db db' [] h = refl
joined_same db db' (r ∷ rs) h = rw (h.0, joined_same db db' rs h.1) refl

-- The task of a row finished before a time.
abbrev pub is_finished_before : ℕ → Joined → Bool
is_finished_before second j = ends_later (some second) j.task.finished_at

-- What `complete` adds to the tables of results.
pub record Added (x : Encoding) (t : Task) (o : CaptureOutcome) (k : Checked) (id : ℕ)
    (old tables : Captured) : Type 0 where
  pub results : tables.results ≡ old.results ++ (result_of x t o id k.fetched ∷ [])
  pub candidates : tables.candidates ≡ old.candidates ++ candidate_rows id 0 o.result.candidates
  pub fields : tables.fields ≡ old.fields ++ field_rows id k.fields

pub store_result-Added :
    (x : Encoding) (t : Task) (o : CaptureOutcome) (k : Checked) (ids : Drawn)
    (old tables : Captured)
    → store_result x t o k ids old ≡ ok tables
    → Added x t o k ids.result old tables
unfolding store_result store_capture
store_result-Added x t o k ids old tables done =
    let new = result_of x t o ids.result k.fetched in
    let (tables', stored, h1) = >>=-eq-ok (store_capture old (capture_of t o k.fetched)) _ done in
    let (rows, made, h2) = >>=-eq-ok (insert (result_collides new) new tables'.results) _ h1 in
    let (diagnostics, _, h3) =
      >>=-eq-ok (store_diagnostic o ids k.fetched tables'.diagnostics) _ h2 in
    let (captures, _, h0) = >>=-eq-ok (insert _ _ old.captures) _ stored in
    let same : tables' ≡ record old { captures = captures } = sym (ok-injective h0) in
    rw (← ok-injective h3) (record {
      results =
          insert-++ (result_collides new) new tables'.results rows made
          ∙ ap (λ (c : Captured). c.results ++ (new ∷ [])) same;
      candidates =
          ap (λ (c : Captured). c.candidates ++ candidate_rows ids.result 0 o.result.candidates)
            same;
      fields = ap (λ (c : Captured). c.fields ++ field_rows ids.result k.fields) same;
    })

abbrev pub joined_row : Encoding → Task → CaptureOutcome → ℕ → ℕ → ℕ → Joined
joined_row x t o id fetched second = record {
  result = result_of x t o id fetched;
  task = completed_task t second;
}

module _ (releases : List Release) (audits : List Audit) (x : Encoding) (repo : Repository)
    (worker : WorkerIdentity) (lease : ScrapeLease) (o : CaptureOutcome) (db : Db) (t : Task)
    (now : ℕ) (a : Accepted repo db worker lease now t) where
  Accepted-source : t.source ≡ worker.source
  unfolding held_by
  Accepted-source = portal_eq→≡ t.source worker.source (let h = a.held in ground arith)

  bound-is_pointed :
      (active : Option Activation) (id fetched : ℕ)
      → is_active active t ≡ true
      → is_pointed active (result_of x t o id fetched) ≡ true
  unfolding is_active
  bound-is_pointed none id fetched h = absurd (ground arith)
  bound-is_pointed (some p) id fetched h =
      ground (arith, eq_iff t.release_hash p.release_hash, eq_iff p.release_hash t.release_hash)

  Accepted-is_active :
      is_discovery lease.task_class ≡ false → is_active (get_activation db worker.source) t ≡ true
  unfolding agrees
  Accepted-is_active kind = let g = a.agreed in ground arith

  pub Accepted-release_hash : t.release_hash ≡ lease.release_hash
  unfolding agrees
  Accepted-release_hash =
      let g = a.agreed in ground (arith, eq_iff lease.release_hash t.release_hash)

  Accepted-snapshot_id : t.snapshot_id ≡ lease.snapshot_id
  unfolding agrees
  Accepted-snapshot_id = let g = a.agreed in ground arith

  joined_row-is_readable :
      (id fetched second at : ℕ)
      → is_discovery lease.task_class ≡ false
      → is_served (find (λ (r : Release). str_eq r.release_hash lease.release_hash) releases) ≡ true
      → at < two_years_on fetched
      → is_readable releases audits db worker.source lease.snapshot_id at
          (joined_row x t o id fetched second)
        ≡ true
  unfolding is_readable
  joined_row-is_readable id fetched second at kind served fresh =
      let pointed =
        bound-is_pointed (get_activation db worker.source) id fetched (Accepted-is_active kind) in
      rw (Accepted-source, Accepted-snapshot_id, Accepted-release_hash, served)
        (rw (← Accepted-release_hash) (ground arith))

  module _ (k : Checked) (id second at : ℕ) (attempt : Attempt) (tables : Captured)
      (made : Added x t o k id db.captured tables)
      (absent : find (result_key lease.task_id) db.captured.results ≡ none) where
    -- the store after the completion
    abbrev pub after : Db
    after = record (put_attempt attempt (put_task (completed_task t second) db)) {
      captured = tables;
    }

    own_id : t.id ≡ lease.task_id
    own_id = get_task-id db lease.task_id a.found

    others_same :
        (r : ProductionResult)
        → (r.task_id == lease.task_id) ≡ false
        → get_task after r.task_id ≡ get_task db r.task_id
    unfolding get_task
    others_same r other =
        find-replace_ne task_id t.id r.task_id (completed_task t second) db.tasks refl
          (rw own_id other)

    joined-after :
        joined after tables.results
        ≡ joined db db.captured.results ++ (joined_row x t o id k.fetched second ∷ [])
    unfolding joined
    joined-after =
        let new = result_of x t o id k.fetched in
        let old = joined_same db after db.captured.results (
          All-map _ _ db.captured.results others_same
            (find-missed (result_key lease.task_id) db.captured.results absent)) in
        let found : get_task after t.id ≡ some (completed_task t second) =
          unfold get_task in
          get_task-put db t (completed_task t second) db.attempts refl
            (subst (λ n. get_task db n ≡ some t) (sym own_id) a.found) in
        ap (joined after) made.results
        ∙ joined-++ after db.captured.results (new ∷ [])
        ∙ rw (old, found) refl

    readable_rows-after :
        is_readable releases audits db worker.source lease.snapshot_id at
            (joined_row x t o id k.fetched second)
          ≡ true
        → readable_rows releases audits after worker.source lease.snapshot_id at
          ≡ readable_rows releases audits db worker.source lease.snapshot_id at
            ++ (joined_row x t o id k.fetched second ∷ [])
    unfolding readable_rows is_readable get_activation
    readable_rows-after reads =
        let p = is_readable releases audits db worker.source lease.snapshot_id at in
        ap (where_rows p) joined-after
        ∙ where_rows-++ p (joined db db.captured.results)
            (joined_row x t o id k.fetched second ∷ [])
        ∙ ap (λ rows. where_rows p (joined db db.captured.results) ++ rows)
            (where_rows-All_hold p (joined_row x t o id k.fetched second ∷ []) (reads, tt))

    -- The row of the completed task is the one that `outcome` reads.
    pub first-after :
        is_discovery lease.task_class ≡ false
        → is_served (find (λ (r : Release). str_eq r.release_hash lease.release_hash) releases)
          ≡ true
        → at < two_years_on k.fetched
        → All
            (λ (j : Joined). is_finished_before second j ≡ true)
            (readable_rows releases audits db worker.source lease.snapshot_id at)
        → first finished_later
            (readable_rows releases audits after worker.source lease.snapshot_id at)
          ≡ some (joined_row x t o id k.fetched second)
    first-after kind served fresh older =
        rw (readable_rows-after (joined_row-is_readable id k.fetched second at kind served fresh)) (
          first-++ finished_later
            (readable_rows releases audits db worker.source lease.snapshot_id at)
            (joined_row x t o id k.fetched second) older)
