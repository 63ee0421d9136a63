-- ===== src/Workflow/Kept.antt =====
-- What the operations of workflow/repository.py do with the row of a job that has ended.
use homez.Prelude.{
  ℕ, ◌≡◌, refl, sym, ◌∙◌, ap, subst, Bool, true, false, List, [], ◌∷◌, String, Option, none, some,
  is_some, ok, >>=-eq-ok, ok-injective, All, All-map, Unique-Owns, Owns, find-replace_ne, insert,
  where_rows, where_rows-All, first-All, Option-cases, Bool-cases, inl, inr, arith, ==_iff, ◌==◌,
  str_eq, ◌&&◌,
}
use homez.Workflow.Jobs.{
  JobState, Job, JobAttempt, JobDb, JobRequest, ClaimedJob, job_key, job_attempt_key, get_job,
  get_job_attempt, find_job, put_job, new_job, add_job, is_due, job_before, next_job, taken,
  taken_attempt, take_job,
}
use homez.Prelude.TextKeys.{find-insert_old}
use homez.Prelude.Chars.{take_chars}
use homez.Workflow.Leases.{
  leased_job, is_held, needs_attempt, finished_job, end_job, lose_job, failed_job, failed_state,
  job_retry_delay, deferred_job, put_off, is_lost, reaped_job, mark_lost, reap_job, reap_jobs,
  reap_lost,
}
use homez.Workflow.Invariant.{is_ended, job_id, JobsOk}
use homez.Workflow.Acknowledged.{get_job-id}

held-live : (c : ClaimedJob) (v : Job) → is_held c v ≡ true → is_ended v.state ≡ false
unfolding is_held
held-live c v held = ground arith

due-live :
    (locked : ℕ → Bool) (now : ℕ) (v : Job) → is_due locked now v ≡ true → is_ended v.state ≡ false
unfolding is_due
due-live locked now v due = ground arith

lost-live : (now : ℕ) (v : Job) → is_lost now v ≡ true → is_ended v.state ≡ false
unfolding is_lost
lost-live now v lost = ground arith

module _ (n : ℕ) (j : Job) (ended : is_ended j.state ≡ true) where
  abbrev pub Keeps : JobDb → Type 0
  Keeps db = get_job db n ≡ some j

  put_job_ne : (new : Job) (db : JobDb) → (new.id == n) ≡ false → Keeps db → Keeps (put_job new db)
  unfolding get_job
  put_job_ne new db other h =
      let apart : (n == new.id) ≡ false = ground arith in
      find-replace_ne job_id new.id n new db.jobs refl apart ∙ h

  -- A row that has not ended is another one.
  live_ne :
      (u : Job) (m : ℕ) (db : JobDb)
      → get_job db m ≡ some u
      → is_ended u.state ≡ false
      → Keeps db
      → (u.id == n) ≡ false
  live_ne u m db found live h = elim (Bool-cases (u.id == n)) [
    | inr other ↦ other
    | inl same ↦
        let own : u.id ≡ n = (==_iff u.id n).0 same in
        let key : m ≡ n = sym (get_job-id db m found) ∙ own in
        let row : get_job db n ≡ some u = subst (λ (k : ℕ). get_job db k ≡ some u) key found in
        let both : u ≡ j = ground arith in absurd (ground arith)
  ]

  leased-live :
      (db : JobDb) (c : ClaimedJob) {u : Job}
      → leased_job db c ≡ ok u
      → (get_job db c.id ≡ some u) × (is_ended u.state ≡ false)
  unfolding leased_job
  leased-live db c {u} done = elim (Option-cases (get_job db c.id)) [
    | inl missing ↦ absurd (let e = rw (leased_job, missing) at done in cc)
    | inr (v, found) ↦ elim (Bool-cases (is_held c v)) [
      | inl held ↦
          let same : v ≡ u = ok-injective (rw (leased_job, found, held) at done) in
          let live : is_ended v.state ≡ false = held-live c v held in
          (found ∙ ap some same, subst (λ (w : Job). is_ended w.state ≡ false) same live)
      | inr other ↦ absurd (let e = rw (leased_job, found, other) at done in cc)
    ]
  ]

  -- An acknowledgement writes only the row of its lease.
  put_leased :
      (db : JobDb) (c : ClaimedJob) {u : Job} (new : Job)
      → leased_job db c ≡ ok u
      → new.id ≡ u.id
      → Keeps db
      → Keeps (put_job new db)
  put_leased db c {u} new held same h =
      let row = leased-live db c held in
      let other : (u.id == n) ≡ false = live_ne u c.id db row.0 row.1 h in
      put_job_ne new db (subst (λ (k : ℕ). (k == n) ≡ false) (sym same) other) h

  pub end_job-Keeps :
      (c : ClaimedJob) (now : ℕ) (db : JobDb) (out : JobState × JobDb)
      → Keeps db
      → end_job db c now ≡ ok out
      → Keeps out.1
  unfolding end_job get_job
  end_job-Keeps c now db out h done =
      let (u, held, h1) = >>=-eq-ok (leased_job db c) _ done in
      let (a, found, made) =
        >>=-eq-ok (needs_attempt (get_job_attempt db u.id u.attempt_count)) _ h1 in
      subst (λ (o : JobState × JobDb). Keeps o.1) (ok-injective made)
        (put_leased db c (finished_job now u) held refl h)

  pub lose_job-Keeps :
      (digest : ℕ → ℕ → ℕ) (c : ClaimedJob) (now : ℕ) (code detail : String)
      (retryable manual : Bool) (db : JobDb) (out : JobState × JobDb)
      → Keeps db
      → lose_job digest db c now code detail retryable manual ≡ ok out
      → Keeps out.1
  unfolding lose_job get_job
  lose_job-Keeps digest c now code detail retryable manual db out h done =
      let (u, held, h1) = >>=-eq-ok (leased_job db c) _ done in
      let (a, found, made) =
        >>=-eq-ok (needs_attempt (get_job_attempt db u.id u.attempt_count)) _ h1 in
      let row =
        failed_job now (job_retry_delay digest u.id u.attempt_count) (take_chars 100 code)
          (take_chars 500 detail) (failed_state u retryable manual) u in
      subst (λ (o : JobState × JobDb). Keeps o.1) (ok-injective made)
        (put_leased db c row held refl h)

  pub put_off-Keeps :
      (c : ClaimedJob) (now at : ℕ) (code detail : String) (db : JobDb) (out : JobState × JobDb)
      → Keeps db
      → put_off db c now at code detail ≡ ok out
      → Keeps out.1
  unfolding put_off get_job
  put_off-Keeps c now at code detail db out h done =
      let (u, held, h1) = >>=-eq-ok (leased_job db c) _ done in
      let (a, found, made) =
        >>=-eq-ok (needs_attempt (get_job_attempt db u.id u.attempt_count)) _ h1 in
      let row = deferred_job now at (take_chars 100 code) (take_chars 500 detail) u in
      subst (λ (o : JobState × JobDb). Keeps o.1) (ok-injective made)
        (put_leased db c row held refl h)

  pub add_job-Keeps :
      (r : JobRequest) (id now : ℕ) (db : JobDb) (out : ℕ × JobDb)
      → Keeps db
      → add_job r id now db ≡ ok out
      → Keeps out.1
  unfolding add_job get_job
  add_job-Keeps r id now db out h done = elim (Option-cases (find_job db r.idempotency_key)) [
    | inl new ↦
        let (rows, added, made) =
          >>=-eq-ok (insert (job_key id) (new_job r id now) db.jobs) _
            (rw (add_job, new) at done) in
        subst (λ (o : ℕ × JobDb). Keeps o.1) (ok-injective made)
          (find-insert_old (job_key id) (job_key n) (new_job r id now) db.jobs rows h added)
    | inr (v, old) ↦ elim (Bool-cases (str_eq v.kind r.kind && str_eq v.payload_json r.payload)) [
      | inl same ↦
          subst (λ (o : ℕ × JobDb). Keeps o.1) (ok-injective (rw (add_job, old, same) at done)) h
      | inr other ↦ absurd (let e = rw (add_job, old, other) at done in cc)
    ]
  ]

  pub take_job-Keeps :
      (worker : String) (token now lease_for : ℕ) (o : Option Job) (db : JobDb)
      (out : Option ClaimedJob × JobDb)
      → ((u : Job) → o ≡ some u → (u.id == n) ≡ false)
      → Keeps db
      → take_job worker token now lease_for o db ≡ ok out
      → Keeps out.1
  unfolding get_job
  take_job-Keeps worker token now lease_for none db out other h done =
      subst (λ (o : Option ClaimedJob × JobDb). Keeps o.1) (ok-injective done) h
  take_job-Keeps worker token now lease_for (some u) db out other h done =
      let row = taken worker token now lease_for u in
      let (rows, added, made) =
        >>=-eq-ok
          (insert (job_attempt_key row.id row.attempt_count) (taken_attempt worker token now row)
            db.job_attempts)
          _ done in
      subst (λ (o : Option ClaimedJob × JobDb). Keeps o.1) (ok-injective made)
        (put_job_ne row db (other u refl) h)

  -- The row that a claim selects is another one.
  pub next_job_ne :
      (locked : ℕ → Bool) (now : ℕ) (db : JobDb)
      → JobsOk db
      → Keeps db
      → (u : Job) → next_job locked now db ≡ some u
      → (u.id == n) ≡ false
  unfolding next_job get_job
  next_job_ne locked now db ok_db h u e =
      let p = is_due locked now in
      let P = Owns job_id db.jobs in
      let both =
        first-All (λ (v : Job). P v × (p v ≡ true)) job_before (where_rows p db.jobs)
          (where_rows-All P p db.jobs (Unique-Owns job_id db.jobs ok_db.unique)) e in
      live_ne u u.id db both.0 (due-live locked now u both.1) h

  mark_lost-Keeps :
      (now : ℕ) (a : Option JobAttempt) (db : JobDb) → Keeps db → Keeps (mark_lost now a db)
  unfolding get_job
  mark_lost-Keeps now none db h = h
  mark_lost-Keeps now (some a) db h = elim (Bool-cases (is_some a.finished_at)) [
    | inl done ↦ rw done h
    | inr live ↦ rw live h
  ]

  reap_jobs-Keeps :
      (now : ℕ) (db : JobDb) (us : List Job)
      → All (λ (u : Job). (u.id == n) ≡ false) us
      → Keeps db
      → Keeps (reap_jobs now db us)
  unfolding reap_jobs reap_job
  reap_jobs-Keeps now db [] others h = h
  reap_jobs-Keeps now db (u ∷ us) others h = reap_jobs-Keeps now (reap_job now db u) us others.1 (
      mark_lost-Keeps now (get_job_attempt db u.id u.attempt_count) (put_job (reaped_job now u) db)
        (put_job_ne (reaped_job now u) db others.0 h))

  pub reap_lost-Keeps : (now : ℕ) (db : JobDb) → JobsOk db → Keeps db → Keeps (reap_lost now db).1
  unfolding reap_lost get_job
  reap_lost-Keeps now db ok_db h =
      let p = is_lost now in
      let P = Owns job_id db.jobs in
      reap_jobs-Keeps now db (where_rows p db.jobs)
        (All-map (λ (v : Job). P v × (p v ≡ true)) (λ (v : Job). (v.id == n) ≡ false)
          (where_rows p db.jobs) (λ v both. live_ne v v.id db both.0 (lost-live now v both.1) h)
          (where_rows-All P p db.jobs (Unique-Owns job_id db.jobs ok_db.unique)))
        h
