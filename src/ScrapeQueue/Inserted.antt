-- ===== src/ScrapeQueue/Inserted.antt =====
-- What `enqueue` of scrape_queue/repository.py does to the tasks, and that it is idempotent.
use homez.Prelude.{
  ℕ, ◌≡◌, refl, subst, true, false, String, List, none, some, Result, ok, err, >>=-eq-ok,
  ok-injective, find, insert, find-insert_new, All-insert, Unique-insert_by, Option-cases, inl, inr,
  arith, commit_keeps, commit-eq-ok, Datetime, aware, require_aware,
}
use homez.Prelude.TextKeys.{str_eq_self, find-insert_old}
use homez.ScrapeQueue.Contracts.{
  QueuePolicy, TaskClass, live, artifact_recovery, network_recovery, discovery_capture,
}
use homez.ScrapeQueue.Records.{
  Task, Db, task_key, get_task, get_activation, is_running, is_terminal,
}
use homez.ScrapeQueue.Invariant.{TaskOk, DbOk, task_id}
use homez.ScrapeQueue.Invariant.Finish.{idle-TaskOk}
use homez.ScrapeQueue.Insertion.{
  Catalog, Texts, Request, Listing, Selected, first_state, has_request_key, new_task, collides,
  add_task, store_task, select_release, find_listing, check_identity, identity_key, insert_task,
  enqueue_task,
}

-- A new task is not leased, and waits or is held.
new_task-TaskOk :
    (policy : QueuePolicy) (r : Request) (canonical : String) (s : Selected) (key : String)
    (id now : ℕ)
    → TaskOk policy (new_task r canonical s key id now)
new_task-TaskOk policy r canonical s key id now =
    idle-TaskOk policy _ (idle r.task_class) refl refl refl refl (omega arith)
      (λ e. absurd (going r.task_class e))
  where
    idle : (c : TaskClass) → is_running (first_state c) ≡ false
    idle live = refl
    idle artifact_recovery = refl
    idle network_recovery = refl
    idle discovery_capture = refl

    going : (c : TaskClass) → is_terminal (first_state c) ≡ true → ⊥
    going live e = cc
    going artifact_recovery e = cc
    going network_recovery e = cc
    going discovery_capture e = cc

-- What an insertion that committed did: it answered with a task that was there, or added one.
data Inserted (new : Task) (db : Db) : ℕ × Db → Type 0 where
  found :
      (t : Task)
      → find (has_request_key new.idempotency_key) db.tasks ≡ some t
      → Inserted new db (t.id, db)
  added :
      (tasks : List Task)
      → find (has_request_key new.idempotency_key) db.tasks ≡ none
      → insert (collides new) new db.tasks ≡ ok tasks
      → Inserted new db (new.id, record db { tasks = tasks })

store_task-Inserted :
    (new : Task) (db : Db) {out : ℕ × Db}
    → store_task new db (find (has_request_key new.idempotency_key) db.tasks) ≡ ok out
    → Inserted new db out
unfolding store_task
store_task-Inserted new db {out} done =
    elim (Option-cases (find (has_request_key new.idempotency_key) db.tasks)) [
      | inr (t, e) ↦ subst (Inserted new db) (ok-injective (rw (store_task, e) at done)) (found t e)
      | inl e ↦ by_rows (insert (collides new) new db.tasks) refl (rw (store_task, e) at done) e
    ]
  where
    by_rows :
        (rows : Result (List Task))
        → insert (collides new) new db.tasks ≡ rows
        → add_task new db rows ≡ ok out
        → find (has_request_key new.idempotency_key) db.tasks ≡ none
        → Inserted new db out
    by_rows (ok tasks) e made absent =
        subst (Inserted new db) (ok-injective made) (added tasks absent e)
    by_rows (err x) e made absent = absurd (cc)

-- What is left of an `enqueue` that committed.
record Enqueued (catalog : Catalog) (x : Texts) (r : Request) (id : ℕ) (db : Db) (out : ℕ × Db)
    : Type 0 where
  now : ℕ
  selected : Selected
  listing : Listing
  canonical : String
  bound : select_release catalog r db ≡ ok selected
  listed : find_listing catalog r ≡ ok listing
  checked : check_identity r listing (x.validate r.source listing.canonical_url) ≡ ok canonical
  inserted :
      Inserted (new_task r canonical selected (identity_key x r canonical selected) id now) db out

insert_task-Enqueued :
    (catalog : Catalog) (x : Texts) (r : Request) (id : ℕ) (supplied : Datetime) (db : Db)
    {out : ℕ × Db}
    → insert_task catalog x r id supplied db ≡ ok out
    → Enqueued catalog x r id db out
unfolding insert_task
insert_task-Enqueued catalog x r id supplied db {out} done =
    let (now, _, h1) = >>=-eq-ok (require_aware supplied) _ done in
    let (s, bound, h2) = >>=-eq-ok (select_release catalog r db) _ h1 in
    let (l, listed, h3) = >>=-eq-ok (find_listing catalog r) _ h2 in
    let (c, checked, h4) =
      >>=-eq-ok (check_identity r l (x.validate r.source l.canonical_url)) _ h3 in
    record {
      now = now;
      selected = s;
      listing = l;
      canonical = c;
      bound = bound;
      listed = listed;
      checked = checked;
      inserted = store_task-Inserted (new_task r c s (identity_key x r c s) id now) db h4;
    }

Inserted-DbOk :
    (policy : QueuePolicy) (new : Task) (db : Db) {out : ℕ × Db}
    → TaskOk policy new
    → Inserted new db out
    → DbOk policy db
    → DbOk policy out.1
Inserted-DbOk policy new db good (found t e) h = h
Inserted-DbOk policy new db good (added tasks absent made) h = record {
  unique =
      Unique-insert_by task_id (collides new) new db.tasks tasks (λ z miss. ground arith) made
        h.unique;
  rows = All-insert (TaskOk policy) (collides new) new db.tasks tasks made good h.rows;
}

pub enqueue_task-DbOk :
    (policy : QueuePolicy) (catalog : Catalog) (x : Texts) (r : Request) (id : ℕ) (now : Datetime)
    (db : Db)
    → DbOk policy db
    → DbOk policy (enqueue_task catalog x r id now db).1
unfolding enqueue_task
enqueue_task-DbOk policy catalog x r id now db h =
    commit_keeps (DbOk policy) (insert_task catalog x r id now db) db h (λ out done.
      let e = insert_task-Enqueued catalog x r id now db {out = out} done in
      Inserted-DbOk policy _ db
        (new_task-TaskOk policy r e.canonical e.selected (identity_key x r e.canonical e.selected)
          id e.now)
        e.inserted h)

-- A task that is there is found again.
Inserted-get_task :
    (n : ℕ) (t new : Task) (db : Db) {out : ℕ × Db}
    → get_task db n ≡ some t
    → Inserted new db out
    → get_task out.1 n ≡ some t
unfolding get_task
Inserted-get_task n t new db h (found u e) = h
Inserted-get_task n t new db h (added tasks absent made) =
    find-insert_old (collides new) (task_key n) new db.tasks tasks h made

pub enqueue_task-get_task :
    (n : ℕ) (t : Task) (catalog : Catalog) (x : Texts) (r : Request) (id : ℕ) (now : Datetime)
    (db : Db)
    → get_task db n ≡ some t
    → get_task (enqueue_task catalog x r id now db).1 n ≡ some t
unfolding enqueue_task
enqueue_task-get_task n t catalog x r id now db h =
    commit_keeps (λ s. get_task s n ≡ some t) (insert_task catalog x r id now db) db h
      (λ out done.
        Inserted-get_task n t _ db h
          (insert_task-Enqueued catalog x r id now db {out = out} done).inserted)

-- The task of the key is found in the store after the insertion, under the id answered, and the
-- activations are as before.
record Kept (key : String) (db : Db) (out : ℕ × Db) : Type 0 where
  task : Task
  found : find (has_request_key key) out.1.tasks ≡ some task
  id : task.id ≡ out.0
  same : out.1.activations ≡ db.activations

Inserted-Kept :
    (new : Task) (db : Db) {out : ℕ × Db} → Inserted new db out → Kept new.idempotency_key db out
Inserted-Kept new db (found t e) = record { task = t; found = e; id = refl; same = refl }
Inserted-Kept new db (added tasks absent made) = record {
  task = new;
  found =
      find-insert_new (collides new) (has_request_key new.idempotency_key) new db.tasks tasks absent
        made (str_eq_self new.idempotency_key);
  id = refl;
  same = refl;
}

select_release-same :
    (catalog : Catalog) (r : Request) (db db' : Db)
    → db'.activations ≡ db.activations
    → select_release catalog r db' ≡ select_release catalog r db
unfolding select_release get_activation
select_release-same catalog r db db' same = rw same refl

insert_task_again :
    (catalog : Catalog) (x : Texts) (r : Request) (id n id' now' : ℕ) (db db' : Db) (s : Selected)
    (listing : Listing) (canonical : String)
    → select_release catalog r db ≡ ok s
    → find_listing catalog r ≡ ok listing
    → check_identity r listing (x.validate r.source listing.canonical_url) ≡ ok canonical
    → Kept (identity_key x r canonical s) db (n, db')
    → insert_task catalog x r id' (aware now') db' ≡ ok (n, db')
unfolding insert_task store_task
insert_task_again catalog x r id n id' now' db db' s listing canonical bound listed checked k =
    rw (select_release-same catalog r db db' k.same, bound, listed, checked, k.found, k.id) refl

-- A request that `enqueue` accepted is accepted again, at any later time and whatever id is drawn,
-- with the same id, and the second call leaves the store as it was.
pub enqueue_task_again :
    (catalog : Catalog) (x : Texts) (r : Request) (id n id' now' : ℕ) (now : Datetime) (db db' : Db)
    → enqueue_task catalog x r id now db ≡ (ok n, db')
    → enqueue_task catalog x r id' (aware now') db' ≡ (ok n, db')
unfolding enqueue_task
enqueue_task_again catalog x r id n id' now' now db db' done =
    let e =
      insert_task-Enqueued catalog x r id now db
        (commit-eq-ok (insert_task catalog x r id now db) db db' n done) in
    rw
      (insert_task_again catalog x r id n id' now' db db' e.selected e.listing e.canonical e.bound
        e.listed e.checked (Inserted-Kept _ db e.inserted))
      refl
