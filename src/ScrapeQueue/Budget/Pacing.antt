-- ===== src/ScrapeQueue/Budget/Pacing.antt =====
-- The interval between the starts of a portal's requests in scrape_queue/budget.py.
use homez.Prelude.{
  ℕ, ◌+◌, ◌≤◌, ◌<◌, ◌≡◌, refl, sym, ◌∙◌, ap, subst, true, false, some, ok, value_error, >>=-eq-ok,
  guard, ok-injective, find, find-holds, find-insert, find-replace, insert, Option-cases,
  Bool-cases, inl, inr, leb, ltb, arith, Datetime, commit-eq-ok, lt→ltb,
}
use homez.ScrapeQueue.Contracts.{Portal, WorkerIdentity, ScrapeLease}
use homez.ScrapeQueue.Records.{Task, Attempt}
use homez.ScrapeQueue.Budget.Records.{
  SourceState, SourceBudgetPolicy, NetworkPermit, BudgetDb, BudgetRepository, policy_of, state_key,
  put_state, fresh_state, roll_over, locked_source_state,
}
use homez.ScrapeQueue.Budget.Permits.{
  validate_lease, is_unassigned, available_from, is_refused, choose_route, started_state, start,
  reserve, reserve_start,
}
use homez.ScrapeQueue.Budget.Limits.{portal_eq→≡}
use homez.ScrapeQueue.Budget.Frames.{portal_eq_refl, choose_route-Same}

key_same : (source : Portal) (s : SourceState) → s.source ≡ source → state_key source s ≡ true
key_same source s own = rw own (portal_eq_refl source)

roll_over-next_start_at :
    (p : SourceBudgetPolicy) (now : ℕ) (s : SourceState)
    → ((roll_over p now s).next_start_at ≡ s.next_start_at)
      × ((roll_over p now s).source ≡ s.source)
unfolding roll_over
roll_over-next_start_at p now s = (ground arith, ground arith)

put_state-find :
    (source : Portal) (old new : SourceState) (db : BudgetDb)
    → new.source ≡ source
    → find (state_key source) db.states ≡ some old
    → find (state_key source) (put_state new db).states ≡ some new
put_state-find source old new db own found =
    find-replace (state_key new.source) (state_key source) new db.states {x = old}
      (subst (λ of. find (state_key of) db.states ≡ some old) (sym own) found)
      (key_same source new own) (λ z e. subst (λ of. state_key of z ≡ false) own e)

-- the row that `_locked_source_state` returned is the portal's row in its store
record Owned (of : Portal) (out : SourceState × BudgetDb) : Type 0 where
  source : out.0.source ≡ of
  found : find (state_key of) out.1.states ≡ some out.0

locked_source_state-Owned :
    (source : Portal) (p : SourceBudgetPolicy) (now : ℕ) (db : BudgetDb)
    {out : SourceState × BudgetDb}
    → locked_source_state source p now db ≡ ok out
    → Owned source out
unfolding locked_source_state
locked_source_state-Owned source p now db done =
    elim (Option-cases (find (state_key source) db.states)) [
      | inl empty ↦
          let (states, added, made) =
            >>=-eq-ok (insert (state_key source) (fresh_state source p now) db.states) _
              (rw (locked_source_state, empty) at done) in
          subst (Owned source) (ok-injective made) (record {
            source = refl;
            found =
                find-insert (state_key source) (state_key source) (fresh_state source p now)
                  db.states states added (portal_eq_refl source) (λ z e. e);
          })
      | inr (s, found) ↦
          let own : s.source ≡ source =
            portal_eq→≡ s.source source (find-holds (state_key source) db.states found) in
          let own' : (roll_over p now s).source ≡ source =
            (roll_over-next_start_at p now s).1 ∙ own in
          subst (Owned source) (ok-injective (rw (locked_source_state, found) at done)) (record {
            source = own';
            found = put_state-find source s (roll_over p now s) db own' found;
          })
    ]

-- A start that is granted writes the time of the next one.
start-paces :
    (repo : BudgetRepository) (p : SourceBudgetPolicy) (source : Portal) (t : Task) (a : Attempt)
    (bytes now : ℕ) (db : BudgetDb) {out : NetworkPermit × BudgetDb}
    → start repo p source t a bytes now db ≡ ok out
    → out.0.granted ≡ true
    → (s : SourceState) × (find (state_key source) out.1.states ≡ some s)
      × (s.next_start_at ≡ some (now + p.minimum_interval))
unfolding start
start-paces repo p source t a bytes now db {out} done granted =
    let ((s, db1), locked, rest) = >>=-eq-ok (locked_source_state source p now db) _ done in
    let o = locked_source_state-Owned source p now db locked in
    elim (Bool-cases (is_refused p s t now)) [
      | inl refused ↦
          (let same = ok-injective (rw refused at rest) in
            let flag : false ≡ out.0.granted =
              ap (λ (o : NetworkPermit × BudgetDb). o.0.granted) same in
            absurd (cc))
      | inr free ↦
          let ((route, db2), chosen, made) =
            >>=-eq-ok (choose_route repo source t bytes now db1) _ (rw free at rest) in
          let kept = choose_route-Same repo source t bytes now db1 chosen in
          let next = started_state p now s in
          (
            next,
            subst (λ (r : NetworkPermit × BudgetDb). find (state_key source) r.1.states ≡ some next)
                (ok-injective made)
                (put_state-find source s next db2 o.source (rw kept.states o.found)),
            refl,
          )
    ]

-- `reserve` of an attempt without a route is `start`.
reserve-start :
    (repo : BudgetRepository) (worker : WorkerIdentity) (lease : ScrapeLease) (bytes now : ℕ)
    (p : SourceBudgetPolicy) (t : Task) (a : Attempt) (db : BudgetDb)
    {out : NetworkPermit × BudgetDb}
    → policy_of repo worker.source ≡ ok p
    → validate_lease db.queue worker lease now ≡ ok (t, a)
    → is_unassigned a.route_class ≡ true
    → reserve repo worker lease (Datetime.aware now) bytes db ≡ ok out
    → start repo p worker.source t a bytes now db ≡ ok out
unfolding reserve
reserve-start repo worker lease bytes now p t a db known valid new done =
    let (_, _, h1) = >>=-eq-ok (guard (leb bytes 2000000) value_error) _ done in
    rw (known, valid, new) at h1

available_late :
    (s : SourceState) (t : Task) (now at : ℕ)
    → s.next_start_at ≡ some at
    → at ≤ available_from s t now
unfolding available_from
available_late s t now at next = rw next (omega arith)

refused_late :
    (p : SourceBudgetPolicy) (s : SourceState) (t : Task) (now : ℕ)
    → now < available_from s t now
    → is_refused p s t now ≡ true
unfolding is_refused
refused_late p s t now late = rw (lt→ltb now (available_from s t now) late) refl

-- Before that time a new start of the portal is refused.
start_early :
    (repo : BudgetRepository) (p : SourceBudgetPolicy) (source : Portal) (t : Task) (a : Attempt)
    (bytes now at : ℕ) (s : SourceState) (db : BudgetDb) {out : NetworkPermit × BudgetDb}
    → find (state_key source) db.states ≡ some s
    → s.next_start_at ≡ some at
    → now < at
    → start repo p source t a bytes now db ≡ ok out
    → (out.0.granted ≡ false) × (at ≤ out.0.available_at)
unfolding start locked_source_state
start_early repo p source t a bytes now at s db {out} found next early done =
    let s' = roll_over p now s in
    let time : s'.next_start_at ≡ some at = (roll_over-next_start_at p now s).0 ∙ next in
    let late = available_late s' t now at time in
    let refused : is_refused p s' t now ≡ true =
      refused_late p s' t now (omega (arith, early, late)) in
    let test : ltb now (available_from s' t now) ≡ true =
      lt→ltb now (available_from s' t now) (omega (arith, early, late)) in
    let same = ok-injective (rw (start, locked_source_state, found, refused, test) at done) in
    subst (λ (o : NetworkPermit × BudgetDb). (o.0.granted ≡ false) × (at ≤ o.0.available_at)) same
      (refl, late)

-- Between two attempts of a portal lies its interval: after a start that `reserve_start` granted,
-- the next call for an attempt without a route, by any worker of the portal and before the
-- interval is over, is not granted, and names a time after the interval.
pub reserve_start-paces :
    (repo : BudgetRepository) (worker worker' : WorkerIdentity) (lease lease' : ScrapeLease)
    (bytes bytes' now now' : ℕ) (p : SourceBudgetPolicy) (t t' : Task) (a a' : Attempt)
    (permit permit' : NetworkPermit) (db db' db'' : BudgetDb)
    → worker'.source ≡ worker.source
    → policy_of repo worker.source ≡ ok p
    → validate_lease db.queue worker lease now ≡ ok (t, a)
    → is_unassigned a.route_class ≡ true
    → reserve_start repo worker lease (Datetime.aware now) bytes db ≡ (ok permit, db')
    → permit.granted ≡ true
    → validate_lease db'.queue worker' lease' now' ≡ ok (t', a')
    → is_unassigned a'.route_class ≡ true
    → now' < now + p.minimum_interval
    → reserve_start repo worker' lease' (Datetime.aware now') bytes' db' ≡ (ok permit', db'')
    → (permit'.granted ≡ false) × (now + p.minimum_interval ≤ permit'.available_at)
unfolding reserve_start
reserve_start-paces repo worker worker' lease lease' bytes bytes' now now' p t t' a a' permit
      permit' db db' db'' same known valid new done granted valid' new' early done' =
    let made =
      reserve-start repo worker lease bytes now p t a db known valid new (
        commit-eq-ok (reserve repo worker lease (Datetime.aware now) bytes db) db db' permit
          done) in
    let (s, found, next) = start-paces repo p worker.source t a bytes now db made granted in
    let made' =
      reserve-start repo worker' lease' bytes' now' p t' a' db' (rw same known) valid' new' (
        commit-eq-ok (reserve repo worker' lease' (Datetime.aware now') bytes' db') db' db'' permit'
          done') in
    start_early repo p worker.source t' a' bytes' now' (now + p.minimum_interval) s db' found next
      early (subst (λ of. start repo p of t' a' bytes' now' db' ≡ ok (permit', db'')) same made')
