-- ===== src/Routing/Quota/Reserved.antt =====
-- No more units are reserved than the safety ceiling of routing/quota.py.
use homez.Prelude.{
  ℕ, ◌+◌, ◌≤◌, ◌≡◌, refl, true, false, is_some, List, none, some, Result, ok, err, All, All-replace,
  All-insert, find-All, insert, Option-cases, Bool-cases, inl, inr, ◌==◌, arith,
}
use homez.Routing.Quota.{
  QuotaRow, QuotaLedger, AlertReason, provider_exhausted, QuotaDb, has_quota_key, quota_row,
  put_row, new_row, stored_rows, ensure_record, notify_once, has_room, reserve_units, change_row,
  trip_provider_quota, reset_provider_quota,
}

abbrev pub RowOk : QuotaRow → Type 0
RowOk r = r.reserved_units ≤ r.safety_ceiling

abbrev pub QuotaOk : QuotaDb → Type 0
QuotaOk db = All RowOk db.ledger_rows

pub quota_row-RowOk :
    (q : QuotaLedger) (db : QuotaDb) {r : QuotaRow} → QuotaOk db → quota_row q db ≡ some r → RowOk r
unfolding quota_row
quota_row-RowOk q db h found = find-All RowOk (has_quota_key q) db.ledger_rows h found

put_row-QuotaOk :
    (q : QuotaLedger) (r : QuotaRow) (db : QuotaDb)
    → RowOk r
    → QuotaOk db
    → QuotaOk (put_row q r db)
put_row-QuotaOk q r db good h = All-replace RowOk (has_quota_key q) r db.ledger_rows good h

notify_once-QuotaOk :
    (q : QuotaLedger) (reason : AlertReason) (now : ℕ) (db : QuotaDb)
    → QuotaOk db
    → QuotaOk (notify_once q reason now db)
unfolding notify_once
notify_once-QuotaOk q reason now db h = elim (Option-cases (quota_row q db)) [
  | inl missing ↦ rw missing h
  | inr (r, found) ↦ elim (Bool-cases (is_some r.last_alert_at)) [
    | inl sent ↦ rw (found, sent) h
    | inr unsent ↦
        rw (found, unsent)
          (put_row-QuotaOk q (record r { last_alert_at = some now }) db
            (quota_row-RowOk q db h found) h)
  ]
]

reserve_units-QuotaOk :
    (q : QuotaLedger) (units now : ℕ) (db : QuotaDb)
    → QuotaOk db
    → QuotaOk (reserve_units q units now db).1
unfolding reserve_units
reserve_units-QuotaOk q units now db h = elim (Bool-cases (units == 0)) [
  | inl zero ↦ rw zero h
  | inr some_units ↦ elim (Option-cases (quota_row q db)) [
    | inl missing ↦ rw (some_units, missing) h
    | inr (r, found) ↦ elim (Bool-cases (has_room r units)) [
      | inl room ↦
          let fits : r.reserved_units + units ≤ r.safety_ceiling = ground arith in
          rw (some_units, found, room)
            (put_row-QuotaOk q (record r { reserved_units = r.reserved_units + units }) db fits h)
      | inr full ↦ rw (some_units, found, full) (notify_once-QuotaOk q _ now db h)
    ]
  ]
]

change_row-QuotaOk :
    (q : QuotaLedger) (change : QuotaRow → QuotaRow) (db : QuotaDb)
    → ((r : QuotaRow) → RowOk r → RowOk (change r))
    → QuotaOk db
    → QuotaOk (change_row q change (quota_row q db) db)
change_row-QuotaOk q change db keeps h = elim (Option-cases (quota_row q db)) [
  | inl missing ↦ rw missing h
  | inr (r, found) ↦
      rw found (put_row-QuotaOk q (change r) db (keeps r (quota_row-RowOk q db h found)) h)
]

insert-cases :
    (q : QuotaLedger) (db : QuotaDb) (made : Result (List QuotaRow))
    → insert (has_quota_key q) (new_row q) db.ledger_rows ≡ made
    → QuotaOk db
    → QuotaOk (stored_rows made db)
insert-cases q db (ok rows) added h =
    All-insert RowOk (has_quota_key q) (new_row q) db.ledger_rows rows added (omega arith) h
insert-cases q db (err e) added h = h

ensure_record-QuotaOk : (q : QuotaLedger) (db : QuotaDb) → QuotaOk db → QuotaOk (ensure_record q db)
unfolding ensure_record
ensure_record-QuotaOk q db h = elim (Option-cases (quota_row q db)) [
  | inr (r, found) ↦ rw found h
  | inl missing ↦
      rw missing (insert-cases q db (insert (has_quota_key q) (new_row q) db.ledger_rows) refl h)
]

-- One operation, of any ledger.
pub data QuotaStep : QuotaDb → QuotaDb → Type 0 where
  ensures : (q : QuotaLedger) (db : QuotaDb) → QuotaStep db (ensure_record q db)
  reserves :
      (q : QuotaLedger) (units now : ℕ) (db : QuotaDb)
      → QuotaStep db (reserve_units q units now db).1
  trips : (q : QuotaLedger) (now : ℕ) (db : QuotaDb) → QuotaStep db (trip_provider_quota q now db)
  resets : (q : QuotaLedger) (db : QuotaDb) → QuotaStep db (reset_provider_quota q db)

pub data QuotaReach (start : QuotaDb) : QuotaDb → Type 0 where
  here : QuotaReach start start
  next : {db db' : QuotaDb} → QuotaReach start db → QuotaStep db db' → QuotaReach start db'

QuotaStep-QuotaOk : {db db' : QuotaDb} → QuotaStep db db' → QuotaOk db → QuotaOk db'
unfolding trip_provider_quota reset_provider_quota
QuotaStep-QuotaOk (ensures q db) h = ensure_record-QuotaOk q db h
QuotaStep-QuotaOk (reserves q units now db) h = reserve_units-QuotaOk q units now db h
QuotaStep-QuotaOk (trips q now db) h =
    notify_once-QuotaOk q provider_exhausted now _
      (change_row-QuotaOk q (λ r. record r { provider_blocked = true }) db (λ r good. good) h)
QuotaStep-QuotaOk (resets q db) h =
    change_row-QuotaOk q (λ r. record r { provider_blocked = false; last_alert_at = none }) db
      (λ r good. good) h

-- From a table in which no ledger has more units reserved than its safety ceiling, every table that
-- the operations reach in any order is one: whatever is tripped, reset or asked for, the ceiling
-- holds.
pub QuotaReach-QuotaOk : {start db : QuotaDb} → QuotaOk start → QuotaReach start db → QuotaOk db
QuotaReach-QuotaOk h here = h
QuotaReach-QuotaOk h (next r s) = QuotaStep-QuotaOk s (QuotaReach-QuotaOk h r)
