-- ===== src/Routing/Quota/Alerts.antt =====
-- The alerts of a ledger of routing/quota.py up to its next reset.
use homez.Prelude.{
  ℕ, List, Bool-cases, ◌+◌, ◌≤◌, ◌≡◌, refl, ap, true, false, is_some, ◌∷◌, some, Result, err,
  quota_exhausted, Option-cases, inl, inr, ◌==◌, if◌then◌else◌,
}
use homez.Routing.Quota.{
  QuotaRow, Alert, AlertReason, ensure_record, trip_provider_quota, QuotaLedger, provider_exhausted,
  ceiling_exhausted, QuotaDb, has_quota_key, quota_row, put_row, notify_once, has_room,
  reserve_units,
}
use homez.Routing.Quota.Refusals.{
  put_row-quota_row, quota_row-key, reserved-key, notified-key, refused_silent, noted_db,
  noted-quota_row, refused-alerts,
}

-- What a ledger does until its next reset: any number of calls of its other operations.
pub data LedgerRun (q : QuotaLedger) (start : QuotaDb) : QuotaDb → Type 0 where
  here : LedgerRun q start start
  then_ensures : {db : QuotaDb} → LedgerRun q start db → LedgerRun q start (ensure_record q db)
  then_reserves :
      {db : QuotaDb} (units now : ℕ)
      → LedgerRun q start db
      → LedgerRun q start (reserve_units q units now db).1
  then_trips :
      {db : QuotaDb} (now : ℕ)
      → LedgerRun q start db
      → LedgerRun q start (trip_provider_quota q now db)

-- The ledger has had its alert, and the alerts are these.
record Told (q : QuotaLedger) (alerts : List Alert) (db : QuotaDb) : Type 0 where
  row : QuotaRow
  found : quota_row q db ≡ some row
  told : is_some row.last_alert_at ≡ true
  same : db.alerts ≡ alerts

put_row-Told :
    (q : QuotaLedger) (alerts : List Alert) (old new : QuotaRow) (db : QuotaDb)
    → quota_row q db ≡ some old
    → has_quota_key q new ≡ true
    → is_some new.last_alert_at ≡ true
    → db.alerts ≡ alerts
    → Told q alerts (put_row q new db)
put_row-Told q alerts old new db found own told same = record {
  row = new;
  found = put_row-quota_row q old new db found own;
  told = told;
  same = same;
}

notify_once-Told :
    (q : QuotaLedger) (alerts : List Alert) (reason : AlertReason) (now : ℕ) (db : QuotaDb)
    → Told q alerts db
    → notify_once q reason now db ≡ db
unfolding notify_once
notify_once-Told q alerts reason now db t = let told = t.told in rw (t.found, told) refl

blocked-key :
    (q : QuotaLedger) (r : QuotaRow)
    → has_quota_key q r ≡ true
    → has_quota_key q (record r { provider_blocked = true }) ≡ true
unfolding has_quota_key
blocked-key q r h = h

reserve_units-Told :
    (q : QuotaLedger) (alerts : List Alert) (units now : ℕ) (db : QuotaDb)
    → Told q alerts db
    → Told q alerts (reserve_units q units now db).1
unfolding reserve_units
reserve_units-Told q alerts units now db t = elim (Bool-cases (units == 0)) [
  | inl zero ↦ rw zero t
  | inr asked ↦ elim (Bool-cases (has_room t.row units)) [
    | inl room ↦
        rw (asked, t.found, room)
          (put_row-Told q alerts t.row
            (record t.row { reserved_units = t.row.reserved_units + units }) db t.found
            (reserved-key q t.row units (quota_row-key q db t.found)) t.told t.same)
    | inr full ↦
        rw (asked, t.found, full)
          (rw
            (notify_once-Told q alerts
              (if t.row.provider_blocked then provider_exhausted else ceiling_exhausted) now db t)
            t)
  ]
]

trip_provider_quota-Told :
    (q : QuotaLedger) (alerts : List Alert) (now : ℕ) (db : QuotaDb)
    → Told q alerts db
    → Told q alerts (trip_provider_quota q now db)
unfolding trip_provider_quota
trip_provider_quota-Told q alerts now db t =
    let blocked =
      put_row-Told q alerts t.row (record t.row { provider_blocked = true }) db t.found
        (blocked-key q t.row (quota_row-key q db t.found)) t.told t.same in
    rw t.found (rw (notify_once-Told q alerts provider_exhausted now _ blocked) blocked)

ensure_record-Told :
    (q : QuotaLedger) (alerts : List Alert) (db : QuotaDb)
    → Told q alerts db
    → Told q alerts (ensure_record q db)
unfolding ensure_record
ensure_record-Told q alerts db t = rw t.found t

LedgerRun-Told :
    (q : QuotaLedger) (alerts : List Alert) {start db : QuotaDb}
    → Told q alerts start
    → LedgerRun q start db
    → Told q alerts db
LedgerRun-Told q alerts t here = t
LedgerRun-Told q alerts t (then_ensures {db} run) =
    ensure_record-Told q alerts db (LedgerRun-Told q alerts t run)
LedgerRun-Told q alerts t (then_reserves {db} units now run) =
    reserve_units-Told q alerts units now db (LedgerRun-Told q alerts t run)
LedgerRun-Told q alerts t (then_trips {db} now run) =
    trip_provider_quota-Told q alerts now db (LedgerRun-Told q alerts t run)

-- A refusal raises, and the ledger alerts once: where it had not alerted since its last reset and
-- an alert function is bound, the refusal sends exactly one alert, with its reason and the units
-- reserved; where it had alerted or none is bound, it sends none. Whatever the ledger does from
-- then on, in any order and up to its next reset, it sends no further alert.
pub reserve_units-alerts_once :
    (q : QuotaLedger) (units now : ℕ) (db db' : QuotaDb) (r : QuotaRow)
    → 1 ≤ units
    → quota_row q db ≡ some r
    → has_room r units ≡ false
    → LedgerRun q (reserve_units q units now db).1 db'
    → ((reserve_units q units now db).0 ≡ err quota_exhausted)
      × (db'.alerts ≡ (
          if is_some r.last_alert_at
          then db.alerts
          else if q.alerted
          then (record {
            reason = if r.provider_blocked then provider_exhausted else ceiling_exhausted;
            reserved = r.reserved_units;
          })
            ∷ db.alerts
          else db.alerts))
reserve_units-alerts_once q units now db db' r positive found full run =
    elim (Option-cases r.last_alert_at) [
      | inr (at, sent) ↦
          let told : is_some r.last_alert_at ≡ true = rw sent refl in
          let same = refused_silent q units now db r positive found full told in
          let t : Told q db.alerts (reserve_units q units now db).1 =
            rw same (record { row = r; found = found; told = told; same = refl }) in
          (
            ap (λ (o : Result (Unit {0}) × QuotaDb). o.0) same,
            rw told (LedgerRun-Told q db.alerts t run).same,
          )
      | inl unsent ↦
          let untold : is_some r.last_alert_at ≡ false = rw unsent refl in
          let same = refused-alerts q units now db r positive found full unsent in
          let noted = record r { last_alert_at = some now } in
          let left =
            put_row-quota_row q r noted db found
              (notified-key q r now (quota_row-key q db found)) in
          let alerts = (noted_db q units now db r).alerts in
          let t : Told q alerts (reserve_units q units now db).1 = rw same (record {
            row = noted;
            found = noted-quota_row q units now db r left;
            told = refl;
            same = refl;
          }) in
          (
            ap (λ (o : Result (Unit {0}) × QuotaDb). o.0) same,
            rw untold (LedgerRun-Told q alerts t run).same,
          )
    ]
