-- ===== src/Routing/Quota/Refusals.antt =====
-- One call of `reserve` of routing/quota.py: its answers and its alert.
use homez.Prelude.{
  ℕ, ◌+◌, ◌≤◌, ◌≡◌, refl, true, false, is_some, ◌∷◌, none, some, ok, err, quota_exhausted,
  find-replace, find-holds, ◌==◌, arith, if◌then◌else◌,
}
use homez.Routing.Quota.{
  QuotaRow, QuotaLedger, provider_exhausted, ceiling_exhausted, QuotaDb, has_quota_key, quota_row,
  put_row, notify_once, has_room, reserve_units,
}

-- A row that was written is read again.
pub put_row-quota_row :
    (q : QuotaLedger) (old new : QuotaRow) (db : QuotaDb)
    → quota_row q db ≡ some old
    → has_quota_key q new ≡ true
    → quota_row q (put_row q new db) ≡ some new
unfolding quota_row
put_row-quota_row q old new db found own =
    find-replace (has_quota_key q) (has_quota_key q) new db.ledger_rows {x = old} found own
      (λ z e. e)

pub quota_row-key :
    (q : QuotaLedger) (db : QuotaDb) {r : QuotaRow}
    → quota_row q db ≡ some r
    → has_quota_key q r ≡ true
unfolding quota_row
quota_row-key q db found = find-holds (has_quota_key q) db.ledger_rows found

pub reserved-key :
    (q : QuotaLedger) (r : QuotaRow) (units : ℕ)
    → has_quota_key q r ≡ true
    → has_quota_key q (record r { reserved_units = r.reserved_units + units }) ≡ true
unfolding has_quota_key
reserved-key q r units h = h

pub notified-key :
    (q : QuotaLedger) (r : QuotaRow) (now : ℕ)
    → has_quota_key q r ≡ true
    → has_quota_key q (record r { last_alert_at = some now }) ≡ true
unfolding has_quota_key
notified-key q r now h = h

-- A positive number of units is reserved, counted, and no alert sent, if the provider is not blocked
-- and the units fit under the safety ceiling with those reserved before.
pub reserve_units-fits :
    (q : QuotaLedger) (units now : ℕ) (db : QuotaDb) (r : QuotaRow)
    → 1 ≤ units
    → quota_row q db ≡ some r
    → r.provider_blocked ≡ false
    → r.reserved_units + units ≤ r.safety_ceiling
    → ((reserve_units q units now db).0 ≡ ok tt)
      × (quota_row q (reserve_units q units now db).1
          ≡ some (record r { reserved_units = r.reserved_units + units }))
      × ((reserve_units q units now db).1.alerts ≡ db.alerts)
unfolding reserve_units
reserve_units-fits q units now db r positive found running fits =
    let asked : (units == 0) ≡ false = ground arith in
    let room : has_room r units ≡ true = ground arith in
    let key = quota_row-key q db found in
    let new = record r { reserved_units = r.reserved_units + units } in
    let own : has_quota_key q new ≡ true = reserved-key q r units key in
    (
      rw (asked, found, room) refl,
      rw (asked, found, room) (put_row-quota_row q r new db found own),
      rw (asked, found, room) refl,
    )

-- A refusal sends no alert if one was sent.
pub refused_silent :
    (q : QuotaLedger) (units now : ℕ) (db : QuotaDb) (r : QuotaRow)
    → 1 ≤ units
    → quota_row q db ≡ some r
    → has_room r units ≡ false
    → is_some r.last_alert_at ≡ true
    → reserve_units q units now db ≡ (err quota_exhausted, db)
unfolding reserve_units notify_once
refused_silent q units now db r positive found full sent =
    let asked : (units == 0) ≡ false = ground arith in rw (asked, found, full, found, sent) refl

-- the store after the first refusal
abbrev pub noted_db : QuotaLedger → ℕ → ℕ → QuotaDb → QuotaRow → QuotaDb
noted_db q units now db r = record (put_row q (record r { last_alert_at = some now }) db) {
  alerts =
      if q.alerted
      then (record {
        reason = if r.provider_blocked then provider_exhausted else ceiling_exhausted;
        reserved = r.reserved_units;
      })
        ∷ db.alerts
      else db.alerts;
}

pub noted-quota_row :
    (q : QuotaLedger) (units now : ℕ) (db : QuotaDb) (r : QuotaRow)
    → quota_row q (put_row q (record r { last_alert_at = some now }) db)
      ≡ some (record r { last_alert_at = some now })
    → quota_row q (noted_db q units now db r) ≡ some (record r { last_alert_at = some now })
unfolding quota_row
noted-quota_row q units now db r h = h

-- The first refusal sends an alert, if an alert function is bound.
pub refused-alerts :
    (q : QuotaLedger) (units now : ℕ) (db : QuotaDb) (r : QuotaRow)
    → 1 ≤ units
    → quota_row q db ≡ some r
    → has_room r units ≡ false
    → r.last_alert_at ≡ none
    → reserve_units q units now db ≡ (err quota_exhausted, noted_db q units now db r)
unfolding reserve_units notify_once
refused-alerts q units now db r positive found full unsent =
    let asked : (units == 0) ≡ false = ground arith in
    let untold : is_some r.last_alert_at ≡ false = rw unsent refl in
    rw (asked, found, full, found, untold) refl
