-- ===== src/Routing/Quota.antt =====
-- routing/quota.py: the ledger of billable routing units.
-- An UPDATE by the primary key changes at most one row: `find` gives it, and its row count is one
-- exactly if there is one. The safety ceiling is a field: the constructor computes it from the
-- allowance with a float.
pub mod Reserved
pub mod Refusals
pub mod Alerts
mod Tests
use homez.Prelude.{
  ℕ, ◌+◌, ◌-◌, Bool, true, false, not, is_some, ◌&&◌, String, List, ◌∷◌, Option, none, some, Result,
  ok, err, value_error, runtime_error, quota_exhausted, find, insert, replace, leb, ◌==◌, str_eq,
  if◌then◌else◌,
}

-- RoutingQuotaLedgerRecord
pub record QuotaRow : Type 0 where
  pub period : String
  pub provider : String
  pub billable_unit : String
  pub allowance : ℕ
  pub safety_ceiling : ℕ
  pub reserved_units : ℕ
  pub provider_blocked : Bool
  pub last_alert_at : Option ℕ

-- QuotaLedger, less its sessions; `alerted` says whether an alert function is bound
pub record QuotaLedger : Type 0 where
  pub period : String
  pub provider : String
  pub billable_unit : String
  pub allowance : ℕ
  pub ceiling : ℕ
  pub alerted : Bool

pub data AlertReason : Type 0 where
  provider_exhausted ceiling_exhausted : AlertReason

-- one call of the alert function
pub record Alert : Type 0 where
  pub reason : AlertReason
  pub reserved : ℕ

-- the table, and the alerts sent so far, the last first
pub record QuotaDb : Type 0 where
  pub ledger_rows : List QuotaRow
  pub alerts : List Alert

unfoldable pub has_quota_key : QuotaLedger → QuotaRow → Bool
has_quota_key q r =
    str_eq r.period q.period
    && str_eq r.provider q.provider
    && str_eq r.billable_unit q.billable_unit

unfoldable pub quota_row : QuotaLedger → QuotaDb → Option QuotaRow
quota_row q db = find (has_quota_key q) db.ledger_rows

abbrev pub put_row : QuotaLedger → QuotaRow → QuotaDb → QuotaDb
put_row q r db = record db { ledger_rows = replace (has_quota_key q) r db.ledger_rows }

abbrev pub new_row : QuotaLedger → QuotaRow
new_row q = record {
  period = q.period;
  provider = q.provider;
  billable_unit = q.billable_unit;
  allowance = q.allowance;
  safety_ceiling = q.ceiling;
  reserved_units = 0;
  provider_blocked = false;
  last_alert_at = none;
}

-- the commit, or the rollback of an IntegrityError
abbrev pub stored_rows : Result (List QuotaRow) → QuotaDb → QuotaDb
stored_rows (ok rows) db = record db { ledger_rows = rows }
stored_rows (err e) db = db

abbrev pub ensure_row : QuotaLedger → Option QuotaRow → QuotaDb → QuotaDb
ensure_row q (some r) db = db
ensure_row q none db = stored_rows (insert (has_quota_key q) (new_row q) db.ledger_rows) db

-- `_ensure_record`
unfoldable pub ensure_record : QuotaLedger → QuotaDb → QuotaDb
ensure_record q db = ensure_row q (quota_row q db) db

-- `_notify_once`, for the row: the time of the alert is set, and the alert sent, once
abbrev pub notify_row : QuotaLedger → AlertReason → ℕ → Option QuotaRow → QuotaDb → QuotaDb
notify_row q reason now none db = db
notify_row q reason now (some r) db =
    if is_some r.last_alert_at
    then db
    else record (put_row q (record r { last_alert_at = some now }) db) {
      alerts =
          if q.alerted
          then (record { reason = reason; reserved = r.reserved_units }) ∷ db.alerts
          else db.alerts;
    }

unfoldable pub notify_once : QuotaLedger → AlertReason → ℕ → QuotaDb → QuotaDb
notify_once q reason now db = notify_row q reason now (quota_row q db) db

-- the conditions of the UPDATE of `reserve` on the row
abbrev pub has_room : QuotaRow → ℕ → Bool
has_room r units = not r.provider_blocked && leb (r.reserved_units + units) r.safety_ceiling

abbrev pub reserve_row :
    QuotaLedger → ℕ → ℕ → Option QuotaRow → QuotaDb → Result (Unit {0}) × QuotaDb
reserve_row q units now none db = (err runtime_error, db)
reserve_row q units now (some r) db =
    if has_room r units
    then (ok tt, put_row q (record r { reserved_units = r.reserved_units + units }) db)
    else (
      err quota_exhausted,
      notify_once q (if r.provider_blocked then provider_exhausted else ceiling_exhausted) now db,
    )

-- `reserve`; `now` is the clock of the alert
unfoldable pub reserve_units : QuotaLedger → ℕ → ℕ → QuotaDb → Result (Unit {0}) × QuotaDb
reserve_units q units now db =
    if units == 0 then (err value_error, db) else reserve_row q units now (quota_row q db) db

abbrev pub change_row : QuotaLedger → (QuotaRow → QuotaRow) → Option QuotaRow → QuotaDb → QuotaDb
change_row q change none db = db
change_row q change (some r) db = put_row q (change r) db

unfoldable pub trip_provider_quota : QuotaLedger → ℕ → QuotaDb → QuotaDb
trip_provider_quota q now db =
    notify_once q provider_exhausted now
      (change_row q (λ r. record r { provider_blocked = true }) (quota_row q db) db)

unfoldable pub reset_provider_quota : QuotaLedger → QuotaDb → QuotaDb
reset_provider_quota q db =
    change_row q (λ r. record r { provider_blocked = false; last_alert_at = none }) (quota_row q db)
      db

pub record QuotaSnapshot : Type 0 where
  pub reserved : ℕ
  pub remaining : ℕ
  pub provider_blocked : Bool
  pub safety_ceiling : ℕ

-- `snapshot`; `max(0, a - b)` is the subtraction of natural numbers
unfoldable pub quota_snapshot : QuotaLedger → QuotaDb → Result QuotaSnapshot
quota_snapshot q db = elim (quota_row q db) [
  | none ↦ err runtime_error
  | some r ↦ ok (record {
    reserved = r.reserved_units;
    remaining = r.safety_ceiling - r.reserved_units;
    provider_blocked = r.provider_blocked;
    safety_ceiling = r.safety_ceiling;
  })
]
