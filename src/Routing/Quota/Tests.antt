-- ===== src/Routing/Quota/Tests.antt =====
-- A ledger of routing/quota.py, what its operations do, and the theorems applied to it.
use homez.Prelude.{
  ◌≡◌, refl, arith, true, false, [], ◌∷◌, none, some, ok, err, quota_exhausted, find, insert,
  replace,
}
use homez.Routing.Quota.{
  QuotaRow, QuotaLedger, ceiling_exhausted, QuotaDb, has_quota_key, quota_row, ensure_record,
  notify_once, reserve_units, trip_provider_quota, reset_provider_quota,
}
use homez.Routing.Quota.Reserved.{QuotaOk, here, next, ensures, reserves, QuotaReach-QuotaOk}
use homez.Routing.Quota.Alerts.{LedgerRun, then_reserves, then_trips, reserve_units-alerts_once}

program : Unit {0}
unfolding find insert replace has_quota_key quota_row ensure_record notify_once reserve_units
    trip_provider_quota reset_provider_quota
program = tt

abbrev ledger : QuotaLedger
ledger = record {
  period = "2026-01";
  provider = "maps";
  billable_unit = "route";
  allowance = 10;
  ceiling = 9;
  alerted = true;
}

abbrev row : QuotaRow
row = record {
  period = "2026-01";
  provider = "maps";
  billable_unit = "route";
  allowance = 10;
  safety_ceiling = 9;
  reserved_units = 7;
  provider_blocked = false;
  last_alert_at = none;
}

abbrev db : QuotaDb
db = record { ledger_rows = row ∷ []; alerts = [] }

abbrev no_ledger : QuotaDb
no_ledger = record { ledger_rows = []; alerts = [] }

row_found : quota_row ledger db ≡ some row
unfolding program
row_found = refl

refused-alert :
    (reserve_units ledger 3 100 db).1.alerts
    ≡ record { reason = ceiling_exhausted; reserved = 7 } ∷ []
unfolding program
refused-alert = refl

tripped_refuses :
    (reserve_units ledger 1 100 (trip_provider_quota ledger 90 db)).0 ≡ err quota_exhausted
unfolding program
tripped_refuses = refl

reset_reserves :
    (reserve_units ledger 1 100 (reset_provider_quota ledger (trip_provider_quota ledger 90 db))).0
    ≡ ok tt
unfolding program
reset_reserves = refl

QuotaReach-QuotaOk_example : QuotaOk (reserve_units ledger 9 100 (ensure_record ledger no_ledger)).1
QuotaReach-QuotaOk_example = QuotaReach-QuotaOk {start = no_ledger} tt (
    next (next here (ensures ledger no_ledger))
      (reserves ledger 9 100 (ensure_record ledger no_ledger)))

-- a second refusal, and the provider's own
abbrev later : QuotaDb
later =
    trip_provider_quota ledger 120 (reserve_units ledger 4 110 (reserve_units ledger 3 100 db).1).1

later-LedgerRun : LedgerRun ledger (reserve_units ledger 3 100 db).1 later
later-LedgerRun = then_trips 120 (then_reserves 4 110 LedgerRun.here)

reserve_units-alerts_once_example :
    ((reserve_units ledger 3 100 db).0 ≡ err quota_exhausted)
    × (later.alerts ≡ record { reason = ceiling_exhausted; reserved = 7 } ∷ [])
reserve_units-alerts_once_example =
    reserve_units-alerts_once ledger 3 100 db later row (omega arith) row_found refl later-LedgerRun
