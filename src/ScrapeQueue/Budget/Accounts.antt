-- ===== src/ScrapeQueue/Budget/Accounts.antt =====
-- scrape_queue/budget.py: `record_success`, the routes and bytes of the proxy, and the snapshots.
use homez.Prelude.{
  ℕ, ◌+◌, true, ◌&&◌, String, none, some, is_some, Result, ok, value_error, ◌>>=◌, ◌>>◌, guard,
  find, insert, replace, leb, Datetime, require_aware, commit,
}
use homez.Prelude.Chars.{count_chars}
use homez.ScrapeQueue.Contracts.{Portal}
use homez.ScrapeQueue.Budget.Signed.{at_least}
use homez.ScrapeQueue.Budget.Records.{
  SourceState, ProxyLedger, ProxyRoute, BudgetDb, BudgetRepository, usable_bytes, policy_of,
  route_key, put_state, put_ledger, locked_source_state, locked_proxy_ledger,
}
use homez.ScrapeQueue.Budget.Outcomes.{add_success}

unfoldable pub record_one :
    BudgetRepository → Portal → Datetime → BudgetDb → Result (Unit {0} × BudgetDb)
record_one repo source supplied db = do
  now ← require_aware supplied
  policy ← policy_of repo source
  (s, db1) ← locked_source_state source policy now db
  s' ← add_success s
  ok (tt, put_state s' db1)

unfoldable pub record_success :
    BudgetRepository → Portal → Datetime → BudgetDb → Result (Unit {0}) × BudgetDb
record_success repo source now db = commit (record_one repo source now db) db

unfoldable pub add_route : String → Datetime → BudgetDb → Result (Unit {0} × BudgetDb)
add_route id supplied db = do
  now ← require_aware supplied
  guard (leb 1 (count_chars id) && leb (count_chars id) 64) value_error
  let row : ProxyRoute = record { route_id = id; healthy = true; updated_at = now }
  elim (find (route_key id) db.routes) [
    | none ↦ do rows ← insert (route_key id) row db.routes; ok (tt, record db { routes = rows })
    | some r ↦ ok (
      tt,
      record db {
        routes = replace (route_key id) (record r { healthy = true; updated_at = now }) db.routes;
      },
    )
  ]

unfoldable pub register_proxy_route : String → Datetime → BudgetDb → Result (Unit {0}) × BudgetDb
register_proxy_route id now db = commit (add_route id now db) db

unfoldable pub add_bytes :
    BudgetRepository → String → ℕ → Datetime → BudgetDb → Result (Unit {0} × BudgetDb)
add_bytes repo id bytes supplied db = do
  now ← require_aware supplied
  guard (leb bytes usable_bytes) value_error
  guard (is_some (find (route_key id) db.routes)) value_error
  (l, db1) ← locked_proxy_ledger repo now db
  guard (leb (l.transferred_bytes + bytes) usable_bytes) value_error
  ok (
    tt,
    put_ledger
        (record l {
          transferred_bytes = l.transferred_bytes + bytes;
          allocated_bytes = at_least l.allocated_bytes (l.transferred_bytes + bytes);
        })
        db1,
  )

unfoldable pub record_proxy_bytes :
    BudgetRepository → String → ℕ → Datetime → BudgetDb → Result (Unit {0}) × BudgetDb
record_proxy_bytes repo id bytes now db = commit (add_bytes repo id bytes now db) db

-- `snapshot` and `proxy_snapshot`: the row that they read and, if it is new, write
unfoldable pub source_row :
    BudgetRepository → Portal → Datetime → BudgetDb → Result (SourceState × BudgetDb)
source_row repo source supplied db = do
  now ← require_aware supplied
  policy ← policy_of repo source
  locked_source_state source policy now db

unfoldable pub snapshot :
    BudgetRepository → Portal → Datetime → BudgetDb → Result SourceState × BudgetDb
snapshot repo source now db = commit (source_row repo source now db) db

unfoldable pub ledger_row : BudgetRepository → Datetime → BudgetDb → Result (ProxyLedger × BudgetDb)
ledger_row repo supplied db = do now ← require_aware supplied; locked_proxy_ledger repo now db

unfoldable pub proxy_snapshot :
    BudgetRepository → Datetime → BudgetDb → Result ProxyLedger × BudgetDb
proxy_snapshot repo now db = commit (ledger_row repo now db) db
