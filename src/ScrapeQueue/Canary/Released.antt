-- ===== src/ScrapeQueue/Canary/Released.antt =====
-- What every insertion of scrape_queue/repository.py keeps, `release_discovery_canary` keeps.
use homez.Prelude.{
  ℕ, suc, Bool, true, false, List, [], ◌∷◌, Result, ok, err, Datetime, length, some, if◌then◌else◌,
}
use homez.ScrapeQueue.Contracts.{discovery_capture}
use homez.ScrapeQueue.Records.{Db}
use homez.ScrapeQueue.Insertion.{Catalog, Texts, Request, enqueue_task}
use homez.ScrapeQueue.Canary.{
  CanaryRequest, CanaryPlan, CanaryAudit, plan_of, select_canary, enqueue_all, audit_canary,
  execute_canary, release_discovery_canary,
}

module _ {κ} (P : Db → Type κ) (catalog : Catalog) (x : Texts) (now : Datetime)
    (keep : (r : Request) (id : ℕ) (db : Db) → P db → P (enqueue_task catalog x r id now db).1)
    (r : CanaryRequest) (drawn : ℕ → ℕ) where
  after_one :
      (out rest : Result ℕ × Db)
      → P out.1
      → P rest.1
      → P (elim out.0 as (λ o. Result ℕ × Db) [ err e ↦ (err e, out.1) | ok id ↦ rest ]).1
  after_one (err e, db) rest one all = one
  after_one (ok id, db) rest one all = all

  enqueue_all_keeps :
      (count : ℕ) (chosen : List ℕ) (db : Db)
      → P db
      → P (enqueue_all catalog x r drawn now count chosen db).1
  enqueue_all_keeps count [] db h = h
  enqueue_all_keeps count (s ∷ ss) db h =
      let one =
        keep
          (record {
            source = r.source;
            snapshot_id = s;
            task_class = discovery_capture;
            release_hash = some r.release_hash;
          })
          (drawn count) db h in
      after_one _ _ one (enqueue_all_keeps (suc count) ss _ one)

  audit_canary_keeps :
      (supplied : Datetime) (selected : ℕ) (out : Result ℕ × Db) (audits : List CanaryAudit)
      → P out.1
      → P (audit_canary r supplied selected out audits).1
  audit_canary_keeps supplied selected (err e, db) audits h = h
  audit_canary_keeps (Datetime.naive at) selected (ok n, db) audits h = h
  audit_canary_keeps (Datetime.aware at) selected (ok n, db) audits h = h

  either_keeps :
      (b : Bool) (u v : Result CanaryPlan × Db × List CanaryAudit)
      → P u.1
      → P v.1
      → P (if b then u else v).1
  either_keeps true u v one other = one
  either_keeps false u v one other = other

  execute_canary_keeps :
      (chosen : Result (List ℕ)) (db : Db) (audits : List CanaryAudit)
      → P db
      → P (execute_canary catalog x r drawn now chosen db audits).1
  execute_canary_keeps (err e) db audits h = h
  execute_canary_keeps (ok chosen) db audits h =
      either_keeps r.execute
        (audit_canary r now (length chosen) (enqueue_all catalog x r drawn now 0 chosen db) audits)
        (ok (plan_of r (length chosen) 0), db, audits)
        (audit_canary_keeps now (length chosen) (enqueue_all catalog x r drawn now 0 chosen db)
          audits (enqueue_all_keeps 0 chosen db h))
        h

  pub release_discovery_canary_keeps :
      (db : Db) (audits : List CanaryAudit)
      → P db
      → P (release_discovery_canary catalog x r drawn now db audits).1
  unfolding release_discovery_canary
  release_discovery_canary_keeps db audits h =
      execute_canary_keeps (select_canary catalog x r now db) db audits h
