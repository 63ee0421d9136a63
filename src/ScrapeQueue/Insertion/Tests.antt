-- ===== src/ScrapeQueue/Insertion/Tests.antt =====
-- Insertions into the sample queue, and the theorem on them applied.
use homez.ScrapeQueue.Samples.{queue_program, db, release_row}
use homez.Prelude.{◌≡◌, refl, [], ◌∷◌, none, some, ok, err, value_error, Datetime}
use homez.Prelude.Decimal.{show, show_digits}
use homez.Parsers.Releases.{active, revoked}
use homez.ScrapeQueue.Contracts.{otodom, live, network_recovery, discovery_capture, TaskClass}
use homez.ScrapeQueue.Records.{Db}
use homez.ScrapeQueue.Insertion.{
  Catalog, active_listing, Texts, Request, select_release, find_listing, identity_key, store_task,
  insert_task, enqueue_task,
}
use homez.ScrapeQueue.Inserted.{enqueue_task_again}

abbrev catalog : Catalog
catalog = record {
  releases = release_row "r2" active ∷ release_row "r3" revoked ∷ [];
  snapshots = record { id = 74; listing_id = 5; observed_at = 800 } ∷ [];
  listings =
      record {
        id = 5;
        source_id = 6;
        source_listing_id = "ID4a";
        canonical_url = "https://www.otodom.pl/pl/oferta/a-ID4a";
        lifecycle = active_listing;
      }
      ∷ [];
  sources = record { id = 6; key = "otodom" } ∷ [];
}

abbrev texts : Texts
texts = record {
  validate = λ portal url. some (url, "ID4a");
  id_text = λ n. show n;
  digest = λ s. s;
}

abbrev request : TaskClass → Request
request c = record { source = otodom; snapshot_id = 74; task_class = c; release_hash = none }

unfoldable insertion_program : Unit {0}
unfolding queue_program show show_digits select_release find_listing identity_key store_task
    insert_task enqueue_task
insertion_program = tt

abbrev inserted_db : Db
inserted_db = (enqueue_task catalog texts (request network_recovery) 40 (Datetime.aware 1000) db).1

enqueue_task-db :
    enqueue_task catalog texts (request network_recovery) 40 (Datetime.aware 1000) db
    ≡ (ok 40, inserted_db)
unfolding insertion_program
enqueue_task-db = refl

-- A live task has a key of its own, less the release.
enqueue_task_live :
    (enqueue_task catalog texts (request live) 41 (Datetime.aware 1001) inserted_db).0 ≡ ok 41
unfolding insertion_program
enqueue_task_live = refl

-- A discovery names its release, which is not revoked.
enqueue_task_discovery :
    (enqueue_task catalog texts (request discovery_capture) 42 (Datetime.aware 1001) db).0
    ≡ err value_error
unfolding insertion_program
enqueue_task_discovery = refl

enqueue_task_revoked :
    (enqueue_task catalog texts
      (record (request discovery_capture) { release_hash = some "r3" })
      42
      (Datetime.aware 1001)
      db).0
    ≡ err value_error
unfolding insertion_program
enqueue_task_revoked = refl

enqueue_task_canary :
    (enqueue_task catalog texts
      (record (request discovery_capture) { release_hash = some "r2" })
      42
      (Datetime.aware 1001)
      db).0
    ≡ ok 42
unfolding insertion_program
enqueue_task_canary = refl

enqueue_task_again_example :
    enqueue_task catalog texts (request network_recovery) 43 (Datetime.aware 1100) inserted_db
    ≡ (ok 40, inserted_db)
enqueue_task_again_example =
    enqueue_task_again catalog texts (request network_recovery) 40 40 43 1100 (Datetime.aware 1000)
      db inserted_db enqueue_task-db
