-- ===== src/ScrapeQueue/Canary/Tests.antt =====
-- A discovery canary over a catalog of three snapshots, planned, executed and refused.
use homez.ScrapeQueue.Samples.{queue_program, db, release_row}
use homez.Prelude.{
  ℕ, ◌+◌, ◌≡◌, refl, Bool, true, false, [], ◌∷◌, none, some, ok, err, value_error, Datetime, length,
}
use homez.Prelude.Chars.{count_chars}
use homez.Prelude.Decimal.{show, show_digits}
use homez.Parsers.Releases.{active}
use homez.ScrapeQueue.Contracts.{otodom}
use homez.ScrapeQueue.Records.{Db}
use homez.ScrapeQueue.Insertion.{
  Catalog, Listing, active_listing, inactive_listing, Lifecycle, Texts, select_release,
  find_listing, identity_key, store_task, insert_task, enqueue_task,
}
use homez.ScrapeQueue.Canary.{CanaryRequest, select_canary, release_discovery_canary}

abbrev listing : ℕ → Lifecycle → Listing
listing id state = record {
  id = id;
  source_id = 6;
  source_listing_id = "ID4a";
  canonical_url = "https://www.otodom.pl/pl/oferta/a-ID4a";
  lifecycle = state;
}

-- The first listing has two snapshots, and the third is inactive.
abbrev catalog : Catalog
catalog = record {
  releases = release_row "r2" active ∷ [];
  snapshots =
      record { id = 74; listing_id = 5; observed_at = 800 }
      ∷ record { id = 75; listing_id = 5; observed_at = 810 }
      ∷ record { id = 76; listing_id = 7; observed_at = 820 }
      ∷ record { id = 77; listing_id = 8; observed_at = 830 }
      ∷ [];
  listings = listing 5 active_listing ∷ listing 7 active_listing ∷ listing 8 inactive_listing ∷ [];
  sources = record { id = 6; key = "otodom" } ∷ [];
}

abbrev texts : Texts
texts = record {
  validate = λ portal url. some (url, "ID4a");
  id_text = λ n. show n;
  digest = λ s. s;
}

abbrev request : Bool → CanaryRequest
request execute = record {
  source = otodom;
  release_hash = "r2";
  limit = 25;
  execute = execute;
  actor = some "ops";
}

abbrev drawn : ℕ → ℕ
drawn i = 50 + i

abbrev inactive_db : Db
inactive_db = record db { activations = [] }

unfoldable canary_program : Unit {0}
unfolding queue_program count_chars show show_digits select_release find_listing identity_key
    store_task insert_task enqueue_task select_canary release_discovery_canary
canary_program = tt

select_canary-newest :
    select_canary catalog texts (request false) (Datetime.aware 1000) inactive_db
    ≡ ok (76 ∷ 75 ∷ [])
unfolding canary_program
select_canary-newest = refl

release_discovery_canary-planned :
    release_discovery_canary catalog texts
      (request false)
      drawn
      (Datetime.aware 1000)
      inactive_db
      []
    ≡ (
      ok (record { source = otodom; selected_count = 2; enqueued_count = 0; execute = false }),
      inactive_db,
      [],
    )
unfolding canary_program
release_discovery_canary-planned = refl

release_discovery_canary-executed :
    (let after =
        release_discovery_canary catalog texts
          (request true)
          drawn
          (Datetime.aware 1000)
          inactive_db
          [] in
      (after.0
        ≡ ok (record { source = otodom; selected_count = 2; enqueued_count = 2; execute = true }))
      × (length after.1.tasks ≡ 5)
      × (length after.2 ≡ 1))
unfolding canary_program
release_discovery_canary-executed = (refl, refl, refl)

-- An active parser, or no actor, refuses it.
select_canary-active :
    select_canary catalog texts (request false) (Datetime.aware 1000) db ≡ err value_error
unfolding canary_program
select_canary-active = refl

select_canary-anonymous :
    select_canary catalog texts
      (record (request true) { actor = none })
      (Datetime.aware 1000)
      inactive_db
    ≡ err value_error
unfolding canary_program
select_canary-anonymous = refl
