-- ===== src/ScrapeQueue/Outcome/Tests.antt =====
-- A stored outcome read back, and the theorem on it applied.
use homez.ScrapeQueue.Samples.{db', release_row, repo, worker, lease}
use homez.ScrapeQueue.Completion.Samples.{
  outcome, encoding, drawn, fields, completion_program, completed_db, complete-db',
}
use homez.Prelude.{◌≡◌, refl, true, [], ◌∷◌, none, some, ok, Datetime, arith, All, find, str_eq}
use homez.Parsers.Releases.{Release, active, revoked}
use homez.ScrapeQueue.Contracts.{otodom}
use homez.ScrapeQueue.Records.{current}
use homez.ScrapeQueue.Completion.Checks.{Checked, check_outcome}
use homez.ScrapeQueue.Completion.{result_key, two_years_on}
use homez.ScrapeQueue.Outcome.{
  Joined, joined, is_served, is_readable, fields_named, parsed_of, readable_rows, read_outcome,
}
use homez.ScrapeQueue.Outcome.Newest.{is_finished_before}
use homez.ScrapeQueue.Outcome.ReadBack.{complete-read_outcome}

unfoldable outcome_program : Unit {0}
unfolding completion_program joined is_readable fields_named parsed_of readable_rows read_outcome
outcome_program = tt

-- Nothing is read of a revoked release, of another snapshot or after two years.
read_outcome-revoked :
    read_outcome (release_row "r2" revoked ∷ []) [] completed_db otodom 72 (Datetime.aware 2000)
    ≡ ok none
unfolding outcome_program
read_outcome-revoked = refl

read_outcome-other :
    read_outcome (release_row "r2" active ∷ []) [] completed_db otodom 71 (Datetime.aware 2000)
    ≡ ok none
unfolding outcome_program
read_outcome-other = refl

read_outcome-expired :
    read_outcome (release_row "r2" active ∷ []) [] completed_db otodom 72 (Datetime.aware 63073005)
    ≡ ok none
unfolding outcome_program
read_outcome-expired = refl

abbrev checked : Checked
checked = record { now = 1010; fetched = 1005; fields = fields }

check_outcome-sample : check_outcome encoding lease outcome (Datetime.aware 1010) ≡ ok checked
unfolding outcome_program
check_outcome-sample = refl

no_result : find (result_key lease.task_id) db'.captured.results ≡ none
unfolding outcome_program
no_result = refl

second_reading : current repo 2 1010 ≡ ok 1010
unfolding outcome_program
second_reading = refl

expiry_second : two_years_on 1005 ≡ 63073005
unfolding outcome_program
expiry_second = refl

r2_served :
    is_served (
      find
        (λ (r : Release). str_eq r.release_hash lease.release_hash)
        (release_row "r2" active ∷ []))
    ≡ true
unfolding outcome_program
r2_served = refl

nothing_older :
    All
      (λ (j : Joined). is_finished_before 1010 j ≡ true)
      (readable_rows (release_row "r2" active ∷ []) [] db' worker.source lease.snapshot_id 2000)
unfolding outcome_program
nothing_older = tt

complete-read_outcome_example :
    read_outcome (release_row "r2" active ∷ []) [] completed_db otodom 72 (Datetime.aware 2000)
    ≡ ok (some (record outcome.result { fields = fields }))
complete-read_outcome_example =
    complete-read_outcome encoding repo worker lease outcome drawn 1010 checked db' refl no_result
      check_outcome-sample (release_row "r2" active ∷ []) [] 1010 2000 completed_db second_reading
      r2_served (rw expiry_second (omega arith)) nothing_older tt tt complete-db'
