-- ===== src/Parsers/Activation/Tests.antt =====
-- A portal of parser_releases/__init__.py with two releases, what the operations do, and the
-- theorems applied to it.
use homez.Prelude.{
  ℕ, ◌≡◌, ◌≢◌, refl, sym, ◌∙◌, arith, eq_iff, Bool, true, false, String, List, [], ◌∷◌, Option,
  none, some, ok, err, value_error, runtime_error, find, insert, replace, aware, naive, is_ok,
}
use homez.Prelude.Chars.{count_chars, all_chars, fullmatch, after_prefix}
use homez.ScrapeQueue.Contracts.{Portal, gratka, nas, vps}
use homez.ScrapeQueue.Records.{Activation, WorkerRow}
use homez.Parsers.Releases.{
  Build, make_build, Release, revoked, ReleaseDb, get_release, get_pointer, add_release,
  register_release,
}
use homez.Parsers.Activation.{
  is_live, is_advertised, moved, change_pointer, activate_release, rollback_target, roll_back,
  rollback_release,
}
use homez.Parsers.Activation.Replay.{replay}
use homez.Parsers.Activation.Runs.{
  ReleasesOk, ReleaseReach, here, next, registers, activates, rolls_back, ReleaseReach-ReleasesOk,
  ReleaseReach-revoked,
}
use homez.Parsers.Activation.Again.{rollback_release-again}

program : Unit {0}
unfolding find insert replace count_chars all_chars fullmatch after_prefix make_build get_release
    get_pointer add_release register_release is_live is_advertised moved change_pointer
    activate_release rollback_target roll_back rollback_release replay
program = tt

abbrev hash : String
hash = "0123456789abcdef0123456789abcdef0123456789abcdef0123456789abcdef"

abbrev build : Build
build = record {
  source = gratka;
  parser_version = "v1";
  git_commit = "0123456789abcdef0123456789abcdef01234567";
  parser_content_hash = hash;
  configuration_hash = hash;
  dependency_lock_hash = hash;
  deployable_digest = "sha256:0123456789abcdef0123456789abcdef0123456789abcdef0123456789abcdef";
  qualifying_benchmark_run = "run-1";
}

build_accepted : make_build build ≡ ok build
unfolding program
build_accepted = refl

build_refused : make_build (record build { deployable_digest = "sha256:0" }) ≡ err value_error
unfolding program
build_refused = refl

abbrev eligible : Portal → String → String → ℕ → Bool
eligible source release run now = true

abbrev workers : List WorkerRow
workers =
    (record {
      worker_id = "n";
      source = gratka;
      deployment = nas;
      heartbeat_at = 1000;
      release_hashes = "a" ∷ "b" ∷ [];
      healthy = true;
    })
    ∷ (record {
      worker_id = "v";
      source = gratka;
      deployment = vps;
      heartbeat_at = 1000;
      release_hashes = "b" ∷ "a" ∷ [];
      healthy = true;
    })
    ∷ []

abbrev bare : ReleaseDb
bare = record {
  sources = gratka ∷ [];
  releases = [];
  pointers = [];
  audits = [];
  workers = workers;
}

abbrev registered : ReleaseDb
registered = (register_release "b" build (aware 2) (register_release "a" build (aware 1) bare).1).1

abbrev first_active : ReleaseDb
first_active = (activate_release eligible 90 gratka "a" "op" "ok" (aware 1010) none registered).1

abbrev second_active : ReleaseDb
second_active =
    (activate_release eligible 90 gratka "b" "op" "ok" (aware 1020) (some 1) first_active).1

abbrev rolled : ReleaseDb
rolled = (rollback_release eligible 90 gratka "op" "bad" (aware 1030) 2 second_active).1

second_pointer :
    get_pointer second_active gratka
    ≡ some (record { source = gratka; release_hash = "b"; activation_epoch = 2 })
unfolding program
second_pointer = refl

rollback_done :
    rollback_release eligible 90 gratka "op" "bad" (aware 1030) 2 second_active ≡ (ok 3, rolled)
unfolding program
rollback_done = refl

rolled_pointer :
    get_pointer rolled gratka
    ≡ some (record { source = gratka; release_hash = "a"; activation_epoch = 3 })
unfolding program
rolled_pointer = refl

-- no activation without workers, with an old epoch, or without a time zone
refusals :
    ((activate_release eligible 9 gratka "a" "op" "ok" (aware 1010) none registered).0
      ≡ err runtime_error)
    × ((activate_release eligible 90 gratka "b" "op" "ok" (aware 1020) (some 7) first_active).0
        ≡ err runtime_error)
    × ((activate_release eligible 90 gratka "a" "op" "ok" (naive 1010) none registered).0
        ≡ err value_error)
unfolding program
refusals = (refl, refl, refl)

bare-ReleasesOk : ReleasesOk bare
unfolding program
bare-ReleasesOk = record { logged = λ source. refl; pointed = λ source p e. absurd (cc) }

second-ReleaseReach : ReleaseReach eligible 90 bare second_active
second-ReleaseReach =
    next
      (next
        (next (next here (registers "a" build (aware 1) bare))
          (registers "b" build (aware 2) (register_release "a" build (aware 1) bare).1))
        (activates gratka "a" "op" "ok" (aware 1010) none registered))
      (activates gratka "b" "op" "ok" (aware 1020) (some 1) first_active)

rolled-ReleaseReach : ReleaseReach eligible 90 bare rolled
rolled-ReleaseReach =
    next second-ReleaseReach (rolls_back gratka "op" "bad" (aware 1030) 2 second_active)

ReleaseReach-ReleasesOk_example : ReleasesOk rolled
ReleaseReach-ReleasesOk_example = ReleaseReach-ReleasesOk bare-ReleasesOk rolled-ReleaseReach

abbrev revoked_b : Release
revoked_b = record {
  release_hash = "b";
  source = gratka;
  created_at = 2;
  parser_version = some "v1";
  git_commit = some "0123456789abcdef0123456789abcdef01234567";
  parser_content_hash = some hash;
  configuration_hash = some hash;
  dependency_lock_hash = some hash;
  deployable_digest =
      some "sha256:0123456789abcdef0123456789abcdef0123456789abcdef0123456789abcdef";
  qualifying_benchmark_run = some "run-1";
  status = revoked;
}

rolled_b : get_release rolled "b" ≡ some revoked_b
unfolding program
rolled_b = refl

abbrev retried : ReleaseDb
retried = (activate_release eligible 90 gratka "b" "op" "ok" (aware 1040) none rolled).1

ReleaseReach-revoked_example :
    (get_release retried "b" ≡ some revoked_b)
    × ((source : Portal) (p : Activation)
        → get_pointer retried source ≡ some p
        → p.release_hash ≢ "b")
ReleaseReach-revoked_example =
    ReleaseReach-revoked {eligible = eligible} {health = 90} "b" revoked_b
      (ReleaseReach-ReleasesOk bare-ReleasesOk rolled-ReleaseReach) rolled_b refl
      (next here (activates gratka "b" "op" "ok" (aware 1040) none rolled))

second_target : rollback_target second_active gratka ≡ some "a"
unfolding program
second_target = refl

second_target_ne : rollback_target second_active gratka ≢ some "b"
second_target_ne h =
    let e : ◌≡◌ {A = Option String} (some "a") (some "b") = sym second_target ∙ h in
    ground (arith, eq_iff "a" "b")

rollback_release-again_example :
    (is_ok (rollback_release eligible 90 gratka "op" "worse" (aware 1050) 3 rolled).0 ≡ false)
    × ((rollback_release eligible 90 gratka "op" "worse" (aware 1050) 3 rolled).1 ≡ rolled)
rollback_release-again_example =
    rollback_release-again eligible 90 gratka "op" "bad" "op" "worse" (aware 1030) (aware 1050) 2 3
      second_active rolled (record { source = gratka; release_hash = "b"; activation_epoch = 2 }) 3
      (ReleaseReach-ReleasesOk bare-ReleasesOk second-ReleaseReach) second_pointer second_target_ne
      rollback_done
