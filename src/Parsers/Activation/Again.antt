-- ===== src/Parsers/Activation/Again.antt =====
-- A rollback of parser_releases/__init__.py right after a rollback.
use homez.Prelude.{
  ℕ, ◌≡◌, ◌≢◌, refl, sym, ap, ◌∙◌, subst, Bool, true, false, String, some, ok, find, arith, str_eq,
  Datetime, commit-eq-ok, commit_refused, is_ok,
}
use homez.Prelude.TextKeys.{str_eq_self, str_eq_ne}
use homez.ScrapeQueue.Contracts.{Portal, portal_eq}
use homez.ScrapeQueue.Records.{Activation}
use homez.Parsers.Releases.{
  Release, Action, rollback_action, revoked, is_revoked, ReleaseDb, get_release, get_pointer,
}
use homez.Parsers.Activation.{
  current_hash, moved, replaces, previous_of, rollback_target, roll_back, rollback_release,
}
use homez.Parsers.Activation.Replay.{next_pointer, moved-get_pointer}
use homez.Parsers.Activation.Status.{moved-get_release_left}
use homez.Parsers.Activation.Changed.{IsActive, Changed}
use homez.Parsers.Activation.Runs.{ReleasesOk, roll_back-Changed}

rollback_target-pointer :
    (db : ReleaseDb) (source : Portal) (p : Activation)
    → get_pointer db source ≡ some p
    → rollback_target db source ≡ previous_of (find (replaces source p.release_hash) db.audits)
unfolding rollback_target
rollback_target-pointer db source p e = rw (rollback_target, e)

newest-replaces :
    (source : Portal) (hash actor detail : String) (now : ℕ) (action : Action) (db : ReleaseDb)
    (p : Activation)
    → get_pointer db source ≡ some p
    → previous_of (
        find
          (replaces source hash)
          (moved source hash actor detail now action (get_pointer db source) db).audits)
      ≡ some p.release_hash
unfolding moved find
newest-replaces source hash actor detail now action db p at_p =
    let same : portal_eq source source ≡ true = ground arith in rw (at_p, same, str_eq_self hash)

-- After a change the rollback target is the release that the change left.
moved-rollback_target :
    (source : Portal) (hash actor detail : String) (now : ℕ) (action : Action) (db : ReleaseDb)
    (p : Activation)
    → get_pointer db source ≡ some p
    → rollback_target (moved source hash actor detail now action (get_pointer db source) db) source
      ≡ some p.release_hash
moved-rollback_target source hash actor detail now action db p at_p =
    rollback_target-pointer (moved source hash actor detail now action (get_pointer db source) db)
      source (next_pointer source hash actor detail now action db)
      (moved-get_pointer source hash actor detail now action db)
    ∙ newest-replaces source hash actor detail now action db p at_p

-- After a rollback to another release, the target is the release that it revoked.
rolled-target :
    (source : Portal) (target actor detail : String) (db after : ReleaseDb) (p : Activation)
    → IsActive db source p.release_hash
    → get_pointer db source ≡ some p
    → str_eq p.release_hash target ≡ false
    → Changed source target actor detail rollback_action db after
    → (rollback_target after source ≡ some p.release_hash)
      × (r : Release) × (get_release after p.release_hash ≡ some r)
      × (is_revoked r.status ≡ true)
rolled-target source target actor detail db after p a at_p apart c =
    let at_hash : current_hash (get_pointer db source) ≡ some p.release_hash = rw at_p in
    subst
      (λ (d : ReleaseDb).
        (rollback_target d source ≡ some p.release_hash)
        × (r : Release) × (get_release d p.release_hash ≡ some r)
        × (is_revoked r.status ≡ true))
      (sym c.written)
      (
        moved-rollback_target source target actor detail c.now rollback_action db p at_p,
        record a.release { status = revoked },
        moved-get_release_left source target actor detail c.now rollback_action db c.candidate
            c.found p.release_hash a.release at_hash apart a.known,
        refl,
      )

-- A rollback to a revoked release is refused.
revoked_target-refused :
    (eligible : Portal → String → String → ℕ → Bool) (health : ℕ) (source : Portal)
    (actor reason : String) (now : Datetime) (expected : ℕ) (db : ReleaseDb) (hash : String)
    (r : Release) (out : ℕ × ReleaseDb)
    → rollback_target db source ≡ some hash
    → get_release db hash ≡ some r
    → is_revoked r.status ≡ true
    → roll_back eligible health source actor reason now expected db ≡ ok out
    → ⊥
revoked_target-refused eligible health source actor reason now expected db hash r out at_hash known
      over done =
    let (target, found, c) =
      roll_back-Changed eligible health source actor reason now expected db out done in
    let same : target ≡ hash = ground arith in
    let there : get_release db hash ≡ some c.candidate =
      subst (λ (k : String). get_release db k ≡ some c.candidate) same c.found in
    let one : c.candidate ≡ r = ground arith in
    let fine = subst (λ (x : Release). is_revoked x.status ≡ false) one c.usable in cc

-- If a rollback went through and its target was not the release that was active already, then a
-- rollback of the same portal right after it, by anyone and with any arguments, raises and leaves
-- the store as it was: its target is the release that the first rollback revoked.
pub rollback_release-again :
    (eligible : Portal → String → String → ℕ → Bool) (health : ℕ) (source : Portal)
    (actor reason actor' reason' : String) (now now' : Datetime) (expected expected' : ℕ)
    (db after : ReleaseDb) (p : Activation) (epoch : ℕ)
    → ReleasesOk db
    → get_pointer db source ≡ some p
    → rollback_target db source ≢ some p.release_hash
    → rollback_release eligible health source actor reason now expected db ≡ (ok epoch, after)
    → (is_ok (rollback_release eligible health source actor' reason' now' expected' after).0
        ≡ false)
      × ((rollback_release eligible health source actor' reason' now' expected' after).1 ≡ after)
unfolding rollback_release
rollback_release-again eligible health source actor reason actor' reason' now now' expected
      expected' db after p epoch h at_p other done =
    let went =
      commit-eq-ok (roll_back eligible health source actor reason now expected db) db after epoch
        done in
    let (target, found, c) =
      roll_back-Changed eligible health source actor reason now expected db (epoch, after) went in
    let apart : str_eq p.release_hash target ≡ false =
      str_eq_ne p.release_hash target (λ e. other (found ∙ ap some (sym e))) in
    let (at_left, r, known, over) =
      rolled-target source target actor reason db after p (h.pointed source p at_p) at_p apart c in
    commit_refused (roll_back eligible health source actor' reason' now' expected' after) after
      (λ out again.
        revoked_target-refused eligible health source actor' reason' now' expected' after
          p.release_hash r out at_left known over again)
