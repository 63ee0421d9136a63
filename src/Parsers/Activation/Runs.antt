-- ===== src/Parsers/Activation/Runs.antt =====
-- Runs of the operations of parser_releases/__init__.py, by any number of operators.
use homez.Prelude.{
  ℕ, ◌≡◌, ◌≢◌, arith, subst, String, Option, some, ok, value_error, >>=-eq-ok, ok-injective, guard,
  insert, Bool, Bool-cases, Option-cases, inl, inr, Datetime, require_aware, commit_keeps,
}
use homez.Prelude.TextKeys.{find-insert_old}
use homez.ScrapeQueue.Contracts.{Portal}
use homez.ScrapeQueue.Records.{Activation}
use homez.Parsers.Releases.{
  ReleaseStatus, active, revoked, Build, Release, Action, activate_action, rollback_action,
  ReleaseDb, has_hash, get_release, get_pointer, new_release, same_build, add_release,
  register_release,
}
use homez.Parsers.Activation.{
  change_pointer, activate_release, rollback_target, roll_back, rollback_release, audit_text,
}
use homez.Parsers.Activation.Replay.{IsLogged}
use homez.Parsers.Activation.Changed.{
  IsPointed, Changed, change_pointer-Changed, Changed-IsPointed, Changed-IsLogged, Changed-revoked,
}

-- The pointers and the audits agree, and every pointer is at an active release of its portal.
pub record ReleasesOk (db : ReleaseDb) : Type 0 where
  pub logged : IsLogged db
  pub pointed : IsPointed db

-- One operation, with any arguments.
pub data ReleaseStep (eligible : Portal → String → String → ℕ → Bool) (health : ℕ)
    : ReleaseDb → ReleaseDb → Type 0 where
  registers :
      (hash : String) (b : Build) (now : Datetime) (db : ReleaseDb)
      → ReleaseStep eligible health db (register_release hash b now db).1
  activates :
      (source : Portal) (hash actor detail : String) (now : Datetime) (expected : Option ℕ)
      (db : ReleaseDb)
      → ReleaseStep eligible health db
          (activate_release eligible health source hash actor detail now expected db).1
  rolls_back :
      (source : Portal) (actor reason : String) (now : Datetime) (expected : ℕ) (db : ReleaseDb)
      → ReleaseStep eligible health db
          (rollback_release eligible health source actor reason now expected db).1

pub data ReleaseReach (eligible : Portal → String → String → ℕ → Bool) (health : ℕ)
    (start : ReleaseDb) : ReleaseDb → Type 0 where
  here : ReleaseReach eligible health start start
  next :
      {db after : ReleaseDb}
      → ReleaseReach eligible health start db
      → ReleaseStep eligible health db after
      → ReleaseReach eligible health start after

-- What a transaction keeps: the invariant, and the releases that are revoked.
record Keeps (db after : ReleaseDb) : Type 0 where
  fine : ReleasesOk after
  over :
      (k : String) (r : Release)
      → get_release db k ≡ some r
      → r.status ≡ revoked
      → get_release after k ≡ some r

Keeps-refl : (db : ReleaseDb) → ReleasesOk db → Keeps db db
Keeps-refl db h = record { fine = h; over = λ k r found e. found }

add_release-Keeps :
    (hash : String) (b : Build) (supplied : Datetime) (db : ReleaseDb)
    (out : (String × ReleaseStatus) × ReleaseDb)
    → ReleasesOk db
    → add_release hash b supplied db ≡ ok out
    → Keeps db out.1
unfolding add_release get_pointer get_release
add_release-Keeps hash b supplied db out h done =
    let (now, aware, h1) = >>=-eq-ok (require_aware supplied) _ done in
    elim (Option-cases (get_release db hash)) [
      | inr (r, old) ↦ elim (Bool-cases (same_build r b)) [
        | inl same ↦
            subst (λ (o : (String × ReleaseStatus) × ReleaseDb). Keeps db o.1)
              (ok-injective (rw (old, same) at h1)) (Keeps-refl db h)
        | inr other ↦ absurd (let e = rw (old, other) at h1 in cc)
      ]
      | inl new ↦
          let (rows, added, made) =
            >>=-eq-ok (insert (has_hash hash) (new_release hash b now) db.releases) _
              (rw new at h1) in
          let grown : ReleaseDb = record db { releases = rows } in
          let still = λ (k : String) (r : Release) (found : get_release db k ≡ some r).
            find-insert_old (has_hash hash) (has_hash k) (new_release hash b now) db.releases rows
              found added in
          subst (λ (o : (String × ReleaseStatus) × ReleaseDb). Keeps db o.1) (ok-injective made)
            (record {
              fine = record {
                logged = h.logged;
                pointed = λ source p found.
                    let a = h.pointed source p found in
                    record {
                      release = a.release;
                      known = still p.release_hash a.release a.known;
                      in_use = a.in_use;
                      owned = a.owned;
                    };
              };
              over = λ k r found e. still k r found;
            })
    ]

Changed-Keeps :
    (source : Portal) (hash actor detail : String) (action : Action) (db after : ReleaseDb)
    → ReleasesOk db
    → Changed source hash actor detail action db after
    → Keeps db after
Changed-Keeps source hash actor detail action db after h c = record {
  fine = record {
    logged = Changed-IsLogged source hash actor detail action db after h.pointed c h.logged;
    pointed = Changed-IsPointed source hash actor detail action db after h.pointed c;
  };
  over = Changed-revoked source hash actor detail action db after h.pointed c;
}

-- A rollback that went through is a change to some release.
pub roll_back-Changed :
    (eligible : Portal → String → String → ℕ → Bool) (health : ℕ) (source : Portal)
    (actor reason : String) (now : Datetime) (expected : ℕ) (db : ReleaseDb) (out : ℕ × ReleaseDb)
    → roll_back eligible health source actor reason now expected db ≡ ok out
    → (target : String) × (rollback_target db source ≡ some target)
      × Changed source target actor reason rollback_action db out.1
unfolding roll_back
roll_back-Changed eligible health source actor reason now expected db out done =
    let (_, texts, h1) = >>=-eq-ok (guard (audit_text actor reason) value_error) _ done in
    elim (Option-cases (rollback_target db source)) [
      | inl missing ↦ absurd (let e = rw missing at h1 in cc)
      | inr (target, found) ↦ (
        target,
        found,
        change_pointer-Changed eligible health source target actor reason now rollback_action
            (some expected) db out (rw found at h1),
      )
    ]

ReleaseStep-Keeps :
    {eligible : Portal → String → String → ℕ → Bool} {health : ℕ} {db after : ReleaseDb}
    → ReleaseStep eligible health db after
    → ReleasesOk db
    → Keeps db after
unfolding register_release activate_release rollback_release
ReleaseStep-Keeps (registers hash b now db) h =
    commit_keeps (Keeps db) (add_release hash b now db) db (Keeps-refl db h)
      (λ out done. add_release-Keeps hash b now db out h done)
ReleaseStep-Keeps {eligible} {health} (activates source hash actor detail now expected db) h =
    commit_keeps (Keeps db)
      (change_pointer eligible health source hash actor detail now activate_action expected db) db
      (Keeps-refl db h)
      (λ out done. Changed-Keeps source hash actor detail activate_action db out.1 h (
        change_pointer-Changed eligible health source hash actor detail now activate_action expected
          db out done))
ReleaseStep-Keeps {eligible} {health} (rolls_back source actor reason now expected db) h =
    commit_keeps (Keeps db) (roll_back eligible health source actor reason now expected db) db
      (Keeps-refl db h)
      (λ out done.
        let (target, found, c) =
          roll_back-Changed eligible health source actor reason now expected db out done in
        Changed-Keeps source target actor reason rollback_action db out.1 h c)

-- From a store in which the pointers agree with the audits and stand at active releases of their
-- portals, every store that registrations, activations and rollbacks reach in any order is such a
-- store: for each portal the replay of its audits, in which each audit has to name the release that
-- was active before it and to carry the next epoch, gives the release and the epoch of the pointer;
-- and that release is the portal's own and active.
pub ReleaseReach-ReleasesOk :
    {eligible : Portal → String → String → ℕ → Bool} {health : ℕ} {start db : ReleaseDb}
    → ReleasesOk start
    → ReleaseReach eligible health start db
    → ReleasesOk db
ReleaseReach-ReleasesOk h here = h
ReleaseReach-ReleasesOk h (next r step) =
    (ReleaseStep-Keeps step (ReleaseReach-ReleasesOk h r)).fine

still_revoked :
    {eligible : Portal → String → String → ℕ → Bool} {health : ℕ} {start db : ReleaseDb}
    (hash : String) (r : Release)
    → ReleasesOk start
    → get_release start hash ≡ some r
    → r.status ≡ revoked
    → ReleaseReach eligible health start db
    → get_release db hash ≡ some r
still_revoked hash r h found over here = found
still_revoked hash r h found over (next reach step) =
    (ReleaseStep-Keeps step (ReleaseReach-ReleasesOk h reach)).over hash r
      (still_revoked hash r h found over reach) over

-- From such a store, a release that is revoked stays as it is, whatever registrations, activations
-- and rollbacks follow in any order, so that no pointer ever stands at it again.
pub ReleaseReach-revoked :
    {eligible : Portal → String → String → ℕ → Bool} {health : ℕ} {start db : ReleaseDb}
    (hash : String) (r : Release)
    → ReleasesOk start
    → get_release start hash ≡ some r
    → r.status ≡ revoked
    → ReleaseReach eligible health start db
    → (get_release db hash ≡ some r)
      × ((source : Portal) (p : Activation)
          → get_pointer db source ≡ some p
          → p.release_hash ≢ hash)
ReleaseReach-revoked {db} hash r h found over reach =
    let now = still_revoked hash r h found over reach in
    (
      now,
      λ source p e same.
          let a = (ReleaseReach-ReleasesOk h reach).pointed source p e in
          let there = subst (λ (k : String). get_release db k ≡ some a.release) same a.known in
          let one : a.release ≡ r = ground arith in
          absurd (let t = subst (λ (x : Release). x.status ≡ active) one a.in_use in cc),
    )
