-- ===== src/Parsers/Activation/Changed.antt =====
-- A change of a pointer of parser_releases/__init__.py that went through.
use homez.Prelude.{
  ℕ, ◌+◌, ◌≡◌, refl, sym, ap, ◌∙◌, subst, Bool, true, false, not, is_some, ◌&&◌, String, Option,
  none, some, ok, value_error, runtime_error, integrity_error, >>=-eq-ok, ok-injective, guard,
  guard-eq-ok, find, Bool-cases, Option-cases, inl, inr, arith, str_eq, eq_iff, Datetime,
  require_aware,
}
use homez.ScrapeQueue.Contracts.{Portal, portal_eq, nas, vps}
use homez.ScrapeQueue.Records.{Activation}
use homez.ScrapeQueue.Budget.Limits.{portal_eq→≡}
use homez.Parsers.Releases.{
  active, revoked, is_revoked, Release, Action, ReleaseDb, get_release, get_pointer,
}
use homez.Parsers.Activation.{
  audit_text, has_portal, current_hash, current_epoch, is_expected, all_advertised, required_hashes,
  owned_release, has_evidence, audit_key, moved, change_pointer,
}
use homez.Parsers.Activation.Replay.{
  IsLogged, moved-IsLogged, next_pointer, moved-get_pointer, moved-get_pointer_other,
}
use homez.Parsers.Activation.Status.{moved-get_release, moved-get_release_other}

-- The release of a portal's pointer is the portal's, and active.
pub record IsActive (db : ReleaseDb) (source : Portal) (hash : String) : Type 0 where
  pub release : Release
  pub known : get_release db hash ≡ some release
  pub in_use : release.status ≡ active
  pub owned : release.source ≡ source

abbrev pub IsPointed : ReleaseDb → Type 0
IsPointed db =
    (source : Portal) (p : Activation)
    → get_pointer db source ≡ some p
    → IsActive db source p.release_hash

-- What a change that went through had checked, and what it wrote.
pub record Changed (source : Portal) (hash actor detail : String) (action : Action)
    (db after : ReleaseDb) : Type 0 where
  pub now : ℕ
  pub candidate : Release
  pub found : get_release db hash ≡ some candidate
  pub owned : candidate.source ≡ source
  pub usable : is_revoked candidate.status ≡ false
  pub written : after ≡ moved source hash actor detail now action (get_pointer db source) db

owned_release-eq-ok :
    (o : Option Release) (source : Portal) {r : Release}
    → owned_release o source ≡ ok r
    → (o ≡ some r) × (r.source ≡ source)
owned_release-eq-ok none source h = absurd (cc)
owned_release-eq-ok (some v) source {r} h = elim (Bool-cases (portal_eq v.source source)) [
  | inl same ↦
      let e : v ≡ r = ok-injective (rw same at h) in
      (ap some e, subst (λ (x : Release). x.source ≡ source) e (portal_eq→≡ v.source source same))
  | inr other ↦ absurd (let e = rw other at h in cc)
]

pub change_pointer-Changed :
    (eligible : Portal → String → String → ℕ → Bool) (health : ℕ) (source : Portal)
    (hash actor detail : String) (supplied : Datetime) (action : Action) (expected : Option ℕ)
    (db : ReleaseDb) (out : ℕ × ReleaseDb)
    → change_pointer eligible health source hash actor detail supplied action expected db ≡ ok out
    → Changed source hash actor detail action db out.1
unfolding change_pointer
change_pointer-Changed eligible health source hash actor detail supplied action expected db out
      done =
    let pointer = get_pointer db source in
    let (now, aware, h1) = >>=-eq-ok (require_aware supplied) _ done in
    let (_, texts, h2) = >>=-eq-ok (guard (audit_text actor detail) value_error) _ h1 in
    let (_, configured, h3) = >>=-eq-ok (guard (has_portal source db.sources) runtime_error) _ h2 in
    let (_, expects, h4) =
      >>=-eq-ok (guard (is_expected expected (current_epoch pointer)) runtime_error) _ h3 in
    let (candidate, mine, h5) = >>=-eq-ok (owned_release (get_release db hash) source) _ h4 in
    let (_, usable, h6) =
      >>=-eq-ok (guard (not (is_revoked candidate.status)) runtime_error) _ h5 in
    let (_, workers, h7) =
      >>=-eq-ok
        (guard
          (all_advertised source nas health now (required_hashes hash (current_hash pointer))
              db.workers
            && all_advertised source vps health now (required_hashes hash (current_hash pointer))
                db.workers)
          runtime_error)
        _ h6 in
    let (_, evidence, h8) =
      >>=-eq-ok (guard (has_evidence eligible action candidate now) runtime_error) _ h7 in
    let (_, unique, made) =
      >>=-eq-ok
        (guard (not (is_some (find (audit_key source (current_epoch pointer + 1)) db.audits)))
          integrity_error)
        _ h8 in
    let (found, owned) = owned_release-eq-ok (get_release db hash) source mine in
    let test = guard-eq-ok (not (is_revoked candidate.status)) runtime_error usable in
    record {
      now = now;
      candidate = candidate;
      found = found;
      owned = owned;
      usable = ground arith;
      written = sym (ap (λ (o : ℕ × ReleaseDb). o.1) (ok-injective made));
    }

-- Two releases that a test tells apart have different hashes.
found_apart :
    (test : Release → Bool) (db : ReleaseDb) (a b : String) (x y : Release)
    → get_release db a ≡ some x
    → get_release db b ≡ some y
    → test x ≡ false
    → test y ≡ true
    → str_eq a b ≡ false
found_apart test db a b x y hx hy no_x yes_y = elim (Bool-cases (str_eq a b)) [
  | inr other ↦ other
  | inl same ↦
      let e : get_release db b ≡ some x =
        subst (λ (t : String). get_release db t ≡ some x) ((eq_iff a b).0 same) hx in
      let both : x ≡ y = ground arith in
      absurd (let c = subst (λ (r : Release). test r ≡ false) both no_x in cc)
]

current-IsActive :
    (db : ReleaseDb) (source : Portal) (c : String)
    → IsPointed db
    → current_hash (get_pointer db source) ≡ some c
    → IsActive db source c
current-IsActive db source c h e = elim (Option-cases (get_pointer db source)) [
  | inl none_there ↦ absurd (let t = rw none_there at e in cc)
  | inr (p, found) ↦
      let same : p.release_hash ≡ c = (let t = rw found at e in ground arith) in
      subst (λ (k : String). IsActive db source k) same (h source p found)
]

module _ (source : Portal) (hash actor detail : String) (action : Action) (db after : ReleaseDb)
    (h : IsPointed db) (c : Changed source hash actor detail action db after) where
  abbrev new_db : ReleaseDb
  new_db = moved source hash actor detail c.now action (get_pointer db source) db

  Changed-get_release_other :
      (test : Release → Bool) (k : String) (r : Release)
      → get_release db k ≡ some r
      → test r ≡ true
      → test c.candidate ≡ false
      → ((x : Release) → x.status ≡ active → x.source ≡ source → test x ≡ false)
      → get_release new_db k ≡ some r
  Changed-get_release_other test k r found holds fails never =
      moved-get_release_other source hash actor detail c.now action db c.candidate c.found k
        (found_apart test db hash k c.candidate r c.found found fails holds)
        (λ cur e.
          let a = current-IsActive db source cur h e in
          found_apart test db cur k a.release r a.known found (never a.release a.in_use a.owned)
            holds)
      ∙ found

  new_db-IsActive : IsActive new_db source hash
  new_db-IsActive = record {
    release = record c.candidate { status = active };
    known = moved-get_release source hash actor detail c.now action db c.candidate c.found;
    in_use = refl;
    owned = c.owned;
  }

  new_db-IsActive_other :
      (t : Portal) (k : String) → portal_eq source t ≡ false → IsActive db t k → IsActive new_db t k
  new_db-IsActive_other t k apart a =
      let test = λ (r : Release). portal_eq r.source t in
      record {
        release = a.release;
        known =
            Changed-get_release_other test k a.release a.known (rw a.owned (ground arith))
              (rw c.owned apart) (λ x used mine. rw mine apart);
        in_use = a.in_use;
        owned = a.owned;
      }

  new_db-IsPointed : IsPointed new_db
  new_db-IsPointed t p e = elim (Bool-cases (portal_eq source t)) [
    | inl same ↦
        let t' : source ≡ t = portal_eq→≡ source t same in
        let mine : get_pointer new_db t
            ≡ some (next_pointer source hash actor detail c.now action db) =
          subst
            (λ (s : Portal).
              get_pointer new_db s ≡ some (next_pointer source hash actor detail c.now action db))
            t' (moved-get_pointer source hash actor detail c.now action db) in
        let k : hash ≡ p.release_hash = ground arith in
        subst (λ (x : String). IsActive new_db t x) k
          (subst (λ (s : Portal). IsActive new_db s hash) t' new_db-IsActive)
    | inr apart ↦
        let before : get_pointer db t ≡ some p =
          sym (moved-get_pointer_other source hash actor detail c.now action db t apart) ∙ e in
        new_db-IsActive_other t p.release_hash apart (h t p before)
  ]

  pub Changed-IsPointed : IsPointed after
  Changed-IsPointed = subst (λ (d : ReleaseDb). IsPointed d) (sym c.written) new_db-IsPointed

  pub Changed-IsLogged : IsLogged db → IsLogged after
  Changed-IsLogged logged =
      subst (λ (d : ReleaseDb). IsLogged d) (sym c.written)
        (moved-IsLogged source hash actor detail c.now action db logged)

  pub Changed-revoked :
      (k : String) (r : Release)
      → get_release db k ≡ some r
      → r.status ≡ revoked
      → get_release after k ≡ some r
  Changed-revoked k r found over =
      subst (λ (d : ReleaseDb). get_release d k ≡ some r) (sym c.written)
        (Changed-get_release_other (λ (x : Release). is_revoked x.status) k r found (rw over refl)
          c.usable (λ x used mine. rw used refl))
