-- ===== src/Parsers/Activation/Status.antt =====
-- The states of the releases of parser_releases/__init__.py as a pointer moves.
use homez.Prelude.{
  ℕ, ◌≡◌, refl, sym, ◌∙◌, subst, false, String, Option, none, some, find, find-holds, find-replace,
  Bool-cases, inl, inr, str_eq, eq_iff,
}
use homez.Prelude.TextKeys.{str_ne_sym, find-replace_other}
use homez.ScrapeQueue.Contracts.{Portal}
use homez.Parsers.Releases.{
  ReleaseStatus, active, Release, Action, ReleaseDb, has_hash, get_release, get_pointer,
}
use homez.Parsers.Activation.{current_hash, set_status, withdraw, withdrawn_status, moved}

get_release-hash :
    (db : ReleaseDb) (hash : String) {r : Release}
    → get_release db hash ≡ some r
    → r.release_hash ≡ hash
unfolding get_release
get_release-hash db hash {r} found =
    (eq_iff r.release_hash hash).0 (find-holds (has_hash hash) db.releases found)

set_status_other :
    (status : ReleaseStatus) (o : Option Release) (db : ReleaseDb) (k : String)
    → ((r : Release) → o ≡ some r → str_eq r.release_hash k ≡ false)
    → get_release (set_status status o db) k ≡ get_release db k
unfolding get_release
set_status_other status none db k apart = refl
set_status_other status (some r) db k apart =
    find-replace_other (has_hash r.release_hash) (has_hash k) (record r { status = status })
      db.releases (apart r refl)
      (λ z hit.
        subst (λ (t : String). str_eq t k ≡ false)
          (sym ((eq_iff z.release_hash r.release_hash).0 hit)) (apart r refl))

set_status_self :
    (status : ReleaseStatus) (db : ReleaseDb) (hash : String) (r : Release)
    → get_release db hash ≡ some r
    → get_release (set_status status (get_release db hash) db) hash
      ≡ some (record r { status = status })
unfolding get_release
set_status_self status db hash r found =
    let same : r.release_hash ≡ hash = get_release-hash db hash found in
    let own : find (has_hash r.release_hash) db.releases ≡ some r =
      subst (λ (t : String). find (has_hash t) db.releases ≡ some r) (sym same) found in
    rw found (
      find-replace (has_hash r.release_hash) (has_hash hash) (record r { status = status })
        db.releases own ((eq_iff r.release_hash hash).1 same)
        (λ z miss. subst (λ (t : String). str_eq z.release_hash t ≡ false) same miss))

withdraw_other :
    (action : Action) (hash : String) (o : Option String) (db : ReleaseDb) (k : String)
    → ((c : String) → o ≡ some c → str_eq c hash ≡ false → str_eq c k ≡ false)
    → get_release (withdraw action hash o db) k ≡ get_release db k
withdraw_other action hash none db k apart = refl
withdraw_other action hash (some c) db k apart = elim (Bool-cases (str_eq c hash)) [
  | inl same ↦ rw same
  | inr other ↦ rw other (
      set_status_other (withdrawn_status action) (get_release db c) db k (λ r found.
        subst (λ (t : String). str_eq t k ≡ false) (sym (get_release-hash db c found))
          (apart c refl other)))
]

module _ (source : Portal) (hash actor detail : String) (now : ℕ) (action : Action) (db : ReleaseDb)
    (candidate : Release) (found : get_release db hash ≡ some candidate) where
  abbrev after_move : ReleaseDb
  after_move = moved source hash actor detail now action (get_pointer db source) db

  abbrev left : ReleaseDb
  left = withdraw action hash (current_hash (get_pointer db source)) db

  left-candidate : get_release left hash ≡ some candidate
  left-candidate =
      withdraw_other action hash (current_hash (get_pointer db source)) db hash (λ c e apart. apart)
      ∙ found

  -- The release that the pointer moves to is active.
  pub moved-get_release : get_release after_move hash ≡ some (record candidate { status = active })
  unfolding moved get_release
  moved-get_release = set_status_self active left hash candidate left-candidate

  -- A release that the pointer neither leaves nor moves to stays as it is.
  pub moved-get_release_other :
      (k : String)
      → str_eq hash k ≡ false
      → ((c : String) → current_hash (get_pointer db source) ≡ some c → str_eq c k ≡ false)
      → get_release after_move k ≡ get_release db k
  unfolding moved get_release
  moved-get_release_other k apart stays =
      set_status_other active (get_release left hash) left k (λ r e.
        subst (λ (t : String). str_eq t k ≡ false) (sym (get_release-hash left hash e)) apart)
      ∙ withdraw_other action hash (current_hash (get_pointer db source)) db k
          (λ c e other. stays c e)

  -- The release that the pointer leaves is withdrawn.
  pub moved-get_release_left :
      (k : String) (r : Release)
      → current_hash (get_pointer db source) ≡ some k
      → str_eq k hash ≡ false
      → get_release db k ≡ some r
      → get_release after_move k ≡ some (record r { status = withdrawn_status action })
  unfolding moved get_release
  moved-get_release_left k r at_k apart known =
      set_status_other active (get_release left hash) left k (λ x e.
        subst (λ (t : String). str_eq t k ≡ false) (sym (get_release-hash left hash e))
          (str_ne_sym k hash apart))
      ∙ rw (at_k, apart) (set_status_self (withdrawn_status action) db k r known)
