-- ===== src/ScrapeQueue/Completion/Later.antt =====
-- scrape_queue/repository.py: what the checks of `complete` find, and find again later.
use homez.Prelude.{
  ==_iff, eq_iff, ℕ, ◌≤◌, ◌≡◌, refl, sym, Bool, true, false, not, ◌||◌, ◌&&◌, List, is_some, ok,
  value_error, >>=-eq-ok, guard, guard-eq-ok, ok-injective, arith, aware, require_aware, leb,
}
use homez.ScrapeQueue.Contracts.{ScrapeLease, is_discovery}
use homez.ScrapeQueue.Captures.{CaptureOutcome}
use homez.Parsers.Fields.{ResolvedField, declared_fields}
use homez.ScrapeQueue.Completion.Checks.{
  Encoding, Checked, check_outcome, has_names, all_sound, used_fields, is_valid_capture, all_valid,
}

&&_map : (a b b' : Bool) → (b ≡ true → b' ≡ true) → (a && b) ≡ true → (a && b') ≡ true
&&_map true b b' f h = f h
&&_map false b b' f h = h

&&_weaken : (a a' b : Bool) → (a ≡ true → a' ≡ true) → (a && b) ≡ true → (a' && b) ≡ true
&&_weaken true a' b f h = rw (f refl) h
&&_weaken false a' b f h = absurd (ground arith)

leb_later : (a b c : ℕ) → b ≤ c → leb a b ≡ true → leb a c ≡ true
leb_later a b c h e = ground arith

-- An outcome that was valid is valid later.
is_valid_capture_later :
    (lease : ScrapeLease) (o : CaptureOutcome) (fields : List ResolvedField) (fetched now now' : ℕ)
    → now ≤ now'
    → is_valid_capture lease o fields fetched now ≡ true
    → is_valid_capture lease o fields fetched now' ≡ true
unfolding is_valid_capture
is_valid_capture_later lease o fields fetched now now' later h =
    &&_weaken _ _ _
      (&&_weaken _ _ _ (
        &&_weaken _ _ _ (
          &&_weaken _ _ _ (
            &&_weaken _ _ _ (
              &&_weaken _ _ _ (
                &&_weaken _ _ _ (
                  &&_weaken _ _ _ (
                    &&_map _ (leb fetched now) (leb fetched now')
                      (leb_later fetched now now' later)))))))))
      h

&&_parts : (a b : Bool) → (a && b) ≡ true → (a ≡ true) × (b ≡ true)
&&_parts true b h = (refl, h)
&&_parts false b h = absurd (ground arith)

-- What a valid outcome says of its result and of the fields.
pub record Agreed (lease : ScrapeLease) (o : CaptureOutcome) (fields : List ResolvedField)
    : Type 0 where
  pub capture_id : o.capture_id ≡ o.result.capture_id
  pub release_hash : o.result.release_hash ≡ lease.release_hash
  pub named : has_names declared_fields fields ≡ true
  pub sound : all_sound fields ≡ true

pub is_valid_capture-Agreed :
    (lease : ScrapeLease) (o : CaptureOutcome) (fields : List ResolvedField) (fetched now : ℕ)
    → is_valid_capture lease o fields fetched now ≡ true
    → Agreed lease o fields
unfolding is_valid_capture
is_valid_capture-Agreed lease o fields fetched now h =
    let (h1, _) = &&_parts _ _ h in
    let (h2, _) = &&_parts _ _ h1 in
    let (h3, _) = &&_parts _ _ h2 in
    let (h4, sound) = &&_parts _ _ h3 in
    let (h5, named) = &&_parts _ _ h4 in
    let (h6, _) = &&_parts _ _ h5 in
    let (h7, _) = &&_parts _ _ h6 in
    let (h8, _) = &&_parts _ _ h7 in
    let (h9, _) = &&_parts _ _ h8 in
    let (h10, hash) = &&_parts _ _ h9 in
    let (_, capture) = &&_parts _ _ h10 in
    record {
      capture_id = (==_iff o.capture_id o.result.capture_id).0 capture;
      release_hash = (eq_iff o.result.release_hash lease.release_hash).0 hash;
      named = named;
      sound = sound;
    }

-- What an outcome that passed the checks has.
pub record Valid (x : Encoding) (lease : ScrapeLease) (o : CaptureOutcome) (now : ℕ) (k : Checked)
    : Type 0 where
  pub fetched : ℕ
  pub fields : List ResolvedField
  pub clocked : require_aware o.fetched_at ≡ ok fetched
  pub used : used_fields o.result.fields o.result.candidates ≡ ok fields
  pub capture : is_valid_capture lease o fields fetched now ≡ true
  pub candidates : all_valid x lease o.result.candidates ≡ true
  pub short : leb (x.encoded_length o) 120000 ≡ true
  pub artifact : (not (is_discovery lease.task_class) || is_some o.artifact_id) ≡ true
  pub left : k ≡ record { now = now; fetched = fetched; fields = fields }

pub check_outcome-Valid :
    (x : Encoding) (lease : ScrapeLease) (o : CaptureOutcome) (now : ℕ) (k : Checked)
    → check_outcome x lease o (aware now) ≡ ok k
    → Valid x lease o now k
unfolding check_outcome
check_outcome-Valid x lease o now k done =
    let (fetched, clocked, d1) = >>=-eq-ok (require_aware o.fetched_at) _ done in
    let (fields, used, d2) = >>=-eq-ok (used_fields o.result.fields o.result.candidates) _ d1 in
    let (_, capture, d3) =
      >>=-eq-ok (guard (is_valid_capture lease o fields fetched now) value_error) _ d2 in
    let (_, candidates, d4) =
      >>=-eq-ok (guard (all_valid x lease o.result.candidates) value_error) _ d3 in
    let (_, short, d5) = >>=-eq-ok (guard (leb (x.encoded_length o) 120000) value_error) _ d4 in
    let (_, artifact, d6) =
      >>=-eq-ok (guard (not (is_discovery lease.task_class) || is_some o.artifact_id) value_error) _
        d5 in
    record {
      fetched = fetched;
      fields = fields;
      clocked = clocked;
      used = used;
      capture = guard-eq-ok _ _ capture;
      candidates = guard-eq-ok _ _ candidates;
      short = guard-eq-ok _ _ short;
      artifact = guard-eq-ok _ _ artifact;
      left = sym (ok-injective d6);
    }

-- So the checks pass again, with the same fields.
pub check_outcome_later :
    (x : Encoding) (lease : ScrapeLease) (o : CaptureOutcome) (now now' : ℕ) (k : Checked)
    → now ≤ now'
    → check_outcome x lease o (aware now) ≡ ok k
    → check_outcome x lease o (aware now') ≡ ok (record k { now = now' })
unfolding check_outcome
check_outcome_later x lease o now now' k later done =
    let v = check_outcome-Valid x lease o now k done in
    rw
      (
        v.clocked,
        v.used,
        is_valid_capture_later lease o v.fields v.fetched now now' later v.capture,
        v.candidates,
        v.short,
        v.artifact,
        v.left,
      )
      refl

-- A discovery has an artifact.
pub check_outcome-artifact :
    (x : Encoding) (lease : ScrapeLease) (o : CaptureOutcome) (now : ℕ) (k : Checked)
    → is_discovery lease.task_class ≡ true
    → check_outcome x lease o (aware now) ≡ ok k
    → is_some o.artifact_id ≡ true
check_outcome-artifact x lease o now k kind done =
    rw kind at (check_outcome-Valid x lease o now k done).artifact
