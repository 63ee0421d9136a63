-- ===== src/Parsers/Activation/Replay.antt =====
-- The audits of parser_releases/__init__.py against the pointers.
use homez.Prelude.{
  ℕ, ◌+◌, ◌≡◌, refl, subst, Bool, true, false, not, is_some, ◌&&◌, String, List, [], ◌∷◌, Option,
  none, some, find, find-replace, ◌==◌, Bool-cases, inl, inr, arith, if◌then◌else◌,
}
use homez.Prelude.TextKeys.{str_eq_self, find-replace_other}
use homez.ScrapeQueue.Contracts.{Portal, portal_eq}
use homez.ScrapeQueue.Records.{Activation}
use homez.ScrapeQueue.Budget.Limits.{portal_eq→≡}
use homez.Parsers.Releases.{Action, Audit, ReleaseDb, get_pointer, is_pointer_of, is_value}
use homez.Parsers.Activation.{current_hash, current_epoch, move_pointer, moved}

-- The release that is active, and its epoch; nothing before the first activation.
abbrev pub Pointer : Type 0
Pointer = Option (String × ℕ)

abbrev pub pointer_at : Option Activation → Pointer
pointer_at none = none
pointer_at (some p) = some (p.release_hash, p.activation_epoch)

-- The audit continues from the pointer: it names the release that was active, and counts on.
abbrev pub follows : Pointer → Audit → Bool
follows none a = not (is_some a.previous_release_hash) && (a.activation_epoch == 1)
follows (some (hash, epoch)) a =
    is_value a.previous_release_hash hash && (a.activation_epoch == epoch + 1)

-- What the audits of a portal, replayed one by one, make of it; nothing if one does not follow.
abbrev pub advance : Option Pointer → Audit → Option Pointer
advance none a = none
advance (some p) a = if follows p a then some (some (a.release_hash, a.activation_epoch)) else none

unfoldable pub replay : Portal → List Audit → Option Pointer
replay source [] = some none
replay source (a ∷ older) =
    let before = replay source older in
    if portal_eq a.source source then advance before a else before

-- For each portal the replay of its audits gives the pointer.
abbrev pub IsLogged : ReleaseDb → Type 0
IsLogged db =
    (source : Portal) → replay source db.audits ≡ some (pointer_at (get_pointer db source))

follows-current :
    (source : Portal) (hash actor detail : String) (now : ℕ) (action : Action)
    (p : Option Activation)
    → follows (pointer_at p) (record {
      source = source;
      activation_epoch = current_epoch p + 1;
      previous_release_hash = current_hash p;
      release_hash = hash;
      action = action;
      actor = actor;
      compared_metrics = detail;
      occurred_at = now;
    })
      ≡ true
follows-current source hash actor detail now action none = refl
follows-current source hash actor detail now action (some p) =
    ground (arith, str_eq_self p.release_hash)

-- The pointer of the portal after a change, and those of the others.
find-move_pointer :
    (new : Activation) (o : Option Activation) (pointers : List Activation)
    → find (is_pointer_of new.source) pointers ≡ o
    → find (is_pointer_of new.source) (move_pointer o new pointers) ≡ some new
unfolding find
find-move_pointer new none pointers e = ground arith
find-move_pointer new (some p) pointers e =
    find-replace (is_pointer_of new.source) (is_pointer_of new.source) new pointers e (ground arith)
      (λ z miss. miss)

find-move_pointer_other :
    (new : Activation) (o : Option Activation) (pointers : List Activation) (other : Portal)
    → portal_eq new.source other ≡ false
    → find (is_pointer_of other) (move_pointer o new pointers) ≡ find (is_pointer_of other) pointers
unfolding find
find-move_pointer_other new none pointers other apart = rw apart
find-move_pointer_other new (some p) pointers other apart =
    find-replace_other (is_pointer_of new.source) (is_pointer_of other) new pointers apart
      (λ z hit. ground arith)

-- The pointers after a change: the portal's names the release, under the next epoch.
module _ (source : Portal) (hash actor detail : String) (now : ℕ) (action : Action)
    (db : ReleaseDb) where
  abbrev pub next_pointer : Activation
  next_pointer = record {
    source = source;
    release_hash = hash;
    activation_epoch = current_epoch (get_pointer db source) + 1;
  }

  abbrev after_move : ReleaseDb
  after_move = moved source hash actor detail now action (get_pointer db source) db

  pub moved-get_pointer : get_pointer after_move source ≡ some (next_pointer)
  unfolding moved get_pointer
  moved-get_pointer = find-move_pointer next_pointer (get_pointer db source) db.pointers refl

  pub moved-get_pointer_other :
      (other : Portal)
      → portal_eq source other ≡ false
      → get_pointer after_move other ≡ get_pointer db other
  unfolding moved get_pointer
  moved-get_pointer_other other apart =
      find-move_pointer_other next_pointer (get_pointer db source) db.pointers other apart

  module _ (h : IsLogged db) where
    moved-replay :
        replay source after_move.audits ≡ some (pointer_at (get_pointer after_move source))
    unfolding moved replay
    moved-replay =
        let on = follows-current source hash actor detail now action (get_pointer db source) in
        let same : portal_eq source source ≡ true = ground arith in
        rw (same, h source, on, moved-get_pointer)

    moved-replay_other :
        (other : Portal)
        → portal_eq source other ≡ false
        → replay other after_move.audits ≡ some (pointer_at (get_pointer after_move other))
    unfolding moved replay
    moved-replay_other other apart = rw (apart, moved-get_pointer_other other apart) (h other)

    pub moved-IsLogged : IsLogged after_move
    moved-IsLogged other = elim (Bool-cases (portal_eq source other)) [
      | inl same ↦
          subst
            (λ (s : Portal).
              replay s after_move.audits ≡ some (pointer_at (get_pointer after_move s)))
            (portal_eq→≡ source other same) moved-replay
      | inr apart ↦ moved-replay_other other apart
    ]
