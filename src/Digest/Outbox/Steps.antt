-- ===== src/Digest/Outbox/Steps.antt =====
-- Runs of the outbox of digest/delivery.py, by any number of workers.
use homez.Prelude.{
  ℕ, ◌≡◌, ◌≢◌, ◌||◌, true, ap, refl, ◌∙◌, sym, subst, Bool, String, Option, some, ok, >>=-eq-ok,
  ok-injective, inl, inr, insert, Option-cases, Bool-cases, arith, guard, integrity_error, none,
  str_eq, eq_iff, ◌&&◌, commit_keeps,
}
use mathlib.Core.Option.{some-injective}
use homez.Prelude.TextKeys.{UniqueText-replace, UniqueText-insert}
use homez.Digest.Outbox.{
  DeliveryState, pending, sending, retryable_failure, sent, is_waiting_state, is_sending,
  claim_of_delivery, Delivery, OutboxDb, DeliveryClaim, MailAcknowledgement, delivery_period,
  put_delivery, new_delivery, is_fresh_token, is_fresh_message, clashes, get_delivery, add_delivery,
  enqueue_delivery, next_delivery, claimed_delivery, take_delivery, claim_delivery, claimed_row,
  sent_delivery, mark_sent, acknowledge, failed_delivery, mark_failed, fail_delivery,
}
use homez.Digest.Outbox.Contract.{Operation, delivered, delivered-stays}
use homez.Digest.Outbox.Contract
use homez.Digest.Outbox.Stages.{stages, stage_of, stage_in, PeriodsUnique, Refines}
use homez.Digest.Outbox.Refines.{
  next_delivery-row, deliverable-state, add_delivery-Refines, claim-Refines, mark_sent-Refines,
  mark_failed-Refines,
}

-- One call of an operation, and what it is in the contract.
pub data OutboxStep : Operation → OutboxDb → OutboxDb → Type 0 where
  enqueues :
      (period report_id recipient render_version : String) (now : ℕ) (db : OutboxDb)
      → OutboxStep Contract.enqueue db
          (enqueue_delivery period report_id recipient render_version now db).1
  claims :
      (locked : String → Bool) (token now stale_after : ℕ) (db : OutboxDb)
      → OutboxStep (Contract.claim token) db (claim_delivery locked token now stale_after db).1
  acknowledges :
      (c : DeliveryClaim) (a : MailAcknowledgement) (op : Operation) (db : OutboxDb)
      → op ≡ Contract.acknowledge c.claim_token a.provider_message_id
      → OutboxStep op db (acknowledge c a db).1
  fails :
      (c : DeliveryClaim) (now retry_at : ℕ) (reason : String) (op : Operation) (db : OutboxDb)
      → op ≡ Contract.fail c.claim_token
      → OutboxStep op db (fail_delivery c now retry_at reason db).1

put_delivery-PeriodsUnique :
    (r : Delivery) (db : OutboxDb) → PeriodsUnique db → PeriodsUnique (put_delivery r db)
put_delivery-PeriodsUnique r db h =
    UniqueText-replace delivery_period r.period r db.deliveries refl h

add_delivery-PeriodsUnique :
    (period report_id recipient render_version : String) (now : ℕ) (db : OutboxDb)
    (out : Bool × OutboxDb)
    → PeriodsUnique db
    → add_delivery period report_id recipient render_version now db ≡ ok out
    → PeriodsUnique out.1
unfolding add_delivery
add_delivery-PeriodsUnique period report_id recipient render_version now db out h done =
    elim (Option-cases (get_delivery db period)) [
      | inr (r, old) ↦
          elim (Bool-cases (str_eq r.report_id report_id && str_eq r.recipient recipient)) [
            | inl same ↦
                subst (λ (o : Bool × OutboxDb). PeriodsUnique o.1)
                  (ok-injective (rw (add_delivery, old, same) at done)) h
            | inr other ↦ absurd (let e = rw (add_delivery, old, other) at done in cc)
          ]
      | inl new ↦
          let row = new_delivery period report_id recipient render_version now in
          let (rows, added, made) =
            >>=-eq-ok (insert (clashes period report_id) row db.deliveries) _
              (rw (add_delivery, new) at done) in
          subst (λ (o : Bool × OutboxDb). PeriodsUnique o.1) (ok-injective made)
            (UniqueText-insert delivery_period (clashes period report_id) row db.deliveries rows
              (λ z free. ground arith) added h)
    ]

take_delivery-PeriodsUnique :
    (token now : ℕ) (o : Option Delivery) (db : OutboxDb) (out : Option DeliveryClaim × OutboxDb)
    → PeriodsUnique db
    → take_delivery token now o db ≡ ok out
    → PeriodsUnique out.1
unfolding take_delivery
take_delivery-PeriodsUnique token now none db out h done =
    subst (λ (o : Option DeliveryClaim × OutboxDb). PeriodsUnique o.1) (ok-injective done) h
take_delivery-PeriodsUnique token now (some r) db out h done =
    let (u, fresh, made) = >>=-eq-ok (guard (is_fresh_token token db) integrity_error) _ done in
    subst (λ (o : Option DeliveryClaim × OutboxDb). PeriodsUnique o.1) (ok-injective made)
      (put_delivery-PeriodsUnique (claimed_delivery token now r) db h)

mark_sent-PeriodsUnique :
    (c : DeliveryClaim) (a : MailAcknowledgement) (db : OutboxDb) (out : Unit {0} × OutboxDb)
    → PeriodsUnique db
    → mark_sent c a db ≡ ok out
    → PeriodsUnique out.1
unfolding mark_sent
mark_sent-PeriodsUnique c a db out h done =
    let (r, held, h1) = >>=-eq-ok (claimed_row db c) _ done in
    let (u, alone, made) =
      >>=-eq-ok (guard (is_fresh_message r.period a.provider_message_id db) integrity_error) _ h1 in
    subst (λ (o : Unit {0} × OutboxDb). PeriodsUnique o.1) (ok-injective made)
      (put_delivery-PeriodsUnique (sent_delivery a r) db h)

mark_failed-PeriodsUnique :
    (c : DeliveryClaim) (now retry_at : ℕ) (reason : String) (db : OutboxDb)
    (out : Unit {0} × OutboxDb)
    → PeriodsUnique db
    → mark_failed c now retry_at reason db ≡ ok out
    → PeriodsUnique out.1
unfolding mark_failed
mark_failed-PeriodsUnique c now retry_at reason db out h done =
    let (r, held, made) = >>=-eq-ok (claimed_row db c) _ done in
    subst (λ (o : Unit {0} × OutboxDb). PeriodsUnique o.1) (ok-injective made)
      (put_delivery-PeriodsUnique (failed_delivery now retry_at reason r) db h)

OutboxStep-PeriodsUnique :
    {op : Operation} {db after : OutboxDb}
    → OutboxStep op db after
    → PeriodsUnique db
    → PeriodsUnique after
unfolding enqueue_delivery claim_delivery acknowledge fail_delivery
OutboxStep-PeriodsUnique (enqueues p i t v now db) h =
    commit_keeps PeriodsUnique (add_delivery p i t v now db) db h
      (λ out done. add_delivery-PeriodsUnique p i t v now db out h done)
OutboxStep-PeriodsUnique (claims locked token now stale db) h =
    commit_keeps PeriodsUnique (take_delivery token now (next_delivery locked now stale db) db) db h
      (λ out done.
        take_delivery-PeriodsUnique token now (next_delivery locked now stale db) db out h done)
OutboxStep-PeriodsUnique (acknowledges c a op db same) h =
    commit_keeps PeriodsUnique (mark_sent c a db) db h
      (λ out done. mark_sent-PeriodsUnique c a db out h done)
OutboxStep-PeriodsUnique (fails c now retry_at reason op db same) h =
    commit_keeps PeriodsUnique (mark_failed c now retry_at reason db) db h
      (λ out done. mark_failed-PeriodsUnique c now retry_at reason db out h done)

-- In a store whose periods are unique, every call of an operation, also one that raises, leaves the
-- store as it was or makes exactly one move of the contract: an enqueued period waits with no
-- attempts; a claim takes a period that waits or is under way, and counts the attempt; an
-- acknowledgement or a failure moves only a period that is under way by the token of its claim. No
-- other period moves, and the periods stay unique.
pub OutboxStep-Refines :
    {op : Operation} {db after : OutboxDb}
    → OutboxStep op db after
    → PeriodsUnique db
    → Refines op db after × PeriodsUnique after
unfolding enqueue_delivery claim_delivery acknowledge fail_delivery
OutboxStep-Refines {op} {db} step h = (moves step h, OutboxStep-PeriodsUnique step h)
  where
    moves :
        {op : Operation} {db after : OutboxDb}
        → OutboxStep op db after
        → PeriodsUnique db
        → Refines op db after
    moves (enqueues p i t v now db) h =
        commit_keeps (Refines Contract.enqueue db) (add_delivery p i t v now db) db (inl refl)
          (λ out done. add_delivery-Refines p i t v now db out done)
    moves (claims locked token now stale db) h =
        commit_keeps (Refines (Contract.claim token) db)
          (take_delivery token now (next_delivery locked now stale db) db) db (inl refl)
          (λ out done. claim-Refines locked token now stale db out h done)
    moves (acknowledges c a op db same) h =
        commit_keeps (Refines op db) (mark_sent c a db) db (inl refl) (λ out done.
          subst (λ (o : Operation). Refines o db out.1) (sym same)
            (mark_sent-Refines c a db out h done))
    moves (fails c now retry_at reason op db same) h =
        commit_keeps (Refines op db) (mark_failed c now retry_at reason db) db (inl refl)
          (λ out done.
            subst (λ (o : Operation). Refines o db out.1) (sym same)
              (mark_failed-Refines c now retry_at reason db out h done))

pub data OutboxReach (start : OutboxDb) : OutboxDb → Type 0 where
  here : OutboxReach start start
  next :
      {op : Operation} {db after : OutboxDb}
      → OutboxReach start db
      → OutboxStep op db after
      → OutboxReach start after

OutboxReach-PeriodsUnique :
    {start db : OutboxDb} → OutboxReach start db → PeriodsUnique start → PeriodsUnique db
OutboxReach-PeriodsUnique here h = h
OutboxReach-PeriodsUnique (next r step) h =
    OutboxStep-PeriodsUnique step (OutboxReach-PeriodsUnique r h)

Refines-delivered :
    (op : Operation) (db after : OutboxDb) (period message : String)
    → Refines op db after
    → stages db period ≡ some (delivered message)
    → stages after period ≡ some (delivered message)
Refines-delivered op db after period message (inl same) h =
    subst (λ (d : OutboxDb). stages d period ≡ some (delivered message)) (sym same) h
Refines-delivered op db after period message (inr (moved, moves)) h =
    elim (Bool-cases (str_eq period moved)) [
      | inl hit ↦ absurd (
          delivered-stays message moves.here (
            subst (λ (p : String). stages db p ≡ some (delivered message))
              ((eq_iff period moved).0 hit) h))
      | inr miss ↦
          moves.elsewhere period (λ e. absurd (let t = (eq_iff period moved).1 e in cc)) ∙ h
    ]

stages-delivered :
    {start db : OutboxDb} (period message : String)
    → PeriodsUnique start
    → stages start period ≡ some (delivered message)
    → OutboxReach start db
    → stages db period ≡ some (delivered message)
stages-delivered period message unique was_sent here = was_sent
stages-delivered period message unique was_sent (next {op} {db} {after} r step) =
    Refines-delivered op db after period message
      (OutboxStep-Refines step (OutboxReach-PeriodsUnique r unique)).0
      (stages-delivered period message unique was_sent r)

-- A row that waits or is under way is not delivered.
live-stage :
    (r : Delivery) (message : String)
    → (is_waiting_state r.state || is_sending r.state) ≡ true
    → stage_of r ≢ delivered message
live-stage r message = by_state r.state
  where
    by_state :
        (state : DeliveryState)
        → (is_waiting_state state || is_sending state) ≡ true
        → stage_in state r ≢ delivered message
    by_state pending h e = cc
    by_state retryable_failure h e = cc
    by_state sending h e = cc
    by_state sent h e = absurd (cc)

-- a claim that was answered is on the row selected, which waits or is under way
claim_delivery-live :
    (locked : String → Bool) (token now stale_after : ℕ) (db : OutboxDb) (c : DeliveryClaim)
    (message : String)
    → PeriodsUnique db
    → (claim_delivery locked token now stale_after db).0 ≡ ok (some c)
    → stages db c.period ≢ some (delivered message)
unfolding claim_delivery take_delivery
claim_delivery-live locked token now stale_after db c message unique answered =
    elim (Option-cases (next_delivery locked now stale_after db)) [
      | inl idle ↦ absurd (let e = rw idle at answered in ground arith)
      | inr (r, e) ↦
          let (found, due) = next_delivery-row locked now stale_after db unique e in
          elim (Bool-cases (is_fresh_token token db)) [
            | inr used ↦ absurd (let e' = rw (e, used) at answered in ground arith)
            | inl fresh ↦
                let made : ok (some (claim_of_delivery token (claimed_delivery token now r)))
                    ≡ ok (some c) =
                  rw (e, fresh) at answered in
                let same : r.period ≡ c.period =
                  ap (λ (x : DeliveryClaim). x.period) (some-injective _ _ (ok-injective made)) in
                λ h.
                  live-stage r message (deliverable-state locked now stale_after r due)
                    (some-injective _ _ (rw (← same, found) at h))
          ]
    ]

-- From a store whose periods are unique, a period whose report was sent as one message stays sent
-- as that message, whatever operations follow in any order: no later claim, acknowledgement,
-- failure or enqueuing moves it. No later claim is answered with the period either; a worker whose
-- claim was lost to another before it was sent may still hand its mail to the transport.
pub OutboxReach-delivered :
    {start db : OutboxDb} (period message : String)
    → PeriodsUnique start
    → stages start period ≡ some (delivered message)
    → OutboxReach start db
    → (stages db period ≡ some (delivered message))
      × ((locked : String → Bool) (token now stale_after : ℕ) (c : DeliveryClaim)
          → (claim_delivery locked token now stale_after db).0 ≡ ok (some c)
          → c.period ≢ period)
OutboxReach-delivered {start} {db} period message unique was_sent reached =
    let still = stages-delivered period message unique was_sent reached in
    (
      still,
      λ locked token now stale_after c answered same.
          claim_delivery-live locked token now stale_after db c message
            (OutboxReach-PeriodsUnique reached unique) answered
            (subst (λ (p : String). stages db p ≡ some (delivered message)) (sym same) still),
    )
