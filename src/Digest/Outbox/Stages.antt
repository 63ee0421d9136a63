-- ===== src/Digest/Outbox/Stages.antt =====
-- The rows of the outbox of digest/delivery.py as the stages of its contract.
use homez.Prelude.{
  ℕ, ◌≡◌, sym, ap, ◌∙◌, subst, false, String, Option, none, some, ◌⊎◌, find, find-replace, str_eq,
  eq_iff,
}
use homez.Prelude.TextKeys.{str_eq_ne, find-replace_other, UniqueText}
use homez.Digest.Outbox.{
  DeliveryState, pending, sending, retryable_failure, sent, Delivery, OutboxDb, delivery_period,
  has_period, get_delivery, put_delivery,
}
use homez.Digest.Outbox.Contract.{
  Stage, waiting, under_way, delivered, Stages, Operation, Move, Moves,
}

-- the token and the message of a row, of which the invariant says when they are set
abbrev pub number_of : Option ℕ → ℕ
number_of none = 0
number_of (some n) = n

abbrev pub text_of : Option String → String
text_of none = ""
text_of (some s) = s

abbrev pub stage_in : DeliveryState → Delivery → Stage
stage_in pending r = waiting r.attempt_count
stage_in retryable_failure r = waiting r.attempt_count
stage_in sending r = under_way (number_of r.claim_token) r.attempt_count
stage_in sent r = delivered (text_of r.provider_message_id)

abbrev pub stage_of : Delivery → Stage
stage_of r = stage_in r.state r

abbrev pub stage_of_row : Option Delivery → Option Stage
stage_of_row none = none
stage_of_row (some r) = some (stage_of r)

-- The contract's view of a store.
abbrev pub stages : OutboxDb → Stages
stages db period = stage_of_row (get_delivery db period)

abbrev pub PeriodsUnique : OutboxDb → Type 0
PeriodsUnique db = UniqueText delivery_period db.deliveries

-- An update of a row that is in the table moves its period only.
pub put_delivery-Moves :
    (op : Operation) (old new : Delivery) (db : OutboxDb)
    → get_delivery db old.period ≡ some old
    → new.period ≡ old.period
    → Move op (some (stage_of old)) (some (stage_of new))
    → Moves op old.period (stages db) (stages (put_delivery new db))
unfolding get_delivery
put_delivery-Moves op old new db found same move =
    let own : find (has_period new.period) db.deliveries ≡ some old =
      subst (λ (t : String). find (has_period t) db.deliveries ≡ some old) (sym same) found in
    let now_found : get_delivery (put_delivery new db) old.period ≡ some new =
      find-replace (has_period new.period) (has_period old.period) new db.deliveries own
        ((eq_iff new.period old.period).1 same)
        (λ z miss. subst (λ (t : String). str_eq z.period t ≡ false) same miss) in
    record {
      here = rw (found, now_found) move;
      elsewhere = λ other apart. ap stage_of_row (
          find-replace_other (has_period new.period) (has_period other) new db.deliveries
            (str_eq_ne new.period other (λ e. apart (sym e ∙ same)))
            (λ z hit.
              str_eq_ne z.period other
                (λ e. apart (sym e ∙ (eq_iff z.period new.period).0 hit ∙ same))));
    }

-- What an operation of the outbox did to the stages: nothing, or one move of the contract.
abbrev pub Refines : Operation → OutboxDb → OutboxDb → Type 0
Refines op db after =
    (after ≡ db) ⊎ ((period : String) × Moves op period (stages db) (stages after))
