-- ===== src/Digest/Outbox/Contract.antt =====
-- What the outbox of digest/delivery.py promises of each period, less rows, times and texts.
use homez.Prelude.{ℕ, ◌+◌, String, Option, none, some, ◌≡◌, ◌≢◌}

-- waiting for an attempt, after so many; under way, held by a token; or sent, as a message
pub data Stage : Type 0 where
  waiting : (attempts : ℕ) → Stage
  under_way : (token attempts : ℕ) → Stage
  delivered : (message : String) → Stage

-- where each period is
abbrev pub Stages : Type 0
Stages = String → Option Stage

-- what the outside may do with a period
pub data Operation : Type 0 where
  enqueue : Operation
  claim : (token : ℕ) → Operation
  acknowledge : (token : ℕ) (message : String) → Operation
  fail : (token : ℕ) → Operation

-- how an operation may move the one period that it is about
pub data Move : Operation → Option Stage → Option Stage → Type 0 where
  enqueues : Move enqueue none (some (waiting 0))
  claims :
      (token attempts : ℕ)
      → Move (claim token) (some (waiting attempts)) (some (under_way token (attempts + 1)))
  reclaims :
      (token lost attempts : ℕ)
      → Move (claim token) (some (under_way lost attempts)) (some (under_way token (attempts + 1)))
  delivers :
      (token attempts : ℕ) (message : String)
      → Move
          (acknowledge token message)
          (some (under_way token attempts))
          (some (delivered message))
  fails :
      (token attempts : ℕ)
      → Move (fail token) (some (under_way token attempts)) (some (waiting attempts))

-- the operation moves the period, and leaves every other one where it is
pub record Moves (op : Operation) (period : String) (before after : Stages) : Type 0 where
  pub here : Move op (before period) (after period)
  pub elsewhere : (other : String) → other ≢ period → after other ≡ before other

-- A period that is delivered stays so: no operation moves it.
pub delivered-stays :
    {op : Operation} {s t : Option Stage} (message : String)
    → Move op s t
    → s ≡ some (delivered message)
    → ⊥
delivered-stays message enqueues e = cc
delivered-stays message (claims token attempts) e = cc
delivered-stays message (reclaims token lost attempts) e = cc
delivered-stays message (delivers token attempts m) e = cc
delivered-stays message (fails token attempts) e = cc
