-- ===== src/Prelude/Time.antt =====
-- Time. An instant is a number of seconds since a fixed epoch; a `datetime` that code receives is
-- an instant with a time zone or a wall-clock reading without one.
use Prim.Native.Nat.{ℕ}
use homez.Prelude.Results.{Result, ok, err, value_error}

pub data Datetime : Type 0 where
  aware : ℕ → Datetime
  naive : ℕ → Datetime

-- `require_aware` of a module: a timestamp without a time zone is refused.
abbrev pub require_aware : Datetime → Result ℕ
require_aware (aware t) = ok t
require_aware (naive _) = err value_error
