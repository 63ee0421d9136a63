-- ===== src/Prelude/Decimal.antt =====
-- `str(n)` of a natural number.
use Prim.Native.Nat.{ℕ, zero, suc, ◌<◌, ◌/◌, ◌%◌}
use Prim.Native.String.{String, ◌++◌}
use mathlib.Core.Path.{◌≡◌, refl}
use mathlib.Core.Logic.{inl, inr}
use native.Mathlib.Omega.{arith}
use homez.Prelude.Tests.{ltb, ◌==◌, if◌then◌else◌, Bool-cases}

abbrev digit : ℕ → String
digit d =
    if d == 0
    then "0"
    else if d == 1
    then "1"
    else if d == 2
    then "2"
    else if d == 3
    then "3"
    else if d == 4
    then "4"
    else if d == 5
    then "5"
    else if d == 6
    then "6"
    else if d == 7
    then "7"
    else if d == 8
    then "8"
    else "9"

-- one round for each digit, of which a number has no more than itself and one
unfoldable pub show_digits : ℕ → ℕ → String → String
show_digits zero n acc = acc
show_digits (suc fuel) n acc =
    let rest = show_digits fuel (n / 10) (digit (n % 10) ++ acc) in
    if ltb n 10 then digit n ++ acc else rest

unfoldable pub show : ℕ → String
unfolding show_digits
show n = show_digits (suc n) n ""

-- More rounds than the number give the same text.
show_digits_enough :
    (fuel more n : ℕ) (acc : String)
    → n < fuel
    → n < more
    → show_digits fuel n acc ≡ show_digits more n acc
unfolding show_digits
show_digits_enough zero more n acc h k = absurd (omega arith)
show_digits_enough (suc fuel) zero n acc h k = absurd (omega arith)
show_digits_enough (suc fuel) (suc more) n acc h k = elim (Bool-cases (ltb n 10)) [
  | inl small ↦ rw small refl
  | inr large ↦
      rw large (
        show_digits_enough fuel more (n / 10) (digit (n % 10) ++ acc) (ground arith) (ground arith))
]
