-- ===== src/Prelude/Results.antt =====
-- Exceptions as values. An exception that leaves a transaction rolls it back.
use mathlib.Core.Path.{◌≡◌, refl}
use native.Mathlib.Omega.{arith}
use mathlib.Core.Bool.{Bool, true, false}

-- The exceptions that the modelled code raises or lets through.
pub data Error : Type 0 where
  value_error key_error lost_lease runtime_error integrity_error quota_exhausted permission_error :
      Error

-- What a method returns, or the exception that it raises.
pub data Result {ℓ} (Value : Type ℓ) : Type ℓ where
  err : Error → Result Value
  ok : Value → Result Value

-- `if not test: raise raised`
abbrev pub guard : (test : Bool) (raised : Error) → Result (Unit {0})
guard false raised = err raised
guard true raised = ok tt

infixl 5 ◌>>=◌ ◌>>◌
abbrev pub ◌>>=◌ {ℓ κ} :
    {Value : Type ℓ} {Next : Type κ} → Result Value → (Value → Result Next) → Result Next
err raised >>= rest = err raised
ok value >>= rest = rest value

abbrev pub ◌>>◌ {κ} : {Next : Type κ} → Result (Unit {0}) → Result Next → Result Next
check >> rest = check >>= λ done. rest

-- A run that returned went through its first part.
pub >>=-eq-ok {ℓ κ} :
    {Value : Type ℓ} {Next : Type κ} (run : Result Value) (rest : Value → Result Next) {last : Next}
    → (run >>= rest) ≡ ok last
    → (value : Value) × (run ≡ ok value) × (rest value ≡ ok last)
>>=-eq-ok (err raised) rest returned = cc
>>=-eq-ok (ok value) rest returned = (value, refl, returned)

pub ok-injective {ℓ} : {A : Type ℓ} {a b : A} → ok a ≡ ok b → a ≡ b
ok-injective h = ground arith

pub guard-eq-ok : (b : Bool) (e : Error) {u : Unit {0}} → guard b e ≡ ok u → b ≡ true
guard-eq-ok true e h = refl
guard-eq-ok false e h = cc

-- One transaction over a store: an error leaves the store as it was.
abbrev pub commit {ℓ} : {S A : Type ℓ} → Result (A × S) → S → Result A × S
commit (ok (a, s)) old = (ok a, s)
commit (err e) old = (err e, old)

-- What a transaction keeps when it commits holds after it in any case.
pub commit_keeps {ℓ κ} :
    {S A : Type ℓ} (P : S → Type κ) (r : Result (A × S)) (old : S)
    → P old
    → ((out : A × S) → r ≡ ok out → P out.1)
    → P (commit r old).1
commit_keeps P (ok out) old h keep = keep out refl
commit_keeps P (err e) old h keep = h

abbrev pub is_ok {ℓ} : {A : Type ℓ} → Result A → Bool
is_ok (ok _) = true
is_ok (err _) = false

-- A transaction that cannot commit raises, and leaves the store as it was.
pub commit_refused {ℓ} :
    {S A : Type ℓ} (r : Result (A × S)) (old : S)
    → ((out : A × S) → r ≡ ok out → ⊥)
    → (is_ok (commit r old).0 ≡ false) × ((commit r old).1 ≡ old)
commit_refused (ok out) old never = absurd (never out refl)
commit_refused (err e) old never = (refl, refl)

pub commit-eq-ok {ℓ} :
    {S A : Type ℓ} (r : Result (A × S)) (old s : S) (a : A)
    → commit r old ≡ (ok a, s)
    → r ≡ ok (a, s)
commit-eq-ok (ok (b, t)) old s a h = ground arith
commit-eq-ok (err e) old s a h = absurd (ground arith)
