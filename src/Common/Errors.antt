-- ===== src/Common/Errors.antt =====
-- Exceptions as values: the three error classes that the modelled code throws, and `do` for them.
use Prim.Native.String.{String}
use mathlib.Core.Path.{◌≡◌, refl, ap}
use mathlib.Core.Option.{Option, none, some}
use mathlib.Core.Logic.{◌⊎◌, inl, inr}
use mathlib.Core.Bool.{Bool, true, false}

-- `HyperliquidValidationError` with its path and message, `TypeError` and `Error`.
pub data Error : Type 0 where
  validation : String → String → Error
  type_error : String → Error
  plain_error : String → Error

-- What a call comes to: the error that it throws, or what it returns.
pub data Result {ℓ} (Returned : Type ℓ) : Type ℓ where
  err : (thrown : Error) → Result Returned
  ok : (returned : Returned) → Result Returned

pub ok_inj {ℓ} : {A : Type ℓ} {a b : A} → ok a ≡ ok b → a ≡ b
ok_inj e = cc

infixl 5 ◌>>=◌ ◌>>◌
-- A call followed by what is done with its value; an error is passed on.
abbrev pub ◌>>=◌ {ℓ κ} :
    {First : Type ℓ} {Then : Type κ} → Result First → (First → Result Then) → Result Then
err thrown >>= continue = err thrown
ok value >>= continue = continue value

-- A check followed by the rest.
abbrev pub ◌>>◌ {ℓ} : {Then : Type ℓ} → Result (Unit {0}) → Result Then → Result Then
check >> rest = check >>= λ _. rest

-- `if (b) throw e;`
abbrev pub throw_if : Bool → Error → Result (Unit {0})
throw_if true e = err e
throw_if false e = ok tt

abbrev pub is_ok {ℓ} : {A : Type ℓ} → Result A → Bool
is_ok (ok _) = true
is_ok (err _) = false

pub Result-cases {ℓ} :
    {A : Type ℓ} (r : Result A) → ((a : A) × (r ≡ ok a)) ⊎ ((e : Error) × (r ≡ err e))
Result-cases (ok a) = inl (a, refl)
Result-cases (err e) = inr (e, refl)

-- What a bind that succeeds has gone through.
pub >>=-eq-ok {ℓ κ} :
    {First : Type ℓ} {Then : Type κ} (call : Result First) (continue : First → Result Then)
    {last : Then}
    → (call >>= continue) ≡ ok last
    → (value : First) × (call ≡ ok value) × (continue value ≡ ok last)
>>=-eq-ok (err thrown) continue h = cc
>>=-eq-ok (ok value) continue h = (value, refl, h)

-- What a check that is passed has left.
pub >>-eq-ok {ℓ} :
    {Then : Type ℓ} (check : Result (Unit {0})) (rest : Result Then) {last : Then}
    → (check >> rest) ≡ ok last
    → (check ≡ ok tt) × (rest ≡ ok last)
>>-eq-ok (err thrown) rest h = cc
>>-eq-ok (ok _) rest h = (refl, h)

-- `if (value === null) throw e;`
abbrev pub or_throw {ℓ} : {A : Type ℓ} → Option A → Error → Result A
or_throw none e = err e
or_throw (some a) e = ok a

pub or_throw-eq-ok {ℓ} :
    {A : Type ℓ} (o : Option A) (e : Error) {a : A} → or_throw o e ≡ ok a → o ≡ some a
or_throw-eq-ok none e h = cc
or_throw-eq-ok (some b) e h = ap some (ok_inj h)

pub throw_if-eq-ok : (b : Bool) (e : Error) → throw_if b e ≡ ok tt → b ≡ false
throw_if-eq-ok true e h = cc
throw_if-eq-ok false e h = refl

-- The second parts of two equal results.
pub ok_snd {ℓ κ} :
    {A : Type ℓ} {B : Type κ} {a c : A} {b d : B}
    → ◌≡◌ {A = Result (A × B)} (ok (a, b)) (ok (c, d))
    → b ≡ d
ok_snd e = ap (λ x. x.1) (ok_inj e)
