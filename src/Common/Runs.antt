-- ===== src/Common/Runs.antt =====
-- Computations on a state that may throw at any point and keep what they have written, and `do` for
-- them.
use mathlib.Core.Option.{Option, none, some}
use mathlib.Core.Path.{◌≡◌, refl, ap}
use hyper_trader.Common.Errors.{Error, Result, ok, err, ok_inj}

abbrev pub Run {ℓ κ} : Type ℓ → Type κ → Type (ℓ ⊔ κ)
Run State Returned = State → Result Returned × State

module _ {State : Type 0} where
  abbrev pub passed : {A B : Type 0} → Result A × State → (A → Run State B) → Result B × State
  passed (err thrown, s) continue = (err thrown, s)
  passed (ok value, s) continue = continue value s

  infixl 5 ◌>>=◌ ◌>>◌
  unfoldable pub ◌>>=◌ : {A B : Type 0} → Run State A → (A → Run State B) → Run State B
  ◌>>=◌ first continue s = passed (first s) continue

  unfoldable pub ◌>>◌ : {A B : Type 0} → Run State A → Run State B → Run State B
  unfolding ◌>>=◌
  ◌>>◌ first rest = first >>= λ _. rest

  abbrev pub return : {A : Type 0} → A → Run State A
  return value s = (ok value, s)

  -- A computation that writes nothing.
  abbrev pub query : {A : Type 0} → (State → Result A) → Run State A
  query read s = (read s, s)

  -- What others write while the code waits.
  abbrev pub meanwhile : (State → State) → Run State (Unit {0})
  meanwhile others s = (ok tt, others s)

  -- What depends on the state that it starts from.
  unfoldable pub reading : {A : Type 0} → (State → Run State A) → Run State A
  reading body s = body s s

  -- `try { first } catch (thrown) { handler }`; what was written stays.
  abbrev pub handled : {A : Type 0} → Result A × State → (Error → Run State A) → Result A × State
  handled (ok value, s) handler = (ok value, s)
  handled (err thrown, s) handler = handler thrown s

  unfoldable pub catching : {A : Type 0} → Run State A → (Error → Run State A) → Run State A
  catching first handler s = handled (first s) handler

  -- A call whose error is dropped, and its value, if there is one.
  unfoldable pub optional : {A : Type 0} → Run State A → Run State (Option A)
  unfolding ◌>>=◌ catching
  optional call = catching (call >>= λ value. return (some value)) (λ _. return none)

  -- What a bind that returns has gone through.
  pub passed-eq-ok :
      {A B : Type 0} (first : Result A × State) (continue : A → Run State B) {last : B}
      {end : State}
      → passed first continue ≡ (ok last, end)
      → (value : A) × (s : State) × (first ≡ (ok value, s)) × (continue value s ≡ (ok last, end))
  passed-eq-ok (err thrown, s) continue h = cc
  passed-eq-ok (ok value, s) continue h = (value, s, refl, h)

  -- A computation whose result is replaced by a value.
  pub passed-return :
      {A B : Type 0} (first : Result A × State) (last : B) {b : B} {end : State}
      → passed first (λ _. return last) ≡ (ok b, end)
      → (last ≡ b) × (value : A) × (first ≡ (ok value, end))
  passed-return (err thrown, s) last h = cc
  passed-return (ok value, s) last h =
      (ok_inj (ap (λ p. p.0) h), value, ap (λ t. (ok value, t)) (ap (λ p. p.1) h))
