-- ===== src/Validation/Numerals.antt =====
-- packages/hyperliquid/src/actions/validation.ts: the sizes and prices of an action, as numbers.
use hyper_trader.Common.{
  ℕ, ◌*◌, ◌≤◌, ◌≡◌, ◌⊎◌, inl, inr, ap, subst, Bool, false, not, ◌&&◌, ◌||◌, List, arith, ltb,
  String, Number, pos, negsuc, natural, is_safe_integer, is_negative, ok, ok_inj, validation,
  >>=-eq-ok, Bool-cases, length,
}
use hyper_trader.Decimals.Digits.{ten_to}
use hyper_trader.Decimals.Compare.{numerator, scale}
use hyper_trader.Prices.{digits_of}
use hyper_trader.Validation.Amounts.{parse_decimal, positive_decimal}
use hyper_trader.Validation.Amounts.Values.{IsPositive, positive_decimal-IsPositive}
use hyper_trader.Validation.Amounts.Products.{positive-IsValue}
use hyper_trader.Validation.Checks.{
  safe_integer, Precision, normalize_size, significant_digits, normalize_price,
}
use hyper_trader.Validation.Bounds.{passed_check}

abbrev is_bad_integer : Number → ℕ → Bool
is_bad_integer value minimum =
    not (is_safe_integer value) || (is_negative value || ltb (natural value) minimum)

pub safe_integer-eq-ok :
    (value : Number) (path : String) (minimum : ℕ) {n : ℕ}
    → safe_integer value path minimum ≡ ok n
    → (value ≡ pos n) × (minimum ≤ n)
safe_integer-eq-ok (pos k) path minimum h =
    let (good, e) = passed_check (is_bad_integer (pos k) minimum) _ _ h in
    (ap pos (ok_inj e), ground (arith, good, ok_inj e))
safe_integer-eq-ok (negsuc k) path minimum h =
    absurd (ground (arith, (passed_check (is_bad_integer (negsuc k) minimum) _ _ h).0))
safe_integer-eq-ok Number.other path minimum h = cc

-- The value n / 10^m has so many decimal places at most, that is, it is units / 10^used.
pub record HasPlaces (n m most : ℕ) : Type 0 where
  pub units : ℕ
  pub used : ℕ
  pub few : used ≤ most
  pub exact : units * ten_to m ≡ n * ten_to used

-- And no more significant digits than these, unless it is whole.
pub record HasFigures (n m most significant : ℕ) : Type 0 where
  pub places : HasPlaces n m most
  pub figures : (places.used ≡ 0) ⊎ (length (digits_of places.units) ≤ significant)

pub normalize_size-HasPlaces :
    (value : List ℕ) (precision : Precision) {text : List ℕ}
    → normalize_size value precision ≡ ok text
    → IsPositive value text × HasPlaces (numerator value) (scale value) precision.size_decimals
unfolding normalize_size
normalize_size-HasPlaces value precision {text} h =
    let (t, printed, h₁) = >>=-eq-ok (positive_decimal value "intent.size") _ h in
    let (d, again, h₂) = >>=-eq-ok (parse_decimal t "intent.size") _ h₁ in
    let (few, made) =
      passed_check (ltb precision.size_decimals d.scale)
        (validation "intent.size" "size exceeds the current market precision") _ h₂ in
    let p = positive_decimal-IsPositive value "intent.size" printed in
    (
      subst (IsPositive value) (ok_inj made) p,
      record {
        units = d.coefficient;
        used = d.scale;
        few = ground (arith, few);
        exact = (positive-IsValue value t "intent.size" p again).exact;
      },
    )

figures_of :
    (scale significant digits : ℕ)
    → (ltb 0 scale && ltb significant digits) ≡ false
    → (scale ≡ 0) ⊎ (digits ≤ significant)
figures_of scale significant digits h = elim (Bool-cases (ltb 0 scale)) [
  | inl some_places ↦ inr (ground (arith, some_places, h))
  | inr whole ↦ inl (ground (arith, whole))
]

pub normalize_price-HasFigures :
    (value : List ℕ) (precision : Precision) {text : List ℕ}
    → normalize_price value precision ≡ ok text
    → IsPositive value text
      × HasFigures (numerator value) (scale value) precision.places precision.significant
unfolding normalize_price
normalize_price-HasFigures value precision {text} h =
    let (t, printed, h₁) = >>=-eq-ok (positive_decimal value "intent.price") _ h in
    let (d, again, h₂) = >>=-eq-ok (parse_decimal t "intent.price") _ h₁ in
    let (few, h₃) =
      passed_check (ltb precision.places d.scale)
        (validation "intent.price" "price exceeds the current decimal-place limit") _ h₂ in
    let (short, made) =
      passed_check (ltb 0 d.scale && ltb precision.significant (significant_digits d.coefficient))
        (validation "intent.price" "price exceeds the current significant-figure limit") _ h₃ in
    let p = positive_decimal-IsPositive value "intent.price" printed in
    (
      subst (IsPositive value) (ok_inj made) p,
      record {
        places = record {
          units = d.coefficient;
          used = d.scale;
          few = ground (arith, few);
          exact = (positive-IsValue value t "intent.price" p again).exact;
        };
        figures = figures_of d.scale precision.significant (significant_digits d.coefficient) short;
      },
    )
