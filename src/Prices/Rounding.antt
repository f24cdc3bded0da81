-- ===== src/Prices/Rounding.antt =====
-- The price of the input field against the reference price that it rounds.
use native.Mathlib.Nat.{div-add-mod', mod-lt}
use hyper_trader.Common.{
  ℕ, suc, ◌+◌, ◌*◌, ◌/◌, ◌%◌, ◌≤◌, ◌<◌, ◌≡◌, refl, ap, ◌∙◌, subst, Bool, true, false, not, ◌||◌,
  List, some, none, arith, if◌then◌else◌, ◌==◌, leb, Bool-cases, inl, inr,
}
use hyper_trader.Decimals.{is_decimal_string, has_minus, PricePrecisionInputs}
use hyper_trader.Decimals.Digits.{ten_to, ten_to_pos, mul_le_mul}
use hyper_trader.Decimals.Compare.{numerator, scale}
use hyper_trader.Prices.{
  coefficient_of, format_coefficient, round_half_up, rounded_coefficient, rounded_price_input_value,
  input_scale,
}
use hyper_trader.Prices.Format.{format_coefficient-IsFormat}
use hyper_trader.Prices.Figures.{IsWidest, Fits, input_scale-IsWidest}
use hyper_trader.Prices.Bounds.{swap_factors, unsigned_lem, factor_pos}

-- b is less than half a unit above a, or at most half a unit below it.
abbrev pub IsNearest : ℕ → ℕ → ℕ → Type 0
IsNearest a b unit = (2 * b < 2 * a + unit) × (2 * a ≤ 2 * b + unit)

round_half_up_lem : (x d : ℕ) → 0 < d → IsNearest (round_half_up x d * d) x d
round_half_up_lem x d h =
    let sum = div-add-mod' x d in
    let small = mod-lt x h in
    let next : (x / d + 1) * d ≡ x / d * d + d = grind arith in
    elim (Bool-cases (leb d (x % d * 2))) [
      | inl up ↦ rw up (ground (arith, sum, small, next, up))
      | inr down ↦ rw down (ground (arith, sum, small, down))
    ]

scaled-IsNearest : (a b d t : ℕ) → 0 < t → IsNearest a b d → IsNearest (a * t) (b * t) (d * t)
scaled-IsNearest a b d t p (l, h) =
    let e : (2 * a + d) * t ≡ 2 * (a * t) + d * t = grind arith in
    let f : (2 * b + d) * t ≡ 2 * (b * t) + d * t = grind arith in
    let g : (2 * a) * t ≡ 2 * (a * t) = grind arith in
    let s : suc (2 * b) * t ≡ 2 * (b * t) + t = grind arith in
    (
      omega (arith, e, s, p, mul_le_mul (suc (2 * b)) (2 * a + d) t l),
      omega (arith, f, g, mul_le_mul (2 * a) (2 * b + d) t h),
    )

-- The text of an input price against the reference price and the precision.
pub record IsInputPrice (price : List ℕ) (precision : PricePrecisionInputs) (t : List ℕ)
    : Type 0 where
  pub valid : is_decimal_string t ≡ true
  pub unsigned : has_minus t ≡ false
  pub some_price : 0 < numerator t
  -- The last place that the precision leaves to the reference price.
  pub last_place : ℕ
  pub widest :
      IsWidest
        (Fits precision.max_significant_figures price)
        precision.max_decimal_places
        last_place
  pub places : scale t ≤ last_place
  pub nearest :
      IsNearest
        (numerator t * ten_to (scale price) * ten_to last_place)
        (numerator price * ten_to (scale t) * ten_to last_place)
        (ten_to (scale price) * ten_to (scale t))

rounded_text :
    (price : List ℕ) (precision : PricePrecisionInputs)
    → has_minus price ≡ false
    → 0 < coefficient_of price
    → 0 < rounded_coefficient precision price
    → IsInputPrice price precision
        (format_coefficient (rounded_coefficient precision price) (input_scale precision price))
rounded_text price precision u c p =
    let m = input_scale precision price in
    let n = rounded_coefficient precision price in
    let t = format_coefficient n m in
    let f = format_coefficient-IsFormat n m in
    let d = ten_to (scale price) in
    let own = unsigned_lem price u in
    let same : n ≡ round_half_up (numerator price * ten_to m) d = rw own refl in
    let near =
      scaled-IsNearest _ _ d (ten_to (scale t)) (ten_to_pos (scale t))
        (round_half_up_lem (numerator price * ten_to m) d (ten_to_pos (scale price))) in
    let left : numerator t * d * ten_to m
        ≡ round_half_up (numerator price * ten_to m) d * d * ten_to (scale t) =
      swap_factors (numerator t) d (ten_to m)
      ∙ ap (λ x. x * d) (f.exact ∙ ap (λ x. x * ten_to (scale t)) same)
      ∙ swap_factors _ (ten_to (scale t)) d in
    let right = swap_factors (numerator price) (ten_to (scale t)) (ten_to m) in
    record {
      valid = f.valid;
      unsigned = f.unsigned;
      some_price =
          factor_pos (numerator t) (ten_to m)
            (omega (arith, f.exact, mul_le_mul 1 n (ten_to (scale t)) p, ten_to_pos (scale t)));
      last_place = m;
      widest = input_scale-IsWidest price precision own c;
      places = f.short;
      nearest = rw (left, right) near;
    }

taken : (b : Bool) {t u : List ℕ} → (if b then none else some u) ≡ some t → (b ≡ false) × (u ≡ t)
taken true h = cc
taken false h = (refl, cc)

-- If the input field takes a price for a reference price, its text is a decimal with no minus sign,
-- above 0, and it is the reference price rounded to the last place: at most half a unit of it above,
-- and less than half a unit below. The last place is the largest, within the places that the
-- precision allows, at which the reference price (not the result) has no more than the significant
-- figures; or 0.
pub rounded_price_input_value-IsInputPrice :
    (price : List ℕ) (precision : PricePrecisionInputs) (t : List ℕ)
    → rounded_price_input_value (some price) (some precision) ≡ some t
    → IsInputPrice price precision t
unfolding rounded_price_input_value
rounded_price_input_value-IsInputPrice price precision t h =
    let n = rounded_coefficient precision price in
    let refused : Bool =
      not (is_decimal_string price)
      || (has_minus price || ((coefficient_of price == 0) || (n == 0))) in
    let (passed, e) = taken refused h in
    subst (λ x. IsInputPrice price precision x) e
      (rounded_text price precision (ground (arith, passed)) (ground (arith, passed))
        (ground (arith, passed)))
