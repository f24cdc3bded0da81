-- ===== src/Prices/Bounds.antt =====
-- The limit price of a market order against the slippage that the user allows, and the rounding of a
-- price for the input field.
use native.Mathlib.Nat.{
  div-mul-le_self, lt-div-mul-add, le_of_mul-le-mul_right, div-add-mod', mod-lt,
}
use hyper_trader.Common.{
  ℕ, zero, suc, ◌+◌, ◌-◌, ◌*◌, ◌/◌, ◌≤◌, ◌<◌, ◌≡◌, refl, ap, ◌∙◌, subst, Bool, true, false, not,
  ◌||◌, List, [], ◌∷◌, arith, ◌==◌, ltb, Number, natural, ok, >>-eq-ok, throw_if, throw_if-eq-ok,
  ok_inj, plain_error, is_safe_integer, is_negative,
}
use hyper_trader.Decimals.{is_decimal_string, has_minus, without_minus, PricePrecisionInputs}
use hyper_trader.Decimals.Digits.{ten_to, ten_to_pos, mul_le_mul}
use hyper_trader.Decimals.Compare.{numerator, scale}
use hyper_trader.Prices.{
  coefficient_of, Side, buy, sell, factor, order_scale, bound, order_coefficient,
  aggressive_order_price, format_coefficient,
}
use hyper_trader.Prices.Figures.{IsWidest, FitsWhole, order_scale-IsWidest}
use hyper_trader.Prices.Format.{format_coefficient-IsFormat}

-- A purchase is at most at the limit, and a sale at least.
abbrev pub IsWithin : Side → ℕ → ℕ → Type 0
IsWithin buy price limit = price ≤ limit
IsWithin sell price limit = limit ≤ price

-- They are less than one unit apart.
abbrev pub IsClose : Side → ℕ → ℕ → ℕ → Type 0
IsClose buy price limit unit = limit < price + unit
IsClose sell price limit unit = price < limit + unit

bound_lem :
    (side : Side) (x d : ℕ)
    → 0 < d
    → IsWithin side (bound side x d * d) x × IsClose side (bound side x d * d) x d
bound_lem buy x d h = (div-mul-le_self x d, lt-div-mul-add h)
bound_lem sell x d h =
    let sum = div-add-mod' x d in
    let small = mod-lt x h in
    let next : (x / d + 1) * d ≡ x / d * d + d = grind arith in ground (arith, sum, small, next)

pub swap_factors : (a b c : ℕ) → (a * b) * c ≡ (a * c) * b
swap_factors a b c = grind arith

-- A coefficient at the scale of `unit`, as the number that its text stands for over `places`.
IsWithin-text :
    (side : Side) (n c unit places d limit : ℕ)
    → n * unit ≡ c * places
    → 0 < unit
    → IsWithin side (c * d) (limit * unit)
    → IsWithin side (n * d) (limit * places)
IsWithin-text side n c unit places d limit e h =
    let left : (n * d) * unit ≡ (c * d) * places =
      swap_factors n d unit ∙ ap (λ t. t * d) e ∙ swap_factors c places d in
    let right : (limit * places) * unit ≡ (limit * unit) * places =
      swap_factors limit places unit in
    elim side as (λ s. IsWithin s (c * d) (limit * unit) → IsWithin s (n * d) (limit * places)) [
      | buy ↦ λ w.
          le_of_mul-le-mul_right
            (omega (arith, left, right, mul_le_mul (c * d) (limit * unit) places w)) h
      | sell ↦ λ w.
          le_of_mul-le-mul_right
            (omega (arith, left, right, mul_le_mul (limit * unit) (c * d) places w)) h
    ]

-- A decimal with no minus sign is its own unsigned part.
pub unsigned_lem : (s : List ℕ) → has_minus s ≡ false → without_minus s ≡ s
unsigned_lem [] h = refl
unsigned_lem (c ∷ s) h = ground arith

-- Ten thousand times what a purchase may cost or a sale must bring, by the slippage in basis points.
abbrev pub allowed : Side → ℕ → ℕ
allowed buy slippage = 10_000 + slippage
allowed sell slippage = 10_000 - slippage

factor_is-allowed : (side : Side) (slippage : ℕ) → factor side slippage ≡ allowed side slippage
factor_is-allowed buy slippage = refl
factor_is-allowed sell slippage = refl

-- The text of an order price, against the reference price, the side, the slippage in basis points
-- and the precision: as fractions, t is `numerator t / 10 ^ scale t`.
pub record IsOrderPrice (price : List ℕ) (side : Side) (slippage : ℕ)
    (precision : PricePrecisionInputs) (t : List ℕ) : Type 0 where
  pub valid : is_decimal_string t ≡ true
  pub unsigned : has_minus t ≡ false
  pub some_price : 0 < numerator t
  -- The last place that the precision leaves to the reference price.
  pub last_place : ℕ
  pub widest :
      IsWidest
        (FitsWhole precision.max_significant_figures price)
        precision.max_decimal_places
        last_place
  pub places : scale t ≤ last_place
  pub within :
      IsWithin side
        (numerator t * (ten_to (scale price) * 10_000))
        (numerator price * allowed side slippage * ten_to (scale t))
  pub close :
      IsClose side
        (numerator t * (ten_to (scale price) * 10_000) * ten_to last_place)
        (numerator price * allowed side slippage * ten_to (scale t) * ten_to last_place)
        (ten_to (scale price) * 10_000 * ten_to (scale t))

scaled-IsClose :
    (side : Side) (a b d t : ℕ) → 0 < t → IsClose side a b d → IsClose side (a * t) (b * t) (d * t)
scaled-IsClose buy a b d t p h =
    let e : (a + d) * t ≡ a * t + d * t = grind arith in
    let s : suc b * t ≡ b * t + t = grind arith in
    omega (arith, e, s, p, mul_le_mul (suc b) (a + d) t h)
scaled-IsClose sell a b d t p h =
    let e : (b + d) * t ≡ b * t + d * t = grind arith in
    let s : suc a * t ≡ a * t + t = grind arith in
    omega (arith, e, s, p, mul_le_mul (suc a) (b + d) t h)

IsClose-text :
    (side : Side) (n c unit places d limit : ℕ)
    → n * unit ≡ c * places
    → 0 < places
    → IsClose side (c * d) (limit * unit) d
    → IsClose side (n * d * unit) (limit * places * unit) (d * places)
IsClose-text side n c unit places d limit e p h =
    let left : n * d * unit ≡ c * d * places =
      swap_factors n d unit ∙ ap (λ t. t * d) e ∙ swap_factors c places d in
    let right : limit * places * unit ≡ limit * unit * places = swap_factors limit places unit in
    rw (left, right) (scaled-IsClose side (c * d) (limit * unit) d places p h)

pub factor_pos : (a b : ℕ) → 0 < a * b → 0 < a
factor_pos zero b h = omega (arith, h)
factor_pos (suc a) b h = omega arith

-- What the text of a coefficient that is bounded has.
formatted :
    (price : List ℕ) (side : Side) (slippage : ℕ) (precision : PricePrecisionInputs)
    → has_minus price ≡ false
    → 0 < coefficient_of price
    → 0 < order_coefficient price side slippage (order_scale precision price)
    → IsOrderPrice price side slippage precision (
        format_coefficient
          (order_coefficient price side slippage (order_scale precision price))
          (order_scale precision price))
formatted price side slippage precision u c p =
    let m = order_scale precision price in
    let n = order_coefficient price side slippage m in
    let t = format_coefficient n m in
    let f = format_coefficient-IsFormat n m in
    let d = ten_to (scale price) * 10_000 in
    let limit = numerator price * allowed side slippage in
    let own = unsigned_lem price u in
    let same : n ≡ bound side (limit * ten_to m) d =
      rw (own, factor_is-allowed side slippage) refl in
    let d_pos : 0 < d = omega (arith, ten_to_pos (scale price)) in
    let (w, near) = bound_lem side (limit * ten_to m) d d_pos in
    let exact : numerator t * ten_to m ≡ bound side (limit * ten_to m) d * ten_to (scale t) =
      f.exact ∙ ap (λ x. x * ten_to (scale t)) same in
    record {
      valid = f.valid;
      unsigned = f.unsigned;
      some_price =
          factor_pos (numerator t) (ten_to m)
            (omega (arith, f.exact, mul_le_mul 1 n (ten_to (scale t)) p, ten_to_pos (scale t)));
      last_place = m;
      widest = order_scale-IsWidest price precision own c;
      places = f.short;
      within =
          IsWithin-text side (numerator t) _ (ten_to m) (ten_to (scale t)) d limit exact
            (ten_to_pos m) w;
      close =
          IsClose-text side (numerator t) _ (ten_to m) (ten_to (scale t)) d limit exact
            (ten_to_pos (scale t)) near;
    }

-- If a slippage of s basis points, from 0 through 500, and a reference price give an order price,
-- its text is a decimal with no minus sign, above 0; a purchase is at most at the reference price
-- times (10000 + s) / 10000, a sale at least at the reference price times (10000 - s) / 10000, and
-- the price is less than one unit of the last place away from that limit. The last place is the
-- largest, within the places that the precision allows, at which the reference price (not the
-- result) has no more than the significant figures, counted with a digit before the point; or 0.
pub aggressive_order_price-IsOrderPrice :
    (price : List ℕ) (side : Side) (slippage : Number) (precision : PricePrecisionInputs)
    (t : List ℕ)
    → aggressive_order_price price side slippage precision ≡ ok t
    → (natural slippage ≤ 500) × IsOrderPrice price side (natural slippage) precision t
unfolding aggressive_order_price
aggressive_order_price-IsOrderPrice price side slippage precision t h =
    let n = order_coefficient price side (natural slippage) (order_scale precision price) in
    let out_of_range : Bool =
      not (is_safe_integer slippage) || (is_negative slippage || ltb 500 (natural slippage)) in
    let refused : Bool = not (is_decimal_string price) || has_minus price in
    let slippage_error = plain_error "Slippage must be whole basis points from 0 through 500." in
    let price_error = plain_error "Reference price must be a positive decimal value." in
    let zero_error = plain_error "Reference price must be greater than zero." in
    let bound_error = plain_error "The slippage price bound is not positive." in
    let (range, a) = >>-eq-ok (throw_if out_of_range slippage_error) _ h in
    let (decimal, b) = >>-eq-ok (throw_if refused price_error) _ a in
    let (some_reference, c) = >>-eq-ok (throw_if (coefficient_of price == 0) zero_error) _ b in
    let (above, d) = >>-eq-ok (throw_if (n == 0) bound_error) _ c in
    let no_minus : has_minus price ≡ false =
      ground (arith, throw_if-eq-ok refused price_error decimal) in
    let reference : 0 < coefficient_of price =
      ground (arith, throw_if-eq-ok (coefficient_of price == 0) zero_error some_reference) in
    let some_price : 0 < n = ground (arith, throw_if-eq-ok (n == 0) bound_error above) in
    (
      ground (arith, throw_if-eq-ok out_of_range slippage_error range),
      subst (λ x. IsOrderPrice price side (natural slippage) precision x) (ok_inj d)
          (formatted price side (natural slippage) precision no_minus reference some_price),
    )
