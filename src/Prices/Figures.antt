-- ===== src/Prices/Figures.antt =====
-- aggressive-order-price.ts, `targetScale`: how many places a number of significant figures leaves to
-- a price.
use hyper_trader.Common.{
  ℕ, suc, ◌+◌, ◌-◌, ◌*◌, ◌≤◌, ◌<◌, ◌≡◌, ◌⊎◌, inl, inr, sym, subst, min, max, List, [], ◌∷◌, arith,
  all, is_digit, length, true, Bool-cases, leb,
}
use hyper_trader.Decimals.{without_minus, after_point, PricePrecisionInputs}
use hyper_trader.Decimals.Digits.{
  ten_to, ten_to_pos, ten_to-add, ten_to_mono, mul_le_mul, value, value-lt-ten_to, IsNormal,
}
use hyper_trader.Decimals.Compare.{numerator, scale}
use hyper_trader.Prices.{digits_of, coefficient_of, input_scale, order_scale}
use hyper_trader.Prices.Format.{digits_of-IsNumeral}

-- The largest number of places within a bound at which something fits, or none.
pub record IsWidest (Fits : ℕ → Type 0) (bound m : ℕ) : Type 0 where
  pub few : m ≤ bound
  pub fits : (m ≡ 0) ⊎ Fits m
  pub widest : (m ≡ bound) ⊎ ¬ Fits (m + 1)

-- Written with m places, the price has no more than so many figures, where zeros at its front do not
-- count: it is below ten to the power of the figures, in units of the last place.
abbrev pub Fits : (figures : ℕ) (price : List ℕ) (m : ℕ) → Type 0
Fits figures price m = numerator price * ten_to m < ten_to figures * ten_to (scale price)

-- The same, and one of the figures is before the point, be it a zero.
abbrev pub FitsWhole : (figures : ℕ) (price : List ℕ) (m : ℕ) → Type 0
FitsWhole figures price m = (m < figures) × Fits figures price m

normal_low :
    (s : List ℕ)
    → all is_digit s ≡ true
    → IsNormal s
    → 0 < value s
    → ten_to (length s) ≤ 10 * value s
unfolding is_digit
normal_low [] d n p = absurd n
normal_low (c ∷ []) d n p = omega (arith, p)
normal_low (c ∷ e ∷ s) d n p =
    let first : 1 ≤ c - b'0' = ground (arith, n) in
    omega (arith, mul_le_mul 1 (c - b'0') (ten_to (length (e ∷ s))) first)

-- The number of digits of a number.
high_digits : (c : ℕ) → c < ten_to (length (digits_of c))
high_digits c =
    let n = digits_of-IsNumeral c in omega (arith, n.stands, value-lt-ten_to (digits_of c) n.digits)

low_digits : (c : ℕ) → 0 < c → ten_to (length (digits_of c)) ≤ 10 * c
low_digits c p =
    let n = digits_of-IsNumeral c in
    omega (arith, n.stands, normal_low (digits_of c) n.digits n.normal (omega (arith, n.stands, p)))

below_figures : (c l m f g : ℕ) → c < ten_to l → l + m ≤ f + g → c * ten_to m < ten_to f * ten_to g
below_figures c l m f g h k = omega (
  arith,
  mul_le_mul (suc c) (ten_to l) (ten_to m) h,
  ten_to_pos m,
  ten_to-add l m,
  ten_to-add f g,
  ten_to_mono (l + m) (f + g) k,
)

beyond_figures :
    (c l m f g : ℕ) → ten_to l ≤ 10 * c → f + g ≤ l + m → ten_to f * ten_to g ≤ c * ten_to (m + 1)
beyond_figures c l m f g h k =
    let power : ten_to (m + 1) ≡ ten_to m * 10 = omega (arith, ten_to-add m 1) in
    let next : 10 * c * ten_to m ≡ c * ten_to (m + 1) = rw power (grind arith) in
    omega (
      arith,
      next,
      mul_le_mul (ten_to l) (10 * c) (ten_to m) h,
      ten_to-add l m,
      ten_to-add f g,
      ten_to_mono (f + g) (l + m) k,
    )

-- The scales that the code computes, by the numbers that they are computed from.
input_scale_lem :
    (c l f figures bound : ℕ)
    → ten_to l ≤ 10 * c
    → c < ten_to l
    → let m = min bound (figures + f - l) in
      IsWidest (λ n. c * ten_to n < ten_to figures * ten_to f) bound m
input_scale_lem c l f figures bound low high = record {
  few = omega arith;
  fits = elim (Bool-cases (leb 1 (min bound (figures + f - l)))) [
    | inl some_places ↦ inr (below_figures c l _ figures f high (ground (arith, some_places)))
    | inr no_places ↦ inl (ground (arith, no_places))
  ];
  widest = elim (Bool-cases (leb bound (figures + f - l))) [
    | inl bounded ↦ inl (ground (arith, bounded))
    | inr more ↦
        let reached : figures + f ≤ l + min bound (figures + f - l) = ground (arith, more) in
        inr (λ h. omega (arith, h, beyond_figures c l _ figures f low reached))
  ];
}

order_scale_lem :
    (c l f figures bound : ℕ)
    → ten_to l ≤ 10 * c
    → c < ten_to l
    → let m = min bound (figures - max 1 (l - f)) in
      IsWidest (λ n. (n < figures) × (c * ten_to n < ten_to figures * ten_to f)) bound m
order_scale_lem c l f figures bound low high = record {
  few = omega arith;
  fits = elim (Bool-cases (leb 1 (min bound (figures - max 1 (l - f))))) [
    | inl some_places ↦ inr (
      ground (arith, some_places),
      below_figures c l _ figures f high (ground (arith, some_places)),
    )
    | inr no_places ↦ inl (ground (arith, no_places))
  ];
  widest = elim (Bool-cases (leb bound (figures - max 1 (l - f)))) [
    | inl bounded ↦ inl (ground (arith, bounded))
    | inr more ↦ inr (λ (one_more, h).
        let reached : figures + f ≤ l + min bound (figures - max 1 (l - f)) =
          ground (arith, more, one_more) in
        omega (arith, h, beyond_figures c l _ figures f low reached))
  ];
}

module _ (price : List ℕ) (precision : PricePrecisionInputs) (own : without_minus price ≡ price)
    (p : 0 < coefficient_of price) where
  pub input_scale-IsWidest :
      IsWidest
        (Fits precision.max_significant_figures price)
        precision.max_decimal_places
        (input_scale precision price)
  input_scale-IsWidest =
      subst
        (λ u.
          IsWidest
            (λ n.
              coefficient_of u * ten_to n
              < ten_to precision.max_significant_figures * ten_to (length (after_point u)))
            precision.max_decimal_places (input_scale precision price))
        (sym own)
        (input_scale_lem (coefficient_of price) _ (length (after_point price))
          precision.max_significant_figures precision.max_decimal_places
          (low_digits (coefficient_of price) p) (high_digits (coefficient_of price)))

  pub order_scale-IsWidest :
      IsWidest
        (FitsWhole precision.max_significant_figures price)
        precision.max_decimal_places
        (order_scale precision price)
  order_scale-IsWidest =
      subst
        (λ u.
          IsWidest
            (λ n.
              (n < precision.max_significant_figures)
              × (coefficient_of u * ten_to n
                  < ten_to precision.max_significant_figures * ten_to (length (after_point u))))
            precision.max_decimal_places (order_scale precision price))
        (sym own)
        (order_scale_lem (coefficient_of price) _ (length (after_point price))
          precision.max_significant_figures precision.max_decimal_places
          (low_digits (coefficient_of price) p) (high_digits (coefficient_of price)))
