-- ===== src/Validation/Margin.antt =====
-- What the check of margin leaves of an order.

use hyper_trader.Common.{
  ℕ, ◌+◌, ◌*◌, ◌<◌, ◌≤◌, ◌≡◌, refl, sym, ap, ◌∙◌, subst, Bool, true, false, not, ◌&&◌, ◌||◌, List,
  ◌∷◌, ◌++◌, [], Option, none, some, arith, ltb, ◌==◌, String, Number, pos, negsuc, is_safe_integer,
  ok, ok_inj, validation, throw_if-eq-ok, >>=-eq-ok, >>-eq-ok, Bool-cases, ◌⊎◌, inl, inr,
}
use hyper_trader.Decimals.{has_minus, without_minus, before_point, after_point, digit_zero, minus}
use hyper_trader.Decimals.Digits.{ten_to, value, ten_to_pos, mul_le_mul}
use hyper_trader.Decimals.Compare.{numerator, scale}
use hyper_trader.Validation.{ActionMarketRules, ActionAccountRules}
use hyper_trader.Validation.Amounts.{
  ParsedDecimal, parse_decimal, format_digits, format_decimal, normalize_decimal, compare_decimal,
  multiply_decimal, positive_decimal, whole, is_lt, is_gt, trim,
}
use hyper_trader.Validation.Amounts.Values.{
  IsParsed, parse_decimal-IsParsed, positive_decimal-IsPositive, positive_left,
  format_decimal-IsPositive, format_digits-IsFormat, trim-exact,
}
use hyper_trader.Validation.Amounts.Products.{
  IsValue, IsParsed-IsValue, positive-IsValue, scaled-IsValue, compare_decimal-IsValue, IsAtMost,
  order_of-IsAtMost, order_of-IsAtLeast,
}
use hyper_trader.Validation.Checks.{is_spot, is_set}
use hyper_trader.Validation.Orders.{
  assert_minimum, leverage_of, check_leverage, is_above_maximum, is_isolated, assert_margin,
}
use hyper_trader.Validation.Bounds.{passed_check}

-- The notional n / 10^m reaches the minimum, if there is one.
abbrev pub IsAtLeast : Option (List ℕ) → ℕ → ℕ → Type 0
IsAtLeast none n m = Unit {0}
IsAtLeast (some minimum) n m = IsAtMost (numerator minimum) (scale minimum) n m

assert_minimum-IsAtLeast :
    (minimum : Option (List ℕ)) (d : ParsedDecimal) (n m : ℕ)
    → IsValue d n m
    → assert_minimum minimum d ≡ ok tt
    → IsAtLeast minimum n m
assert_minimum-IsAtLeast none d n m v h = tt
assert_minimum-IsAtLeast (some text) d n m v h =
    let (positive, printed, h₁) = >>=-eq-ok (positive_decimal text "market.minimumNotional") _ h in
    let (minimum, again, h₂) = >>=-eq-ok (parse_decimal positive "market.minimumNotional") _ h₁ in
    order_of-IsAtLeast (compare_decimal d minimum) n m (numerator text) (scale text)
      (compare_decimal-IsValue d minimum n m (numerator text) (scale text) v (
        positive-IsValue text positive "market.minimumNotional"
          (positive_decimal-IsPositive text "market.minimumNotional" printed) again))
      (throw_if-eq-ok (is_lt (compare_decimal d minimum)) _ h₂)

-- A product with a negative decimal is negative.
below_product :
    (d : ParsedDecimal) (l : ℕ)
    → d.is_below ≡ true
    → 0 < d.coefficient
    → 0 < l
    → (multiply_decimal d (whole l)).is_below ≡ true
unfolding multiply_decimal
below_product d l b p q =
    let t = trim (d.coefficient * l) (d.scale + 0) in
    let nonzero : 0 < t.0 =
      positive_left t.0 (ten_to (d.scale + 0)) (d.coefficient * l) (ten_to t.1)
        (trim-exact (d.coefficient * l) (d.scale + 0)) (product_pos d.coefficient l p q)
        (ten_to_pos t.1) in
    rw b (ground (arith, nonzero))
  where
    product_pos : (a b : ℕ) → 0 < a → 0 < b → 0 < a * b
    product_pos a b h k = ground (arith, mul_le_mul 1 a b)

-- No notional above zero is within a margin that is negative.
compare_below :
    (a b : ParsedDecimal)
    → a.is_below ≡ false
    → b.is_below ≡ true
    → is_gt (compare_decimal a b) ≡ true
unfolding compare_decimal
compare_below a b h k = rw (h, k) refl

unsigned_same : (s : List ℕ) → has_minus s ≡ false → without_minus s ≡ s
unsigned_same [] h = refl
unsigned_same (c ∷ s) h = ground arith

-- A negative decimal is read as a negative one when it has been printed.
printed_below :
    (d : ParsedDecimal) (path : String) {b : ParsedDecimal}
    → d.is_below ≡ true
    → (d.coefficient == 0) ≡ false
    → parse_decimal (format_decimal d) path ≡ ok b
    → (b.is_below ≡ true) × (0 < b.coefficient)
unfolding format_decimal
printed_below d path {b} h k e =
    let s = format_digits d.coefficient d.scale in
    let f = format_digits-IsFormat d.coefficient d.scale in
    let text : format_decimal d ≡ minus ∷ s = rw (k, h) refl in
    let p =
      parse_decimal-IsParsed (minus ∷ s) path (ap (λ t. parse_decimal t path) (sym text) ∙ e) in
    let same : numerator (minus ∷ s) ≡ numerator s =
      ap (λ u. value (before_point u ++ after_point u)) (sym (unsigned_same s f.unsigned)) in
    let some_value : 0 < numerator s =
      positive_left (numerator s) (ten_to d.scale) d.coefficient (ten_to (scale s)) f.exact
        (ground (arith, k)) (ten_to_pos (scale s)) in
    let some_left : 0 < b.coefficient =
      positive_left b.coefficient (ten_to (scale (minus ∷ s))) (numerator (minus ∷ s))
        (ten_to b.scale) p.exact (subst (λ t. 0 < t) (sym same) some_value) (ten_to_pos b.scale) in
    (p.sign ∙ ground (arith, some_left), some_left)

-- The notional n / 10^m is within the leveraged margin, which is no negative one.
pub record IsAffordable (margin : List ℕ) (leverage n m : ℕ) : Type 0 where
  pub not_negative : has_minus margin ≡ false
  pub within : IsAtMost n m (numerator margin * leverage) (scale margin)

-- The printed zero is read as zero, and leaves no room for a notional above it.
zero_refuses :
    (d b a : ParsedDecimal) (path : String) (l n m : ℕ)
    → (d.coefficient == 0) ≡ true
    → parse_decimal (format_decimal d) path ≡ ok b
    → IsValue a n m
    → 0 < n
    → is_gt (compare_decimal a (multiply_decimal b (whole l))) ≡ true
unfolding format_decimal
zero_refuses d b a path l n m h e v p =
    let text : format_decimal d ≡ digit_zero ∷ [] = rw h refl in
    let z =
      parse_decimal-IsParsed (digit_zero ∷ []) path
        (ap (λ t. parse_decimal t path) (sym text) ∙ e) in
    let zero_value : IsValue b 0 0 = IsParsed-IsValue (digit_zero ∷ []) b z refl in
    ap is_gt (
      compare_decimal-IsValue a (multiply_decimal b (whole l)) n m (0 * l) 0 v
        (scaled-IsValue b 0 0 l zero_value))
    ∙ ground (arith, p)

module _ (a : ParsedDecimal) (n m l : ℕ) (v : IsValue a n m) (p : 0 < n) (q : 0 < l) where
  pub affordable :
      (margin text : List ℕ) (b : ParsedDecimal) (path : String)
      → normalize_decimal margin path ≡ ok text
      → parse_decimal text path ≡ ok b
      → is_gt (compare_decimal a (multiply_decimal b (whole l))) ≡ false
      → IsAffordable margin l n m
  unfolding normalize_decimal
  affordable margin text b path printed again h =
      let (d, parsed, e) = >>=-eq-ok (parse_decimal margin path) _ printed in
      let reread : parse_decimal (format_decimal d) path ≡ ok b =
        ap (λ t. parse_decimal t path) (ok_inj e) ∙ again in
      by_sign d (parse_decimal-IsParsed margin path parsed) reread (Bool-cases (d.coefficient == 0))
        (Bool-cases d.is_below)
    where
      clash : {r : Type 0} {b : Bool} → b ≡ true → b ≡ false → r
      clash {r} {b} t f = absurd (cc_clash b t f)
        where
          cc_clash : (b : Bool) → b ≡ true → b ≡ false → ⊥
          cc_clash b t f = cc

      by_sign :
          (d : ParsedDecimal)
          → IsParsed margin d
          → parse_decimal (format_decimal d) path ≡ ok b
          → ((d.coefficient == 0) ≡ true) ⊎ ((d.coefficient == 0) ≡ false)
          → (d.is_below ≡ true) ⊎ (d.is_below ≡ false)
          → IsAffordable margin l n m
      by_sign d r again (inl none_left) s =
          clash (zero_refuses d b a path l n m none_left again v p) h
      by_sign d r again (inr some_left) (inl below) =
          let (negative, nonzero) = printed_below d path below some_left again in
          clash
            (compare_below a (multiply_decimal b (whole l)) v.above
              (below_product b l negative nonzero q))
            h
      by_sign d r again (inr some_left) (inr above) =
          let t = format_decimal-IsPositive margin d r (ground (arith, some_left, above)) in
          record {
            not_negative = ground (arith, r.sign, above, some_left);
            within =
                order_of-IsAtMost (compare_decimal a (multiply_decimal b (whole l))) n m
                  (numerator margin * l) (scale margin)
                  (compare_decimal-IsValue a (multiply_decimal b (whole l)) n m
                    (numerator margin * l) (scale margin) v
                    (scaled-IsValue b (numerator margin) (scale margin) l
                      (positive-IsValue margin (format_decimal d) path t again)))
                  h;
          }

-- Leverage that is known, and no larger than the maximum.
pub record IsLeverage (leverage maximum : Option Number) (l : ℕ) : Type 0 where
  pub highest : ℕ
  pub known : leverage ≡ some (pos l)
  pub positive : 0 < l
  pub allowed : maximum ≡ some (pos highest)
  pub within : l ≤ highest

check_leverage-ok :
    (leverage : Option Number) {l : ℕ}
    → check_leverage leverage ≡ ok l
    → (leverage ≡ some (pos l)) × (0 < l)
check_leverage-ok none h = cc
check_leverage-ok (some (pos n)) h =
    let (good, e) = passed_check (not (is_safe_integer (pos n)) || (false || ltb n 1)) _ _ h in
    (ap (λ b. some (pos b)) (ok_inj e), ground (arith, good, ok_inj e))
check_leverage-ok (some (negsuc n)) h =
    absurd (
      ground
        (arith, (passed_check (not (is_safe_integer (negsuc n)) || (true || ltb 0 1)) _ _ h).0))
check_leverage-ok (some Number.other) h = cc

within_maximum :
    (l : ℕ) (maximum : Option Number)
    → is_above_maximum l maximum ≡ false
    → (highest : ℕ) × (maximum ≡ some (pos highest)) × (l ≤ highest)
within_maximum l none h = cc
within_maximum l (some (pos n)) h = (n, refl, ground (arith, h))
within_maximum l (some (negsuc n)) h = absurd (ground (arith, h))
within_maximum l (some Number.other) h = cc

pub record IsMargin (market : ActionMarketRules) (account : ActionAccountRules) (n m : ℕ)
    : Type 0 where
  pub leverage : ℕ
  pub reached : IsAtLeast market.minimum_notional n m
  pub leveraged :
      IsLeverage
        (leverage_of (is_spot market.family) account.leverage)
        (leverage_of (is_spot market.family) market.max_leverage)
        leverage
  pub isolated : (is_set market.only_isolated && not (is_isolated account.margin_mode)) ≡ false
  pub affordable : IsAffordable account.available_margin leverage n m

pub assert_margin-IsMargin :
    (market : ActionMarketRules) (account : ActionAccountRules) (d : ParsedDecimal) (n m : ℕ)
    → IsValue d n m
    → 0 < n
    → assert_margin market account d false ≡ ok tt
    → IsMargin market account n m
unfolding assert_margin
assert_margin-IsMargin market account d n m v p h =
    let (reached, h₁) = >>-eq-ok (assert_minimum market.minimum_notional d) _ h in
    let (l, levered, h₂) =
      >>=-eq-ok (check_leverage (leverage_of (is_spot market.family) account.leverage)) _ h₁ in
    let (known, positive) =
      check_leverage-ok (leverage_of (is_spot market.family) account.leverage) levered in
    let (below_max, h₃) =
      passed_check (is_above_maximum l (leverage_of (is_spot market.family) market.max_leverage))
        (validation "account.leverage" "leverage exceeds the current market maximum") _ h₂ in
    let (highest, allowed, within) =
      within_maximum l (leverage_of (is_spot market.family) market.max_leverage) below_max in
    let (isolated, h₄) =
      passed_check (is_set market.only_isolated && not (is_isolated account.margin_mode))
        (validation "account.marginMode" "this market requires isolated margin") _ h₃ in
    let (text, printed, h₅) =
      >>=-eq-ok (normalize_decimal account.available_margin "account.availableMargin") _ h₄ in
    let (b, again, h₆) = >>=-eq-ok (parse_decimal text "account.availableMargin") _ h₅ in
    record {
      leverage = l;
      reached = assert_minimum-IsAtLeast market.minimum_notional d n m v reached;
      leveraged = record {
        highest = highest;
        known = known;
        positive = positive;
        allowed = allowed;
        within = within;
      };
      isolated = isolated;
      affordable =
          affordable d n m l v p positive account.available_margin text b "account.availableMargin"
            printed again
            (throw_if-eq-ok (is_gt (compare_decimal d (multiply_decimal b (whole l)))) _ h₆);
    }
