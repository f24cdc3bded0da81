-- ===== src/Validation/Amounts/Products.antt =====
-- Products and comparisons of decimals that are not negative, as numbers.
use Prim.Native.Nat.{Ordering}
use mathlib.Core.Path.{ap₂}
use hyper_trader.Common.{
  ℕ, ◌+◌, ◌*◌, ◌≤◌, ◌≡◌, refl, sym, ap, ◌∙◌, subst, true, false, not, ◌&&◌, List, arith, ◌==◌,
  String, ok,
}
use hyper_trader.Decimals.{has_minus}
use hyper_trader.Decimals.Digits.{ten_to, ten_to-add}
use hyper_trader.Decimals.Compare.{numerator, scale}
use hyper_trader.Validation.Amounts.{
  ParsedDecimal, parse_decimal, compare_decimal, multiply_decimal, whole, is_lt, is_gt, is_eq,
}
use hyper_trader.Validation.Amounts.Values.{
  IsParsed, IsPositive, order_of, order_of-left, order_of-right, compare_decimal-order_of,
  multiply_decimal-exact, same_value, parse_decimal-IsParsed,
}

-- d is n / 10^m.
pub record IsValue (d : ParsedDecimal) (n m : ℕ) : Type 0 where
  pub above : d.is_below ≡ false
  pub exact : d.coefficient * ten_to m ≡ n * ten_to d.scale

pub IsParsed-IsValue :
    (s : List ℕ) (d : ParsedDecimal)
    → IsParsed s d
    → has_minus s ≡ false
    → IsValue d (numerator s) (scale s)
IsParsed-IsValue s d p h = record {
  above = p.sign ∙ ap (λ b. b && not (d.coefficient == 0)) h;
  exact = p.exact;
}

-- What a positive text is parsed to, after it has been printed again.
pub positive-IsValue :
    (s t : List ℕ) (path : String) {d : ParsedDecimal}
    → IsPositive s t
    → parse_decimal t path ≡ ok d
    → IsValue d (numerator s) (scale s)
positive-IsValue s t path {d} p h =
    let v = IsParsed-IsValue t d (parse_decimal-IsParsed t path h) p.unsigned in
    record {
      above = v.above;
      exact =
          same_value d.coefficient d.scale (scale t) (numerator t) (scale s) (numerator s) v.exact
            p.same;
    }

pub whole-IsValue : (n : ℕ) → IsValue (whole n) n 0
whole-IsValue n = record { above = refl; exact = refl }

interchange : (a b c d : ℕ) → (a * b) * (c * d) ≡ (a * c) * (b * d)
interchange a b c d = grind arith

pub multiply_decimal-IsValue :
    (a b : ParsedDecimal) (n m k l : ℕ)
    → IsValue a n m
    → IsValue b k l
    → IsValue (multiply_decimal a b) (n * k) (m + l)
multiply_decimal-IsValue a b n m k l p q =
    let (above, exact) = multiply_decimal-exact a b p.above q.above in
    record {
      above = above;
      exact =
          same_value (multiply_decimal a b).coefficient (multiply_decimal a b).scale
            (a.scale + b.scale) (a.coefficient * b.coefficient) (m + l) (n * k) exact
            (ap (λ t. (a.coefficient * b.coefficient) * t) (ten_to-add m l)
              ∙ interchange a.coefficient b.coefficient (ten_to m) (ten_to l)
              ∙ ap₂ ◌*◌ p.exact q.exact
              ∙ interchange n (ten_to a.scale) k (ten_to b.scale)
              ∙ ap (λ t. (n * k) * t) (sym (ten_to-add a.scale b.scale)));
    }

pub compare_decimal-IsValue :
    (a b : ParsedDecimal) (n m k l : ℕ)
    → IsValue a n m
    → IsValue b k l
    → compare_decimal a b ≡ order_of n m k l
compare_decimal-IsValue a b n m k l p q =
    compare_decimal-order_of a b p.above q.above
    ∙ order_of-left a.coefficient a.scale n m b.coefficient b.scale p.exact
    ∙ order_of-right n m b.coefficient b.scale k l q.exact

-- n / 10^m is at most k / 10^l.
abbrev pub IsAtMost : ℕ → ℕ → ℕ → ℕ → Type 0
IsAtMost n m k l = n * ten_to l ≤ k * ten_to m

pub order_of-IsAtMost :
    (o : Ordering) (n m k l : ℕ) → o ≡ order_of n m k l → is_gt o ≡ false → IsAtMost n m k l
order_of-IsAtMost o n m k l e h = ground (arith, ap is_gt e)

pub order_of-IsAtLeast :
    (o : Ordering) (n m k l : ℕ) → o ≡ order_of n m k l → is_lt o ≡ false → IsAtMost k l n m
order_of-IsAtLeast o n m k l e h = ground (arith, ap is_lt e)

pub order_of-same :
    (o : Ordering) (n m k l : ℕ)
    → o ≡ order_of n m k l
    → is_eq o ≡ true
    → n * ten_to l ≡ k * ten_to m
order_of-same o n m k l e h = ground (arith, ap is_eq e)

-- A multiple by a natural number.
pub scaled-IsValue :
    (a : ParsedDecimal) (n m k : ℕ)
    → IsValue a n m
    → IsValue (multiply_decimal a (whole k)) (n * k) m
scaled-IsValue a n m k p =
    subst (λ t. IsValue (multiply_decimal a (whole k)) (n * k) t) (omega arith)
      (multiply_decimal-IsValue a (whole k) n m k 0 p (whole-IsValue k))
