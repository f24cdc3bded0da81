-- ===== src/Validation/Amounts/Values.antt =====
-- Parsed decimals against the numbers that they stand for.
use Prim.Native.Nat.{compare, Ordering}
use mathlib.Core.Path.{ap₂}
use mathlib.Core.List.{append-nil, append_assoc}
use native.Mathlib.Nat.{mul_assoc}
use hyper_trader.Common.{
  ℕ, zero, suc, ◌+◌, ◌-◌, ◌*◌, ◌/◌, ◌%◌, ◌<◌, ◌≡◌, refl, sym, ap, ◌∙◌, subst, Bool, true, false,
  not, ◌&&◌, ◌||◌, String, List, [], ◌∷◌, ◌++◌, arith, length, length-append, take, drop, is_digit,
  ltb, ◌==◌, if◌then◌else◌, ok, ok_inj, validation, throw_if, throw_if-eq-ok, >>=-eq-ok, >>-eq-ok,
  take-append-drop, length-drop, all-take, all-drop,
}
use hyper_trader.Decimals.{
  point, has_minus, without_minus, before_point, after_point, is_decimal_string, strip_leading,
  strip_trailing, zeros,
}
use hyper_trader.Decimals.Digits.{
  ten_to, value, ten_to_pos, ten_to-add, value-append, value-strip_leading, value-zeros,
  length-zeros, mul_le_mul,
}
use hyper_trader.Decimals.Strip.{strip_trailing_lem, compare-mul, all-append, all-zeros}
use hyper_trader.Decimals.Compare.{numerator, scale}
use hyper_trader.Decimals.Parts.{value-append-zeros, compare_scaled}
use hyper_trader.Prices.{digits_of, pad_start, join_fraction}
use hyper_trader.Prices.Format.{
  IsFormat, joined-IsFormat, padded_whole, length-take_pos, digits_of-IsNumeral,
}
use hyper_trader.Validation.Amounts.{
  ParsedDecimal, parse_decimal, format_digits, format_decimal, compare_decimal, trim,
  multiply_decimal, positive_decimal,
}

-- The decimal d is the text s, whose value is numerator s / 10^scale s.
pub record IsParsed (s : List ℕ) (d : ParsedDecimal) : Type 0 where
  pub valid : is_decimal_string s ≡ true
  pub exact : d.coefficient * ten_to (scale s) ≡ numerator s * ten_to d.scale
  pub sign : d.is_below ≡ (has_minus s && not (d.coefficient == 0))

abbrev pub is_bad_decimal : List ℕ → Bool
is_bad_decimal s = ltb 256 (length s) || not (is_decimal_string s)

stripped_value :
    (w f : List ℕ)
    → (k : ℕ) × (length f ≡ length (strip_trailing f) + k)
      × (value (w ++ f) ≡ value (strip_leading (w ++ strip_trailing f)) * ten_to k)
stripped_value w f =
    let (k, e) = strip_trailing_lem f in
    let t = strip_trailing f in
    (
      k,
      ap length e ∙ length-append t (zeros k) ∙ ap (λ n. length t + n) (length-zeros k),
      ap (λ u. value (w ++ u)) e
          ∙ ap value (sym (append_assoc w t (zeros k)))
          ∙ value-append-zeros (w ++ t) k
          ∙ ap (λ n. n * ten_to k) (sym (value-strip_leading (w ++ t))),
    )

exact_parts : (n c a b k : ℕ) → b ≡ a + k → n ≡ c * ten_to k → c * ten_to b ≡ n * ten_to a
exact_parts n c a b k e h = rw (e, h, ten_to-add a k) (grind arith)

pub parse_decimal-IsParsed :
    (s : List ℕ) (path : String) {d : ParsedDecimal} → parse_decimal s path ≡ ok d → IsParsed s d
unfolding parse_decimal
parse_decimal-IsParsed s path {d} h =
    let (checked, made) =
      >>-eq-ok (throw_if (is_bad_decimal s) (validation path "expected a canonical decimal string"))
        _ h in
    let good =
      throw_if-eq-ok (is_bad_decimal s) (validation path "expected a canonical decimal string")
        checked in
    let w = before_point (without_minus s) in
    let f = after_point (without_minus s) in
    let (k, long, stands) = stripped_value w f in
    let c = value (strip_leading (w ++ strip_trailing f)) in
    subst (IsParsed s) (ok_inj made) record {
      valid = ground (arith, good);
      exact = exact_parts (numerator s) c (length (strip_trailing f)) (length f) k long stands;
      sign = refl;
    }

-- The order of n / 10^m and k / 10^l.
abbrev pub order_of : ℕ → ℕ → ℕ → ℕ → Ordering
order_of n m k l = compare (n * ten_to l) (k * ten_to m)

swap_left :
    (n l m' n' m : ℕ)
    → n * ten_to m' ≡ n' * ten_to m
    → (n * ten_to l) * ten_to m' ≡ (n' * ten_to l) * ten_to m
swap_left n l m' n' m e =
    turn n (ten_to l) (ten_to m') ∙ ap (λ t. t * ten_to l) e ∙ turn n' (ten_to m) (ten_to l)
  where
    turn : (a b c : ℕ) → (a * b) * c ≡ (a * c) * b
    turn a b c = grind arith

-- Either number may be written over another power of ten.
pub order_of-left :
    (n m n' m' k l : ℕ) → n * ten_to m' ≡ n' * ten_to m → order_of n m k l ≡ order_of n' m' k l
order_of-left n m n' m' k l e =
    sym (compare-mul (n * ten_to l) (k * ten_to m) (ten_to m') (ten_to_pos m'))
    ∙ ap₂ compare (swap_left n l m' n' m e) (grind arith)
    ∙ compare-mul (n' * ten_to l) (k * ten_to m') (ten_to m) (ten_to_pos m)

pub order_of-right :
    (n m k l k' l' : ℕ) → k * ten_to l' ≡ k' * ten_to l → order_of n m k l ≡ order_of n m k' l'
order_of-right n m k l k' l' e =
    sym (compare-mul (n * ten_to l) (k * ten_to m) (ten_to l') (ten_to_pos l'))
    ∙ ap₂ compare (grind arith) (swap_left k m l' k' l e)
    ∙ compare-mul (n * ten_to l') (k' * ten_to m) (ten_to l) (ten_to_pos l)

pub compare_decimal-order_of :
    (left right : ParsedDecimal)
    → left.is_below ≡ false
    → right.is_below ≡ false
    → compare_decimal left right
      ≡ order_of left.coefficient left.scale right.coefficient right.scale
unfolding compare_decimal
compare_decimal-order_of left right p q =
    rw (p, q)
      (compare_scaled left.coefficient right.coefficient left.scale right.scale 0 0
        ∙ ap₂ compare (plain left.coefficient right.scale) (plain right.coefficient left.scale))
  where
    plain : (n m : ℕ) → (n * ten_to 0) * ten_to (m + 0) ≡ n * ten_to m
    plain n m = ap₂ ◌*◌ (omega arith) (ap ten_to (omega arith))

trim_step :
    (b : Bool) (r : ℕ × ℕ) (n m : ℕ)
    → (b ≡ true → r.0 * (10 * ten_to m) ≡ n * ten_to r.1)
    → (if b then r else (n, suc m)).0 * (10 * ten_to m) ≡ n * ten_to (if b then r else (n, suc m)).1
trim_step true r n m h = h refl
trim_step false r n m h = refl

ten_times : (a t q n u : ℕ) → a * t ≡ q * u → n ≡ 10 * q → a * (10 * t) ≡ n * u
ten_times a t q n u e h =
    turn ∙ ap (λ v. 10 * v) e ∙ sym (mul_assoc 10 q u) ∙ ap (λ v. v * u) (sym h)
  where
    turn : a * (10 * t) ≡ 10 * (a * t)
    turn = grind arith

-- Zeros are taken off the end of a coefficient and off its scale alike.
pub trim-exact : (n m : ℕ) → (trim n m).0 * ten_to m ≡ n * ten_to (trim n m).1
unfolding trim
trim-exact n zero = refl
trim-exact n (suc m) = trim_step (n % 10 == 0) (trim (n / 10) m) n m (λ even.
    ten_times (trim (n / 10) m).0 (ten_to m) (n / 10) n (ten_to (trim (n / 10) m).1)
      (trim-exact (n / 10) m) (ground (arith, even)))

-- The product of two decimals that are not negative.
pub multiply_decimal-exact :
    (a b : ParsedDecimal)
    → a.is_below ≡ false
    → b.is_below ≡ false
    → ((multiply_decimal a b).is_below ≡ false)
      × ((multiply_decimal a b).coefficient * ten_to (a.scale + b.scale)
          ≡ (a.coefficient * b.coefficient) * ten_to (multiply_decimal a b).scale)
unfolding multiply_decimal
multiply_decimal-exact a b p q =
    (rw (p, q) refl, trim-exact (a.coefficient * b.coefficient) (a.scale + b.scale))

pub format_digits-IsFormat : (n m : ℕ) → IsFormat n m (format_digits n m)
format_digits-IsFormat n zero =
    let d = digits_of-IsNumeral n in
    joined-IsFormat (digits_of n) [] 0 n d.digits d.normal d.some_digit refl
      (rw (append-nil (digits_of n)) (omega (arith, d.stands)))
format_digits-IsFormat n (suc m) =
    let d = digits_of-IsNumeral n in
    let s = pad_start (digits_of n) (suc m + 1) in
    let split = length s - suc m in
    let total = length-append (zeros (suc m + 1 - length (digits_of n))) (digits_of n) in
    let filled = length-zeros (suc m + 1 - length (digits_of n)) in
    let digits =
      all-append (zeros (suc m + 1 - length (digits_of n))) (digits_of n) (all-zeros _) d.digits in
    let long : length (drop split s) ≡ suc m =
      omega (arith, length-drop {0} split s, total, filled) in
    let stands : value (take split s ++ drop split s) * ten_to 0 ≡ n =
      once (value (take split s ++ drop split s))
      ∙ ap value (take-append-drop split s)
      ∙ value-append (zeros (suc m + 1 - length (digits_of n))) (digits_of n)
      ∙ rw (value-zeros (suc m + 1 - length (digits_of n))) (omega (arith, d.stands)) in
    subst (λ t. IsFormat n (suc m) t) (joined (take split s) (drop split s) (omega (arith, long)))
      (subst (λ j. IsFormat n j (join_fraction (take split s) (drop split s)))
        (ap (λ j. j + 0) long ∙ once_more (suc m))
        (joined-IsFormat (take split s) (drop split s) 0 n (all-take is_digit split s digits)
          (padded_whole n (suc m))
          (length-take_pos split s (omega (arith, total, filled)) (omega (arith, total, filled)))
          (all-drop is_digit split s digits) stands))
  where
    joined : (w f : List ℕ) → 0 < length f → join_fraction w f ≡ w ++ point ∷ f
    joined w [] h = absurd (omega arith)
    joined w (c ∷ f) h = refl

    once_more : (v : ℕ) → v + 0 ≡ v
    once_more v = omega arith

    once : (v : ℕ) → v * ten_to 0 ≡ v
    once v = omega arith

cancel_mul : (a b t : ℕ) → 0 < t → a * t ≡ b * t → a ≡ b
cancel_mul a b t h e = ground (arith, mul_le_mul (a + 1) b t, mul_le_mul (b + 1) a t)

-- The positive decimal t has the value of s.
pub record IsPositive (s t : List ℕ) : Type 0 where
  pub valid : is_decimal_string t ≡ true
  pub unsigned : has_minus t ≡ false
  pub positive : 0 < numerator t
  pub same : numerator t * ten_to (scale s) ≡ numerator s * ten_to (scale t)

pub positive_left : (a t b u : ℕ) → a * t ≡ b * u → 0 < b → 0 < u → 0 < a
positive_left zero t b u e h k = absurd (ground (arith, mul_le_mul 1 b u))
positive_left (suc a) t b u e h k = omega arith

pub same_value :
    (n u m c t k : ℕ)
    → n * ten_to m ≡ c * ten_to u
    → c * ten_to t ≡ k * ten_to m
    → n * ten_to t ≡ k * ten_to u
same_value n u m c t k e f =
    cancel_mul (n * ten_to t) (k * ten_to u) (ten_to m) (ten_to_pos m)
      (swap_left n t m c u e ∙ swap_middle ∙ ap (λ v. v * ten_to u) f ∙ swap_end)
  where
    swap_middle : (c * ten_to t) * ten_to u ≡ (c * ten_to t) * ten_to u
    swap_middle = refl

    swap_end : (k * ten_to m) * ten_to u ≡ (k * ten_to u) * ten_to m
    swap_end = grind arith

pub format_decimal-IsPositive :
    (s : List ℕ) (d : ParsedDecimal)
    → IsParsed s d
    → (d.is_below || (d.coefficient == 0)) ≡ false
    → IsPositive s (format_decimal d)
unfolding format_decimal
format_decimal-IsPositive s d p h =
    let f = format_digits-IsFormat d.coefficient d.scale in
    let nonzero : (d.coefficient == 0) ≡ false = ground (arith, h) in
    let above : d.is_below ≡ false = ground (arith, h) in
    rw (nonzero, above)
      (record {
        valid = f.valid;
        unsigned = f.unsigned;
        positive =
            positive_left (numerator (format_digits d.coefficient d.scale)) (ten_to d.scale)
              d.coefficient (ten_to (scale (format_digits d.coefficient d.scale))) f.exact
              (ground (arith, nonzero)) (ten_to_pos (scale (format_digits d.coefficient d.scale)));
        same =
            same_value (numerator (format_digits d.coefficient d.scale))
              (scale (format_digits d.coefficient d.scale)) d.scale d.coefficient (scale s)
              (numerator s) f.exact p.exact;
      })

pub positive_decimal-IsPositive :
    (s : List ℕ) (path : String) {t : List ℕ} → positive_decimal s path ≡ ok t → IsPositive s t
unfolding positive_decimal
positive_decimal-IsPositive s path {t} h =
    let (d, parsed, rest) = >>=-eq-ok (parse_decimal s path) _ h in
    let (checked, made) =
      >>-eq-ok
        (throw_if (d.is_below || (d.coefficient == 0))
          (validation path "expected a positive decimal value"))
        _ rest in
    subst (IsPositive s) (ok_inj made) (
      format_decimal-IsPositive s d (parse_decimal-IsParsed s path parsed) (
        throw_if-eq-ok (d.is_below || (d.coefficient == 0))
          (validation path "expected a positive decimal value") checked))
