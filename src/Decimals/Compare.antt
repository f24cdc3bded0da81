-- ===== src/Decimals/Compare.antt =====
-- The exact comparison of decimals against the numbers that they stand for.
use hyper_trader.Decimals.Parts.{compare_scaled, value-append-zeros, IsParts, decimal-IsParts}
use mathlib.Core.Path.{ap₂}
use mathlib.Core.List.{append_assoc}
use Prim.Native.Nat.{compare}
use hyper_trader.Common.{
  ℕ, zero, suc, ◌+◌, ◌-◌, ◌*◌, ◌<◌, ◌≡◌, ◌↔◌, ◌⊎◌, inl, inr, refl, sym, ap, ◌∙◌, Bool, true, false,
  ◌&&◌, List, [], ◌∷◌, ◌++◌, arith, length, length-append, all, is_digit, codes_eq, codes_eq_iff,
  if◌then◌else◌, max, ok,
}
use hyper_trader.Decimals.{
  digit_zero, zeros, pad_end, strip_leading, strip_trailing, is_empty, compare_unsigned_digits,
  is_decimal_string, has_minus, without_minus, before_point, after_point, sign_of, order_by_sign,
  exact_decimal, parse_exact_decimal, compare_magnitudes, compare_exact_decimals,
}
use hyper_trader.Decimals.Digits.{
  ten_to, value, ten_to_pos, ten_to-add, value-append, length-zeros, IsNormal,
  strip_leading-IsNormal, value-strip_leading, all-strip_leading, length-strip_leading_pos,
  mul_le_mul,
}
use hyper_trader.Decimals.Strip.{
  all-append, all-zeros, all_tail, compare_unsigned_digits-value, strip_trailing_lem,
  all-strip_trailing, strip_trailing_pos, IsNormal-zero,
}

-- The digits of the text with its point left out, and how many stand after it.
abbrev pub numerator : List ℕ → ℕ
numerator s = value (before_point (without_minus s) ++ after_point (without_minus s))

abbrev pub scale : List ℕ → ℕ
scale s = length (after_point (without_minus s))

-- The number a / 10^m as a fraction over 10^(m + n), where n is the scale of another text: the part
-- above zero, and the part below.
abbrev pub above : List ℕ → List ℕ → ℕ
above s other = if has_minus s then 0 else numerator s * ten_to (scale other)

abbrev pub below : List ℕ → List ℕ → ℕ
below s other = if has_minus s then numerator s * ten_to (scale other) else 0

-- The numerator by the digits that are left after stripping.
stripped_numerator :
    (integer fraction : List ℕ)
    → (k : ℕ) × (value (integer ++ fraction)
        ≡ value (strip_leading integer ++ strip_trailing fraction) * ten_to k)
      × (length fraction ≡ length (strip_trailing fraction) + k)
stripped_numerator integer fraction =
    let (k, e) = strip_trailing_lem fraction in
    let f = strip_trailing fraction in
    let long : length fraction ≡ length f + k =
      ap length e ∙ length-append f (zeros k) ∙ ap (λ n. length f + n) (length-zeros k) in
    let tail : value fraction ≡ value f * ten_to k = ap value e ∙ value-append-zeros f k in
    (
      k,
      value-append integer fraction
          ∙ rw
              (
                long,
                tail,
                ten_to-add (length f) k,
                value-append (strip_leading integer) f,
                value-strip_leading integer,
              )
              (grind arith),
      long,
    )

compare_nonempty :
    (s t : List ℕ)
    → all is_digit s ≡ true
    → all is_digit t ≡ true
    → 0 < length s
    → 0 < length t
    → compare_unsigned_digits s t ≡ compare (value s) (value t)
compare_nonempty [] t h k p q = absurd (omega arith)
compare_nonempty (c ∷ s) [] h k p q = absurd (omega arith)
compare_nonempty (c ∷ s) (d ∷ t) h k p q = compare_unsigned_digits-value c d s t h k

strip_leading_parts :
    (s : List ℕ)
    → 0 < length s
    → all is_digit s ≡ true
    → (0 < length (strip_leading s)) × IsNormal (strip_leading s)
strip_leading_parts [] p h = absurd (omega arith)
strip_leading_parts (c ∷ s) p h =
    (length-strip_leading_pos c s, strip_leading-IsNormal c s (all_tail c s h))

-- What the source compares: the stripped digits, padded to one scale.
padded_digits :
    (integer fraction : List ℕ) (n : ℕ)
    → IsParts integer fraction
    → (0 < length (strip_leading integer ++ pad_end (strip_trailing fraction) n))
      × (all is_digit (strip_leading integer ++ pad_end (strip_trailing fraction) n) ≡ true)
      × (value (strip_leading integer ++ pad_end (strip_trailing fraction) n)
          ≡ value (strip_leading integer ++ strip_trailing fraction)
            * ten_to (n - length (strip_trailing fraction)))
padded_digits integer fraction n parts =
    let i = strip_leading integer in
    let f = strip_trailing fraction in
    let z = zeros (n - length f) in
    let (long, _) = strip_leading_parts integer parts.some_digit parts.integer_digits in
    (
      omega (arith, length-append {0} i (f ++ z)),
      all-append i (f ++ z) (all-strip_leading integer parts.integer_digits)
          (all-append f z (all-strip_trailing fraction parts.fraction_digits) (all-zeros _)),
      ap value (sym (append_assoc i f z)) ∙ value-append-zeros (i ++ f) (n - length f),
    )

magnitudes :
    (b c : Bool) (i f j g : List ℕ)
    → IsParts i f
    → IsParts j g
    → compare_magnitudes
        (exact_decimal b (strip_leading i) (strip_trailing f))
        (exact_decimal c (strip_leading j) (strip_trailing g))
      ≡ compare (value (i ++ f) * ten_to (length g)) (value (j ++ g) * ten_to (length f))
unfolding compare_magnitudes
magnitudes b c i f j g left right =
    let n = max (length (strip_trailing f)) (length (strip_trailing g)) in
    let (p, p', p'') = padded_digits i f n left in
    let (q, q', q'') = padded_digits j g n right in
    let (k, e, e') = stripped_numerator i f in
    let (l, d, d') = stripped_numerator j g in
    compare_nonempty _ _ p' q' p q
    ∙ ap₂ compare p'' q''
    ∙ compare_scaled _ _ (length (strip_trailing f)) (length (strip_trailing g)) k l
    ∙ rw (e, d, e', d') refl

neutral_iff :
    (i f : List ℕ)
    → IsParts i f
    → ((codes_eq (strip_leading i) (digit_zero ∷ []) && is_empty (strip_trailing f)) ≡ true)
      ↔ (value (i ++ f) ≡ 0)
neutral_iff i f parts =
    let (k, e, _) = stripped_numerator i f in
    let (_, normal) = strip_leading_parts i parts.some_digit parts.integer_digits in
    let digits = all-strip_leading i parts.integer_digits in
    (
      λ h.
          let whole : strip_leading i ≡ digit_zero ∷ [] =
            (codes_eq_iff (strip_leading i) (digit_zero ∷ [])).0 (ground arith) in
          let none_after = is_empty_nil (strip_trailing f) (ground arith) in
          e ∙ rw (whole, none_after) (omega arith),
      λ h.
          let zero_product : value (strip_leading i ++ strip_trailing f) * ten_to k ≡ 0 =
            sym e ∙ h in
          let none_left = zero_factor _ (ten_to k) (ten_to_pos k) zero_product in
          let sum = sym (value-append (strip_leading i) (strip_trailing f)) ∙ none_left in
          let whole =
            zero_factor (value (strip_leading i)) (ten_to (length (strip_trailing f)))
              (ten_to_pos _) (omega (arith, sum)) in
          let after : value (strip_trailing f) ≡ 0 = omega (arith, sum) in
          rw (IsNormal-zero (strip_leading i) digits normal whole)
            (nil_is_empty (strip_trailing f) (strip_trailing_pos f parts.fraction_digits) after),
    )
  where
    zero_factor : (a t : ℕ) → 0 < t → a * t ≡ 0 → a ≡ 0
    zero_factor zero t h e = refl
    zero_factor (suc a) t h e = absurd (ground (arith, mul_le_mul 1 (suc a) t))

    is_empty_nil : (s : List ℕ) → is_empty s ≡ true → s ≡ []
    is_empty_nil [] h = refl
    is_empty_nil (c ∷ s) h = cc

    nil_is_empty : (s : List ℕ) → (s ≡ []) ⊎ (0 < value s) → value s ≡ 0 → is_empty s ≡ true
    nil_is_empty [] h e = refl
    nil_is_empty (c ∷ s) (inl h) e = cc
    nil_is_empty (c ∷ s) (inr h) e = absurd (omega arith)

signed_order :
    (z w b c : Bool) (m n : ℕ)
    → (z ≡ true) ↔ (m ≡ 0)
    → (w ≡ true) ↔ (n ≡ 0)
    → order_by_sign (sign_of z b) (sign_of w c) (compare m n)
      ≡ compare
          ((if b then 0 else m) + (if c then n else 0))
          ((if c then 0 else n) + (if b then m else 0))
signed_order true true b c m n p q = ground (arith, p.0, q.0)
signed_order true false b c m n p q = ground (arith, p.0, q.1)
signed_order false true b c m n p q = ground (arith, p.1, q.0)
signed_order false false b c m n p q = ground (arith, p.1, q.1)

zero_product : (n t : ℕ) (z : Bool) → 0 < t → (z ≡ true) ↔ (n ≡ 0) → (z ≡ true) ↔ (n * t ≡ 0)
zero_product zero t z h p = (λ e. omega arith, λ e. p.1 refl)
zero_product (suc n) t z h p =
    (λ e. absurd (omega (arith, p.0 e)), λ e. absurd (ground (arith, mul_le_mul 1 (suc n) t)))

parse_exact_decimal-ok :
    (s : List ℕ)
    → is_decimal_string s ≡ true
    → parse_exact_decimal s
      ≡ ok (
          exact_decimal
            (has_minus s)
            (strip_leading (before_point (without_minus s)))
            (strip_trailing (after_point (without_minus s))))
unfolding parse_exact_decimal
parse_exact_decimal-ok s h = rw h refl

-- Two decimals are compared as the numbers that they stand for, fractions over powers of ten, with
-- no loss of precision and whatever zeros or minus signs their texts have.
pub compare_exact_decimals-value :
    (left right : List ℕ)
    → is_decimal_string left ≡ true
    → is_decimal_string right ≡ true
    → compare_exact_decimals left right
      ≡ ok (compare (above left right + below right left) (above right left + below left right))
unfolding compare_exact_decimals
compare_exact_decimals-value left right h k =
    let u = without_minus left in
    let v = without_minus right in
    let first = decimal-IsParts left h in
    let second = decimal-IsParts right k in
    let order =
      magnitudes (has_minus left) (has_minus right) (before_point u) (after_point u)
        (before_point v) (after_point v) first second in
    let signs =
      signed_order _ _ (has_minus left) (has_minus right) (numerator left * ten_to (scale right))
        (numerator right * ten_to (scale left))
        (zero_product (numerator left) (ten_to (scale right)) _ (ten_to_pos (scale right))
          (neutral_iff (before_point u) (after_point u) first))
        (zero_product (numerator right) (ten_to (scale left)) _ (ten_to_pos (scale left))
          (neutral_iff (before_point v) (after_point v) second)) in
    rw (parse_exact_decimal-ok left h, parse_exact_decimal-ok right k, order) (ap ok signs)
