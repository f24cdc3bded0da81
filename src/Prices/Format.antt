-- ===== src/Prices/Format.antt =====
-- The text of a coefficient and a scale against the number that it stands for.
use hyper_trader.Common.{
  ℕ, zero, suc, ◌+◌, ◌-◌, ◌*◌, ◌/◌, ◌%◌, ◌≤◌, ◌<◌, ◌≡◌, ◌≢◌, refl, sym, ap, ◌∙◌, subst, true, false,
  List, [], ◌∷◌, ◌++◌, arith, length, length-append, all, is_digit, ltb, Bool-cases, inl, inr, take,
  drop, take-append-drop, length-drop, all-take, all-drop,
}
use hyper_trader.Decimals.{
  digit_zero, point, zeros, strip_trailing, is_decimal_string, has_minus, without_minus,
  before_point, from_point, after_point, has_point, is_whole,
}
use hyper_trader.Decimals.Digits.{
  ten_to, ten_to-add, value, value-append, value-zeros, length-zeros, IsNormal,
}
use hyper_trader.Decimals.Strip.{all-append, all-zeros, strip_trailing_lem, all-strip_trailing}
use hyper_trader.Decimals.Compare.{numerator, scale}
use hyper_trader.Decimals.Parts.{before_point_digits, from_point_none, value-append-zeros}
use mathlib.Core.List.{append-nil, append_assoc}
use hyper_trader.Prices.{digits_within, digits_of, pad_start, join_fraction, format_coefficient}

-- A text of digits with no redundant zero that stands for n.
pub record IsNumeral (n : ℕ) (s : List ℕ) : Type 0 where
  pub stands : value s ≡ n
  pub digits : all is_digit s ≡ true
  pub normal : IsNormal s
  pub some_digit : 0 < length s

value-concat : (s : List ℕ) (d : ℕ) → value (s ++ d ∷ []) ≡ 10 * value s + (d - digit_zero)
value-concat s d = value-append s (d ∷ []) ∙ omega arith

IsNormal-append : (s t : List ℕ) → IsNormal s → s ≢ digit_zero ∷ [] → IsNormal (s ++ t)
IsNormal-append [] t h n = absurd h
IsNormal-append (c ∷ []) [] h n = tt
IsNormal-append (c ∷ []) (d ∷ t) h n = λ e. n (ap (λ x. x ∷ []) e)
IsNormal-append (c ∷ d ∷ s) t h n = h

digits_within-IsNumeral : (fuel n : ℕ) → n ≤ fuel → IsNumeral n (digits_within fuel n)
unfolding digits_within is_digit
digits_within-IsNumeral zero n h = record {
  stands = omega arith;
  digits = ground arith;
  normal = tt;
  some_digit = omega arith;
}
digits_within-IsNumeral (suc fuel) n h = elim (Bool-cases (ltb n 10)) [
  | inl small ↦ rw small (record {
    stands = omega arith;
    digits = ground arith;
    normal = tt;
    some_digit = omega arith;
  })
  | inr large ↦
      rw large (step (digits_within-IsNumeral fuel (n / 10) (ground arith)) (ground arith))
]
  where
    step :
        {s : List ℕ}
        → IsNumeral (n / 10) s
        → 0 < n / 10
        → IsNumeral n (s ++ (digit_zero + n % 10) ∷ [])
    step {s} ih p = record {
      stands = value-concat s (digit_zero + n % 10) ∙ omega (arith, ih.stands);
      digits = all-append s ((digit_zero + n % 10) ∷ []) ih.digits (ground arith);
      normal =
          IsNormal-append s ((digit_zero + n % 10) ∷ []) ih.normal
            (λ e. absurd (omega (arith, ih.stands, ap value e)));
      some_digit = omega (arith, length-append {0} s ((digit_zero + n % 10) ∷ []));
    }

pub digits_of-IsNumeral : (n : ℕ) → IsNumeral n (digits_of n)
unfolding digits_of
digits_of-IsNumeral n = digits_within-IsNumeral n n (omega arith)

has_point_digits : (s : List ℕ) → all is_digit s ≡ true → has_point s ≡ false
unfolding is_digit
has_point_digits [] h = refl
has_point_digits (c ∷ s) h = ground (arith, has_point_digits s)

before_point_join : (w r : List ℕ) → all is_digit w ≡ true → before_point (w ++ point ∷ r) ≡ w
unfolding is_digit
before_point_join [] r h = refl
before_point_join (c ∷ w) r h = ground (arith, before_point_join w r)

from_point_join : (w r : List ℕ) → all is_digit w ≡ true → from_point (w ++ point ∷ r) ≡ r
unfolding is_digit
from_point_join [] r h = refl
from_point_join (c ∷ w) r h = ground (arith, from_point_join w r)

has_point_join : (w r : List ℕ) → has_point (w ++ point ∷ r) ≡ true
has_point_join [] r = refl
has_point_join (c ∷ w) r = ground (arith, has_point_join w r)

is_whole_of_normal : (s : List ℕ) → all is_digit s ≡ true → IsNormal s → is_whole s ≡ true
is_whole_of_normal [] h n = absurd n
is_whole_of_normal (c ∷ []) h n = ground arith
is_whole_of_normal (c ∷ d ∷ s) h n = ground arith

unsigned_digits :
    (s r : List ℕ)
    → all is_digit s ≡ true
    → 0 < length s
    → (has_minus (s ++ r) ≡ false) × (without_minus (s ++ r) ≡ s ++ r)
unfolding is_digit
unsigned_digits [] r h p = absurd (omega arith)
unsigned_digits (c ∷ s) r h p = ground arith

-- What the text of a whole part and of a fraction reads as.
record IsJoined (whole fraction s : List ℕ) : Type 0 where
  valid : is_decimal_string s ≡ true
  unsigned : has_minus s ≡ false
  whole_part : before_point (without_minus s) ≡ whole
  fraction_part : after_point (without_minus s) ≡ fraction

join_fraction-IsJoined :
    (w f : List ℕ)
    → all is_digit w ≡ true
    → IsNormal w
    → 0 < length w
    → all is_digit f ≡ true
    → IsJoined w f (join_fraction w f)
unfolding is_decimal_string
join_fraction-IsJoined w [] h n p k =
    let (u, v) = unsigned_digits w [] h p in
    let (u', v') : (has_minus w ≡ false) × (without_minus w ≡ w) = (
      ap has_minus (sym (append-nil w)) ∙ u,
      ap without_minus (sym (append-nil w)) ∙ v ∙ append-nil w,
    ) in
    let before = before_point_digits w h in
    let no_point = has_point_digits w h in
    record {
      valid = rw (v', before, no_point, is_whole_of_normal w h n) refl;
      unsigned = u';
      whole_part = rw v' before;
      fraction_part = rw (v', from_point_none w no_point) refl;
    }
join_fraction-IsJoined w (d ∷ f) h n p k =
    let (u, v) = unsigned_digits w (point ∷ d ∷ f) h p in
    let before = before_point_join w (d ∷ f) h in
    let from = from_point_join w (d ∷ f) h in
    record {
      valid = rw (v, before, has_point_join w (d ∷ f), from, is_whole_of_normal w h n, k) refl;
      unsigned = u;
      whole_part = rw v before;
      fraction_part = rw (v, from) (before_point_digits (d ∷ f) k);
    }

-- The text s is a decimal without a sign that stands for n / 10^m, with at most m places.
pub record IsFormat (n m : ℕ) (s : List ℕ) : Type 0 where
  pub valid : is_decimal_string s ≡ true
  pub unsigned : has_minus s ≡ false
  pub exact : numerator s * ten_to m ≡ n * ten_to (scale s)
  pub short : scale s ≤ m

pub joined-IsFormat :
    (w f : List ℕ) (k n : ℕ)
    → all is_digit w ≡ true
    → IsNormal w
    → 0 < length w
    → all is_digit f ≡ true
    → value (w ++ f) * ten_to k ≡ n
    → IsFormat n (length f + k) (join_fraction w f)
joined-IsFormat w f k n h m p e v =
    let j = join_fraction-IsJoined w f h m p e in
    record {
      valid = j.valid;
      unsigned = j.unsigned;
      exact = rw (j.whole_part, j.fraction_part, ten_to-add (length f) k, ← v) (grind arith);
      short = omega (arith, ap (length {A = ℕ}) j.fraction_part);
    }

IsNormal-take : (n : ℕ) (s : List ℕ) → 0 < n → IsNormal s → IsNormal (take n s)
IsNormal-take zero s h m = absurd (omega arith)
IsNormal-take (suc n) [] h m = absurd m
IsNormal-take (suc n) (c ∷ []) h m = normal_single n c
  where
    normal_single : (n c : ℕ) → IsNormal (c ∷ take n [])
    normal_single zero c = tt
    normal_single (suc n) c = tt
IsNormal-take (suc zero) (c ∷ d ∷ s) h m = tt
IsNormal-take (suc (suc n)) (c ∷ d ∷ s) h m = m

pub length-take_pos : (n : ℕ) (s : List ℕ) → 0 < n → 0 < length s → 0 < length (take n s)
length-take_pos zero s h p = absurd (omega arith)
length-take_pos (suc n) [] h p = absurd (omega arith)
length-take_pos (suc n) (c ∷ s) h p = omega arith

IsNormal-first : (s : List ℕ) → 0 < length s → IsNormal (take 1 s)
IsNormal-first [] p = absurd (omega arith)
IsNormal-first (c ∷ s) p = tt

-- The digits of n filled up to more than m places, cut before the last m.
pub padded_whole :
    (n m : ℕ)
    → IsNormal
        (take (length (pad_start (digits_of n) (m + 1)) - m) (pad_start (digits_of n) (m + 1)))
padded_whole n m = elim (Bool-cases (ltb m (length (digits_of n)))) [
  | inl enough ↦
      let none_added : m + 1 - length (digits_of n) ≡ 0 = ground arith in
      rw none_added (IsNormal-take _ (digits_of n) (ground arith) numeral.normal)
  | inr few ↦
      let total = length-append (zeros (m + 1 - length (digits_of n))) (digits_of n) in
      let fill = length-zeros (m + 1 - length (digits_of n)) in
      let one : length (pad_start (digits_of n) (m + 1)) - m ≡ 1 = ground (arith, total, fill) in
      rw one (IsNormal-first _ (ground (arith, total, fill)))
]
  where
    numeral : IsNumeral n (digits_of n)
    numeral = digits_of-IsNumeral n

-- A coefficient is printed as the decimal that it stands for at its scale.
pub format_coefficient-IsFormat : (n m : ℕ) → IsFormat n m (format_coefficient n m)
unfolding format_coefficient
format_coefficient-IsFormat n zero =
    let d = digits_of-IsNumeral n in
    joined-IsFormat (digits_of n) [] 0 n d.digits d.normal d.some_digit refl
      (rw (append-nil (digits_of n)) (omega (arith, d.stands)))
format_coefficient-IsFormat n (suc m) =
    let d = digits_of-IsNumeral n in
    let s = pad_start (digits_of n) (suc m + 1) in
    let split = length s - suc m in
    let fill = m + 2 - length (digits_of n) in
    let total = length-append (zeros (suc m + 1 - length (digits_of n))) (digits_of n) in
    let filled = length-zeros (suc m + 1 - length (digits_of n)) in
    let digits =
      all-append (zeros (suc m + 1 - length (digits_of n))) (digits_of n) (all-zeros _) d.digits in
    let (k, e) = strip_trailing_lem (drop split s) in
    let f = strip_trailing (drop split s) in
    let long : length f + k ≡ suc m = omega (
      arith,
      ap (length {A = ℕ}) e,
      length-append {0} f (zeros k),
      length-zeros k,
      length-drop {0} split s,
      total,
      filled,
    ) in
    let stands : value ((take split s ++ f) ++ zeros k) ≡ n =
      ap value (
        append_assoc (take split s) f (zeros k)
        ∙ ap (λ t. take split s ++ t) (sym e)
        ∙ take-append-drop split s)
      ∙ value-append (zeros (suc m + 1 - length (digits_of n))) (digits_of n)
      ∙ rw (value-zeros (suc m + 1 - length (digits_of n))) (omega (arith, d.stands)) in
    subst (λ j. IsFormat n j (join_fraction (take split s) f)) long
      (joined-IsFormat (take split s) f k n (all-take is_digit split s digits)
        (padded_whole n (suc m))
        (length-take_pos split s (omega (arith, total, filled)) (omega (arith, total, filled)))
        (all-strip_trailing (drop split s) (all-drop is_digit split s digits))
        (sym (value-append-zeros (take split s ++ f) k) ∙ stands))
