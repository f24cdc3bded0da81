-- ===== src/Decimals/Strip.antt =====
-- What is left of a text of digits when zeros are stripped or added.

use Prim.Native.Nat.{compare}
use hyper_trader.Common.{
  ℕ, zero, suc, ◌+◌, ◌-◌, ◌*◌, ◌<◌, ◌≡◌, ◌⊎◌, inl, inr, refl, ap, true, ◌&&◌, List, [], ◌∷◌, ◌++◌,
  arith, length, all, is_digit, if◌then◌else◌, ◌==◌, Bool-cases,
}
use hyper_trader.Decimals.{
  digit_zero, zeros, strip_leading, strip_trailing, is_empty, compare_unsigned_digits,
}
use hyper_trader.Decimals.Digits.{
  ten_to, value, ten_to_pos, IsNormal, strip_leading-IsNormal, value-strip_leading,
  all-strip_leading, value-lt-of_length, order_of_texts_lem, length-strip_leading_pos, mul_le_mul,
}

pub all-append :
    (s t : List ℕ) → all is_digit s ≡ true → all is_digit t ≡ true → all is_digit (s ++ t) ≡ true
all-append [] t h k = k
all-append (c ∷ s) t h k = ground (arith, all-append s t)

pub all-zeros : (n : ℕ) → all is_digit (zeros n) ≡ true
unfolding is_digit
all-zeros zero = refl
all-zeros (suc n) = ground (arith, all-zeros n)

pub all_tail : (c : ℕ) (s : List ℕ) → all is_digit (c ∷ s) ≡ true → all is_digit s ≡ true
all_tail c s h = ground arith

-- Two texts of digits are in the order of their numbers, whatever zeros stand at their front.
pub compare_unsigned_digits-value :
    (c d : ℕ) (s t : List ℕ)
    → all is_digit (c ∷ s) ≡ true
    → all is_digit (d ∷ t) ≡ true
    → compare_unsigned_digits (c ∷ s) (d ∷ t) ≡ compare (value (c ∷ s)) (value (d ∷ t))
unfolding compare_unsigned_digits
compare_unsigned_digits-value c d s t h k =
    let x = strip_leading (c ∷ s) in
    let y = strip_leading (d ∷ t) in
    let hx = all-strip_leading (c ∷ s) h in
    let hy = all-strip_leading (d ∷ t) k in
    let nx = strip_leading-IsNormal c s (all_tail c s h) in
    let ny = strip_leading-IsNormal d t (all_tail d t k) in
    let px = length-strip_leading_pos c s in
    let py = length-strip_leading_pos d t in
    ground (
      arith,
      value-strip_leading (c ∷ s),
      value-strip_leading (d ∷ t),
      value-lt-of_length x y hx hy ny px,
      value-lt-of_length y x hy hx nx py,
      order_of_texts_lem x y hx hy,
    )

pub strip_trailing_lem : (s : List ℕ) → (k : ℕ) × (s ≡ strip_trailing s ++ zeros k)
unfolding strip_trailing
strip_trailing_lem [] = (0, refl)
strip_trailing_lem (c ∷ s) = go (strip_trailing s) refl (strip_trailing_lem s)
  where
    go :
        (r : List ℕ)
        → strip_trailing s ≡ r
        → ((k : ℕ) × (s ≡ r ++ zeros k))
        → (k : ℕ) × (c ∷ s ≡ (if (c == digit_zero) && is_empty r then [] else c ∷ r) ++ zeros k)
    go [] e (k, p) = elim (Bool-cases (c == digit_zero)) [
      | inl z ↦ (suc k, rw z (ground (arith, p)))
      | inr z ↦ (k, rw z (ap (λ t. c ∷ t) p))
    ]
    go (d ∷ r) e (k, p) = (k, ground (arith, p))

pub all-strip_trailing :
    (s : List ℕ) → all is_digit s ≡ true → all is_digit (strip_trailing s) ≡ true
unfolding strip_trailing
all-strip_trailing [] h = refl
all-strip_trailing (c ∷ s) h = ground (arith, all-strip_trailing s)

-- What is left of a fraction is empty or stands for a positive number.
pub strip_trailing_pos :
    (s : List ℕ) → all is_digit s ≡ true → (strip_trailing s ≡ []) ⊎ (0 < value (strip_trailing s))
unfolding strip_trailing is_digit
strip_trailing_pos [] h = inl refl
strip_trailing_pos (c ∷ s) h = go (strip_trailing s) refl (strip_trailing_pos s (ground arith))
  where
    go :
        (r : List ℕ)
        → strip_trailing s ≡ r
        → (r ≡ []) ⊎ (0 < value r)
        → ((if (c == digit_zero) && is_empty r then [] else c ∷ r) ≡ [])
          ⊎ (0 < value (if (c == digit_zero) && is_empty r then [] else c ∷ r))
    go [] e p = elim (Bool-cases (c == digit_zero)) [
      | inl z ↦ inl (rw z refl)
      | inr z ↦ inr (rw z (ground arith))
    ]
    go (d ∷ r) e (inl p) = cc
    go (d ∷ r) e (inr p) = inr (ground (arith, p))

-- A number with no redundant zero is 0 only if it is the one digit 0.
pub IsNormal-zero :
    (s : List ℕ) → all is_digit s ≡ true → IsNormal s → value s ≡ 0 → s ≡ digit_zero ∷ []
unfolding is_digit
IsNormal-zero [] h n e = absurd n
IsNormal-zero (c ∷ []) h n e = ground arith
IsNormal-zero (c ∷ d ∷ s) h n e =
    ground
      (arith, ten_to_pos (length (d ∷ s)), mul_le_mul 1 (c - digit_zero) (ten_to (length (d ∷ s))))

pub compare-mul : (a b t : ℕ) → 0 < t → compare (a * t) (b * t) ≡ compare a b
compare-mul a b t h = ground (arith, mul_le_mul (a + 1) b t, mul_le_mul (b + 1) a t)
