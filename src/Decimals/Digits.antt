-- ===== src/Decimals/Digits.antt =====
-- The number that a list of digits stands for.
use Prim.Native.Nat.{compare, Ordering}
use hyper_trader.Common.{
  ℕ, zero, suc, ◌+◌, ◌-◌, ◌*◌, ◌≤◌, ◌<◌, ◌≡◌, ◌≢◌, refl, sym, ap, ◌∙◌, true, List, [], ◌∷◌, ◌++◌,
  arith, length, length-append, all, is_digit, lex_lt, codes_eq, if◌then◌else◌,
}
use hyper_trader.Decimals.{digit_zero, zeros, strip_leading}

abbrev pub ten_to : ℕ → ℕ
ten_to zero = 1
ten_to (suc n) = 10 * ten_to n

abbrev pub value : List ℕ → ℕ
value [] = 0
value (c ∷ s) = (c - digit_zero) * ten_to (length s) + value s

pub ten_to_pos : (n : ℕ) → 0 < ten_to n
ten_to_pos zero = omega arith
ten_to_pos (suc n) = omega (arith, ten_to_pos n)

pub ten_to-add : (m n : ℕ) → ten_to (m + n) ≡ ten_to m * ten_to n
ten_to-add zero n = grind arith
ten_to-add (suc m) n = grind (arith, ten_to-add m n)

pub ten_to_mono : (m n : ℕ) → m ≤ n → ten_to m ≤ ten_to n
ten_to_mono zero n h = omega (arith, ten_to_pos n)
ten_to_mono (suc m) zero h = absurd (omega arith)
ten_to_mono (suc m) (suc n) h = omega (arith, ten_to_mono m n (omega arith))

pub value-append : (xs ys : List ℕ) → value (xs ++ ys) ≡ value xs * ten_to (length ys) + value ys
value-append [] ys = grind arith
value-append (x ∷ xs) ys =
    grind (arith, value-append xs ys, length-append {0} xs ys, ten_to-add (length xs) (length ys))

pub value-zeros : (n : ℕ) → value (zeros n) ≡ 0
value-zeros zero = refl
value-zeros (suc n) = ground (arith, value-zeros n)

pub length-zeros : (n : ℕ) → length (zeros n) ≡ n
length-zeros zero = refl
length-zeros (suc n) = omega (arith, length-zeros n)

pub mul_le_mul : (a b t : ℕ) → a ≤ b → a * t ≤ b * t
mul_le_mul a b t h = grind arith

pub value-lt-ten_to : (s : List ℕ) → all is_digit s ≡ true → value s < ten_to (length s)
unfolding is_digit
value-lt-ten_to [] h = omega arith
value-lt-ten_to (c ∷ s) h =
    ground (arith, value-lt-ten_to s, mul_le_mul (c - digit_zero) 9 (ten_to (length s)))

-- No digit is a redundant zero at the front.
abbrev pub IsNormal : List ℕ → Type 0
IsNormal [] = ⊥
IsNormal (c ∷ []) = Unit
IsNormal (c ∷ d ∷ s) = c ≢ digit_zero

pub strip_leading-IsNormal :
    (c : ℕ) (s : List ℕ) → all is_digit s ≡ true → IsNormal (strip_leading (c ∷ s))
unfolding strip_leading
strip_leading-IsNormal c [] h = tt
strip_leading-IsNormal c (d ∷ s) h = ground (arith, strip_leading-IsNormal d s)

pub value-strip_leading : (s : List ℕ) → value (strip_leading s) ≡ value s
unfolding strip_leading
value-strip_leading [] = refl
value-strip_leading (c ∷ []) = refl
value-strip_leading (c ∷ d ∷ s) = ground (arith, value-strip_leading (d ∷ s))

pub all-strip_leading : (s : List ℕ) → all is_digit s ≡ true → all is_digit (strip_leading s) ≡ true
unfolding strip_leading
all-strip_leading [] h = refl
all-strip_leading (c ∷ []) h = h
all-strip_leading (c ∷ d ∷ s) h = ground (arith, all-strip_leading (d ∷ s))

-- A number with more digits is larger.
pub value-lt-of_length :
    (s t : List ℕ)
    → all is_digit s ≡ true
    → all is_digit t ≡ true
    → IsNormal t
    → 0 < length s
    → length s < length t
    → value s < value t
unfolding is_digit
value-lt-of_length s [] h k n p l = absurd n
value-lt-of_length s (c ∷ []) h k n p l = absurd (omega arith)
value-lt-of_length s (c ∷ d ∷ t) h k n p l =
    let bound = value-lt-ten_to s h in
    let wide = ten_to_mono (length s) (length (d ∷ t)) (omega arith) in
    ground (arith, mul_le_mul 1 (c - digit_zero) (ten_to (length (d ∷ t))))

head_lt : (a b x y t : ℕ) → a < b → x < t → compare (a * t + x) (b * t + y) ≡ Ordering.lt
head_lt a b x y t h p = ground (arith, mul_le_mul (a + 1) b t)

head_gt : (a b x y t : ℕ) → b < a → y < t → compare (a * t + x) (b * t + y) ≡ Ordering.gt
head_gt a b x y t h p = ground (arith, mul_le_mul (b + 1) a t)

head_eq : (a b x y t : ℕ) → a ≡ b → compare (a * t + x) (b * t + y) ≡ compare x y
head_eq a b x y t h = rw h (ground arith)

-- The order of two texts of digits as the source finds it.
abbrev pub order_of_texts : List ℕ → List ℕ → Ordering
order_of_texts s t =
    if codes_eq s t then Ordering.eq else if lex_lt s t then Ordering.lt else Ordering.gt

order_of_heads :
    (c d : ℕ) (s t : List ℕ)
    → order_of_texts (c ∷ s) (d ∷ t) ≡ elim (compare c d) [
      | Ordering.lt ↦ Ordering.lt
      | Ordering.gt ↦ Ordering.gt
      | Ordering.eq ↦ order_of_texts s t
    ]
unfolding lex_lt
order_of_heads c d s t = ground arith

-- Texts of digits of one length are in the order of the numbers.
pub order_of_texts_lem :
    (s t : List ℕ)
    → all is_digit s ≡ true
    → all is_digit t ≡ true
    → length s ≡ length t
    → order_of_texts s t ≡ compare (value s) (value t)
unfolding is_digit
order_of_texts_lem [] [] h k e = refl
order_of_texts_lem [] (d ∷ t) h k e = absurd (omega arith)
order_of_texts_lem (c ∷ s) [] h k e = absurd (omega arith)
order_of_texts_lem (c ∷ s) (d ∷ t) h k e =
    let same : length s ≡ length t = omega arith in
    let low : value s < ten_to (length t) = ground (arith, value-lt-ten_to s, ap ten_to same) in
    let high : value t < ten_to (length t) = ground (arith, value-lt-ten_to t) in
    let ih : order_of_texts s t ≡ compare (value s) (value t) =
      order_of_texts_lem s t (ground arith) (ground arith) same in
    rw (order_of_heads c d s t, same) (go (compare c d) refl low high ih)
  where
    go :
        (o : Ordering)
        → compare c d ≡ o
        → value s < ten_to (length t)
        → value t < ten_to (length t)
        → order_of_texts s t ≡ compare (value s) (value t)
        → elim o [
          | Ordering.lt ↦ Ordering.lt
          | Ordering.gt ↦ Ordering.gt
          | Ordering.eq ↦ order_of_texts s t
        ]
          ≡ compare
              ((c - digit_zero) * ten_to (length t) + value s)
              ((d - digit_zero) * ten_to (length t) + value t)
    go Ordering.lt e low high ih = sym (
        head_lt (c - digit_zero) (d - digit_zero) (value s) (value t) (ten_to (length t))
          (ground arith) low)
    go Ordering.gt e low high ih = sym (
        head_gt (c - digit_zero) (d - digit_zero) (value s) (value t) (ten_to (length t))
          (ground arith) high)
    go Ordering.eq e low high ih =
        ih
        ∙ sym (
            head_eq (c - digit_zero) (d - digit_zero) (value s) (value t) (ten_to (length t))
              (ground arith))

pub length-strip_leading_pos : (c : ℕ) (s : List ℕ) → 0 < length (strip_leading (c ∷ s))
unfolding strip_leading
length-strip_leading_pos c [] = omega arith
length-strip_leading_pos c (d ∷ s) = ground (arith, length-strip_leading_pos d s)
