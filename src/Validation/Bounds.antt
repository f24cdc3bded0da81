-- ===== src/Validation/Bounds.antt =====
-- What the checks of slippage and of a reduction leave of an order.
use Prim.Native.Nat.{Ordering}
use hyper_trader.Common.{
  ℕ, ◌+◌, ◌-◌, ◌*◌, ◌<◌, ◌≤◌, ◌≡◌, refl, sym, ap, ◌∙◌, Bool, true, false, not, ◌&&◌, ◌||◌, List,
  Option, none, some, arith, ltb, ◌==◌, String, Number, pos, negsuc, is_safe_integer, Result, ok,
  ok_inj, Error, validation, throw_if, throw_if-eq-ok, ◌>>◌, >>=-eq-ok, or_throw, or_throw-eq-ok,
}
use hyper_trader.Decimals.{has_minus}
use hyper_trader.Decimals.Digits.{ten_to, ten_to_pos}
use hyper_trader.Decimals.Compare.{numerator, scale}
use hyper_trader.Validation.{OrderSide, buy, sell, other_side, MarketFamily}
use hyper_trader.Validation.Amounts.{
  ParsedDecimal, parse_decimal, compare_decimal, positive_decimal, is_gt, is_eq,
}
use hyper_trader.Validation.Amounts.Values.{
  parse_decimal-IsParsed, positive_decimal-IsPositive, positive_left, order_of,
}
use hyper_trader.Validation.Amounts.Products.{
  IsValue, positive-IsValue, scaled-IsValue, compare_decimal-IsValue, IsAtMost, order_of-IsAtMost,
  order_of-IsAtLeast, order_of-same,
}
use hyper_trader.Validation.Checks.{is_perp}
use hyper_trader.Validation.Orders.{
  check_slippage, assert_within, assert_slippage, text_or_zero, is_reducing, absolute,
  assert_reduce_only,
}

-- A check that is passed, with what comes after it.
pub passed_check {ℓ} :
    {A : Type ℓ} (b : Bool) (e : Error) (rest : Result A) {a : A}
    → (throw_if b e >> rest) ≡ ok a
    → (b ≡ false) × (rest ≡ ok a)
passed_check true e rest h = cc
passed_check false e rest h = (refl, h)

-- n / 10^m is no worse than k / 10^l by more than bps hundredths of a percent: not above it for a
-- purchase, not below it for a sale.
abbrev pub IsWithin : OrderSide → ℕ → ℕ → ℕ → ℕ → ℕ → Type 0
IsWithin buy bps n m k l = IsAtMost (n * 10_000) m (k * (10_000 + bps)) l
IsWithin sell bps n m k l = IsAtMost (k * (10_000 - bps)) l (n * 10_000) m
IsWithin other_side bps n m k l = Unit {0}

pub assert_within-IsWithin :
    (path : String) (side : OrderSide) (bps : ℕ) (a r : ParsedDecimal) (n m k l : ℕ)
    → IsValue a n m
    → IsValue r k l
    → assert_within path side bps a r ≡ ok tt
    → IsWithin side bps n m k l
assert_within-IsWithin path buy bps a r n m k l p q h =
    order_of-IsAtMost _ (n * 10_000) m (k * (10_000 + bps)) l
      (compare_decimal-IsValue _ _ (n * 10_000) m (k * (10_000 + bps)) l
        (scaled-IsValue a n m 10_000 p) (scaled-IsValue r k l (10_000 + bps) q))
      (throw_if-eq-ok _ _ h)
assert_within-IsWithin path sell bps a r n m k l p q h =
    order_of-IsAtLeast _ (n * 10_000) m (k * (10_000 - bps)) l
      (compare_decimal-IsValue _ _ (n * 10_000) m (k * (10_000 - bps)) l
        (scaled-IsValue a n m 10_000 p) (scaled-IsValue r k l (10_000 - bps) q))
      (throw_if-eq-ok _ _ h)
assert_within-IsWithin path other_side bps a r n m k l p q h = tt

-- Slippage that is accepted.
pub record IsSlippage (slippage : Option Number) (bps : ℕ) : Type 0 where
  pub given : slippage ≡ some (pos bps)
  pub small : bps ≤ 500

pub check_slippage-IsSlippage :
    (slippage : Option Number) {bps : ℕ}
    → check_slippage slippage ≡ ok bps
    → IsSlippage slippage bps
check_slippage-IsSlippage none h = cc
check_slippage-IsSlippage (some (pos n)) h =
    let (small, e) = passed_check (not (is_safe_integer (pos n)) || (false || ltb 500 n)) _ _ h in
    record { given = ap (λ b. some (pos b)) (ok_inj e); small = ground (arith, small, ok_inj e) }
check_slippage-IsSlippage (some (negsuc n)) h = absurd (
    ground
      (arith, (passed_check (not (is_safe_integer (negsuc n)) || (true || ltb 500 0)) _ _ h).0))
check_slippage-IsSlippage (some Number.other) h = cc

-- A price within the slippage of the current reference price.
pub record IsExecutable (slippage : Option Number) (reference : Option (List ℕ)) (side : OrderSide)
    (n m : ℕ) : Type 0 where
  pub bps : ℕ
  pub current : List ℕ
  pub slipped : IsSlippage slippage bps
  pub known : reference ≡ some current
  pub within : IsWithin side bps n m (numerator current) (scale current)

pub assert_slippage-IsExecutable :
    (slippage : Option Number) (reference : Option (List ℕ)) (side : OrderSide) (price : List ℕ)
    (n m : ℕ)
    → ((path : String) (d : ParsedDecimal) → parse_decimal price path ≡ ok d → IsValue d n m)
    → assert_slippage slippage reference side price ≡ ok tt
    → IsExecutable slippage reference side n m
unfolding assert_slippage
assert_slippage-IsExecutable slippage reference side price n m v h =
    let (bps, slipped, h₁) = >>=-eq-ok (check_slippage slippage) _ h in
    let (current, known, h₂) =
      >>=-eq-ok
        (or_throw reference
          (validation "market.referencePrice" "a current reference price is required"))
        _ h₁ in
    let (aggressive, parsed, h₃) = >>=-eq-ok (parse_decimal price "intent.price") _ h₂ in
    let (positive, printed, h₄) =
      >>=-eq-ok (positive_decimal current "market.referencePrice") _ h₃ in
    let (r, again, h₅) = >>=-eq-ok (parse_decimal positive "market.referencePrice") _ h₄ in
    record {
      bps = bps;
      current = current;
      slipped = check_slippage-IsSlippage slippage slipped;
      known = or_throw-eq-ok reference _ known;
      within =
          assert_within-IsWithin "intent.price" side bps aggressive r n m (numerator current)
            (scale current) (v "intent.price" aggressive parsed)
            (positive-IsValue current positive "market.referencePrice"
              (positive_decimal-IsPositive current "market.referencePrice" printed) again)
            h₅;
    }

-- The size n / 10^m against the whole position, or against what is left of it.
abbrev pub IsPart : Bool → ℕ → ℕ → ℕ → ℕ → Type 0
IsPart true n m k l = n * ten_to l ≡ k * ten_to m
IsPart false n m k l = IsAtMost n m k l

-- A sale reduces a long position, a purchase a short one.
abbrev pub IsOpposite : OrderSide → (is_short : Bool) → Type 0
IsOpposite buy is_short = is_short ≡ true
IsOpposite sell is_short = is_short ≡ false
IsOpposite other_side is_short = ⊥

is_reducing-IsOpposite :
    (side : OrderSide) (is_short : Bool)
    → is_reducing is_short side ≡ true
    → IsOpposite side is_short
is_reducing-IsOpposite buy is_short h = h
is_reducing-IsOpposite sell is_short h = ground (arith, h)
is_reducing-IsOpposite other_side is_short h = cc

-- A reduction of the position, a text, by n / 10^m: a sale of a long one, a purchase of a short one.
pub record IsReduction (family : MarketFamily) (position : List ℕ) (side : OrderSide) (n m : ℕ)
    (full : Bool) : Type 0 where
  pub on_perp : is_perp family ≡ true
  pub held : 0 < numerator position
  pub reducing : IsOpposite side (has_minus position)
  pub part : IsPart full n m (numerator position) (scale position)

abbrev pub is_oversized : Bool → Ordering → Bool
is_oversized full o = is_gt o || (full && not (is_eq o))

IsPart-order :
    (full : Bool) (o : Ordering) (n m k l : ℕ)
    → o ≡ order_of n m k l
    → is_oversized full o ≡ false
    → IsPart full n m k l
IsPart-order true o n m k l e h = order_of-same o n m k l e (ground (arith, h))
IsPart-order false o n m k l e h = order_of-IsAtMost o n m k l e (ground (arith, h))

pub assert_reduce_only-IsReduction :
    (family : MarketFamily) (position_size : Option (List ℕ)) (side : OrderSide) (size : List ℕ)
    (full : Bool) (n m : ℕ)
    → ((path : String) (d : ParsedDecimal) → parse_decimal size path ≡ ok d → IsValue d n m)
    → assert_reduce_only family position_size side size full ≡ ok tt
    → IsReduction family (text_or_zero position_size) side n m full
unfolding assert_reduce_only
assert_reduce_only-IsReduction family position_size side size full n m v h =
    let q = text_or_zero position_size in
    let (perp, h₁) =
      passed_check (not (is_perp family))
        (validation "intent.reduceOnly" "reduce-only actions require a perpetual market") _ h in
    let (position, parsed, h₂) = >>=-eq-ok (parse_decimal q "account.positionSize") _ h₁ in
    let (nonzero, h₃) =
      passed_check (position.coefficient == 0)
        (validation "account.positionSize" "there is no position to reduce") _ h₂ in
    let (reducing, h₄) =
      passed_check (not (is_reducing position.is_below side))
        (validation "intent.side" "reduce-only side would increase or reverse the position") _ h₃ in
    let (requested, again, h₅) = >>=-eq-ok (parse_decimal size "intent.size") _ h₄ in
    let p = parse_decimal-IsParsed q "account.positionSize" parsed in
    let sign : position.is_below ≡ has_minus q =
      p.sign ∙ ap (λ b. has_minus q && not b) nonzero ∙ and_true (has_minus q) in
    let whole_position : IsValue (absolute position) (numerator q) (scale q) = record {
      above = refl;
      exact = p.exact;
    } in
    record {
      on_perp = ground (arith, perp);
      held =
          positive_left (numerator q) (ten_to position.scale) position.coefficient
            (ten_to (scale q)) (sym p.exact) (ground (arith, nonzero)) (ten_to_pos (scale q));
      reducing =
          is_reducing-IsOpposite side (has_minus q)
            (ap (λ b. is_reducing b side) (sym sign) ∙ ground (arith, reducing));
      part =
          IsPart-order full (compare_decimal requested (absolute position)) n m (numerator q)
            (scale q)
            (compare_decimal-IsValue requested (absolute position) n m (numerator q) (scale q)
              (v "intent.size" requested again) whole_position)
            (throw_if-eq-ok (is_oversized full (compare_decimal requested (absolute position))) _
              h₅);
    }
  where
    and_true : (b : Bool) → (b && not false) ≡ b
    and_true b = ground arith
