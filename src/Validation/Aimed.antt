-- ===== src/Validation/Aimed.antt =====
-- packages/hyperliquid/src/actions/validation.ts, `validateCancel`: the order that a cancellation is
-- aimed at.
use hyper_trader.Common.{
  ℕ, ◌≡◌, refl, sym, ap, ◌∙◌, true, false, List, [], ◌∷◌, Option, none, some, arith, String, Number,
  pos, number_eq, ok, ok_inj, >>=-eq-ok, str_eq_iff, Any, Bool-cases, inl, inr, if◌then◌else◌,
}
use hyper_trader.Validation.{CurrentOpenOrderIdentity}
use hyper_trader.Validation.Checks.{parse_cloid}
use hyper_trader.Validation.Protective.{is_order}
use hyper_trader.Validation.Actions.{
  Target, the_oid, the_cloid, matches_cloid, is_target, some_target,
}

-- The order that a cancellation is aimed at: the asset is the same, and the order ID, or the client
-- order ID once it is read.
abbrev pub IsAimed : ℕ → Target → CurrentOpenOrderIdentity → Type 0
IsAimed asset_id (the_oid oid) o = (o.asset_id ≡ pos asset_id) × (o.oid ≡ some (pos oid))
IsAimed asset_id (the_cloid target) o =
    (o.asset_id ≡ pos asset_id)
    × ((cloid : String) × (o.cloid ≡ some cloid)
        × (parse_cloid cloid "account.openOrders.cloid" ≡ ok target))

number_eq-pos : (n : Number) (m : ℕ) → number_eq n m ≡ true → n ≡ pos m
number_eq-pos n m h = ground (arith, h)

order_aimed :
    (asset_id oid : ℕ) (o : CurrentOpenOrderIdentity)
    → is_order asset_id oid o ≡ true
    → (o.asset_id ≡ pos asset_id) × (o.oid ≡ some (pos oid))
order_aimed asset_id oid o h = ground (arith, h)

cloid_aimed :
    (target : String) (found : Option String)
    → matches_cloid target found ≡ ok true
    → (cloid : String) × (found ≡ some cloid)
      × (parse_cloid cloid "account.openOrders.cloid" ≡ ok target)
cloid_aimed target none h = cc
cloid_aimed target (some cloid) h =
    let (c, read, same) = >>=-eq-ok (parse_cloid cloid "account.openOrders.cloid") _ h in
    (cloid, refl, read ∙ ap ok ((str_eq_iff c target).0 (ok_inj same)))

is_target-IsAimed :
    (asset_id : ℕ) (target : Target) (o : CurrentOpenOrderIdentity)
    → is_target asset_id target o ≡ ok true
    → IsAimed asset_id target o
is_target-IsAimed asset_id (the_oid oid) o h = order_aimed asset_id oid o (ok_inj h)
is_target-IsAimed asset_id (the_cloid target) o h =
    elim (Bool-cases (number_eq o.asset_id asset_id)) [
      | inl same ↦ (
        number_eq-pos o.asset_id asset_id same,
        cloid_aimed target o.cloid
            (sym (ap (λ b. if b then matches_cloid target o.cloid else ok false) same) ∙ h),
      )
      | inr other ↦
          cc (sym (ap (λ b. if b then matches_cloid target o.cloid else ok false) other) ∙ h)
    ]

pub some_target-Any :
    (asset_id : ℕ) (target : Target) (orders : List CurrentOpenOrderIdentity)
    → some_target asset_id target orders ≡ ok true
    → Any (IsAimed asset_id target) orders
unfolding some_target
some_target-Any asset_id target [] h = cc
some_target-Any asset_id target (o ∷ orders) h =
    let (found, first, rest) = >>=-eq-ok (is_target asset_id target o) _ h in
    elim (Bool-cases found) [
      | inl here ↦ inl (is_target-IsAimed asset_id target o (first ∙ ap ok here))
      | inr later ↦ inr (
          some_target-Any asset_id target orders (
            ap (λ b. if b then ok true else some_target asset_id target orders) (sym later) ∙ rest))
    ]
