-- ===== src/Policy/Evidence.antt =====
-- What it means that the exchange has reported a record's order, and the tests that decide it.
use hyper_trader.Common.{
  ℕ, ◌≡◌, refl, ◌↔◌, ◌⊎◌, true, String, Option, none, some, arith, Any, any_iff, lowered,
  codes_eq_iff, ==_iff,
}
use hyper_trader.Policy.{
  same_cloid, same_order, is_live, is_rejected, ReconciliationRecord, ReconciliationEvidence,
  ObservedOrderIdentity, ObservedOrderEvidence, OrderStatus, unknown, malformed, order,
  same_identity, exact_observed_order, has_acceptance, has_rejection,
}

-- An observed order carries the client order ID of the record, or its order ID if it has none.
abbrev pub HasIdentity : Option String → Option ℕ → ObservedOrderIdentity → Type 0
HasIdentity (some cloid) target identity =
    (theirs : String) × (identity.cloid ≡ some theirs) × (lowered theirs ≡ lowered cloid)
HasIdentity none (some target) identity = identity.oid ≡ target
HasIdentity none none identity = ⊥

-- An observed order is the record's own.
abbrev pub IsOwn : ReconciliationRecord → ObservedOrderIdentity → Type 0
IsOwn r identity = (r.asset_id ≡ some identity.asset_id) × HasIdentity r.cloid r.target_oid identity

same_cloid_iff :
    (theirs : Option String) (cloid : String)
    → (same_cloid theirs cloid ≡ true)
      ↔ ((s : String) × (theirs ≡ some s) × (lowered s ≡ lowered cloid))
same_cloid_iff none cloid = (λ e. cc, λ s. cc)
same_cloid_iff (some s) cloid = (
  λ e. (s, refl, (codes_eq_iff _ _).0 e),
  λ (s', p, q). (codes_eq_iff (lowered s) (lowered cloid)).1 (cc),
)

same_order-HasIdentity :
    (cloid : Option String) (target : Option ℕ) (identity : ObservedOrderIdentity)
    → (same_order cloid target identity ≡ true) ↔ HasIdentity cloid target identity
same_order-HasIdentity (some cloid) target identity = same_cloid_iff identity.cloid cloid
same_order-HasIdentity none (some target) identity = ==_iff identity.oid target
same_order-HasIdentity none none identity = (λ e. cc, λ n. absurd n)

pub same_identity-IsOwn :
    (r : ReconciliationRecord) (identity : ObservedOrderIdentity)
    → (same_identity r identity ≡ true) ↔ IsOwn r identity
unfolding same_identity
same_identity-IsOwn r identity = (
  λ e. ground (arith, (same_order-HasIdentity r.cloid r.target_oid identity).0),
  λ o. ground (arith, (same_order-HasIdentity r.cloid r.target_oid identity).1),
)

-- The order that was asked for by its status is the record's own, with a status that passes.
abbrev HasStatus : (OrderStatus → Type 0) → ReconciliationRecord → ObservedOrderEvidence → Type 0
HasStatus P r (order identity status) = IsOwn r identity × P status
HasStatus P r unknown = ⊥
HasStatus P r malformed = ⊥

abbrev IsNotRejected : OrderStatus → Type 0
IsNotRejected OrderStatus.rejected = ⊥
IsNotRejected _ = Unit

-- The exchange has reported the record's order as taken: by its status, among the open orders, or
-- by a fill.
abbrev pub IsReported : ReconciliationRecord → ReconciliationEvidence → Type 0
IsReported r evidence =
    HasStatus IsNotRejected r evidence.order
    ⊎ Any (IsOwn r) evidence.open_orders
    ⊎ Any (IsOwn r) evidence.fills

-- The exchange has reported that it refuses the order.
abbrev pub IsRefused : ReconciliationRecord → ReconciliationEvidence → Type 0
IsRefused r evidence =
    HasStatus (λ s. s ≡ OrderStatus.rejected) r evidence.order
    ⊎ (evidence.definitive_rejection ≡ true)

is_live_iff :
    (r : ReconciliationRecord) (o : ObservedOrderEvidence)
    → (is_live (exact_observed_order r o) ≡ true) ↔ HasStatus IsNotRejected r o
unfolding exact_observed_order
is_live_iff r unknown = (λ e. cc, λ n. absurd n)
is_live_iff r malformed = (λ e. cc, λ n. absurd n)
is_live_iff r (order identity status) = (
  λ e. ground (arith, (same_identity-IsOwn r identity).0),
  λ h. ground (arith, (same_identity-IsOwn r identity).1 h.0),
)

is_rejected_iff :
    (r : ReconciliationRecord) (o : ObservedOrderEvidence)
    → (is_rejected (exact_observed_order r o) ≡ true)
      ↔ HasStatus (λ s. s ≡ OrderStatus.rejected) r o
unfolding exact_observed_order
is_rejected_iff r unknown = (λ e. cc, λ n. absurd n)
is_rejected_iff r malformed = (λ e. cc, λ n. absurd n)
is_rejected_iff r (order identity status) = (
  λ e. ground (arith, (same_identity-IsOwn r identity).0),
  λ h. ground (arith, (same_identity-IsOwn r identity).1 h.0),
)

pub has_acceptance-IsReported :
    (r : ReconciliationRecord) (evidence : ReconciliationEvidence)
    → (has_acceptance r evidence ≡ true) ↔ IsReported r evidence
unfolding has_acceptance
has_acceptance-IsReported r evidence =
    let status = is_live_iff r evidence.order in
    let own = any_iff (same_identity r) (same_identity-IsOwn r) in
    let open_orders = own evidence.open_orders in
    let fills = own evidence.fills in
    (
      λ e. ground (arith, status.0, open_orders.0, fills.0),
      λ h. ground (arith, status.1, open_orders.1, fills.1),
    )

pub has_rejection-IsRefused :
    (r : ReconciliationRecord) (evidence : ReconciliationEvidence)
    → (has_rejection r evidence ≡ true) ↔ IsRefused r evidence
unfolding has_rejection
has_rejection-IsRefused r evidence =
    let status = is_rejected_iff r evidence.order in
    (λ e. ground (arith, status.0), λ h. ground (arith, status.1))
