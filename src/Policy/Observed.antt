-- ===== src/Policy/Observed.antt =====
-- packages/hyperliquid/src/reconciliation/policy.ts: the checks on evidence, and what it shows of an action.
use hyper_trader.Common.{
  ℕ, Bool, true, false, not, ◌&&◌, ◌||◌, String, List, Option, none, some, ltb, ◌==◌, opt_eq,
  if◌then◌else◌, str_eq, Number, is_safe_integer, is_negative, natural, Result, ok, err, validation,
  throw_if, ◌>>=◌, ◌>>◌, any, lowered, codes_eq,
}
use hyper_trader.Policy.Records.{
  ReconciliationRecord, OrderStatus, ObservedOrderIdentity, ObservedOrderEvidence, unknown,
  malformed, order, ReconciliationEvidence,
}

unfoldable pub safe_time : Number → String → Result ℕ
safe_time value path =
    if not (is_safe_integer value) || is_negative value
    then err (validation path "expected a non-negative safe integer")
    else ok (natural value)

abbrev is_known_network : String → Bool
is_known_network network = str_eq network "mainnet" || str_eq network "testnet"

-- `getAddress` of the package viem returns the checksummed address, or throws.
module _ (get_address : String → Option String) where
  unfoldable pub normalize_address : String → String → Result (List ℕ)
  normalize_address value path = elim (get_address value) [
    | none ↦ err (validation path "expected a 20-byte Ethereum address")
    | some address ↦ ok (lowered address)
  ]

  -- `||` stops at the first difference, so a later address is not normalized then.
  abbrev crossed : Result (Unit {0})
  crossed = err (validation "evidence.context" "reconciliation evidence crossed an action context")

  abbrev pub same_address : String → String → String → String → Result (Unit {0})
  same_address mine my_path theirs their_path = do
    left ← normalize_address mine my_path
    right ← normalize_address theirs their_path
    if codes_eq left right then ok tt else crossed

  unfoldable pub assert_context : ReconciliationRecord → ReconciliationEvidence → Result (Unit {0})
  unfolding normalize_address safe_time
  assert_context r evidence = do
    throw_if (not (is_known_network r.network) || not (is_known_network evidence.context.network))
        (validation "evidence.context.network" "unknown reconciliation network")
    if str_eq r.network evidence.context.network then ok tt else crossed
    same_address r.master_account "record.masterAccount" evidence.context.master_account
        "evidence.masterAccount"
    same_address r.target_account "record.targetAccount" evidence.context.target_account
        "evidence.targetAccount"
    if opt_eq ◌==◌ r.asset_id evidence.context.asset_id then ok tt else crossed
    expires ← safe_time r.expires_after_ms "record.expiresAfterMs"
    now ← safe_time evidence.server_time_ms "evidence.serverTimeMs"
    version ← safe_time evidence.state_version "evidence.stateVersion"
    ok tt

-- `identity.cloid?.toLowerCase() === cloid.toLowerCase()`
abbrev pub same_cloid : Option String → String → Bool
same_cloid none cloid = false
same_cloid (some theirs) cloid = codes_eq (lowered theirs) (lowered cloid)

abbrev pub same_order : Option String → Option ℕ → ObservedOrderIdentity → Bool
same_order (some cloid) target identity = same_cloid identity.cloid cloid
same_order none (some target) identity = identity.oid == target
same_order none none identity = false

unfoldable pub same_identity : ReconciliationRecord → ObservedOrderIdentity → Bool
same_identity r identity =
    opt_eq ◌==◌ r.asset_id (some identity.asset_id) && same_order r.cloid r.target_oid identity

-- The status of the observed order, if it is the record's own.
unfoldable pub exact_observed_order :
    ReconciliationRecord → ObservedOrderEvidence → Option OrderStatus
exact_observed_order r unknown = none
exact_observed_order r malformed = none
exact_observed_order r (order identity status) =
    if same_identity r identity then some status else none

unfoldable pub at_or_after_expiry : ReconciliationRecord → ReconciliationEvidence → Bool
at_or_after_expiry r evidence = ltb (natural r.expires_after_ms) (natural evidence.server_time_ms)

abbrev pub is_rejected : Option OrderStatus → Bool
is_rejected (some OrderStatus.rejected) = true
is_rejected _ = false

-- `order !== null && order.status !== "rejected"`
abbrev pub is_live : Option OrderStatus → Bool
is_live none = false
is_live (some status) = not (is_rejected (some status))

unfoldable pub has_acceptance : ReconciliationRecord → ReconciliationEvidence → Bool
has_acceptance r evidence =
    is_live (exact_observed_order r evidence.order)
    || (any (same_identity r) evidence.open_orders || any (same_identity r) evidence.fills)

unfoldable pub has_rejection : ReconciliationRecord → ReconciliationEvidence → Bool
has_rejection r evidence =
    is_rejected (exact_observed_order r evidence.order) || evidence.definitive_rejection
