-- ===== src/Policy.antt =====
-- packages/hyperliquid/src/reconciliation/policy.ts: what the evidence read back from the exchange
-- says of a submitted action.
pub mod Observed
pub mod Records
pub mod Context
pub mod Verdicts
pub mod Time
pub mod Evidence
pub use hyper_trader.Policy.Observed.{same_address, same_cloid, same_order, is_rejected, is_live}
unfoldable pub use hyper_trader.Policy.Observed.{
  safe_time, normalize_address, assert_context, same_identity, exact_observed_order,
  at_or_after_expiry, has_acceptance, has_rejection,
}
pub use hyper_trader.Policy.Records.{
  ReconciliationRecord, OrderStatus, ObservedOrderIdentity, ObservedOrderEvidence,
  ObservedPositionEvidence, MarginMode, ObservedLeverageEvidence, ReconciliationEvidence,
  ReconciliationDecision, filled, canceled, triggered, rejected, unknown, malformed, order, cross,
  isolated, incomplete_evidence, before_expiry, action_still_pending, terminal, unresolved,
}
use hyper_trader.Common.{
  ℕ, ◌≡◌, Bool, true, false, not, ◌&&◌, ◌||◌, String, List, Option, none, some, ltb, ◌==◌, is_some,
  is_none, opt_eq, bool_eq, if◌then◌else◌, str_eq, Number, is_safe_integer, is_negative, natural,
  number_eq, Result, ok, err, validation, type_error, throw_if, ◌>>=◌, ◌>>◌, any, lowered, codes_eq,
}
use hyper_trader.Json.{Value, bool, num, str, Fields, get_field}
use hyper_trader.Journal.{
  JournalState, JournalActionType, market_order, limit_order, cancel, bulk_cancel, update_leverage,
  reduce_only_close, position_tpsl, unsupported, accepted, expired, reconciled_ambiguous,
}

-- The end of `decideCreate`, by what was found and whether the action has expired.
unfoldable pub create_verdict : Bool → Bool → Bool → ReconciliationDecision
create_verdict acceptance rejection past =
    if acceptance && rejection
    then terminal reconciled_ambiguous
    else if rejection
    then terminal JournalState.rejected
    else if acceptance
    then terminal accepted
    else if not past
    then unresolved before_expiry
    else terminal expired

unfoldable pub decide_create :
    ReconciliationRecord → ReconciliationEvidence → Result ReconciliationDecision
decide_create r evidence =
    if is_none r.cloid
    then err (validation "record.cloid" "order creation requires an immutable cloid")
    else ok (
        create_verdict (has_acceptance r evidence) (has_rejection r evidence)
          (at_or_after_expiry r evidence))

-- `order.status` is "canceled", "filled" or "triggered".
abbrev pub is_gone : Option OrderStatus → Bool
is_gone (some canceled) = true
is_gone (some filled) = true
is_gone (some triggered) = true
is_gone _ = false

-- `intent.targetObservedBeforeSubmission === true`
abbrev pub is_true : Option Value → Bool
is_true (some (bool b)) = b
is_true _ = false

abbrev pub is_unknown : ObservedOrderEvidence → Bool
is_unknown unknown = true
is_unknown _ = false

unfoldable pub decide_cancel :
    ReconciliationRecord → ReconciliationEvidence → Result ReconciliationDecision
decide_cancel r evidence =
    if bool_eq (is_none r.cloid) (is_none r.target_oid)
    then err
        (validation "record.cancelTarget" "cancel requires exactly one immutable order identity")
    else if evidence.definitive_rejection
    then ok (terminal JournalState.rejected)
    else if is_gone (exact_observed_order r evidence.order)
    then ok (terminal accepted)
    else if any (same_identity r) evidence.open_orders
    then ok (
        if at_or_after_expiry r evidence then terminal expired else unresolved action_still_pending)
    else if is_true (get_field r.normalized_secret_free_intent "targetObservedBeforeSubmission")
        && is_unknown evidence.order
    then ok (terminal accepted)
    else ok (
        if at_or_after_expiry r evidence
        then terminal reconciled_ambiguous
        else unresolved before_expiry)

abbrev pub is_settled : ReconciliationDecision → Bool
is_settled (terminal accepted) = true
is_settled (terminal JournalState.rejected) = true
is_settled _ = false

-- The position of the record's asset is closed.
abbrev pub is_flat : Option ObservedPositionEvidence → Option ℕ → Bool
is_flat none asset = false
is_flat (some position) asset =
    opt_eq ◌==◌ (some position.asset_id) asset && str_eq position.size "0"

-- `typeof size === "string" && size !== "0"`
abbrev pub is_open_size : Option Value → Bool
is_open_size (some (str size)) = not (str_eq size "0")
is_open_size _ = false

unfoldable pub decide_close :
    ReconciliationRecord → ReconciliationEvidence → Result ReconciliationDecision
decide_close r evidence = do
  decision ← decide_create r evidence
  if is_settled decision
      then ok decision
      else if is_flat evidence.position r.asset_id
          && is_open_size (get_field r.normalized_secret_free_intent "reviewedPositionSize")
      then ok (terminal reconciled_ambiguous)
      else ok decision

-- The number of a field, if it is a safe integer.
abbrev pub safe_field : Option Value → Option Number
safe_field (some (num n)) = if is_safe_integer n then some n else none
safe_field _ = none

abbrev pub margin_field : Option Value → Option MarginMode
margin_field (some (str mode)) =
    if str_eq mode "cross"
    then some cross
    else if str_eq mode "isolated"
    then some isolated
    else none
margin_field _ = none

abbrev pub margin_eq : MarginMode → MarginMode → Bool
margin_eq cross cross = true
margin_eq isolated isolated = true
margin_eq _ _ = false

-- The observed leverage is the one that the intent asks for; the value is whether it is attributed
-- to the action.
abbrev pub observed_leverage :
    Option ObservedLeverageEvidence → Option ℕ → Number → MarginMode → Option Bool
observed_leverage none asset leverage mode = none
observed_leverage (some seen) asset leverage mode =
    if opt_eq ◌==◌ (some seen.asset_id) asset
      && (number_eq leverage seen.leverage && margin_eq seen.margin_mode mode)
    then some seen.causally_attributed
    else none

abbrev pub judge_leverage :
    ReconciliationRecord → ReconciliationEvidence → Number → MarginMode → ℕ → ReconciliationDecision
judge_leverage r evidence leverage mode reviewed =
    elim (observed_leverage evidence.leverage r.asset_id leverage mode) [
      | some attributed ↦ if attributed then terminal accepted else terminal reconciled_ambiguous
      | none ↦
          if not (at_or_after_expiry r evidence)
          then unresolved before_expiry
          else if ltb reviewed (natural evidence.state_version)
          then terminal expired
          else unresolved incomplete_evidence
    ]

-- The intent's leverage, margin mode and reviewed state version, each of them checked.
abbrev pub reviewed_leverage : Fields → Option (Number × MarginMode × ℕ)
reviewed_leverage intent = elim (safe_field (get_field intent "leverage")) [
  | none ↦ none
  | some leverage ↦ elim (margin_field (get_field intent "marginMode")) [
    | none ↦ none
    | some mode ↦ elim (safe_field (get_field intent "reviewedAccountStateVersion")) [
      | none ↦ none
      | some version ↦ if is_negative version then none else some (leverage, mode, natural version)
    ]
  ]
]

unfoldable pub decide_leverage :
    ReconciliationRecord → ReconciliationEvidence → Result ReconciliationDecision
decide_leverage r evidence =
    if evidence.definitive_rejection
    then ok (terminal JournalState.rejected)
    else elim (reviewed_leverage r.normalized_secret_free_intent) [
      | none ↦ ok (unresolved incomplete_evidence)
      | some (leverage, mode, reviewed) ↦ ok (judge_leverage r evidence leverage mode reviewed)
    ]

abbrev pub is_malformed : ObservedOrderEvidence → Bool
is_malformed malformed = true
is_malformed _ = false

-- The `switch` of `decideReconciliation`.
unfoldable pub decide_action :
    JournalActionType
    → ReconciliationRecord
    → ReconciliationEvidence
    → Result ReconciliationDecision
decide_action market_order r evidence = decide_create r evidence
decide_action limit_order r evidence = decide_create r evidence
decide_action position_tpsl r evidence = decide_create r evidence
decide_action reduce_only_close r evidence = decide_close r evidence
decide_action cancel r evidence = decide_cancel r evidence
decide_action update_leverage r evidence = decide_leverage r evidence
decide_action bulk_cancel r evidence =
    err (validation "record.actionType" "bulk cancel is not a U7 public action")
decide_action (unsupported name) r evidence =
    err (validation "record.actionType" "unsupported reconciliation action")

unfoldable pub decide_reconciliation :
    (String → Option String)
    → ReconciliationRecord
    → ReconciliationEvidence
    → Result ReconciliationDecision
decide_reconciliation get_address r evidence = do
  assert_context get_address r evidence
  if not evidence.complete || is_malformed evidence.order
      then ok (unresolved incomplete_evidence)
      else decide_action r.action_type r evidence
