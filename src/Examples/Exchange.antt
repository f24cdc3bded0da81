-- ===== src/Examples/Exchange.antt =====
-- The clock gate, the reading of evidence, the check on intents and the signing boundary.
use hyper_trader.Examples.Computed.{computed}
use hyper_trader.Common.{
  ℕ, ◌≡◌, ◌<◌, ◌↔◌, refl, true, false, String, Option, none, some, [], ◌∷◌, pos, Result, ok, err,
  validation, is_none, natural, max_safe_integer, inl, arith,
}
use hyper_trader.Nonces.{
  ClockGateInput, NonceAllocationInput, NonceAllocation, assert_clock_gate, allocate_nonce,
}
use hyper_trader.Nonces.Gate.{IsTrusted, assert_clock_gate-IsTrusted}
use hyper_trader.Nonces.Bounds.{IsAllocation, allocate_nonce-IsAllocation}
use hyper_trader.Json.{
  Fields, obj, arr, str, num, field, done, nil, cons, serialize_secret_free_intent,
}
use hyper_trader.Journal.{limit_order, accepted, expired}
use hyper_trader.Policy.{
  ReconciliationRecord, ReconciliationEvidence, unknown, terminal, unresolved, before_expiry,
  assert_context, decide_reconciliation, ReconciliationDecision,
}
use hyper_trader.Policy.Context.{IsSameContext, assert_context-IsSameContext}
use hyper_trader.Policy.Evidence.{IsReported, IsRefused}
use hyper_trader.Policy.Verdicts.{IsVerdict, IsJudged, decide_reconciliation-IsVerdict}
use hyper_trader.Policy.Time.{
  at_time, decide_reconciliation-terminal, decide_reconciliation-expired,
  decide_reconciliation-at_time,
}
use hyper_trader.Signing.{
  SignerBinding, InjectedSigner, Eip712Signature, mainnet_trading_release_stage, candidate,
  preactivation, assert_signer_binding, assert_signer_access_capability, sign_network,
}
use hyper_trader.Signing.Boundary.{
  IsSameBinding, IsAuthorized, IsEnabled, assert_signer_binding-IsSameBinding,
  assert_signer_access_capability-IsEnabled, sign_network-IsAuthorized,
}

abbrev clock : ClockGateInput
clock = record {
  wall_time_ms = pos 1_000_000;
  monotonic_time_ms = pos 5_000;
  server_time_ms = pos 999_000;
  server_sampled_at_monotonic_ms = pos 4_000;
  last_observed_wall_ms = some (pos 1_000_500);
}

-- The wall clock is half a second behind what it was; the last nonce is ahead of it.
abbrev request : NonceAllocationInput
request = record { clock = clock; last_issued_nonce = some (pos 1_000_400) }

abbrev allocation : NonceAllocation
allocation = record {
  nonce = 1_000_401;
  expires_after_ms = 1_015_000;
  observed_wall_ms = 1_000_000;
}

allocated : allocate_nonce request ≡ ok allocation
unfolding allocate_nonce assert_clock_gate
allocated = refl

assert_clock_gate-IsTrusted_example : (assert_clock_gate clock ≡ ok tt) ↔ IsTrusted clock
assert_clock_gate-IsTrusted_example = assert_clock_gate-IsTrusted clock

allocate_nonce-IsAllocation_example :
    (allocate_nonce request ≡ ok allocation) ↔ IsAllocation request allocation
allocate_nonce-IsAllocation_example = allocate_nonce-IsAllocation request allocation

abbrev intent : Fields
intent =
    field "asset" (num (pos 3))
      (field "orders" (arr (cons (obj (field "size" (str "1.5") done)) nil)) done)

accepts : serialize_secret_free_intent (obj intent) ≡ ok intent
unfolding serialize_secret_free_intent
accepts = refl

refuses :
    serialize_secret_free_intent
      (obj (field "a" (obj (field "agentPrivateKey" (str "0") done)) done))
    ≡ err (validation "intent" "forbidden signing or secret material")
unfolding serialize_secret_free_intent
refuses = refl

-- An address is read as it is written.
abbrev read : String → Option String
read address = some address

abbrev submitted : ReconciliationRecord
submitted = record {
  network = "testnet";
  master_account = "0xaa";
  target_account = "0xbb";
  action_type = limit_order;
  asset_id = some 3;
  cloid = some "0xC1";
  target_oid = none;
  expires_after_ms = pos 1_000;
  normalized_secret_free_intent = done;
}

-- Nothing of the order has been seen.
abbrev silence : ReconciliationEvidence
silence = record {
  context = record {
    network = "testnet";
    master_account = "0xAA";
    target_account = "0xbb";
    asset_id = some 3;
  };
  server_time_ms = pos 2_000;
  complete = true;
  order = unknown;
  open_orders = [];
  fills = [];
  position = none;
  leverage = none;
  state_version = pos 7;
  definitive_rejection = false;
}

-- The order has been filled.
abbrev filling : ReconciliationEvidence
filling = record silence { fills = record { asset_id = 3; oid = 9; cloid = some "0xc1" } ∷ [] }

expires : decide_reconciliation read submitted silence ≡ ok (terminal expired)
unfolding computed
expires = refl

waits : decide_reconciliation read submitted (at_time silence 500) ≡ ok (unresolved before_expiry)
unfolding computed
waits = refl

fills : decide_reconciliation read submitted (at_time filling 500) ≡ ok (terminal accepted)
unfolding computed
fills = refl

checked : assert_context read submitted filling ≡ ok tt
unfolding assert_context hyper_trader.Common.str_eq hyper_trader.Common.to_lower
checked = refl

judged : IsJudged read submitted filling
judged = record {
  context = (assert_context-IsSameContext read submitted filling).0 checked;
  complete = refl;
  understood = refl;
}

decide_reconciliation-IsVerdict_example :
    (decision : ReconciliationDecision) × (decide_reconciliation read submitted filling
      ≡ ok decision)
    × IsVerdict
        (IsReported submitted filling)
        (IsRefused submitted filling)
        (natural submitted.expires_after_ms < natural filling.server_time_ms)
        decision
decide_reconciliation-IsVerdict_example =
    decide_reconciliation-IsVerdict read submitted filling tt refl judged

decide_reconciliation-terminal_example : IsJudged read submitted silence
decide_reconciliation-terminal_example =
    decide_reconciliation-terminal read submitted silence expired expires

decide_reconciliation-expired_example :
    (natural submitted.expires_after_ms < natural silence.server_time_ms)
    × (silence.definitive_rejection ≡ false)
decide_reconciliation-expired_example = decide_reconciliation-expired read submitted silence expires

decide_reconciliation-at_time_example :
    decide_reconciliation read submitted (at_time filling 3_000) ≡ ok (terminal accepted)
decide_reconciliation-at_time_example =
    decide_reconciliation-at_time read submitted filling 500 3_000 (omega arith) (omega arith) fills

assert_context-IsSameContext_example :
    (assert_context read submitted silence ≡ ok tt) ↔ IsSameContext read submitted silence
assert_context-IsSameContext_example = assert_context-IsSameContext read submitted silence

abbrev binding : SignerBinding
binding = record {
  network = "mainnet";
  master_account = "0xaa";
  target_account = "0xbb";
  agent_address = "0xcc";
  generation = pos 2;
}

abbrev signature : Eip712Signature
signature = record { r = "0x"; s = "0x"; v = 27 }

abbrev signer : InjectedSigner String
signer = record { binding = record binding { agent_address = "0xCC" }; sign = λ _. ok signature }

hands_over :
    (sign_network mainnet_trading_release_stage read binding "mainnet" "order" signer).1
    ≡ some "order"
unfolding computed
hands_over = refl

assert_signer_access_capability-IsEnabled_example :
    (assert_signer_access_capability preactivation "mainnet" ≡ ok tt)
    ↔ IsEnabled preactivation "mainnet"
assert_signer_access_capability-IsEnabled_example =
    assert_signer_access_capability-IsEnabled preactivation "mainnet"

assert_signer_binding-IsSameBinding_example :
    (assert_signer_binding read binding signer.binding ≡ ok tt)
    ↔ IsSameBinding read binding signer.binding
assert_signer_binding-IsSameBinding_example =
    assert_signer_binding-IsSameBinding read binding signer.binding

sign_network-IsAuthorized_example :
    ((sign_network candidate read binding "mainnet" "order" signer).1 ≡ some "order") ↔ (
      ◌≡◌ {A = String} "order" "order"
      × IsAuthorized candidate read binding "mainnet" signer.binding)
sign_network-IsAuthorized_example =
    sign_network-IsAuthorized candidate read binding "mainnet" "order" "order" signer
