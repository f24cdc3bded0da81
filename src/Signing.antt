-- ===== src/Signing.antt =====
-- packages/hyperliquid/src/signing/boundary.ts: which networks may sign and submit, and the binding
-- of an unlocked signer to one action target.
pub mod Boundary
use hyper_trader.Common.{
  ℕ, Bool, true, false, not, ◌&&◌, ◌||◌, String, Option, none, some, ltb, ◌==◌, if◌then◌else◌,
  str_eq, Number, is_safe_integer, is_negative, natural, max_safe_integer, Result, ok, err,
  validation, throw_if, ◌>>=◌, ◌>>◌, lower_text, matches_fixed, is_hex,
}

pub record SignerBinding : Type 0 where
  pub network : String
  pub master_account : String
  pub target_account : String
  pub agent_address : String
  pub generation : Number

pub record ActionCapability : Type 0 where
  pub signer_access : Bool
  pub exchange_transport : Bool

pub data MainnetTradingReleaseStage : Type 0 where
  preactivation candidate : MainnetTradingReleaseStage

abbrev pub mainnet_trading_release_stage : MainnetTradingReleaseStage
mainnet_trading_release_stage = candidate

abbrev is_candidate : MainnetTradingReleaseStage → Bool
is_candidate candidate = true
is_candidate preactivation = false

pub record Capabilities : Type 0 where
  pub mainnet : ActionCapability
  pub testnet : ActionCapability

unfoldable pub action_capabilities_for_release_stage : MainnetTradingReleaseStage → Capabilities
action_capabilities_for_release_stage stage = record {
  mainnet = record { signer_access = is_candidate stage; exchange_transport = is_candidate stage };
  testnet = record { signer_access = true; exchange_transport = true };
}

-- The functions below read `ACTION_CAPABILITIES`, which is made for the stage in the source.
module _ (stage : MainnetTradingReleaseStage) where
  unfoldable pub action_capability : String → Result ActionCapability
  unfolding action_capabilities_for_release_stage
  action_capability network =
      let capabilities = action_capabilities_for_release_stage stage in
      if str_eq network "mainnet"
      then ok capabilities.mainnet
      else if str_eq network "testnet"
      then ok capabilities.testnet
      else err (validation "network" "unknown network")

  unfoldable pub assert_known_action_network : String → Result (Unit {0})
  unfolding action_capability
  assert_known_action_network network = action_capability network >>= λ _. ok tt

  unfoldable pub has_trading_action_capability : String → Result Bool
  unfolding action_capability
  has_trading_action_capability network = do
    capability ← action_capability network
    ok (capability.signer_access && capability.exchange_transport)

  unfoldable pub assert_signer_access_capability : String → Result (Unit {0})
  unfolding action_capability
  assert_signer_access_capability network = do
    capability ← action_capability network
    throw_if (not capability.signer_access)
        (validation "network" "signer access is disabled by the local capability policy")

  unfoldable pub assert_exchange_transport_capability : String → Result (Unit {0})
  unfolding action_capability
  assert_exchange_transport_capability network = do
    capability ← action_capability network
    throw_if (not capability.exchange_transport)
        (validation "network" "exchange transport is disabled by the local capability policy")

  unfoldable pub assert_trading_action_capability : String → Result (Unit {0})
  unfolding assert_signer_access_capability assert_exchange_transport_capability
  assert_trading_action_capability network = do
    assert_signer_access_capability network
    assert_exchange_transport_capability network

-- `getAddress` of the package viem returns the checksummed address, or throws.
module _ (get_address : String → Option String) where
  abbrev read_address : String → Result String
  read_address value = elim (get_address value) [
    | none ↦ err (validation "signer.binding" "expected valid master, target, and agent addresses")
    | some address ↦ ok (lower_text address)
  ]

  unfoldable pub normalize_signer_binding : SignerBinding → Result SignerBinding
  normalize_signer_binding binding = do
    throw_if
        (not (is_safe_integer binding.generation)
          || (is_negative binding.generation || ltb (natural binding.generation) 1))
        (validation "signer.generation" "expected a positive safe integer")
    master ← read_address binding.master_account
    target ← read_address binding.target_account
    agent ← read_address binding.agent_address
    ok (record binding { master_account = master; target_account = target; agent_address = agent })

  -- Both generations have been checked when they are compared.
  abbrev is_other_binding : SignerBinding → SignerBinding → Bool
  is_other_binding left right =
      not (str_eq left.network right.network)
      || (not (str_eq left.master_account right.master_account)
          || (not (str_eq left.target_account right.target_account)
              || (not (str_eq left.agent_address right.agent_address)
                  || not (natural left.generation == natural right.generation))))

  unfoldable pub assert_signer_binding : SignerBinding → SignerBinding → Result (Unit {0})
  assert_signer_binding expected actual = do
    left ← normalize_signer_binding expected
    right ← normalize_signer_binding actual
    throw_if (is_other_binding left right)
        (validation "signer.binding" "the unlocked signer is not bound to this exact action target")

pub record Eip712Signature : Type 0 where
  pub r : String
  pub s : String
  pub v : ℕ

unfoldable pub validate_signature : Eip712Signature → Result Eip712Signature
unfolding matches_fixed is_hex
validate_signature signature =
    if not (matches_fixed "0x" is_hex 64 signature.r)
      || (not (matches_fixed "0x" is_hex 64 signature.s)
          || (not (signature.v == 27) && not (signature.v == 28)))
    then err (validation "signature" "the signer returned malformed signature components")
    else ok (record signature { r = lower_text signature.r; s = lower_text signature.s })

-- An unlocked signer: its binding, and the signature that it returns for a payload, or its failure.
pub record InjectedSigner (Payload : Type 0) : Type 0 where
  pub binding : SignerBinding
  pub sign : Payload → Result Eip712Signature

-- `signNetworkTypedData` and `signNetworkBytes`, which differ in what is signed. The second value
-- is the payload that was handed to the signer, if it was asked.
module _ (stage : MainnetTradingReleaseStage) (get_address : String → Option String)
    {Payload : Type 0} where
  unfoldable pub authorize_signing :
      SignerBinding → String → InjectedSigner Payload → Result (Unit {0})
  authorize_signing expected network signer = do
    assert_signer_access_capability stage expected.network
    assert_signer_access_capability stage network
    throw_if (not (str_eq network expected.network)) (
        validation "signer.network" "the signing payload network does not match the signer binding")
    assert_signer_binding get_address expected signer.binding

  unfoldable pub sign_network :
      SignerBinding
      → String
      → Payload
      → InjectedSigner Payload
      → Result Eip712Signature × Option Payload
  sign_network expected network payload signer = elim (authorize_signing expected network signer) [
    | err e ↦ (err e, none)
    | ok _ ↦ (signer.sign payload >>= validate_signature, some payload)
  ]
