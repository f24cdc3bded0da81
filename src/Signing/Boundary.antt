-- ===== src/Signing/Boundary.antt =====
-- When a signer is asked to sign.
use hyper_trader.Common.{
  ◌≡◌, refl, sym, subst, ◌∙◌, ap, ◌↔◌, ◌⊎◌, String, Option, some, arith, Result, ok, err, str_eq,
  str_eq_iff, str_eq_self, false, natural, pos,
}
use hyper_trader.Signing.{
  SignerBinding, MainnetTradingReleaseStage, candidate, normalize_signer_binding, is_other_binding,
  assert_signer_binding, assert_signer_access_capability, authorize_signing, sign_network,
  InjectedSigner,
}

-- The network may sign at this stage of the release.
abbrev pub IsEnabled : MainnetTradingReleaseStage → String → Type 0
IsEnabled stage network = (network ≡ "testnet") ⊎ ((network ≡ "mainnet") × (stage ≡ candidate))

testnet_is_not_mainnet : (network : String) → network ≡ "testnet" → str_eq network "mainnet" ≡ false
unfolding str_eq
testnet_is_not_mainnet network e = rw e

-- The check on a network passes exactly on `testnet`, and on `mainnet` at the candidate stage.
pub assert_signer_access_capability-IsEnabled :
    (stage : MainnetTradingReleaseStage) (network : String)
    → (assert_signer_access_capability stage network ≡ ok tt) ↔ IsEnabled stage network
unfolding assert_signer_access_capability
assert_signer_access_capability-IsEnabled stage network = (
  λ h. ground (arith, str_eq_iff network "mainnet", str_eq_iff network "testnet"),
  λ h. ground (
    arith,
    str_eq_iff network "mainnet",
    str_eq_iff network "testnet",
    testnet_is_not_mainnet network,
  ),
)

-- Two bindings are one once their addresses are normalized.
abbrev pub IsSameBinding : (String → Option String) → SignerBinding → SignerBinding → Type 0
IsSameBinding get_address a b =
    (binding : SignerBinding) × (normalize_signer_binding get_address a ≡ ok binding)
    × (normalize_signer_binding get_address b ≡ ok binding)

normalized_generation :
    (get_address : String → Option String) (a : SignerBinding) {b : SignerBinding}
    → normalize_signer_binding get_address a ≡ ok b
    → b.generation ≡ pos (natural b.generation)
unfolding normalize_signer_binding
normalized_generation get_address a h = ground arith

normalized_eq :
    (get_address : String → Option String) (a b : SignerBinding) {x y : SignerBinding}
    → normalize_signer_binding get_address a ≡ ok x
    → normalize_signer_binding get_address b ≡ ok y
    → is_other_binding get_address x y ≡ false
    → x ≡ y
normalized_eq get_address a b {x} {y} h k e = ground (
  arith,
  normalized_generation get_address a h,
  normalized_generation get_address b k,
  str_eq_iff x.network y.network,
  str_eq_iff x.master_account y.master_account,
  str_eq_iff x.target_account y.target_account,
  str_eq_iff x.agent_address y.agent_address,
)

same_is_not_other :
    (get_address : String → Option String) (x : SignerBinding)
    → is_other_binding get_address x x ≡ false
same_is_not_other get_address x = ground (
  arith,
  str_eq_self x.network,
  str_eq_self x.master_account,
  str_eq_self x.target_account,
  str_eq_self x.agent_address,
)

-- The check passes exactly on two bindings that are one once their addresses are normalized.
pub assert_signer_binding-IsSameBinding :
    (get_address : String → Option String) (a b : SignerBinding)
    → (assert_signer_binding get_address a b ≡ ok tt) ↔ IsSameBinding get_address a b
unfolding assert_signer_binding
assert_signer_binding-IsSameBinding get_address a b =
    go (normalize_signer_binding get_address a) (normalize_signer_binding get_address b) refl refl
  where
    go :
        (l r : Result SignerBinding)
        → normalize_signer_binding get_address a ≡ l
        → normalize_signer_binding get_address b ≡ r
        → (assert_signer_binding get_address a b ≡ ok tt) ↔ IsSameBinding get_address a b
    go (err e) r p q = rw (p, assert_signer_binding) (λ h. cc, λ s. cc)
    go (ok x) (err e) p q = rw (p, q, assert_signer_binding) (λ h. cc, λ s. cc)
    go (ok x) (ok y) p q = (
      λ h.
          let same : is_other_binding get_address x y ≡ false = ground arith in
          (x, p, q ∙ ap ok (sym (normalized_eq get_address a b p q same))),
      λ s. ground (arith, same_is_not_other get_address s.0),
    )

-- What must hold before a signer is handed anything to sign.
pub record IsAuthorized (stage : MainnetTradingReleaseStage) (get_address : String → Option String)
    (expected : SignerBinding) (network : String) (actual : SignerBinding) : Type 0 where
  pub same_network : network ≡ expected.network
  pub enabled : IsEnabled stage network
  pub bound : IsSameBinding get_address expected actual

module _ (stage : MainnetTradingReleaseStage) (get_address : String → Option String) where
  authorize_signing-IsAuthorized :
      {Payload : Type 0} (expected : SignerBinding) (network : String)
      (signer : InjectedSigner Payload)
      → (authorize_signing stage get_address expected network signer ≡ ok tt)
        ↔ IsAuthorized stage get_address expected network signer.binding
  unfolding authorize_signing
  authorize_signing-IsAuthorized expected network signer =
      let theirs = assert_signer_access_capability-IsEnabled stage expected.network in
      let ours = assert_signer_access_capability-IsEnabled stage network in
      let bound = assert_signer_binding-IsSameBinding get_address expected signer.binding in
      (
        λ h. record {
          same_network = ground (arith, str_eq_iff network expected.network);
          enabled = ours.0 (ground arith);
          bound = bound.0 (ground arith);
        },
        λ a. ground (
          arith,
          bound.1 a.bound,
          ours.1 a.enabled,
          theirs.1 (subst (IsEnabled stage) a.same_network a.enabled),
          str_eq_iff network expected.network,
        ),
      )

  -- A signer is handed a payload exactly when the payload's network is the binding's, that network
  -- may sign at this stage of the release, and the signer is bound to the expected accounts, agent
  -- and generation. What it is handed is the payload that was to be signed.
  pub sign_network-IsAuthorized :
      {Payload : Type 0} (expected : SignerBinding) (network : String) (payload asked : Payload)
      (signer : InjectedSigner Payload)
      → ((sign_network stage get_address expected network payload signer).1 ≡ some asked)
        ↔ ((asked ≡ payload) × IsAuthorized stage get_address expected network signer.binding)
  unfolding sign_network
  sign_network-IsAuthorized expected network payload asked signer =
      let authorized = authorize_signing-IsAuthorized expected network signer in
      (λ h. (ground arith, authorized.0 (ground arith)), λ a. ground (arith, authorized.1 a.1))
