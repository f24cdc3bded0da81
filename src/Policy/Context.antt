-- ===== src/Policy/Context.antt =====
-- The context check of policy.ts, and what makes evidence be about a record.
use hyper_trader.Common.{
  ◌≡◌, refl, ◌↔◌, ◌⊎◌, String, Option, none, some, arith, str_eq_iff, lowered, codes_eq_iff, ok,
}
use hyper_trader.Nonces.Gate.{IsMilliseconds}
use hyper_trader.Policy.{
  ReconciliationRecord, ReconciliationEvidence, assert_context, normalize_address, same_address,
}

-- Both texts were read as addresses, equal up to the case of their digits.
abbrev pub Agree : Option String → Option String → Type 0
Agree (some x) (some y) = lowered x ≡ lowered y
Agree _ _ = ⊥

module _ (get_address : String → Option String) where
  pub record IsSameContext (r : ReconciliationRecord) (evidence : ReconciliationEvidence)
      : Type 0 where
    pub known_network : (r.network ≡ "mainnet") ⊎ (r.network ≡ "testnet")
    pub same_network : r.network ≡ evidence.context.network
    pub same_master :
        Agree (get_address r.master_account) (get_address evidence.context.master_account)
    pub same_target :
        Agree (get_address r.target_account) (get_address evidence.context.target_account)
    pub same_asset : r.asset_id ≡ evidence.context.asset_id
    pub expiry_read : IsMilliseconds r.expires_after_ms
    pub server_time_read : IsMilliseconds evidence.server_time_ms
    pub version_read : IsMilliseconds evidence.state_version

  Agree-iff :
      (a b p q : String)
      → (same_address get_address a p b q ≡ ok tt) ↔ Agree (get_address a) (get_address b)
  unfolding normalize_address
  Agree-iff a b p q = go (get_address a) (get_address b) refl refl
    where
      go :
          (x y : Option String)
          → get_address a ≡ x
          → get_address b ≡ y
          → (same_address get_address a p b q ≡ ok tt) ↔ Agree (get_address a) (get_address b)
      go none y e f = rw (e, normalize_address) (λ h. cc, λ h. absurd h)
      go (some x) none e f = rw (e, f, normalize_address) (λ h. cc, λ h. absurd h)
      go (some x) (some y) e f =
          rw (e, f, normalize_address)
            (
              λ h. ground (arith, (codes_eq_iff (lowered x) (lowered y)).0),
              λ h. ground (arith, (codes_eq_iff (lowered x) (lowered y)).1),
            )

  -- The check passes exactly on evidence for the record's own context: the same known network, the
  -- same master and target account up to the case of their digits, the same asset, and three times
  -- that are safe integers from 0 on.
  pub assert_context-IsSameContext :
      (r : ReconciliationRecord) (evidence : ReconciliationEvidence)
      → (assert_context get_address r evidence ≡ ok tt) ↔ IsSameContext r evidence
  unfolding assert_context
  assert_context-IsSameContext r evidence =
      let master =
        Agree-iff r.master_account evidence.context.master_account "record.masterAccount"
          "evidence.masterAccount" in
      let target =
        Agree-iff r.target_account evidence.context.target_account "record.targetAccount"
          "evidence.targetAccount" in
      (
        λ h. ground (
          arith,
          master.0,
          target.0,
          str_eq_iff r.network "mainnet",
          str_eq_iff r.network "testnet",
          str_eq_iff r.network evidence.context.network,
        ),
        λ h. ground (
          arith,
          master.1,
          target.1,
          str_eq_iff r.network "mainnet",
          str_eq_iff r.network "testnet",
          str_eq_iff evidence.context.network "mainnet",
          str_eq_iff evidence.context.network "testnet",
          str_eq_iff r.network evidence.context.network,
        ),
      )
