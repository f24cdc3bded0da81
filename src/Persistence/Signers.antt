-- ===== src/Persistence/Signers.antt =====
-- nonce-repository.ts: the scopes of the signers, and the reservation of a nonce together with the
-- journal entry of the action that it is for.
pub mod Inserts
pub use hyper_trader.Persistence.Signers.Inserts.{
  PreparedActionInput, AtomicActionReservationInput, status_eq, binding_from_scope, is_scope,
  update_scopes, is_issuing, set_issued, prepared_row,
}
unfoldable pub use hyper_trader.Persistence.Signers.Inserts.{
  assert_reservation_identifiers, scope, is_conflict, insert_action,
}
use Prim.Native.Char.{nul}
use Prim.Native.String.{◌++◌}
use hyper_trader.Common.{
  ℕ, Bool, true, false, not, ◌&&◌, ◌||◌, String, Option, none, some, ◌∷◌, ◌==◌, is_some, opt_eq,
  if◌then◌else◌, str_eq, Number, pos, is_safe_integer, is_negative, natural, Result, ok, err,
  validation, type_error, plain_error, throw_if, or_throw, ◌>>=◌, ◌>>◌, any, find, count_if,
  lower_text, matches_fixed, is_hex,
}
use hyper_trader.Json.{Value, serialize_secret_free_intent, Fields}
use hyper_trader.Nonces.{ClockGateInput, NonceAllocation, allocate_nonce}
use hyper_trader.Journal.{
  PreparedActionRecord, prepared, is_terminal_journal_state, JournalActionType, market_order,
}
use hyper_trader.Signing.{
  SignerBinding, mainnet_trading_release_stage, normalize_signer_binding, assert_signer_binding,
  assert_trading_action_capability,
}
use hyper_trader.Persistence.Rows.{
  PreparedFields, assert_time, assert_prepared_action_fields, is_journal_id, is_correlation_id,
  is_lowercase_hash, stored,
}
use hyper_trader.Persistence.Tables.{
  Database, SignerScopeRow, TombstoneRow, ScopeStatus, active, retiring, retired, update_where,
  has_id,
}
use hyper_trader.Persistence.Actions.{
  Repository, require_action, register_current_process_reservation, immediate,
}

-- `getAddress` and `keccak256(stringToHex(text))` of the package viem, the second also of the JSON
-- text of a value, and the authority over the context, which throws if the epoch is not current.
pub record External : Type 0 where
  pub get_address : String → Option String
  pub keccak_text : String → String
  pub keccak_json : Value → String
  pub commit_if_current : SignerBinding → ℕ → Result (Unit {0})

-- `hyper-trader-retired-agent/v1` and a NUL, before the address.
abbrev retired_agent_prefix : String
retired_agent_prefix = "hyper-trader-retired-agent/v1" ++ String.◌∷◌ nul ""

abbrev pub new_scope : SignerBinding → ℕ → SignerScopeRow
new_scope binding now = record {
  network = binding.network;
  agent_address = binding.agent_address;
  master_account = binding.master_account;
  target_account = binding.target_account;
  signer_generation = natural binding.generation;
  status = active;
  last_issued_nonce = none;
  last_observed_wall_ms = none;
  activated_at = now;
  updated_at = now;
}

module _ (x : External) where
  -- `agentAddressFingerprint` of packages/hyperliquid/src/nonces/tombstone.ts.
  unfoldable pub agent_address_fingerprint : String → Result String
  agent_address_fingerprint address =
      if not (matches_fixed "0x" is_hex 40 address)
      then err (validation "agentAddress" "expected a 20-byte Ethereum address")
      else ok (x.keccak_text (retired_agent_prefix ++ lower_text address))

  abbrev pub is_tombstone : String → String → TombstoneRow → Bool
  is_tombstone network fingerprint row =
      str_eq row.network network && str_eq row.agent_address_fingerprint fingerprint

  -- An existing scope must be the same binding, and active; then nothing is written.
  abbrev pub register_scope : SignerBinding → ℕ → Option SignerScopeRow → Database → Result Database
  register_scope binding now (some existing) db = do
    assert_signer_binding x.get_address binding (binding_from_scope existing)
    throw_if (not (status_eq existing.status active))
        (plain_error "The signer scope is not active.")
    ok db
  register_scope binding now none db = ok (record db { scopes = new_scope binding now ∷ db.scopes })

  unfoldable pub register_active_signer :
      SignerBinding → Number → Database → Result (Unit {0} × Database)
  register_active_signer input activated_at db = do
    binding ← normalize_signer_binding x.get_address input
    assert_trading_action_capability mainnet_trading_release_stage binding.network
    now ← assert_time activated_at "activatedAt"
    fingerprint ← agent_address_fingerprint binding.agent_address
    throw_if (any (is_tombstone binding.network fingerprint) db.tombstones)
        (plain_error "A retired agent address can never become active again.")
    db' ← register_scope binding now (scope binding.network binding.agent_address db) db
    ok (tt, db')

  unfoldable pub register_active_signer_scope :
      SignerBinding → Number → Repository → Result (Unit {0}) × Repository
  register_active_signer_scope input activated_at repo =
      immediate repo (register_active_signer input activated_at repo.database)

  abbrev pub require_scope : String → String → Database → Result SignerScopeRow
  require_scope network agent db =
      or_throw (scope network agent db) (plain_error "The signer scope is not registered.")

  -- The transaction of `reservePreparedAction`.
  unfoldable pub reserve :
      SignerBinding
      → ℕ
      → ClockGateInput
      → PreparedActionInput
      → Fields
      → Database
      → Result (PreparedActionRecord × Database)
  reserve binding epoch clock action intent db = do
    row ← require_scope binding.network binding.agent_address db
    assert_signer_binding x.get_address binding (binding_from_scope row)
    throw_if (not (status_eq row.status active))
        (plain_error "The signer scope cannot issue another nonce.")
    allocation ← allocate_nonce (record {
      clock = record clock { last_observed_wall_ms = stored row.last_observed_wall_ms };
      last_issued_nonce = stored row.last_issued_nonce;
    })
    let p = is_issuing binding.network binding.agent_address (natural binding.generation)
    throw_if (not (count_if p db.scopes == 1))
        (plain_error "The signer scope changed during nonce reservation.")
    let issued = update_scopes p (set_issued allocation.nonce allocation.observed_wall_ms) db
    db' ← insert_action (prepared_row binding epoch action intent allocation) issued
    read ← require_action action.journal_id db'
    ok (read, db')

  abbrev pub hold :
      Repository
      → Result (PreparedActionRecord × Database)
      → Result PreparedActionRecord × Repository
  hold repo (err e) = (err e, repo)
  hold repo (ok (r, db)) = (
    ok r,
    register_current_process_reservation r.journal_id r.expires_after_ms r.prepared_at
        (record repo { database = db }),
  )

  -- What is checked before the context's authority runs the transaction.
  unfoldable pub reserve_action :
      AtomicActionReservationInput → Database → Result (PreparedActionRecord × Database)
  reserve_action input db = do
    binding ← normalize_signer_binding x.get_address input.binding
    assert_trading_action_capability mainnet_trading_release_stage binding.network
    throw_if
        (not (is_safe_integer input.captured_context_epoch)
          || is_negative input.captured_context_epoch)
        (type_error "capturedContextEpoch must be a non-negative integer.")
    intent ← assert_reservation_identifiers input.prepared_action
    x.commit_if_current binding (natural input.captured_context_epoch)
    reserve binding (natural input.captured_context_epoch) input.clock input.prepared_action intent
        db

  unfoldable pub reserve_prepared_action :
      AtomicActionReservationInput → Repository → Result PreparedActionRecord × Repository
  reserve_prepared_action input repo = hold repo (reserve_action input repo.database)
