-- ===== src/Persistence/Signers/Inserts.antt =====
-- SqliteNonceAndJournalRepository of nonce-repository.ts: the scope of a signer, and the row that a reservation inserts.

use hyper_trader.Common.{
  ℕ, Bool, true, false, not, ◌&&◌, ◌||◌, String, Option, none, some, ◌∷◌, ◌==◌, is_some, opt_eq,
  str_eq, Number, pos, natural, Result, ok, type_error, plain_error, throw_if, ◌>>◌, any, find,
}
use hyper_trader.Json.{Value, serialize_secret_free_intent, Fields}
use hyper_trader.Nonces.{ClockGateInput, NonceAllocation}
use hyper_trader.Journal.{
  PreparedActionRecord, prepared, is_terminal_journal_state, JournalActionType, market_order,
}
use hyper_trader.Signing.{SignerBinding}
use hyper_trader.Persistence.Rows.{
  PreparedFields, assert_prepared_action_fields, is_journal_id, is_correlation_id,
  is_lowercase_hash,
}
use hyper_trader.Persistence.Tables.{
  Database, SignerScopeRow, ScopeStatus, active, retiring, retired, update_where, has_id,
}

-- The parts of the input that are the action's own.
pub record PreparedActionInput : Type 0 where
  pub journal_id : String
  pub correlation_id : String
  pub fields : PreparedFields
  pub open fields use *
  pub normalized_secret_free_intent : Value
  pub intent_digest : String
  pub equivalence_fingerprint : String

pub record AtomicActionReservationInput : Type 0 where
  pub binding : SignerBinding
  pub captured_context_epoch : Number
  pub clock : ClockGateInput
  pub prepared_action : PreparedActionInput

unfoldable pub assert_reservation_identifiers : PreparedActionInput → Result Fields
assert_reservation_identifiers input = do
  throw_if (not (is_journal_id input.journal_id))
      (type_error "journalId must be a generated opaque journal ID.")
  throw_if (not (is_correlation_id input.correlation_id))
      (type_error "correlationId must be a generated opaque action ID.")
  throw_if
      (not (is_lowercase_hash input.intent_digest)
        || not (is_lowercase_hash input.equivalence_fingerprint))
      (type_error "Intent digest and fingerprint must be lowercase hashes.")
  assert_prepared_action_fields input.fields
  serialize_secret_free_intent input.normalized_secret_free_intent

abbrev pub status_eq : ScopeStatus → ScopeStatus → Bool
status_eq active active = true
status_eq retiring retiring = true
status_eq retired retired = true
status_eq _ _ = false

abbrev pub binding_from_scope : SignerScopeRow → SignerBinding
binding_from_scope scope = record {
  network = scope.network;
  master_account = scope.master_account;
  target_account = scope.target_account;
  agent_address = scope.agent_address;
  generation = pos scope.signer_generation;
}

-- `WHERE network = ? AND agent_address = ?`
abbrev pub is_scope : String → String → SignerScopeRow → Bool
is_scope network agent row = str_eq row.network network && str_eq row.agent_address agent

unfoldable pub scope : String → String → Database → Option SignerScopeRow
scope network agent db = find (is_scope network agent) db.scopes

abbrev pub update_scopes :
    (SignerScopeRow → Bool) → (SignerScopeRow → SignerScopeRow) → Database → Database
update_scopes p f db = record db { scopes = update_where p f db.scopes }

abbrev pub is_issuing : String → String → ℕ → SignerScopeRow → Bool
is_issuing network agent generation row =
    is_scope network agent row
    && (status_eq row.status active && (row.signer_generation == generation))

abbrev pub set_issued : ℕ → ℕ → SignerScopeRow → SignerScopeRow
set_issued nonce now row = record row {
  last_issued_nonce = some nonce;
  last_observed_wall_ms = some now;
  updated_at = now;
}

-- The UNIQUE constraints of `action_journal` between a stored row and a new one, which is not in a
-- terminal state.
abbrev same_signer_nonce : PreparedActionRecord → PreparedActionRecord → Bool
same_signer_nonce row new =
    str_eq row.network new.network
    && (str_eq row.agent_address new.agent_address && (row.nonce == new.nonce))

abbrev same_cloid_key : PreparedActionRecord → PreparedActionRecord → Bool
same_cloid_key row new =
    is_some new.cloid
    && (str_eq row.network new.network
        && (str_eq row.target_account new.target_account && opt_eq str_eq row.cloid new.cloid))

-- `===` on the types of actions, as texts.
abbrev type_name : JournalActionType → String
type_name market_order = "market_order"
type_name JournalActionType.limit_order = "limit_order"
type_name JournalActionType.cancel = "cancel"
type_name JournalActionType.bulk_cancel = "bulk_cancel"
type_name JournalActionType.update_leverage = "update_leverage"
type_name JournalActionType.reduce_only_close = "reduce_only_close"
type_name JournalActionType.position_tpsl = "position_tpsl"
type_name (JournalActionType.unsupported name) = name

abbrev same_pending : PreparedActionRecord → PreparedActionRecord → Bool
same_pending row new =
    not (is_terminal_journal_state row.state)
    && (str_eq row.network new.network
        && (str_eq row.master_account new.master_account
            && (str_eq row.target_account new.target_account
                && (str_eq (type_name row.action_type) (type_name new.action_type)
                    && str_eq row.equivalence_fingerprint new.equivalence_fingerprint))))

unfoldable pub is_conflict : PreparedActionRecord → PreparedActionRecord → Bool
is_conflict new row =
    has_id new.journal_id row
    || (str_eq row.correlation_id new.correlation_id
        || (same_signer_nonce row new || (same_cloid_key row new || same_pending row new)))

-- The CHECK constraints that the columns of a new row may break, and its foreign key.
abbrev breaks_check : PreparedActionRecord → Database → Bool
breaks_check new db =
    not (str_eq new.network "mainnet" || str_eq new.network "testnet")
    || ((new.signer_generation == 0)
        || ((new.intent_version == 0)
            || not (any (is_scope new.network new.agent_address) db.scopes)))

-- `INSERT INTO action_journal`, which throws if a constraint is broken.
unfoldable pub insert_action : PreparedActionRecord → Database → Result Database
insert_action new db = do
  throw_if (breaks_check new db) (plain_error "SQLITE_CONSTRAINT")
  throw_if (any (is_conflict new) db.actions) (plain_error "SQLITE_CONSTRAINT")
  ok (record db { actions = new ∷ db.actions })

abbrev optional_natural : Option Number → Option ℕ
optional_natural none = none
optional_natural (some value) = some (natural value)

-- The row that a reservation inserts; the binding is normalized and the fields are checked.
abbrev pub prepared_row :
    SignerBinding → ℕ → PreparedActionInput → Fields → NonceAllocation → PreparedActionRecord
prepared_row binding epoch action intent allocation = record {
  journal_id = action.journal_id;
  correlation_id = action.correlation_id;
  network = binding.network;
  master_account = binding.master_account;
  target_account = binding.target_account;
  agent_address = binding.agent_address;
  signer_generation = natural binding.generation;
  captured_context_epoch = epoch;
  action_type = action.action_type;
  intent_version = natural action.intent_version;
  normalized_secret_free_intent = intent;
  intent_digest = action.intent_digest;
  equivalence_fingerprint = action.equivalence_fingerprint;
  nonce = allocation.nonce;
  expires_after_ms = allocation.expires_after_ms;
  cloid = action.cloid;
  asset_id = optional_natural action.asset_id;
  target_oid = optional_natural action.target_oid;
  reconciliation_key = action.reconciliation_key;
  prepared_at = allocation.observed_wall_ms;
  state = prepared;
  submission_started_at = none;
  last_result_class = none;
  lease_owner = none;
  lease_expires_at = none;
  reconciliation_attempts = 0;
  next_reconciliation_at = allocation.observed_wall_ms;
  created_at = allocation.observed_wall_ms;
  updated_at = allocation.observed_wall_ms;
}
