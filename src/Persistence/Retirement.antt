-- ===== src/Persistence/Retirement.antt =====
-- nonce-repository.ts: the retirement of a signer.
use hyper_trader.Common.{
  ℕ, ◌+◌, Bool, true, false, not, ◌&&◌, ◌||◌, String, Option, none, some, ◌∷◌, ◌==◌, str_eq, Number,
  pos, natural, Result, ok, err, plain_error, throw_if, or_throw, ◌>>=◌, ◌>>◌, any, count_if,
}
use hyper_trader.Journal.{PreparedActionRecord, is_terminal_journal_state}
use hyper_trader.Signing.{
  SignerBinding, mainnet_trading_release_stage, normalize_signer_binding, assert_signer_binding,
  assert_known_action_network,
}
use hyper_trader.Persistence.Rows.{assert_time}
use hyper_trader.Persistence.Tables.{
  Database, SignerScopeRow, TombstoneRow, ScopeStatus, active, retiring, retired,
}
use hyper_trader.Persistence.Actions.{Repository, immediate}
use hyper_trader.Persistence.Signers.{
  External, agent_address_fingerprint, binding_from_scope, is_scope, scope, status_eq,
  update_scopes,
}
use hyper_trader.Persistence.Tombstones.{
  RetiredSignerTombstoneInput, empty_retirement_chain_root, ChainStatus, valid, invalid,
  create_retired_signer_tombstone, verify_tombstone_chain,
}

abbrev pub nonce_or_zero : Option ℕ → ℕ
nonce_or_zero none = 0
nonce_or_zero (some nonce) = nonce

-- What the next tombstone must continue: the sequence number and the root.
abbrev pub next_sequence : Option TombstoneRow → ℕ
next_sequence none = 1
next_sequence (some head) = head.sequence + 1

abbrev pub head_root : Option TombstoneRow → String
head_root none = empty_retirement_chain_root
head_root (some head) = head.chain_root

abbrev pub same_epoch : Option TombstoneRow → String → Bool
same_epoch none epoch = true
same_epoch (some head) epoch = str_eq epoch head.installation_epoch

-- `===` between a number and a natural.
abbrev pub number_is : Number → ℕ → Bool
number_is (pos n) m = n == m
number_is _ m = false

module _ (x : External) where
  abbrev pub require_known_scope : String → String → Database → Result SignerScopeRow
  require_known_scope network agent db =
      or_throw (scope network agent db) (plain_error "The signer scope does not exist.")

  abbrev pub is_in_status : SignerBinding → ScopeStatus → SignerScopeRow → Bool
  is_in_status binding status row =
      is_scope binding.network binding.agent_address row && status_eq row.status status

  abbrev pub set_status : ScopeStatus → ℕ → SignerScopeRow → SignerScopeRow
  set_status status now row = record row { status = status; updated_at = now }

  abbrev pub begin_retirement :
      SignerBinding → ScopeStatus → ℕ → Database → Result (Unit {0} × Database)
  begin_retirement binding retiring now db = ok (tt, db)
  begin_retirement binding retired now db =
      err (plain_error "Only an active signer can begin retirement.")
  begin_retirement binding active now db =
      ok (tt, update_scopes (is_in_status binding active) (set_status retiring now) db)

  unfoldable pub mark_retiring : SignerBinding → Number → Database → Result (Unit {0} × Database)
  mark_retiring input now db = do
    binding ← normalize_signer_binding x.get_address input
    assert_known_action_network mainnet_trading_release_stage binding.network
    t ← assert_time now "now"
    row ← require_known_scope binding.network binding.agent_address db
    assert_signer_binding x.get_address binding (binding_from_scope row)
    begin_retirement binding row.status t db

  unfoldable pub mark_signer_retiring :
      SignerBinding → Number → Repository → Result (Unit {0}) × Repository
  mark_signer_retiring input now repo = immediate repo (mark_retiring input now repo.database)

  -- The actions of the signer that are not in a terminal state.
  abbrev pub is_pending_of : SignerBinding → PreparedActionRecord → Bool
  is_pending_of binding row =
      str_eq row.network binding.network
      && (str_eq row.agent_address binding.agent_address
          && not (is_terminal_journal_state row.state))

  abbrev pub require_terminal : String → SignerBinding → Database → Result (Unit {0})
  require_terminal reason binding db =
      throw_if
        ((str_eq reason "rotated" || str_eq reason "expired")
          && not (count_if (is_pending_of binding) db.actions == 0))
        (plain_error "Ordinary signer retirement requires terminal actions.")

  abbrev pub require_valid : ChainStatus → Result (Option TombstoneRow)
  require_valid (valid head) = ok head
  require_valid (invalid reason) = err (plain_error "The retirement chain is corrupt.")

  abbrev pub continues :
      SignerBinding
      → SignerScopeRow
      → String
      → Option TombstoneRow
      → RetiredSignerTombstoneInput
      → Bool
  continues binding row fingerprint head input =
      same_epoch head input.installation_epoch
      && (number_is input.sequence (next_sequence head)
          && (str_eq input.prior_chain_root (head_root head)
              && (str_eq input.network binding.network
                  && (str_eq input.agent_address_fingerprint fingerprint
                      && (number_is input.last_issued_nonce (nonce_or_zero row.last_issued_nonce)
                          && number_is input.generation (natural binding.generation))))))

  -- The PRIMARY KEY and UNIQUE constraints of `retired_signer_tombstones`.
  abbrev pub is_tombstone_conflict : TombstoneRow → TombstoneRow → Bool
  is_tombstone_conflict new row =
      (str_eq row.installation_epoch new.installation_epoch
        && ((row.sequence == new.sequence) || str_eq row.chain_root new.chain_root))
      || (str_eq row.network new.network
          && str_eq row.agent_address_fingerprint new.agent_address_fingerprint)

  unfoldable pub insert_tombstone : TombstoneRow → Database → Result Database
  insert_tombstone new db = do
    throw_if (any (is_tombstone_conflict new) db.tombstones) (plain_error "SQLITE_CONSTRAINT")
    ok (record db { tombstones = new ∷ db.tombstones })

  unfoldable pub retire_scope :
      SignerBinding → RetiredSignerTombstoneInput → Database → Result (TombstoneRow × Database)
  retire_scope input tombstone db = do
    binding ← normalize_signer_binding x.get_address input
    assert_known_action_network mainnet_trading_release_stage binding.network
    row ← require_known_scope binding.network binding.agent_address db
    assert_signer_binding x.get_address binding (binding_from_scope row)
    throw_if (not (status_eq row.status retiring))
        (plain_error "The signer must be locked for retirement first.")
    require_terminal tombstone.reason binding db
    head ← require_valid (verify_tombstone_chain x db)
    fingerprint ← agent_address_fingerprint x binding.agent_address
    throw_if (not (continues binding row fingerprint head tombstone))
        (plain_error "The signer retirement tombstone does not match durable state.")
    new ← create_retired_signer_tombstone x tombstone
    db' ← insert_tombstone new db
    throw_if (not (count_if (is_in_status binding retiring) db'.scopes == 1))
        (plain_error "The signer retirement lost its compare-and-swap.")
    ok (new, update_scopes (is_in_status binding retiring) (set_status retired new.retired_at) db')

  unfoldable pub retire_signer_scope :
      SignerBinding → RetiredSignerTombstoneInput → Repository → Result TombstoneRow × Repository
  retire_signer_scope input tombstone repo =
      immediate repo (retire_scope input tombstone repo.database)
