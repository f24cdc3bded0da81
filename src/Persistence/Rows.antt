-- ===== src/Persistence/Rows.antt =====
-- validation.ts, and the checks of action-journal.ts on what is stored: `assertPreparedActionFields`,
-- `assertStoredRecord` and `fromRow`.
use hyper_trader.Common.{
  ℕ, ◌-◌, Bool, true, false, not, ◌&&◌, ◌||◌, String, Option, none, some, ltb, leb, ◌==◌, is_some,
  bool_eq, if◌then◌else◌, str_eq, Number, pos, number_eq, max_safe_integer, is_safe_integer,
  is_negative, natural, Result, ok, err, type_error, throw_if, ◌>>=◌, ◌>>◌, is_digit, is_lower_hex,
  matches_fixed, matches_bounded,
}
use hyper_trader.Json.{obj, serialize_secret_free_intent}
use hyper_trader.Nonces.{action_expiry_ms}
use hyper_trader.Journal.{
  JournalActionType, market_order, limit_order, cancel, bulk_cancel, update_leverage,
  reduce_only_close, position_tpsl, unsupported, JournalState, prepared, submission_started,
  abandoned_before_submission, PreparedActionRecord, state_eq, assert_journal_result_class,
}

-- `assertTime`
unfoldable pub assert_time : Number → String → Result ℕ
assert_time value path =
    if not (is_safe_integer value) || is_negative value
    then err (type_error "must be a non-negative safe integer.")
    else ok (natural value)

unfoldable pub is_lowercase_hash : String → Bool
unfolding matches_fixed is_lower_hex
is_lowercase_hash s = matches_fixed "0x" is_lower_hex 64 s

unfoldable pub is_journal_id : String → Bool
unfolding matches_fixed is_lower_hex
is_journal_id s = matches_fixed "jrnl_" is_lower_hex 32 s

unfoldable pub is_correlation_id : String → Bool
unfolding matches_fixed is_lower_hex
is_correlation_id s = matches_fixed "act_" is_lower_hex 32 s

unfoldable pub is_lowercase_address : String → Bool
unfolding matches_fixed is_lower_hex
is_lowercase_address s = matches_fixed "0x" is_lower_hex 40 s

unfoldable pub is_cloid : String → Bool
unfolding matches_fixed is_lower_hex
is_cloid s = matches_fixed "0x" is_lower_hex 32 s

abbrev is_small : ℕ → Bool
is_small c = leb b'a' c && leb c b'z'

-- `[a-z0-9:_-]`
abbrev is_key_char : ℕ → Bool
unfolding is_digit
is_key_char c = is_small c || (is_digit c || (c == b':' || (c == b'_' || c == b'-')))

unfoldable pub is_reconciliation_key : String → Bool
unfolding matches_bounded is_digit
is_reconciliation_key s = matches_bounded is_key_char 3 256 s

-- `[A-Za-z0-9_-]`
abbrev is_owner_char : ℕ → Bool
unfolding is_digit
is_owner_char c =
    is_small c || ((leb b'A' c && leb c b'Z') || (is_digit c || (c == b'_' || c == b'-')))

unfoldable pub is_lease_owner : String → Bool
unfolding matches_bounded is_digit
is_lease_owner s = matches_bounded is_owner_char 8 64 s

unfoldable pub assert_lease_owner : String → Result (Unit {0})
assert_lease_owner owner =
    throw_if (not (is_lease_owner owner)) (type_error "Lease owner must be a bounded opaque ID.")

abbrev is_known_type : JournalActionType → Bool
is_known_type (unsupported name) = false
is_known_type _ = true

-- `!Number.isSafeInteger(value) || value < minimum`
abbrev pub is_bad_number : ℕ → Number → Bool
is_bad_number minimum value =
    not (is_safe_integer value) || (is_negative value || ltb (natural value) minimum)

abbrev is_bad_optional : ℕ → Option Number → Bool
is_bad_optional minimum none = false
is_bad_optional minimum (some value) = is_bad_number minimum value

abbrev is_bad_cloid : Option String → Bool
is_bad_cloid none = false
is_bad_cloid (some s) = not (is_cloid s)

-- The `switch` on the type of the action: which of client ID, asset and order ID it must have.
abbrev pub has_wrong_targets : JournalActionType → Bool → Bool → Bool → Bool
has_wrong_targets market_order cloid asset oid = not cloid || (not asset || oid)
has_wrong_targets limit_order cloid asset oid = not cloid || (not asset || oid)
has_wrong_targets reduce_only_close cloid asset oid = not cloid || (not asset || oid)
has_wrong_targets position_tpsl cloid asset oid = not cloid || (not asset || oid)
has_wrong_targets cancel cloid asset oid = not asset || bool_eq cloid oid
has_wrong_targets bulk_cancel cloid asset oid = asset || (cloid || oid)
has_wrong_targets update_leverage cloid asset oid = not asset || (cloid || oid)
has_wrong_targets (unsupported name) cloid asset oid = true

-- The fields that `assertPreparedActionFields` picks.
pub record PreparedFields : Type 0 where
  pub action_type : JournalActionType
  pub intent_version : Number
  pub cloid : Option String
  pub asset_id : Option Number
  pub target_oid : Option Number
  pub reconciliation_key : String

abbrev pub stored : Option ℕ → Option Number
stored none = none
stored (some n) = some (pos n)

abbrev pub prepared_fields : PreparedActionRecord → PreparedFields
prepared_fields r = record {
  action_type = r.action_type;
  intent_version = pos r.intent_version;
  cloid = r.cloid;
  asset_id = stored r.asset_id;
  target_oid = stored r.target_oid;
  reconciliation_key = r.reconciliation_key;
}

unfoldable pub assert_prepared_action_fields : PreparedFields → Result (Unit {0})
assert_prepared_action_fields r = do
  throw_if (not (is_known_type r.action_type))
      (type_error "actionType is not supported by this journal version.")
  throw_if (not (number_eq r.intent_version 1))
      (type_error "intentVersion is not supported by this repository.")
  throw_if (is_bad_cloid r.cloid) (type_error "cloid must be a lowercase 128-bit client order ID.")
  throw_if (is_bad_optional 0 r.asset_id)
      (type_error "assetId must be a non-negative safe integer when present.")
  throw_if (is_bad_optional 1 r.target_oid)
      (type_error "targetOid must be a positive safe integer when present.")
  throw_if (not (is_reconciliation_key r.reconciliation_key))
      (type_error "reconciliationKey must be a bounded derived identifier.")
  throw_if
      (has_wrong_targets r.action_type (is_some r.cloid) (is_some r.asset_id)
        (is_some r.target_oid))
      (type_error "the action type requires other targets.")

-- `assertStoredRecord`, in three parts that follow one another.
unfoldable pub assert_stored_identity : PreparedActionRecord → Result (Unit {0})
assert_stored_identity r = do
  throw_if (not (is_journal_id r.journal_id) || not (is_correlation_id r.correlation_id))
      (type_error "The stored action has an invalid opaque identifier.")
  throw_if
      ((not (str_eq r.network "mainnet") && not (str_eq r.network "testnet"))
        || (not (is_lowercase_address r.master_account)
            || (not (is_lowercase_address r.target_account)
                || not (is_lowercase_address r.agent_address))))
      (type_error "The stored action has an invalid signer binding.")
  throw_if
      (not (is_lowercase_hash r.intent_digest) || not (is_lowercase_hash r.equivalence_fingerprint))
      (type_error "The stored action has an invalid digest.")

abbrev assert_stored_number : ℕ → ℕ → Result (Unit {0})
assert_stored_number minimum n =
    throw_if (is_bad_number minimum (pos n)) (type_error "The stored action has an invalid number.")

unfoldable pub assert_stored_numbers : PreparedActionRecord → Result (Unit {0})
assert_stored_numbers r = do
  assert_stored_number 1 r.signer_generation
  assert_stored_number 0 r.captured_context_epoch
  assert_stored_number 0 r.nonce
  assert_stored_number 0 r.expires_after_ms
  assert_stored_number 0 r.prepared_at
  assert_stored_number 0 r.reconciliation_attempts
  assert_stored_number 0 r.next_reconciliation_at
  assert_stored_number 0 r.created_at
  assert_stored_number 0 r.updated_at
  throw_if (leb r.expires_after_ms r.nonce || ltb action_expiry_ms (r.expires_after_ms - r.nonce))
      (type_error "The stored action expiry must be after its nonce and within 15 seconds.")

abbrev pub is_unsubmitted : JournalState → Bool
is_unsubmitted state = state_eq state prepared || state_eq state abandoned_before_submission

-- The four alternatives of the test on the submission marker, by what the marker holds.
abbrev has_bad_marker : PreparedActionRecord → Option ℕ → Bool
has_bad_marker r none = not (is_unsubmitted r.state)
has_bad_marker r (some started) =
    (ltb max_safe_integer started || ltb started r.prepared_at)
    || (is_unsubmitted r.state || leb r.expires_after_ms started)

abbrev pub is_reconcilable : JournalState → Bool
is_reconcilable state = state_eq state submission_started || state_eq state JournalState.unresolved

abbrev assert_lease : PreparedActionRecord → Option String → Option ℕ → Result (Unit {0})
assert_lease r none none = ok tt
assert_lease r (some owner) (some expires) = do
  assert_lease_owner owner
  throw_if (ltb max_safe_integer expires) (type_error "must be a non-negative safe integer.")
  throw_if (not (is_reconcilable r.state))
      (type_error "Only a reconcilable action may hold a lease.")
assert_lease r _ _ = err (type_error "The stored action has an incomplete lease.")

unfoldable pub assert_stored_progress : PreparedActionRecord → Result (Unit {0})
unfolding assert_journal_result_class
assert_stored_progress r = do
  assert_journal_result_class r.state r.last_result_class
  throw_if (has_bad_marker r r.submission_started_at)
      (type_error "The stored action has an inconsistent submission marker.")
  assert_lease r r.lease_owner r.lease_expires_at

-- `JOURNAL_STATE_SET.has(state)` holds of every value of the type of states.
unfoldable pub assert_stored_record : PreparedActionRecord → Result (Unit {0})
assert_stored_record r = do
  assert_stored_identity r
  assert_stored_numbers r
  assert_prepared_action_fields (prepared_fields r)
  assert_stored_progress r

-- A row is read into the record whose fields it has, if it passes the checks.
unfoldable pub from_row : PreparedActionRecord → Result PreparedActionRecord
from_row row = do
  intent ← serialize_secret_free_intent (obj row.normalized_secret_free_intent)
  assert_stored_record row
  ok row
