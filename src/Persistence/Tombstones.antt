-- ===== src/Persistence/Tombstones.antt =====
-- packages/hyperliquid/src/nonces/tombstone.ts: the tombstone of a retired signer, and the check of
-- the chain of tombstones in nonce-repository.ts.
use hyper_trader.Common.{
  ℕ, suc, ◌+◌, Bool, not, ◌&&◌, ◌||◌, String, Option, none, some, List, [], ◌∷◌, ltb, leb, ◌==◌,
  if◌then◌else◌, str_eq, Number, pos, is_safe_integer, is_negative, natural, Result, ok, err,
  validation, throw_if, ◌>>◌, codes, utf16_units, length,
}
use hyper_trader.Json.{Value, num, str, arr, cons, nil}
use hyper_trader.Persistence.Rows.{is_lowercase_hash}
use hyper_trader.Persistence.Tables.{Database, TombstoneRow, order_by}
use hyper_trader.Persistence.Signers.{External}

pub record RetiredSignerTombstoneInput : Type 0 where
  pub installation_epoch : String
  pub sequence : Number
  pub prior_chain_root : String
  pub network : String
  pub agent_address_fingerprint : String
  pub last_issued_nonce : Number
  pub generation : Number
  pub retired_at : Number
  pub reason : String

-- `zeroHash` of the package viem: 32 bytes of zeros.
abbrev pub empty_retirement_chain_root : String
empty_retirement_chain_root = "0x0000000000000000000000000000000000000000000000000000000000000000"

abbrev pub is_known_reason : String → Bool
is_known_reason reason =
    str_eq reason "rotated"
    || (str_eq reason "revoked"
        || (str_eq reason "expired"
            || (str_eq reason "credential_lost"
                || str_eq reason "external_revocation_unconfirmed")))

unfoldable pub validate_hash : String → String → Result (Unit {0})
unfolding is_lowercase_hash
validate_hash value path =
    throw_if (not (is_lowercase_hash value)) (validation path "expected a 32-byte lowercase hash")

-- `length` of a text of the first plane; the bounds are those of the source.
abbrev pub is_bounded_epoch : String → Bool
is_bounded_epoch epoch =
    leb 16 (length (utf16_units (codes epoch))) && leb (length (utf16_units (codes epoch))) 128

abbrev pub assert_integer : String → Number → ℕ → Result (Unit {0})
assert_integer path value minimum =
    throw_if (not (is_safe_integer value) || (is_negative value || ltb (natural value) minimum))
      (validation path "expected a safe integer")

unfoldable pub validate_tombstone : RetiredSignerTombstoneInput → Result (Unit {0})
validate_tombstone input = do
  validate_hash input.prior_chain_root "priorChainRoot"
  validate_hash input.agent_address_fingerprint "agentAddressFingerprint"
  throw_if (not (is_bounded_epoch input.installation_epoch))
      (validation "installationEpoch" "expected a bounded opaque installation epoch")
  throw_if (not (str_eq input.network "mainnet") && not (str_eq input.network "testnet"))
      (validation "network" "unknown network")
  throw_if (not (is_known_reason input.reason)) (validation "reason" "unknown retirement reason")
  assert_integer "sequence" input.sequence 1
  assert_integer "lastIssuedNonce" input.last_issued_nonce 0
  assert_integer "generation" input.generation 1
  assert_integer "retiredAt" input.retired_at 0

-- The array that is hashed.
abbrev pub canonical : RetiredSignerTombstoneInput → Value
canonical input = arr (
    cons (str "hyper-trader-retirement/v1") (
      cons (str input.installation_epoch) (
        cons (num input.sequence) (
          cons (str input.prior_chain_root) (
            cons (str input.network) (
              cons (str input.agent_address_fingerprint) (
                cons (num input.last_issued_nonce) (
                  cons (num input.generation)
                    (cons (num input.retired_at) (cons (str input.reason) nil))))))))))

abbrev pub tombstone_row : RetiredSignerTombstoneInput → String → TombstoneRow
tombstone_row input root = record {
  installation_epoch = input.installation_epoch;
  sequence = natural input.sequence;
  prior_chain_root = input.prior_chain_root;
  chain_root = root;
  network = input.network;
  agent_address_fingerprint = input.agent_address_fingerprint;
  last_issued_nonce = natural input.last_issued_nonce;
  signer_generation = natural input.generation;
  retired_at = natural input.retired_at;
  reason = input.reason;
}

abbrev pub input_of_row : TombstoneRow → RetiredSignerTombstoneInput
input_of_row row = record {
  installation_epoch = row.installation_epoch;
  sequence = pos row.sequence;
  prior_chain_root = row.prior_chain_root;
  network = row.network;
  agent_address_fingerprint = row.agent_address_fingerprint;
  last_issued_nonce = pos row.last_issued_nonce;
  generation = pos row.signer_generation;
  retired_at = pos row.retired_at;
  reason = row.reason;
}

pub data ChainReason : Type 0 where
  retirement_chain_gap_or_link retirement_chain_root_mismatch retirement_chain_invalid_row :
      ChainReason

pub data ChainStatus : Type 0 where
  valid : Option TombstoneRow → ChainStatus
  invalid : ChainReason → ChainStatus

-- `ORDER BY sequence`
abbrev pub is_earlier : TombstoneRow → TombstoneRow → Bool
is_earlier a b = ltb a.sequence b.sequence

module _ (x : External) where
  unfoldable pub create_retired_signer_tombstone : RetiredSignerTombstoneInput → Result TombstoneRow
  create_retired_signer_tombstone input = do
    validate_tombstone input
    ok (tombstone_row input (x.keccak_json (canonical input)))

  -- One row of the loop of `verifyTombstoneChain`.
  abbrev pub check_root : TombstoneRow → Result TombstoneRow → Option ChainReason
  check_root row (err e) = some retirement_chain_invalid_row
  check_root row (ok recomputed) =
      if str_eq recomputed.chain_root row.chain_root
      then none
      else some retirement_chain_root_mismatch

  unfoldable pub check_row : String → ℕ → String → TombstoneRow → Option ChainReason
  check_row epoch index prior row =
      if not (str_eq row.installation_epoch epoch)
        || (not (row.sequence == index + 1) || not (str_eq row.prior_chain_root prior))
      then some retirement_chain_gap_or_link
      else check_root row (create_retired_signer_tombstone (input_of_row row))

  -- The loop from an index on, with the root before it and the last row that it has passed.
  unfoldable pub verify_rows :
      String → ℕ → String → Option TombstoneRow → List TombstoneRow → ChainStatus
  verify_rows epoch index prior head [] = valid head
  verify_rows epoch index prior head (row ∷ rows) =
      let rest = verify_rows epoch (suc index) row.chain_root (some row) rows in
      elim (check_row epoch index prior row) [ some reason ↦ invalid reason | none ↦ rest ]

  abbrev pub verify_ordered : List TombstoneRow → ChainStatus
  verify_ordered [] = valid none
  verify_ordered (row ∷ rows) =
      verify_rows row.installation_epoch 0 empty_retirement_chain_root none (row ∷ rows)

  unfoldable pub verify_tombstone_chain : Database → ChainStatus
  verify_tombstone_chain db = verify_ordered (order_by is_earlier db.tombstones)
