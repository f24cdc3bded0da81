-- ===== src/Persistence/Manifest.antt =====
-- nonce-repository.ts: `compareRetirementManifest`, which compares the manifest that the device keeps
-- outside SQLite with the chain of tombstones.
use hyper_trader.Common.{
  ℕ, ◌+◌, Bool, false, not, ◌&&◌, ◌||◌, String, Option, none, some, List, ◌==◌, if◌then◌else◌,
  str_eq, Number, natural, is_safe_integer, is_negative, find,
}
use hyper_trader.Persistence.Rows.{is_lowercase_hash}
use hyper_trader.Persistence.Tables.{Database, TombstoneRow}
use hyper_trader.Persistence.Signers.{External}
use hyper_trader.Persistence.Tombstones.{
  ChainReason, ChainStatus, valid, invalid, empty_retirement_chain_root, is_bounded_epoch,
  verify_tombstone_chain,
}
use hyper_trader.Persistence.Retirement.{number_is}

pub record RetirementManifest : Type 0 where
  pub installation_epoch : String
  pub sequence : Number
  pub chain_root : String

pub data QuarantineReason : Type 0 where
  invalid_manifest manifest_ahead_or_sqlite_restored : QuarantineReason
  installation_epoch_mismatch retirement_chain_mismatch : QuarantineReason
  broken_chain : ChainReason → QuarantineReason

-- `same` is the status "match".
pub data RetirementManifestComparison : Type 0 where
  same : RetirementManifestComparison
  sqlite_ahead : (sequence : ℕ) (chain_root : String) → RetirementManifestComparison
  quarantine : QuarantineReason → RetirementManifestComparison

abbrev pub is_bad_manifest : RetirementManifest → Bool
is_bad_manifest manifest =
    not (is_safe_integer manifest.sequence)
    || (is_negative manifest.sequence
        || (not (is_lowercase_hash manifest.chain_root)
            || not (is_bounded_epoch manifest.installation_epoch)))

-- `SELECT prior_chain_root … WHERE installation_epoch = ? AND sequence = ?`
abbrev pub is_row_of : TombstoneRow → TombstoneRow → Bool
is_row_of head row =
    str_eq row.installation_epoch head.installation_epoch && (row.sequence == head.sequence)

abbrev pub has_prior_root : String → Option TombstoneRow → Bool
has_prior_root root none = false
has_prior_root root (some row) = str_eq row.prior_chain_root root

abbrev pub compare_head :
    List TombstoneRow → RetirementManifest → TombstoneRow → RetirementManifestComparison
compare_head rows manifest head =
    if not (str_eq head.installation_epoch manifest.installation_epoch)
    then quarantine installation_epoch_mismatch
    else if number_is manifest.sequence head.sequence && str_eq head.chain_root manifest.chain_root
    then same
    else if (head.sequence == natural manifest.sequence + 1)
        && has_prior_root manifest.chain_root (find (is_row_of head) rows)
    then sqlite_ahead head.sequence head.chain_root
    else quarantine retirement_chain_mismatch

abbrev pub compare_chain :
    List TombstoneRow → RetirementManifest → ChainStatus → RetirementManifestComparison
compare_chain rows manifest (invalid reason) = quarantine (broken_chain reason)
compare_chain rows manifest (valid none) =
    if number_is manifest.sequence 0 && str_eq manifest.chain_root empty_retirement_chain_root
    then same
    else quarantine manifest_ahead_or_sqlite_restored
compare_chain rows manifest (valid (some head)) = compare_head rows manifest head

unfoldable pub compare_retirement_manifest :
    External → RetirementManifest → Database → RetirementManifestComparison
compare_retirement_manifest x manifest db =
    if is_bad_manifest manifest
    then quarantine invalid_manifest
    else compare_chain db.tombstones manifest (verify_tombstone_chain x db)
