-- ===== src/Examples/Retirement.antt =====
-- A second signer is retired, after a chain of one tombstone.
use hyper_trader.Examples.Computed.{computed}
use hyper_trader.Common.{suc, ◌≡◌, refl, false, String, none, some, [], ◌∷◌, pos, ok}
use hyper_trader.Json.{Value, num, arr, cons}
use hyper_trader.Signing.{SignerBinding}
use hyper_trader.Persistence.Tables.{Database, TombstoneRow, retiring, retired}
use hyper_trader.Persistence.Signers.{External}
use hyper_trader.Persistence.Tombstones.{
  RetiredSignerTombstoneInput, valid, empty_retirement_chain_root, verify_tombstone_chain,
}
use hyper_trader.Persistence.Retirement.{retire_scope}
use hyper_trader.Persistence.Manifest.{
  RetirementManifest, same, sqlite_ahead, is_bad_manifest, compare_retirement_manifest,
}
use hyper_trader.Persistence.Retired.{manifest_of, retire_scope-IsOneAhead}

abbrev epoch : String
epoch = "installation-0001"

abbrev agent : String
agent = "0xcccccccccccccccccccccccccccccccccccccccc"

abbrev fingerprint : String
fingerprint = "0xdddddddddddddddddddddddddddddddddddddddddddddddddddddddddddddddd"

abbrev first_root : String
first_root = "0x1111111111111111111111111111111111111111111111111111111111111111"

abbrev second_root : String
second_root = "0x2222222222222222222222222222222222222222222222222222222222222222"

-- The root of a tombstone that follows the first one, and of any other.
abbrev root_of : Value → String
root_of (arr (cons tag (cons own (cons (num (pos (suc (suc n)))) rest)))) = second_root
root_of value = first_root

-- Addresses are read as they are written, and every address has one fingerprint.
abbrev external : External
external = record {
  get_address = λ a. some a;
  keccak_text = λ _. fingerprint;
  keccak_json = root_of;
  commit_if_current = λ _ _. ok tt;
}

abbrev binding : SignerBinding
binding = record {
  network = "testnet";
  master_account = "0xaaaaaaaaaaaaaaaaaaaaaaaaaaaaaaaaaaaaaaaa";
  target_account = "0xbbbbbbbbbbbbbbbbbbbbbbbbbbbbbbbbbbbbbbbb";
  agent_address = agent;
  generation = pos 2;
}

abbrev first : TombstoneRow
first = record {
  installation_epoch = epoch;
  sequence = 1;
  prior_chain_root = empty_retirement_chain_root;
  chain_root = first_root;
  network = "testnet";
  agent_address_fingerprint = "0xeeeeeeeeeeeeeeeeeeeeeeeeeeeeeeeeeeeeeeeeeeeeeeeeeeeeeeeeeeeeeeee";
  last_issued_nonce = 5;
  signer_generation = 1;
  retired_at = 10;
  reason = "rotated";
}

abbrev database : Database
database = record {
  actions = [];
  scopes =
      record {
        network = "testnet";
        agent_address = agent;
        master_account = binding.master_account;
        target_account = binding.target_account;
        signer_generation = 2;
        status = retiring;
        last_issued_nonce = some 1_000_400;
        last_observed_wall_ms = none;
        activated_at = 1;
        updated_at = 1;
      }
      ∷ [];
  tombstones = first ∷ [];
}

abbrev input : RetiredSignerTombstoneInput
input = record {
  installation_epoch = epoch;
  sequence = pos 2;
  prior_chain_root = first_root;
  network = "testnet";
  agent_address_fingerprint = fingerprint;
  last_issued_nonce = pos 1_000_400;
  generation = pos 2;
  retired_at = pos 20;
  reason = "rotated";
}

abbrev manifest : RetirementManifest
manifest = record { installation_epoch = epoch; sequence = pos 1; chain_root = first_root }

abbrev new : TombstoneRow
new = record {
  installation_epoch = epoch;
  sequence = 2;
  prior_chain_root = first_root;
  chain_root = second_root;
  network = "testnet";
  agent_address_fingerprint = fingerprint;
  last_issued_nonce = 1_000_400;
  signer_generation = 2;
  retired_at = 20;
  reason = "rotated";
}

-- The scope of the signer is retired at the time of the tombstone.
abbrev after : Database
after = record {
  actions = [];
  scopes =
      record {
        network = "testnet";
        agent_address = agent;
        master_account = binding.master_account;
        target_account = binding.target_account;
        signer_generation = 2;
        status = retired;
        last_issued_nonce = some 1_000_400;
        last_observed_wall_ms = none;
        activated_at = 1;
        updated_at = 20;
      }
      ∷ [];
  tombstones = new ∷ first ∷ [];
}

retires : retire_scope external binding input database ≡ ok (new, after)
unfolding computed
retires = refl

kept_good : is_bad_manifest manifest ≡ false
unfolding hyper_trader.Persistence.Rows.is_lowercase_hash
kept_good = refl

new_good : is_bad_manifest (manifest_of new) ≡ false
unfolding hyper_trader.Persistence.Rows.is_lowercase_hash
new_good = refl

matched : compare_retirement_manifest external manifest database ≡ same
unfolding computed
matched = refl

retire_scope-IsOneAhead_example :
    (verify_tombstone_chain external after ≡ valid (some new))
    × ((compare_retirement_manifest external manifest after
          ≡ sqlite_ahead new.sequence new.chain_root)
        × (compare_retirement_manifest external (manifest_of new) after ≡ same))
retire_scope-IsOneAhead_example =
    retire_scope-IsOneAhead external binding input database new after manifest retires kept_good
      new_good refl matched
