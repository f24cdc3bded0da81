-- ===== src/Persistence/Retired.antt =====
-- Which signers' retirements succeed, and what they do to the chain and its manifest.
use hyper_trader.Persistence.Added.{IsRetired, number_is-natural, retire_scope-IsRetired}
use hyper_trader.Common.{
  ℕ, ◌+◌, ◌≡◌, refl, sym, ap, ◌∙◌, true, false, Option, none, some, List, ◌∷◌, arith, str_eq,
  str_eq_iff, str_eq_self, Number, pos, natural, ok,
}
use hyper_trader.Signing.{SignerBinding}
use hyper_trader.Persistence.Tables.{Database, TombstoneRow, order_by}
use hyper_trader.Persistence.Signers.{External}
use hyper_trader.Persistence.Tombstones.{
  RetiredSignerTombstoneInput, empty_retirement_chain_root, valid, is_earlier,
  verify_tombstone_chain,
}
use hyper_trader.Persistence.Retirement.{next_sequence, head_root, number_is, retire_scope}
use hyper_trader.Persistence.Manifest.{
  RetirementManifest, same, sqlite_ahead, is_bad_manifest, compare_chain, compare_head,
  compare_retirement_manifest,
}
use hyper_trader.Persistence.Chains.{verify_tombstone_chain-next}

-- A manifest that matches the chain's head is not ahead of the chain.
record IsMatched (head : Option TombstoneRow) (manifest : RetirementManifest) : Type 0 where
  own_place : natural manifest.sequence + 1 ≡ next_sequence head
  own_root : head_root head ≡ manifest.chain_root

compare_head-IsMatched :
    (rows : List TombstoneRow) (manifest : RetirementManifest) (head : TombstoneRow)
    → compare_head rows manifest head ≡ same
    → (number_is manifest.sequence head.sequence ≡ true)
      × (str_eq head.chain_root manifest.chain_root ≡ true)
compare_head-IsMatched rows manifest head h = (ground (arith, h), ground (arith, h))

compare_chain-IsMatched :
    (rows : List TombstoneRow) (manifest : RetirementManifest) (head : Option TombstoneRow)
    → compare_chain rows manifest (valid head) ≡ same
    → IsMatched head manifest
compare_chain-IsMatched rows manifest none h = record {
  own_place = omega (arith, number_is-natural manifest.sequence 0 (ground (arith, h)));
  own_root =
      sym ((str_eq_iff manifest.chain_root empty_retirement_chain_root).0 (ground (arith, h)));
}
compare_chain-IsMatched rows manifest (some head) h =
    let (sequence, root) = compare_head-IsMatched rows manifest head h in
    record {
      own_place = ap (λ n. n + 1) (number_is-natural manifest.sequence head.sequence sequence);
      own_root = (str_eq_iff head.chain_root manifest.chain_root).0 root;
    }

not_yet : (n : Number) (m : ℕ) → natural n + 1 ≡ m → number_is n m ≡ false
not_yet (pos n) m h = ground (arith, h)
not_yet (Number.negsuc n) m h = refl
not_yet Number.other m h = refl

compare_head-next :
    (new : TombstoneRow) (rows : List TombstoneRow) (manifest : RetirementManifest)
    → manifest.installation_epoch ≡ new.installation_epoch
    → natural manifest.sequence + 1 ≡ new.sequence
    → new.prior_chain_root ≡ manifest.chain_root
    → compare_head (new ∷ rows) manifest new ≡ sqlite_ahead new.sequence new.chain_root
compare_head-next new rows manifest e s r = ground (
  arith,
  (str_eq_iff new.installation_epoch manifest.installation_epoch).1 (sym e),
  not_yet manifest.sequence new.sequence s,
  s,
  str_eq_self new.installation_epoch,
  (str_eq_iff new.prior_chain_root manifest.chain_root).1 r,
)

compare_head-same :
    (new : TombstoneRow) (rows : List TombstoneRow) (manifest : RetirementManifest)
    → manifest.installation_epoch ≡ new.installation_epoch
    → manifest.sequence ≡ pos new.sequence
    → manifest.chain_root ≡ new.chain_root
    → compare_head rows manifest new ≡ same
compare_head-same new rows manifest e s r =
    rw (s, e, r, str_eq_self new.installation_epoch, str_eq_self new.chain_root) (ground arith)

verify_tombstone_chain-retired :
    (x : External) (db : Database) (new : TombstoneRow) (db' : Database)
    → IsRetired x db new db'
    → verify_tombstone_chain x db' ≡ valid (some new)
unfolding verify_tombstone_chain
verify_tombstone_chain-retired x db new db' r = rw (r.inserted) (
    verify_tombstone_chain-next x (order_by is_earlier db.tombstones) r.head new r.was_valid
      r.own_epoch r.own_sequence r.own_prior r.recomputed)

compare_retirement_manifest-valid :
    (x : External) (manifest : RetirementManifest) (db : Database) {head : Option TombstoneRow}
    → is_bad_manifest manifest ≡ false
    → verify_tombstone_chain x db ≡ valid head
    → compare_retirement_manifest x manifest db ≡ compare_chain db.tombstones manifest (valid head)
unfolding compare_retirement_manifest
compare_retirement_manifest-valid x manifest db good v = rw (good, v) refl

compare_retirement_manifest-next :
    (x : External) (db : Database) (new : TombstoneRow) (db' : Database)
    (manifest : RetirementManifest)
    → IsRetired x db new db'
    → is_bad_manifest manifest ≡ false
    → compare_retirement_manifest x manifest db ≡ same
    → manifest.installation_epoch ≡ new.installation_epoch
    → compare_retirement_manifest x manifest db' ≡ sqlite_ahead new.sequence new.chain_root
compare_retirement_manifest-next x db new db' manifest r good matched e =
    let before =
      compare_chain-IsMatched db.tombstones manifest r.head
        (sym (compare_retirement_manifest-valid x manifest db good r.was_valid) ∙ matched) in
    compare_retirement_manifest-valid x manifest db' good
      (verify_tombstone_chain-retired x db new db' r)
    ∙ ap (λ rows. compare_head rows manifest new) r.inserted
    ∙ compare_head-next new db.tombstones manifest e (before.own_place ∙ sym r.own_sequence)
        (r.own_prior ∙ before.own_root)

-- What the device keeps once it has written a tombstone to its manifest.
abbrev pub manifest_of : TombstoneRow → RetirementManifest
manifest_of row = record {
  installation_epoch = row.installation_epoch;
  sequence = pos row.sequence;
  chain_root = row.chain_root;
}

-- For a retirement that succeeds, from a database that a well-formed manifest with the epoch of the
-- new tombstone matches, and if the manifest of the new tombstone is well formed: afterwards the chain
-- of tombstones is valid and its last row is the new tombstone; the old manifest is found behind the
-- database, which names the new tombstone's sequence number and root; and the new one matches.
pub retire_scope-IsOneAhead :
    (x : External) (input : SignerBinding) (tombstone : RetiredSignerTombstoneInput) (db : Database)
    (new : TombstoneRow) (db' : Database) (manifest : RetirementManifest)
    → retire_scope x input tombstone db ≡ ok (new, db')
    → is_bad_manifest manifest ≡ false
    → is_bad_manifest (manifest_of new) ≡ false
    → manifest.installation_epoch ≡ new.installation_epoch
    → compare_retirement_manifest x manifest db ≡ same
    → (verify_tombstone_chain x db' ≡ valid (some new))
      × ((compare_retirement_manifest x manifest db' ≡ sqlite_ahead new.sequence new.chain_root)
          × (compare_retirement_manifest x (manifest_of new) db' ≡ same))
retire_scope-IsOneAhead x input tombstone db new db' manifest h good good' e matched =
    let r = retire_scope-IsRetired x input tombstone db h in
    let chain = verify_tombstone_chain-retired x db new db' r in
    (
      chain,
      (
        compare_retirement_manifest-next x db new db' manifest r good matched e,
        compare_retirement_manifest-valid x (manifest_of new) db' good' chain
            ∙ compare_head-same new db'.tombstones (manifest_of new) refl refl refl,
      ),
    )
