-- ===== src/Persistence/Added.antt =====
-- What a retirement adds to the chain of tombstones.
use hyper_trader.Common.{
  ℕ, ◌≡◌, sym, ap, ◌∙◌, subst, Bool, true, false, not, Option, ◌∷◌, arith, ◌==◌, str_eq, str_eq_iff,
  Number, pos, natural, ok, ok_inj, ok_snd, plain_error, throw_if, throw_if-eq-ok, >>=-eq-ok,
  >>-eq-ok, count_if, String,
}
use hyper_trader.Signing.{
  SignerBinding, normalize_signer_binding, assert_signer_binding, assert_known_action_network,
}
use hyper_trader.Persistence.Tables.{Database, SignerScopeRow, TombstoneRow, retiring}
use hyper_trader.Persistence.Signers.{
  External, agent_address_fingerprint, binding_from_scope, status_eq,
}
use hyper_trader.Persistence.Tombstones.{
  RetiredSignerTombstoneInput, ChainStatus, valid, invalid, create_retired_signer_tombstone,
  verify_tombstone_chain,
}
use hyper_trader.Persistence.Retirement.{
  next_sequence, head_root, same_epoch, number_is, require_valid, continues, insert_tombstone,
  retire_scope, is_in_status, require_terminal, require_known_scope,
}
use hyper_trader.Persistence.Chains.{IsRecomputed, created-IsRecomputed}

-- What a retirement that succeeds has done to the table of tombstones.
pub record IsRetired (x : External) (db : Database) (new : TombstoneRow) (db' : Database)
    : Type 0 where
  pub head : Option TombstoneRow
  pub was_valid : verify_tombstone_chain x db ≡ valid head
  pub inserted : db'.tombstones ≡ new ∷ db.tombstones
  pub kept : db'.actions ≡ db.actions
  pub own_epoch : same_epoch head new.installation_epoch ≡ true
  pub own_sequence : new.sequence ≡ next_sequence head
  pub own_prior : new.prior_chain_root ≡ head_root head
  pub recomputed : IsRecomputed x new

require_valid-eq-ok :
    (x : External) (s : ChainStatus) {head : Option TombstoneRow}
    → require_valid x s ≡ ok head
    → s ≡ valid head
require_valid-eq-ok x (valid h) e = ap valid (ok_inj e)
require_valid-eq-ok x (invalid reason) e = cc

continued :
    (x : External) (binding : SignerBinding) (row : SignerScopeRow) (fingerprint : String)
    (head : Option TombstoneRow) (input : RetiredSignerTombstoneInput)
    → continues x binding row fingerprint head input ≡ true
    → (same_epoch head input.installation_epoch ≡ true)
      × ((number_is input.sequence (next_sequence head) ≡ true)
          × (str_eq input.prior_chain_root (head_root head) ≡ true))
continued x binding row fingerprint head input h =
    (ground (arith, h), (ground (arith, h), ground (arith, h)))

passed_test : (b : Bool) → not b ≡ false → b ≡ true
passed_test b h = ground (arith, h)

pub number_is-natural : (n : Number) (m : ℕ) → number_is n m ≡ true → natural n ≡ m
number_is-natural (pos n) m h = ground (arith, h)
number_is-natural (Number.negsuc n) m h = cc
number_is-natural Number.other m h = cc

insert_tombstone-inserted :
    (x : External) (new : TombstoneRow) (db : Database) {db' : Database}
    → insert_tombstone x new db ≡ ok db'
    → db' ≡ record db { tombstones = new ∷ db.tombstones }
unfolding insert_tombstone
insert_tombstone-inserted x new db h = let (_, h₁) = >>-eq-ok (throw_if _ _) _ h in sym (ok_inj h₁)

-- What the columns of a new tombstone continue.
IsRetired-row :
    (x : External) (db : Database) (head : Option TombstoneRow) (new row : TombstoneRow)
    (db' : Database) (tombstone : RetiredSignerTombstoneInput)
    → verify_tombstone_chain x db ≡ valid head
    → (same_epoch head tombstone.installation_epoch ≡ true)
      × ((number_is tombstone.sequence (next_sequence head) ≡ true)
          × (str_eq tombstone.prior_chain_root (head_root head) ≡ true))
    → create_retired_signer_tombstone x tombstone ≡ ok new
    → new ≡ row
    → (db'.tombstones ≡ new ∷ db.tombstones) × (db'.actions ≡ db.actions)
    → IsRetired x db row db'
IsRetired-row x db head new row db' tombstone v (epoch, (sequence, prior)) made e (inserted, kept) =
    let (columns, recomputed) = created-IsRecomputed x tombstone made in
    let own = columns ∙ e in
    record {
      head = head;
      was_valid = v;
      inserted = inserted ∙ ap (λ r. r ∷ db.tombstones) e;
      kept = kept;
      own_epoch = ap (λ (r : TombstoneRow). same_epoch head r.installation_epoch) (sym own) ∙ epoch;
      own_sequence =
          ap (λ (r : TombstoneRow). r.sequence) (sym own)
          ∙ number_is-natural tombstone.sequence (next_sequence head) sequence;
      own_prior =
          ap (λ (r : TombstoneRow). r.prior_chain_root) (sym own)
          ∙ (str_eq_iff tombstone.prior_chain_root (head_root head)).0 prior;
      recomputed = subst (IsRecomputed x) e recomputed;
    }

pub retire_scope-IsRetired :
    (x : External) (input : SignerBinding) (tombstone : RetiredSignerTombstoneInput) (db : Database)
    {row : TombstoneRow} {db' : Database}
    → retire_scope x input tombstone db ≡ ok (row, db')
    → IsRetired x db row db'
unfolding retire_scope
retire_scope-IsRetired x input tombstone db {row} {db'} h =
    let (binding, _, h₁) = >>=-eq-ok (normalize_signer_binding x.get_address input) _ h in
    let (_, h₂) = >>-eq-ok (assert_known_action_network _ binding.network) _ h₁ in
    let (found, _, h₃) =
      >>=-eq-ok (require_known_scope x binding.network binding.agent_address db) _ h₂ in
    let (_, h₄) =
      >>-eq-ok (assert_signer_binding x.get_address binding (binding_from_scope found)) _ h₃ in
    let (_, h₅) =
      >>-eq-ok
        (throw_if (not (status_eq found.status retiring))
          (plain_error "The signer must be locked for retirement first."))
        _ h₄ in
    let (_, h₆) = >>-eq-ok (require_terminal x tombstone.reason binding db) _ h₅ in
    let (head, checked, h₇) = >>=-eq-ok (require_valid x (verify_tombstone_chain x db)) _ h₆ in
    let (fingerprint, _, h₈) = >>=-eq-ok (agent_address_fingerprint x binding.agent_address) _ h₇ in
    let (matched, h₉) =
      >>-eq-ok
        (throw_if (not (continues x binding found fingerprint head tombstone))
          (plain_error "The signer retirement tombstone does not match durable state."))
        _ h₈ in
    let (new, made, k₁) = >>=-eq-ok (create_retired_signer_tombstone x tombstone) _ h₉ in
    let (d, inserted, k₂) = >>=-eq-ok (insert_tombstone x new db) _ k₁ in
    let (_, k₃) =
      >>-eq-ok
        (throw_if (not (count_if (is_in_status x binding retiring) d.scopes == 1))
          (plain_error "The signer retirement lost its compare-and-swap."))
        _ k₂ in
    IsRetired-row x db head new row db' tombstone
      (require_valid-eq-ok x (verify_tombstone_chain x db) checked)
      (continued x binding found fingerprint head tombstone (
        passed_test (continues x binding found fingerprint head tombstone) (
          throw_if-eq-ok (not (continues x binding found fingerprint head tombstone))
            (plain_error "The signer retirement tombstone does not match durable state.") matched)))
      made (ap (λ (r : TombstoneRow × Database). r.0) (ok_inj k₃))
      (let all = insert_tombstone-inserted x new db inserted in
        (
          ap (λ (r : Database). r.tombstones) (sym (ok_snd k₃))
              ∙ ap (λ (r : Database). r.tombstones) all,
          ap (λ (r : Database). r.actions) (sym (ok_snd k₃)) ∙ ap (λ (r : Database). r.actions) all,
        ))

pub retire_scope-actions :
    (x : External) (input : SignerBinding) (tombstone : RetiredSignerTombstoneInput) (db : Database)
    {row : TombstoneRow} {db' : Database}
    → retire_scope x input tombstone db ≡ ok (row, db')
    → db'.actions ≡ db.actions
retire_scope-actions x input tombstone db h = (retire_scope-IsRetired x input tombstone db h).kept
