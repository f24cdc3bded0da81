-- ===== src/Persistence/Chains.antt =====
-- A retirement against the chain of tombstones that it continues.
use hyper_trader.Common.{
  ℕ, suc, ◌+◌, ◌<◌, ◌≡◌, refl, sym, ap, ◌∙◌, subst, Bool, true, not, ◌&&◌, ◌||◌, String, Option,
  none, some, List, [], ◌∷◌, arith, ltb, if◌then◌else◌, str_eq, str_eq_iff, str_eq_self, Number,
  pos, natural, is_safe_integer, is_negative, ok, ok_inj, validation, throw_if, throw_if-eq-ok,
  >>-eq-ok,
}
use hyper_trader.Persistence.Tables.{TombstoneRow, insert_by}
use hyper_trader.Persistence.Signers.{External}
use hyper_trader.Persistence.Tombstones.{
  RetiredSignerTombstoneInput, empty_retirement_chain_root, ChainReason, ChainStatus, valid,
  invalid, tombstone_row, input_of_row, is_earlier, create_retired_signer_tombstone, check_root,
  check_row, verify_rows, verify_ordered, canonical, is_bounded_epoch, is_known_reason,
  validate_tombstone, assert_integer, validate_hash,
}
use hyper_trader.Persistence.Retirement.{next_sequence, head_root, same_epoch, number_is}

-- A tombstone whose root is what is computed of its own columns.
unfoldable pub IsRecomputed : External → TombstoneRow → Type 0
unfolding create_retired_signer_tombstone
IsRecomputed x row = create_retired_signer_tombstone x (input_of_row row) ≡ ok row

checked_root :
    (x : External) (row : TombstoneRow)
    → IsRecomputed x row
    → check_root x row (create_retired_signer_tombstone x (input_of_row row)) ≡ none
unfolding IsRecomputed
checked_root x row h = rw (h, str_eq_self row.chain_root) refl

checked_row :
    (x : External) (epoch : String) (index : ℕ) (prior : String) (row : TombstoneRow)
    → row.installation_epoch ≡ epoch
    → row.sequence ≡ index + 1
    → row.prior_chain_root ≡ prior
    → IsRecomputed x row
    → check_row x epoch index prior row ≡ none
unfolding check_row
checked_row x epoch index prior row e s p r =
    rw ((str_eq_iff row.installation_epoch epoch).1 e, (str_eq_iff row.prior_chain_root prior).1 p)
      (ground (arith, s, checked_root x row r))

-- What a row that passes has.
record IsPassed (epoch : String) (index : ℕ) (row : TombstoneRow) : Type 0 where
  own_epoch : row.installation_epoch ≡ epoch
  own_place : row.sequence ≡ index + 1

check_row-IsPassed :
    (x : External) (epoch : String) (index : ℕ) (prior : String) (row : TombstoneRow)
    → check_row x epoch index prior row ≡ none
    → IsPassed epoch index row
unfolding check_row
check_row-IsPassed x epoch index prior row h = record {
  own_epoch = (str_eq_iff row.installation_epoch epoch).0 (ground (arith, h));
  own_place = ground (arith, h);
}

some_valid : {a b : TombstoneRow} → valid (some a) ≡ valid (some b) → a ≡ b
some_valid e = cc

-- What a chain whose first row is there has.
verify_rows-cons :
    (x : External) (epoch : String) (index : ℕ) (prior : String) (head : Option TombstoneRow)
    (row : TombstoneRow) (rows : List TombstoneRow) {last : Option TombstoneRow}
    → verify_rows x epoch index prior head (row ∷ rows) ≡ valid last
    → (check_row x epoch index prior row ≡ none)
      × (verify_rows x epoch (suc index) row.chain_root (some row) rows ≡ valid last)
unfolding verify_rows
verify_rows-cons x epoch index prior head row rows {last} h =
    go (check_row x epoch index prior row)
      (verify_rows x epoch (suc index) row.chain_root (some row) rows) h
  where
    go :
        (o : Option ChainReason) (rest : ChainStatus)
        → (elim o as (λ _. ChainStatus) [ some reason ↦ invalid reason | none ↦ rest ]) ≡ valid last
        → (o ≡ none) × (rest ≡ valid last)
    go none rest e = (refl, e)
    go (some reason) rest e = cc

verify_rows-passed :
    (x : External) (epoch : String) (index : ℕ) (prior : String) (head : Option TombstoneRow)
    (row : TombstoneRow) (rows : List TombstoneRow)
    → check_row x epoch index prior row ≡ none
    → verify_rows x epoch index prior head (row ∷ rows)
      ≡ verify_rows x epoch (suc index) row.chain_root (some row) rows
unfolding verify_rows
verify_rows-passed x epoch index prior head row rows c =
    ap
      (λ o. elim o as (λ _. ChainStatus) [
        | some reason ↦ invalid reason
        | none ↦ verify_rows x epoch (suc index) row.chain_root (some row) rows
      ])
      c

insert_by-later :
    (row new : TombstoneRow) (rows : List TombstoneRow)
    → is_earlier row new ≡ true
    → insert_by is_earlier new (row ∷ rows) ≡ row ∷ insert_by is_earlier new rows
insert_by-later row new rows h =
    ap (λ b. if b then row ∷ insert_by is_earlier new rows else new ∷ row ∷ rows) h

-- The rows from an index on, after a row that has been passed: the row after the last is put last and
-- passed.
verify_rows-insert_by :
    (x : External) (epoch : String) (index : ℕ) (head : TombstoneRow) (rows : List TombstoneRow)
    (last new : TombstoneRow)
    → head.installation_epoch ≡ epoch
    → head.sequence ≡ index
    → verify_rows x epoch index head.chain_root (some head) rows ≡ valid (some last)
    → new.installation_epoch ≡ last.installation_epoch
    → new.sequence ≡ last.sequence + 1
    → new.prior_chain_root ≡ last.chain_root
    → IsRecomputed x new
    → (verify_rows x epoch index head.chain_root (some head) (insert_by is_earlier new rows)
        ≡ valid (some new))
      × (index < new.sequence)
unfolding verify_rows
verify_rows-insert_by x epoch index head [] last new e s h f t p r =
    let same : head ≡ last = some_valid h in
    let passed =
      checked_row x epoch index head.chain_root new
        (f ∙ sym (ap (λ (v : TombstoneRow). v.installation_epoch) same) ∙ e)
        (omega (arith, t, s, ap (λ (v : TombstoneRow). v.sequence) same))
        (p ∙ sym (ap (λ (v : TombstoneRow). v.chain_root) same)) r in
    (
      verify_rows-passed x epoch index head.chain_root (some head) new [] passed,
      omega (arith, t, s, ap (λ (v : TombstoneRow). v.sequence) same),
    )
verify_rows-insert_by x epoch index head (row ∷ rows) last new e s h f t p r =
    let (c, rest) = verify_rows-cons x epoch index head.chain_root (some head) row rows h in
    let place = check_row-IsPassed x epoch index head.chain_root row c in
    let (chain, later) =
      verify_rows-insert_by x epoch (suc index) row rows last new place.own_epoch
        (omega (arith, place.own_place)) rest f t p r in
    let earlier : is_earlier row new ≡ true = ground (arith, place.own_place, later) in
    (
      ap (verify_rows x epoch index head.chain_root (some head))
            (insert_by-later row new rows earlier)
          ∙ verify_rows-passed x epoch index head.chain_root (some head) row
              (insert_by is_earlier new rows) c
          ∙ chain,
      omega (arith, later),
    )

-- A chain with a row in it has a last one.
verify_rows-some :
    (x : External) (epoch : String) (index : ℕ) (head : TombstoneRow) (rows : List TombstoneRow)
    → verify_rows x epoch index head.chain_root (some head) rows ≡ valid none
    → ⊥
unfolding verify_rows
verify_rows-some x epoch index head [] h = absurd (ground (arith, h))
verify_rows-some x epoch index head (row ∷ rows) h =
    verify_rows-some x epoch (suc index) row rows
      (verify_rows-cons x epoch index head.chain_root (some head) row rows h).1

-- The whole chain, with a row after its last one.
pub verify_tombstone_chain-next :
    (x : External) (rows : List TombstoneRow) (head : Option TombstoneRow) (new : TombstoneRow)
    → verify_ordered x rows ≡ valid head
    → same_epoch head new.installation_epoch ≡ true
    → new.sequence ≡ next_sequence head
    → new.prior_chain_root ≡ head_root head
    → IsRecomputed x new
    → verify_ordered x (insert_by is_earlier new rows) ≡ valid (some new)
unfolding verify_rows
verify_tombstone_chain-next x [] none new h f t p r =
    verify_rows-passed x new.installation_epoch 0 empty_retirement_chain_root none new []
      (checked_row x new.installation_epoch 0 empty_retirement_chain_root new refl t p r)
verify_tombstone_chain-next x [] (some last) new h f t p r = cc
verify_tombstone_chain-next x (row ∷ rows) none new h f t p r = absurd (
    verify_rows-some x row.installation_epoch 1 row rows
      (verify_rows-cons x row.installation_epoch 0 empty_retirement_chain_root none row rows h).1)
verify_tombstone_chain-next x (row ∷ rows) (some last) new h f t p r =
    let (c, rest) =
      verify_rows-cons x row.installation_epoch 0 empty_retirement_chain_root none row rows h in
    let place = check_row-IsPassed x row.installation_epoch 0 empty_retirement_chain_root row c in
    let same = (str_eq_iff new.installation_epoch last.installation_epoch).0 f in
    let (chain, later) =
      verify_rows-insert_by x row.installation_epoch 1 row rows last new refl
        (omega (arith, place.own_place)) rest same t p r in
    let earlier : is_earlier row new ≡ true = ground (arith, place.own_place, later) in
    ap (verify_ordered x) (insert_by-later row new rows earlier)
    ∙ verify_rows-passed x row.installation_epoch 0 empty_retirement_chain_root none row
        (insert_by is_earlier new rows) c
    ∙ chain

renumbered : (n : Number) (m : ℕ) → number_is n m ≡ true → pos (natural n) ≡ n
renumbered (pos n) m h = refl
renumbered (Number.negsuc n) m h = cc
renumbered Number.other m h = cc

abbrev is_bad_integer : Number → ℕ → Bool
is_bad_integer value minimum =
    not (is_safe_integer value) || (is_negative value || ltb (natural value) minimum)

checked_integer :
    (path : String) (n : Number) (minimum : ℕ)
    → assert_integer path n minimum ≡ ok tt
    → pos (natural n) ≡ n
checked_integer path (pos n) minimum h = refl
checked_integer path (Number.negsuc n) minimum h = ground (
  arith,
  throw_if-eq-ok (is_bad_integer (Number.negsuc n) minimum)
      (validation path "expected a safe integer") h,
)
checked_integer path Number.other minimum h = ground (
  arith,
  throw_if-eq-ok (is_bad_integer Number.other minimum) (validation path "expected a safe integer")
      h,
)

same_input :
    (input : RetiredSignerTombstoneInput) (root : String)
    → validate_tombstone input ≡ ok tt
    → input_of_row (tombstone_row input root) ≡ input
unfolding validate_tombstone
same_input input root h =
    let (_, a) = >>-eq-ok (validate_hash input.prior_chain_root "priorChainRoot") _ h in
    let (_, b) =
      >>-eq-ok (validate_hash input.agent_address_fingerprint "agentAddressFingerprint") _ a in
    let (_, c) =
      >>-eq-ok
        (throw_if (not (is_bounded_epoch input.installation_epoch))
          (validation "installationEpoch" "expected a bounded opaque installation epoch"))
        _ b in
    let (_, d) =
      >>-eq-ok
        (throw_if (not (str_eq input.network "mainnet") && not (str_eq input.network "testnet"))
          (validation "network" "unknown network"))
        _ c in
    let (_, e) =
      >>-eq-ok
        (throw_if (not (is_known_reason input.reason))
          (validation "reason" "unknown retirement reason"))
        _ d in
    let (sequence, f) = >>-eq-ok (assert_integer "sequence" input.sequence 1) _ e in
    let (nonce, g) = >>-eq-ok (assert_integer "lastIssuedNonce" input.last_issued_nonce 0) _ f in
    let (generation, retired) = >>-eq-ok (assert_integer "generation" input.generation 1) _ g in
    rw
      (
        checked_integer "sequence" input.sequence 1 sequence,
        checked_integer "lastIssuedNonce" input.last_issued_nonce 0 nonce,
        checked_integer "generation" input.generation 1 generation,
        checked_integer "retiredAt" input.retired_at 0 retired,
      )
      refl

-- A tombstone that is created is the row of its input, and is recomputed from that row.
pub created-IsRecomputed :
    (x : External) (input : RetiredSignerTombstoneInput) {new : TombstoneRow}
    → create_retired_signer_tombstone x input ≡ ok new
    → (tombstone_row input (x.keccak_json (canonical input)) ≡ new) × IsRecomputed x new
unfolding IsRecomputed create_retired_signer_tombstone
created-IsRecomputed x input {new} h =
    let (valid_input, e) = >>-eq-ok (validate_tombstone input) _ h in
    let made = ok_inj e in
    (
      made,
      subst (λ (row : TombstoneRow). create_retired_signer_tombstone x (input_of_row row) ≡ ok row)
          made
          (ap (create_retired_signer_tombstone x)
              (same_input input (x.keccak_json (canonical input)) valid_input)
            ∙ h
            ∙ ap (λ row. ok row) (sym made)),
    )
