-- ===== src/Persistence/Inserted.antt =====
-- The same for the statements on signers and reservations of nonce-repository.ts.
use hyper_trader.Common.{
  ℕ, ◌≡◌, refl, sym, ◌∙◌, ap, subst, Bool, true, false, String, Option, none, some, ◌∷◌, ok, ok_inj,
  ok_snd, >>=-eq-ok, >>-eq-ok, throw_if, Number, plain_error, find-eq-some, any_of_find, str_eq,
  str_eq_iff, throw_if-eq-ok, find, any, if◌then◌else◌, natural,
}
use hyper_trader.Json.{Fields}
use hyper_trader.Nonces.{ClockGateInput, allocate_nonce}
use hyper_trader.Journal.{PreparedActionRecord}
use hyper_trader.Signing.{
  SignerBinding, normalize_signer_binding, assert_signer_binding, assert_trading_action_capability,
  assert_known_action_network,
}
use hyper_trader.Persistence.Rows.{assert_time}
use hyper_trader.Persistence.Tables.{
  Database, has_id, find_action, SignerScopeRow, ScopeStatus, active, retiring, retired,
}
use hyper_trader.Persistence.Actions.{require_action}
use hyper_trader.Persistence.Signers.{
  External, PreparedActionInput, AtomicActionReservationInput, insert_action, is_conflict,
  prepared_row, register_active_signer, register_scope, require_scope, reserve, reserve_action,
  agent_address_fingerprint, assert_reservation_identifiers, scope, is_tombstone,
  binding_from_scope,
}
use hyper_trader.Persistence.Retirement.{mark_retiring, begin_retirement, require_known_scope}
use hyper_trader.Persistence.Progress.{some_left, IsLater}

-- An action is inserted only if nothing stored conflicts with it.
pub insert_action-eq-ok :
    (new : PreparedActionRecord) (db : Database) {db' : Database}
    → insert_action new db ≡ ok db'
    → (db' ≡ record db { actions = new ∷ db.actions }) × (any (is_conflict new) db.actions ≡ false)
unfolding insert_action
insert_action-eq-ok new db {db'} h =
    let (_, h₁) = >>-eq-ok (throw_if _ _) _ h in
    let (free, h₂) = >>-eq-ok (throw_if _ _) _ h₁ in (sym (ok_inj h₂), throw_if-eq-ok _ _ free)

id_conflict :
    (new row : PreparedActionRecord) (id : String)
    → str_eq new.journal_id id ≡ true
    → has_id id row ≡ true
    → is_conflict new row ≡ true
unfolding is_conflict
id_conflict new row id e h =
    rw
      ((str_eq_iff row.journal_id new.journal_id).1
        ((str_eq_iff _ _).0 h ∙ sym ((str_eq_iff _ _).0 e)))
      refl

insert_action-IsLater :
    (new : PreparedActionRecord) (db : Database) {db' : Database}
    → insert_action new db ≡ ok db'
    → IsLater db db'
unfolding find_action
insert_action-IsLater new db h id left =
    let (inserted, free) = insert_action-eq-ok new db h in
    rw inserted (go (str_eq new.journal_id id) (find (has_id id) db.actions) refl refl free left)
  where
    go :
        (same : Bool) (found : Option PreparedActionRecord)
        → str_eq new.journal_id id ≡ same
        → find (has_id id) db.actions ≡ found
        → any (is_conflict new) db.actions ≡ false
        → some_left found ≡ true
        → some_left (if same then some new else found) ≡ true
    go false found e f free left = left
    go true none e f free left = cc
    go true (some row) e f free left = cc (
      free,
      any_of_find (has_id id) (is_conflict new) db.actions f
          (id_conflict new row id e (find-eq-some (has_id id) db.actions f)),
    )

pub same_actions-IsLater : (db db' : Database) → db'.actions ≡ db.actions → IsLater db db'
same_actions-IsLater db db' e id h = rw e h

module _ (x : External) where
  pub reserve-IsLater :
      (binding : SignerBinding) (epoch : ℕ) (clock : ClockGateInput) (action : PreparedActionInput)
      (intent : Fields) (db : Database) {r : PreparedActionRecord} {db' : Database}
      → reserve x binding epoch clock action intent db ≡ ok (r, db')
      → IsLater db db'
  unfolding reserve
  reserve-IsLater binding epoch clock action intent db h =
      let (row, _, h₁) = >>=-eq-ok (require_scope x binding.network binding.agent_address db) _ h in
      let (_, h₂) = >>-eq-ok (assert_signer_binding x.get_address binding _) _ h₁ in
      let (_, h₃) = >>-eq-ok (throw_if _ _) _ h₂ in
      let (a, _, h₄) = >>=-eq-ok (allocate_nonce _) _ h₃ in
      let (_, h₅) = >>-eq-ok (throw_if _ _) _ h₄ in
      let (d, inserted, h₆) =
        >>=-eq-ok (insert_action (prepared_row binding epoch action intent a) _) _ h₅ in
      let (_, _, h₇) = >>=-eq-ok (require_action action.journal_id d) _ h₆ in
      subst (IsLater db) (ok_snd h₇)
        (insert_action-IsLater (prepared_row binding epoch action intent a) _ inserted)

  pub reserve_action-IsLater :
      (input : AtomicActionReservationInput) (db : Database) {r : PreparedActionRecord}
      {db' : Database}
      → reserve_action x input db ≡ ok (r, db')
      → IsLater db db'
  unfolding reserve_action
  reserve_action-IsLater input db h =
      let (binding, _, h₁) = >>=-eq-ok (normalize_signer_binding x.get_address input.binding) _ h in
      let (_, h₂) = >>-eq-ok (assert_trading_action_capability _ binding.network) _ h₁ in
      let (_, h₃) = >>-eq-ok (throw_if _ _) _ h₂ in
      let (intent, _, h₄) = >>=-eq-ok (assert_reservation_identifiers input.prepared_action) _ h₃ in
      let (_, h₅) = >>-eq-ok (x.commit_if_current binding _) _ h₄ in
      reserve-IsLater binding (natural input.captured_context_epoch) input.clock
        input.prepared_action intent db h₅

  register_scope-actions :
      (binding : SignerBinding) (now : ℕ) (found : Option SignerScopeRow) (db : Database)
      {db' : Database}
      → register_scope x binding now found db ≡ ok db'
      → db'.actions ≡ db.actions
  register_scope-actions binding now none db h = ap (λ d. d.actions) (sym (ok_inj h))
  register_scope-actions binding now (some row) db h =
      let (_, h₁) = >>-eq-ok (assert_signer_binding x.get_address binding _) _ h in
      let (_, h₂) = >>-eq-ok (throw_if _ _) _ h₁ in ap (λ d. d.actions) (sym (ok_inj h₂))

  pub register_active_signer-actions :
      (input : SignerBinding) (at : Number) (db : Database) {u : Unit {0}} {db' : Database}
      → register_active_signer x input at db ≡ ok (u, db')
      → db'.actions ≡ db.actions
  unfolding register_active_signer
  register_active_signer-actions input at db h =
      let (binding, _, h₁) = >>=-eq-ok (normalize_signer_binding x.get_address input) _ h in
      let (_, h₂) = >>-eq-ok (assert_trading_action_capability _ binding.network) _ h₁ in
      let (now, _, h₃) = >>=-eq-ok (assert_time at "activatedAt") _ h₂ in
      let (fingerprint, _, h₄) =
        >>=-eq-ok (agent_address_fingerprint x binding.agent_address) _ h₃ in
      let (_, h₅) =
        >>-eq-ok
          (throw_if (any (is_tombstone x binding.network fingerprint) db.tombstones)
            (plain_error "A retired agent address can never become active again."))
          _ h₄ in
      let (d, registered, h₆) =
        >>=-eq-ok (register_scope x binding now (scope binding.network binding.agent_address db) db)
          _ h₅ in
      ap (λ d. d.actions) (sym (ok_snd h₆))
      ∙ register_scope-actions binding now (scope binding.network binding.agent_address db) db
          registered

  begin_retirement-actions :
      (binding : SignerBinding) (status : ScopeStatus) (now : ℕ) (db : Database) {u : Unit {0}}
      {db' : Database}
      → begin_retirement x binding status now db ≡ ok (u, db')
      → db'.actions ≡ db.actions
  begin_retirement-actions binding active now db h = ap (λ d. d.actions) (sym (ok_snd h))
  begin_retirement-actions binding retiring now db h = ap (λ d. d.actions) (sym (ok_snd h))
  begin_retirement-actions binding retired now db h = cc

  pub mark_retiring-actions :
      (input : SignerBinding) (at : Number) (db : Database) {u : Unit {0}} {db' : Database}
      → mark_retiring x input at db ≡ ok (u, db')
      → db'.actions ≡ db.actions
  unfolding mark_retiring
  mark_retiring-actions input at db h =
      let (binding, _, h₁) = >>=-eq-ok (normalize_signer_binding x.get_address input) _ h in
      let (_, h₂) = >>-eq-ok (assert_known_action_network _ binding.network) _ h₁ in
      let (t, _, h₃) = >>=-eq-ok (assert_time at "now") _ h₂ in
      let (row, _, h₄) =
        >>=-eq-ok (require_known_scope x binding.network binding.agent_address db) _ h₃ in
      let (_, h₅) =
        >>-eq-ok (assert_signer_binding x.get_address binding (binding_from_scope row)) _ h₄ in
      begin_retirement-actions binding row.status t db h₅
