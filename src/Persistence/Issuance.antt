-- ===== src/Persistence/Issuance.antt =====
-- What a reservation of nonce-repository.ts leaves of the signer's scope and of the journal.
use mathlib.Core.Option
use hyper_trader.Common.{
  ℕ, ◌≡◌, refl, sym, ◌∙◌, ap, subst, Bool, true, false, not, String, Option, some, List, ◌∷◌, arith,
  ok, ok_inj, >>=-eq-ok, >>-eq-ok, throw_if, natural, find-eq-some, str_eq_self, throw_if-eq-ok,
  or_throw-eq-ok, if◌then◌else◌, plain_error,
}
use hyper_trader.Json.{Fields}
use hyper_trader.Nonces.{ClockGateInput, allocate_nonce}
use hyper_trader.Nonces.Bounds.{allocate_nonce-IsAllocation, IsFresh}
use hyper_trader.Journal.{PreparedActionRecord}
use hyper_trader.Signing.{SignerBinding, normalize_signer_binding, assert_signer_binding}
use hyper_trader.Signing.Boundary.{assert_signer_binding-IsSameBinding}
use hyper_trader.Persistence.Rows.{stored}
use hyper_trader.Persistence.Tables.{
  Database, SignerScopeRow, ScopeStatus, active, find_action, find-update_where,
}
use hyper_trader.Persistence.Actions.{require_action}
use hyper_trader.Persistence.Signers.{
  External, PreparedActionInput, prepared_row, insert_action, require_scope, reserve, scope,
  is_scope, is_issuing, set_issued, update_scopes, status_eq, binding_from_scope,
}
use hyper_trader.Persistence.Progress.{require_action-eq-ok}
use hyper_trader.Persistence.Inserted.{insert_action-eq-ok}

normalize-generation :
    (get_address : String → Option String) (a : SignerBinding) {b : SignerBinding}
    → normalize_signer_binding get_address a ≡ ok b
    → b.generation ≡ a.generation
unfolding normalize_signer_binding
normalize-generation get_address a h = ground arith

pub scope_generation :
    (get_address : String → Option String) (a : SignerBinding) (row : SignerScopeRow)
    → assert_signer_binding get_address a (binding_from_scope row) ≡ ok tt
    → natural a.generation ≡ row.signer_generation
scope_generation get_address a row h =
    let (b, p, q) =
      (assert_signer_binding-IsSameBinding get_address a (binding_from_scope row)).0 h in
    ap natural (
      sym (normalize-generation get_address a p)
      ∙ normalize-generation get_address (binding_from_scope row) q)

pub active_status : (s : ScopeStatus) → not (status_eq s active) ≡ false → s ≡ active
active_status s h = ground arith

find_new :
    (new : PreparedActionRecord) (rows : List PreparedActionRecord)
    → find_action new.journal_id (new ∷ rows) ≡ some new
unfolding find_action
find_new new rows = rw (str_eq_self new.journal_id) refl

-- A reservation for `binding` has read the active scope `row`, and has written the action `r` and
-- its nonce.
pub record IsIssued (binding : SignerBinding) (db : Database) (r : PreparedActionRecord)
    (db' : Database) : Type 0 where
  pub row : SignerScopeRow
  pub found : scope binding.network binding.agent_address db ≡ some row
  pub allowed : row.status ≡ active
  pub fresh : IsFresh (stored row.last_issued_nonce) r.nonce
  pub written : db'.actions ≡ r ∷ db.actions
  pub after : SignerScopeRow
  pub kept : scope binding.network binding.agent_address db' ≡ some after
  pub issued : after.last_issued_nonce ≡ some r.nonce
  pub still_allowed : after.status ≡ active

issued_scope :
    (binding : SignerBinding) (row : SignerScopeRow) (nonce now : ℕ) (db : Database)
    → scope binding.network binding.agent_address db ≡ some row
    → row.status ≡ active
    → natural binding.generation ≡ row.signer_generation
    → scope binding.network binding.agent_address (
        update_scopes
          (is_issuing binding.network binding.agent_address (natural binding.generation))
          (set_issued nonce now)
          db)
      ≡ some (set_issued nonce now row)
unfolding scope
issued_scope binding row nonce now db found st gen =
    let p = is_issuing binding.network binding.agent_address (natural binding.generation) in
    let q = is_scope binding.network binding.agent_address in
    find-update_where q p (set_issued nonce now) db.scopes (λ r. refl)
    ∙ ap (Option.map (λ r. if p r then set_issued nonce now r else r)) found
    ∙ ap (λ b. some (if b then set_issued nonce now row else row))
        (issuing q refl (find-eq-some q db.scopes found))
  where
    issuing :
        (q : SignerScopeRow → Bool)
        → q ≡ is_scope binding.network binding.agent_address
        → q row ≡ true
        → is_issuing binding.network binding.agent_address (natural binding.generation) row ≡ true
    issuing q e h =
        let h' : is_scope binding.network binding.agent_address row ≡ true =
          sym (ap (λ f. f row) e) ∙ h in
        rw (h', st, gen) (ground arith)

-- What is read back after an insertion is what was inserted.
inserted_action :
    (new : PreparedActionRecord) (base : Database) {d : Database} {read : PreparedActionRecord}
    → insert_action new base ≡ ok d
    → require_action new.journal_id d ≡ ok read
    → (record base { actions = new ∷ base.actions } ≡ d) × (new ≡ read)
inserted_action new base {d} inserted read =
    let d_eq : d ≡ record base { actions = new ∷ base.actions } =
      (insert_action-eq-ok new base inserted).0 in
    (
      sym d_eq,
      some_inj (
          sym (find_new new base.actions)
          ∙ ap (λ e. find_action new.journal_id e.actions) (sym d_eq)
          ∙ (require_action-eq-ok new.journal_id d read).0),
    )
  where
    some_inj : {A : Type 0} {a b : A} → some a ≡ some b → a ≡ b
    some_inj e = cc

-- A reservation that succeeds finds the signer's scope active, issues a nonce above the last one
-- that the scope records, adds the action to the journal, and leaves the scope with that nonce as
-- the last one.
pub reserve-IsIssued :
    (x : External) (binding : SignerBinding) (epoch : ℕ) (clock : ClockGateInput)
    (action : PreparedActionInput) (intent : Fields) (db : Database) (r : PreparedActionRecord)
    (db' : Database)
    → reserve x binding epoch clock action intent db ≡ ok (r, db')
    → IsIssued binding db r db'
unfolding reserve scope
reserve-IsIssued x binding epoch clock action intent db r db' h =
    let (row, required, h₁) =
      >>=-eq-ok (require_scope x binding.network binding.agent_address db) _ h in
    let (same, h₂) =
      >>-eq-ok (assert_signer_binding x.get_address binding (binding_from_scope row)) _ h₁ in
    let (st, h₃) =
      >>-eq-ok
        (throw_if (not (status_eq row.status active))
          (plain_error "The signer scope cannot issue another nonce."))
        _ h₂ in
    let (a, allocated, h₄) =
      >>=-eq-ok
        (allocate_nonce (record {
          clock = record clock { last_observed_wall_ms = stored row.last_observed_wall_ms };
          last_issued_nonce = stored row.last_issued_nonce;
        }))
        _ h₃ in
    let (_, h₅) = >>-eq-ok (throw_if _ _) _ h₄ in
    let issued =
      update_scopes (is_issuing binding.network binding.agent_address (natural binding.generation))
        (set_issued a.nonce a.observed_wall_ms) db in
    let new = prepared_row binding epoch action intent a in
    let (d, inserted, h₆) = >>=-eq-ok (insert_action new issued) _ h₅ in
    let (s, read, h₇) = >>=-eq-ok (require_action action.journal_id d) _ h₆ in
    let pair = ok_inj h₇ in
    let (with_new, same_action) = inserted_action new issued inserted read in
    let r_new : new ≡ r = same_action ∙ ap (λ e. e.0) pair in
    let db_eq : record issued { actions = new ∷ issued.actions } ≡ db' =
      with_new ∙ ap (λ e. e.1) pair in
    let found = or_throw-eq-ok _ _ required in
    let allowed = active_status row.status (throw_if-eq-ok _ _ st) in
    subst (λ s. IsIssued binding db s db') r_new
      (subst (IsIssued binding db new) db_eq (record {
        row = row;
        found = found;
        allowed = allowed;
        fresh = ((allocate_nonce-IsAllocation _ a).0 allocated).fresh;
        written = refl;
        after = set_issued a.nonce a.observed_wall_ms row;
        kept =
            issued_scope binding row a.nonce a.observed_wall_ms db found allowed
              (scope_generation x.get_address binding row same);
        issued = refl;
        still_allowed = allowed;
      }))
