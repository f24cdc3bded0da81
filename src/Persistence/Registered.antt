-- ===== src/Persistence/Registered.antt =====
-- What a registration of nonce-repository.ts establishes of the signer.
use hyper_trader.Common.{
  ℕ, ◌≡◌, refl, subst, false, not, String, Option, none, some, ◌∷◌, ok, ok_inj, ok_snd, >>=-eq-ok,
  >>-eq-ok, throw_if, throw_if-eq-ok, Number, natural, any, str_eq_self, plain_error,
}
use hyper_trader.Signing.{
  SignerBinding, normalize_signer_binding, assert_signer_binding, assert_trading_action_capability,
}
use hyper_trader.Persistence.Rows.{assert_time}
use hyper_trader.Persistence.Tables.{Database, SignerScopeRow, active}
use hyper_trader.Persistence.Signers.{
  External, binding_from_scope, status_eq, scope, is_tombstone, agent_address_fingerprint,
  register_scope, register_active_signer, new_scope,
}
use hyper_trader.Persistence.Issuance.{scope_generation, active_status}

-- The scope of the binding is there, active, and of the binding's generation.
abbrev pub IsActiveScope : SignerBinding → Database → Type 0
IsActiveScope binding db =
    (row : SignerScopeRow) × (scope binding.network binding.agent_address db ≡ some row)
    × (row.status ≡ active)
    × (natural binding.generation ≡ row.signer_generation)

new_scope-IsActiveScope :
    (x : External) (binding : SignerBinding) (now : ℕ) (db : Database)
    → IsActiveScope binding (record db { scopes = new_scope binding now ∷ db.scopes })
unfolding scope
new_scope-IsActiveScope x binding now db = (
  new_scope binding now,
  rw (str_eq_self binding.network, str_eq_self binding.agent_address) refl,
  refl,
  refl,
)

register_scope-IsActiveScope :
    (x : External) (binding : SignerBinding) (now : ℕ) (found : Option SignerScopeRow)
    (db db' : Database)
    → scope binding.network binding.agent_address db ≡ found
    → register_scope x binding now found db ≡ ok db'
    → IsActiveScope binding db'
register_scope-IsActiveScope x binding now none db db' found h =
    subst (IsActiveScope binding) (ok_inj h) (new_scope-IsActiveScope x binding now db)
register_scope-IsActiveScope x binding now (some row) db db' found h =
    let (same, h₁) =
      >>-eq-ok (assert_signer_binding x.get_address binding (binding_from_scope row)) _ h in
    let (st, h₂) =
      >>-eq-ok
        (throw_if (not (status_eq row.status active))
          (plain_error "The signer scope is not active."))
        _ h₁ in
    subst (IsActiveScope binding) (ok_inj h₂) (
      row,
      found,
      active_status row.status (throw_if-eq-ok _ _ st),
      scope_generation x.get_address binding row same,
    )

-- No tombstone records that the agent of the binding has been retired on its network.
abbrev pub IsUnretired : External → SignerBinding → Database → Type 0
IsUnretired x binding db =
    (fingerprint : String) × (agent_address_fingerprint x binding.agent_address ≡ ok fingerprint)
    × (any (is_tombstone x binding.network fingerprint) db.tombstones ≡ false)

-- A registration that succeeds reads the binding, finds that no tombstone records its agent on its
-- network, so a retired agent is never active again, and leaves an active scope of the binding's
-- generation.
pub register_active_signer-IsActiveScope :
    (x : External) (input : SignerBinding) (at : Number) (db db' : Database)
    → register_active_signer x input at db ≡ ok (tt, db')
    → (binding : SignerBinding) × (normalize_signer_binding x.get_address input ≡ ok binding)
      × IsUnretired x binding db
      × IsActiveScope binding db'
unfolding register_active_signer
register_active_signer-IsActiveScope x input at db db' h =
    let (binding, read, h₁) = >>=-eq-ok (normalize_signer_binding x.get_address input) _ h in
    let (_, h₂) = >>-eq-ok (assert_trading_action_capability _ binding.network) _ h₁ in
    let (now, _, h₃) = >>=-eq-ok (assert_time at "activatedAt") _ h₂ in
    let (fingerprint, known, h₄) =
      >>=-eq-ok (agent_address_fingerprint x binding.agent_address) _ h₃ in
    let (free, h₅) =
      >>-eq-ok
        (throw_if (any (is_tombstone x binding.network fingerprint) db.tombstones)
          (plain_error "A retired agent address can never become active again."))
        _ h₄ in
    let (d, registered, h₆) =
      >>=-eq-ok (register_scope x binding now (scope binding.network binding.agent_address db) db) _
        h₅ in
    (
      binding,
      read,
      (fingerprint, known, throw_if-eq-ok _ _ free),
      subst (IsActiveScope binding) (ok_snd h₆) (
          register_scope-IsActiveScope x binding now
            (scope binding.network binding.agent_address db) db d refl registered),
    )
