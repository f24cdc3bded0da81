-- ===== src/Persistence/Sole.antt =====
-- action-journal.ts: the claim and the renewal of a lease on the one action of an identifier succeed.
use mathlib.Core.Option
use hyper_trader.Common.{
  ℕ, ◌+◌, ◌≡◌, ◌≤◌, ◌<◌, refl, sym, ap, ◌∙◌, Bool, true, false, String, none, some, List, [], ◌∷◌,
  arith, pos, max_safe_integer, ok, if◌then◌else◌, ◌==◌, count_if, find, find-eq-some, str_eq,
  str_eq_self,
}
use hyper_trader.Journal.{PreparedActionRecord}
use hyper_trader.Persistence.Rows.{assert_time, assert_lease_owner, is_reconcilable}
use hyper_trader.Persistence.Tables.{Database, find_action, has_id, update_where, find-update_where}
use hyper_trader.Persistence.Actions.{update_actions}
use hyper_trader.Persistence.Leases.{
  ReconciliationLease, is_free, is_claimable, set_lease, claim_lease, is_renewable, set_expiry,
  renew_lease, lease_duration,
}

-- One action has the identifier, and it is this row.
pub record IsSole (id : String) (db : Database) (row : PreparedActionRecord) : Type 0 where
  pub one : count_if (has_id id) db.actions ≡ 1
  pub found : find_action id db.actions ≡ some row

count_none :
    (p q : PreparedActionRecord → Bool) (xs : List PreparedActionRecord)
    → ((r : PreparedActionRecord) → p r ≡ true → q r ≡ true)
    → count_if q xs ≡ 0
    → count_if p xs ≡ 0
count_none p q [] h e = refl
count_none p q (x ∷ xs) h e = ground (arith, h x, count_none p q xs h)

count_found :
    (p q : PreparedActionRecord → Bool) (xs : List PreparedActionRecord)
    (row : PreparedActionRecord)
    → ((r : PreparedActionRecord) → p r ≡ true → q r ≡ true)
    → count_if q xs ≡ 1
    → find q xs ≡ some row
    → p row ≡ true
    → count_if p xs ≡ 1
count_found p q [] row h e f t = cc
count_found p q (x ∷ xs) row h e f t = go (q x) refl (λ e' f'. count_found p q xs row h e' f' t)
  where
    first : some x ≡ some row → x ≡ row
    first s = cc

    go :
        (b : Bool)
        → q x ≡ b
        → (count_if q xs ≡ 1 → find q xs ≡ some row → count_if p xs ≡ 1)
        → count_if p (x ∷ xs) ≡ 1
    go true b ih =
        let same : x ≡ row = first (sym (ap (λ c. if c then some x else find q xs) b) ∙ f) in
        let here : p x ≡ true = ap p same ∙ t in ground (arith, b, here, e, count_none p q xs h)
    go false b ih =
        let rest : find q xs ≡ some row = sym (ap (λ c. if c then some x else find q xs) b) ∙ f in
        ground (arith, b, h x, e, ih (ground (arith, b, e)) rest)

-- A narrower test that misses the only row that another test finds selects none.
pub count_missed :
    (p q : PreparedActionRecord → Bool) (xs : List PreparedActionRecord)
    (row : PreparedActionRecord)
    → ((r : PreparedActionRecord) → p r ≡ true → q r ≡ true)
    → count_if q xs ≡ 1
    → find q xs ≡ some row
    → p row ≡ false
    → count_if p xs ≡ 0
count_missed p q [] row h e f t = refl
count_missed p q (x ∷ xs) row h e f t = go (q x) refl (λ e' f'. count_missed p q xs row h e' f' t)
  where
    first : some x ≡ some row → x ≡ row
    first s = cc

    go :
        (b : Bool)
        → q x ≡ b
        → (count_if q xs ≡ 1 → find q xs ≡ some row → count_if p xs ≡ 0)
        → count_if p (x ∷ xs) ≡ 0
    go true b ih =
        let same : x ≡ row = first (sym (ap (λ c. if c then some x else find q xs) b) ∙ f) in
        let here : p x ≡ false = ap p same ∙ t in ground (arith, b, here, e, count_none p q xs h)
    go false b ih =
        let rest : find q xs ≡ some row = sym (ap (λ c. if c then some x else find q xs) b) ∙ f in
        ground (arith, b, h x, e, ih (ground (arith, b, e)) rest)

count_updated :
    (q p : PreparedActionRecord → Bool) (f : PreparedActionRecord → PreparedActionRecord)
    (xs : List PreparedActionRecord)
    → ((r : PreparedActionRecord) → q (f r) ≡ q r)
    → count_if q (update_where p f xs) ≡ count_if q xs
count_updated q p f [] h = refl
count_updated q p f (x ∷ xs) h = ground (arith, h x, count_updated q p f xs h)

pub IsSole-update_actions :
    (id : String) (p : PreparedActionRecord → Bool)
    (f : PreparedActionRecord → PreparedActionRecord) (db : Database) (row : PreparedActionRecord)
    → IsSole id db row
    → ((r : PreparedActionRecord) → (f r).journal_id ≡ r.journal_id)
    → p row ≡ true
    → IsSole id (update_actions p f db) (f row)
unfolding find_action
IsSole-update_actions id p f db row s h t = record {
  one = count_updated (has_id id) p f db.actions (λ r. ap (λ k. str_eq k id) (h r)) ∙ s.one;
  found =
      find-update_where (has_id id) p f db.actions (λ r. ap (λ k. str_eq k id) (h r))
      ∙ ap (Option.map (λ r. if p r then f r else r)) s.found
      ∙ ap (λ b. some (if b then f row else row)) t;
}

-- A test that selects the row selects it alone.
pub IsSole-count_if :
    (id : String) (p : PreparedActionRecord → Bool) (db : Database) (row : PreparedActionRecord)
    → IsSole id db row
    → ((r : PreparedActionRecord) → p r ≡ true → has_id id r ≡ true)
    → p row ≡ true
    → (count_if p db.actions == 1) ≡ true
unfolding find_action
IsSole-count_if id p db row s h t =
    ap (λ n. n == 1) (count_found p (has_id id) db.actions row h s.one s.found t)

pub IsSole-has_id :
    (id : String) (db : Database) (row : PreparedActionRecord)
    → IsSole id db row
    → has_id id row ≡ true
unfolding find_action
IsSole-has_id id db row s = find-eq-some (has_id id) db.actions s.found

pub assert_time-ok :
    (t : ℕ) (path : String) → t ≤ max_safe_integer → assert_time (pos t) path ≡ ok t
unfolding assert_time
assert_time-ok t path h = ground (arith, h)

pub claim_lease-ok :
    (id owner : String) (t : ℕ) (db : Database) (row : PreparedActionRecord)
    → IsSole id db row
    → assert_lease_owner owner ≡ ok tt
    → t ≤ max_safe_integer
    → is_reconcilable row.state ≡ true
    → is_free t row ≡ true
    → claim_lease id owner (pos t) none db
      ≡ ok (
        some (record { journal_id = id; owner = owner; expires_at = t + 30_000 }),
        update_actions (is_claimable id t) (set_lease owner (t + 30_000) t) db,
      )
unfolding claim_lease lease_duration
claim_lease-ok id owner t db row s o h r f =
    let selected : is_claimable id t row ≡ true = rw (IsSole-has_id id db row s, r, f) refl in
    let one = IsSole-count_if id (is_claimable id t) db row s (λ q e. ground (arith, e)) selected in
    rw (o, assert_time-ok t "now" h, one) refl

pub renew_lease-ok :
    (id owner : String) (expires t : ℕ) (db : Database) (row : PreparedActionRecord)
    → IsSole id db row
    → row.lease_owner ≡ some owner
    → row.lease_expires_at ≡ some expires
    → t < expires
    → assert_lease_owner owner ≡ ok tt
    → t ≤ max_safe_integer
    → renew_lease (record { journal_id = id; owner = owner; expires_at = expires }) (pos t) none db
      ≡ ok (
        some (record { journal_id = id; owner = owner; expires_at = t + 30_000 }),
        update_actions
            (is_renewable (record { journal_id = id; owner = owner; expires_at = expires }) t)
            (set_expiry (t + 30_000) t)
            db,
      )
unfolding renew_lease lease_duration
renew_lease-ok id owner expires t db row s o e l v h =
    let lease : ReconciliationLease = record {
      journal_id = id;
      owner = owner;
      expires_at = expires;
    } in
    let selected : is_renewable lease t row ≡ true =
      rw (IsSole-has_id id db row s, o, e, str_eq_self owner) (ground (arith, l)) in
    let one =
      IsSole-count_if id (is_renewable lease t) db row s (λ q e. ground (arith, e)) selected in
    rw (v, assert_time-ok t "now" h, one) refl
