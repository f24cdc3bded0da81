-- ===== src/Persistence/Holding.antt =====
-- The leases of action-journal.ts on actions that others try to claim.
use mathlib.Core.Option
use hyper_trader.Common.{
  ℕ, ◌+◌, ◌≡◌, ◌<◌, refl, sym, ◌∙◌, ap, subst, Bool, true, false, not, String, Option, none, some,
  ◌⊎◌, ◌≢◌, inl, inr, Bool-cases, str_eq_iff, ok_inj, count_if, ◌==◌, Result, ◌>>=◌, List, [], ◌∷◌,
  arith, ok, ok_snd, >>=-eq-ok, >>-eq-ok, Number, natural, str_eq, if◌then◌else◌,
}
use hyper_trader.Journal.{PreparedActionRecord}
use hyper_trader.Persistence.Rows.{assert_time, assert_lease_owner}
use hyper_trader.Persistence.Tables.{Database, find_action, has_id, find-update_where}
use hyper_trader.Persistence.Actions.{update_actions, require_action}
use hyper_trader.Persistence.Sole.{count_missed}
use hyper_trader.Persistence.Leases.{
  ReconciliationLease, Claim, lease_duration, is_free, is_claimable, set_lease, claim_lease,
  is_takeable, take_candidate, next_candidate, claim_next,
}
use hyper_trader.Persistence.Later.{take_candidate-updated}

assert_time-eq-ok : (n : Number) (path : String) {t : ℕ} → assert_time n path ≡ ok t → t ≡ natural n
unfolding assert_time
assert_time-eq-ok n path h = ground arith

-- An update that does not test true of the action that is found leaves it.
update_actions-kept :
    (p : PreparedActionRecord → Bool) (f : PreparedActionRecord → PreparedActionRecord)
    (id : String) (row : PreparedActionRecord) (db : Database)
    → ((r : PreparedActionRecord) → (f r).journal_id ≡ r.journal_id)
    → find_action id db.actions ≡ some row
    → p row ≡ false
    → find_action id (update_actions p f db).actions ≡ some row
unfolding find_action
update_actions-kept p f id row db same found h =
    find-update_where (has_id id) p f db.actions (λ r. ap (λ k. str_eq k id) (same r))
    ∙ ap (Option.map (λ r. if p r then f r else r)) found
    ∙ ap (λ b. some (if b then f row else row)) h

claimable_is_free :
    (id : String) (now : ℕ) (row : PreparedActionRecord)
    → is_free now row ≡ false
    → is_claimable id now row ≡ false
claimable_is_free id now row h = ground arith

takeable_is_free :
    (id : String) (now : ℕ) (row : PreparedActionRecord)
    → is_free now row ≡ false
    → is_takeable id now row ≡ false
takeable_is_free id now row h = ground arith

-- A row with a lease that ends after a time is not free at that time.
held_is_busy :
    (row : PreparedActionRecord) (holder : String) (expires now : ℕ)
    → row.lease_owner ≡ some holder
    → row.lease_expires_at ≡ some expires
    → now < expires
    → is_free now row ≡ false
held_is_busy row holder expires now o e l = rw (o, e) (ground (arith, l))

-- A test on the identifier of a held action that the action fails selects no row.
none_granted :
    (p : PreparedActionRecord → Bool) (other : String) (db : Database) (row : PreparedActionRecord)
    → ((r : PreparedActionRecord) → p r ≡ true → has_id other r ≡ true)
    → count_if (has_id other) db.actions ≡ 1
    → find_action other db.actions ≡ some row
    → p row ≡ false
    → (count_if p db.actions == 1) ≡ false
unfolding find_action
none_granted p other db row only one found missed =
    ap (λ n. n == 1) (count_missed p (has_id other) db.actions row only one found missed)

-- A lease is granted to one claimer at a time: while someone holds the lease of an action until after
-- the time of a claim, the claim leaves the action as it is stored, and if it asks for that action it
-- is given no lease. One row has the identifier of the action.
pub claim_lease-held :
    (id owner : String) (now : Number) (duration : Option Number) (db : Database)
    (l : Option ReconciliationLease) (db' : Database) (other : String) (row : PreparedActionRecord)
    (holder : String) (expires : ℕ)
    → claim_lease id owner now duration db ≡ ok (l, db')
    → count_if (has_id other) db.actions ≡ 1
    → find_action other db.actions ≡ some row
    → row.lease_owner ≡ some holder
    → row.lease_expires_at ≡ some expires
    → natural now < expires
    → (find_action other db'.actions ≡ some row) × ((l ≡ none) ⊎ (id ≢ other))
unfolding claim_lease
claim_lease-held id owner now duration db l db' other row holder expires h one found o e later =
    let (_, h₁) = >>-eq-ok (assert_lease_owner owner) _ h in
    let (t, read, h₂) = >>=-eq-ok (assert_time now "now") _ h₁ in
    let (d, _, h₃) = >>=-eq-ok (lease_duration duration) _ h₂ in
    let busy =
      subst (λ n. is_free n row ≡ false) (sym (assert_time-eq-ok now "now" read))
        (held_is_busy row holder expires (natural now) o e later) in
    let refused = claimable_is_free id t row busy in
    let lease : ReconciliationLease = record {
      journal_id = id;
      owner = owner;
      expires_at = t + d;
    } in
    (
      subst (λ d. find_action other d.actions ≡ some row) (ok_snd h₃)
          (update_actions-kept (is_claimable id t) (set_lease owner (t + d) t) other row db
            (λ r. refl) found refused),
      elim (Bool-cases (str_eq id other)) [
        | inl same ↦
            let own : id ≡ other = (str_eq_iff id other).0 same in
            let none_found =
              none_granted (is_claimable id t) other db row
                (λ r k. subst (λ i. has_id i r ≡ true) own (ground (arith, k))) one found refused in
            inl (
              sym (ap (λ p. p.0) (ok_inj h₃)) ∙ ap (λ b. if b then some lease else none) none_found)
        | inr another ↦ inr (λ own. cc (another, (str_eq_iff id other).1 own))
      ],
    )

-- Nothing is claimed, or another action.
abbrev pub IsElsewhere : String → Option Claim → Type 0
IsElsewhere other none = Unit
IsElsewhere other (some claim) = claim.1.journal_id ≢ other

take_candidate-held :
    (owner : String) (now expires : ℕ) (rows : List PreparedActionRecord) (db : Database)
    (c : Option Claim) (db' : Database) (other : String) (row : PreparedActionRecord)
    → take_candidate owner now expires rows db ≡ ok (c, db')
    → find_action other db.actions ≡ some row
    → is_free now row ≡ false
    → find_action other db'.actions ≡ some row
take_candidate-held owner now expires [] db c db' other row h found held =
    subst (λ d. find_action other d.actions ≡ some row) (ok_snd h) found
take_candidate-held owner now expires (first ∷ rows) db c db' other row h found held =
    subst (λ d. find_action other d.actions ≡ some row)
      (take_candidate-updated owner now expires first rows db db' h)
      (update_actions-kept (is_takeable first.journal_id now) (set_lease owner expires now) other
        row db (λ r. refl) found (takeable_is_free first.journal_id now row held))

fst_same :
    {a b : Option Claim × Database} (other : String)
    → ◌≡◌ {A = Result (Option Claim × Database)} (ok a) (ok b)
    → IsElsewhere other a.0
    → IsElsewhere other b.0
fst_same other h k = subst (IsElsewhere other) (ap (λ p. p.0) (ok_inj h)) k

take_candidate-IsElsewhere :
    (owner : String) (now expires : ℕ) (rows : List PreparedActionRecord) (db : Database)
    (c : Option Claim) (db' : Database) (other : String) (row : PreparedActionRecord)
    → take_candidate owner now expires rows db ≡ ok (c, db')
    → count_if (has_id other) db.actions ≡ 1
    → find_action other db.actions ≡ some row
    → is_free now row ≡ false
    → IsElsewhere other c
take_candidate-IsElsewhere owner now expires [] db c db' other row h one found held =
    fst_same other h tt
take_candidate-IsElsewhere owner now expires (first ∷ rows) db c db' other row h one found held =
    go (count_if p db.actions == 1) refl h
  where
    p : PreparedActionRecord → Bool
    p = is_takeable first.journal_id now

    updated : Database
    updated = update_actions p (set_lease owner expires now) db

    lease : ReconciliationLease
    lease = record { journal_id = first.journal_id; owner = owner; expires_at = expires }

    answer : Bool → Result (Option Claim × Database)
    answer b =
        if not b
        then ok (none, updated)
        else require_action first.journal_id updated >>= λ r. ok (some (r, lease), updated)

    another : (count_if p db.actions == 1) ≡ true → first.journal_id ≢ other
    another granted own =
        let missed =
          none_granted p other db row
            (λ r k. subst (λ i. has_id i r ≡ true) own (ground (arith, k))) one found
            (takeable_is_free first.journal_id now row held) in
        cc (granted, missed)

    go :
        (b : Bool) → (count_if p db.actions == 1) ≡ b → answer b ≡ ok (c, db') → IsElsewhere other c
    go false e k = fst_same other k tt
    go true e k =
        let (r, _, k') = >>=-eq-ok (require_action first.journal_id updated) _ k in
        fst_same other k' (another e)

-- A lease is granted to one claimer at a time: while someone holds the lease of an action until after
-- the time of a claim of whichever action is due, the claim leaves the action as it is stored, and
-- claims no action or another one. One row has the identifier of the action.
pub claim_next-held :
    (owner : String) (now : Number) (duration : Option Number) (db : Database) (c : Option Claim)
    (db' : Database) (other : String) (row : PreparedActionRecord) (holder : String) (expires : ℕ)
    → claim_next owner now duration db ≡ ok (c, db')
    → count_if (has_id other) db.actions ≡ 1
    → find_action other db.actions ≡ some row
    → row.lease_owner ≡ some holder
    → row.lease_expires_at ≡ some expires
    → natural now < expires
    → (find_action other db'.actions ≡ some row) × IsElsewhere other c
unfolding claim_next
claim_next-held owner now duration db c db' other row holder expires h one found o e later =
    let (_, h₁) = >>-eq-ok (assert_lease_owner owner) _ h in
    let (t, read, h₂) = >>=-eq-ok (assert_time now "now") _ h₁ in
    let (d, _, h₃) = >>=-eq-ok (lease_duration duration) _ h₂ in
    let busy =
      subst (λ n. is_free n row ≡ false) (sym (assert_time-eq-ok now "now" read))
        (held_is_busy row holder expires (natural now) o e later) in
    (
      take_candidate-held owner t (t + d) (next_candidate t db) db c db' other row h₃ found busy,
      take_candidate-IsElsewhere owner t (t + d) (next_candidate t db) db c db' other row h₃ one
          found busy,
    )
