-- ===== src/Persistence/Tables.antt =====
-- The tables, and the SQL statements that action-journal.ts runs on `action_journal`: SELECT with
-- WHERE and ORDER BY, and UPDATE with the number of rows that it changes.
use mathlib.Core.Option
use hyper_trader.Common.{
  ℕ, ◌≡◌, refl, Bool, Option, List, [], ◌∷◌, String, str_eq, find, if◌then◌else◌, arith,
}
use hyper_trader.Journal.{PreparedActionRecord}

pub data ScopeStatus : Type 0 where
  active retiring retired : ScopeStatus

pub record SignerScopeRow : Type 0 where
  pub network : String
  pub agent_address : String
  pub master_account : String
  pub target_account : String
  pub signer_generation : ℕ
  pub status : ScopeStatus
  pub last_issued_nonce : Option ℕ
  pub last_observed_wall_ms : Option ℕ
  pub activated_at : ℕ
  pub updated_at : ℕ

pub record TombstoneRow : Type 0 where
  pub installation_epoch : String
  pub sequence : ℕ
  pub prior_chain_root : String
  pub chain_root : String
  pub network : String
  pub agent_address_fingerprint : String
  pub last_issued_nonce : ℕ
  pub signer_generation : ℕ
  pub retired_at : ℕ
  pub reason : String

pub record Database : Type 0 where
  pub actions : List PreparedActionRecord
  pub scopes : List SignerScopeRow
  pub tombstones : List TombstoneRow

-- `WHERE journal_id = ?`
abbrev pub has_id : String → PreparedActionRecord → Bool
has_id id row = str_eq row.journal_id id

unfoldable pub find_action : String → List PreparedActionRecord → Option PreparedActionRecord
find_action id rows = find (has_id id) rows

module _ {ℓ} {A : Type ℓ} where
  -- `SELECT * … WHERE p`
  abbrev pub select_where : (A → Bool) → List A → List A
  select_where p [] = []
  select_where p (x ∷ xs) = let rest = select_where p xs in if p x then x ∷ rest else rest

  -- `UPDATE … SET f WHERE p`; the changes that it reports are `count_if p`.
  abbrev pub update_where : (A → Bool) → (A → A) → List A → List A
  update_where p f [] = []
  update_where p f (x ∷ xs) = (if p x then f x else x) ∷ update_where p f xs

  -- `ORDER BY`, as insertion by a test of what comes first.
  abbrev pub insert_by : (A → A → Bool) → A → List A → List A
  insert_by before x [] = x ∷ []
  insert_by before x (y ∷ ys) =
      let rest = insert_by before x ys in if before y x then y ∷ rest else x ∷ y ∷ ys

  abbrev pub order_by : (A → A → Bool) → List A → List A
  order_by before [] = []
  order_by before (x ∷ xs) = insert_by before x (order_by before xs)

-- An update that keeps what a search tests is seen by the search as the update of what it finds.
pub find-update_where {ℓ} :
    {A : Type ℓ} (q p : A → Bool) (f : A → A) (xs : List A)
    → ((x : A) → q (f x) ≡ q x)
    → find q (update_where p f xs) ≡ Option.map (λ x. if p x then f x else x) (find q xs)
find-update_where q p f [] h = refl
find-update_where q p f (x ∷ xs) h = ground (arith, h x, find-update_where q p f xs h)
