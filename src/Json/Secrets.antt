-- ===== src/Json/Secrets.antt =====
-- What an intent that redaction.ts accepts can hold.
use hyper_trader.Common.{ℕ, suc, ◌+◌, ◌≤◌, max, ◌≡◌, ◌↔◌, true, arith, is_safe_integer, ok}
use hyper_trader.Json.Keys.{IsAllowed, is_forbidden_key-IsAllowed}
use hyper_trader.Json.{
  Value, Items, Fields, null, bool, num, str, arr, obj, opaque, nil, cons, done, field, max_depth,
  validate_value, validate_items, validate_fields,
}

-- No secret occurs in a key of the value, at any depth, its numbers are safe integers, and each of its
-- parts has a JSON form.
mutual
  pub IsClean : Value → Type 0
  IsClean null = Unit
  IsClean (bool b) = Unit
  IsClean (num n) = is_safe_integer n ≡ true
  IsClean (str s) = Unit
  IsClean (arr xs) = AreClean xs
  IsClean (obj fs) = AreCleanFields fs
  IsClean opaque = ⊥

  pub AreClean : Items → Type 0
  AreClean nil = Unit
  AreClean (cons x xs) = IsClean x × AreClean xs

  pub AreCleanFields : Fields → Type 0
  AreCleanFields done = Unit
  AreCleanFields (field k v fs) = IsAllowed k × IsClean v × AreCleanFields fs

-- How deep the members of a value are nested.
mutual
  pub depth : Value → ℕ
  depth null = 0
  depth (bool b) = 0
  depth (num n) = 0
  depth (str s) = 0
  depth (arr xs) = items_depth xs
  depth (obj fs) = fields_depth fs
  depth opaque = 0

  pub items_depth : Items → ℕ
  items_depth nil = 0
  items_depth (cons x xs) = max (suc (depth x)) (items_depth xs)

  pub fields_depth : Fields → ℕ
  fields_depth done = 0
  fields_depth (field k v fs) = max (suc (depth v)) (fields_depth fs)

mutual
  unfolding validate_value validate_items validate_fields IsClean AreClean AreCleanFields depth
      items_depth fields_depth

  validate_value_lem :
      (v : Value) (d : ℕ) → (validate_value v d ≡ ok tt) ↔ (IsClean v × (d + depth v ≤ max_depth))
  validate_value_lem null d = (λ h. ground arith, λ t. ground arith)
  validate_value_lem (bool b) d = (λ h. ground arith, λ t. ground arith)
  validate_value_lem (num n) d = (λ h. ground arith, λ t. ground arith)
  validate_value_lem (str s) d = (λ h. ground arith, λ t. ground arith)
  validate_value_lem (arr xs) d = (
    λ h. let low : d ≤ max_depth = ground arith in ground (arith, (validate_items_lem xs d low).0),
    λ t. let low : d ≤ max_depth = ground arith in ground (arith, (validate_items_lem xs d low).1),
  )
  validate_value_lem (obj fs) d = (
    λ h. let low : d ≤ max_depth = ground arith in ground (arith, (validate_fields_lem fs d low).0),
    λ t. let low : d ≤ max_depth = ground arith in ground (arith, (validate_fields_lem fs d low).1),
  )
  validate_value_lem opaque d = (λ h. ground arith, λ t. absurd t.0)

  validate_items_lem :
      (xs : Items) (d : ℕ)
      → (d ≤ max_depth)
      → (validate_items xs (d + 1) ≡ ok tt) ↔ (AreClean xs × (d + items_depth xs ≤ max_depth))
  validate_items_lem nil d low = (λ h. ground arith, λ t. ground arith)
  validate_items_lem (cons x xs) d low =
      let first = validate_value_lem x (d + 1) in
      let rest = validate_items_lem xs d low in
      (λ h. ground (arith, first.0, rest.0), λ t. ground (arith, first.1, rest.1))

  validate_fields_lem :
      (fs : Fields) (d : ℕ)
      → (d ≤ max_depth)
      → (validate_fields fs (d + 1) ≡ ok tt)
        ↔ (AreCleanFields fs × (d + fields_depth fs ≤ max_depth))
  validate_fields_lem done d low = (λ h. ground arith, λ t. ground arith)
  validate_fields_lem (field k v fs) d low =
      let first = validate_value_lem v (d + 1) in
      let rest = validate_fields_lem fs d low in
      let key = is_forbidden_key-IsAllowed k in
      (λ h. ground (arith, first.0, rest.0, key.0), λ t. ground (arith, first.1, rest.1, key.1))
