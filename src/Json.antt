-- ===== src/Json.antt =====
-- packages/hyperliquid/src/reconciliation/redaction.ts: the values that an intent may hold, and the
-- check that no signing or secret material is stored with it.
pub mod Keys
pub mod Secrets
use Prim.Native.Char.{Char, code, len_utf8}
use hyper_trader.Common.{
  ℕ, zero, suc, ◌+◌, ◌-◌, ◌/◌, Bool, true, false, not, ◌&&◌, ◌||◌, String, List, [], ◌∷◌, Option,
  none, some, ltb, leb, ◌==◌, if◌then◌else◌, str_eq, Number, pos, negsuc, other, is_safe_integer,
  Error, Result, ok, err, validation, throw_if, ◌>>=◌, ◌>>◌, codes, utf16_units, to_lower, map,
  length,
}

-- A value: the fields of an object in the order of its keys; `opaque` is one that has no JSON form,
-- such as `undefined`, a function or an object of a class.
mutual
  pub data Value : Type 0 where
    null : Value
    bool : Bool → Value
    num : Number → Value
    str : String → Value
    arr : Items → Value
    obj : Fields → Value
    opaque : Value

  pub data Items : Type 0 where
    nil : Items
    cons : Value → Items → Items

  pub data Fields : Type 0 where
    done : Fields
    field : String → Value → Fields → Fields

-- `intent.key`; `none` is `undefined`.
unfoldable pub get_field : Fields → String → Option Value
get_field done key = none
get_field (field k v fs) key = if str_eq k key then some v else get_field fs key

-- `.`, which is any code unit but a line terminator.
abbrev pub is_dot : ℕ → Bool
is_dot c = not (c == 0x0a || (c == 0x0d || (c == 0x2028 || c == 0x2029)))

pub starts_with : List ℕ → List ℕ → Bool
starts_with s [] = true
starts_with [] (p ∷ ps) = false
starts_with (c ∷ s) (p ∷ ps) = (c == p) && starts_with s ps

-- `.?second` at the front of a text.
pub second_after_gap : List ℕ → List ℕ → Bool
unfolding starts_with
second_after_gap second [] = starts_with [] second
second_after_gap second (c ∷ s) = starts_with (c ∷ s) second || (is_dot c && starts_with s second)

-- `first.?second` at the front of a text.
pub joined : List ℕ → List ℕ → List ℕ → Bool
unfolding second_after_gap
joined [] second s = second_after_gap second s
joined (p ∷ ps) second [] = false
joined (p ∷ ps) second (c ∷ s) = (c == p) && joined ps second s

-- The alternatives of `FORBIDDEN_KEY` at the front of a text in small letters.
pub forbidden_at : List ℕ → Bool
unfolding joined starts_with
forbidden_at s =
    joined (codes "private") (codes "key") s
    || (starts_with s (codes "seed")
        || (starts_with s (codes "mnemonic")
            || (starts_with s (codes "secret")
                || (starts_with s (codes "signature")
                    || (joined (codes "signed") (codes "payload") s
                        || (joined (codes "signing") (codes "payload") s
                            || (joined (codes "action") (codes "bytes") s
                                || (starts_with s (codes "preimage")
                                    || joined (codes "exchange") (codes "body") s))))))))

pub forbidden_within : List ℕ → Bool
unfolding forbidden_at
forbidden_within [] = false
forbidden_within (c ∷ s) = forbidden_at (c ∷ s) || forbidden_within s

-- `FORBIDDEN_KEY.test(key)`
unfoldable pub is_forbidden_key : String → Bool
unfolding forbidden_within to_lower
is_forbidden_key key = forbidden_within (map to_lower (utf16_units (codes key)))

abbrev pub max_depth : ℕ
max_depth = 12

abbrev pub max_intent_bytes : ℕ
max_intent_bytes = 32_768

abbrev intent_error : String → Error
intent_error message = validation "intent" message

-- `validateValue`. The path that the source adds to the message is left at the root.
mutual
  unfolding is_forbidden_key

  validate_value : Value → ℕ → Result (Unit {0})
  validate_value null depth =
      throw_if (ltb max_depth depth) (intent_error "intent nesting is too deep")
  validate_value (bool b) depth =
      throw_if (ltb max_depth depth) (intent_error "intent nesting is too deep")
  validate_value (str s) depth =
      throw_if (ltb max_depth depth) (intent_error "intent nesting is too deep")
  validate_value (num n) depth = do
    throw_if (ltb max_depth depth) (intent_error "intent nesting is too deep")
    throw_if (not (is_safe_integer n)) (intent_error "intent contains an unsupported value")
  validate_value opaque depth = do
    throw_if (ltb max_depth depth) (intent_error "intent nesting is too deep")
    err (intent_error "intent contains an unsupported value")
  validate_value (arr xs) depth = do
    throw_if (ltb max_depth depth) (intent_error "intent nesting is too deep")
    validate_items xs (depth + 1)
  validate_value (obj fs) depth = do
    throw_if (ltb max_depth depth) (intent_error "intent nesting is too deep")
    validate_fields fs (depth + 1)

  validate_items : Items → ℕ → Result (Unit {0})
  validate_items nil depth = ok tt
  validate_items (cons x xs) depth = do validate_value x depth; validate_items xs depth

  validate_fields : Fields → ℕ → Result (Unit {0})
  validate_fields done depth = ok tt
  validate_fields (field k v fs) depth = do
    throw_if (is_forbidden_key k) (intent_error "forbidden signing or secret material")
    validate_value v depth
    validate_fields fs depth

-- The bytes of one character in the output of `JSON.stringify`, as UTF-8.
char_bytes : Char → ℕ
char_bytes c =
    let n = code c in
    if n == 0x22 || (n == 0x5c || (leb 8 n && leb n 13 && not (n == 11)))
    then 2
    else if ltb n 0x20
    then 6
    else len_utf8 c

text_bytes : String → ℕ
unfolding char_bytes
text_bytes String.[] = 2
text_bytes (String.◌∷◌ c s) = char_bytes c + text_bytes s

-- The digits of a number below 10 ^ (fuel + 1); a safe integer has sixteen at most.
digit_count : ℕ → ℕ → ℕ
digit_count zero n = 1
digit_count (suc fuel) n = let rest = digit_count fuel (n / 10) in if ltb n 10 then 1 else suc rest

number_bytes : Number → ℕ
unfolding digit_count
number_bytes (pos n) = digit_count 16 n
number_bytes (negsuc n) = suc (digit_count 16 (suc n))
number_bytes other = 4

-- The length of `JSON.stringify(value)` in bytes, for a value that has passed `validateValue`; a
-- comma follows each member but the last.
mutual
  unfolding text_bytes number_bytes

  pub value_bytes : Value → ℕ
  value_bytes null = 4
  value_bytes opaque = 0
  value_bytes (bool b) = if b then 4 else 5
  value_bytes (num n) = number_bytes n
  value_bytes (str s) = text_bytes s
  value_bytes (arr xs) = 2 + (items_bytes xs - 1)
  value_bytes (obj fs) = 2 + (fields_bytes fs - 1)

  items_bytes : Items → ℕ
  items_bytes nil = 0
  items_bytes (cons x xs) = value_bytes x + 1 + items_bytes xs

  fields_bytes : Fields → ℕ
  fields_bytes done = 0
  fields_bytes (field k v fs) = text_bytes k + 1 + value_bytes v + 1 + fields_bytes fs

-- `serializeSecretFreeIntent`; the text that it returns stands for the object and is not written
-- out. `assertSecretFreeIntent` calls it and drops the result.
unfoldable pub serialize_secret_free_intent : Value → Result Fields
unfolding validate_value value_bytes
serialize_secret_free_intent (obj fs) = do
  validate_value (obj fs) 0
  throw_if (ltb max_intent_bytes (value_bytes (obj fs))) (intent_error "intent exceeds 32 KiB")
  ok fs
serialize_secret_free_intent _ = err (intent_error "expected a plain secret-free intent object")
