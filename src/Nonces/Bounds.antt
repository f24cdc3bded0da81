-- ===== src/Nonces/Bounds.antt =====
-- The allocation of a nonce against its specification.
use hyper_trader.Common.{
  ℕ, ◌+◌, ◌≤◌, ◌<◌, ◌≡◌, ◌↔◌, ◌⊎◌, Option, none, some, arith, Number, max_safe_integer, natural, ok,
}
use hyper_trader.Nonces.{NonceAllocationInput, NonceAllocation, allocate_nonce, action_expiry_ms}
use hyper_trader.Nonces.Gate.{IsMilliseconds, IsTrusted}

abbrev IsPrior : Option Number → Type 0
IsPrior none = Unit
IsPrior (some last) = IsMilliseconds last

-- The nonce n is new: it is above the last one that was issued.
abbrev pub IsFresh : Option Number → ℕ → Type 0
IsFresh none n = Unit
IsFresh (some last) n = natural last < n

-- The nonce n is the successor of the last one.
abbrev IsNext : Option Number → ℕ → Type 0
IsNext none n = ⊥
IsNext (some last) n = n ≡ natural last + 1

pub record IsAllocation (i : NonceAllocationInput) (a : NonceAllocation) : Type 0 where
  pub trusted : IsTrusted i.clock
  pub prior_read : IsPrior i.last_issued_nonce
  pub fresh : IsFresh i.last_issued_nonce a.nonce
  pub not_before_wall : natural i.wall_time_ms ≤ a.nonce
  pub least : (a.nonce ≡ natural i.wall_time_ms) ⊎ IsNext i.last_issued_nonce a.nonce
  pub expires : a.expires_after_ms ≡ natural i.wall_time_ms + action_expiry_ms
  pub not_expired : a.nonce < a.expires_after_ms
  pub safe : a.expires_after_ms ≤ max_safe_integer
  pub observed : a.observed_wall_ms ≡ natural i.wall_time_ms

-- An allocation succeeds with `a` exactly when the clock is trusted and `a` holds the least nonce
-- that is above the last one and not before the wall clock, with an expiry fifteen seconds after
-- the wall clock that is still ahead of the nonce and a safe integer.
pub allocate_nonce-IsAllocation :
    (i : NonceAllocationInput) (a : NonceAllocation) → (allocate_nonce i ≡ ok a) ↔ IsAllocation i a
unfolding allocate_nonce
allocate_nonce-IsAllocation i a = (λ h. ground arith, λ t. ground arith)
