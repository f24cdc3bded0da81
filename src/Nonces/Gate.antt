-- ===== src/Nonces/Gate.antt =====
-- The clock gate against the conditions that it stands for.
use hyper_trader.Common.{
  ℕ, ◌+◌, ◌-◌, ◌≤◌, ◌≡◌, ◌↔◌, Option, none, some, arith, Number, pos, negsuc, other,
  max_safe_integer, natural, ok,
}
use hyper_trader.Nonces.{
  ClockGateInput, assert_clock_gate, max_clock_rollback_ms, max_server_sample_age_ms,
  max_server_skew_ms,
}

-- A number that is a time in milliseconds: an integer from 0 to the largest safe one.
abbrev pub IsMilliseconds : Number → Type 0
IsMilliseconds (pos n) = n ≤ max_safe_integer
IsMilliseconds (negsuc n) = ⊥
IsMilliseconds other = ⊥

-- The wall clock seen last is a time, and it is at most a second ahead.
abbrev pub IsNotRolledBack : Option Number → ℕ → Type 0
IsNotRolledBack none wall = Unit
IsNotRolledBack (some last) wall =
    IsMilliseconds last × (natural last ≤ wall + max_clock_rollback_ms)

-- The server's time, carried forward by what the monotonic clock has counted since the sample.
abbrev pub server_now : ClockGateInput → ℕ
server_now i =
    natural i.server_time_ms
    + (natural i.monotonic_time_ms - natural i.server_sampled_at_monotonic_ms)

pub record IsTrusted (i : ClockGateInput) : Type 0 where
  pub wall_read : IsMilliseconds i.wall_time_ms
  pub monotonic_read : IsMilliseconds i.monotonic_time_ms
  pub server_read : IsMilliseconds i.server_time_ms
  pub sampled_read : IsMilliseconds i.server_sampled_at_monotonic_ms
  pub sampled_before : natural i.server_sampled_at_monotonic_ms ≤ natural i.monotonic_time_ms
  pub sample_fresh :
      natural i.monotonic_time_ms
      ≤ natural i.server_sampled_at_monotonic_ms + max_server_sample_age_ms
  pub server_safe : server_now i ≤ max_safe_integer
  pub wall_not_behind : server_now i ≤ natural i.wall_time_ms + max_server_skew_ms
  pub wall_not_ahead : natural i.wall_time_ms ≤ server_now i + max_server_skew_ms
  pub not_rolled_back : IsNotRolledBack i.last_observed_wall_ms (natural i.wall_time_ms)

-- The gate opens exactly on the inputs that it should trust: four times, a sample no older than
-- thirty seconds, a wall clock within five seconds of the server's and at most one second back.
pub assert_clock_gate-IsTrusted : (i : ClockGateInput) → (assert_clock_gate i ≡ ok tt) ↔ IsTrusted i
unfolding assert_clock_gate
assert_clock_gate-IsTrusted i = (λ h. ground arith, λ t. ground arith)
