-- ===== src/Nonces.antt =====
-- packages/hyperliquid/src/nonces/allocation.ts: the clock gate and the allocation of a nonce.
-- Times arrive as JavaScript numbers and are naturals once validated. Every sum below is of safe
-- integers, where doubles are exact, or is refused because it passes the largest one.
pub mod Bounds
pub mod Gate
use hyper_trader.Common.{
  ℕ, ◌+◌, ◌-◌, max, Bool, ◌||◌, not, Option, none, some, ltb, leb, if◌then◌else◌, Number,
  max_safe_integer, is_safe_integer, is_negative, natural, Result, ok, err, validation, throw_if,
  ◌>>=◌, ◌>>◌, String,
}

abbrev pub action_expiry_ms : ℕ
action_expiry_ms = 15_000

abbrev pub max_clock_rollback_ms : ℕ
max_clock_rollback_ms = 1_000

abbrev pub max_server_sample_age_ms : ℕ
max_server_sample_age_ms = 30_000

abbrev pub max_server_skew_ms : ℕ
max_server_skew_ms = 5_000

pub record ClockGateInput : Type 0 where
  pub wall_time_ms : Number
  pub monotonic_time_ms : Number
  pub server_time_ms : Number
  pub server_sampled_at_monotonic_ms : Number
  pub last_observed_wall_ms : Option Number

pub record NonceAllocationInput : Type 0 where
  pub clock : ClockGateInput
  pub open clock use *
  pub last_issued_nonce : Option Number

pub record NonceAllocation : Type 0 where
  pub nonce : ℕ
  pub expires_after_ms : ℕ
  pub observed_wall_ms : ℕ

unfoldable pub safe_milliseconds : Number → String → Result ℕ
safe_milliseconds value path =
    if not (is_safe_integer value) || is_negative value
    then err (validation path "expected a non-negative safe-integer millisecond value")
    else ok (natural value)

-- `Math.abs(a - b)`
abbrev pub distance : ℕ → ℕ → ℕ
distance a b = if ltb a b then b - a else a - b

-- The last test of the gate: how far the wall clock has moved back.
abbrev check_rollback : Option Number → ℕ → Result (Unit {0})
unfolding safe_milliseconds
check_rollback none wall = ok tt
check_rollback (some last) wall = do
  observed ← safe_milliseconds last "clock.lastObservedWallMs"
  throw_if (ltb (wall + max_clock_rollback_ms) observed)
      (validation "clock.rollback" "the device wall clock moved backwards by more than 1 second")

unfoldable pub assert_clock_gate : ClockGateInput → Result (Unit {0})
unfolding safe_milliseconds check_rollback
assert_clock_gate input = do
  wall ← safe_milliseconds input.wall_time_ms "clock.wallTimeMs"
  monotonic ← safe_milliseconds input.monotonic_time_ms "clock.monotonicTimeMs"
  server ← safe_milliseconds input.server_time_ms "clock.serverTimeMs"
  sampled_at ←
      safe_milliseconds input.server_sampled_at_monotonic_ms "clock.serverSampledAtMonotonicMs"
  throw_if (ltb monotonic sampled_at || ltb max_server_sample_age_ms (monotonic - sampled_at))
      (validation "clock.serverSample" "the authoritative server-time sample is missing or stale")
  let advanced = server + (monotonic - sampled_at)
  throw_if (ltb max_safe_integer advanced || ltb max_server_skew_ms (distance wall advanced))
      (validation "clock.skew" "device and Hyperliquid time differ by more than 5 seconds")
  check_rollback input.last_observed_wall_ms wall

-- `lastIssuedNonce === null ? null : safeMilliseconds(lastIssuedNonce)`
abbrev prior_nonce : Option Number → Result (Option ℕ)
unfolding safe_milliseconds
prior_nonce none = ok none
prior_nonce (some last) = do nonce ← safe_milliseconds last "lastIssuedNonce"; ok (some nonce)

-- `(prior ?? -1) + 1`
abbrev pub after_prior : Option ℕ → ℕ
after_prior none = 0
after_prior (some prior) = prior + 1

-- The gate has validated the wall time when `natural` reads it.
unfoldable pub allocate_nonce : NonceAllocationInput → Result NonceAllocation
unfolding assert_clock_gate prior_nonce
allocate_nonce input = do
  assert_clock_gate input.clock
  prior ← prior_nonce input.last_issued_nonce
  let wall = natural input.wall_time_ms
  let nonce = max wall (after_prior prior)
  let expires_after_ms = wall + action_expiry_ms
  throw_if (ltb max_safe_integer expires_after_ms || leb expires_after_ms nonce)
      (validation "expiresAfterMs" "the next signer nonce is too far ahead of validated wall time")
  ok (record { nonce = nonce; expires_after_ms = expires_after_ms; observed_wall_ms = wall })
