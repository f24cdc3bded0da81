-- ===== src/Reconciler/Delays.antt =====
-- When the reconciler tries an action again.
use hyper_trader.Common.{ℕ, zero, suc, ◌+◌, ◌*◌, ◌^◌, ◌≤◌, ◌<◌, ◌≡◌, min, arith}
use hyper_trader.Reconciler.{next_attempt}

power_pos : (n : ℕ) → 1 ≤ 2 ^ n
power_pos zero = omega arith
power_pos (suc n) = omega (arith, power_pos n)

-- What is asked of the next time: soon, and never past the moment at which the action has expired.
pub record IsNextAttempt (attempts expires now next : ℕ) : Type 0 where
  pub later : now < next
  pub soon : next ≤ now + 30_000
  pub before_expiry : now < expires + 1_000 → next ≤ expires + 1_000
  pub after_expiry : expires + 1_000 ≤ now → next ≡ now + 1_000
  pub backed_off : next ≤ now + 1_000 * 2 ^ attempts

power_mono : (m n : ℕ) → m ≤ n → 2 ^ m ≤ 2 ^ n
power_mono zero n h = power_pos n
power_mono (suc m) zero h = omega (arith, h)
power_mono (suc m) (suc n) h = omega (arith, power_mono m n (omega (arith, h)))

-- The next attempt is later than now and at most 30 seconds away, and at most 2^n seconds after n
-- attempts; before the action has expired by a second it is never put past that moment, and from then
-- on it is always a second away.
pub next_attempt-IsNextAttempt :
    (attempts expires now : ℕ)
    → IsNextAttempt attempts expires now (next_attempt attempts expires now)
unfolding next_attempt
next_attempt-IsNextAttempt attempts expires now =
    let one = power_pos (min attempts 5) in
    let mono = power_mono (min attempts 5) attempts (omega arith) in
    record {
      later = ground (arith, one);
      soon = ground arith;
      before_expiry = λ h. ground arith;
      after_expiry = λ h. ground (arith, one);
      backed_off = ground (arith, mono);
    }
