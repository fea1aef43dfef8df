-- ===== src/Retry/Backoff/Growth.antt =====
-- How the delay of a retry grows with the number of failed attempts.
use native.Mathlib.Nat.{pow-zero, pow-suc}
use citrineos_ocpi.Prelude.{ℕ, zero, suc, ◌+◌, ◌*◌, ◌^◌, ◌≤◌, ◌<◌, min, max, ◌≡◌, arith}
use citrineos_ocpi.Retry.Backoff.{
  BackoffOptions, compute_gireve_retry_delay_seconds, compute_gireve_next_retry_at,
}

abbrev delay : ℕ → BackoffOptions → ℕ
delay = compute_gireve_retry_delay_seconds

-- The interval after n failed attempts, before the cap.
interval : ℕ → BackoffOptions → ℕ
interval n o = o.base_interval_seconds * o.multiplier ^ n

interval-suc : (n : ℕ) (o : BackoffOptions) → interval (suc n) o ≡ interval n o * o.multiplier
unfolding interval
interval-suc n o = rw pow-suc (grind arith)

delay-eq-min : (n : ℕ) (o : BackoffOptions) → delay n o ≡ min (interval n o) o.max_interval_seconds
unfolding interval compute_gireve_retry_delay_seconds
delay-eq-min n o = let e : max 0 n ≡ n = omega arith in rw e

-- The next interval, seen through the cap.
min-mul_min : (a m c : ℕ) → 1 ≤ m → min (a * m) c ≡ min (min a c * m) c
min-mul_min a m c h = grind arith

-- With a multiplier of at least 1, the delay after one more failed attempt is the last delay times
-- the multiplier, cut at the maximal interval.
delay-suc :
    (n : ℕ) (o : BackoffOptions)
    → 1 ≤ o.multiplier
    → delay (suc n) o ≡ min (delay n o * o.multiplier) o.max_interval_seconds
delay-suc n o h = rw (delay-eq-min (suc n) o, delay-eq-min n o, interval-suc) (min-mul_min _ _ _ h)

delay-le-delay-suc : (n : ℕ) (o : BackoffOptions) → 1 ≤ o.multiplier → delay n o ≤ delay (suc n) o
delay-le-delay-suc n o h = grind (arith, delay-suc n o h, delay-eq-min n o)

delay-le-delay_add : (n k : ℕ) (o : BackoffOptions) → 1 ≤ o.multiplier → delay n o ≤ delay (k + n) o
delay-le-delay_add n zero o h = let e : zero + n ≡ n = omega arith in rw e (omega arith)
delay-le-delay_add n (suc k) o h =
    let e : suc k + n ≡ suc (k + n) = omega arith in
    rw e (omega (arith, delay-le-delay_add n k o h, delay-le-delay-suc (k + n) o h))

lt-pow : (n m : ℕ) → 2 ≤ m → n < m ^ n
lt-pow zero m h = rw pow-zero (omega arith)
lt-pow (suc n) m h = rw pow-suc (grind (arith, lt-pow n m h))

interval-ge :
    (n : ℕ) (o : BackoffOptions) → 1 ≤ o.base_interval_seconds → 2 ≤ o.multiplier → n ≤ interval n o
unfolding interval
interval-ge n o b m = grind (arith, lt-pow n o.multiplier m)

-- With a multiplier of at least 1, a retry with no fewer failed attempts is not due earlier, counted
-- from the same instant, and never later than the maximal interval after that instant.
next_retry_at_mono :
    (n k from : ℕ) (o : BackoffOptions)
    → 1 ≤ o.multiplier
    → (compute_gireve_next_retry_at n o from ≤ compute_gireve_next_retry_at (k + n) o from)
      × (compute_gireve_next_retry_at (k + n) o from ≤ from + o.max_interval_seconds * 1000)
unfolding compute_gireve_next_retry_at
next_retry_at_mono n k from o h =
    (omega (arith, delay-le-delay_add n k o h), omega (arith, delay-eq-min (k + n) o))

-- With a base of at least 1 s and a multiplier of at least 2 the backoff reaches its cap: from as
-- many failed attempts as the maximal interval has seconds, the delay is that interval.
delay_reaches_cap :
    (n : ℕ) (o : BackoffOptions)
    → 1 ≤ o.base_interval_seconds
    → 2 ≤ o.multiplier
    → o.max_interval_seconds ≤ n
    → delay n o ≡ o.max_interval_seconds
delay_reaches_cap n o b m h = omega (arith, delay-eq-min n o, interval-ge n o b m)
