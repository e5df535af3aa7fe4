-- ===== src/Outbox/Retry.antt =====
-- `retry_delay_seconds`: capped exponential backoff with jitter, and its bounds.
use native.Mathlib.Nat.{one-le-pow}
use judah.Prelude.{ℕ, ◌+◌, ◌-◌, ◌*◌, ◌^◌, ◌≤◌, min, max, arith}
use judah.Outbox.{Settings}

abbrev pub retry_base : Settings → ℕ
retry_base s = max s.retry_base 100_000

abbrev pub retry_cap : Settings → ℕ
retry_cap s = max s.retry_max (retry_base s)

unfoldable pub exponential_delay : Settings → ℕ → ℕ
exponential_delay s attempt = min (retry_base s * 2 ^ (attempt - 1)) (retry_cap s)

-- `jitter` is the draw of `random.uniform(0, exponential)`.
unfoldable pub retry_delay : Settings → ℕ → ℕ → ℕ
unfolding exponential_delay
retry_delay s attempt jitter = min (exponential_delay s attempt + jitter) (retry_cap s)

-- The delay lies between the capped exponential and the cap; it is at least a tenth of a second, and
-- no more than twice the exponential for a jitter within its range.
pub retry_delay_bounds :
    (s : Settings) (attempt jitter : ℕ)
    → jitter ≤ exponential_delay s attempt
    → (exponential_delay s attempt ≤ retry_delay s attempt jitter)
      × (retry_delay s attempt jitter ≤ retry_cap s)
      × (retry_delay s attempt jitter ≤ 2 * exponential_delay s attempt)
      × (100_000 ≤ retry_delay s attempt jitter)
unfolding retry_delay
retry_delay_bounds s attempt jitter h =
    let p : 1 ≤ 2 ^ (attempt - 1) = one-le-pow (attempt - 1) 2 (omega arith) in
    let m : retry_base s ≤ retry_base s * 2 ^ (attempt - 1) = grind arith in omega arith
