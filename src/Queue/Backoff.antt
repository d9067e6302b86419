-- ===== src/Queue/Backoff.antt =====
-- services/relayer/src/queue/backoff.ts. `Math.random()` is a parameter: the fraction `num / den`,
-- below 1. The source multiplies in floating point and rounds down; here the product is exact.
use ancore.Common.{ℕ, ◌+◌, ◌*◌, ◌/◌, ◌^◌, ◌≤◌, ◌<◌, min, arith, zero, suc}
use native.Mathlib.Nat.{div-lt_iff_lt-mul, pow-suc}

pub record Random : Type 0 where
  pub num : ℕ
  pub den : ℕ
  pub below : num < den

abbrev pub default_base_ms : ℕ
default_base_ms = 1000

abbrev pub default_cap_ms : ℕ
default_cap_ms = 60000

unfoldable pub compute_backoff_ms : Random → ℕ → ℕ → ℕ → ℕ
compute_backoff_ms random attempt base_ms cap_ms =
    let exponential = min cap_ms (base_ms * 2 ^ attempt) in random.num * exponential / random.den

unfoldable pub next_retry_after : Random → ℕ → ℕ → ℕ
unfolding compute_backoff_ms
next_retry_after random attempt now =
    now + compute_backoff_ms random attempt default_base_ms default_cap_ms

-- Below both the cap and the exponential, where these are not 0.
pub compute_backoff_ms-lt :
    (random : Random) (attempt base_ms cap_ms : ℕ)
    → 0 < min cap_ms (base_ms * 2 ^ attempt)
    → compute_backoff_ms random attempt base_ms cap_ms < min cap_ms (base_ms * 2 ^ attempt)
unfolding compute_backoff_ms
compute_backoff_ms-lt random attempt base_ms cap_ms h =
    (div-lt_iff_lt-mul (omega (arith, random.below))).1
      (scaled random.num random.den (min cap_ms (base_ms * 2 ^ attempt)) random.below h)
  where
    scaled : (n d e : ℕ) → n < d → 0 < e → n * e < e * d
    scaled n d e p q = grind arith

pow_pos : (attempt : ℕ) → 0 < 2 ^ attempt
pow_pos zero = omega arith
pow_pos (suc attempt) = rw (pow-suc 2 attempt) (omega (arith, pow_pos attempt))

-- A retry is due no earlier than now, and less than the cap and the exponential later.
pub next_retry_after_bounds :
    (random : Random) (attempt now : ℕ)
    → (now ≤ next_retry_after random attempt now)
      × (next_retry_after random attempt now < now + default_cap_ms)
      × (next_retry_after random attempt now < now + default_base_ms * 2 ^ attempt)
unfolding next_retry_after
next_retry_after_bounds random attempt now = omega (
  arith,
  compute_backoff_ms-lt random attempt default_base_ms default_cap_ms
      (omega (arith, pow_pos attempt)),
)
