-- ===== src/Network/SdkRetry.antt =====
-- packages/core-sdk/src/utils/retry.ts: the loop and its delays. What the function that is retried does
-- at each attempt, counted from 0, is an argument, and so are `isRetryable` and the draws of
-- `Math.random()`. `onRetry` is left out: its errors are caught. Products are exact.
use ancore.Common.{
  ℕ, zero, suc, ◌+◌, ◌-◌, ◌*◌, ◌/◌, ◌^◌, min, Bool, true, ◌&&◌, ◌||◌, not, Option, none, some, List,
  [], ◌∷◌, if◌then◌else◌, ltb, leb, ◌==◌,
}
use ancore.Queue.Backoff.{Random}
use ancore.Network.Retry.{Attempt, succeeds, throws}

-- A factor of the jitter, as a fraction.
pub record Factor : Type 0 where
  pub num : ℕ
  pub den : ℕ

pub record RetryOptions : Type 0 where
  pub max_retries : ℕ
  pub base_delay_ms : ℕ
  pub max_delay_ms : ℕ
  pub exponential : Bool
  pub jitter : Option Factor

-- `DEFAULT_RETRY_OPTIONS`; `jitter: true` is one tenth.
abbrev pub default_retry_options : RetryOptions
default_retry_options = record {
  max_retries = 3;
  base_delay_ms = 100;
  max_delay_ms = 10000;
  exponential = true;
  jitter = some (record { num = 1; den = 10 });
}

-- At a number.
unfoldable pub is_transient_status_code : ℕ → Bool
is_transient_status_code status =
    (leb 500 status && ltb status 600) || status == 429 || status == 408

-- `Math.round(delay * (1 + (random * 2 - 1) * factor))`, or 0 where that is negative.
unfoldable pub jittered : ℕ → Factor → Random → ℕ
jittered delay f random =
    let den = f.den * random.den in
    let scaled = delay * (den + 2 * random.num * f.num - random.den * f.num) in
    (2 * scaled + den) / (2 * den)

unfoldable pub calculate_backoff_delay : ℕ → RetryOptions → Random → ℕ
unfolding jittered
calculate_backoff_delay attempt o random =
    let delay =
      if o.exponential
      then min (o.base_delay_ms * 2 ^ attempt) o.max_delay_ms
      else min o.base_delay_ms o.max_delay_ms in
    elim o.jitter [
      | none ↦ min delay o.max_delay_ms
      | some f ↦ min (jittered delay f random) o.max_delay_ms
    ]

-- `withRetry` returns, or throws the last error.
pub data RetryOutcome {ℓ κ} (A : Type ℓ) (E : Type κ) : Type (ℓ ⊔ κ) where
  returned : A → RetryOutcome A E
  threw : E → RetryOutcome A E
  threw_undefined : RetryOutcome A E

module _ {ℓ κ} {A : Type ℓ} {E : Type κ} (fn : ℕ → Attempt A E) (is_retryable : E → Bool)
    (random : ℕ → Random) (o : RetryOptions) where
  abbrev pub slept : ℕ → RetryOutcome A E × List ℕ → RetryOutcome A E × List ℕ
  slept delay (result, delays) = (result, delay ∷ delays)

  -- The loop, by the rounds that are left. No round at all would throw `undefined`.
  unfoldable pub retry_loop : ℕ → ℕ → RetryOutcome A E × List ℕ
  unfolding calculate_backoff_delay
  retry_loop zero attempt = (threw_undefined, [])
  retry_loop (suc rounds) attempt = elim (fn attempt) [
    | succeeds a ↦ (returned a, [])
    | throws e ↦
        let rest =
          slept (calculate_backoff_delay attempt o (random attempt))
            (retry_loop rounds (attempt + 1)) in
        if not (is_retryable e)
        then (threw e, [])
        else if leb o.max_retries attempt
        then (threw e, [])
        else rest
  ]

  unfoldable pub with_retry : RetryOutcome A E × List ℕ
  unfolding retry_loop
  with_retry = retry_loop (o.max_retries + 1) 0
