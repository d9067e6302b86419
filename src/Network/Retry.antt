-- ===== src/Network/Retry.antt =====
-- packages/stellar/src/retry.ts. What the function that is retried does at each attempt, counted
-- from 1, is an argument, and so is `error instanceof Error ? error : new Error(String(error))`, which
-- makes an error of whatever was thrown. The sleeps are part of the result, by their lengths.
use ancore.Common.{
  ℕ, zero, suc, ◌+◌, ◌-◌, ◌*◌, ◌^◌, min, Bool, true, not, Option, none, some, get_or, List, [], ◌∷◌,
  if◌then◌else◌, ltb,
}

pub data Attempt {ℓ κ} (A : Type ℓ) (E : Type κ) : Type (ℓ ⊔ κ) where
  succeeds : A → Attempt A E
  throws : E → Attempt A E

-- `RetryExhaustedError` has the number of attempts and the last error.
pub data Retried {ℓ κ} (A : Type ℓ) (E : Type κ) : Type (ℓ ⊔ κ) where
  returned : A → Retried A E
  threw : E → Retried A E
  exhausted : ℕ → Option E → Retried A E

pub record RetryOptions {κ} (E : Type κ) : Type κ where
  pub max_retries : ℕ
  pub base_delay_ms : ℕ
  pub max_delay_ms : ℕ
  pub exponential : Bool
  pub is_retryable : Option (E → Bool)

-- `DEFAULT_OPTIONS`
abbrev pub default_options {κ} : {E : Type κ} → RetryOptions E
default_options = record {
  max_retries = 3;
  base_delay_ms = 1000;
  max_delay_ms = 30000;
  exponential = true;
  is_retryable = none;
}

pub record RetryPresetConfig : Type 0 where
  pub max_attempts : ℕ
  pub base_delay_ms : ℕ
  pub exponential : Option Bool

abbrev pub wallet : RetryPresetConfig
wallet = record { max_attempts = 3; base_delay_ms = 200; exponential = none }

abbrev pub indexer : RetryPresetConfig
indexer = record { max_attempts = 5; base_delay_ms = 500; exponential = none }

-- With no overrides; `withRetry` fills in the rest by its defaults.
unfoldable pub retry_options_from_preset {κ} : {E : Type κ} → RetryPresetConfig → RetryOptions E
retry_options_from_preset preset = record default_options {
  max_retries = preset.max_attempts - 1;
  base_delay_ms = preset.base_delay_ms;
  exponential = get_or preset.exponential true;
}

-- The first attempt is 1.
unfoldable pub calculate_delay : ℕ → ℕ → Bool → ℕ → ℕ
calculate_delay attempt base_delay_ms exponential max_delay_ms =
    if not exponential
    then min base_delay_ms max_delay_ms
    else min (base_delay_ms * 2 ^ (attempt - 1)) max_delay_ms

-- `isRetryable && !isRetryable(lastError)`, negated.
abbrev pub passes {κ} : {E : Type κ} → Option (E → Bool) → E → Bool
passes none e = true
passes (some f) e = f e

module _ {ℓ κ} {A : Type ℓ} {E : Type κ} (fn : ℕ → Attempt A E) (options : RetryOptions E) where
  abbrev pub slept : ℕ → Retried A E × List ℕ → Retried A E × List ℕ
  slept delay (result, delays) = (result, delay ∷ delays)

  -- The loop, by the rounds that are left; after the last stands the `throw` that is never reached.
  unfoldable pub retry_loop : ℕ → ℕ → Option E → Retried A E × List ℕ
  retry_loop zero attempt last = (exhausted (options.max_retries + 1) last, [])
  retry_loop (suc rounds) attempt last = elim (fn attempt) [
    | succeeds a ↦ (returned a, [])
    | throws e ↦
        let delay =
          calculate_delay attempt options.base_delay_ms options.exponential options.max_delay_ms in
        let rest = slept delay (retry_loop rounds (attempt + 1) (some e)) in
        if ltb options.max_retries attempt
        then (exhausted attempt (some e), [])
        else if not (passes options.is_retryable e)
        then (threw e, [])
        else rest
  ]

-- The `catch`: what was thrown, as an error.
abbrev pub as_error {ℓ κ ι} :
    {A : Type ℓ} {E : Type κ} {X : Type ι} → (X → E) → Attempt A X → Attempt A E
as_error to_error (succeeds a) = succeeds a
as_error to_error (throws x) = throws (to_error x)

unfoldable pub with_retry {ℓ κ ι} :
    {A : Type ℓ} {E : Type κ} {X : Type ι}
    → (X → E)
    → (ℕ → Attempt A X)
    → RetryOptions E
    → Retried A E × List ℕ
unfolding retry_loop
with_retry to_error fn options =
    retry_loop (λ n. as_error to_error (fn n)) options (options.max_retries + 1) 1 none
