-- ===== src/Examples/Network.antt =====
-- An attempt that fails once, under both retries.
use ancore.Common.{
  ℕ, ◌+◌, true, some, Text, codes, ◌≡◌, refl, arith, length, if◌then◌else◌, ◌==◌, text_eq,
}
use ancore.Queue.Backoff.{Random}
use ancore.Network.Retry.{Attempt, succeeds, throws, as_error, RetryOptions, default_options}
use ancore.Network.Retry
use ancore.Network.SdkRetry
use ancore.Network.Attempts.{Decided, with_retry-Decided}
use ancore.Network.Agreement.{uncounted, outcome_of, with_retry-uncounted}

-- The first attempt throws a number, of which an error is made.
abbrev flaky : ℕ → Attempt ℕ ℕ
flaky n = if n == 2 then succeeds 7 else throws 503

abbrev to_error : ℕ → Text
to_error n = if n == 503 then codes "503" else codes "other"

abbrev options : RetryOptions Text
options = record default_options { is_retryable = some (λ e. true) }

with_retry-Decided_example :
    Decided (λ n. as_error to_error (flaky n)) options 1 (Retry.with_retry to_error flaky options)
with_retry-Decided_example = with_retry-Decided to_error flaky options

abbrev half : ℕ → Random
half n = record { num = 1; den = 2; below = omega arith }

with_retry-uncounted_example :
    let sdk =
      SdkRetry.with_retry (λ n. flaky (n + 1)) (λ x. true) half SdkRetry.default_retry_options in
    let stellar = Retry.with_retry to_error flaky options in
    (outcome_of to_error sdk.0 ≡ uncounted stellar.0) × (length sdk.1 ≡ length stellar.1)
with_retry-uncounted_example =
    with_retry-uncounted to_error (λ e. true) half SdkRetry.default_retry_options flaky options refl
      refl
