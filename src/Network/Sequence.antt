-- ===== src/Network/Sequence.antt =====
-- packages/stellar/src/account-sequence.ts, over the retries of packages/stellar/src/retry.ts. What
-- `loadAccount` does at each attempt is an argument. The sequence that an account has is a number, so
-- that `BigInt` reads it. Messages are left out, but for the test on them.
use ancore.Common.{
  ℕ, ◌+◌, Bool, true, false, ◌||◌, Option, none, some, Text, codes, includes, if◌then◌else◌, ltb,
  leb, ◌==◌, text_eq,
}
use ancore.Common.Table
use ancore.Common.Table.{Table}
use ancore.Network.Retry.{
  Attempt, succeeds, throws, Retried, returned, threw, exhausted, RetryOptions, with_retry,
}

-- What was thrown, by the fields that `getStatusCode` reads where they are numbers, and the message
-- where it is an `Error`.
pub record Raw : Type 0 where
  pub status_code : Option ℕ
  pub status : Option ℕ
  pub response_status : Option ℕ
  pub error_message : Option Text

-- `AccountNotFoundError`, and `NetworkError` with its status code.
pub data StellarError : Type 0 where
  account_not_found : StellarError
  network_error : Option ℕ → StellarError

pub record CacheEntry : Type 0 where
  pub sequence : ℕ
  pub fetched_at : ℕ
  pub expires_at : ℕ

pub record AccountSequenceResult : Type 0 where
  pub sequence : ℕ
  pub account_id : Text
  pub fetched_at : ℕ

pub record FetchOptions : Type 0 where
  pub max_retries : ℕ
  pub cache_ttl_ms : ℕ

abbrev pub default_cache_ttl_ms : ℕ
default_cache_ttl_ms = 5000

abbrev pub or_else : Option ℕ → Option ℕ → Option ℕ
or_else none b = b
or_else (some a) b = some a

unfoldable pub get_status_code : Raw → Option ℕ
get_status_code e = or_else e.status_code (or_else e.status e.response_status)

abbrev pub is_404 : Option ℕ → Bool
is_404 none = false
is_404 (some s) = s == 404

abbrev pub says_not_found : Option Text → Bool
says_not_found none = false
says_not_found (some m) = includes (codes "Not Found") m

-- The `catch` inside the retried function.
unfoldable pub to_stellar_error : Raw → StellarError
unfolding get_status_code
to_stellar_error e =
    if is_404 (get_status_code e) || says_not_found e.error_message
    then account_not_found
    else elim e.error_message [
      | none ↦ network_error none
      | some m ↦ network_error (get_status_code e)
    ]

-- `isRetryable`
unfoldable pub is_retryable : StellarError → Bool
is_retryable account_not_found = false
is_retryable (network_error none) = true
is_retryable (network_error (some s)) = s == 429 || leb 500 s

abbrev pub retry_options : FetchOptions → RetryOptions StellarError
retry_options o = record {
  max_retries = o.max_retries;
  base_delay_ms = 200;
  max_delay_ms = 30000;
  exponential = true;
  is_retryable = some is_retryable;
}

-- What each attempt throws is an instance of `Error` already.
abbrev pub to_attempt : Attempt ℕ Raw → Attempt ℕ StellarError
to_attempt (succeeds sequence) = succeeds sequence
to_attempt (throws e) = throws (to_stellar_error e)

-- The entry, if it has not expired.
abbrev pub unexpired : ℕ → Option CacheEntry → Option CacheEntry
unexpired now none = none
unexpired now (some c) = if ltb now c.expires_at then some c else none

-- `fetchAccountSequence` returns, or throws: the last error is `NetworkError` with no status.
pub data Fetched : Type 0 where
  resolved : AccountSequenceResult → Fetched
  rejected : StellarError → Fetched

-- What follows the loop: the store of the result, the clock being read twice, and the outer `catch`.
unfoldable pub settle_fetch :
    FetchOptions
    → Text
    → ℕ
    → ℕ
    → Table Text CacheEntry
    → Retried ℕ StellarError
    → Fetched × Table Text CacheEntry
settle_fetch o account_id now later cache (returned sequence) = (
  resolved (record { sequence = sequence; account_id = account_id; fetched_at = later }),
  (if ltb 0 o.cache_ttl_ms
      then Table.set account_id
          (record { sequence = sequence; fetched_at = now; expires_at = now + o.cache_ttl_ms })
          cache
      else cache),
)
settle_fetch o account_id now later cache (threw e) = (rejected e, cache)
settle_fetch o account_id now later cache (exhausted n e) = (rejected (network_error none), cache)

-- `loads` is what the attempts do, and the clock is read at the start, and after the loop.
unfoldable pub fetch_account_sequence :
    (ℕ → Attempt ℕ Raw)
    → FetchOptions
    → Text
    → ℕ
    → ℕ
    → ℕ
    → Table Text CacheEntry
    → Fetched × Table Text CacheEntry
unfolding settle_fetch
fetch_account_sequence loads o account_id start now later cache =
    let run = λ (c : Table Text CacheEntry).
      settle_fetch o account_id now later c
        (with_retry (λ e. e) (λ n. to_attempt (loads n)) (retry_options o)).0 in
    if ltb 0 o.cache_ttl_ms
    then elim (unexpired start (Table.get account_id cache)) [
      | some c ↦ (
        resolved
            (record { sequence = c.sequence; account_id = account_id; fetched_at = c.fetched_at }),
        cache,
      )
      | none ↦ run (Table.delete account_id cache)
    ]
    else run cache
