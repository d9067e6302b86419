-- ===== src/Network/Nonce.antt =====
-- packages/account-abstraction/src/nonce-drift.ts. A nonce that is given is a JavaScript number: an
-- integer, or one that is not (a fraction, `NaN` or an infinity). The messages are left out.
use ancore.Common.{
  ℕ, zero, suc, ◌+◌, ◌-◌, ◌*◌, ◌^◌, Bool, true, false, ◌||◌, not, Option, none, some, get_or, List,
  [], ◌∷◌, Text, ℤ, pos, negsuc, codes, includes, if◌then◌else◌, ltb, leb, ◌==◌,
}
use ancore.Network.Retry.{Attempt, succeeds, throws}
use ancore.Network.SdkRetry.{RetryOutcome, returned, threw, threw_undefined}

pub data JsNumber : Type 0 where
  integer : ℤ → JsNumber
  not_integer : JsNumber

pub data NonceDriftKind : Type 0 where
  exact_match observed_ahead observed_behind excessive_drift invalid_nonce_state : NonceDriftKind

-- `delta` is missing where the source has `NaN`.
pub record NonceDriftResult : Type 0 where
  pub kind : NonceDriftKind
  pub delta : Option ℤ

abbrev pub is_valid_nonce : JsNumber → Bool
is_valid_nonce (integer (pos n)) = true
is_valid_nonce (integer (negsuc n)) = false
is_valid_nonce not_integer = false

abbrev pub invalid : NonceDriftResult
invalid = record { kind = invalid_nonce_state; delta = none }

-- `observed - expected`
abbrev pub difference : ℕ → ℕ → ℤ
difference expected observed =
    if leb expected observed then pos (observed - expected) else negsuc (expected - observed - 1)

abbrev pub magnitude : ℤ → ℕ
magnitude (pos n) = n
magnitude (negsuc n) = suc n

abbrev pub is_zero : ℤ → Bool
is_zero (pos n) = n == 0
is_zero (negsuc n) = false

abbrev pub is_positive : ℤ → Bool
is_positive (pos n) = ltb 0 n
is_positive (negsuc n) = false

-- What follows the validation.
unfoldable pub classify : ℕ → ℕ → ℕ → NonceDriftResult
classify expected observed threshold =
    let delta = difference expected observed in
    if is_zero delta
    then record { kind = exact_match; delta = some (pos 0) }
    else if ltb threshold (magnitude delta)
    then record { kind = excessive_drift; delta = some delta }
    else if is_positive delta
    then record { kind = observed_ahead; delta = some delta }
    else record { kind = observed_behind; delta = some delta }

unfoldable pub detect_nonce_drift : JsNumber → JsNumber → Option ℕ → NonceDriftResult
unfolding classify
detect_nonce_drift (integer (pos expected)) (integer (pos observed)) threshold =
    classify expected observed (get_or threshold 10)
detect_nonce_drift (integer (pos expected)) (integer (negsuc n)) threshold = invalid
detect_nonce_drift (integer (pos expected)) not_integer threshold = invalid
detect_nonce_drift (integer (negsuc n)) observed threshold = invalid
detect_nonce_drift not_integer observed threshold = invalid

-- The error of the fetcher, by its message where it is an `Error`, or the error for a nonce that is
-- not valid, whose message has no `InvalidNonce` but for what the address puts there.
pub data FetchError : Type 0 where
  fetcher_threw : Option Text → FetchError
  returned_invalid : Bool → FetchError

abbrev pub is_invalid_nonce : FetchError → Bool
is_invalid_nonce (fetcher_threw none) = false
is_invalid_nonce (fetcher_threw (some m)) = includes (codes "InvalidNonce") m
is_invalid_nonce (returned_invalid named) = named

-- The `try` block. `named` says whether the address has the text `InvalidNonce` in it.
unfoldable pub try_fetch : Bool → Attempt JsNumber (Option Text) → Attempt ℕ FetchError
try_fetch named (succeeds (integer (pos current))) = succeeds (current + 1)
try_fetch named (succeeds (integer (negsuc n))) = throws (returned_invalid named)
try_fetch named (succeeds not_integer) = throws (returned_invalid named)
try_fetch named (throws m) = throws (fetcher_threw m)

module _ (fetch_nonce : ℕ → Attempt JsNumber (Option Text)) (named : Bool)
    (max_retries base_delay_ms : ℕ) where
  abbrev pub slept : ℕ → RetryOutcome ℕ FetchError × List ℕ → RetryOutcome ℕ FetchError × List ℕ
  slept delay (result, delays) = (result, delay ∷ delays)

  unfoldable pub fetch_loop : ℕ → ℕ → RetryOutcome ℕ FetchError × List ℕ
  unfolding try_fetch
  fetch_loop zero attempt = (threw_undefined, [])
  fetch_loop (suc rounds) attempt = elim (try_fetch named (fetch_nonce attempt)) [
    | succeeds n ↦ (returned n, [])
    | throws e ↦
        let rest = slept (base_delay_ms * 2 ^ attempt) (fetch_loop rounds (attempt + 1)) in
        if not (is_invalid_nonce e) || attempt == max_retries then (threw e, []) else rest
  ]

  unfoldable pub fetch_and_increment_nonce : RetryOutcome ℕ FetchError × List ℕ
  unfolding fetch_loop
  fetch_and_increment_nonce = fetch_loop (max_retries + 1) 0
