-- ===== src/Network/Fetching.antt =====
-- What packages/stellar/src/account-sequence.ts answers, from its cache and from its attempts.
use ancore.Common.{
  ℕ, ◌+◌, ◌<◌, none, some, Text, ◌≡◌, refl, ap, sym, ◌∙◌, subst, inl, inr, if◌then◌else◌, ltb, ◌==◌,
  text_eq, arith, Bool-cases, text_beq_iff,
}
use native.Mathlib.Decide.{dec_lt}
use ancore.Common.Table
use ancore.Common.Table.{Table, get-set, get-delete}
use ancore.Network.Retry.{Attempt, throws, Retried, returned, threw, exhausted, with_retry}
use ancore.Network.Attempts.{Decides, with_retry-Decided_errors}
use ancore.Network.Sequence.{
  Raw, StellarError, account_not_found, network_error, CacheEntry, AccountSequenceResult,
  FetchOptions, to_stellar_error, is_retryable, retry_options, to_attempt, resolved, rejected,
  settle_fetch, fetch_account_sequence,
}

abbrev run : (ℕ → Attempt ℕ Raw) → FetchOptions → Retried ℕ StellarError
run loads o = (with_retry (λ e. e) (λ n. to_attempt (loads n)) (retry_options o)).0

fetch-hit :
    (loads : ℕ → Attempt ℕ Raw) (o : FetchOptions) (account_id : Text) (start now later : ℕ)
    (cache : Table Text CacheEntry) (c : CacheEntry)
    → 0 < o.cache_ttl_ms
    → Table.get account_id cache ≡ some c
    → start < c.expires_at
    → fetch_account_sequence loads o account_id start now later cache ≡ (
      resolved
          (record { sequence = c.sequence; account_id = account_id; fetched_at = c.fetched_at }),
      cache,
    )
unfolding fetch_account_sequence
fetch-hit loads o account_id start now later cache c h e t = ground arith

fetch-miss :
    (loads : ℕ → Attempt ℕ Raw) (o : FetchOptions) (account_id : Text) (start now later : ℕ)
    (cache : Table Text CacheEntry)
    → Table.get account_id cache ≡ none
    → (c : Table Text CacheEntry) × (fetch_account_sequence loads o account_id start now later cache
        ≡ settle_fetch o account_id now later c (run loads o))
unfolding fetch_account_sequence
fetch-miss loads o account_id start now later cache e = elim (Bool-cases (ltb 0 o.cache_ttl_ms)) [
  | inl on ↦ (Table.delete account_id cache, rw (on, fetch_account_sequence, e) refl)
  | inr off ↦ (cache, rw (off, fetch_account_sequence) refl)
]

settle_fetch-entry :
    (o : FetchOptions) (account_id : Text) (now later : ℕ) (cache : Table Text CacheEntry)
    (result : Retried ℕ StellarError) (r : AccountSequenceResult)
    → 0 < o.cache_ttl_ms
    → (settle_fetch o account_id now later cache result).0 ≡ resolved r
    → Table.get account_id (settle_fetch o account_id now later cache result).1
      ≡ some (record { sequence = r.sequence; fetched_at = now; expires_at = now + o.cache_ttl_ms })
unfolding settle_fetch
settle_fetch-entry o account_id now later cache (returned sequence) r h e = ground (
  arith,
  get-set account_id account_id
      (record { sequence = sequence; fetched_at = now; expires_at = now + o.cache_ttl_ms }) cache,
  text_beq_iff account_id account_id,
)
settle_fetch-entry o account_id now later cache (threw x) r h e = cc
settle_fetch-entry o account_id now later cache (exhausted n x) r h e = cc

-- Once an account that is not in the cache has been fetched, a second fetch of it within the time to
-- live answers the same sequence, whatever the network would do, and leaves the cache as it is.
pub fetch_twice :
    (loads again : ℕ → Attempt ℕ Raw) (o : FetchOptions) (account_id : Text)
    (start now later start' now' later' : ℕ) (cache : Table Text CacheEntry)
    (r : AccountSequenceResult)
    → 0 < o.cache_ttl_ms
    → Table.get account_id cache ≡ none
    → (fetch_account_sequence loads o account_id start now later cache).0 ≡ resolved r
    → start' < now + o.cache_ttl_ms
    → let cache' = (fetch_account_sequence loads o account_id start now later cache).1 in
      fetch_account_sequence again o account_id start' now' later' cache' ≡ (
        resolved (record { sequence = r.sequence; account_id = account_id; fetched_at = now }),
        cache',
      )
fetch_twice loads again o account_id start now later start' now' later' cache r on absent e t =
    let (c, eq) = fetch-miss loads o account_id start now later cache absent in
    let stored =
      settle_fetch-entry o account_id now later c (run loads o) r on (sym (ap (λ x. x.0) eq) ∙ e) in
    fetch-hit again o account_id start' now' later'
      (fetch_account_sequence loads o account_id start now later cache).1
      (record { sequence = r.sequence; fetched_at = now; expires_at = now + o.cache_ttl_ms }) on
      (ap (λ x. Table.get account_id x.1) eq ∙ stored) t

missing-run :
    (loads : ℕ → Attempt ℕ Raw) (o : FetchOptions) (e : Raw)
    → loads 1 ≡ throws e
    → to_stellar_error e ≡ account_not_found
    → run loads o ≡ (
        if o.max_retries == 0
        then exhausted 1 (some account_not_found)
        else threw account_not_found)
unfolding is_retryable
missing-run loads o e first missing =
    let d = with_retry-Decided_errors (λ n. to_attempt (loads n)) (retry_options o) in
    let thrown : to_attempt (loads 1) ≡ throws account_not_found =
      ap to_attempt first ∙ ap throws missing in
    elim (dec_lt 1 d.k) [
      | yes q ↦ let (x, h, p) = d.earlier 1 (omega arith) q in absurd (ground arith)
      | no q ↦
          let one : d.k ≡ 1 = omega (arith, d.from) in
          decided
            (subst (λ k. Decides (λ n. to_attempt (loads n)) (retry_options o) k (run loads o)) one
              d.decides)
            thrown
    ]
  where
    decided :
        Decides (λ n. to_attempt (loads n)) (retry_options o) 1 (run loads o)
        → to_attempt (loads 1) ≡ throws account_not_found
        → run loads o ≡ (
            if o.max_retries == 0
            then exhausted 1 (some account_not_found)
            else threw account_not_found)
    decided (inl (a, h, r)) t = absurd (ground arith)
    decided (inr (inl (x, h, m, r))) t = ground arith
    decided (inr (inr (x, h, m, p, r))) t = ground arith

-- An account that the first attempt does not find is reported as such where retries are allowed.
-- Where none is, the error is a network error with no status.
pub missing_account :
    (loads : ℕ → Attempt ℕ Raw) (o : FetchOptions) (account_id : Text) (start now later : ℕ)
    (cache : Table Text CacheEntry) (e : Raw)
    → Table.get account_id cache ≡ none
    → loads 1 ≡ throws e
    → to_stellar_error e ≡ account_not_found
    → (fetch_account_sequence loads o account_id start now later cache).0
      ≡ rejected (if o.max_retries == 0 then network_error none else account_not_found)
unfolding settle_fetch
missing_account loads o account_id start now later cache e absent first missing =
    let (c, eq) = fetch-miss loads o account_id start now later cache absent in
    let ran = missing-run loads o e first missing in
    ap (λ x. x.0) eq
    ∙ ap (λ x. (settle_fetch o account_id now later c x).0) ran
    ∙ (elim (Bool-cases (o.max_retries == 0)) [ inl z ↦ rw z refl | inr z ↦ rw z refl ])
