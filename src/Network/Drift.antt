-- ===== src/Network/Drift.antt =====
-- What packages/account-abstraction/src/nonce-drift.ts says of two nonces, and which nonce it gives.
use ancore.Common.{
  ℕ, zero, suc, ◌+◌, ◌≤◌, ◌<◌, Bool, true, false, ◌||◌, not, Option, some, Text, pos, negsuc, ◌≡◌,
  ◌≢◌, refl, sym, ◌∙◌, ◌⊎◌, ◌↔◌, inl, inr, ◌==◌, arith, Bool-cases,
}
use ancore.Network.Retry.{Attempt, succeeds, throws}
use ancore.Network.SdkRetry.{returned, threw}
use ancore.Network.Attempts.{Attempt-cases}
use ancore.Network.Nonce.{
  JsNumber, integer, not_integer, exact_match, observed_ahead, observed_behind, excessive_drift,
  invalid_nonce_state, is_valid_nonce, detect_nonce_drift, FetchError, is_invalid_nonce, try_fetch,
  fetch_loop, fetch_and_increment_nonce,
}

-- Each kind of drift is reported exactly where it holds: for valid nonces, by their order and their
-- distance from one another; and otherwise the state is invalid.
pub detect_nonce_drift_lem :
    (expected observed threshold : ℕ)
    → let kind =
        (detect_nonce_drift
          (integer (pos expected))
          (integer (pos observed))
          (some threshold)).kind in
      ((kind ≡ exact_match) ↔ (expected ≡ observed))
      × ((kind ≡ observed_ahead) ↔ ((expected < observed) × (observed ≤ expected + threshold)))
      × ((kind ≡ observed_behind) ↔ ((observed < expected) × (expected ≤ observed + threshold)))
      × ((kind ≡ excessive_drift)
          ↔ ((expected + threshold < observed) ⊎ (observed + threshold < expected)))
      × (kind ≢ invalid_nonce_state)
unfolding detect_nonce_drift
detect_nonce_drift_lem expected observed threshold = ground arith

detect_nonce_drift-invalid :
    (expected observed : JsNumber) (threshold : Option ℕ)
    → ((detect_nonce_drift expected observed threshold).kind ≡ invalid_nonce_state)
      ↔ ((is_valid_nonce expected ≡ false) ⊎ (is_valid_nonce observed ≡ false))
unfolding detect_nonce_drift
detect_nonce_drift-invalid expected observed threshold = ground arith

try_fetch-succeeds :
    (named : Bool) (x : Attempt JsNumber (Option Text)) (n : ℕ)
    → try_fetch named x ≡ succeeds n
    → (m : ℕ) × (x ≡ succeeds (integer (pos m))) × (n ≡ m + 1)
unfolding try_fetch
try_fetch-succeeds named (succeeds (integer (pos current))) n h = (current, refl, cc)
try_fetch-succeeds named (succeeds (integer (negsuc k))) n h = cc
try_fetch-succeeds named (succeeds not_integer) n h = cc
try_fetch-succeeds named (throws m) n h = cc

module _ (fetch_nonce : ℕ → Attempt JsNumber (Option Text)) (named : Bool)
    (max_retries base_delay_ms : ℕ) where
  -- The attempt whose nonce is returned, with one added to it.
  abbrev pub Fetched : ℕ → ℕ → ℕ → Type 0
  Fetched attempt rounds n =
      (k : ℕ) × (m : ℕ) × (attempt ≤ k)
      × (k < attempt + rounds)
      × (fetch_nonce k ≡ succeeds (integer (pos m)))
      × (n ≡ m + 1)

  later : (rounds attempt n : ℕ) → Fetched (attempt + 1) rounds n → Fetched attempt (suc rounds) n
  later rounds attempt n (k, m, lo, hi, e, g) = (k, m, omega arith, omega arith, e, g)

  loop-stop :
      (rounds attempt : ℕ) (x : FetchError)
      → try_fetch named (fetch_nonce attempt) ≡ throws x
      → not (is_invalid_nonce x) || attempt == max_retries ≡ true
      → (fetch_loop fetch_nonce named max_retries base_delay_ms (suc rounds) attempt).0 ≡ threw x
  unfolding fetch_loop
  loop-stop rounds attempt x e s = rw (e, fetch_loop, s) refl

  loop-again :
      (rounds attempt : ℕ) (x : FetchError)
      → try_fetch named (fetch_nonce attempt) ≡ throws x
      → not (is_invalid_nonce x) || attempt == max_retries ≡ false
      → (fetch_loop fetch_nonce named max_retries base_delay_ms (suc rounds) attempt).0
        ≡ (fetch_loop fetch_nonce named max_retries base_delay_ms rounds (attempt + 1)).0
  unfolding fetch_loop
  loop-again rounds attempt x e s = rw (e, fetch_loop, s) refl

  loop-got :
      (rounds attempt a : ℕ)
      → try_fetch named (fetch_nonce attempt) ≡ succeeds a
      → (fetch_loop fetch_nonce named max_retries base_delay_ms (suc rounds) attempt).0 ≡ returned a
  unfolding fetch_loop
  loop-got rounds attempt a e = rw (e, fetch_loop) refl

  loop-Fetched :
      (rounds attempt n : ℕ)
      → (fetch_loop fetch_nonce named max_retries base_delay_ms rounds attempt).0 ≡ returned n
      → Fetched attempt rounds n
  unfolding fetch_loop
  loop-Fetched zero attempt n h = cc
  loop-Fetched (suc rounds) attempt n h =
      elim (Attempt-cases (try_fetch named (fetch_nonce attempt))) [
        | inl (a, e) ↦
            let (m, f, g) = try_fetch-succeeds named (fetch_nonce attempt) a e in
            let same : a ≡ n = (let z = loop-got rounds attempt a e in cc) in
            (attempt, m, omega arith, omega arith, f, omega arith)
        | inr (x, e) ↦ elim (Bool-cases (not (is_invalid_nonce x) || attempt == max_retries)) [
          | inl s ↦ let z = loop-stop rounds attempt x e s in absurd cc
          | inr s ↦
              later rounds attempt n
                (loop-Fetched rounds (attempt + 1) n (sym (loop-again rounds attempt x e s) ∙ h))
        ]
      ]

  -- A nonce that is given is one more than the nonce that one of the attempts fetched, and there are
  -- at most `max_retries + 1` of them.
  pub fetch_and_increment_nonce-Fetched :
      (n : ℕ)
      → (fetch_and_increment_nonce fetch_nonce named max_retries base_delay_ms).0 ≡ returned n
      → Fetched 0 (max_retries + 1) n
  unfolding fetch_and_increment_nonce
  fetch_and_increment_nonce-Fetched n h = loop-Fetched (max_retries + 1) 0 n h
