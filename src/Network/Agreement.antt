-- ===== src/Network/Agreement.antt =====
-- The retries of packages/core-sdk/src/utils/retry.ts beside those of packages/stellar/src/retry.ts.
use ancore.Common.{
  ℕ, zero, suc, ◌+◌, Bool, true, false, Option, none, some, List, [], ◌≡◌, refl, ap, ◌∙◌, subst,
  ◌⊎◌, inl, inr, leb, length, arith, Bool-cases,
}
use ancore.Queue.Backoff.{Random}
use ancore.Network.Retry.{Attempt, succeeds, throws, Retried, exhausted, passes, as_error}
use ancore.Network.Retry
use ancore.Network.Attempts.{Attempt-cases, loop-returned, loop-exhausted, loop-refused, loop-slept}
use ancore.Network.SdkRetry.{
  RetryOptions, calculate_backoff_delay, RetryOutcome, returned, threw, threw_undefined, slept,
  retry_loop, with_retry,
}

-- The result of the other package without its count of attempts.
abbrev pub uncounted {ℓ κ} : {A : Type ℓ} {E : Type κ} → Retried A E → RetryOutcome A E
uncounted (Retried.returned a) = returned a
uncounted (Retried.threw e) = threw e
uncounted (exhausted n none) = threw_undefined
uncounted (exhausted n (some e)) = threw e

module _ {ℓ κ} {A : Type ℓ} {E : Type κ} (fn : ℕ → Attempt A E) (is_retryable : E → Bool)
    (random : ℕ → Random) (o : RetryOptions) (p : Retry.RetryOptions E)
    (same_limit : p.max_retries ≡ o.max_retries)
    (same_test : p.is_retryable ≡ some is_retryable) where
  -- The two results agree, and the two loops slept as often.
  abbrev Agree : RetryOutcome A E × List ℕ → Retried A E × List ℕ → Type (ℓ ⊔ κ)
  Agree x y = (x.0 ≡ uncounted y.0) × (length x.1 ≡ length y.1)

  abbrev delay : ℕ → ℕ
  delay attempt = calculate_backoff_delay attempt o (random attempt)

  sdk-returned :
      (rounds attempt : ℕ) (a : A)
      → fn (attempt + 1) ≡ succeeds a
      → retry_loop (λ n. fn (n + 1)) is_retryable random o (suc rounds) attempt ≡ (returned a, [])
  unfolding retry_loop
  sdk-returned rounds attempt a h = rw (h, retry_loop) refl

  sdk-threw :
      (rounds attempt : ℕ) (e : E)
      → fn (attempt + 1) ≡ throws e
      → (is_retryable e ≡ false) ⊎ (leb o.max_retries attempt ≡ true)
      → retry_loop (λ n. fn (n + 1)) is_retryable random o (suc rounds) attempt ≡ (threw e, [])
  unfolding retry_loop
  sdk-threw rounds attempt e h (inl r) = rw (h, retry_loop, r) refl
  sdk-threw rounds attempt e h (inr t) =
      rw (h, retry_loop, t)
        (elim (Bool-cases (is_retryable e)) [ inl b ↦ rw b refl | inr b ↦ rw b refl ])

  sdk-slept :
      (rounds attempt : ℕ) (e : E)
      → fn (attempt + 1) ≡ throws e
      → is_retryable e ≡ true
      → leb o.max_retries attempt ≡ false
      → retry_loop (λ n. fn (n + 1)) is_retryable random o (suc rounds) attempt
        ≡ slept
            (λ n. fn (n + 1))
            is_retryable
            random
            o
            (delay attempt)
            (retry_loop (λ n. fn (n + 1)) is_retryable random o rounds (attempt + 1))
  unfolding retry_loop
  sdk-slept rounds attempt e h r t = rw (h, retry_loop, r, t) refl

  passes-same : (e : E) → passes p.is_retryable e ≡ is_retryable e
  passes-same e = ap (λ f. passes f e) same_test

  loop-uncounted :
      (rounds attempt : ℕ) (last : Option E)
      → attempt + rounds ≡ o.max_retries
      → Agree
          (retry_loop (λ n. fn (n + 1)) is_retryable random o (suc rounds) attempt)
          (Retry.retry_loop fn p (suc rounds) (attempt + 1) last)
  loop-uncounted zero attempt last h = elim (Attempt-cases (fn (attempt + 1))) [
    | inl (a, e) ↦
        rw (sdk-returned zero attempt a e, loop-returned fn p zero (attempt + 1) last a e)
          (refl, refl)
    | inr (x, e) ↦
        rw
          (
            sdk-threw zero attempt x e (inr (ground arith)),
            loop-exhausted fn p zero (attempt + 1) last x e (ground (arith, same_limit)),
          )
          (refl, refl)
  ]
  loop-uncounted (suc rounds) attempt last h = elim (Attempt-cases (fn (attempt + 1))) [
    | inl (a, e) ↦
        rw
          (
            sdk-returned (suc rounds) attempt a e,
            loop-returned fn p (suc rounds) (attempt + 1) last a e,
          )
          (refl, refl)
    | inr (x, e) ↦ elim (Bool-cases (is_retryable x)) [
      | inl b ↦
          let (r, n) = loop-uncounted rounds (attempt + 1) (some x) (omega arith) in
          rw
            (
              sdk-slept (suc rounds) attempt x e b (ground arith),
              loop-slept fn p (suc rounds) (attempt + 1) last x e (ground (arith, same_limit))
                  (passes-same x ∙ b),
            )
            (r, omega (arith, n))
      | inr b ↦
          rw
            (
              sdk-threw (suc rounds) attempt x e (inl b),
              loop-refused fn p (suc rounds) (attempt + 1) last x e (ground (arith, same_limit))
                  (passes-same x ∙ b),
            )
            (refl, refl)
    ]
  ]

  errors-uncounted :
      Agree
        (with_retry (λ n. fn (n + 1)) is_retryable random o)
        (Retry.retry_loop fn p (p.max_retries + 1) 1 none)
  unfolding with_retry
  errors-uncounted =
      let rounds : suc o.max_retries ≡ o.max_retries + 1 = omega arith in
      let rounds' : suc o.max_retries ≡ p.max_retries + 1 = omega (arith, same_limit) in
      let first : ◌≡◌ {A = ℕ} (0 + 1) 1 = omega arith in
      subst
        (λ n.
          Agree (retry_loop (λ m. fn (m + 1)) is_retryable random o n 0)
            (Retry.retry_loop fn p (p.max_retries + 1) 1 none))
        rounds
        (subst
          (λ n.
            Agree (retry_loop (λ m. fn (m + 1)) is_retryable random o (suc o.max_retries) 0)
              (Retry.retry_loop fn p n 1 none))
          rounds' (loop-uncounted o.max_retries 0 none (omega arith)))

-- The outcome with an error made of what was thrown.
abbrev pub outcome_of {ℓ κ ι} :
    {A : Type ℓ} {E : Type κ} {X : Type ι} → (X → E) → RetryOutcome A X → RetryOutcome A E
outcome_of to_error (returned a) = returned a
outcome_of to_error (threw x) = threw (to_error x)
outcome_of to_error threw_undefined = threw_undefined

module _ {ℓ κ ι} {A : Type ℓ} {E : Type κ} {X : Type ι} (to_error : X → E) (is_retryable : E → Bool)
    (random : ℕ → Random) (o : RetryOptions) where
  -- The loop of core-sdk does the same with the errors as with what was thrown.
  loop-outcome_of :
      (fn : ℕ → Attempt A X) (rounds attempt : ℕ)
      → (outcome_of to_error
            (retry_loop fn (λ x. is_retryable (to_error x)) random o rounds attempt).0
          ≡ (retry_loop (λ n. as_error to_error (fn n)) is_retryable random o rounds attempt).0)
        × (length (retry_loop fn (λ x. is_retryable (to_error x)) random o rounds attempt).1
            ≡ length
                (retry_loop (λ n. as_error to_error (fn n)) is_retryable random o rounds attempt).1)
  unfolding retry_loop
  loop-outcome_of fn zero attempt = (refl, refl)
  loop-outcome_of fn (suc rounds) attempt =
      let (r, n) = loop-outcome_of fn rounds (attempt + 1) in
      elim (Attempt-cases (fn attempt)) [
        | inl (a, e) ↦ rw (e, retry_loop) (refl, refl)
        | inr (x, e) ↦ elim (Bool-cases (is_retryable (to_error x))) [
          | inr b ↦ rw (e, retry_loop, b) (refl, refl)
          | inl b ↦ elim (Bool-cases (leb o.max_retries attempt)) [
            | inl t ↦ rw (e, retry_loop, b, t) (refl, refl)
            | inr t ↦ rw (e, retry_loop, b, t) (r, ap suc n)
          ]
        ]
      ]

  -- With the same limit, the same test of errors and the same attempts, the two packages return the
  -- same value, or the one throws what was thrown last and the other an error made of it, which
  -- `RetryExhaustedError` may wrap; and they make the same number of attempts.
  pub with_retry-uncounted :
      (fn : ℕ → Attempt A X) (p : Retry.RetryOptions E)
      → p.max_retries ≡ o.max_retries
      → p.is_retryable ≡ some is_retryable
      → let sdk = with_retry (λ n. fn (n + 1)) (λ x. is_retryable (to_error x)) random o in
        let stellar = Retry.with_retry to_error fn p in
        (outcome_of to_error sdk.0 ≡ uncounted stellar.0) × (length sdk.1 ≡ length stellar.1)
  unfolding with_retry Retry.with_retry
  with_retry-uncounted fn p same_limit same_test =
      let (r, n) = loop-outcome_of (λ n. fn (n + 1)) (o.max_retries + 1) 0 in
      let (r', n') =
        errors-uncounted (λ n. as_error to_error (fn n)) is_retryable random o p same_limit
          same_test in
      (r ∙ r', n ∙ n')
