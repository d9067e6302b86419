-- ===== src/Network/Attempts.antt =====
-- Which attempt decides the result of packages/stellar/src/retry.ts.
use ancore.Common.{
  ℕ, zero, suc, ◌+◌, ◌-◌, ◌≤◌, ◌<◌, Bool, true, false, Option, none, some, List, [], ◌∷◌, ◌≡◌, refl,
  ap, sym, ◌∙◌, subst, ◌⊎◌, inl, inr, ltb, arith, Bool-cases,
}
use native.Mathlib.Decide.{dec_lt}
use ancore.Network.Retry.{
  Attempt, succeeds, throws, Retried, returned, threw, exhausted, RetryOptions, calculate_delay,
  passes, slept, retry_loop, as_error, with_retry,
}

pub Attempt-cases {ℓ κ} :
    {A : Type ℓ} {E : Type κ} (x : Attempt A E)
    → ((a : A) × (x ≡ succeeds a)) ⊎ ((e : E) × (x ≡ throws e))
Attempt-cases (succeeds a) = inl (a, refl)
Attempt-cases (throws e) = inr (e, refl)

pub calculate_delay-le :
    (attempt base top : ℕ) (x : Bool) → calculate_delay attempt base x top ≤ top
unfolding calculate_delay
calculate_delay-le attempt base top x = ground arith

module _ {ℓ κ} {A : Type ℓ} {E : Type κ} (fn : ℕ → Attempt A E) (options : RetryOptions E) where
  -- The delays after `n` attempts from this one on.
  abbrev pub delays_from : ℕ → ℕ → List ℕ
  delays_from attempt zero = []
  delays_from attempt (suc n) =
      calculate_delay attempt options.base_delay_ms options.exponential options.max_delay_ms
      ∷ delays_from (attempt + 1) n

  -- The attempt `k` gives the result: it succeeds, or it is the last, or its error is not retryable.
  abbrev pub Decides : ℕ → Retried A E → Type (ℓ ⊔ κ)
  Decides k result =
      ((a : A) × (fn k ≡ succeeds a) × (result ≡ returned a))
      ⊎ (((e : E) × (fn k ≡ throws e) × (options.max_retries < k) × (result ≡ exhausted k (some e)))
          ⊎ ((e : E) × (fn k ≡ throws e)
              × (k ≤ options.max_retries)
              × (passes options.is_retryable e ≡ false)
              × (result ≡ threw e)))

  -- From an attempt on: the ones before `k` failed with errors that are retryable, and slept.
  pub record Decided (attempt : ℕ) (r : Retried A E × List ℕ) : Type (ℓ ⊔ κ) where
    pub k : ℕ
    pub from : attempt ≤ k
    pub to : k ≤ options.max_retries + 1
    pub earlier :
        (j : ℕ)
        → attempt ≤ j
        → j < k
        → (e : E) × (fn j ≡ throws e) × (passes options.is_retryable e ≡ true)
    pub decides : Decides k r.0
    pub delays : r.1 ≡ delays_from attempt (k - attempt)

  here :
      (attempt : ℕ) (r : Retried A E × List ℕ)
      → attempt ≤ options.max_retries + 1
      → Decides attempt r.0
      → r.1 ≡ []
      → Decided attempt r
  here attempt r h d e = record {
    k = attempt;
    from = omega arith;
    to = h;
    earlier = λ j lo hi. absurd (omega arith);
    decides = d;
    delays = e ∙ ap (delays_from attempt) (let z : 0 ≡ attempt - attempt = omega arith in z);
  }

  delays_step :
      (attempt k : ℕ)
      → attempt + 1 ≤ k
      → (calculate_delay attempt options.base_delay_ms options.exponential options.max_delay_ms
          ∷ delays_from (attempt + 1) (k - (attempt + 1)))
        ≡ delays_from attempt (k - attempt)
  delays_step attempt k h =
      ap (delays_from attempt) (let z : suc (k - (attempt + 1)) ≡ k - attempt = omega arith in z)

  pub loop-returned :
      (rounds attempt : ℕ) (last : Option E) (a : A)
      → fn attempt ≡ succeeds a
      → retry_loop fn options (suc rounds) attempt last ≡ (returned a, [])
  unfolding retry_loop
  loop-returned rounds attempt last a h = rw (h, retry_loop) refl

  pub loop-exhausted :
      (rounds attempt : ℕ) (last : Option E) (x : E)
      → fn attempt ≡ throws x
      → ltb options.max_retries attempt ≡ true
      → retry_loop fn options (suc rounds) attempt last ≡ (exhausted attempt (some x), [])
  unfolding retry_loop
  loop-exhausted rounds attempt last x h t = rw (h, retry_loop, t) refl

  pub loop-refused :
      (rounds attempt : ℕ) (last : Option E) (x : E)
      → fn attempt ≡ throws x
      → ltb options.max_retries attempt ≡ false
      → passes options.is_retryable x ≡ false
      → retry_loop fn options (suc rounds) attempt last ≡ (threw x, [])
  unfolding retry_loop
  loop-refused rounds attempt last x h t p = rw (h, retry_loop, t, p) refl

  pub loop-slept :
      (rounds attempt : ℕ) (last : Option E) (x : E)
      → fn attempt ≡ throws x
      → ltb options.max_retries attempt ≡ false
      → passes options.is_retryable x ≡ true
      → retry_loop fn options (suc rounds) attempt last
        ≡ slept fn options
            (calculate_delay attempt options.base_delay_ms options.exponential options.max_delay_ms)
            (retry_loop fn options rounds (attempt + 1) (some x))
  unfolding retry_loop
  loop-slept rounds attempt last x h t p = rw (h, retry_loop, t, p) refl

  -- A retryable failure, and what follows it.
  after :
      (attempt : ℕ) (x : E) (r : Retried A E × List ℕ)
      → fn attempt ≡ throws x
      → passes options.is_retryable x ≡ true
      → Decided (attempt + 1) r
      → Decided attempt (
          slept fn options
            (calculate_delay attempt options.base_delay_ms options.exponential options.max_delay_ms)
            r)
  after attempt x r h p d = record {
    k = d.k;
    from = omega (arith, d.from);
    to = d.to;
    earlier = λ j lo hi. elim (dec_lt attempt j) [
      | yes q ↦ d.earlier j (omega arith) hi
      | no q ↦
          let at : j ≡ attempt = omega arith in
          subst (λ i. (e : E) × (fn i ≡ throws e) × (passes options.is_retryable e ≡ true)) (sym at)
            (x, h, p)
    ];
    decides = d.decides;
    delays =
        ap
          (λ ds.
            calculate_delay attempt options.base_delay_ms options.exponential options.max_delay_ms
            ∷ ds)
          d.delays
        ∙ delays_step attempt d.k d.from;
  }

  loop_lem :
      (rounds attempt : ℕ) (last : Option E)
      → attempt + rounds ≡ options.max_retries + 1
      → Decided attempt (retry_loop fn options (suc rounds) attempt last)
  loop_lem zero attempt last h = elim (Attempt-cases (fn attempt)) [
    | inl (a, e) ↦
        subst (Decided attempt) (sym (loop-returned zero attempt last a e))
          (here attempt _ (omega arith) (inl (a, e, refl)) refl)
    | inr (x, e) ↦
        subst (Decided attempt) (sym (loop-exhausted zero attempt last x e (ground arith)))
          (here attempt _ (omega arith) (inr (inl (x, e, omega arith, refl))) refl)
  ]
  loop_lem (suc rounds) attempt last h = elim (Attempt-cases (fn attempt)) [
    | inl (a, e) ↦
        subst (Decided attempt) (sym (loop-returned (suc rounds) attempt last a e))
          (here attempt _ (omega arith) (inl (a, e, refl)) refl)
    | inr (x, e) ↦ elim (Bool-cases (passes options.is_retryable x)) [
      | inl p ↦
          subst (Decided attempt) (sym (loop-slept (suc rounds) attempt last x e (ground arith) p))
            (after attempt x _ e p (loop_lem rounds (attempt + 1) (some x) (omega arith)))
      | inr p ↦
          subst (Decided attempt)
            (sym (loop-refused (suc rounds) attempt last x e (ground arith) p))
            (here attempt _ (omega arith) (inr (inr (x, e, omega arith, p, refl))) refl)
    ]
  ]

  all_rounds : Decided 1 (retry_loop fn options (options.max_retries + 1) 1 none)
  all_rounds =
      subst (λ n. Decided 1 (retry_loop fn options n 1 none))
        (let z : suc options.max_retries ≡ options.max_retries + 1 = omega arith in z)
        (loop_lem options.max_retries 1 none (omega arith))

module _ {ℓ κ} {A : Type ℓ} {E : Type κ} where
  -- One attempt decides the result: it succeeds, or it is the last one allowed, or its error is not
  -- retryable. All attempts before it failed with retryable errors, and after each of them the loop
  -- slept for its delay. The errors are those that are made of whatever was thrown.
  pub with_retry-Decided {ι} :
      {X : Type ι} (to_error : X → E) (fn : ℕ → Attempt A X) (options : RetryOptions E)
      → Decided (λ n. as_error to_error (fn n)) options 1 (with_retry to_error fn options)
  unfolding with_retry
  with_retry-Decided to_error fn options = all_rounds (λ n. as_error to_error (fn n)) options

  as_error-id : (x : Attempt A E) → as_error (λ e. e) x ≡ x
  as_error-id (succeeds a) = refl
  as_error-id (throws e) = refl

  -- Where nothing but errors are thrown.
  pub with_retry-Decided_errors :
      (fn : ℕ → Attempt A E) (options : RetryOptions E)
      → Decided fn options 1 (with_retry (λ e. e) fn options)
  with_retry-Decided_errors fn options =
      subst (λ f. Decided f options 1 (with_retry (λ e. e) fn options))
        (λ i n. as_error-id (fn n) i) (with_retry-Decided (λ e. e) fn options)
