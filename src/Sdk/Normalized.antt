-- ===== src/Sdk/Normalized.antt =====
-- What normalizeAmount promises: the text that it returns stands for the amount that was given.
use ancore.Common.{
  ℕ, suc, ◌+◌, ◌-◌, ◌<◌, true, false, not, Option, none, some, [], ◌∷◌, ◌++◌, Text, trim, length,
  ◌==◌, ◌||◌, ℤ, ◌≡◌, ◌≢◌, refl, sym, ap, subst, ◌∙◌, arith, inl, inr, Option-cases,
}
use ancore.Encoding.Decimal.{to_decimal, pad_start, strip_zeros, zeros}
use ancore.Encoding.Decimals.{to_decimal-ne-nil}
use ancore.Sdk.Scaled.{to_scaled-format_scaled}
use ancore.Sdk.Amount.{
  RawAmount, missing, text, number, NormalizationOptions, unparsable, Normalized, ok, is_decimal,
  exceeds_precision, to_scaled_big_int, int_ltb, abs_int, slice_front, slice_back, or_zero,
  join_parts, sign_of, format_magnitude, format_scaled, check_zero, check_maximum, check_range,
  scale_amount, normalize_text, normalize_amount,
}

-- `strAmount`
abbrev pub amount_text : RawAmount → ℕ → Option Text
amount_text missing p = none
amount_text (text s) p = some (trim s)
amount_text (number to_fixed) p = some (to_fixed (p + 1))

-- No more than the upper bound, where there is one.
abbrev pub AtMost : Option Text → ℕ → ℤ → Type 0
AtMost none p v = Unit {0}
AtMost (some max) p v = (m : ℤ) × (to_scaled_big_int max p ≡ some m) × (int_ltb m v ≡ false)

-- What the checks found of the text `s`, scaled to `v`.
pub record Accepted (o : NormalizationOptions) (s : Text) (v : ℤ) : Type 0 where
  pub decimal : is_decimal s ≡ true
  pub exact : exceeds_precision o.precision s ≡ false
  pub scaled : to_scaled_big_int s o.precision ≡ some v
  pub at_least : (m : ℤ) × (to_scaled_big_int o.min o.precision ≡ some m) × (int_ltb v m ≡ false)
  pub at_most : AtMost o.max o.precision v
  pub zero_allowed : (o.allow_zero || not (abs_int v == 0)) ≡ true

check_zero-ok :
    (o : NormalizationOptions) (v : ℤ) (r : Text)
    → check_zero o v ≡ ok r
    → (r ≡ format_scaled o.precision v) × ((o.allow_zero || not (abs_int v == 0)) ≡ true)
unfolding check_zero
check_zero-ok o v r h = (ground arith, ground arith)

check_maximum-ok :
    (o : NormalizationOptions) (v : ℤ) (r : Text) → check_maximum o v ≡ ok r → check_zero o v ≡ ok r
unfolding check_maximum
check_maximum-ok o v r h = ground arith

check_range-ok :
    (o : NormalizationOptions) (v : ℤ) (r : Text)
    → check_range o v ≡ ok r
    → ((m : ℤ) × (to_scaled_big_int o.min o.precision ≡ some m) × (int_ltb v m ≡ false))
      × (check_maximum o v ≡ ok r)
unfolding check_range
check_range-ok o v r h = elim (Option-cases (to_scaled_big_int o.min o.precision)) [
  | inl e ↦ absurd (let z : Normalized.error unparsable ≡ ok r = ground (arith, e, h) in cc z)
  | inr (m, e) ↦ ((m, e, ground (arith, e, h)), ground (arith, e, h))
]

check_maximum-AtMost :
    (o : NormalizationOptions) (v : ℤ) (r : Text)
    → check_maximum o v ≡ ok r
    → AtMost o.max o.precision v
unfolding check_maximum
check_maximum-AtMost o v r h = elim (Option-cases o.max) [
  | inl e ↦ subst (λ x. AtMost x o.precision v) (sym e) tt
  | inr (max, e) ↦ subst (λ x. AtMost x o.precision v) (sym e) (within max e)
]
  where
    within : (max : Text) → o.max ≡ some max → AtMost (some max) o.precision v
    within max e = elim (Option-cases (to_scaled_big_int max o.precision)) [
      | inl n ↦
          absurd (let z : Normalized.error unparsable ≡ ok r = ground (arith, e, n, h) in cc z)
      | inr (m, n) ↦ (m, n, ground (arith, e, n, h))
    ]

scale_amount-ok :
    (o : NormalizationOptions) (s r : Text)
    → scale_amount o s ≡ ok r
    → (v : ℤ) × (to_scaled_big_int s o.precision ≡ some v) × (check_range o v ≡ ok r)
unfolding scale_amount
scale_amount-ok o s r h = elim (Option-cases (to_scaled_big_int s o.precision)) [
  | inl e ↦ absurd (let z : Normalized.error unparsable ≡ ok r = ground (arith, e, h) in cc z)
  | inr (v, e) ↦ (v, e, ground (arith, e, h))
]

normalize_text-ok :
    (o : NormalizationOptions) (s r : Text)
    → normalize_text o s ≡ ok r
    → (v : ℤ) × Accepted o s v × (r ≡ format_scaled o.precision v)
unfolding normalize_text
normalize_text-ok o s r h =
    let (v, e, range) = scale_amount-ok o s r (ground (arith, h)) in
    let (least, maximum) = check_range-ok o v r range in
    let (printed, allowed) = check_zero-ok o v r (check_maximum-ok o v r maximum) in
    (
      v,
      record {
        decimal = ground (arith, h);
        exact = ground (arith, h);
        scaled = e;
        at_least = least;
        at_most = check_maximum-AtMost o v r maximum;
        zero_allowed = allowed;
      },
      printed,
    )

pub normalize_amount-Accepted :
    (amount : RawAmount) (o : NormalizationOptions) (r : Text)
    → normalize_amount amount o ≡ ok r
    → (s : Text) × (v : ℤ) × (amount_text amount o.precision ≡ some s)
      × Accepted o s v
      × (r ≡ format_scaled o.precision v)
unfolding normalize_amount
normalize_amount-Accepted missing o r h = cc
normalize_amount-Accepted (text s) o r h =
    let (v, a, e) = normalize_text-ok o (trim s) r (ground (arith, h)) in (trim s, v, refl, a, e)
normalize_amount-Accepted (number to_fixed) o r h =
    let (v, a, e) = normalize_text-ok o (to_fixed (o.precision + 1)) r h in
    (to_fixed (o.precision + 1), v, refl, a, e)

-- Where a precision of one or more is asked for: the text of an amount that is normalised, a number being
-- given by its `toFixed` of one digit more, is a decimal with no more than the precision. Scaled to an
-- integer, it is at least the minimum and at most the maximum, whose decimals are cut at the precision;
-- it is not zero unless that is allowed, and the result is scaled to the same integer.
pub normalize_amount-scaled :
    (amount : RawAmount) (o : NormalizationOptions) (r : Text)
    → normalize_amount amount o ≡ ok r
    → 0 < o.precision
    → (s : Text) × (v : ℤ) × (amount_text amount o.precision ≡ some s)
      × Accepted o s v
      × (to_scaled_big_int r o.precision ≡ some v)
normalize_amount-scaled amount o r h p =
    let (s, v, e, a, printed) = normalize_amount-Accepted amount o r h in
    let again : to_scaled_big_int r o.precision ≡ some v =
      ap (λ x. to_scaled_big_int x o.precision) printed
      ∙ subst (λ k. to_scaled_big_int (format_scaled k v) k ≡ some v)
          (let z : suc (o.precision - 1) ≡ o.precision = omega arith in z)
          (to_scaled-format_scaled (o.precision - 1) v) in
    (s, v, e, a, again)

pad_start-one : (s : Text) → s ≢ [] → pad_start (0 + 1) s ≡ s
unfolding pad_start zeros
pad_start-one [] h = absurd (h refl)
pad_start-one (c ∷ s) h =
    ap (λ k. zeros k ++ (c ∷ s)) (let z : 1 - suc (length s) ≡ 0 = omega arith in z)

-- With precision 0 the digits of the amount are returned as decimals behind `0.`: 5 becomes 0.5.
pub normalize_amount-zero_precision :
    (amount : RawAmount) (o : NormalizationOptions) (r : Text)
    → normalize_amount amount o ≡ ok r
    → o.precision ≡ 0
    → (s : Text) × (v : ℤ) × (amount_text amount o.precision ≡ some s)
      × (to_scaled_big_int s o.precision ≡ some v)
      × (r ≡ sign_of v ++ join_parts (b'0' ∷ []) (strip_zeros (to_decimal (abs_int v))))
normalize_amount-zero_precision amount o r h p =
    let (s, v, e, a, printed) = normalize_amount-Accepted amount o r h in
    (s, v, e, a.scaled, printed ∙ ap (λ k. format_scaled k v) p ∙ fraction_alone v)
  where
    fraction_alone :
        (v : ℤ)
        → format_scaled 0 v
          ≡ sign_of v ++ join_parts (b'0' ∷ []) (strip_zeros (to_decimal (abs_int v)))
    fraction_alone v =
        unfold format_scaled format_magnitude slice_front slice_back or_zero in
        ap (λ d. sign_of v ++ join_parts (b'0' ∷ []) (strip_zeros d))
          (pad_start-one (to_decimal (abs_int v)) (to_decimal-ne-nil (abs_int v)))
