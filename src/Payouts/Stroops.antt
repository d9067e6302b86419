-- ===== src/Payouts/Stroops.antt =====
-- The round trip of amounts.
use ancore.Common.{
  ℕ, ◌+◌, ◌*◌, ◌/◌, ◌%◌, true, [], ◌∷◌, ◌++◌, Text, length, ◌≡◌, refl, sym, ap, ◌∙◌, arith,
}
use ancore.Encoding.Decimal.{
  all_digits, big_int, to_decimal, pad_end, pad_start, strip_zeros, before, behind, zeros,
}
use ancore.Encoding.Decimals.{
  big_int-to_decimal, to_decimal-all_digits, big_int-pad_start, pad_end-strip_zeros, before-digits,
  behind-digits, before-only_digits, behind-only_digits, length-to_decimal, length-pad_start,
  zeros-all_digits, all_digits-append, all_digits-strip_zeros,
}
use ancore.Payouts.Amounts.{stroops_per_unit, decimal_to_stroops, with_fraction, format_stroops}

stroops-with_fraction :
    (whole fraction : Text)
    → all_digits whole ≡ true
    → all_digits fraction ≡ true
    → decimal_to_stroops (with_fraction whole fraction)
      ≡ big_int whole * stroops_per_unit + big_int (pad_end 7 fraction)
unfolding decimal_to_stroops with_fraction
stroops-with_fraction whole [] h k =
    ap (λ s. big_int s * stroops_per_unit + big_int (pad_end 7 (before b'.' (behind b'.' whole))))
      (before-only_digits b'.' refl whole h)
    ∙ ap (λ s. big_int whole * stroops_per_unit + big_int (pad_end 7 (before b'.' s)))
        (behind-only_digits b'.' refl whole h)
    ∙ (unfold before in refl)
stroops-with_fraction whole (c ∷ s) h k =
    ap
      (λ t.
        big_int t * stroops_per_unit
        + big_int (pad_end 7 (before b'.' (behind b'.' (whole ++ (b'.' ∷ c ∷ s))))))
      (before-digits b'.' refl whole (c ∷ s) h)
    ∙ ap (λ t. big_int whole * stroops_per_unit + big_int (pad_end 7 (before b'.' t)))
        (behind-digits b'.' refl whole (c ∷ s) h)
    ∙ ap (λ t. big_int whole * stroops_per_unit + big_int (pad_end 7 t))
        (before-only_digits b'.' refl (c ∷ s) k)

module _ (n : ℕ) where
  padded : Text
  padded = pad_start 7 (to_decimal (n % stroops_per_unit))

  length-padded : length padded ≡ 7
  unfolding padded
  length-padded =
      length-pad_start 7 (to_decimal (n % stroops_per_unit))
        (length-to_decimal 7 (n % stroops_per_unit) (omega arith) (omega arith))

  padded-all_digits : all_digits padded ≡ true
  unfolding padded pad_start
  padded-all_digits =
      all_digits-append (zeros _) (to_decimal (n % stroops_per_unit)) (zeros-all_digits _)
        (to_decimal-all_digits (n % stroops_per_unit))

  big_int-padded : big_int (pad_end 7 (strip_zeros padded)) ≡ n % stroops_per_unit
  unfolding padded
  big_int-padded =
      ap (λ l. big_int (pad_end l (strip_zeros padded))) (sym length-padded)
      ∙ ap big_int (pad_end-strip_zeros padded)
      ∙ big_int-pad_start 7 (to_decimal (n % stroops_per_unit))
      ∙ big_int-to_decimal (n % stroops_per_unit)

  -- A number of stroops is read from the amount that is printed for it.
  pub decimal_to_stroops-format_stroops : decimal_to_stroops (format_stroops n) ≡ n
  unfolding format_stroops padded
  decimal_to_stroops-format_stroops =
      let whole = to_decimal (n / stroops_per_unit) in
      stroops-with_fraction whole (strip_zeros padded)
        (to_decimal-all_digits (n / stroops_per_unit))
        (all_digits-strip_zeros padded padded-all_digits)
      ∙ ap (λ u. u * stroops_per_unit + big_int (pad_end 7 (strip_zeros padded)))
          (big_int-to_decimal (n / stroops_per_unit))
      ∙ ap (λ f. n / stroops_per_unit * stroops_per_unit + f) big_int-padded
      ∙ omega arith
