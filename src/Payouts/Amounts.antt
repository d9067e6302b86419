-- ===== src/Payouts/Amounts.antt =====
-- Amounts of assets: decimalToStroops and formatStroops of
-- apps/web-dashboard/src/services/bulk-payouts.ts, and toScaledBigInt of
-- packages/core-sdk/src/amount.ts for the texts without a sign that reach it.
use ancore.Common.{
  ℕ, zero, suc, ◌+◌, ◌*◌, ◌/◌, ◌%◌, Bool, true, false, [], ◌∷◌, ◌++◌, Text, ◌==◌, if◌then◌else◌,
  ◌&&◌,
}
use ancore.Encoding.Decimal.{
  is_digit, big_int, to_decimal, pad_end, pad_start, strip_zeros, before, behind,
}

abbrev pub stroops_per_unit : ℕ
stroops_per_unit = 10000000

unfoldable pub decimal_to_stroops : Text → ℕ
unfolding big_int pad_end before behind
decimal_to_stroops amount =
    big_int (before b'.' amount) * stroops_per_unit
    + big_int (pad_end 7 (before b'.' (behind b'.' amount)))

-- The fraction is written only where it is not empty.
unfoldable pub with_fraction : Text → Text → Text
with_fraction whole [] = whole
with_fraction whole (c ∷ s) = whole ++ (b'.' ∷ c ∷ s)

unfoldable pub format_stroops : ℕ → Text
unfolding with_fraction to_decimal pad_start strip_zeros
format_stroops stroops =
    with_fraction (to_decimal (stroops / stroops_per_unit))
      (strip_zeros (pad_start 7 (to_decimal (stroops % stroops_per_unit))))

-- `\.\d{1,7}`, behind the point: `n` digits at most, and one at least.
unfoldable pub digits_up_to : ℕ → Text → Bool
digits_up_to n [] = true
digits_up_to zero (c ∷ s) = false
digits_up_to (suc n) (c ∷ s) = is_digit c && digits_up_to n s

unfoldable pub fraction_digits : Text → Bool
unfolding digits_up_to
fraction_digits [] = false
fraction_digits (c ∷ s) = digits_up_to 7 (c ∷ s)

unfoldable pub amount_rest : Text → Bool
unfolding fraction_digits
amount_rest [] = true
amount_rest (c ∷ s) = if c == b'.' then fraction_digits s else is_digit c && amount_rest s

-- `/^\d+(?:\.\d{1,7})?$/`
unfoldable pub is_amount : Text → Bool
unfolding amount_rest
is_amount [] = false
is_amount (c ∷ s) = is_digit c && amount_rest s
