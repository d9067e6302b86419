-- ===== src/Examples/Sdk.antt =====
-- An amount with blanks and a zero too many, and one for which no decimals are wanted.
use ancore.Common.{some, Text, codes, [], ◌∷◌, ◌++◌, ◌≡◌, refl, arith}
use ancore.Sdk.Amount.{
  RawAmount, text, NormalizationOptions, default_normalization, ok, normalize_amount,
  to_scaled_big_int, sign_of, join_parts, abs_int,
}
use ancore.Sdk.Normalized.{
  amount_text, Accepted, normalize_amount-scaled, normalize_amount-zero_precision,
}
use ancore.Encoding.Decimal.{strip_zeros, to_decimal}
use ancore.Common.{ℤ, trim}

abbrev amount : RawAmount
amount = text (codes " 10.50 ")

normalized : normalize_amount amount default_normalization ≡ ok (codes "10.5")
unfolding normalize_amount trim
normalized = refl

normalize_amount-scaled_example :
    (s : Text) × (v : ℤ) × (amount_text amount 7 ≡ some s)
    × Accepted default_normalization s v
    × (to_scaled_big_int (codes "10.5") 7 ≡ some v)
normalize_amount-scaled_example =
    normalize_amount-scaled amount default_normalization (codes "10.5") normalized (omega arith)

abbrev whole_units : NormalizationOptions
whole_units = record default_normalization { precision = 0 }

misread : normalize_amount (text (codes "5")) whole_units ≡ ok (codes "0.5")
unfolding normalize_amount trim
misread = refl

normalize_amount-zero_precision_example :
    (s : Text) × (v : ℤ) × (amount_text (text (codes "5")) 0 ≡ some s)
    × (to_scaled_big_int s 0 ≡ some v)
    × (codes "0.5" ≡ sign_of v ++ join_parts (b'0' ∷ []) (strip_zeros (to_decimal (abs_int v))))
normalize_amount-zero_precision_example =
    normalize_amount-zero_precision (text (codes "5")) whole_units (codes "0.5") misread refl

-- A minimum below the precision is cut, and so the amount below it is accepted; a minimum may stand
-- between blanks.
cut_minimum :
    normalize_amount (text (codes "1")) (record default_normalization { min = codes "1.00000009" })
    ≡ ok (codes "1")
unfolding normalize_amount trim
cut_minimum = refl

blank_minimum :
    normalize_amount (text (codes "2")) (record default_normalization { min = codes " 1" })
    ≡ ok (codes "2")
unfolding normalize_amount trim
blank_minimum = refl
