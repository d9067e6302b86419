-- ===== src/Sdk/Amount.antt =====
-- The amounts of a caller: packages/core-sdk/src/amount.ts. A number is given by what its `toFixed`
-- answers, since the code uses nothing else of it.
use ancore.Common.{
  ℕ, zero, suc, ◌+◌, ◌-◌, ◌^◌, Bool, true, false, not, Option, none, some, [], ◌∷◌, ◌++◌, Text,
  codes, trim, length, leb, ltb, ◌==◌, ◌&&◌, ◌||◌, ℤ, pos, negsuc, if◌then◌else◌,
}
use ancore.Encoding.Decimal.{
  is_digit, all_digits, big_int, to_decimal, pad_end, pad_start, strip_zeros, before, behind,
}

pub data RawAmount : Type 0 where
  missing : RawAmount
  text : Text → RawAmount
  number : (ℕ → Text) → RawAmount

-- The bounds are `String(min)` and `String(max)`.
pub record NormalizationOptions : Type 0 where
  pub precision : ℕ
  pub min : Text
  pub max : Option Text
  pub allow_zero : Bool

abbrev pub default_normalization : NormalizationOptions
default_normalization = record { precision = 7; min = codes "0"; max = none; allow_zero = false }

pub data InvalidAmountError : Type 0 where
  required invalid precision_exceeded unparsable below_minimum above_maximum not_positive :
      InvalidAmountError

pub data Normalized : Type 0 where
  ok : Text → Normalized
  error : InvalidAmountError → Normalized

unfoldable pub take_text : ℕ → Text → Text
take_text zero s = []
take_text (suc n) [] = []
take_text (suc n) (c ∷ s) = c ∷ take_text n s

unfoldable pub drop_text : ℕ → Text → Text
drop_text zero s = s
drop_text (suc n) [] = []
drop_text (suc n) (c ∷ s) = drop_text n s

-- `-n`
abbrev pub minus : ℕ → ℤ
minus zero = pos 0
minus (suc n) = negsuc n

-- `BigInt(text)` for a text of digits, with a sign or not; the empty text is 0.
unfoldable pub parse_digits : Text → Option ℤ
unfolding all_digits big_int
parse_digits [] = some (pos 0)
parse_digits (c ∷ s) =
    if c == b'-'
    then (if not (length s == 0) && all_digits s then some (minus (big_int s)) else none)
    else if c == b'+'
    then (if not (length s == 0) && all_digits s then some (pos (big_int s)) else none)
    else if all_digits (c ∷ s)
    then some (pos (big_int (c ∷ s)))
    else none

-- `BigInt(text)`: blanks around the digits are cut off. Any other text throws; those with a prefix for
-- another base are left out.
unfoldable pub parse_big_int : Text → Option ℤ
unfolding parse_digits
parse_big_int s = elim (parse_digits s) [ some v ↦ some v | none ↦ parse_digits (trim s) ]

-- `frac.padEnd(precision, '0').substring(0, precision)`
unfoldable pub padded_fraction : ℕ → Text → Text
unfolding take_text pad_end
padded_fraction precision frac = take_text precision (pad_end precision frac)

unfoldable pub to_scaled_big_int : Text → ℕ → Option ℤ
unfolding parse_big_int padded_fraction before behind
to_scaled_big_int val precision =
    parse_big_int (before b'.' val ++ padded_fraction precision (before b'.' (behind b'.' val)))

-- `/^\d+(\.\d+)?$/` behind the first digit, and `/^-?\d+(\.\d+)?$/`.
unfoldable pub fraction_only : Text → Bool
unfolding all_digits
fraction_only [] = false
fraction_only (c ∷ s) = all_digits (c ∷ s)

unfoldable pub rest_of_number : Text → Bool
unfolding fraction_only
rest_of_number [] = true
rest_of_number (c ∷ s) = if c == b'.' then fraction_only s else is_digit c && rest_of_number s

unfoldable pub unsigned_decimal : Text → Bool
unfolding rest_of_number
unsigned_decimal [] = false
unsigned_decimal (c ∷ s) = is_digit c && rest_of_number s

unfoldable pub unsigned_part : Text → Text
unsigned_part [] = []
unsigned_part (c ∷ s) = if c == b'-' then s else c ∷ s

unfoldable pub is_decimal : Text → Bool
unfolding unsigned_decimal unsigned_part
is_decimal s = unsigned_decimal (unsigned_part s)

-- `isFinite(Number(s))`: the number does not round to more than the greatest double.
unfoldable pub is_finite : Text → Bool
unfolding unsigned_part before big_int
is_finite s = ltb (big_int (before b'.' (unsigned_part s))) (2 ^ 1024 - 2 ^ 970)

unfoldable pub some_nonzero : Text → Bool
some_nonzero [] = false
some_nonzero (c ∷ s) = (leb b'1' c && leb c b'9') || some_nonzero s

-- The extra decimals of a text, where they are not all zero.
unfoldable pub exceeds_precision : ℕ → Text → Bool
unfolding drop_text some_nonzero before behind
exceeds_precision precision s = some_nonzero (drop_text precision (before b'.' (behind b'.' s)))

abbrev pub int_ltb : ℤ → ℤ → Bool
int_ltb (pos m) (pos n) = ltb m n
int_ltb (pos m) (negsuc n) = false
int_ltb (negsuc m) (pos n) = true
int_ltb (negsuc m) (negsuc n) = ltb n m

abbrev pub abs_int : ℤ → ℕ
abs_int (pos n) = n
abs_int (negsuc n) = suc n

-- `s.slice(0, -n)` and `s.slice(-n)`: `-0` is 0.
unfoldable pub slice_front : ℕ → Text → Text
unfolding take_text
slice_front zero s = []
slice_front (suc n) s = take_text (length s - suc n) s

unfoldable pub slice_back : ℕ → Text → Text
unfolding drop_text
slice_back zero s = s
slice_back (suc n) s = drop_text (length s - suc n) s

unfoldable pub or_zero : Text → Text
or_zero [] = b'0' ∷ []
or_zero (c ∷ s) = c ∷ s

unfoldable pub join_parts : Text → Text → Text
join_parts integer [] = integer
join_parts integer (c ∷ s) = integer ++ (b'.' ∷ c ∷ s)

abbrev pub sign_of : ℤ → Text
sign_of (pos n) = []
sign_of (negsuc n) = b'-' ∷ []

unfoldable pub format_magnitude : ℕ → ℕ → Text
unfolding slice_front slice_back or_zero join_parts strip_zeros pad_start to_decimal
format_magnitude precision n =
    let raw = pad_start (precision + 1) (to_decimal n) in
    join_parts (or_zero (slice_front precision raw)) (strip_zeros (slice_back precision raw))

unfoldable pub format_scaled : ℕ → ℤ → Text
unfolding format_magnitude
format_scaled precision scaled = sign_of scaled ++ format_magnitude precision (abs_int scaled)

-- The checks on the scaled amount, in turn.
unfoldable pub check_zero : NormalizationOptions → ℤ → Normalized
unfolding format_scaled
check_zero o scaled =
    if not o.allow_zero && abs_int scaled == 0
    then error not_positive
    else ok (format_scaled o.precision scaled)

unfoldable pub check_maximum : NormalizationOptions → ℤ → Normalized
unfolding check_zero to_scaled_big_int
check_maximum o scaled = elim o.max [
  | none ↦ check_zero o scaled
  | some max ↦ elim (to_scaled_big_int max o.precision) [
    | none ↦ error unparsable
    | some scaled_max ↦
        if int_ltb scaled_max scaled then error above_maximum else check_zero o scaled
  ]
]

unfoldable pub check_range : NormalizationOptions → ℤ → Normalized
unfolding check_maximum to_scaled_big_int
check_range o scaled = elim (to_scaled_big_int o.min o.precision) [
  | none ↦ error unparsable
  | some scaled_min ↦
      if int_ltb scaled scaled_min then error below_minimum else check_maximum o scaled
]

unfoldable pub scale_amount : NormalizationOptions → Text → Normalized
unfolding check_range to_scaled_big_int
scale_amount o s = elim (to_scaled_big_int s o.precision) [
  | none ↦ error unparsable
  | some scaled ↦ check_range o scaled
]

unfoldable pub normalize_text : NormalizationOptions → Text → Normalized
unfolding is_decimal is_finite exceeds_precision scale_amount
normalize_text o s =
    if not (is_decimal s) || not (is_finite s)
    then error invalid
    else if exceeds_precision o.precision s
    then error precision_exceeded
    else scale_amount o s

unfoldable pub normalize_amount : RawAmount → NormalizationOptions → Normalized
unfolding normalize_text
normalize_amount missing o = error required
normalize_amount (text s) o =
    let trimmed = trim s in if length trimmed == 0 then error required else normalize_text o trimmed
normalize_amount (number to_fixed) o = normalize_text o (to_fixed (o.precision + 1))
