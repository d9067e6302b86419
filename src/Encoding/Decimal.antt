-- ===== src/Encoding/Decimal.antt =====
-- Numbers in decimal: what the code uses of `BigInt(text)`, for a text of digits, of `toString` for a
-- `BigInt` that is not negative, and of `padEnd` and `padStart` with zeros.
use ancore.Common.{
  ℕ, zero, suc, ◌+◌, ◌-◌, Bool, true, [], ◌∷◌, ◌++◌, map, Text, length, leb, ◌==◌, ◌&&◌,
  if◌then◌else◌,
}
use ancore.Encoding.Digits.{digits, value}

abbrev pub is_digit : ℕ → Bool
is_digit c = leb b'0' c && leb c b'9'

unfoldable pub all_digits : Text → Bool
all_digits [] = true
all_digits (c ∷ s) = is_digit c && all_digits s

-- The number of a digit, and of a text of digits; the empty text is 0.
unfoldable pub digit_of : ℕ → ℕ
digit_of c = c - b'0'

unfoldable pub big_int : Text → ℕ
unfolding value digit_of
big_int s = value 10 (map digit_of s) 0

abbrev pub decimal_char : ℕ → ℕ
decimal_char d = d + b'0'

unfoldable pub to_decimal : ℕ → Text
unfolding digits
to_decimal n = if n == 0 then b'0' ∷ [] else map decimal_char (digits 10 n)

unfoldable pub zeros : ℕ → Text
zeros zero = []
zeros (suc n) = b'0' ∷ zeros n

-- `padEnd(n, '0')` and `padStart(n, '0')`
unfoldable pub pad_end : ℕ → Text → Text
unfolding zeros
pad_end n s = s ++ zeros (n - length s)

unfoldable pub pad_start : ℕ → Text → Text
unfolding zeros
pad_start n s = zeros (n - length s) ++ s

-- `replace(/0+$/, '')`
unfoldable pub strip_zeros : Text → Text
strip_zeros [] = []
strip_zeros (c ∷ s) = elim (strip_zeros s) [
  | [] ↦ if c == b'0' then [] else c ∷ []
  | d ∷ t ↦ c ∷ d ∷ t
]

-- What stands before the first `p`, and what stands behind it.
unfoldable pub before : ℕ → Text → Text
before p [] = []
before p (c ∷ s) = if c == p then [] else c ∷ before p s

unfoldable pub behind : ℕ → Text → Text
behind p [] = []
behind p (c ∷ s) = if c == p then s else behind p s

-- `const [a, b = ''] = s.split(p)`
abbrev pub split_two : ℕ → Text → Text × Text
split_two p s = (before p s, before p (behind p s))
