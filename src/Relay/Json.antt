-- ===== src/Relay/Json.antt =====
-- `JSON.stringify` of texts and integers, as the canonical payload uses it: the escapes of the
-- ECMAScript standard, with `\u` for a surrogate that is not one of a pair.
use ancore.Common.{
  ℕ, ◌+◌, ◌/◌, ◌%◌, Bool, false, [], ◌∷◌, ◌++◌, Text, ℤ, pos, negsuc, leb, ltb, ◌==◌, ◌&&◌, ◌||◌,
  not, if◌then◌else◌,
}
use ancore.Encoding.SignatureFormat.{hex_digit}
use ancore.Encoding.Decimal.{to_decimal}

abbrev pub is_high : ℕ → Bool
is_high c = leb 55296 c && leb c 56319

abbrev pub is_low : ℕ → Bool
is_low c = leb 56320 c && leb c 57343

-- The next unit is the second one of a pair.
abbrev pub low_next : Text → Bool
low_next [] = false
low_next (c ∷ s) = is_low c

abbrev pub hex_escape : ℕ → Text
hex_escape c =
    92
    ∷ b'u'
    ∷ hex_digit (c / 4096 % 16)
    ∷ hex_digit (c / 256 % 16)
    ∷ hex_digit (c / 16 % 16)
    ∷ hex_digit (c % 16)
    ∷ []

-- A unit by itself.
unfoldable pub escape_unit : ℕ → Text
escape_unit c =
    if c == 8
    then 92 ∷ b'b' ∷ []
    else if c == 9
    then 92 ∷ b't' ∷ []
    else if c == 10
    then 92 ∷ b'n' ∷ []
    else if c == 12
    then 92 ∷ b'f' ∷ []
    else if c == 13
    then 92 ∷ b'r' ∷ []
    else if c == 34
    then 92 ∷ 34 ∷ []
    else if c == 92
    then 92 ∷ 92 ∷ []
    else if ltb c 32 || is_high c || is_low c
    then hex_escape c
    else c ∷ []

-- The units in turn; `paired` tells that the one before makes a pair with this one.
unfoldable pub escape_text : Bool → Text → Text
unfolding escape_unit
escape_text paired [] = []
escape_text paired (c ∷ s) =
    (if paired || (is_high c && low_next s) then c ∷ [] else escape_unit c)
    ++ escape_text (not paired && (is_high c && low_next s)) s

unfoldable pub quote : Text → Text
unfolding escape_text
quote s = 34 ∷ (escape_text false s ++ (34 ∷ []))

unfoldable pub integer_text : ℤ → Text
unfolding to_decimal
integer_text (pos n) = to_decimal n
integer_text (negsuc n) = b'-' ∷ to_decimal (n + 1)
