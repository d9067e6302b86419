-- ===== src/Encoding/Base58.antt =====
-- packages/crypto/src/encoding.ts. A `Uint8Array` is a list of numbers below 256, a text its UTF-16 code
-- units: a character of two is none of the alphabet, nor is either of the units.
use ancore.Common.{
  ℕ, zero, suc, Option, none, some, List, [], ◌∷◌, ◌++◌, Text, codes, if◌then◌else◌, ◌==◌, ◌>>=◌,
}
use ancore.Encoding.Digits.{digits, value}

abbrev pub base58_alphabet : Text
base58_alphabet = codes "123456789ABCDEFGHJKLMNPQRSTUVWXYZabcdefghijkmnopqrstuvwxyz"

-- `s.indexOf(ch)` of one character, and `none` for -1.
unfoldable pub index_of : ℕ → Text → Option ℕ
index_of c [] = none
index_of c (x ∷ s) =
    if c == x then some 0 else elim (index_of c s) [ none ↦ none | some i ↦ some (suc i) ]

-- `s[i]` as a text, which is empty where the text ends before.
unfoldable pub char_at : Text → ℕ → Text
char_at [] i = []
char_at (x ∷ s) i = elim i [ zero ↦ x ∷ [] | suc j ↦ char_at s j ]

-- How many of the first items are the given one.
unfoldable pub leading : ℕ → List ℕ → ℕ
leading c [] = 0
leading c (x ∷ s) = if x == c then suc (leading c s) else 0

unfoldable pub repeat : ℕ → ℕ → List ℕ
repeat zero c = []
repeat (suc n) c = c ∷ repeat n c

-- The digits as characters: the loop's `result`.
unfoldable pub spell : List ℕ → Text
unfolding char_at
spell [] = []
spell (d ∷ ds) = char_at base58_alphabet d ++ spell ds

-- `1` is the character 49.
unfoldable pub to_base58 : List ℕ → Text
unfolding spell digits value leading repeat
to_base58 bytes = repeat (leading 0 bytes) 49 ++ spell (digits 58 (value 256 bytes 0))

-- The first loop of `fromBase58`.
unfoldable pub read : Text → Option (List ℕ)
unfolding index_of
read [] = some []
read (c ∷ s) = do i ← index_of c base58_alphabet; is ← read s; some (i ∷ is)

-- `none` is a `TypeError`.
unfoldable pub from_base58 : Text → Option (List ℕ)
unfolding read digits value leading repeat
from_base58 [] = none
from_base58 (c ∷ s) = do
  indices ← read (c ∷ s)
  some (repeat (leading 49 (c ∷ s)) 0 ++ digits 256 (value 58 indices 0))
