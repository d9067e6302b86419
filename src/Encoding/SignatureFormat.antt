-- ===== src/Encoding/SignatureFormat.antt =====
-- packages/crypto/src/signature-format.ts. A `Uint8Array` is a list of numbers below 256, a text its
-- UTF-16 code units. `btoa` and `atob` are those of the language.
use ancore.Common.{
  ℕ, ◌+◌, ◌-◌, ◌*◌, ◌/◌, ◌%◌, Bool, true, false, ◌&&◌, ◌||◌, not, Option, none, some, List, [], ◌∷◌,
  ◌++◌, Text, codes, length, all, starts_with, if◌then◌else◌, ltb, leb, ◌==◌,
}
use ancore.Encoding.Base58.{repeat}

abbrev pub hex_digit : ℕ → ℕ
hex_digit d = if ltb d 10 then 48 + d else 87 + d

-- `b.toString(16).padStart(2, '0')`, of a byte.
abbrev pub hex_byte : ℕ → Text
hex_byte b = hex_digit (b / 16) ∷ hex_digit (b % 16) ∷ []

unfoldable pub joined : List ℕ → Text
joined [] = []
joined (b ∷ bytes) = hex_byte b ++ joined bytes

unfoldable pub to_hex : List ℕ → Bool → Text
unfolding joined
to_hex bytes include_prefix = if include_prefix then 48 ∷ 120 ∷ joined bytes else joined bytes

-- `value.startsWith('0x') ? value.slice(2) : value`
unfoldable pub cleaned : Text → Text
cleaned [] = []
cleaned (c ∷ []) = c ∷ []
cleaned (c ∷ d ∷ s) = if c == 48 && d == 120 then s else c ∷ d ∷ s

-- What a hexadecimal digit stands for.
abbrev pub hex_value : ℕ → Option ℕ
hex_value c =
    if leb 48 c && leb c 57
    then some (c - 48)
    else if leb 97 c && leb c 102
    then some (c - 87)
    else if leb 65 c && leb c 70
    then some (c - 55)
    else none

abbrev pub is_hex_char : ℕ → Bool
is_hex_char c = elim (hex_value c) [ none ↦ false | some d ↦ true ]

unfoldable pub is_valid_hex : Text → Bool
unfolding cleaned
is_valid_hex value = let s = cleaned value in if length s % 2 == 0 then all is_hex_char s else false

-- `parseInt` of two characters to the base 16, as an array of bytes keeps it: `NaN`, which `0x` gives
-- too, is stored as 0.
abbrev pub parse_byte : ℕ → ℕ → ℕ
parse_byte c d = elim (hex_value c) [
  | none ↦ 0
  | some h ↦ elim (hex_value d) [ none ↦ h | some l ↦ h * 16 + l ]
]

unfoldable pub parse_bytes : Text → List ℕ
parse_bytes [] = []
parse_bytes (c ∷ []) = []
parse_bytes (c ∷ d ∷ s) = parse_byte c d ∷ parse_bytes s

-- `none` is an error.
unfoldable pub from_hex : Text → Option (List ℕ)
unfolding is_valid_hex cleaned parse_bytes
from_hex hex = let s = cleaned hex in if not (is_valid_hex s) then none else some (parse_bytes s)

-- The character of six bits.
abbrev pub base64_char : ℕ → ℕ
base64_char v =
    if ltb v 26
    then 65 + v
    else if ltb v 52
    then 71 + v
    else if ltb v 62
    then v - 4
    else if v == 62
    then 43
    else 47

unfoldable pub btoa : List ℕ → Text
btoa [] = []
btoa (a ∷ []) = base64_char (a / 4) ∷ base64_char (a % 4 * 16) ∷ 61 ∷ 61 ∷ []
btoa (a ∷ b ∷ []) =
    base64_char (a / 4) ∷ base64_char (a % 4 * 16 + b / 16) ∷ base64_char (b % 16 * 4) ∷ 61 ∷ []
btoa (a ∷ b ∷ c ∷ bytes) =
    base64_char (a / 4)
    ∷ base64_char (a % 4 * 16 + b / 16)
    ∷ base64_char (b % 16 * 4 + c / 64)
    ∷ base64_char (c % 64)
    ∷ btoa bytes

abbrev pub base64_value : ℕ → Option ℕ
base64_value c =
    if leb 65 c && leb c 90
    then some (c - 65)
    else if leb 97 c && leb c 122
    then some (c - 71)
    else if leb 48 c && leb c 57
    then some (c + 4)
    else if c == 43
    then some 62
    else if c == 47
    then some 63
    else none

abbrev pub six_bits : ℕ → ℕ
six_bits c = elim (base64_value c) [ none ↦ 0 | some v ↦ v ]

-- Of texts that `isValidBase64` accepts, which `atob` does not refuse.
unfoldable pub atob : Text → List ℕ
atob [] = []
atob (a ∷ []) = []
atob (a ∷ b ∷ []) = []
atob (a ∷ b ∷ c ∷ []) = []
atob (a ∷ b ∷ c ∷ d ∷ s) =
    let first = six_bits a * 4 + six_bits b / 16 in
    let second = six_bits b % 16 * 16 + six_bits c / 4 in
    let third = six_bits c % 4 * 64 + six_bits d in
    let rest = atob s in
    if c == 61
    then first ∷ []
    else if d == 61
    then first ∷ second ∷ []
    else first ∷ second ∷ third ∷ rest

-- The regular expression: characters of the alphabet, and then up to two `=`.
unfoldable pub is_base64_text : Text → Bool
is_base64_text [] = true
is_base64_text (c ∷ s) =
    let rest = is_base64_text s in
    elim (base64_value c) [
      | some v ↦ rest
      | none ↦ c == 61 && (elim s [ [] ↦ true | d ∷ t ↦ d == 61 && length t == 0 ])
    ]

unfoldable pub is_valid_base64 : Text → Bool
unfolding is_base64_text
is_valid_base64 value = is_base64_text value && length value % 4 == 0

unfoldable pub normalize_padding : Text → Text
unfolding repeat
normalize_padding b64 =
    let remainder = length b64 % 4 in
    if remainder == 0 then b64 else b64 ++ repeat (4 - remainder) 61

unfoldable pub to_base64 : List ℕ → Text
unfolding btoa
to_base64 bytes = btoa bytes

unfoldable pub from_base64 : Text → Option (List ℕ)
unfolding is_valid_base64 atob normalize_padding
from_base64 b64 =
    let normalized = normalize_padding b64 in
    if not (is_valid_base64 normalized) then none else some (atob normalized)

pub data SignatureFormat : Type 0 where
  hex base64 raw : SignatureFormat

pub data Signature : Type 0 where
  bytes_of : List ℕ → Signature
  text_of : Text → Signature

-- Formats are the three of the type: the source refuses others.
unfoldable pub encode_signature : List ℕ → SignatureFormat → Signature
unfolding to_hex to_base64
encode_signature signature hex = text_of (to_hex signature false)
encode_signature signature base64 = text_of (to_base64 signature)
encode_signature signature raw = bytes_of signature

-- The second of the attempts.
unfoldable pub decode_base64 : Text → Option (List ℕ)
unfolding is_valid_base64 from_base64
decode_base64 signature = if is_valid_base64 signature then from_base64 signature else none

unfoldable pub decode_signature : Signature → Option (List ℕ)
unfolding is_valid_hex from_hex decode_base64 starts_with
decode_signature (bytes_of signature) = some signature
decode_signature (text_of signature) =
    if is_valid_hex signature || starts_with (codes "0x") signature
    then elim (from_hex signature) [ some bytes ↦ some bytes | none ↦ decode_base64 signature ]
    else decode_base64 signature
