-- ===== src/Encoding/HexPairs.antt =====
-- The round trip in base 16 of packages/crypto/src/signature-format.ts.
use ancore.Common.{
  ℕ, ◌+◌, ◌*◌, ◌/◌, ◌%◌, ◌<◌, Bool, true, false, some, List, [], ◌∷◌, Text, length, all, ltb, ◌==◌,
  ◌≡◌, refl, ap, ◌∙◌, arith,
}
use ancore.Encoding.SignatureFormat.{
  hex_digit, joined, to_hex, cleaned, hex_value, is_hex_char, is_valid_hex, parse_byte, parse_bytes,
  from_hex,
}

digit-value : (d : ℕ) → d < 16 → hex_value (hex_digit d) ≡ some d
digit-value d h = ground arith

digit_char : (d : ℕ) → d < 16 → is_hex_char (hex_digit d) ≡ true
digit_char d h = ground arith

digit_no_x : (d : ℕ) → d < 16 → (hex_digit d == 120) ≡ false
digit_no_x d h = ground arith

parse_two :
    (c d h l : ℕ) → hex_value c ≡ some h → hex_value d ≡ some l → parse_byte c d ≡ h * 16 + l
parse_two c d h l e f = ground arith

parse-hex_byte : (b : ℕ) → b < 256 → parse_byte (hex_digit (b / 16)) (hex_digit (b % 16)) ≡ b
parse-hex_byte b h =
    parse_two (hex_digit (b / 16)) (hex_digit (b % 16)) (b / 16) (b % 16)
      (digit-value (b / 16) (omega arith)) (digit-value (b % 16) (omega arith))
    ∙ omega arith

-- The text of bytes: its characters, its length, and that it has no prefix.
joined-hex :
    (bytes : List ℕ)
    → all (λ b. ltb b 256) bytes ≡ true
    → (all is_hex_char (joined bytes) ≡ true) × (length (joined bytes) % 2 ≡ 0)
unfolding joined
joined-hex [] h = (refl, refl)
joined-hex (b ∷ bytes) h =
    let (chars, even) = joined-hex bytes (ground arith) in
    let hi = digit_char (b / 16) (ground arith) in
    let lo = digit_char (b % 16) (omega arith) in
    (all_two (hex_digit (b / 16)) (hex_digit (b % 16)) (joined bytes) hi lo chars, omega arith)
  where
    all_two :
        (c d : ℕ) (s : Text)
        → is_hex_char c ≡ true
        → is_hex_char d ≡ true
        → all is_hex_char s ≡ true
        → all is_hex_char (c ∷ d ∷ s) ≡ true
    all_two c d s hc hd hs = rw (hc, hd) hs

cleaned-joined :
    (bytes : List ℕ) → all (λ b. ltb b 256) bytes ≡ true → cleaned (joined bytes) ≡ joined bytes
unfolding cleaned joined
cleaned-joined [] h = refl
cleaned-joined (b ∷ bytes) h =
    no_prefix (hex_digit (b / 16)) (hex_digit (b % 16)) (joined bytes)
      (digit_no_x (b % 16) (omega arith))
  where
    no_prefix : (c d : ℕ) (s : Text) → (d == 120) ≡ false → cleaned (c ∷ d ∷ s) ≡ c ∷ d ∷ s
    no_prefix c d s h = ground arith

pub parse-joined :
    (bytes : List ℕ) → all (λ b. ltb b 256) bytes ≡ true → parse_bytes (joined bytes) ≡ bytes
unfolding parse_bytes joined
parse-joined [] h = refl
parse-joined (b ∷ bytes) h =
    ap (λ x. x ∷ parse_bytes (joined bytes)) (parse-hex_byte b (ground arith))
    ∙ ap (λ xs. b ∷ xs) (parse-joined bytes (ground arith))

pub valid-joined :
    (bytes : List ℕ) → all (λ b. ltb b 256) bytes ≡ true → is_valid_hex (joined bytes) ≡ true
unfolding is_valid_hex
valid-joined bytes h =
    let (chars, even) = joined-hex bytes h in rw (cleaned-joined bytes h, even) chars

from_hex-valid :
    (s t : Text) → cleaned s ≡ t → is_valid_hex t ≡ true → from_hex s ≡ some (parse_bytes t)
unfolding from_hex
from_hex-valid s t c v = rw (c, v) refl

cleaned-prefixed : (s : Text) → cleaned (48 ∷ 120 ∷ s) ≡ s
unfolding cleaned
cleaned-prefixed s = refl

valid-prefixed :
    (bytes : List ℕ)
    → all (λ b. ltb b 256) bytes ≡ true
    → is_valid_hex (48 ∷ 120 ∷ joined bytes) ≡ true
unfolding is_valid_hex
valid-prefixed bytes h =
    let (chars, even) = joined-hex bytes h in rw (cleaned-prefixed (joined bytes), even) chars

-- Bytes are decoded from their hexadecimal text, with the prefix and without it.
pub from_hex-to_hex :
    (bytes : List ℕ) (include_prefix : Bool)
    → all (λ b. ltb b 256) bytes ≡ true
    → from_hex (to_hex bytes include_prefix) ≡ some bytes
unfolding to_hex
from_hex-to_hex bytes true h =
    from_hex-valid (48 ∷ 120 ∷ joined bytes) (joined bytes) (cleaned-prefixed (joined bytes))
      (valid-joined bytes h)
    ∙ ap some (parse-joined bytes h)
from_hex-to_hex bytes false h =
    from_hex-valid (joined bytes) (joined bytes) (cleaned-joined bytes h) (valid-joined bytes h)
    ∙ ap some (parse-joined bytes h)

-- A second prefix is not refused: it is decoded as a zero byte.
pub from_hex-to_hex_twice :
    (bytes : List ℕ)
    → all (λ b. ltb b 256) bytes ≡ true
    → from_hex (48 ∷ 120 ∷ to_hex bytes true) ≡ some (0 ∷ bytes)
unfolding to_hex parse_bytes
from_hex-to_hex_twice bytes h =
    from_hex-valid (48 ∷ 120 ∷ 48 ∷ 120 ∷ joined bytes) (48 ∷ 120 ∷ joined bytes)
      (cleaned-prefixed (48 ∷ 120 ∷ joined bytes)) (valid-prefixed bytes h)
    ∙ ap (λ xs. some (0 ∷ xs)) (parse-joined bytes h)
