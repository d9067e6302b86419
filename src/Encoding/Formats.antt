-- ===== src/Encoding/Formats.antt =====
-- How packages/crypto/src/signature-format.ts finds the format of a signature.
use ancore.Common.{
  ℕ, ◌+◌, ◌*◌, ◌/◌, ◌%◌, Bool, true, false, ◌&&◌, ◌||◌, none, some, List, [], ◌∷◌, Text, length,
  all, if◌then◌else◌, ltb, ◌==◌, ◌≡◌, ◌≢◌, inl, inr, refl, ap, ◌∙◌, arith, Bool-cases,
}
use ancore.Encoding.SignatureFormat.{
  base64_char, btoa, to_hex, cleaned, is_hex_char, is_valid_hex, from_hex, to_base64, from_base64,
  SignatureFormat, hex, base64, raw, text_of, encode_signature, decode_base64, decode_signature,
}
use ancore.Encoding.HexPairs.{from_hex-to_hex, valid-joined}
use ancore.Encoding.Sextets.{from_base64-to_base64, valid-btoa}

-- The text has the character `=`.
abbrev padded : Text → Bool
padded [] = false
padded (c ∷ s) = c == 61 || padded s

padded_later : (c : ℕ) (x : Bool) → x ≡ true → c == 61 || x ≡ true
padded_later c x h = ground arith

padded-btoa : (bytes : List ℕ) → length bytes % 3 ≢ 0 → padded (btoa bytes) ≡ true
unfolding btoa
padded-btoa [] h = absurd (h refl)
padded-btoa (a ∷ []) h =
    padded_later (base64_char (a / 4)) _ (padded_later (base64_char (a % 4 * 16)) true refl)
padded-btoa (a ∷ b ∷ []) h = padded_later (base64_char (a / 4)) _ (
    padded_later (base64_char (a % 4 * 16 + b / 16)) _
      (padded_later (base64_char (b % 16 * 4)) true refl))
padded-btoa (a ∷ b ∷ c ∷ bytes) h = padded_later (base64_char (a / 4)) _ (
    padded_later (base64_char (a % 4 * 16 + b / 16)) _ (
      padded_later (base64_char (b % 16 * 4 + c / 64)) _ (
        padded_later (base64_char (c % 64)) (padded (btoa bytes))
          (padded-btoa bytes (λ e. h (omega arith))))))

padded-cleaned : (s : Text) → padded s ≡ true → padded (cleaned s) ≡ true
unfolding cleaned
padded-cleaned [] h = h
padded-cleaned (c ∷ []) h = h
padded-cleaned (c ∷ d ∷ s) h = ground arith

padded_no_hex : (s : Text) → padded s ≡ true → all is_hex_char s ≡ false
padded_no_hex [] h = cc
padded_no_hex (c ∷ s) h = elim (Bool-cases (padded s)) [
  | inl p ↦ let ih = padded_no_hex s p in false_after (is_hex_char c) (all is_hex_char s) ih
  | inr p ↦ let pad : c ≡ 61 = ground arith in ap (λ x. is_hex_char x && all is_hex_char s) pad
]
  where
    false_after : (x y : Bool) → y ≡ false → x && y ≡ false
    false_after x y e = ground arith

padded_not_valid : (s : Text) → padded s ≡ true → is_valid_hex s ≡ false
unfolding is_valid_hex
padded_not_valid s h = let n = padded_no_hex (cleaned s) (padded-cleaned s h) in ground arith

from_hex-padded : (s : Text) → padded s ≡ true → from_hex s ≡ none
unfolding from_hex
from_hex-padded s h = rw (padded_not_valid (cleaned s) (padded-cleaned s h)) refl

decode-valid_hex :
    (s : Text) (bytes : List ℕ)
    → is_valid_hex s ≡ true
    → from_hex s ≡ some bytes
    → decode_signature (text_of s) ≡ some bytes
unfolding decode_signature
decode-valid_hex s bytes v e = rw (v, e) refl

decode-refused :
    (s : Text)
    → from_hex s ≡ none
    → is_valid_hex s ≡ false
    → decode_signature (text_of s) ≡ decode_base64 s
unfolding decode_signature
decode-refused s e v = ground arith

decode-base64 :
    (bytes : List ℕ)
    → all (λ b. ltb b 256) bytes ≡ true
    → decode_base64 (to_base64 bytes) ≡ some bytes
unfolding decode_base64 to_base64
decode-base64 bytes h =
    ap (λ x. if x then from_base64 (btoa bytes) else none) (valid-btoa bytes h)
    ∙ from_base64-to_base64 bytes h

padded-to_base64 : (bytes : List ℕ) → length bytes % 3 ≢ 0 → padded (to_base64 bytes) ≡ true
unfolding to_base64
padded-to_base64 bytes h = padded-btoa bytes h

-- A signature is decoded from each of the formats it is encoded to, with the format found out of the
-- text: for base 64, where the number of its bytes is no multiple of 3, as the 64 of Ed25519.
pub decode_signature-encode_signature :
    (signature : List ℕ) (format : SignatureFormat)
    → all (λ b. ltb b 256) signature ≡ true
    → (format ≡ base64 → length signature % 3 ≢ 0)
    → decode_signature (encode_signature signature format) ≡ some signature
unfolding encode_signature decode_signature to_hex
decode_signature-encode_signature signature hex h p =
    decode-valid_hex (to_hex signature false) signature (valid-joined signature h)
      (from_hex-to_hex signature false h)
decode_signature-encode_signature signature base64 h p =
    let pad : padded (to_base64 signature) ≡ true = padded-to_base64 signature (p refl) in
    decode-refused (to_base64 signature) (from_hex-padded (to_base64 signature) pad)
      (padded_not_valid (to_base64 signature) pad)
    ∙ decode-base64 signature h
decode_signature-encode_signature signature raw h p = refl
