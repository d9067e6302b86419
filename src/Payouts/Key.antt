-- ===== src/Payouts/Key.antt =====
-- Stellar public keys: isValidEd25519PublicKey, decodeBase32 and crc16Xmodem of
-- apps/web-dashboard/src/services/bulk-payouts.ts.
use Prim.Native.Nat.{bit_xor}
use ancore.Common.{
  ℕ, zero, suc, ◌+◌, ◌-◌, ◌*◌, ◌/◌, ◌%◌, ◌^◌, Bool, true, false, Option, none, some, List, [], ◌∷◌,
  ◌++◌, Text, length, leb, ◌==◌, ◌&&◌, ◌||◌, if◌then◌else◌,
}

-- The place of a character in `ABCDEFGHIJKLMNOPQRSTUVWXYZ234567`.
unfoldable pub base32_digit : ℕ → Option ℕ
base32_digit c =
    if leb b'A' c && leb c b'Z'
    then some (c - b'A')
    else if leb b'2' c && leb c b'7'
    then some (c - b'2' + 26)
    else none

-- The loop over the characters: the buffer of 32 bits and the bits that wait in it. A shift to the
-- right by less than eight shows only bits that a sign does not reach.
unfoldable pub decode_loop : Text → ℕ → ℕ → List ℕ → Option (List ℕ)
unfolding base32_digit
decode_loop [] buffer bits bytes = some bytes
decode_loop (c ∷ s) buffer bits bytes = elim (base32_digit c) [
  | none ↦ none
  | some digit ↦
      let next = (buffer * 32 + digit) % 2 ^ 32 in
      let full = leb 8 (bits + 5) in
      decode_loop s next (if full then bits + 5 - 8 else bits + 5)
        (if full then bytes ++ ((next / 2 ^ (bits + 5 - 8) % 256) ∷ []) else bytes)
]

unfoldable pub decode_base32 : Text → Option (List ℕ)
unfolding decode_loop
decode_base32 value = decode_loop value 0 0 []

-- The loop over the bits of a byte, and over the bytes.
unfoldable pub crc_bits : ℕ → ℕ → ℕ
crc_bits zero crc = crc
crc_bits (suc n) crc =
    crc_bits n ((if (crc / 32768) % 2 == 1 then bit_xor (crc * 2) 4129 else crc * 2) % 65536)

unfoldable pub crc_loop : ℕ → List ℕ → ℕ
unfolding crc_bits
crc_loop crc [] = crc
crc_loop crc (byte ∷ bytes) = crc_loop (crc_bits 8 (bit_xor crc (byte * 256))) bytes

unfoldable pub crc16_xmodem : List ℕ → ℕ
unfolding crc_loop
crc16_xmodem bytes = crc_loop 0 bytes

unfoldable pub all_base32 : Text → Bool
all_base32 [] = true
all_base32 (c ∷ s) = ((leb b'A' c && leb c b'Z') || (leb b'2' c && leb c b'7')) && all_base32 s

-- `/^G[A-Z2-7]{55}$/`
unfoldable pub is_key_text : Text → Bool
unfolding all_base32
is_key_text [] = false
is_key_text (c ∷ s) = c == b'G' && (length s == 55 && all_base32 s)

unfoldable pub take_bytes : ℕ → List ℕ → List ℕ
take_bytes zero bytes = []
take_bytes (suc n) [] = []
take_bytes (suc n) (b ∷ bytes) = b ∷ take_bytes n bytes

unfoldable pub byte_or : List ℕ → ℕ → ℕ → ℕ
byte_or [] i d = d
byte_or (b ∷ bytes) zero d = b
byte_or (b ∷ bytes) (suc i) d = byte_or bytes i d

unfoldable pub is_key_payload : List ℕ → Bool
unfolding take_bytes byte_or crc16_xmodem
is_key_payload decoded =
    let payload = take_bytes 33 decoded in
    let checksum = byte_or decoded 33 0 + byte_or decoded 34 0 * 256 in
    byte_or payload 0 0 == 48 && crc16_xmodem payload == checksum

unfoldable pub is_valid_ed25519_public_key : Text → Bool
unfolding is_key_text decode_base32 is_key_payload
is_valid_ed25519_public_key value =
    if is_key_text value
    then (elim (decode_base32 value) [
      | none ↦ false
      | some decoded ↦ length decoded == 35 && is_key_payload decoded
    ])
    else false
