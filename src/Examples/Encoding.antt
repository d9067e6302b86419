-- ===== src/Examples/Encoding.antt =====
-- Bytes that are encoded and decoded again.
use ancore.Common.{ℕ, ◌%◌, some, List, [], ◌∷◌, ◌≡◌, ◌≢◌, refl, length}
use ancore.Encoding.Base58.{to_base58, from_base58}
use ancore.Encoding.Radix58.{from_base58-to_base58}
use ancore.Encoding.SignatureFormat.{base64, encode_signature, decode_signature}
use ancore.Encoding.Formats.{decode_signature-encode_signature}

abbrev sample : List ℕ
sample = 0 ∷ 0 ∷ 222 ∷ 173 ∷ []

from_base58-to_base58_example : from_base58 (to_base58 sample) ≡ some sample
from_base58-to_base58_example = from_base58-to_base58 sample refl

four : length sample % 3 ≢ 0
four e = cc

decode_signature-encode_signature_example :
    decode_signature (encode_signature sample base64) ≡ some sample
decode_signature-encode_signature_example =
    decode_signature-encode_signature sample base64 refl (λ e. four)

-- A signature of three bytes whose base 64 text is taken for a hexadecimal one.
three_bytes :
    decode_signature (encode_signature (105 ∷ 183 ∷ 29 ∷ []) base64) ≡ some (171 ∷ 205 ∷ [])
unfolding decode_signature encode_signature
three_bytes = refl
