-- ===== src/Encoding.antt =====
-- The codecs of packages/crypto/src: `Digits` and `Base58` (encoding.ts), and `SignatureFormat`
-- (signature-format.ts); `Decimal` has the decimal texts of numbers. The other modules have the lemmas
-- on digits and alphabets, and the round trips.
pub mod Digits
pub mod Positional
pub mod Decimal
pub mod Decimals
pub mod Base58
pub mod Alphabet
pub mod Radix58
pub mod SignatureFormat
pub mod HexPairs
pub mod Sextets
pub mod Formats
