-- ===== src/Encoding/Digits.antt =====
-- The digits of a number to a base, the last one first found and put in front: the loops on
-- `BigInt`s of packages/crypto/src/encoding.ts, and what `toString` does to a base.
use ancore.Common.{ℕ, zero, suc, ◌+◌, ◌*◌, ◌/◌, ◌%◌, List, [], ◌∷◌, if◌then◌else◌, ltb}

-- While the number is positive, its last digit is put in front. Fuel: the number itself.
unfoldable pub digits_loop : ℕ → ℕ → ℕ → List ℕ → List ℕ
digits_loop b zero n acc = acc
digits_loop b (suc fuel) n acc =
    let rest = digits_loop b fuel (n / b) ((n % b) ∷ acc) in if ltb 0 n then rest else acc

unfoldable pub digits : ℕ → ℕ → List ℕ
unfolding digits_loop
digits b n = digits_loop b n n []

-- `num = num * b + digit`, for the digits in turn.
unfoldable pub value : ℕ → List ℕ → ℕ → ℕ
value b [] n = n
value b (d ∷ ds) n = value b ds (n * b + d)
