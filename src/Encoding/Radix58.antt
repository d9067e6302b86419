-- ===== src/Encoding/Radix58.antt =====
-- The round trip of packages/crypto/src/encoding.ts.
use ancore.Common.{
  ℕ, zero, suc, ◌<◌, Bool, true, none, some, List, [], ◌∷◌, ◌++◌, Text, ltb, ◌≡◌, refl, sym, ap,
  subst, ◌∙◌, ◌⊎◌, inl, inr, all, arith,
}
use ancore.Encoding.Digits.{digits, value}
use ancore.Encoding.Positional.{value-digits, digits-value, digits-below, digits-Starts}
use ancore.Encoding.Base58.{leading, repeat, spell, to_base58, read, from_base58}
use ancore.Encoding.Alphabet.{
  read-spell, read-repeat, read-nil, value-repeat, leading-repeat, leading-spell,
}

-- A list is its leading zeros, and then nothing or an item that is not zero.
abbrev Starts : List ℕ → Type 0
Starts xs = (d : ℕ) × (ds : List ℕ) × (xs ≡ d ∷ ds) × (0 < d)

abbrev Parted : List ℕ → Type 0
Parted xs = (rest : List ℕ) × (xs ≡ repeat (leading 0 xs) 0 ++ rest) × ((rest ≡ []) ⊎ Starts rest)

parted : (xs : List ℕ) → Parted xs
unfolding leading repeat
parted [] = ([], refl, inl refl)
parted (zero ∷ xs) = let (rest, e, c) = parted xs in (rest, ap (λ s. 0 ∷ s) e, c)
parted (suc x ∷ xs) = (
  suc x ∷ xs,
  ap (λ k. repeat k 0 ++ suc x ∷ xs) (let z : 0 ≡ leading 0 (suc x ∷ xs) = ground arith in z),
  inr (suc x, xs, refl, omega arith),
)

all-repeat :
    (p : ℕ → Bool) (k : ℕ) (xs : List ℕ) → all p (repeat k 0 ++ xs) ≡ true → all p xs ≡ true
unfolding repeat
all-repeat p zero xs h = h
all-repeat p (suc k) xs h = all-repeat p k xs (ground arith)

from-read :
    (s : Text) (is : List ℕ)
    → read s ≡ some is
    → (from_base58 s ≡ some (repeat (leading 49 s) 0 ++ digits 256 (value 58 is 0))) ⊎ (is ≡ [])
unfolding from_base58
from-read [] is h = inr (nothing (sym read-nil ∙ h))
  where
    nothing : some [] ≡ some is → is ≡ []
    nothing e = cc
from-read (c ∷ s) is h = inl (rw h refl)

digits_of_value :
    (rest : List ℕ)
    → all (λ b. ltb b 256) rest ≡ true
    → (rest ≡ []) ⊎ Starts rest
    → digits 256 (value 256 rest 0) ≡ rest
unfolding digits value
digits_of_value rest h (inl e) = subst (λ xs. digits 256 (value 256 xs 0) ≡ xs) (sym e) refl
digits_of_value rest h (inr (d, ds, e, p)) =
    subst (λ xs. digits 256 (value 256 xs 0) ≡ xs) (sym e)
      (digits-value 256 (omega arith) d ds (subst (λ xs. all (λ b. ltb b 256) xs ≡ true) e h) p)

empty_again : (k : ℕ) (xs ys : List ℕ) → repeat k 0 ++ xs ≡ [] → ys ≡ [] → repeat k 0 ++ ys ≡ []
unfolding repeat
empty_again zero xs ys e f = f
empty_again (suc k) xs ys e f = cc

leading-zero : leading 49 (spell (digits 58 0)) ≡ 0
unfolding digits spell leading
leading-zero = refl

leading-digits : (n : ℕ) → leading 49 (spell (digits 58 n)) ≡ 0
leading-digits zero = leading-zero
leading-digits (suc n) =
    let (d, ds, e, p) = digits-Starts 58 (omega arith) (suc n) (omega arith) in
    let h : all (λ d. ltb d 58) (d ∷ ds) ≡ true =
      ap (all (λ d. ltb d 58)) (sym e) ∙ digits-below 58 (omega arith) (suc n) in
    ap (λ xs. leading 49 (spell xs)) e ∙ leading-spell d ds (ground arith) p

-- The text of bytes that are `k` zeros and then the rest, and what is read of it.
module _ (k : ℕ) (rest : List ℕ) (h : all (λ b. ltb b 256) rest ≡ true)
    (c : (rest ≡ []) ⊎ Starts rest) where
  abbrev parts : List ℕ
  parts = digits 58 (value 256 rest 0)

  abbrev text : Text
  text = repeat k 49 ++ spell parts

  read-text : read text ≡ some (repeat k 0 ++ parts)
  read-text =
      read-repeat k (spell parts) parts
        (read-spell parts (digits-below 58 (omega arith) (value 256 rest 0)))

  digits_again : digits 256 (value 58 (repeat k 0 ++ parts) 0) ≡ rest
  digits_again =
      ap (digits 256) (value-repeat 58 k parts ∙ value-digits 58 (omega arith) (value 256 rest 0))
      ∙ digits_of_value rest h c

  from-text : (from_base58 text ≡ some (repeat k 0 ++ rest)) ⊎ (repeat k 0 ++ parts ≡ [])
  from-text = elim (from-read text (repeat k 0 ++ parts) read-text) [
    | inl e ↦ inl (
        e
        ∙ ap (λ n. some (repeat n 0 ++ digits 256 (value 58 (repeat k 0 ++ parts) 0)))
            (leading-repeat 49 k (spell parts) (leading-digits (value 256 rest 0)))
        ∙ ap (λ ds. some (repeat k 0 ++ ds)) digits_again)
    | inr e ↦ inr e
  ]

  nothing_read : repeat k 0 ++ parts ≡ [] → repeat k 0 ++ rest ≡ []
  unfolding value
  nothing_read e = empty_again k parts rest e (
      sym digits_again
      ∙ ap (λ ds. digits 256 (value 58 ds 0)) e
      ∙ digits_of_value [] refl (inl refl))

to_base58-parted :
    (bytes rest : List ℕ)
    → bytes ≡ repeat (leading 0 bytes) 0 ++ rest
    → to_base58 bytes ≡ repeat (leading 0 bytes) 49 ++ spell (digits 58 (value 256 rest 0))
unfolding to_base58
to_base58-parted bytes rest e =
    ap (λ n. repeat (leading 0 bytes) 49 ++ spell (digits 58 n))
      (ap (λ ys. value 256 ys 0) e ∙ value-repeat 256 (leading 0 bytes) rest)

no_bytes : from_base58 (to_base58 []) ≡ none
unfolding to_base58 from_base58
no_bytes = refl

-- Bytes are decoded from their base 58 text, except that the text of no bytes is an error.
pub from_base58-to_base58 :
    (bytes : List ℕ)
    → all (λ b. ltb b 256) bytes ≡ true
    → from_base58 (to_base58 bytes) ≡ elim bytes [ [] ↦ none | x ∷ xs ↦ some (x ∷ xs) ]
from_base58-to_base58 [] h = no_bytes
from_base58-to_base58 (x ∷ xs) h =
    let (rest, e, c) = parted (x ∷ xs) in
    let n = leading 0 (x ∷ xs) in
    let small = all-repeat (λ b. ltb b 256) n rest (ap (all (λ b. ltb b 256)) (sym e) ∙ h) in
    ap from_base58 (to_base58-parted (x ∷ xs) rest e) ∙ (elim (from-text n rest small c) [
      | inl f ↦ f ∙ ap some (sym e)
      | inr f ↦ absurd (let z = e ∙ nothing_read n rest small c f in cc)
    ])
