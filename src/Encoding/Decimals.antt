-- ===== src/Encoding/Decimals.antt =====
-- Decimal texts and their numbers: round trips, padding and parts.
use ancore.Common.{
  ℕ, zero, suc, ◌+◌, ◌-◌, ◌*◌, ◌/◌, ◌%◌, ◌^◌, ◌≤◌, ◌<◌, true, false, List, [], ◌∷◌, ◌++◌, map, Text,
  length, ltb, all, ◌==◌, ◌≡◌, ◌≢◌, refl, sym, ap, ◌∙◌, arith, inl, inr, Bool-cases, if◌then◌else◌,
}
use ancore.Encoding.Digits.{digits, digits_loop, value}
use ancore.Encoding.Positional.{value-digits, digits-below, digits-Starts}
use ancore.Encoding.Decimal.{
  is_digit, all_digits, digit_of, big_int, decimal_char, to_decimal, zeros, pad_end, pad_start,
  strip_zeros, before, behind,
}

digits_of-digit_chars : (ds : List ℕ) → map digit_of (map decimal_char ds) ≡ ds
unfolding digit_of
digits_of-digit_chars [] = refl
digits_of-digit_chars (d ∷ ds) = ground (arith, digits_of-digit_chars ds)

pub big_int-to_decimal : (n : ℕ) → big_int (to_decimal n) ≡ n
unfolding big_int to_decimal
big_int-to_decimal n = elim (Bool-cases (n == 0)) [
  | inl e ↦ rw e (unfold value digit_of in ground arith)
  | inr h ↦ rw (h, digits_of-digit_chars (digits 10 n)) (value-digits 10 (omega arith) n)
]

chars-all_digits :
    (ds : List ℕ) → all (λ d. ltb d 10) ds ≡ true → all_digits (map decimal_char ds) ≡ true
unfolding all_digits
chars-all_digits [] h = refl
chars-all_digits (d ∷ ds) h = ground (arith, chars-all_digits ds)

pub to_decimal-all_digits : (n : ℕ) → all_digits (to_decimal n) ≡ true
unfolding to_decimal
to_decimal-all_digits n = elim (Bool-cases (n == 0)) [
  | inl e ↦ rw e (unfold all_digits in refl)
  | inr h ↦ rw h (chars-all_digits (digits 10 n) (digits-below 10 (omega arith) n))
]

pow_suc : (k : ℕ) → 10 ^ suc k ≡ 10 * 10 ^ k
pow_suc k = omega arith

shuffle : (n d p v : ℕ) → (n * 10 + d) * p + v ≡ n * (10 * p) + ((0 * 10 + d) * p + v)
shuffle n d p v = grind arith

-- A digit shifts what was read before it.
pub value-linear : (ds : List ℕ) (n : ℕ) → value 10 ds n ≡ n * 10 ^ length ds + value 10 ds 0
unfolding value
value-linear [] n = omega arith
value-linear (d ∷ ds) n =
    value-linear ds (n * 10 + d)
    ∙ shuffle n d (10 ^ length ds) (value 10 ds 0)
    ∙ ap (λ p. n * p + ((0 * 10 + d) * 10 ^ length ds + value 10 ds 0)) (sym (pow_suc (length ds)))
    ∙ ap (λ v. n * 10 ^ suc (length ds) + v) (sym (value-linear ds (0 * 10 + d)))

value-append : (xs ys : List ℕ) (n : ℕ) → value 10 (xs ++ ys) n ≡ value 10 ys (value 10 xs n)
unfolding value
value-append [] ys n = refl
value-append (d ∷ xs) ys n = value-append xs ys (n * 10 + d)

map-append_digits : (s t : Text) → map digit_of (s ++ t) ≡ map digit_of s ++ map digit_of t
map-append_digits [] t = refl
map-append_digits (c ∷ s) t = ap (λ x. digit_of c ∷ x) (map-append_digits s t)

length-digits_of : (s : Text) → length (map digit_of s) ≡ length s
length-digits_of [] = refl
length-digits_of (c ∷ s) = ap suc (length-digits_of s)

pub big_int-append : (s t : Text) → big_int (s ++ t) ≡ big_int s * 10 ^ length t + big_int t
unfolding big_int
big_int-append s t =
    ap (λ ds. value 10 ds 0) (map-append_digits s t)
    ∙ value-append (map digit_of s) (map digit_of t) 0
    ∙ value-linear (map digit_of t) (value 10 (map digit_of s) 0)
    ∙ ap (λ l. value 10 (map digit_of s) 0 * 10 ^ l + value 10 (map digit_of t) 0)
        (length-digits_of t)

pub big_int-zeros : (k : ℕ) → big_int (zeros k) ≡ 0
unfolding big_int zeros
big_int-zeros zero = unfold value in refl
big_int-zeros (suc k) = unfold value digit_of in big_int-zeros k

pub length-zeros : (k : ℕ) → length (zeros k) ≡ k
unfolding zeros
length-zeros zero = refl
length-zeros (suc k) = ap suc (length-zeros k)

pub zeros-all_digits : (k : ℕ) → all_digits (zeros k) ≡ true
unfolding zeros all_digits
zeros-all_digits zero = refl
zeros-all_digits (suc k) = zeros-all_digits k

pub big_int-pad_start : (k : ℕ) (s : Text) → big_int (pad_start k s) ≡ big_int s
unfolding pad_start
big_int-pad_start k s =
    big_int-append (zeros (k - length s)) s
    ∙ ap (λ z. z * 10 ^ length s + big_int s) (big_int-zeros (k - length s))
    ∙ omega arith

pub all_digits-append :
    (s t : Text) → all_digits s ≡ true → all_digits t ≡ true → all_digits (s ++ t) ≡ true
unfolding all_digits
all_digits-append [] t h k = k
all_digits-append (c ∷ s) t h k = ground (arith, all_digits-append s t)

pub length-append : (s t : Text) → length (s ++ t) ≡ length s + length t
length-append [] t = omega arith
length-append (c ∷ s) t = omega (arith, length-append s t)

-- The zeros at the end are put back by padding to the same length.
pub pad_end-strip_zeros : (s : Text) → pad_end (length s) (strip_zeros s) ≡ s
unfolding pad_end strip_zeros zeros
pad_end-strip_zeros [] = refl
pad_end-strip_zeros (c ∷ s) = put_back (strip_zeros s) (pad_end-strip_zeros s)
  where
    put_back :
        (t : Text)
        → t ++ zeros (length s - length t) ≡ s
        → (let u : Text = elim t [ [] ↦ if c == b'0' then [] else c ∷ [] | d ∷ t ↦ c ∷ d ∷ t ] in
            u ++ zeros (suc (length s) - length u))
          ≡ c ∷ s
    put_back [] h = elim (Bool-cases (c == b'0')) [
      | inl e ↦ rw e (ground (arith, h))
      | inr n ↦ rw n (ground (arith, h))
    ]
    put_back (d ∷ t) h = ground (arith, h)

-- The parts of a text of digits, a point and digits.
module _ (p : ℕ) (no_digit : is_digit p ≡ false) where
  pub before-digits : (s t : Text) → all_digits s ≡ true → before p (s ++ (p ∷ t)) ≡ s
  unfolding before all_digits
  before-digits [] t h = ground arith
  before-digits (c ∷ s) t h =
      let other : (c == p) ≡ false = ground arith in
      rw other (ap (λ x. c ∷ x) (before-digits s t (ground arith)))

  pub behind-digits : (s t : Text) → all_digits s ≡ true → behind p (s ++ (p ∷ t)) ≡ t
  unfolding behind all_digits
  behind-digits [] t h = ground arith
  behind-digits (c ∷ s) t h =
      let other : (c == p) ≡ false = ground arith in rw other (behind-digits s t (ground arith))

  pub before-only_digits : (s : Text) → all_digits s ≡ true → before p s ≡ s
  unfolding before all_digits
  before-only_digits [] h = refl
  before-only_digits (c ∷ s) h =
      let other : (c == p) ≡ false = ground arith in
      rw other (ap (λ x. c ∷ x) (before-only_digits s (ground arith)))

  pub behind-only_digits : (s : Text) → all_digits s ≡ true → behind p s ≡ []
  unfolding behind all_digits
  behind-only_digits [] h = refl
  behind-only_digits (c ∷ s) h =
      let other : (c == p) ≡ false = ground arith in rw other (behind-only_digits s (ground arith))

-- The digits of a number below 10 ^ k are k at most.
length-digits_loop :
    (k fuel n : ℕ) (acc : List ℕ) → n < 10 ^ k → length (digits_loop 10 fuel n acc) ≤ k + length acc
unfolding digits_loop
length-digits_loop k zero n acc h = omega arith
length-digits_loop zero (suc fuel) n acc h = elim (Bool-cases (ltb 0 n)) [
  | inl e ↦ absurd (ground arith)
  | inr e ↦ rw e (omega arith)
]
length-digits_loop (suc k) (suc fuel) n acc h = elim (Bool-cases (ltb 0 n)) [
  | inl e ↦
      let less : n / 10 < 10 ^ k = omega (arith, pow_suc k) in
      rw e (let z = length-digits_loop k fuel (n / 10) ((n % 10) ∷ acc) less in omega (arith, z))
  | inr e ↦ rw e (omega arith)
]

length-chars : (ds : List ℕ) → length (map decimal_char ds) ≡ length ds
length-chars [] = refl
length-chars (d ∷ ds) = ap suc (length-chars ds)

pub length-to_decimal : (k n : ℕ) → 0 < k → n < 10 ^ k → length (to_decimal n) ≤ k
unfolding to_decimal digits
length-to_decimal k n p h = elim (Bool-cases (n == 0)) [
  | inl e ↦ rw e (omega arith)
  | inr e ↦
      rw (e, length-chars (digits_loop 10 n n []))
        (let z = length-digits_loop k n n [] h in omega (arith, z))
]

pub length-pad_start : (k : ℕ) (s : Text) → length s ≤ k → length (pad_start k s) ≡ k
unfolding pad_start
length-pad_start k s h =
    length-append (zeros (k - length s)) s ∙ omega (arith, length-zeros (k - length s))

pub all_digits-strip_zeros : (s : Text) → all_digits s ≡ true → all_digits (strip_zeros s) ≡ true
unfolding all_digits strip_zeros
all_digits-strip_zeros [] h = refl
all_digits-strip_zeros (c ∷ s) h = kept (strip_zeros s) (all_digits-strip_zeros s (ground arith))
  where
    kept :
        (t : Text)
        → all_digits t ≡ true
        → all_digits (elim t [ [] ↦ if c == b'0' then [] else c ∷ [] | d ∷ t ↦ c ∷ d ∷ t ]) ≡ true
    kept [] k = ground arith
    kept (d ∷ t) k = ground arith

pub to_decimal-ne-nil : (n : ℕ) → to_decimal n ≢ []
unfolding to_decimal
to_decimal-ne-nil n h = elim (Bool-cases (n == 0)) [
  | inl e ↦ let z : b'0' ∷ [] ≡ [] = rw e at h in absurd (cc z)
  | inr e ↦
      let z : map decimal_char (digits 10 n) ≡ [] = rw e at h in
      let (d, ds, starts, p) = digits-Starts 10 (omega arith) n (ground arith) in
      let y : decimal_char d ∷ map decimal_char ds ≡ [] = ap (map decimal_char) (sym starts) ∙ z in
      absurd (cc y)
]
