-- ===== src/Encoding/Alphabet.antt =====
-- The alphabet of packages/crypto/src/encoding.ts: its digits are found again, and texts of them are read.
use ancore.Common.{
  ℕ, zero, suc, ◌+◌, ◌*◌, ◌<◌, Bool, true, false, Option, none, some, List, [], ◌∷◌, ◌++◌, Text,
  ◌==◌, ltb, ◌≡◌, refl, sym, ap, ◌∙◌, inl, inr, all, arith, Bool-cases, count_up, all-count_up,
}
use ancore.Encoding.Digits.{value}
use ancore.Encoding.Base58.{base58_alphabet, index_of, char_at, leading, repeat, spell, read}

-- A test of the text of a digit: one character, and the digit is found by it.
abbrev looked : ℕ → Text → Bool
looked d s = elim s [
  | [] ↦ false
  | x ∷ t ↦ elim t [
    | [] ↦ elim (index_of x base58_alphabet) [ none ↦ false | some i ↦ i == d ]
    | y ∷ u ↦ false
  ]
]

abbrev found : ℕ → Bool
found d = looked d (char_at base58_alphabet d)

all-found : all found (count_up 58 0) ≡ true
unfolding char_at index_of
all-found = refl

-- The character of a digit, and the digit of the character.
abbrev Spelled : ℕ → Text → Type 0
Spelled d s = (c : ℕ) × (s ≡ c ∷ []) × (index_of c base58_alphabet ≡ some d)

digit-Spelled : (d : ℕ) → d < 58 → Spelled d (char_at base58_alphabet d)
digit-Spelled d h =
    let e : found d ≡ true = all-count_up found 58 0 d all-found (omega arith) (omega arith) in
    looked_up (char_at base58_alphabet d) e
  where
    same : (o : Option ℕ) → (elim o [ none ↦ false | some i ↦ i == d ]) ≡ true → o ≡ some d
    same none e = cc
    same (some i) e = ground arith

    looked_up : (s : Text) → looked d s ≡ true → Spelled d s
    looked_up [] e = cc
    looked_up (x ∷ []) e = (x, refl, same (index_of x base58_alphabet) e)
    looked_up (x ∷ y ∷ t) e = cc

pub read-nil : read [] ≡ some []
unfolding read
read-nil = refl

read-one :
    (c d : ℕ) (s : Text) (ds : List ℕ)
    → index_of c base58_alphabet ≡ some d
    → read s ≡ some ds
    → read (c ∷ s) ≡ some (d ∷ ds)
unfolding read
read-one c d s ds h e = rw (h, e) refl

pub read-spell : (ds : List ℕ) → all (λ d. ltb d 58) ds ≡ true → read (spell ds) ≡ some ds
unfolding spell
read-spell [] h = read-nil
read-spell (d ∷ ds) h =
    let (c, e, f) = digit-Spelled d (ground arith) in
    ap (λ s. read (s ++ spell ds)) e ∙ read-one c d (spell ds) ds f (read-spell ds (ground arith))

one_is_zero : index_of 49 base58_alphabet ≡ some 0
unfolding index_of
one_is_zero = refl

pub read-repeat :
    (k : ℕ) (s : Text) (ds : List ℕ)
    → read s ≡ some ds
    → read (repeat k 49 ++ s) ≡ some (repeat k 0 ++ ds)
unfolding repeat
read-repeat zero s ds h = h
read-repeat (suc k) s ds h =
    read-one 49 0 (repeat k 49 ++ s) (repeat k 0 ++ ds) one_is_zero (read-repeat k s ds h)

pub value-repeat : (b k : ℕ) (ds : List ℕ) → value b (repeat k 0 ++ ds) 0 ≡ value b ds 0
unfolding value repeat
value-repeat b zero ds = refl
value-repeat b (suc k) ds =
    ap (value b (repeat k 0 ++ ds)) (let z : 0 * b + 0 ≡ 0 = omega arith in z) ∙ value-repeat b k ds

pub leading-repeat : (c k : ℕ) (s : List ℕ) → leading c s ≡ 0 → leading c (repeat k c ++ s) ≡ k
unfolding leading repeat
leading-repeat c zero s h = h
leading-repeat c (suc k) s h = (let ih = leading-repeat c k s h in ground arith)

not_one : (c d : ℕ) → index_of c base58_alphabet ≡ some d → 0 < d → (c == 49) ≡ false
not_one c d e p = elim (Bool-cases (c == 49)) [
  | inl q ↦
      let z : c ≡ 49 = ground arith in
      let o : some 0 ≡ some d =
        sym one_is_zero ∙ ap (λ x. index_of x base58_alphabet) (sym z) ∙ e in
      absurd (some_zero d o p)
  | inr q ↦ q
]
  where
    some_zero : (d : ℕ) → some 0 ≡ some d → 0 < d → ⊥
    some_zero d o p = ground arith

leading-other : (c : ℕ) (s : Text) → (c == 49) ≡ false → leading 49 (c ∷ s) ≡ 0
unfolding leading
leading-other c s h = rw h refl

pub leading-spell : (d : ℕ) (ds : List ℕ) → d < 58 → 0 < d → leading 49 (spell (d ∷ ds)) ≡ 0
unfolding spell
leading-spell d ds h p =
    let (c, e, f) = digit-Spelled d h in
    ap (λ s. leading 49 (s ++ spell ds)) e ∙ leading-other c (spell ds) (not_one c d f p)
