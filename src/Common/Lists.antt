-- ===== src/Common/Lists.antt =====
-- Lists measured by native numbers, and the filter by a Boolean test.
use Prim.Native.Nat.{ℕ, zero, suc, ◌+◌, ◌≤◌, ◌<◌}
use native.Mathlib.Decide.{dec_lt}
use mathlib.Core.Path.{◌≡◌, subst}
use mathlib.Core.Logic.{◌⊎◌}
use mathlib.Core.Bool.{Bool, true, ◌&&◌}
use mathlib.Core.List.{List, [], ◌∷◌}
use native.Mathlib.Omega.{arith}
use ancore.Common.Tests.{if◌then◌else◌}

-- The empty type at any level.
pub data Empty {ℓ} : Type ℓ where

module _ {ℓ} {A : Type ℓ} where
  abbrev pub length : List A → ℕ
  length [] = 0
  length (x ∷ xs) = suc (length xs)

  abbrev pub filter : (A → Bool) → List A → List A
  filter p [] = []
  filter p (x ∷ xs) = if p x then x ∷ filter p xs else filter p xs

  abbrev pub all : (A → Bool) → List A → Bool
  all p [] = true
  all p (x ∷ xs) = p x && all p xs

  -- `a` stands in the list.
  abbrev pub Mem : A → List A → Type ℓ
  Mem a [] = Empty {ℓ}
  Mem a (x ∷ xs) = (x ≡ a) ⊎ Mem a xs

  pub length-filter-le : (p : A → Bool) (xs : List A) → length (filter p xs) ≤ length xs
  length-filter-le p [] = omega arith
  length-filter-le p (x ∷ xs) = ground (arith, length-filter-le p xs)

  pub mem-filter :
      (p : A → Bool) (xs : List A) (a : A) → Mem a (filter p xs) → Mem a xs × (p a ≡ true)
  mem-filter p [] a m = elim m [ ]
  mem-filter p (x ∷ xs) a m = ground (arith, mem-filter p xs a)

  pub mem-filter_of :
      (p : A → Bool) (xs : List A) (a : A) → Mem a xs → p a ≡ true → Mem a (filter p xs)
  mem-filter_of p [] a m h = elim m [ ]
  mem-filter_of p (x ∷ xs) a m h = ground (arith, mem-filter_of p xs a)

-- `n` numbers in turn.
abbrev pub count_up : ℕ → ℕ → List ℕ
count_up zero start = []
count_up (suc n) start = start ∷ count_up n (suc start)

pub all-count_up :
    (p : ℕ → Bool) (n start d : ℕ)
    → all p (count_up n start) ≡ true
    → start ≤ d
    → d < start + n
    → p d ≡ true
all-count_up p zero start d h lo hi = absurd (omega arith)
all-count_up p (suc n) start d h lo hi = elim (dec_lt start d) [
  | yes q ↦ all-count_up p n (suc start) d (tail_all h) (omega arith) (omega arith)
  | no q ↦ subst (λ x. p x ≡ true) (let z : start ≡ d = omega arith in z) (head_all h)
]
  where
    tail_all :
        p start && all p (count_up n (suc start)) ≡ true → all p (count_up n (suc start)) ≡ true
    tail_all e = ground arith

    head_all : p start && all p (count_up n (suc start)) ≡ true → p start ≡ true
    head_all e = ground arith
