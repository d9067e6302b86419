-- ===== src/Common/Sort.antt =====
-- `Array.prototype.sort` by a number: stable, so that of equal entries the earlier stands first.
use ancore.Common.Tests.{ltb, if◌then◌else◌, Option-cases}
use ancore.Common.Lists.{Mem}
use Prim.Native.Nat.{ℕ, ◌≤◌}
use mathlib.Core.Path.{◌≡◌, refl}
use mathlib.Core.Logic.{inl, inr}
use mathlib.Core.List.{List, [], ◌∷◌}
use mathlib.Core.Option.{Option, none, some}
use native.Mathlib.Omega.{arith}

module _ {ℓ} {A : Type ℓ} (key : A → ℕ) where
  unfoldable pub insert : A → List A → List A
  insert a [] = a ∷ []
  insert a (x ∷ xs) = if ltb (key x) (key a) then x ∷ insert a xs else a ∷ x ∷ xs

  unfoldable pub sort : List A → List A
  unfolding insert
  sort [] = []
  sort (x ∷ xs) = insert x (sort xs)

module _ {ℓ} {A : Type ℓ} where
  -- `xs[0]`
  abbrev pub first : List A → Option A
  first [] = none
  first (x ∷ xs) = some x

  -- The first entry with the least key, by one pass over the list.
  abbrev pub least : (A → ℕ) → List A → Option A
  least key [] = none
  least key (x ∷ xs) = elim (least key xs) [
    | none ↦ some x
    | some y ↦ if ltb (key y) (key x) then some y else some x
  ]

  first-insert :
      (key : A → ℕ) (a : A) (xs : List A)
      → first (insert key a xs) ≡ elim (first xs) [
        | none ↦ some a
        | some y ↦ if ltb (key y) (key a) then some y else some a
      ]
  unfolding insert
  first-insert key a [] = refl
  first-insert key a (x ∷ xs) = ground arith

  pub first-sort : (key : A → ℕ) (xs : List A) → first (sort key xs) ≡ least key xs
  unfolding sort
  first-sort key [] = refl
  first-sort key (x ∷ xs) = rw (first-insert key x (sort key xs), first-sort key xs) refl

  pub least-eq-none : (key : A → ℕ) (xs : List A) → least key xs ≡ none → xs ≡ []
  least-eq-none key [] h = refl
  least-eq-none key (x ∷ xs) h = ground arith

  -- The least entry stands in the list and no entry has a smaller key.
  pub least-le :
      (key : A → ℕ) (xs : List A) {a : A} (b : A) → least key xs ≡ some a → Mem b xs → key a ≤ key b
  least-le key [] b h m = elim m [ ]
  least-le key (x ∷ xs) b h m = elim (Option-cases (least key xs)) [
    | inl e ↦ ground (arith, least-eq-none key xs e, h, m)
    | inr (y, e) ↦ ground (arith, least-le key xs {a = y} b e)
  ]

  pub mem-least : (key : A → ℕ) (xs : List A) {a : A} → least key xs ≡ some a → Mem a xs
  mem-least key [] h = cc
  mem-least key (x ∷ xs) h = elim (Option-cases (least key xs)) [
    | inl e ↦ ground arith
    | inr (y, e) ↦ ground (arith, mem-least key xs {a = y} e)
  ]
