-- ===== src/Common/Table.antt =====
-- The JavaScript `Map`: entries in the order in which their keys were first set. A `set` of a key
-- that is there changes its entry in place.
pub mod Distinct
use ancore.Common.Tests.{if◌then◌else◌, Bool-cases}
use ancore.Common.Keys.{Eq}
use mathlib.Core.Path.{◌≡◌, refl, subst}
use mathlib.Core.Bool.{true, false}
use mathlib.Core.Logic.{◌≢◌, inl, inr}
use mathlib.Core.List.{List, [], ◌∷◌}
use mathlib.Core.Option.{Option, none, some}
use native.Mathlib.Omega.{arith}

abbrev pub Table {ℓ κ} : Type ℓ → Type κ → Type (ℓ ⊔ κ)
Table K V = List (K × V)

abbrev pub values {ℓ κ} : {K : Type ℓ} {V : Type κ} → Table K V → List V
values [] = []
values ((k, v) ∷ m) = v ∷ values m

module _ {ℓ κ} {K : Type ℓ} {V : Type κ} ⦃e : Eq K⦄ where
  unfoldable pub get : K → Table K V → Option V
  get k [] = none
  get k ((j, v) ∷ m) = if e.beq j k then some v else get k m

  unfoldable pub set : K → V → Table K V → Table K V
  set k v [] = (k, v) ∷ []
  set k v ((j, w) ∷ m) = if e.beq j k then (j, v) ∷ m else (j, w) ∷ set k v m

  -- A key has at most one entry, so that to drop all entries of a key is to drop one.
  unfoldable pub delete : K → Table K V → Table K V
  delete k [] = []
  delete k ((j, w) ∷ m) = if e.beq j k then delete k m else (j, w) ∷ delete k m

  -- A read after a write.
  pub get-set :
      (j k : K) (v : V) (m : Table K V)
      → get j (set k v m) ≡ (if e.beq k j then some v else get j m)
  unfolding get set
  get-set j k v [] = refl
  get-set j k v ((i, w) ∷ m) =
      ground (arith, e.beq_iff k j, e.beq_iff i k, e.beq_iff i j, get-set j k v m)

  pub get-set_self : (k : K) (v : V) (m : Table K V) → get k (set k v m) ≡ some v
  get-set_self k v m = ground (arith, get-set k k v m, e.beq_iff k k)

  pub get-set_ne : (j k : K) (v : V) (m : Table K V) → k ≢ j → get j (set k v m) ≡ get j m
  get-set_ne j k v m h = ground (arith, get-set j k v m, e.beq_iff k j)

  pub get-delete :
      (j k : K) (m : Table K V) → get j (delete k m) ≡ (if e.beq k j then none else get j m)
  unfolding get delete
  get-delete j k [] = ground arith
  get-delete j k ((i, w) ∷ m) =
      ground (arith, e.beq_iff k j, e.beq_iff i k, e.beq_iff i j, get-delete j k m)

  -- What holds of each entry and of a new one holds of each entry after the write.
  pub set-all {μ} :
      (Q : K → V → Type μ) (k : K) (v : V) (m : Table K V)
      → ((j : K) (w : V) → get j m ≡ some w → Q j w)
      → Q k v
      → (j : K) (w : V) → get j (set k v m) ≡ some w
      → Q j w
  set-all Q k v m old new j w h = elim (Bool-cases (e.beq k j)) [
    | inl same ↦
        let here : k ≡ j = (e.beq_iff k j).0 same in
        let stored : v ≡ w = ground (arith, get-set j k v m) in
        subst (λ i. Q i w) here (subst (Q k) stored new)
    | inr other ↦ old j w (ground (arith, get-set j k v m))
  ]
