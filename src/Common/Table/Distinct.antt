-- ===== src/Common/Table/Distinct.antt =====
-- Tables that hold each key once, as every `Map` does.
use mathlib.Core.Path.{◌≡◌, refl}
use mathlib.Core.Logic.{inl, inr}
use mathlib.Core.List.{[], ◌∷◌}
use mathlib.Core.Option.{none, some}
use native.Mathlib.Omega.{arith}
use ancore.Common.Lists.{Mem}
use ancore.Common.Keys.{Eq}
use ancore.Common.Table.{Table, get, set, delete, values, get-set, get-delete}

module _ {ℓ} {K V : Type ℓ} ⦃e : Eq K⦄ where
  abbrev pub Distinct : Table K V → Type ℓ
  Distinct [] = Unit
  Distinct ((k, v) ∷ m) = (get k m ≡ none) × Distinct m

  pub set-Distinct : (k : K) (v : V) (m : Table K V) → Distinct m → Distinct (set k v m)
  unfolding set get
  set-Distinct k v [] d = (refl, tt)
  set-Distinct k v ((j, w) ∷ m) d =
      ground (arith, set-Distinct k v m, get-set j k v m, e.beq_iff j k, e.beq_iff k j)

  pub delete-Distinct : (k : K) (m : Table K V) → Distinct m → Distinct (delete k m)
  unfolding delete get
  delete-Distinct k [] d = tt
  delete-Distinct k ((j, w) ∷ m) d = ground (arith, delete-Distinct k m, get-delete j k m)

  -- A value of the table is what a read of its key gives.
  pub get_of_mem-values :
      (v : V) (m : Table K V) → Distinct m → Mem v (values m) → (k : K) × (get k m ≡ some v)
  unfolding get
  get_of_mem-values v [] d h = elim h [ ]
  get_of_mem-values v ((j, w) ∷ m) d (inl h) = (j, ground (arith, e.beq_iff j j))
  get_of_mem-values v ((j, w) ∷ m) d (inr h) =
      let (k, r) = get_of_mem-values v m d.1 h in (k, ground (arith, e.beq_iff j k))

  pub mem-values_of_get : (k : K) (v : V) (m : Table K V) → get k m ≡ some v → Mem v (values m)
  unfolding get
  mem-values_of_get k v [] h = cc
  mem-values_of_get k v ((j, w) ∷ m) h = ground (arith, mem-values_of_get k v m)
