-- ===== src/Encoding/Positional.antt =====
-- Digits and their value: either gives the other.
use ancore.Common.{
  ℕ, zero, suc, ◌+◌, ◌*◌, ◌/◌, ◌%◌, ◌≤◌, ◌<◌, true, false, List, [], ◌∷◌, ◌++◌, ◌≡◌, refl, sym, ap,
  subst, ◌∙◌, ltb, arith, all,
}
use native.Mathlib.Nat
use mathlib.Core.List.{append-nil}
use native.Mathlib.Decide.{dec_lt}
use ancore.Encoding.Digits.{digits_loop, digits, value}

module _ (b : ℕ) (b_big : 1 < b) where
  loop_step :
      (fuel n : ℕ) (acc : List ℕ)
      → 0 < n
      → digits_loop b (suc fuel) n acc ≡ digits_loop b fuel (n / b) ((n % b) ∷ acc)
  unfolding digits_loop
  loop_step fuel n acc h = rw (let z : ltb 0 n ≡ true = ground arith in z) refl

  loop_zero : (fuel n : ℕ) (acc : List ℕ) → n ≡ 0 → digits_loop b fuel n acc ≡ acc
  unfolding digits_loop
  loop_zero zero n acc h = refl
  loop_zero (suc fuel) n acc h = rw (let z : ltb 0 n ≡ false = ground arith in z) refl

  smaller : (fuel n : ℕ) → 0 < n → n ≤ suc fuel → n / b ≤ fuel
  smaller fuel n p h = let z = Nat.div-lt_self p b_big in omega (arith, z)

  pub value-loop :
      (fuel n : ℕ) (acc : List ℕ) → n ≤ fuel → value b (digits_loop b fuel n acc) 0 ≡ value b acc n
  unfolding value
  value-loop zero n acc h =
      let z : n ≡ 0 = omega arith in
      ap (λ x. value b x 0) (loop_zero 0 n acc z) ∙ ap (value b acc) (sym z)
  value-loop (suc fuel) n acc h = elim (dec_lt 0 n) [
    | yes q ↦
        ap (λ x. value b x 0) (loop_step fuel n acc q)
        ∙ value-loop fuel (n / b) ((n % b) ∷ acc) (smaller fuel n q h)
        ∙ ap (value b acc) (Nat.div-add-mod' n b)
    | no q ↦
        let z : n ≡ 0 = omega arith in
        ap (λ x. value b x 0) (loop_zero (suc fuel) n acc z) ∙ ap (value b acc) (sym z)
  ]

  -- Fuel beyond the number changes nothing.
  loop-fuel :
      (f g n : ℕ) (acc : List ℕ) → n ≤ f → n ≤ g → digits_loop b f n acc ≡ digits_loop b g n acc
  loop-fuel zero g n acc hf hg =
      loop_zero zero n acc (omega arith) ∙ sym (loop_zero g n acc (omega arith))
  loop-fuel (suc f) zero n acc hf hg =
      loop_zero (suc f) n acc (omega arith) ∙ sym (loop_zero zero n acc (omega arith))
  loop-fuel (suc f) (suc g) n acc hf hg = elim (dec_lt 0 n) [
    | yes q ↦
        loop_step f n acc q
        ∙ loop-fuel f g (n / b) ((n % b) ∷ acc) (smaller f n q hf) (smaller g n q hg)
        ∙ sym (loop_step g n acc q)
    | no q ↦ loop_zero (suc f) n acc (omega arith) ∙ sym (loop_zero (suc g) n acc (omega arith))
  ]

  head_below : (d : ℕ) (ds : List ℕ) → all (λ d. ltb d b) (d ∷ ds) ≡ true → d < b
  head_below d ds h = ground arith

  tail_below :
      (d : ℕ) (ds : List ℕ) → all (λ d. ltb d b) (d ∷ ds) ≡ true → all (λ d. ltb d b) ds ≡ true
  tail_below d ds h = ground arith

  grows : (n d : ℕ) → n ≤ n * b + d
  grows n d = let z : n * 1 ≤ n * b = Nat.mul-le-mul_left n (omega arith) in omega (arith, z)

  -- A digit that was added comes off again.
  taken :
      (n d g : ℕ) (acc : List ℕ)
      → d < b
      → 0 < n
      → n ≤ g
      → digits_loop b (suc (n * b + d)) (n * b + d) acc ≡ digits_loop b g n (d ∷ acc)
  taken n d g acc h p hg =
      let quotient : (n * b + d) / b ≡ n =
        Nat.mul-add-div_right (omega arith) n d
        ∙ (let z = Nat.div-eq_of_lt h in omega (arith, z)) in
      let last : (n * b + d) % b ≡ d = Nat.mul-add-mod_self_right n b d ∙ Nat.mod-eq_of_lt h in
      loop_step (n * b + d) (n * b + d) acc (let z = grows n d in omega (arith, z))
      ∙ ap (λ x. digits_loop b (n * b + d) x (((n * b + d) % b) ∷ acc)) quotient
      ∙ ap (λ x. digits_loop b (n * b + d) n (x ∷ acc)) last
      ∙ loop-fuel (n * b + d) g n (d ∷ acc) (grows n d) hg

  pub loop-value :
      (ds : List ℕ) (f g n : ℕ) (acc : List ℕ)
      → all (λ d. ltb d b) ds ≡ true
      → 0 < n
      → value b ds n ≤ f
      → n ≤ g
      → digits_loop b f (value b ds n) acc ≡ digits_loop b g n (ds ++ acc)
  unfolding value
  loop-value [] f g n acc h p hf hg = loop-fuel f g n acc hf hg
  loop-value (d ∷ ds) f g n acc h p hf hg =
      loop-value ds f (suc (n * b + d)) (n * b + d) acc (tail_below d ds h)
        (let z = grows n d in omega (arith, z)) hf (omega arith)
      ∙ taken n d g (ds ++ acc) (head_below d ds h) p hg

  pub value-digits : (n : ℕ) → value b (digits b n) 0 ≡ n
  unfolding digits value
  value-digits n = value-loop n n [] (omega arith)

  -- The loop on a single digit.
  low : (d : ℕ) (acc : List ℕ) → d < b → 0 < d → digits_loop b d d acc ≡ d ∷ acc
  low d acc h p =
      loop-fuel d (suc d) d acc (omega arith) (omega arith)
      ∙ loop_step d d acc p
      ∙ loop_zero d (d / b) ((d % b) ∷ acc) (Nat.div-eq_of_lt h)
      ∙ ap (λ x. x ∷ acc) (Nat.mod-eq_of_lt h)

  -- Without a zero in front, the digits are those of the value.
  pub digits-value :
      (d : ℕ) (ds : List ℕ)
      → all (λ d. ltb d b) (d ∷ ds) ≡ true
      → 0 < d
      → digits b (value b (d ∷ ds) 0) ≡ d ∷ ds
  unfolding digits value
  digits-value d ds h p =
      let head : 0 * b + d ≡ d = omega arith in
      ap (λ n. digits b (value b ds n)) head
      ∙ loop-value ds (value b ds d) d d [] (tail_below d ds h) p (omega arith) (omega arith)
      ∙ low d (ds ++ []) (head_below d ds h) p
      ∙ ap (λ x. d ∷ x) (append-nil ds)

  loop_below :
      (fuel n : ℕ) (acc : List ℕ)
      → all (λ d. ltb d b) acc ≡ true
      → all (λ d. ltb d b) (digits_loop b fuel n acc) ≡ true
  unfolding digits_loop
  loop_below zero n acc h = h
  loop_below (suc fuel) n acc h =
      let last : n % b < b = Nat.mod-lt n (omega arith) in
      let rest = loop_below fuel (n / b) ((n % b) ∷ acc) in ground arith

  pub digits-below : (n : ℕ) → all (λ d. ltb d b) (digits b n) ≡ true
  unfolding digits
  digits-below n = loop_below n n [] refl

  -- A list whose first item is not zero.
  abbrev pub Starts : List ℕ → Type 0
  Starts xs = (d : ℕ) × (ds : List ℕ) × (xs ≡ d ∷ ds) × (0 < d)

  loop-Starts : (fuel n : ℕ) (acc : List ℕ) → 0 < n → n ≤ fuel → Starts (digits_loop b fuel n acc)
  loop-Starts zero n acc p h = absurd (omega arith)
  loop-Starts (suc fuel) n acc p h = elim (dec_lt 0 (n / b)) [
    | yes q ↦
        subst Starts (sym (loop_step fuel n acc p))
          (loop-Starts fuel (n / b) ((n % b) ∷ acc) q (smaller fuel n p h))
    | no q ↦
        let zero_left : n / b ≡ 0 = omega arith in
        let all_left : n % b ≡ n =
          (let z : n % b ≡ 0 * b + n % b = omega arith in z)
          ∙ ap (λ x. x * b + n % b) (sym zero_left)
          ∙ Nat.div-add-mod' n b in
        (
          n % b,
          acc,
          loop_step fuel n acc p ∙ loop_zero fuel (n / b) ((n % b) ∷ acc) zero_left,
          omega arith,
        )
  ]

  pub digits-Starts : (n : ℕ) → 0 < n → Starts (digits b n)
  unfolding digits
  digits-Starts n h = loop-Starts n n [] h (omega arith)
