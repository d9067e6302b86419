-- ===== src/Sdk/Scaled.antt =====
-- The text of a scaled amount is scaled to it again.
use ancore.Common.{
  ℕ, zero, suc, ◌+◌, ◌-◌, ◌≤◌, true, false, some, [], ◌∷◌, ◌++◌, Text, length, ◌==◌, ℤ, pos, negsuc,
  ◌≡◌, ◌≢◌, refl, sym, ap, subst, ◌∙◌, arith,
}
use ancore.Encoding.Decimal.{
  is_digit, all_digits, big_int, to_decimal, zeros, pad_end, pad_start, strip_zeros, before, behind,
}
use ancore.Encoding.Decimals.{
  big_int-to_decimal, to_decimal-all_digits, big_int-pad_start, pad_end-strip_zeros, before-digits,
  behind-digits, before-only_digits, behind-only_digits, length-append, length-zeros,
  zeros-all_digits, all_digits-append, all_digits-strip_zeros,
}
use ancore.Sdk.Amount.{
  take_text, drop_text, minus, parse_digits, parse_big_int, padded_fraction, to_scaled_big_int,
  slice_front, slice_back, or_zero, join_parts, format_magnitude, format_scaled,
}

take-drop : (n : ℕ) (s : Text) → take_text n s ++ drop_text n s ≡ s
unfolding take_text drop_text
take-drop zero s = refl
take-drop (suc n) [] = refl
take-drop (suc n) (c ∷ s) = ap (λ x. c ∷ x) (take-drop n s)

length-drop : (n : ℕ) (s : Text) → length (drop_text n s) ≡ length s - n
unfolding drop_text
length-drop zero s = omega arith
length-drop (suc n) [] = omega arith
length-drop (suc n) (c ∷ s) = omega (arith, length-drop n s)

take-length : (s : Text) → take_text (length s) s ≡ s
unfolding take_text
take-length [] = refl
take-length (c ∷ s) = ap (λ x. c ∷ x) (take-length s)

all_digits-take : (n : ℕ) (s : Text) → all_digits s ≡ true → all_digits (take_text n s) ≡ true
unfolding take_text all_digits
all_digits-take zero s h = refl
all_digits-take (suc n) [] h = refl
all_digits-take (suc n) (c ∷ s) h = ground (arith, all_digits-take n s)

all_digits-drop : (n : ℕ) (s : Text) → all_digits s ≡ true → all_digits (drop_text n s) ≡ true
unfolding drop_text all_digits
all_digits-drop zero s h = h
all_digits-drop (suc n) [] h = refl
all_digits-drop (suc n) (c ∷ s) h = all_digits-drop n s (ground arith)

le-length-pad_start : (k : ℕ) (s : Text) → k ≤ length (pad_start k s)
unfolding pad_start
le-length-pad_start k s =
    let l = length-append (zeros (k - length s)) s in
    let z = length-zeros (k - length s) in omega (arith, l, z)

all_digits-pad_start : (k : ℕ) (s : Text) → all_digits s ≡ true → all_digits (pad_start k s) ≡ true
unfolding pad_start
all_digits-pad_start k s h =
    all_digits-append (zeros (k - length s)) s (zeros-all_digits (k - length s)) h

-- The parts of a text of digits at a point, put together again.
join-before :
    (i f : Text)
    → all_digits i ≡ true
    → all_digits f ≡ true
    → (before b'.' (join_parts i f) ≡ i) × (before b'.' (behind b'.' (join_parts i f)) ≡ f)
unfolding join_parts
join-before i [] h k = (
  before-only_digits b'.' refl i h,
  ap (before b'.') (behind-only_digits b'.' refl i h) ∙ (unfold before in refl),
)
join-before i (c ∷ s) h k = (
  before-digits b'.' refl i (c ∷ s) h,
  ap (before b'.') (behind-digits b'.' refl i (c ∷ s) h) ∙ before-only_digits b'.' refl (c ∷ s) k,
)

-- A text that is read without a cut is read.
parse_big_int-some : (s : Text) (v : ℤ) → parse_digits s ≡ some v → parse_big_int s ≡ some v
unfolding parse_big_int
parse_big_int-some s v h = rw (h, parse_big_int) refl

parse-digits :
    (c : ℕ) (s : Text)
    → all_digits (c ∷ s) ≡ true
    → parse_digits (c ∷ s) ≡ some (pos (big_int (c ∷ s)))
unfolding parse_digits
parse-digits c s h =
    let first : is_digit c ≡ true = unfold all_digits in ground (arith, h) in
    let no_minus : (c == b'-') ≡ false = ground (arith, first) in
    let no_plus : (c == b'+') ≡ false = ground (arith, first) in rw (no_minus, no_plus, h) refl

parse-minus :
    (c : ℕ) (s : Text)
    → all_digits (c ∷ s) ≡ true
    → parse_digits (b'-' ∷ c ∷ s) ≡ some (minus (big_int (c ∷ s)))
unfolding parse_digits
parse-minus c s h = let z : (suc (length s) == 0) ≡ false = ground arith in rw (z, h) refl

module _ (q n : ℕ) where
  raw : Text
  raw = pad_start (suc q + 1) (to_decimal n)

  place : ℕ
  unfolding raw
  place = length raw - suc q

  whole : Text
  whole = take_text place raw

  fraction : Text
  fraction = drop_text place raw

  long : suc (suc q) ≤ length raw
  unfolding raw
  long = let z = le-length-pad_start (suc q + 1) (to_decimal n) in omega (arith, z)

  raw-all_digits : all_digits raw ≡ true
  unfolding raw
  raw-all_digits = all_digits-pad_start (suc q + 1) (to_decimal n) (to_decimal-all_digits n)

  big_int-raw : big_int raw ≡ n
  unfolding raw
  big_int-raw = big_int-pad_start (suc q + 1) (to_decimal n) ∙ big_int-to_decimal n

  length-fraction : length fraction ≡ suc q
  unfolding fraction place
  length-fraction = length-drop (length raw - suc q) raw ∙ omega (arith, long)

  parts : whole ++ fraction ≡ raw
  unfolding whole fraction
  parts = take-drop place raw

  whole-ne-nil : whole ≢ []
  whole-ne-nil h =
      let z : length fraction ≡ length raw = ap length (ap (λ w. w ++ fraction) (sym h) ∙ parts) in
      absurd (omega (arith, z, long, length-fraction))

  or_zero-whole : or_zero whole ≡ whole
  or_zero-whole = kept whole whole-ne-nil
    where
      kept : (w : Text) → w ≢ [] → or_zero w ≡ w
      kept [] h = absurd (h refl)
      kept (c ∷ s) h = unfold or_zero in refl

  format-parts : format_magnitude (suc q) n ≡ join_parts whole (strip_zeros fraction)
  unfolding format_magnitude slice_front slice_back whole fraction place raw
  format-parts = ap (λ w. join_parts w (strip_zeros fraction)) or_zero-whole

  stripped-all_digits : all_digits (strip_zeros fraction) ≡ true
  unfolding fraction
  stripped-all_digits =
      all_digits-strip_zeros (drop_text place raw) (all_digits-drop place raw raw-all_digits)

  whole-all_digits : all_digits whole ≡ true
  unfolding whole
  whole-all_digits = all_digits-take place raw raw-all_digits

  padded-stripped : padded_fraction (suc q) (strip_zeros fraction) ≡ fraction
  unfolding padded_fraction
  padded-stripped =
      ap (λ l. take_text l (pad_end l (strip_zeros fraction))) (sym length-fraction)
      ∙ ap (take_text (length fraction)) (pad_end-strip_zeros fraction)
      ∙ take-length fraction

  -- The digits that are scaled again.
  scaled_digits :
      before b'.' (format_magnitude (suc q) n)
        ++ padded_fraction (suc q) (before b'.' (behind b'.' (format_magnitude (suc q) n)))
      ≡ raw
  scaled_digits =
      let (b, f) = join-before whole (strip_zeros fraction) whole-all_digits stripped-all_digits in
      ap (λ s. before b'.' s ++ padded_fraction (suc q) (before b'.' (behind b'.' s))) format-parts
      ∙ ap
          (λ s.
            s
            ++ padded_fraction (suc q)
                (before b'.' (behind b'.' (join_parts whole (strip_zeros fraction)))))
          b
      ∙ ap (λ s. whole ++ padded_fraction (suc q) s) f
      ∙ ap (λ s. whole ++ s) padded-stripped
      ∙ parts

  raw-cons : (c : ℕ) × (s : Text) × (raw ≡ c ∷ s)
  raw-cons = first_of raw long
    where
      first_of : (s : Text) → suc (suc q) ≤ length s → (c : ℕ) × (t : Text) × (s ≡ c ∷ t)
      first_of [] h = absurd (omega (arith, h))
      first_of (c ∷ s) h = (c, s, refl)

  scaled-pos : to_scaled_big_int (format_magnitude (suc q) n) (suc q) ≡ some (pos n)
  unfolding to_scaled_big_int
  scaled-pos =
      let (c, s, e) = raw-cons in
      ap parse_big_int (scaled_digits ∙ e)
      ∙ parse_big_int-some (c ∷ s) (pos (big_int (c ∷ s)))
          (parse-digits c s (subst (λ r. all_digits r ≡ true) e raw-all_digits))
      ∙ ap (λ r. some (pos (big_int r))) (sym e)
      ∙ ap (λ v. some (pos v)) big_int-raw

  scaled-minus : to_scaled_big_int (b'-' ∷ format_magnitude (suc q) n) (suc q) ≡ some (minus n)
  unfolding to_scaled_big_int
  scaled-minus =
      let (c, s, e) = raw-cons in
      let sign : before b'.' (b'-' ∷ format_magnitude (suc q) n)
          ≡ b'-' ∷ before b'.' (format_magnitude (suc q) n) =
        unfold before in refl in
      let rest : behind b'.' (b'-' ∷ format_magnitude (suc q) n)
          ≡ behind b'.' (format_magnitude (suc q) n) =
        unfold behind in refl in
      ap
        (λ x. parse_big_int (
          x
          ++ padded_fraction (suc q)
              (before b'.' (behind b'.' (b'-' ∷ format_magnitude (suc q) n)))))
        sign
      ∙ ap
          (λ x. parse_big_int (
            b'-'
            ∷ (before b'.' (format_magnitude (suc q) n)
                ++ padded_fraction (suc q) (before b'.' x))))
          rest
      ∙ ap (λ x. parse_big_int (b'-' ∷ x)) (scaled_digits ∙ e)
      ∙ parse_big_int-some (b'-' ∷ c ∷ s) (minus (big_int (c ∷ s)))
          (parse-minus c s (subst (λ r. all_digits r ≡ true) e raw-all_digits))
      ∙ ap (λ r. some (minus (big_int r))) (sym e)
      ∙ ap (λ v. some (minus v)) big_int-raw

-- The text of a scaled amount is scaled to it again.
pub to_scaled-format_scaled :
    (q : ℕ) (v : ℤ) → to_scaled_big_int (format_scaled (suc q) v) (suc q) ≡ some v
unfolding format_scaled
to_scaled-format_scaled q (pos n) = scaled-pos q n
to_scaled-format_scaled q (negsuc n) = scaled-minus q (suc n)
