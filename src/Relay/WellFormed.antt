-- ===== src/Relay/WellFormed.antt =====
-- The canonical payload has no surrogate that is not one of a pair, so that UTF-8 can encode it.
use mathlib.Core.List.{append_assoc}
use ancore.Common.{
  ℕ, ◌+◌, ◌/◌, ◌%◌, ◌<◌, Bool, true, false, [], ◌∷◌, ◌++◌, Text, codes, ℤ, pos, negsuc, ltb, ◌&&◌,
  ◌||◌, not, if◌then◌else◌, ◌≡◌, refl, arith, inl, inr, Bool-cases,
}
use ancore.Encoding.SignatureFormat.{hex_digit}
use ancore.Encoding.Decimal.{to_decimal, all_digits}
use ancore.Encoding.Decimals.{to_decimal-all_digits}
use ancore.Relay.Service.{CanonicalPayloadInput}
use ancore.Relay.Json.{
  is_high, is_low, low_next, hex_escape, escape_unit, escape_text, quote, integer_text,
}
use ancore.Relay.Payload.{operation_text, member, payload_json}

-- Every surrogate is one of a pair; `paired` tells that the first unit is the second one of a pair.
unfoldable pub well_formed : Bool → Text → Bool
well_formed paired [] = true
well_formed paired (c ∷ s) =
    (paired || (if is_high c then low_next s else not (is_low c)))
    && well_formed (not paired && is_high c) s

no_surrogates : Text → Bool
no_surrogates [] = true
no_surrogates (c ∷ s) = not (is_high c || is_low c) && no_surrogates s

well_formed-append :
    (s rest : Text)
    → no_surrogates s ≡ true
    → well_formed false rest ≡ true
    → well_formed false (s ++ rest) ≡ true
unfolding well_formed no_surrogates
well_formed-append [] rest h w = w
well_formed-append (c ∷ s) rest h w = ground (arith, well_formed-append s rest)

hex_digit-low : (d : ℕ) → d < 16 → ltb (hex_digit d) 128 ≡ true
hex_digit-low d h = ground arith

no_surrogates-hex_escape : (c : ℕ) → no_surrogates (hex_escape c) ≡ true
unfolding no_surrogates
no_surrogates-hex_escape c =
    four (hex_digit (c / 4096 % 16)) (hex_digit (c / 256 % 16)) (hex_digit (c / 16 % 16))
      (hex_digit (c % 16)) (hex_digit-low (c / 4096 % 16) (omega arith))
      (hex_digit-low (c / 256 % 16) (omega arith)) (hex_digit-low (c / 16 % 16) (omega arith))
      (hex_digit-low (c % 16) (omega arith))
  where
    four :
        (x y z w : ℕ)
        → ltb x 128 ≡ true
        → ltb y 128 ≡ true
        → ltb z 128 ≡ true
        → ltb w 128 ≡ true
        → no_surrogates (92 ∷ b'u' ∷ x ∷ y ∷ z ∷ w ∷ []) ≡ true
    four x y z w h i j k = ground arith

no_surrogates-escape_unit : (c : ℕ) → no_surrogates (escape_unit c) ≡ true
unfolding escape_unit no_surrogates
no_surrogates-escape_unit c = ground (arith, no_surrogates-hex_escape c)

well_formed-escape_text :
    (s : Text) (paired : Bool) (rest : Text)
    → (not paired || low_next s) ≡ true
    → well_formed false rest ≡ true
    → well_formed paired (escape_text paired s ++ (34 ∷ rest)) ≡ true
unfolding escape_text well_formed
well_formed-escape_text [] true rest h w = cc
well_formed-escape_text [] false rest h w = w
well_formed-escape_text (c ∷ s) true rest h w = well_formed-escape_text s false rest refl w
well_formed-escape_text (c ∷ s) false rest h w = elim (Bool-cases (is_high c && low_next s)) [
  | inl e ↦ rw e (paired_units e (well_formed-escape_text s true rest (ground arith) w))
  | inr e ↦
      rw (e, append_assoc)
        (well_formed-append (escape_unit c) (escape_text false s ++ (34 ∷ rest))
          (no_surrogates-escape_unit c) (well_formed-escape_text s false rest refl w))
]
  where
    paired_units :
        (is_high c && low_next s) ≡ true
        → well_formed true (escape_text true s ++ (34 ∷ rest)) ≡ true
        → well_formed false (c ∷ (escape_text true s ++ (34 ∷ rest))) ≡ true
    paired_units e k = starts s (ground arith) k
      where
        starts :
            (s : Text)
            → (is_high c && low_next s) ≡ true
            → well_formed true (escape_text true s ++ (34 ∷ rest)) ≡ true
            → well_formed false (c ∷ (escape_text true s ++ (34 ∷ rest))) ≡ true
        starts [] e k = absurd (let z : false ≡ true = ground (arith, e) in cc z)
        starts (d ∷ s) e k = ground (arith, e, k)

well_formed-quote :
    (s rest : Text) → well_formed false rest ≡ true → well_formed false (quote s ++ rest) ≡ true
unfolding quote
well_formed-quote s rest w = rw append_assoc (
    well_formed-append (34 ∷ []) (escape_text false s ++ (34 ∷ rest)) (unfold no_surrogates in refl)
      (well_formed-escape_text s false rest refl w))

no_surrogates-digits : (s : Text) → all_digits s ≡ true → no_surrogates s ≡ true
unfolding no_surrogates all_digits
no_surrogates-digits [] h = refl
no_surrogates-digits (c ∷ s) h = ground (arith, no_surrogates-digits s)

no_surrogates-integer_text : (n : ℤ) → no_surrogates (integer_text n) ≡ true
unfolding integer_text
no_surrogates-integer_text (pos n) = no_surrogates-digits (to_decimal n) (to_decimal-all_digits n)
no_surrogates-integer_text (negsuc n) =
    unfold no_surrogates in
    no_surrogates-digits (to_decimal (n + 1)) (to_decimal-all_digits (n + 1))

-- A mark of ASCII in front.
well_formed-mark :
    (c : ℕ) (rest : Text)
    → ltb c 128 ≡ true
    → well_formed false rest ≡ true
    → well_formed false (c ∷ rest) ≡ true
unfolding well_formed
well_formed-mark c rest h w = ground arith

well_formed-member :
    (name value rest : Text)
    → well_formed false (value ++ rest) ≡ true
    → well_formed false (member name value rest) ≡ true
unfolding member
well_formed-member name value rest w =
    well_formed-quote name (b':' ∷ (value ++ rest)) (well_formed-mark b':' (value ++ rest) refl w)

-- Every canonical payload is well-formed Unicode.
pub well_formed-payload_json :
    (input : CanonicalPayloadInput) → well_formed false (payload_json input) ≡ true
unfolding payload_json
well_formed-payload_json input =
    let asset = member (codes "asset") (quote input.asset) (b'}' ∷ []) in
    let amount = member (codes "amount") (quote input.amount) (b',' ∷ asset) in
    let to = member (codes "to") (quote input.to) (b',' ∷ amount) in
    let nonce = member (codes "nonce") (integer_text input.nonce) (b',' ∷ to) in
    let operation =
      member (codes "operation") (quote (operation_text input.operation)) (b',' ∷ nonce) in
    let asset_fine =
      well_formed-member (codes "asset") (quote input.asset) (b'}' ∷ [])
        (well_formed-quote input.asset (b'}' ∷ []) (unfold well_formed in refl)) in
    let amount_fine = text_member (codes "amount") input.amount asset asset_fine in
    let to_fine = text_member (codes "to") input.to amount amount_fine in
    let nonce_fine = well_formed-member (codes "nonce") (integer_text input.nonce) (b',' ∷ to) (
      well_formed-append (integer_text input.nonce) (b',' ∷ to)
        (no_surrogates-integer_text input.nonce) (well_formed-mark b',' to refl to_fine)) in
    let operation_fine =
      text_member (codes "operation") (operation_text input.operation) nonce nonce_fine in
    well_formed-mark b'{' (member (codes "sessionKey") (quote input.session_key) (b',' ∷ operation))
      refl (text_member (codes "sessionKey") input.session_key operation operation_fine)
  where
    text_member :
        (name value rest : Text)
        → well_formed false rest ≡ true
        → well_formed false (member name (quote value) (b',' ∷ rest)) ≡ true
    text_member name value rest w =
        well_formed-member name (quote value) (b',' ∷ rest)
          (well_formed-quote value (b',' ∷ rest) (well_formed-mark b',' rest refl w))
