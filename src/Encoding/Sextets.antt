-- ===== src/Encoding/Sextets.antt =====
-- The round trip in base 64 of packages/crypto/src/signature-format.ts.
use ancore.Common.{
  ℕ, ◌+◌, ◌*◌, ◌/◌, ◌%◌, ◌<◌, true, false, not, none, some, List, [], ◌∷◌, Text, length, all,
  if◌then◌else◌, ltb, ◌==◌, ◌≡◌, refl, ap, ◌∙◌, arith,
}
use ancore.Encoding.SignatureFormat.{
  base64_char, btoa, base64_value, six_bits, atob, is_base64_text, is_valid_base64,
  normalize_padding, to_base64, from_base64,
}

sextet-value : (v : ℕ) → v < 64 → base64_value (base64_char v) ≡ some v
sextet-value v h = ground arith

sextet : (v : ℕ) → v < 64 → six_bits (base64_char v) ≡ v
sextet v h = ap (λ o. elim o [ none ↦ 0 | some v ↦ v ]) (sextet-value v h)

sextet_no_pad : (v : ℕ) → v < 64 → (base64_char v == 61) ≡ false
sextet_no_pad v h = ground arith

text-cons :
    (v : ℕ) (s : Text)
    → v < 64
    → is_base64_text s ≡ true
    → is_base64_text (base64_char v ∷ s) ≡ true
unfolding is_base64_text
text-cons v s h t = rw (sextet-value v h, is_base64_text) t

length-btoa : (bytes : List ℕ) → length (btoa bytes) % 4 ≡ 0
unfolding btoa
length-btoa [] = refl
length-btoa (a ∷ []) = refl
length-btoa (a ∷ b ∷ []) = refl
length-btoa (a ∷ b ∷ c ∷ bytes) = let ih = length-btoa bytes in omega arith

head_small : (a : ℕ) (s : List ℕ) → all (λ b. ltb b 256) (a ∷ s) ≡ true → a < 256
head_small a s h = ground arith

tail_small :
    (a : ℕ) (s : List ℕ) → all (λ b. ltb b 256) (a ∷ s) ≡ true → all (λ b. ltb b 256) s ≡ true
tail_small a s h = ground arith

text_empty : is_base64_text [] ≡ true
unfolding is_base64_text
text_empty = refl

text_pad : is_base64_text (61 ∷ []) ≡ true
unfolding is_base64_text
text_pad = refl

text_pads : is_base64_text (61 ∷ 61 ∷ []) ≡ true
unfolding is_base64_text
text_pads = refl

text-btoa :
    (bytes : List ℕ) → all (λ b. ltb b 256) bytes ≡ true → is_base64_text (btoa bytes) ≡ true
unfolding btoa
text-btoa [] h = text_empty
text-btoa (a ∷ []) h =
    let ha = head_small a [] h in
    text-cons (a / 4) _ (omega arith) (text-cons (a % 4 * 16) _ (omega arith) text_pads)
text-btoa (a ∷ b ∷ []) h =
    let ha = head_small a (b ∷ []) h in
    let hb = head_small b [] (tail_small a (b ∷ []) h) in
    text-cons (a / 4) _ (omega arith) (
      text-cons (a % 4 * 16 + b / 16) _ (omega arith)
        (text-cons (b % 16 * 4) _ (omega arith) text_pad))
text-btoa (a ∷ b ∷ c ∷ bytes) h =
    let ha = head_small a (b ∷ c ∷ bytes) h in
    let tb = tail_small a (b ∷ c ∷ bytes) h in
    let hb = head_small b (c ∷ bytes) tb in
    let tc = tail_small b (c ∷ bytes) tb in
    let hc = head_small c bytes tc in
    text-cons (a / 4) _ (omega arith) (
      text-cons (a % 4 * 16 + b / 16) _ (omega arith) (
        text-cons (b % 16 * 4 + c / 64) _ (omega arith)
          (text-cons (c % 64) _ (omega arith) (text-btoa bytes (tail_small c bytes tc)))))

-- Four characters of a group, and the groups that are padded.
group :
    (u v w x : ℕ) (s : Text)
    → u < 64
    → v < 64
    → w < 64
    → x < 64
    → atob (base64_char u ∷ base64_char v ∷ base64_char w ∷ base64_char x ∷ s)
      ≡ (u * 4 + v / 16) ∷ (v % 16 * 16 + w / 4) ∷ (w % 4 * 64 + x) ∷ atob s
unfolding atob
group u v w x s hu hv hw hx =
    rw (sextet_no_pad w hw, atob, sextet_no_pad x hx)
      (ap4 (sextet u hu) (sextet v hv) (sextet w hw) (sextet x hx))
  where
    ap4 :
        {p q r t : ℕ}
        → p ≡ u
        → q ≡ v
        → r ≡ w
        → t ≡ x
        → (p * 4 + q / 16) ∷ (q % 16 * 16 + r / 4) ∷ (r % 4 * 64 + t) ∷ atob s
          ≡ (u * 4 + v / 16) ∷ (v % 16 * 16 + w / 4) ∷ (w % 4 * 64 + x) ∷ atob s
    ap4 a b c d = cc

group_of_two :
    (u v w : ℕ)
    → u < 64
    → v < 64
    → w < 64
    → atob (base64_char u ∷ base64_char v ∷ base64_char w ∷ 61 ∷ [])
      ≡ (u * 4 + v / 16) ∷ (v % 16 * 16 + w / 4) ∷ []
unfolding atob
group_of_two u v w hu hv hw =
    rw (sextet_no_pad w hw, atob) (ap3 (sextet u hu) (sextet v hv) (sextet w hw))
  where
    ap3 :
        {p q r : ℕ}
        → p ≡ u
        → q ≡ v
        → r ≡ w
        → (p * 4 + q / 16) ∷ (q % 16 * 16 + r / 4) ∷ []
          ≡ (u * 4 + v / 16) ∷ (v % 16 * 16 + w / 4) ∷ []
    ap3 a b c = cc

group_of_one :
    (u v : ℕ)
    → u < 64
    → v < 64
    → atob (base64_char u ∷ base64_char v ∷ 61 ∷ 61 ∷ []) ≡ (u * 4 + v / 16) ∷ []
unfolding atob
group_of_one u v hu hv =
    ap (λ p. (p * 4 + six_bits (base64_char v) / 16) ∷ []) (sextet u hu)
    ∙ ap (λ q. (u * 4 + q / 16) ∷ []) (sextet v hv)

atob_empty : atob [] ≡ []
unfolding atob
atob_empty = refl

atob-btoa : (bytes : List ℕ) → all (λ b. ltb b 256) bytes ≡ true → atob (btoa bytes) ≡ bytes
unfolding btoa
atob-btoa [] h = atob_empty
atob-btoa (a ∷ []) h =
    let ha = head_small a [] h in
    group_of_one (a / 4) (a % 4 * 16) (omega arith) (omega arith)
    ∙ ap (λ x. x ∷ []) (let z : a / 4 * 4 + a % 4 * 16 / 16 ≡ a = omega arith in z)
atob-btoa (a ∷ b ∷ []) h =
    let ha = head_small a (b ∷ []) h in
    let hb = head_small b [] (tail_small a (b ∷ []) h) in
    let v = a % 4 * 16 + b / 16 in
    let w = b % 16 * 4 in
    group_of_two (a / 4) v w (omega arith) (omega arith) (omega arith)
    ∙ ap (λ x. x ∷ (v % 16 * 16 + w / 4) ∷ []) (let z : a / 4 * 4 + v / 16 ≡ a = omega arith in z)
    ∙ ap (λ y. a ∷ y ∷ []) (let z : v % 16 * 16 + w / 4 ≡ b = omega arith in z)
atob-btoa (a ∷ b ∷ c ∷ bytes) h =
    let ha = head_small a (b ∷ c ∷ bytes) h in
    let tb = tail_small a (b ∷ c ∷ bytes) h in
    let hb = head_small b (c ∷ bytes) tb in
    let tc = tail_small b (c ∷ bytes) tb in
    let hc = head_small c bytes tc in
    let v = a % 4 * 16 + b / 16 in
    let w = b % 16 * 4 + c / 64 in
    group (a / 4) v w (c % 64) (btoa bytes) (omega arith) (omega arith) (omega arith) (omega arith)
    ∙ ap (λ x. x ∷ (v % 16 * 16 + w / 4) ∷ (w % 4 * 64 + c % 64) ∷ atob (btoa bytes))
        (let z : a / 4 * 4 + v / 16 ≡ a = omega arith in z)
    ∙ ap (λ y. a ∷ y ∷ (w % 4 * 64 + c % 64) ∷ atob (btoa bytes))
        (let z : v % 16 * 16 + w / 4 ≡ b = omega arith in z)
    ∙ ap (λ x. a ∷ b ∷ x ∷ atob (btoa bytes)) (let z : w % 4 * 64 + c % 64 ≡ c = omega arith in z)
    ∙ ap (λ s. a ∷ b ∷ c ∷ s) (atob-btoa bytes (tail_small c bytes tc))

pub valid-btoa :
    (bytes : List ℕ) → all (λ b. ltb b 256) bytes ≡ true → is_valid_base64 (btoa bytes) ≡ true
unfolding is_valid_base64
valid-btoa bytes h = let e = length-btoa bytes in let t = text-btoa bytes h in ground arith

from_base64-valid :
    (s : Text) → length s % 4 ≡ 0 → is_valid_base64 s ≡ true → from_base64 s ≡ some (atob s)
unfolding from_base64 normalize_padding
from_base64-valid s e v =
    let same : normalize_padding s ≡ s = rw e refl in
    ap (λ x. if not (is_valid_base64 x) then none else some (atob x)) same ∙ rw v refl

-- Bytes are decoded from their base 64 text.
pub from_base64-to_base64 :
    (bytes : List ℕ)
    → all (λ b. ltb b 256) bytes ≡ true
    → from_base64 (to_base64 bytes) ≡ some bytes
unfolding to_base64
from_base64-to_base64 bytes h =
    from_base64-valid (btoa bytes) (length-btoa bytes) (valid-btoa bytes h)
    ∙ ap some (atob-btoa bytes h)
