-- ===== src/Relay/JsonReading.antt =====
-- A text in JSON can be read_json back, so that it stands for one text only.
use mathlib.Core.List.{append_assoc, append-nil}
use ancore.Common.{
  ℕ, zero, suc, ◌+◌, ◌-◌, ◌*◌, ◌/◌, ◌%◌, ◌<◌, Bool, true, false, Option, none, some, [], ◌∷◌, ◌++◌,
  Text, ℤ, pos, negsuc, leb, ◌==◌, ◌&&◌, ◌||◌, not, if◌then◌else◌, ◌≡◌, refl, sym, ap, ◌∙◌, arith,
}
use ancore.Encoding.SignatureFormat.{hex_digit}
use ancore.Encoding.Digits
use ancore.Encoding.Decimal
use ancore.Encoding.Decimal.{to_decimal, before, behind, big_int}
use ancore.Encoding.Decimals.{
  before-digits, behind-digits, to_decimal-all_digits, big_int-to_decimal,
}
use ancore.Relay.Json.{
  is_high, is_low, low_next, hex_escape, escape_unit, escape_text, quote, integer_text,
}

-- A reader of what stands behind the first quotation mark.
data Mode : Type 0 where
  plain escaped : Mode
  hex : ℕ → ℕ → Mode

record JsonReader : Type 0 where
  mode : Mode
  out : Text

unescape : ℕ → ℕ
unescape c =
    if c == b'b'
    then 8
    else if c == b't'
    then 9
    else if c == b'n'
    then 10
    else if c == b'f'
    then 12
    else if c == b'r'
    then 13
    else c

hex_number : ℕ → ℕ
hex_number c = if leb c 57 then c - 48 else c - 87

step_in : Mode → Text → ℕ → JsonReader
unfolding unescape hex_number
step_in plain out c =
    if c == 92
    then record { mode = escaped; out = out }
    else record { mode = plain; out = out ++ (c ∷ []) }
step_in escaped out c =
    if c == b'u'
    then record { mode = hex 3 0; out = out }
    else record { mode = plain; out = out ++ (unescape c ∷ []) }
step_in (hex zero acc) out c = record {
  mode = plain;
  out = out ++ ((acc * 16 + hex_number c) ∷ []);
}
step_in (hex (suc k) acc) out c = record { mode = hex k (acc * 16 + hex_number c); out = out }

is_end : Mode → ℕ → Bool
is_end plain c = c == 34
is_end escaped c = false
is_end (hex k acc) c = false

read_json : Mode → Text → Text → Option (Text × Text)
unfolding step_in is_end
read_json m out [] = none
read_json m out (c ∷ s) =
    let next = step_in m out c in
    let rest = read_json next.mode next.out s in if is_end m c then some (out, s) else rest

hex_number-digit : (d : ℕ) → d < 16 → hex_number (hex_digit d) ≡ d
unfolding hex_number
hex_number-digit d h = ground arith

read_json-plain_unit :
    (out : Text) (c : ℕ) (rest : Text)
    → (c == 34) ≡ false
    → (c == 92) ≡ false
    → read_json plain out (c ∷ rest) ≡ read_json plain (out ++ (c ∷ [])) rest
unfolding read_json
read_json-plain_unit out c rest h k = rw (h, k) refl

read_json-hex :
    (out : Text) (a b c d : ℕ) (rest : Text)
    → read_json plain out (92 ∷ b'u' ∷ a ∷ b ∷ c ∷ d ∷ rest)
      ≡ read_json plain
          (out
            ++ (((((0 * 16 + hex_number a) * 16 + hex_number b) * 16 + hex_number c) * 16
                  + hex_number d)
                ∷ []))
          rest
unfolding read_json
read_json-hex out a b c d rest = refl

read_json-hex_escape :
    (out : Text) (c : ℕ) (rest : Text)
    → c < 65536
    → read_json plain out (hex_escape c ++ rest) ≡ read_json plain (out ++ (c ∷ [])) rest
read_json-hex_escape out c rest h =
    read_json-hex out (hex_digit (c / 4096 % 16)) (hex_digit (c / 256 % 16))
      (hex_digit (c / 16 % 16)) (hex_digit (c % 16)) rest
    ∙ ap (λ x. read_json plain (out ++ (x ∷ [])) rest)
        (omega (
          arith,
          hex_number-digit (c / 4096 % 16) (omega arith),
          hex_number-digit (c / 256 % 16) (omega arith),
          hex_number-digit (c / 16 % 16) (omega arith),
          hex_number-digit (c % 16) (omega arith),
        ))

read_json-escaped_unit :
    (out : Text) (d : ℕ) (rest : Text)
    → (d == b'u') ≡ false
    → read_json plain out (92 ∷ d ∷ rest) ≡ read_json plain (out ++ (unescape d ∷ [])) rest
unfolding read_json
read_json-escaped_unit out d rest h = rw h refl

read_json-escape_unit :
    (out : Text) (c : ℕ) (rest : Text)
    → read_json plain out (escape_unit c ++ rest) ≡ read_json plain (out ++ (c ∷ [])) rest
unfolding escape_unit unescape
read_json-escape_unit out c rest = ground (
  arith,
  read_json-escaped_unit out b'b' rest refl,
  read_json-escaped_unit out b't' rest refl,
  read_json-escaped_unit out b'n' rest refl,
  read_json-escaped_unit out b'f' rest refl,
  read_json-escaped_unit out b'r' rest refl,
  read_json-escaped_unit out 34 rest refl,
  read_json-escaped_unit out 92 rest refl,
  read_json-hex_escape out c rest,
  read_json-plain_unit out c rest,
)

read_json-escape_text :
    (s : Text) (paired : Bool) (out rest : Text)
    → (not paired || low_next s) ≡ true
    → read_json plain out (escape_text paired s ++ (34 ∷ rest)) ≡ some (out ++ s, rest)
unfolding escape_text
read_json-escape_text [] paired out rest h = unfold read_json in rw append-nil refl
read_json-escape_text (c ∷ s) paired out rest h =
    let bare = paired || (is_high c && low_next s) in
    let next = not paired && (is_high c && low_next s) in
    let more = escape_text next s ++ (34 ∷ rest) in
    ap (read_json plain out)
      (append_assoc (if bare then c ∷ [] else escape_unit c) (escape_text next s) (34 ∷ rest))
    ∙ one bare more (ground (arith, h))
    ∙ read_json-escape_text s next (out ++ (c ∷ [])) rest (ground arith)
    ∙ ap (λ x. some (x, rest)) (append_assoc out (c ∷ []) s)
  where
    one :
        (bare : Bool) (more : Text)
        → (not bare || is_high c || is_low c) ≡ true
        → read_json plain out ((if bare then c ∷ [] else escape_unit c) ++ more)
          ≡ read_json plain (out ++ (c ∷ [])) more
    one true more k = read_json-plain_unit out c more (ground (arith, k)) (ground (arith, k))
    one false more k = read_json-escape_unit out c more

-- A quoted text is followed by something: the text and what follows are determined.
pub quote-eq : (s t rest more : Text) → quote s ++ rest ≡ quote t ++ more → (s ≡ t) × (rest ≡ more)
unfolding quote
quote-eq s t rest more h =
    let same : some (s, rest) ≡ some (t, more) =
      sym (unquoted s rest) ∙ ap (λ x. read_json plain [] (behind_first x)) h ∙ unquoted t more in
    (cc same, cc same)
  where
    behind_first : Text → Text
    behind_first [] = []
    behind_first (c ∷ x) = x

    unquoted :
        (u x : Text) → read_json plain [] ((escape_text false u ++ (34 ∷ [])) ++ x) ≡ some (u, x)
    unquoted u x =
        ap (read_json plain []) (append_assoc (escape_text false u) (34 ∷ []) x)
        ∙ read_json-escape_text u false [] x refl

integer_of : Text → ℤ
integer_of [] = pos 0
integer_of (c ∷ s) = if c == b'-' then negsuc (big_int s - 1) else pos (big_int (c ∷ s))

no_minus : (s : Text) → Decimal.all_digits s ≡ true → integer_of s ≡ pos (big_int s)
unfolding integer_of Decimal.all_digits big_int
no_minus [] h = unfold Digits.value in refl
no_minus (c ∷ s) h = ground (arith, h)

integer_of-integer_text : (n : ℤ) → integer_of (integer_text n) ≡ n
unfolding integer_text
integer_of-integer_text (pos n) =
    no_minus (to_decimal n) (to_decimal-all_digits n) ∙ ap pos (big_int-to_decimal n)
integer_of-integer_text (negsuc n) =
    unfold integer_of in
    ap (λ x. negsuc (x - 1)) (big_int-to_decimal (n + 1)) ∙ ap negsuc (omega arith)

-- An integer ends at the comma that follows it.
before-integer_text :
    (n : ℤ) (rest : Text) → before b',' (integer_text n ++ (b',' ∷ rest)) ≡ integer_text n
unfolding integer_text
before-integer_text (pos n) rest =
    before-digits b',' refl (to_decimal n) rest (to_decimal-all_digits n)
before-integer_text (negsuc n) rest =
    unfold before in
    ap (λ x. b'-' ∷ x)
      (before-digits b',' refl (to_decimal (n + 1)) rest (to_decimal-all_digits (n + 1)))

behind-integer_text : (n : ℤ) (rest : Text) → behind b',' (integer_text n ++ (b',' ∷ rest)) ≡ rest
unfolding integer_text
behind-integer_text (pos n) rest =
    behind-digits b',' refl (to_decimal n) rest (to_decimal-all_digits n)
behind-integer_text (negsuc n) rest =
    unfold behind in
    behind-digits b',' refl (to_decimal (n + 1)) rest (to_decimal-all_digits (n + 1))

pub integer_text-eq :
    (m n : ℤ) (rest more : Text)
    → integer_text m ++ (b',' ∷ rest) ≡ integer_text n ++ (b',' ∷ more)
    → (m ≡ n) × (rest ≡ more)
integer_text-eq m n rest more h = (
  sym (integer_of-integer_text m)
      ∙ ap integer_of
          (sym (before-integer_text m rest) ∙ ap (before b',') h ∙ before-integer_text n more)
      ∙ integer_of-integer_text n,
  sym (behind-integer_text m rest) ∙ ap (behind b',') h ∙ behind-integer_text n more,
)
