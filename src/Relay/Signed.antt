-- ===== src/Relay/Signed.antt =====
-- What a signature over the canonical payload binds.
use ancore.Common.{
  ℕ, true, false, Option, get_or, List, [], ◌∷◌, ◌++◌, Text, codes, all, ltb, ℤ, ◌≡◌, refl, sym, ap,
  ◌∙◌, arith,
}
use ancore.Encoding.SignatureFormat.{joined, hex_byte, parse_bytes}
use ancore.Encoding.HexPairs.{parse-joined}
use ancore.Relay.Types.{OperationType, RelayExecuteRequest}
use ancore.Relay.Service.{
  CanonicalPayloadInput, Outside, canonical_input, text_or_empty, validate_relay,
}
use ancore.Relay.Json.{quote, integer_text}
use ancore.Relay.JsonReading.{quote-eq, integer_text-eq}
use ancore.Relay.Authorised.{StoreOk, validate_relay-valid}
use ancore.Relay.Payload.{
  operation_text, member, payload_json, bytes_to_hex, build_canonical_payload,
  build_relay_canonical_payload,
}
use ancore.Relay.WellFormed.{well_formed, well_formed-payload_json}
use ancore.Store.NonceStore.{MemoryNonceStore}

behind_first : Text → Text
behind_first [] = []
behind_first (c ∷ s) = s

cons-eq : (c : ℕ) (s t : Text) → c ∷ s ≡ c ∷ t → s ≡ t
unfolding behind_first
cons-eq c s t h = ap behind_first h

member-eq :
    (name v w rest more : Text) → member name v rest ≡ member name w more → v ++ rest ≡ w ++ more
unfolding member
member-eq name v w rest more h =
    cons-eq b':' (v ++ rest) (w ++ more)
      (quote-eq name name (b':' ∷ (v ++ rest)) (b':' ∷ (w ++ more)) h).1

text_member-eq :
    (name s t rest more : Text)
    → member name (quote s) rest ≡ member name (quote t) more
    → (s ≡ t) × (rest ≡ more)
text_member-eq name s t rest more h =
    quote-eq s t rest more (member-eq name (quote s) (quote t) rest more h)

operation_text-eq : (a b : OperationType) → operation_text a ≡ operation_text b → a ≡ b
operation_text-eq OperationType.relay_execute OperationType.relay_execute h = refl
operation_text-eq OperationType.relay_execute OperationType.add_session_key h = ground arith
operation_text-eq OperationType.relay_execute OperationType.revoke_session_key h = ground arith
operation_text-eq OperationType.add_session_key OperationType.relay_execute h = ground arith
operation_text-eq OperationType.add_session_key OperationType.add_session_key h = refl
operation_text-eq OperationType.add_session_key OperationType.revoke_session_key h = ground arith
operation_text-eq OperationType.revoke_session_key OperationType.relay_execute h = ground arith
operation_text-eq OperationType.revoke_session_key OperationType.add_session_key h = ground arith
operation_text-eq OperationType.revoke_session_key OperationType.revoke_session_key h = refl

-- The JSON text determines every field.
payload_json-eq : (a b : CanonicalPayloadInput) → payload_json a ≡ payload_json b → a ≡ b
unfolding payload_json
payload_json-eq a b h =
    let (key, operation) =
      text_member-eq (codes "sessionKey") a.session_key b.session_key _ _ (cons-eq b'{' _ _ h) in
    let (action, nonce) =
      text_member-eq (codes "operation") (operation_text a.operation) (operation_text b.operation) _
        _ (cons-eq b',' _ _ operation) in
    let (count, to) = integer_text-eq a.nonce b.nonce _ _ (
      member-eq (codes "nonce") (integer_text a.nonce) (integer_text b.nonce) _ _
        (cons-eq b',' _ _ nonce)) in
    let (target, amount) = text_member-eq (codes "to") a.to b.to _ _ to in
    let (units, asset) =
      text_member-eq (codes "amount") a.amount b.amount _ _ (cons-eq b',' _ _ amount) in
    let (code, _) = text_member-eq (codes "asset") a.asset b.asset _ _ (cons-eq b',' _ _ asset) in
    let same = operation_text-eq a.operation b.operation action in
    cc (key, same, count, target, units, code)

-- The port of core-sdk writes the payload of the relayer.
bytes_to_hex_lem : (bytes : List ℕ) → bytes_to_hex bytes ≡ joined bytes
unfolding bytes_to_hex joined
bytes_to_hex_lem [] = refl
bytes_to_hex_lem (b ∷ bytes) = ap (λ s. hex_byte b ++ s) (bytes_to_hex_lem bytes)

-- The wallet and the relayer build the same canonical payload.
pub build_relay_canonical_payload_lem :
    (utf8 : Text → List ℕ) (input : CanonicalPayloadInput)
    → build_relay_canonical_payload utf8 input ≡ build_canonical_payload utf8 input
unfolding build_relay_canonical_payload build_canonical_payload
build_relay_canonical_payload_lem utf8 input = bytes_to_hex_lem (utf8 (payload_json input))

module _ (utf8 : Text → List ℕ) (bytes : (s : Text) → all (λ b. ltb b 256) (utf8 s) ≡ true)
    (told_apart : (s t : Text)
      → well_formed false s ≡ true
      → well_formed false t ≡ true
      → utf8 s ≡ utf8 t
      → s ≡ t) where
  -- Where UTF-8 tells well-formed texts apart, the canonical payload determines every field.
  pub build_canonical_payload-eq :
      (a b : CanonicalPayloadInput)
      → build_canonical_payload utf8 a ≡ build_canonical_payload utf8 b
      → a ≡ b
  unfolding build_canonical_payload
  build_canonical_payload-eq a b h = payload_json-eq a b (
      told_apart (payload_json a) (payload_json b) (well_formed-payload_json a)
        (well_formed-payload_json b)
        (sym (parse-joined (utf8 (payload_json a)) (bytes (payload_json a)))
          ∙ ap parse_bytes h
          ∙ parse-joined (utf8 (payload_json b)) (bytes (payload_json b))))

  -- Where the encoder yields bytes and tells well-formed texts apart: if a signature verifies over
  -- nothing but the payload that the wallet built, then the request that is found valid with it has the
  -- session key, the operation, the recipient, the amount and the asset that the wallet signed, where a
  -- parameter that is absent or no text counts as the empty text. The nonce that the wallet signed is the
  -- signed nonce of the options, and the request's own only where there is none.
  pub validate_relay-signed_fields :
      (o : Outside) (req : RelayExecuteRequest) (signed_nonce : Option ℤ) (now : ℕ)
      (store : Option MemoryNonceStore) (input : CanonicalPayloadInput)
      → StoreOk store
      → o.encode ≡ build_canonical_payload utf8
      → ((text : Text)
          → o.verify req.session_key text req.signature ≡ true
          → text ≡ build_relay_canonical_payload utf8 input)
      → (validate_relay o req signed_nonce now store).0.valid ≡ true
      → (req.session_key ≡ input.session_key)
        × (req.operation ≡ input.operation)
        × (get_or signed_nonce req.nonce ≡ input.nonce)
        × (text_or_empty req.parameters.to ≡ input.to)
        × (text_or_empty req.parameters.amount ≡ input.amount)
        × (text_or_empty req.parameters.asset ≡ input.asset)
  unfolding canonical_input
  validate_relay-signed_fields o req signed_nonce now store input v encoded only valid =
      let authorised = validate_relay-valid o req signed_nonce now store v valid in
      let checked = canonical_input req (get_or signed_nonce req.nonce) in
      let same = build_canonical_payload-eq checked input (
        ap (λ encode. encode checked) (sym encoded)
        ∙ only (o.encode checked) authorised.signed
        ∙ build_relay_canonical_payload_lem utf8 input) in
      (
        ap (λ i. i.session_key) same,
        ap (λ i. i.operation) same,
        ap (λ i. i.nonce) same,
        ap (λ i. i.to) same,
        ap (λ i. i.amount) same,
        ap (λ i. i.asset) same,
      )
