-- ===== src/Examples/Signed.antt =====
-- A request that a wallet signed, with an encoder of texts that agrees with UTF-8 on ASCII.
use ancore.Common.{
  ℕ, zero, suc, ◌+◌, ◌*◌, ◌/◌, ◌%◌, ◌<◌, true, none, some, get_or, Text, List, codes, [], ◌∷◌,
  text_beq, text_beq_iff, pos, all, ltb, ◌==◌, if◌then◌else◌, ◌≡◌, refl, sym, ap, ◌∙◌, arith,
}
use ancore.Common.Table
use ancore.Relay.Types.{relay_execute, RelayExecuteRequest, text}
use ancore.Relay.Service.{
  Outside, CanonicalPayloadInput, found, canonical_input, is_session_key, validate_relay,
}
use ancore.Relay.Payload.{build_canonical_payload, build_relay_canonical_payload}
use ancore.Relay.Signed.{build_relay_canonical_payload_lem, validate_relay-signed_fields}
use ancore.Relay.Authorised.{Authorised, validate_relay_of}
use ancore.Store.NonceStore.{MemoryNonceStore, new_store}
use ancore.Store.Replay.{StoreInv}

-- A unit is written as a 255 for each 255 in it, and the rest.
filled : ℕ → List ℕ → List ℕ
filled zero bytes = bytes
filled (suc k) bytes = 255 ∷ filled k bytes

encoded : Text → List ℕ
encoded [] = []
encoded (c ∷ s) = filled (c / 255) ((c % 255) ∷ encoded s)

decoded : ℕ → List ℕ → Text
decoded acc [] = []
decoded acc (b ∷ bytes) =
    let more = decoded (acc + 255) bytes in
    let next = decoded 0 bytes in if b == 255 then more else (acc + b) ∷ next

decoded-filled :
    (k acc r : ℕ) (bytes : List ℕ)
    → r < 255
    → decoded acc (filled k (r ∷ bytes)) ≡ (acc + k * 255 + r) ∷ decoded 0 bytes
unfolding decoded filled
decoded-filled zero acc r bytes h = ground arith
decoded-filled (suc k) acc r bytes h = ground (arith, decoded-filled k (acc + 255) r bytes h)

decoded-encoded : (s : Text) → decoded 0 (encoded s) ≡ s
unfolding encoded
decoded-encoded [] = unfold decoded in refl
decoded-encoded (c ∷ s) =
    decoded-filled (c / 255) 0 (c % 255) (encoded s) (omega arith)
    ∙ ap (λ t. (0 + c / 255 * 255 + c % 255) ∷ t) (decoded-encoded s)
    ∙ ap (λ x. x ∷ s) (omega arith)

filled-bytes :
    (k : ℕ) (bytes : List ℕ)
    → all (λ b. ltb b 256) bytes ≡ true
    → all (λ b. ltb b 256) (filled k bytes) ≡ true
unfolding filled
filled-bytes zero bytes h = h
filled-bytes (suc k) bytes h = filled-bytes k bytes h

encoded-bytes : (s : Text) → all (λ b. ltb b 256) (encoded s) ≡ true
unfolding encoded
encoded-bytes [] = refl
encoded-bytes (c ∷ s) =
    filled-bytes (c / 255) ((c % 255) ∷ encoded s)
      (let z : ltb (c % 255) 256 ≡ true = ground arith in rw z (encoded-bytes s))

encoded-eq : (s t : Text) → encoded s ≡ encoded t → s ≡ t
encoded-eq s t h = sym (decoded-encoded s) ∙ ap (decoded 0) h ∙ decoded-encoded t

abbrev signed_input : CanonicalPayloadInput
signed_input = record {
  session_key = codes "00112233445566778899aabbccddeeff00112233445566778899AABBCCDDEEFF";
  operation = relay_execute;
  nonce = pos 7;
  to = codes "GTO";
  amount = codes "50";
  asset = codes "XLM";
}

-- A signature that verifies over this payload only.
abbrev relayer : Outside
relayer = record {
  get_session_key = λ account key. found;
  verify = λ key payload signature.
      text_beq payload (build_relay_canonical_payload encoded signed_input);
  encode = build_canonical_payload encoded;
  mock_tx_id = codes "MOCK";
  submitter = none;
  use_mock_submission = true;
}

abbrev signed_request : RelayExecuteRequest
signed_request = record {
  session_key = signed_input.session_key;
  operation = relay_execute;
  parameters = record {
    to = some (text (codes "GTO"));
    amount = some (text (codes "50"));
    asset = some (text (codes "XLM"));
    account_address = none;
    signed_transaction_xdr = none;
  };
  signature = codes "signature";
  nonce = pos 7;
  transfer_policy = none;
}

abbrev no_nonces : MemoryNonceStore
no_nonces = new_store 300000

no_nonces-StoreInv : StoreInv no_nonces
unfolding Table.get
no_nonces-StoreInv = record { keys = tt; each = λ key m h. cc }

same_input : canonical_input signed_request (pos 7) ≡ signed_input
unfolding canonical_input
same_input = refl

verified :
    relayer.verify signed_request.session_key
      (relayer.encode (canonical_input signed_request (get_or none (pos 7))))
      signed_request.signature
    ≡ true
verified = (text_beq_iff _ _).1 (
    ap (build_canonical_payload encoded) same_input
    ∙ sym (build_relay_canonical_payload_lem encoded signed_input))

signed-Authorised : Authorised relayer signed_request none 1000 (some no_nonces)
unfolding is_session_key Table.get
signed-Authorised = record {
  well_formed = refl;
  nonce_valid = refl;
  fresh = refl;
  on_chain = refl;
  signed = verified;
  permitted = tt;
}

signed_valid : (validate_relay relayer signed_request none 1000 (some no_nonces)).0.valid ≡ true
signed_valid =
    ap (λ v. v.valid)
      (validate_relay_of relayer signed_request none 1000 (some no_nonces) no_nonces-StoreInv
        signed-Authorised)

validate_relay-signed_fields_example :
    (signed_request.session_key ≡ signed_input.session_key)
    × (relay_execute ≡ signed_input.operation)
    × (pos 7 ≡ signed_input.nonce)
    × (codes "GTO" ≡ signed_input.to)
    × (codes "50" ≡ signed_input.amount)
    × (codes "XLM" ≡ signed_input.asset)
validate_relay-signed_fields_example =
    validate_relay-signed_fields encoded encoded-bytes (λ s t hs ht. encoded-eq s t) relayer
      signed_request none 1000 (some no_nonces) signed_input no_nonces-StoreInv refl
      (λ payload. (text_beq_iff payload (build_relay_canonical_payload encoded signed_input)).0)
      signed_valid
