-- ===== src/Relay/Payload.antt =====
-- The canonical payload: services/relayer/src/payload/builder.ts, and its port for the wallets,
-- packages/core-sdk/src/relay-payload.ts. The UTF-8 bytes of a text are those of the platform, a
-- parameter: `Buffer.from(json, 'utf8')` there and `TextEncoder` here. Nonces are safe integers.
use ancore.Common.{
  ℕ, ◌%◌, List, [], ◌∷◌, ◌++◌, Option, none, some, Text, codes, if◌then◌else◌, length, ◌==◌,
}
use ancore.Encoding.SignatureFormat.{hex_byte, joined}
use ancore.Relay.Types.{OperationType}
use ancore.Relay.Service.{CanonicalPayloadInput}
use ancore.Relay.Json.{quote, integer_text}

abbrev pub operation_text : OperationType → Text
operation_text OperationType.relay_execute = codes "relay_execute"
operation_text OperationType.add_session_key = codes "add_session_key"
operation_text OperationType.revoke_session_key = codes "revoke_session_key"

-- A name, a colon, its value and what follows.
unfoldable pub member : Text → Text → Text → Text
unfolding quote
member name value rest = quote name ++ (b':' ∷ (value ++ rest))

-- `JSON.stringify(ordered)`, with the fields in the order in which both builders write them.
unfoldable pub payload_json : CanonicalPayloadInput → Text
unfolding member quote integer_text
payload_json input =
    b'{'
    ∷ member (codes "sessionKey") (quote input.session_key) (
        b','
        ∷ member (codes "operation") (quote (operation_text input.operation)) (
            b','
            ∷ member (codes "nonce") (integer_text input.nonce) (
                b','
                ∷ member (codes "to") (quote input.to) (
                    b','
                    ∷ member (codes "amount") (quote input.amount)
                        (b',' ∷ member (codes "asset") (quote input.asset) (b'}' ∷ []))))))

-- `bytesToHex` of core-sdk.
unfoldable pub bytes_to_hex : List ℕ → Text
bytes_to_hex [] = []
bytes_to_hex (b ∷ bytes) = hex_byte b ++ bytes_to_hex bytes

-- The relayer, with `toString('hex')` of a buffer.
unfoldable pub build_canonical_payload : (Text → List ℕ) → CanonicalPayloadInput → Text
unfolding payload_json
build_canonical_payload utf8 input = joined (utf8 (payload_json input))

-- The wallet.
unfoldable pub build_relay_canonical_payload : (Text → List ℕ) → CanonicalPayloadInput → Text
unfolding payload_json bytes_to_hex
build_relay_canonical_payload utf8 input = bytes_to_hex (utf8 (payload_json input))

-- What a wallet's signer returns, and what is then posted to the relayer.
pub record RelayEnvelope : Type 0 where
  pub session_key : Text
  pub signature : Text

pub record SignedRelayPayload : Type 0 where
  pub session_key : Text
  pub operation : OperationType
  pub to : Text
  pub amount : Text
  pub asset : Text
  pub account_address : Option Text
  pub signature : Text
  pub nonce : ℕ

-- What the signer is asked to sign: everything but its own key.
pub record RelayEnvelopeInput : Type 0 where
  pub operation : OperationType
  pub nonce : ℕ
  pub to : Text
  pub amount : Text
  pub asset : Text

unfoldable pub default_asset : Option Text → Text
default_asset none = codes "XLM"
default_asset (some a) = a

unfoldable pub given_address : Option Text → Option Text
given_address none = none
given_address (some a) = if length a == 0 then none else some a

-- `buildSignedRelayPayload`, with the clock and the signer as arguments.
unfoldable pub build_signed_relay_payload :
    ℕ
    → (RelayEnvelopeInput → RelayEnvelope)
    → Text
    → Text
    → Option Text
    → Option Text
    → SignedRelayPayload
unfolding default_asset given_address
build_signed_relay_payload now sign destination units asset account_address =
    let nonce = now % 1000000 in
    let code = default_asset asset in
    let envelope = sign (record {
      operation = OperationType.relay_execute;
      nonce = nonce;
      to = destination;
      amount = units;
      asset = code;
    }) in
    record {
      session_key = envelope.session_key;
      operation = OperationType.relay_execute;
      to = destination;
      amount = units;
      asset = code;
      account_address = given_address account_address;
      signature = envelope.signature;
      nonce = nonce;
    }
