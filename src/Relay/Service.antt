-- ===== src/Relay/Service.antt =====
-- services/relayer/src/services/relayService.ts: `validateRelay` and `executeRelay`, with the nonce
-- store in memory. Traces, metrics and logs are left out, and with them the caller's address. What
-- stands outside (the session keys on chain, the signature check, the encoding of the payload, the
-- submitter, and the mock's random id) is a parameter.
use ancore.Common.{
  ℕ, Bool, true, false, ◌&&◌, ◌||◌, not, Option, none, some, get_or, [], ◌∷◌, Text, ℤ, is_negative,
  if◌then◌else◌, leb, ◌==◌, length, all, trim,
}
use ancore.Relay.Types.{
  OperationType, RelayErrorCode, invalid_signature, nonce_replay, policy_denied, internal_error,
  Message, bad_session_key, negative_nonce, nonce_used, key_not_found, key_unavailable,
  verification_failed, needs_confirmation, no_submitter, missing_signed_xdr, RelayError, Value,
  text, other, RelayExecuteRequest, RelayExecuteResponse, ValidationResult, TransferRequest,
}
use ancore.Relay.Policy.{validate_transfer_policy_constraints}
use ancore.Relay.Errors.{Thrown, map_error}
use ancore.Store.NonceStore.{MemoryNonceStore, assert_fresh, track}

-- `buildCanonicalPayload` of services/relayer/src/payload/builder.ts takes these fields.
pub record CanonicalPayloadInput : Type 0 where
  pub session_key : Text
  pub operation : OperationType
  pub nonce : ℤ
  pub to : Text
  pub amount : Text
  pub asset : Text

-- What `getSessionKey` of `@ancore/account-abstraction` does: it finds the key, finds none, or throws.
pub data KeyLookup : Type 0 where
  found missing : KeyLookup
  unavailable : Text → KeyLookup

-- What a call of the submitter does: it resolves or throws.
pub data Call {ℓ} (A : Type ℓ) : Type ℓ where
  resolves : A → Call A
  throws : Thrown → Call A

pub record Simulated : Type 0 where
  pub assembled_xdr : Text
  pub gas_used : ℕ

pub record Submitter : Type 0 where
  pub simulate_and_assemble_transaction : Text → Call Simulated
  pub submit_signed_transaction : Text → Call Text

pub record Outside : Type 0 where
  -- The session key of an account, at the account address of the request.
  pub get_session_key : Option Value → Text → KeyLookup
  -- `signatureService.verify(publicKey, payload, signature)`
  pub verify : Text → Text → Text → Bool
  -- The JSON text of the payload, in UTF-8, in hexadecimal.
  pub encode : CanonicalPayloadInput → Text
  pub mock_tx_id : Text
  pub submitter : Option Submitter
  pub use_mock_submission : Bool

abbrev pub is_hex : ℕ → Bool
is_hex c = (leb b'0' c && leb c b'9') || (leb b'a' c && leb c b'f') || (leb b'A' c && leb c b'F')

-- `validateSessionKey`: the test of `/^[0-9a-fA-F]{64}$/`.
unfoldable pub is_session_key : Text → Bool
is_session_key key = length key == 64 && all is_hex key

abbrev pub text_or_empty : Option Value → Text
text_or_empty none = []
text_or_empty (some other) = []
text_or_empty (some (text s)) = s

-- `canonicalPayload`, but for the encoding.
unfoldable pub canonical_input : RelayExecuteRequest → ℤ → CanonicalPayloadInput
canonical_input req nonce = record {
  session_key = req.session_key;
  operation = req.operation;
  nonce = nonce;
  to = text_or_empty req.parameters.to;
  amount = text_or_empty req.parameters.amount;
  asset = text_or_empty req.parameters.asset;
}

-- `SIGNED_TX_PARAMETER`, trimmed, where it is a text that is not blank.
unfoldable pub extract_signed_transaction_xdr : RelayExecuteRequest → Option Text
extract_signed_transaction_xdr req = elim req.parameters.signed_transaction_xdr [
  | none ↦ none
  | some other ↦ none
  | some (text value) ↦ elim (trim value) [ [] ↦ none | c ∷ s ↦ some (c ∷ s) ]
]

abbrev pub reject : RelayErrorCode → Message → ValidationResult
reject code message = record {
  valid = false;
  error = some (record { code = code; message = message });
  requires_step_up = false;
}

abbrev pub accept : ValidationResult
accept = record { valid = true; error = none; requires_step_up = false }

-- `policyCheck.error ?? { … }`
abbrev pub policy_error : Option RelayError → RelayError
policy_error e = get_or e (record { code = policy_denied; message = needs_confirmation })

unfoldable pub validate_policy : Option TransferRequest → ValidationResult
validate_policy none = accept
validate_policy (some context) =
    let check = validate_transfer_policy_constraints context in
    if not check.valid || check.requires_step_up
    then record {
      valid = false;
      error = some (policy_error check.error);
      requires_step_up = check.requires_step_up;
    }
    else accept

module _ (o : Outside) where
  unfoldable pub validate_signature : RelayExecuteRequest → ℤ → ValidationResult
  unfolding validate_policy canonical_input
  validate_signature req signed_nonce =
      if o.verify req.session_key (o.encode (canonical_input req signed_nonce)) req.signature
      then validate_policy req.transfer_policy
      else reject invalid_signature verification_failed

  unfoldable pub validate_on_chain : RelayExecuteRequest → ℤ → ValidationResult
  unfolding validate_signature
  validate_on_chain req signed_nonce =
      elim (o.get_session_key req.parameters.account_address req.session_key) [
        | found ↦ validate_signature req signed_nonce
        | missing ↦ reject invalid_signature key_not_found
        | unavailable m ↦ reject invalid_signature (key_unavailable m)
      ]

  -- `nonceStore.assertFresh`, where there is a store.
  abbrev pub check_fresh :
      Option MemoryNonceStore → RelayExecuteRequest → ℕ → Bool × Option MemoryNonceStore
  check_fresh none req now = (true, none)
  check_fresh (some s) req now =
      let (fresh, s') = assert_fresh req.session_key req.nonce now s in (fresh, some s')

  -- `validateRelay`; `signed_nonce` is that of the options. The store has forgotten what expired.
  unfoldable pub validate_relay :
      RelayExecuteRequest
      → Option ℤ
      → ℕ
      → Option MemoryNonceStore
      → ValidationResult × Option MemoryNonceStore
  unfolding validate_on_chain
  validate_relay req signed_nonce now store =
      if not (is_session_key req.session_key)
      then (reject invalid_signature bad_session_key, store)
      else if is_negative req.nonce
      then (reject nonce_replay negative_nonce, store)
      else (let (fresh, store') = check_fresh store req now in
          if fresh
          then (validate_on_chain req (get_or signed_nonce req.nonce), store')
          else (reject nonce_replay nonce_used, store'))

  abbrev pub failure : RelayError → RelayExecuteResponse
  failure error = record {
    success = false;
    transaction_id = none;
    error = some error;
    gas_used = 0;
  }

  abbrev pub success : Text → ℕ → RelayExecuteResponse
  success id gas = record { success = true; transaction_id = some id; error = none; gas_used = gas }

  abbrev pub internal : Message → RelayExecuteResponse
  internal message = failure (record { code = internal_error; message = message })

  -- The `try` block: simulate, then submit what was assembled.
  unfoldable pub submit : Submitter → Text → RelayExecuteResponse
  submit s signed_xdr = elim (s.simulate_and_assemble_transaction signed_xdr) [
    | throws e ↦ failure (map_error e)
    | resolves sim ↦ elim (s.submit_signed_transaction sim.assembled_xdr) [
      | throws e ↦ failure (map_error e)
      | resolves hash ↦ success hash sim.gas_used
    ]
  ]

  -- `executeRelay` after the nonce is tracked.
  unfoldable pub dispatch : RelayExecuteRequest → RelayExecuteResponse
  unfolding submit
  dispatch req = if o.use_mock_submission then success o.mock_tx_id 0 else elim o.submitter [
    | none ↦ internal no_submitter
    | some s ↦ elim (extract_signed_transaction_xdr req) [
      | none ↦ internal missing_signed_xdr
      | some signed_xdr ↦ submit s signed_xdr
    ]
  ]

  abbrev pub track_nonce :
      RelayExecuteRequest → ℕ → ℕ → Option MemoryNonceStore → Option MemoryNonceStore
  track_nonce req now stamp none = none
  track_nonce req now stamp (some s) = some (track req.session_key req.nonce now stamp s)

  -- What `executeRelay` does with the result of the validation, which it has waited for.
  unfoldable pub proceed :
      ValidationResult
      → RelayExecuteRequest
      → ℕ
      → ℕ
      → Option MemoryNonceStore
      → RelayExecuteResponse × Option MemoryNonceStore
  unfolding dispatch
  proceed validation req now stamp store =
      if not validation.valid || validation.requires_step_up
      then (failure (policy_error validation.error), store)
      else (dispatch req, track_nonce req now stamp store)

  -- `executeRelay` with no other request between its validation and the rest.
  unfoldable pub execute_relay :
      RelayExecuteRequest
      → Option ℤ
      → ℕ
      → ℕ
      → ℕ
      → Option MemoryNonceStore
      → RelayExecuteResponse × Option MemoryNonceStore
  unfolding proceed
  execute_relay req signed_nonce now later stamp store =
      let (validation, store') = validate_relay req signed_nonce now store in
      proceed validation req later stamp store'
