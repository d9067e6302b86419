-- ===== src/Relay/Types.antt =====
-- services/relayer/src/types: requests.ts, responses.ts and errorCodes.ts. A message is its template
-- with what is put in, or the text of an error that was caught.
use ancore.Common.{ℕ, Bool, Option, Text, ℤ}

pub data OperationType : Type 0 where
  relay_execute add_session_key revoke_session_key : OperationType

-- `RelayErrorCodes`
pub data RelayErrorCode : Type 0 where
  invalid_signature session_key_expired nonce_replay gas_limit_exceeded simulation_failed :
      RelayErrorCode
  policy_denied rpc_down unauthorized internal_error transfer_limit_exceeded : RelayErrorCode

pub data Message : Type 0 where
  amount_not_positive invalid_daily_total within_limits : Message
  exceeds_daily_limit exceeds_step_up : ℕ → Text → Message
  bad_session_key negative_nonce nonce_used key_not_found verification_failed needs_confirmation :
      Message
  key_unavailable : Text → Message
  no_submitter missing_signed_xdr submission_failed : Message
  caught : Text → Message

pub record RelayError : Type 0 where
  pub code : RelayErrorCode
  pub message : Message

-- A JavaScript number: a finite double, as a multiple of the least one, 2 ^ -1074, or `NaN` or an
-- infinity.
pub data Number : Type 0 where
  finite : ℤ → Number
  not_finite : Number

-- packages/types/src/transfer-policy.ts: the limits, in the same unit. Limits that are negative or not
-- finite are left out.
pub record TransferPolicy : Type 0 where
  pub daily_limit : ℕ
  pub step_up_threshold : ℕ

-- `request.transferPolicy`
pub record TransferRequest : Type 0 where
  pub policy : TransferPolicy
  pub amount : Number
  pub today_total : Number
  pub asset_code : Option Text
  pub step_up_confirmed : Bool

-- A value of the `parameters` of a request: a text, or anything else.
pub data Value : Type 0 where
  text : Text → Value
  other : Value

-- The `parameters` that the service reads.
pub record Parameters : Type 0 where
  pub to : Option Value
  pub amount : Option Value
  pub asset : Option Value
  pub account_address : Option Value
  pub signed_transaction_xdr : Option Value

pub record RelayExecuteRequest : Type 0 where
  pub session_key : Text
  pub operation : OperationType
  pub parameters : Parameters
  pub signature : Text
  pub nonce : ℤ
  pub transfer_policy : Option TransferRequest

pub record RelayExecuteResponse : Type 0 where
  pub success : Bool
  pub transaction_id : Option Text
  pub error : Option RelayError
  pub gas_used : ℕ

pub record ValidationResult : Type 0 where
  pub valid : Bool
  pub error : Option RelayError
  pub requires_step_up : Bool
