-- ===== src/Relay/Errors.antt =====
-- services/relayer/src/services/mapSimulationError.ts and mapSubmissionError.ts: the code of an error
-- that was caught.
use ancore.Common.{
  ◌||◌, Option, none, some, get_or, [], ◌∷◌, Text, if◌then◌else◌, codes, to_lower_case, includes,
  text_beq, ◌≡◌, ◌↔◌, arith,
}
use ancore.Relay.Types.{
  RelayError, RelayErrorCode, caught, submission_failed, gas_limit_exceeded, simulation_failed,
  internal_error, rpc_down,
}

-- What the submitter may throw: the error classes of `@ancore/stellar`, another error, a bare text,
-- an object with a `message` that is a text, or anything else.
pub data Thrown : Type 0 where
  simulation_failed_error network_error plain_error : Text → Thrown
  transaction_error : Option Text → Text → Thrown
  bare_text message_object : Text → Thrown
  nothing : Thrown

-- `extractMessage`
unfoldable pub extract_message : Thrown → Option Text
extract_message (simulation_failed_error m) = some m
extract_message (network_error m) = some m
extract_message (plain_error m) = some m
extract_message (transaction_error code m) = some m
extract_message (bare_text m) = some m
extract_message (message_object m) = some m
extract_message nothing = none

abbrev relay_error : RelayErrorCode → Text → RelayError
relay_error code m = record { code = code; message = caught m }

-- The tests of `mapSimulationError` on the message in lower case.
unfoldable pub classify_simulation : Text → Text → Option RelayError
classify_simulation m haystack =
    if includes (codes "resource") haystack
      || includes (codes "budget exceeded") haystack
      || includes (codes "out of gas") haystack
    then some (relay_error gas_limit_exceeded m)
    else if includes (codes "simulation") haystack
        || includes (codes "simulate") haystack
        || includes (codes "host_function_failed") haystack
        || includes (codes "invokehostfunction") haystack
        || includes (codes "insufficient balance") haystack
    then some (relay_error simulation_failed m)
    else none

-- `if (!message) return null`: no message, or the empty one.
unfoldable pub map_message : Option Text → Option RelayError
unfolding classify_simulation
map_message none = none
map_message (some []) = none
map_message (some (c ∷ m)) = classify_simulation (c ∷ m) (to_lower_case (c ∷ m))

unfoldable pub map_simulation_error : Thrown → Option RelayError
unfolding extract_message map_message
map_simulation_error error = map_message (extract_message error)

-- The tests of `mapSubmissionError` on the result code of a transaction.
unfoldable pub classify_result_code : Text → RelayErrorCode
classify_result_code code =
    if includes (codes "fee") code
      || includes (codes "resource") code
      || includes (codes "insufficient") code
      || text_beq code (codes "tx_insufficient_fee")
    then gas_limit_exceeded
    else if includes (codes "failed") code
        || includes (codes "bad") code
        || includes (codes "malformed") code
        || includes (codes "invalid") code
    then simulation_failed
    else internal_error

unfoldable pub map_submission_error : Thrown → RelayError
unfolding classify_result_code
map_submission_error (simulation_failed_error m) = relay_error simulation_failed m
map_submission_error (transaction_error none m) = relay_error (classify_result_code []) m
map_submission_error (transaction_error (some code) m) =
    relay_error (classify_result_code (to_lower_case code)) m
map_submission_error (network_error m) = relay_error rpc_down m
map_submission_error (plain_error m) = relay_error internal_error m
map_submission_error (bare_text m) = record { code = internal_error; message = submission_failed }
map_submission_error (message_object m) = record {
  code = internal_error;
  message = submission_failed;
}
map_submission_error nothing = record { code = internal_error; message = submission_failed }

-- `mapSimulationError(error) ?? mapSubmissionError(error)`
unfoldable pub map_error : Thrown → RelayError
unfolding map_simulation_error map_submission_error
map_error error = get_or (map_simulation_error error) (map_submission_error error)

-- The code of a network error is `rpc_down` exactly where its message, in lower case, has none of the
-- words by which a failed simulation is recognised.
pub network_error_code :
    (message : Text)
    → ((map_error (network_error message)).code ≡ rpc_down) ↔ (map_message (some message) ≡ none)
unfolding map_error map_simulation_error map_submission_error extract_message
network_error_code message = ground arith
