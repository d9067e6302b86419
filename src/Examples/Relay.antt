-- ===== src/Examples/Relay.antt =====
-- A request that is relayed by a service whose signatures are the amounts they sign.
use ancore.Common.{
  trim, trim_start, trim_end, is_space, ℕ, true, false, none, some, pos, codes, text_beq, ◌≡◌, refl,
  ◌↔◌, inl, arith,
}
use ancore.Common.Table
use ancore.Relay.Types.{
  relay_execute, nonce_replay, nonce_used, TransferRequest, finite, text, RelayExecuteRequest,
}
use ancore.Relay.Policy.{
  validate_transfer_policy, check_total, check_limits, double_sum, apply_action,
  validate_transfer_policy_constraints, Permitted, valid-Permitted_iff,
}
use ancore.Relay.Service.{
  Outside, Submitter, found, resolves, is_session_key, canonical_input, validate_relay,
  execute_relay, dispatch, proceed, accept, failure, validate_on_chain, validate_signature,
  validate_policy, submit, extract_signed_transaction_xdr,
}
use ancore.Store.NonceStore.{MemoryNonceStore, new_store, assert_fresh, evict_expired, track}
use ancore.Store.Replay.{StoreInv}
use ancore.Relay.Authorised.{Authorised, validate_relay_iff, validate_relay_of}
use ancore.Relay.Execution.{Meanwhile, replay_refused, interleaved_replay}
use ancore.Relay.Submission.{Submitted, execute_relay-success}
use ancore.Relay.Health.{fails, Deployment}

abbrev submitter : Submitter
submitter = record {
  simulate_and_assemble_transaction =
      λ xdr. resolves (record { assembled_xdr = xdr; gas_used = 100 });
  submit_signed_transaction = λ xdr. resolves (codes "HASH");
}

abbrev outside : Outside
outside = record {
  get_session_key = λ account key. found;
  verify = λ key payload signature. text_beq payload signature;
  encode = λ input. input.amount;
  mock_tx_id = codes "MOCK";
  submitter = some submitter;
  use_mock_submission = false;
}

abbrev transfer : TransferRequest
transfer = record {
  policy = record { daily_limit = 1000; step_up_threshold = 250 };
  amount = finite (pos 50);
  today_total = finite (pos 100);
  asset_code = none;
  step_up_confirmed = false;
}

abbrev request : RelayExecuteRequest
request = record {
  session_key = codes "00112233445566778899aabbccddeeff00112233445566778899AABBCCDDEEFF";
  operation = relay_execute;
  parameters = record {
    to = some (text (codes "GTO"));
    amount = some (text (codes "50"));
    asset = none;
    account_address = some (text (codes "CACCOUNT"));
    signed_transaction_xdr = some (text (codes " AAAA "));
  };
  signature = codes "50";
  nonce = pos 7;
  transfer_policy = some transfer;
}

abbrev store : MemoryNonceStore
store = new_store 300000

store-StoreInv : StoreInv store
unfolding Table.get
store-StoreInv = record { keys = tt; each = λ key m h. cc }

permitted : Permitted transfer 50 100
unfolding double_sum
permitted = record {
  amount_is = refl;
  total_is = refl;
  positive = omega arith;
  within = omega arith;
  confirmed = inl (omega arith);
}

authorised : (now : ℕ) → Authorised outside request none now (some store)
unfolding is_session_key canonical_input Table.get
authorised now = record {
  well_formed = refl;
  nonce_valid = refl;
  fresh = refl;
  on_chain = refl;
  signed = refl;
  permitted = (50, 100, permitted);
}

accepted : (validate_relay outside request none 1000 (some store)).0 ≡ accept
accepted = validate_relay_of outside request none 1000 (some store) store-StoreInv (authorised 1000)

relayed : (execute_relay outside request none 1000 1010 1010 (some store)).0.success ≡ true
unfolding execute_relay proceed dispatch submit extract_signed_transaction_xdr validate_relay
    validate_on_chain validate_signature validate_policy validate_transfer_policy_constraints
    validate_transfer_policy check_total check_limits double_sum apply_action canonical_input
    is_session_key assert_fresh evict_expired Table.get trim trim_start trim_end is_space
relayed = refl

execute_relay-success_example :
    Authorised outside request none 1000 (some store)
    × Submitted outside request (execute_relay outside request none 1000 1010 1010 (some store)).0
execute_relay-success_example =
    execute_relay-success outside request none 1000 1010 1010 store store-StoreInv refl relayed

-- The second request has another amount, signed as well.
abbrev again : RelayExecuteRequest
again = record request { signature = codes "90"; transfer_policy = none }

abbrev remembering : MemoryNonceStore
remembering =
    track request.session_key (pos 7) 1010 1010
      (assert_fresh request.session_key (pos 7) 1000 store).1

remembered : (execute_relay outside request none 1000 1010 1010 (some store)).1 ≡ some remembering
unfolding execute_relay proceed validate_relay validate_on_chain validate_signature validate_policy
    validate_transfer_policy_constraints validate_transfer_policy check_total check_limits
    double_sum apply_action canonical_input is_session_key assert_fresh evict_expired Table.get
remembered = refl

-- In between, a request with the next nonce is relayed.
abbrev next_request : RelayExecuteRequest
next_request = record request { nonce = pos 8 }

meanwhile :
    Meanwhile 1010 2000 remembering (track request.session_key (pos 8) 1500 1500 remembering)
unfolding proceed
meanwhile =
    Meanwhile.proceeds outside accept next_request 1500 1500 Meanwhile.nothing_yet (omega arith)
      (omega arith) refl

replay_refused_example :
    (execute_relay outside again none 2000 2010 2010
      (some (track request.session_key (pos 8) 1500 1500 remembering))).0
    ≡ failure outside (record { code = nonce_replay; message = nonce_used })
replay_refused_example =
    replay_refused outside outside request again none none 1000 1010 1010 2000 2010 2010 store
      remembering (track request.session_key (pos 8) 1500 1500 remembering) store-StoreInv
      (authorised 1000) remembered meanwhile refl refl (omega arith) (omega arith)

interleaved_replay_example :
    let first = validate_relay outside request none 1000 (some store) in
    let second = validate_relay outside request none 1001 first.1 in
    let one = proceed outside first.0 request 1010 1010 second.1 in
    let two = proceed outside second.0 request 1011 1011 one.1 in
    (one.0 ≡ dispatch outside request) × (two.0 ≡ dispatch outside request)
interleaved_replay_example =
    interleaved_replay outside request 1000 1001 1010 1010 1011 1011 store store-StoreInv
      (authorised 1000) (authorised 1001) (omega arith)

abbrev large : TransferRequest
large = record transfer { amount = finite (pos 300) }

abbrev deployment : Deployment
deployment = record {
  queue = true;
  store = true;
  use_mock_submission = false;
  transaction_submitter = some (fails (codes "timeout"));
  signature_service = some none;
}

validate_relay_iff_example :
    ((validate_relay outside request none 1000 (some store)).0.valid ≡ true)
    ↔ Authorised outside request none 1000 (some store)
validate_relay_iff_example =
    validate_relay_iff outside request none 1000 (some store) store-StoreInv

valid-Permitted_iff_example :
    ((validate_transfer_policy_constraints transfer).valid ≡ true)
    ↔ ((amount : ℕ) × (today : ℕ) × Permitted transfer amount today)
valid-Permitted_iff_example = valid-Permitted_iff transfer

-- Above 2 ^ 53 a sum is rounded, and of two neighbours to the even one.
rounded :
    (double_sum 9007199254740992 1 ≡ 9007199254740992)
    × (double_sum 9007199254740992 3 ≡ 9007199254740996)
unfolding double_sum
rounded = (refl, refl)
