-- ===== src/Relay/Submission.antt =====
-- What services/relayer/src/services/relayService.ts submits, and when it answers that it did.
use ancore.Common.{
  ℕ, true, false, Option, none, some, Text, ℤ, ◌≡◌, refl, sym, ap, ◌∙◌, inl, inr, arith,
  Option-cases, text_eq, int_eq, subst,
}
use ancore.Relay.Types.{RelayExecuteRequest, RelayExecuteResponse, ValidationResult}
use ancore.Relay.Service.{
  Outside, Submitter, Simulated, Call, resolves, throws, extract_signed_transaction_xdr,
  validate_relay, success, submit, dispatch, proceed, execute_relay,
}
use ancore.Store.NonceStore.{MemoryNonceStore}
use ancore.Store.Replay.{StoreInv}
use ancore.Relay.Authorised.{Authorised, validate_relay-valid}

-- A transaction that was simulated, assembled and submitted for a request.
pub record Submitted (o : Outside) (req : RelayExecuteRequest) (r : RelayExecuteResponse)
    : Type 0 where
  pub submitter : Submitter
  pub configured : o.submitter ≡ some submitter
  pub xdr : Text
  pub given : extract_signed_transaction_xdr req ≡ some xdr
  pub simulated : Simulated
  pub assembled : submitter.simulate_and_assemble_transaction xdr ≡ resolves simulated
  pub hash : Text
  pub accepted : submitter.submit_signed_transaction simulated.assembled_xdr ≡ resolves hash
  pub response : r ≡ success o hash simulated.gas_used

submit-success :
    (o : Outside) (req : RelayExecuteRequest) (sub : Submitter) (xdr : Text) (sim : Call Simulated)
    → o.submitter ≡ some sub
    → extract_signed_transaction_xdr req ≡ some xdr
    → sub.simulate_and_assemble_transaction xdr ≡ sim
    → (submit o sub xdr).success ≡ true
    → Submitted o req (submit o sub xdr)
unfolding submit
submit-success o req sub xdr (throws e) c x p h = absurd (ground arith)
submit-success o req sub xdr (resolves sim) c x p h =
    ended (sub.submit_signed_transaction sim.assembled_xdr) refl
  where
    ended :
        (result : Call Text)
        → sub.submit_signed_transaction sim.assembled_xdr ≡ result
        → Submitted o req (submit o sub xdr)
    ended (throws e) q = absurd (ground arith)
    ended (resolves hash) q = record {
      submitter = sub;
      configured = c;
      xdr = xdr;
      given = x;
      simulated = sim;
      assembled = p;
      hash = hash;
      accepted = q;
      response = ground arith;
    }

dispatch-none :
    (o : Outside) (req : RelayExecuteRequest)
    → o.use_mock_submission ≡ false
    → o.submitter ≡ none
    → (dispatch o req).success ≡ false
unfolding dispatch
dispatch-none o req real c = ground arith

dispatch-unsigned :
    (o : Outside) (req : RelayExecuteRequest) (sub : Submitter)
    → o.use_mock_submission ≡ false
    → o.submitter ≡ some sub
    → extract_signed_transaction_xdr req ≡ none
    → (dispatch o req).success ≡ false
unfolding dispatch
dispatch-unsigned o req sub real c x = ground arith

dispatch-submit :
    (o : Outside) (req : RelayExecuteRequest) (sub : Submitter) (xdr : Text)
    → o.use_mock_submission ≡ false
    → o.submitter ≡ some sub
    → extract_signed_transaction_xdr req ≡ some xdr
    → dispatch o req ≡ submit o sub xdr
unfolding dispatch
dispatch-submit o req sub xdr real c x = ground arith

-- Outside mock mode, only a transaction that the submitter took makes a response a success.
pub dispatch-success :
    (o : Outside) (req : RelayExecuteRequest)
    → o.use_mock_submission ≡ false
    → (dispatch o req).success ≡ true
    → Submitted o req (dispatch o req)
dispatch-success o req real h = elim (Option-cases o.submitter) [
  | inl e ↦ absurd (ground (arith, dispatch-none o req real e))
  | inr (sub, c) ↦ elim (Option-cases (extract_signed_transaction_xdr req)) [
    | inl e ↦ absurd (ground (arith, dispatch-unsigned o req sub real c e))
    | inr (xdr, x) ↦
        let eq = dispatch-submit o req sub xdr real c x in
        subst (Submitted o req) (sym eq) (
          submit-success o req sub xdr _ c x refl
            (ap (λ (r : RelayExecuteResponse). r.success) (sym eq) ∙ h))
  ]
]

proceed-success :
    (o : Outside) (v : ValidationResult) (req : RelayExecuteRequest) (now stamp : ℕ)
    (store : Option MemoryNonceStore)
    → (proceed o v req now stamp store).0.success ≡ true
    → (v.valid ≡ true) × ((proceed o v req now stamp store).0 ≡ dispatch o req)
unfolding proceed
proceed-success o v req now stamp store h = ground arith

-- With a nonce store, a request whose response is a success is authorised. Outside mock mode its
-- transaction was simulated, and what was assembled was submitted.
pub execute_relay-success :
    (o : Outside) (req : RelayExecuteRequest) (signed_nonce : Option ℤ) (now later stamp : ℕ)
    (s : MemoryNonceStore)
    → StoreInv s
    → o.use_mock_submission ≡ false
    → let response = (execute_relay o req signed_nonce now later stamp (some s)).0 in
      response.success ≡ true
      → Authorised o req signed_nonce now (some s) × Submitted o req response
unfolding execute_relay
execute_relay-success o req signed_nonce now later stamp s v real h =
    let validated = validate_relay o req signed_nonce now (some s) in
    let (valid, eq) = proceed-success o validated.0 req later stamp validated.1 h in
    (
      validate_relay-valid o req signed_nonce now (some s) v valid,
      subst (Submitted o req) (sym eq)
          (dispatch-success o req real (ap (λ (r : RelayExecuteResponse). r.success) (sym eq) ∙ h)),
    )
