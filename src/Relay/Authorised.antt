-- ===== src/Relay/Authorised.antt =====
-- Which requests services/relayer/src/services/relayService.ts relays.
use ancore.Common.{
  ℕ, true, false, Option, none, some, get_or, ℤ, is_negative, ◌≡◌, refl, ap, ◌↔◌, arith, text_eq,
  int_eq,
}
use ancore.Relay.Types.{RelayExecuteRequest, TransferRequest}
use ancore.Relay.Policy.{Permitted, valid-Permitted, Permitted-valid}
use ancore.Relay.Service.{
  Outside, found, is_session_key, canonical_input, accept, validate_policy, check_fresh,
  validate_relay,
}
use ancore.Store.NonceStore.{MemoryNonceStore}
use ancore.Store.Replay.{StoreInv, is_live, assert_fresh_lem}

-- The policy that comes with a request permits the transfer.
abbrev pub PolicyAllows : Option TransferRequest → Type 0
PolicyAllows none = Unit {0}
PolicyAllows (some r) = (amount : ℕ) × (today : ℕ) × Permitted r amount today

-- The nonce is not in the store, or there is no store.
abbrev pub IsFresh : RelayExecuteRequest → ℕ → Option MemoryNonceStore → Type 0
IsFresh req now none = Unit {0}
IsFresh req now (some s) = is_live req.session_key req.nonce now s ≡ false

abbrev pub StoreOk : Option MemoryNonceStore → Type 0
StoreOk none = Unit {0}
StoreOk (some s) = StoreInv s

validate_policy-valid :
    (p : Option TransferRequest) → (validate_policy p).valid ≡ true → PolicyAllows p
unfolding validate_policy
validate_policy-valid none h = tt
validate_policy-valid (some r) h = valid-Permitted r (ground arith)

validate_policy_of : (p : Option TransferRequest) → PolicyAllows p → validate_policy p ≡ accept
unfolding validate_policy
validate_policy_of none h = refl
validate_policy_of (some r) (a, t, p) = ground (arith, Permitted-valid r a t p)

check_fresh_lem :
    (o : Outside) (req : RelayExecuteRequest) (now : ℕ) (store : Option MemoryNonceStore)
    → StoreOk store
    → ((check_fresh o store req now).0 ≡ true) ↔ IsFresh req now store
check_fresh_lem o req now none v = (λ _. tt, λ _. refl)
check_fresh_lem o req now (some s) v =
    ground (arith, assert_fresh_lem req.session_key req.nonce now s v)

-- All that a request needs: a well-formed session key, a nonce that is not negative and not used, a
-- key that is found on chain, a signature over the canonical payload with the signed nonce, and a
-- policy, if any, that permits the transfer.
pub record Authorised (o : Outside) (req : RelayExecuteRequest) (signed_nonce : Option ℤ) (now : ℕ)
    (store : Option MemoryNonceStore) : Type 0 where
  pub well_formed : is_session_key req.session_key ≡ true
  pub nonce_valid : is_negative req.nonce ≡ false
  pub fresh : IsFresh req now store
  pub on_chain : o.get_session_key req.parameters.account_address req.session_key ≡ found
  pub signed :
      o.verify req.session_key
        (o.encode (canonical_input req (get_or signed_nonce req.nonce)))
        req.signature
      ≡ true
  pub permitted : PolicyAllows req.transfer_policy

module _ (o : Outside) (req : RelayExecuteRequest) (signed_nonce : Option ℤ) (now : ℕ)
    (store : Option MemoryNonceStore) (v : StoreOk store) where
  -- A request that is found valid is authorised.
  pub validate_relay-valid :
      (validate_relay o req signed_nonce now store).0.valid ≡ true
      → Authorised o req signed_nonce now store
  unfolding validate_relay
  validate_relay-valid h = record {
    well_formed = ground arith;
    nonce_valid = ground arith;
    fresh = ground (arith, check_fresh_lem o req now store v);
    on_chain = ground arith;
    signed = ground arith;
    permitted = validate_policy-valid req.transfer_policy (ground arith);
  }

  -- An authorised request is found valid.
  pub validate_relay_of :
      Authorised o req signed_nonce now store
      → (validate_relay o req signed_nonce now store).0 ≡ accept
  unfolding validate_relay
  validate_relay_of a =
      ground (
        arith,
        check_fresh_lem o req now store v,
        validate_policy_of req.transfer_policy a.permitted,
      )

  -- A request is found valid exactly if it is authorised.
  pub validate_relay_iff :
      ((validate_relay o req signed_nonce now store).0.valid ≡ true)
      ↔ Authorised o req signed_nonce now store
  validate_relay_iff = (validate_relay-valid, λ a. ap (λ x. x.valid) (validate_relay_of a))
