-- ===== src/Relay/Execution.antt =====
-- What services/relayer/src/services/relayService.ts does with a request, alone and beside others.
use ancore.Common.{
  sym, subst, ◌⊎◌, inl, inr, Text, ℕ, ◌+◌, ◌≤◌, true, false, Option, none, some, ℤ, is_negative,
  ◌≡◌, refl, ap, ◌∙◌, arith, text_beq_iff, int_beq_iff, text_eq, int_eq,
}
use ancore.Relay.Types.{
  nonce_replay, nonce_used, RelayExecuteRequest, RelayExecuteResponse, ValidationResult,
}
use ancore.Relay.Service.{
  Outside, is_session_key, reject, accept, validate_relay, failure, dispatch, track_nonce, proceed,
  execute_relay,
}
use ancore.Store.NonceStore.{MemoryNonceStore, assert_fresh, track}
use ancore.Store.Replay.{
  StoreInv, is_live, assert_fresh_lem, track-is_live, assert_fresh-is_live, assert_fresh-Inv,
  assert_fresh-ttl_ms, track-Inv, track-ttl_ms,
}
use ancore.Relay.Authorised.{Authorised, validate_relay_of}

-- The store after a validation that succeeds.
validate_relay-store :
    (o : Outside) (req : RelayExecuteRequest) (signed_nonce : Option ℤ) (now : ℕ)
    (s : MemoryNonceStore)
    → (validate_relay o req signed_nonce now (some s)).0.valid ≡ true
    → (validate_relay o req signed_nonce now (some s)).1
      ≡ some (assert_fresh req.session_key req.nonce now s).1
unfolding validate_relay
validate_relay-store o req signed_nonce now s h = ground arith

validate_relay-stale :
    (o : Outside) (req : RelayExecuteRequest) (signed_nonce : Option ℤ) (now : ℕ)
    (s : MemoryNonceStore)
    → StoreInv s
    → is_session_key req.session_key ≡ true
    → is_negative req.nonce ≡ false
    → is_live req.session_key req.nonce now s ≡ true
    → (validate_relay o req signed_nonce now (some s)).0 ≡ reject nonce_replay nonce_used
unfolding validate_relay
validate_relay-stale o req signed_nonce now s v k n l =
    ground (arith, assert_fresh_lem req.session_key req.nonce now s v)

proceed-accept :
    (o : Outside) (req : RelayExecuteRequest) (now stamp : ℕ) (store : Option MemoryNonceStore)
    → proceed o accept req now stamp store ≡ (dispatch o req, track_nonce o req now stamp store)
unfolding proceed
proceed-accept o req now stamp store = refl

execute_relay-accept :
    (o : Outside) (req : RelayExecuteRequest) (signed_nonce : Option ℤ) (now later stamp : ℕ)
    (s : MemoryNonceStore)
    → (validate_relay o req signed_nonce now (some s)).0 ≡ accept
    → execute_relay o req signed_nonce now later stamp (some s) ≡ (
      dispatch o req,
      some (
          track req.session_key req.nonce later stamp
            (assert_fresh req.session_key req.nonce now s).1),
    )
unfolding execute_relay
execute_relay-accept o req signed_nonce now later stamp s h = ground (
  arith,
  validate_relay-store o req signed_nonce now s,
  proceed-accept o req later stamp (some (assert_fresh req.session_key req.nonce now s).1),
)

execute_relay-refused :
    (o : Outside) (req : RelayExecuteRequest) (signed_nonce : Option ℤ) (now later stamp : ℕ)
    (store : Option MemoryNonceStore)
    → (validate_relay o req signed_nonce now store).0 ≡ reject nonce_replay nonce_used
    → (execute_relay o req signed_nonce now later stamp store).0
      ≡ failure o (record { code = nonce_replay; message = nonce_used })
unfolding execute_relay proceed
execute_relay-refused o req signed_nonce now later stamp store h = ground arith

-- What may happen to the store while other requests are validated and relayed, each of them cut between
-- the two, so that they interleave: evictions up to `to`, and nonces that are tracked from `from` on.
pub data Meanwhile (from to : ℕ) (s : MemoryNonceStore) : MemoryNonceStore → Type 0 where
  nothing_yet : Meanwhile from to s s
  validates :
      {r r' : MemoryNonceStore} (o : Outside) (req : RelayExecuteRequest) (signed : Option ℤ)
      (now : ℕ)
      → Meanwhile from to s r
      → now ≤ to
      → (validate_relay o req signed now (some r)).1 ≡ some r'
      → Meanwhile from to s r'
  proceeds :
      {r r' : MemoryNonceStore} (o : Outside) (validation : ValidationResult)
      (req : RelayExecuteRequest) (now stamp : ℕ)
      → Meanwhile from to s r
      → now ≤ to
      → from ≤ stamp
      → (proceed o validation req now stamp (some r)).1 ≡ some r'
      → Meanwhile from to s r'

-- A validation leaves the store, or evicts what is forgotten.
validate_relay-evicts :
    (o : Outside) (req : RelayExecuteRequest) (signed : Option ℤ) (now : ℕ) (s : MemoryNonceStore)
    → ((validate_relay o req signed now (some s)).1 ≡ some s)
      ⊎ ((validate_relay o req signed now (some s)).1
          ≡ some (assert_fresh req.session_key req.nonce now s).1)
unfolding validate_relay
validate_relay-evicts o req signed now s = ground arith

proceed-tracks :
    (o : Outside) (validation : ValidationResult) (req : RelayExecuteRequest) (now stamp : ℕ)
    (s : MemoryNonceStore)
    → ((proceed o validation req now stamp (some s)).1 ≡ some s)
      ⊎ ((proceed o validation req now stamp (some s)).1
          ≡ some (track req.session_key req.nonce now stamp s))
unfolding proceed
proceed-tracks o validation req now stamp s = ground arith

some-eq : {s r : MemoryNonceStore} → some s ≡ some r → s ≡ r
some-eq e = cc e

module _ (key : Text) (nonce : ℤ) (from to ttl : ℕ) (within : to ≤ from + ttl) where
  -- The nonce is refused at the end.
  record Remembers (s : MemoryNonceStore) : Type 0 where
    pub store_inv : StoreInv s
    pub same_ttl : s.ttl_ms ≡ ttl
    pub live : is_live key nonce to s ≡ true

  assert_fresh-Remembers :
      (k : Text) (n : ℤ) (now : ℕ) (s : MemoryNonceStore)
      → now ≤ to
      → Remembers s
      → Remembers (assert_fresh k n now s).1
  assert_fresh-Remembers k n now s h v = record {
    store_inv = assert_fresh-Inv k n now s v.store_inv;
    same_ttl = assert_fresh-ttl_ms k n now s ∙ v.same_ttl;
    live = assert_fresh-is_live k n now s key nonce to v.store_inv h ∙ v.live;
  }

  track-Remembers :
      (k : Text) (n : ℤ) (now stamp : ℕ) (s : MemoryNonceStore)
      → now ≤ to
      → from ≤ stamp
      → Remembers s
      → Remembers (track k n now stamp s)
  track-Remembers k n now stamp s h h' v = record {
    store_inv = track-Inv k n now stamp s v.store_inv;
    same_ttl = track-ttl_ms k n now stamp s ∙ v.same_ttl;
    live = ground (
      arith,
      track-is_live k n now stamp s key nonce to v.store_inv h,
      v.live,
      v.same_ttl,
      within,
    );
  }

  Meanwhile-Remembers : {s r : MemoryNonceStore} → Meanwhile from to s r → Remembers s → Remembers r
  Meanwhile-Remembers nothing_yet v = v
  Meanwhile-Remembers (validates {r} {r'} o req signed now m h e) v =
      elim (validate_relay-evicts o req signed now r) [
        | inl q ↦ subst Remembers (some-eq (sym q ∙ e)) (Meanwhile-Remembers m v)
        | inr q ↦
            subst Remembers (some-eq (sym q ∙ e))
              (assert_fresh-Remembers req.session_key req.nonce now r h (Meanwhile-Remembers m v))
      ]
  Meanwhile-Remembers (proceeds {r} {r'} o validation req now stamp m h h' e) v =
      elim (proceed-tracks o validation req now stamp r) [
        | inl q ↦ subst Remembers (some-eq (sym q ∙ e)) (Meanwhile-Remembers m v)
        | inr q ↦
            subst Remembers (some-eq (sym q ∙ e))
              (track-Remembers req.session_key req.nonce now stamp r h h' (Meanwhile-Remembers m v))
      ]

-- Once a request has been relayed, no request with its session key and nonce is, whatever else it
-- says and whatever requests are validated and relayed in between, in any interleaving, until the
-- nonce is forgotten: a time to live after it was tracked.
pub replay_refused :
    (o p : Outside) (req again : RelayExecuteRequest) (signed signed' : Option ℤ)
    (now later stamp t t' t'' : ℕ) (s s' s'' : MemoryNonceStore)
    → StoreInv s
    → Authorised o req signed now (some s)
    → (execute_relay o req signed now later stamp (some s)).1 ≡ some s'
    → Meanwhile stamp t s' s''
    → again.session_key ≡ req.session_key
    → again.nonce ≡ req.nonce
    → later ≤ t
    → t ≤ stamp + s.ttl_ms
    → (execute_relay p again signed' t t' t'' (some s'')).0
      ≡ failure p (record { code = nonce_replay; message = nonce_used })
replay_refused o p req again signed signed' now later stamp t t' t'' s s' s'' v a e m k n from to =
    execute_relay-refused p again signed' t t' t'' (some s'') (
      validate_relay-stale p again signed' t s'' end.store_inv (ap is_session_key k ∙ a.well_formed)
        (ap is_negative n ∙ a.nonce_valid) ((λ i. is_live (k i) (n i) t s'') ∙ end.live))
  where
    evicted : MemoryNonceStore
    evicted = (assert_fresh req.session_key req.nonce now s).1

    tracked : MemoryNonceStore
    tracked = track req.session_key req.nonce later stamp evicted

    live : is_live req.session_key req.nonce t tracked ≡ true
    live = ground (
      arith,
      track-is_live req.session_key req.nonce later stamp evicted req.session_key req.nonce t
          (assert_fresh-Inv req.session_key req.nonce now s v) from,
      text_beq_iff req.session_key req.session_key,
      int_beq_iff req.nonce req.nonce,
      assert_fresh-ttl_ms req.session_key req.nonce now s,
    )

    same : tracked ≡ s'
    same = some-eq (
        sym (
          ap (λ r. r.1)
            (execute_relay-accept o req signed now later stamp s
              (validate_relay_of o req signed now (some s) v a)))
        ∙ e)

    start : Remembers req.session_key req.nonce stamp t s.ttl_ms to tracked
    start = record {
      store_inv =
          track-Inv req.session_key req.nonce later stamp evicted
            (assert_fresh-Inv req.session_key req.nonce now s v);
      same_ttl =
          track-ttl_ms req.session_key req.nonce later stamp evicted
          ∙ assert_fresh-ttl_ms req.session_key req.nonce now s;
      live = live;
    }

    end : Remembers req.session_key req.nonce stamp t s.ttl_ms to s''
    end =
        Meanwhile-Remembers req.session_key req.nonce stamp t s.ttl_ms to m
          (subst (Remembers req.session_key req.nonce stamp t s.ttl_ms to) same start)

-- Between its validation and the tracking of its nonce a request waits for the key on chain. If the
-- same request comes a second time in between, both are relayed.
pub interleaved_replay :
    (o : Outside) (req : RelayExecuteRequest) (now later t t' u u' : ℕ) (s : MemoryNonceStore)
    → StoreInv s
    → Authorised o req none now (some s)
    → Authorised o req none later (some s)
    → now ≤ later
    → let first = validate_relay o req none now (some s) in
      let second = validate_relay o req none later first.1 in
      let one = proceed o first.0 req t t' second.1 in
      let two = proceed o second.0 req u u' one.1 in
      (one.0 ≡ dispatch o req) × (two.0 ≡ dispatch o req)
interleaved_replay o req now later t t' u u' s v a b h =
    (relays first.0 t t' second.1 accepted, relays second.0 u u' one.1 accepted')
  where
    s' : MemoryNonceStore
    s' = (assert_fresh req.session_key req.nonce now s).1

    first : ValidationResult × Option MemoryNonceStore
    first = validate_relay o req none now (some s)

    second : ValidationResult × Option MemoryNonceStore
    second = validate_relay o req none later first.1

    one : RelayExecuteResponse × Option MemoryNonceStore
    one = proceed o first.0 req t t' second.1

    relays :
        (r : ValidationResult) (i j : ℕ) (store : Option MemoryNonceStore)
        → r ≡ accept
        → (proceed o r req i j store).0 ≡ dispatch o req
    relays r i j store e =
        ap (λ x. (proceed o x req i j store).0) e ∙ ap (λ x. x.0) (proceed-accept o req i j store)

    accepted : first.0 ≡ accept
    accepted = validate_relay_of o req none now (some s) v a

    kept : first.1 ≡ some s'
    kept = validate_relay-store o req none now s (ap (λ (r : ValidationResult). r.valid) accepted)

    still : Authorised o req none later (some s')
    still = record {
      well_formed = b.well_formed;
      nonce_valid = b.nonce_valid;
      fresh =
          assert_fresh-is_live req.session_key req.nonce now s req.session_key req.nonce later v h
          ∙ b.fresh;
      on_chain = b.on_chain;
      signed = b.signed;
      permitted = b.permitted;
    }

    accepted' : second.0 ≡ accept
    accepted' =
        ap (λ store. (validate_relay o req none later store).0) kept
        ∙ validate_relay_of o req none later (some s')
            (assert_fresh-Inv req.session_key req.nonce now s v) still
