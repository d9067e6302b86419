-- ===== src/Store/Replay.antt =====
-- Which nonces services/relayer/src/store/nonceStore.ts refuses.
use ancore.Common.{
  ℕ, ◌+◌, ◌≤◌, Bool, false, not, Option, none, some, [], ◌∷◌, Text, ℤ, ltb, leb, ◌≡◌, refl, sym, ap,
  ◌∙◌, ◌&&◌, inl, inr, if◌then◌else◌, text_eq, int_eq, int_beq, int_beq_iff, text_beq, text_beq_iff,
  arith, Bool-cases, Option-cases, subst,
}
use ancore.Common.Table
use ancore.Common.Table.{Table}
use ancore.Common.Table.Distinct.{Distinct, set-Distinct, delete-Distinct}
use ancore.Store.NonceStore.{
  MemoryNonceStore, drop_expired, put_back, evict_expired, entries, nonces, assert_fresh, track,
}

-- Each key, and each nonce of a key, stands once.
pub record StoreInv (s : MemoryNonceStore) : Type 0 where
  pub keys : Distinct s.seen
  pub each : (key : Text) (m : Table ℤ ℕ) → Table.get key s.seen ≡ some m → Distinct m

-- What a read keeps of an entry that may have expired.
abbrev unexpired : ℕ → Option ℕ → Option ℕ
unexpired now none = none
unexpired now (some t) = if ltb t now then none else some t

-- The nonce has been tracked and is not forgotten yet.
abbrev pub is_live : Text → ℤ → ℕ → MemoryNonceStore → Bool
is_live key nonce now s = elim (Table.get nonce (nonces key s)) [
  | none ↦ false
  | some t ↦ leb now t
]

get-drop_expired :
    (now : ℕ) (n : ℤ) (m : Table ℤ ℕ)
    → Distinct m
    → Table.get n (drop_expired now m) ≡ unexpired now (Table.get n m)
unfolding drop_expired Table.get
get-drop_expired now n [] d = refl
get-drop_expired now n ((k, t) ∷ m) d = elim (Bool-cases (int_beq k n)) [
  | inl same ↦
      let gone : Table.get n m ≡ none =
        ap (λ j. Table.get j m) (sym ((int_beq_iff k n).0 same)) ∙ d.0 in
      ground (arith, get-drop_expired now n m d.1)
  | inr other ↦ ground (arith, get-drop_expired now n m d.1)
]

drop_expired-Distinct : (now : ℕ) (m : Table ℤ ℕ) → Distinct m → Distinct (drop_expired now m)
unfolding drop_expired
drop_expired-Distinct now [] d = tt
drop_expired-Distinct now ((k, t) ∷ m) d =
    ground (arith, drop_expired-Distinct now m, get-drop_expired now k m)

put_back-nonces :
    (key j : Text) (m : Table ℤ ℕ) (s : MemoryNonceStore)
    → nonces j (record s { seen = put_back key m s.seen })
      ≡ (if text_beq key j then m else nonces j s)
unfolding put_back
put_back-nonces key j [] s = ground (arith, Table.get-delete j key s.seen)
put_back-nonces key j (n ∷ m) s = ground (arith, Table.get-set j key (n ∷ m) s.seen)

nonces-Distinct : (key : Text) (s : MemoryNonceStore) → StoreInv s → Distinct (nonces key s)
nonces-Distinct key s v = elim (Option-cases (Table.get key s.seen)) [
  | inl e ↦ subst (λ o. Distinct (entries o)) (sym e) tt
  | inr (m, e) ↦ subst (λ o. Distinct (entries o)) (sym e) (v.each key m e)
]

nonces-evict_expired :
    (key : Text) (now : ℕ) (s : MemoryNonceStore)
    → nonces key (evict_expired key now s) ≡ drop_expired now (nonces key s)
unfolding evict_expired drop_expired
nonces-evict_expired key now s = elim (Option-cases (Table.get key s.seen)) [
  | inl e ↦ ground arith
  | inr (m, e) ↦
      ground (arith, put_back-nonces key key (drop_expired now m) s, text_beq_iff key key)
]

-- After the eviction of a key, its nonces are those that have not expired.
get-evict_expired :
    (key : Text) (n : ℤ) (now : ℕ) (s : MemoryNonceStore)
    → StoreInv s
    → Table.get n (nonces key (evict_expired key now s))
      ≡ unexpired now (Table.get n (nonces key s))
get-evict_expired key n now s v =
    ap (Table.get n) (nonces-evict_expired key now s)
    ∙ get-drop_expired now n (nonces key s) (nonces-Distinct key s v)

evict_expired-other :
    (key j : Text) (now : ℕ) (s : MemoryNonceStore)
    → text_beq key j ≡ false
    → nonces j (evict_expired key now s) ≡ nonces j s
unfolding evict_expired
evict_expired-other key j now s h = elim (Option-cases (Table.get key s.seen)) [
  | inl e ↦ rw (e, evict_expired) refl
  | inr (m, e) ↦
      rw (e, evict_expired) (ground (arith, put_back-nonces key j (drop_expired now m) s))
]

-- `assertFresh` refuses a nonce exactly while it is live.
pub assert_fresh_lem :
    (key : Text) (nonce : ℤ) (now : ℕ) (s : MemoryNonceStore)
    → StoreInv s
    → (assert_fresh key nonce now s).0 ≡ not (is_live key nonce now s)
unfolding assert_fresh
assert_fresh_lem key nonce now s v = ground (arith, get-evict_expired key nonce now s v)

nonces-track :
    (key : Text) (nonce : ℤ) (now stamp : ℕ) (s : MemoryNonceStore) (j : Text)
    → nonces j (track key nonce now stamp s) ≡ (
        if text_beq key j
        then Table.set nonce (stamp + s.ttl_ms) (nonces key (evict_expired key now s))
        else nonces j s)
unfolding track
nonces-track key nonce now stamp s j = elim (Bool-cases (text_beq key j)) [
  | inl same ↦ ground (
    arith,
    Table.get-set j key
        (Table.set nonce (stamp + (evict_expired key now s).ttl_ms)
          (nonces key (evict_expired key now s)))
        (evict_expired key now s).seen,
    ttl,
  )
  | inr other ↦ ground (
    arith,
    Table.get-set j key
        (Table.set nonce (stamp + (evict_expired key now s).ttl_ms)
          (nonces key (evict_expired key now s)))
        (evict_expired key now s).seen,
    evict_expired-other key j now s other,
  )
]
  where
    ttl : (evict_expired key now s).ttl_ms ≡ s.ttl_ms
    ttl = unfold evict_expired in ground arith

-- After `track` a nonce is live until its time to live is over. Every other nonce, of this key or
-- of another, is as live as it was, from the time of the call on.
pub track-is_live :
    (key : Text) (nonce : ℤ) (now stamp : ℕ) (s : MemoryNonceStore) (j : Text) (n : ℤ) (later : ℕ)
    → StoreInv s
    → now ≤ later
    → is_live j n later (track key nonce now stamp s) ≡ (
        if text_beq key j && int_beq nonce n
        then leb later (stamp + s.ttl_ms)
        else is_live j n later s)
track-is_live key nonce now stamp s j n later v h = elim (Bool-cases (text_beq key j)) [
  | inl same ↦
      let at : nonces key s ≡ nonces j s = ap (λ k. nonces k s) ((text_beq_iff key j).0 same) in
      ground (
        arith,
        nonces-track key nonce now stamp s j,
        Table.get-set n nonce (stamp + s.ttl_ms) (nonces key (evict_expired key now s)),
        get-evict_expired key n now s v,
        at,
      )
  | inr other ↦ ground (arith, nonces-track key nonce now stamp s j)
]

put_back-Inv :
    (key : Text) (m : Table ℤ ℕ) (s : MemoryNonceStore)
    → Distinct m
    → StoreInv s
    → StoreInv (record s { seen = put_back key m s.seen })
unfolding put_back
put_back-Inv key [] s d v = record {
  keys = delete-Distinct key s.seen v.keys;
  each = λ j w e. v.each j w (ground (arith, Table.get-delete j key s.seen));
}
put_back-Inv key (n ∷ m) s d v = record {
  keys = set-Distinct key (n ∷ m) s.seen v.keys;
  each = Table.set-all (λ j w. Distinct w) key (n ∷ m) s.seen v.each d;
}

evict_expired-Inv :
    (key : Text) (now : ℕ) (s : MemoryNonceStore) → StoreInv s → StoreInv (evict_expired key now s)
unfolding evict_expired
evict_expired-Inv key now s v = elim (Option-cases (Table.get key s.seen)) [
  | inl e ↦ rw (e, evict_expired) v
  | inr (m, e) ↦
      rw (e, evict_expired)
        (put_back-Inv key (drop_expired now m) s (drop_expired-Distinct now m (v.each key m e)) v)
]

-- The methods keep the store in order.
pub assert_fresh-Inv :
    (key : Text) (nonce : ℤ) (now : ℕ) (s : MemoryNonceStore)
    → StoreInv s
    → StoreInv (assert_fresh key nonce now s).1
unfolding assert_fresh
assert_fresh-Inv key nonce now s v = evict_expired-Inv key now s v

pub track-Inv :
    (key : Text) (nonce : ℤ) (now stamp : ℕ) (s : MemoryNonceStore)
    → StoreInv s
    → StoreInv (track key nonce now stamp s)
unfolding track
track-Inv key nonce now stamp s v =
    let u = evict_expired-Inv key now s v in
    let m = nonces key (evict_expired key now s) in
    let new =
      set-Distinct nonce (stamp + (evict_expired key now s).ttl_ms) m
        (nonces-Distinct key (evict_expired key now s) u) in
    record {
      keys = set-Distinct key _ (evict_expired key now s).seen u.keys;
      each = Table.set-all (λ j w. Distinct w) key _ (evict_expired key now s).seen u.each new;
    }

-- The eviction that comes with an assertion forgets nothing that is live.
pub assert_fresh-is_live :
    (key : Text) (nonce : ℤ) (now : ℕ) (s : MemoryNonceStore) (j : Text) (n : ℤ) (later : ℕ)
    → StoreInv s
    → now ≤ later
    → is_live j n later (assert_fresh key nonce now s).1 ≡ is_live j n later s
unfolding assert_fresh
assert_fresh-is_live key nonce now s j n later v h = elim (Bool-cases (text_beq key j)) [
  | inl same ↦
      let at : nonces j (evict_expired key now s) ≡ nonces key (evict_expired key now s) =
        ap (λ k. nonces k (evict_expired key now s)) (sym ((text_beq_iff key j).0 same)) in
      let at' : nonces key s ≡ nonces j s = ap (λ k. nonces k s) ((text_beq_iff key j).0 same) in
      ground (arith, get-evict_expired key n now s v, at, at')
  | inr other ↦ ground (arith, evict_expired-other key j now s other)
]

pub assert_fresh-ttl_ms :
    (key : Text) (nonce : ℤ) (now : ℕ) (s : MemoryNonceStore)
    → (assert_fresh key nonce now s).1.ttl_ms ≡ s.ttl_ms
unfolding assert_fresh evict_expired
assert_fresh-ttl_ms key nonce now s = ground arith

pub track-ttl_ms :
    (key : Text) (nonce : ℤ) (now stamp : ℕ) (s : MemoryNonceStore)
    → (track key nonce now stamp s).ttl_ms ≡ s.ttl_ms
unfolding track evict_expired
track-ttl_ms key nonce now stamp s = ground arith
