-- ===== src/Store/Cache.antt =====
-- What services/relayer/src/store/idempotency.ts returns, and what the middleware over it,
-- services/relayer/src/middleware/idempotency.ts, replays.
use ancore.Common.{
  ℕ, ◌+◌, ◌≤◌, ◌<◌, true, false, none, some, [], Text, ltb, leb, ◌≡◌, ap, ◌∙◌, ◌&&◌, inl, inr,
  if◌then◌else◌, text_eq, text_beq, text_beq_iff, arith, Option-cases,
}
use ancore.Common.Table
use ancore.Store.Idempotency.{
  CachedResponse, IdempotencyStore, get, set, size, clear_expired, Header, header_key, middleware,
}

module _ {B : Type 0} where
  -- A response is returned until its time to live is over, its last millisecond included. The other
  -- keys are not touched.
  pub response-get-set :
      (j key : Text) (r : CachedResponse B) (now later : ℕ) (s : IdempotencyStore B)
      → (get j later (set key r now s)).0 ≡ (
          if text_beq key j
          then (if leb later (now + s.ttl_ms) then some r else none)
          else (get j later s).0)
  unfolding get set
  response-get-set j key r now later s =
      ground
        (arith, Table.get-set j key (record { response = r; expires_at = now + s.ttl_ms }) s.store)

  get-ttl_ms : (key : Text) (now : ℕ) (s : IdempotencyStore B) → (get key now s).1.ttl_ms ≡ s.ttl_ms
  unfolding get
  get-ttl_ms key now s = ground arith

  -- A lookup that finds nothing leaves nothing to find.
  get_twice :
      (key : Text) (now later : ℕ) (s : IdempotencyStore B)
      → (get key now s).0 ≡ none
      → (get key later (get key now s).1).0 ≡ none
  unfolding get
  get_twice key now later s h =
      ground (arith, Table.get-delete key key s.store, text_beq_iff key key)

  middleware-hit :
      (header : Header) (key : Text) (fresh r : CachedResponse B) (now later : ℕ)
      (s : IdempotencyStore B)
      → header_key header ≡ some key
      → (get key now s).0 ≡ some r
      → (middleware header fresh now later s).0 ≡ (r, false)
  unfolding middleware
  middleware-hit header key fresh r now later s h e = ground arith

  middleware-miss :
      (header : Header) (key : Text) (fresh : CachedResponse B) (now later : ℕ)
      (s : IdempotencyStore B)
      → header_key header ≡ some key
      → (get key now s).0 ≡ none
      → ((middleware header fresh now later s).0 ≡ (fresh, true))
        × ((middleware header fresh now later s).1 ≡ (
            if leb 200 fresh.status_code && ltb fresh.status_code 300
            then set key fresh later (get key now s).1
            else (get key now s).1))
  unfolding middleware
  middleware-miss header key fresh now later s h e = ground arith

  middleware-bare :
      (header : Header) (fresh : CachedResponse B) (now later : ℕ) (s : IdempotencyStore B)
      → header_key header ≡ none
      → middleware header fresh now later s ≡ ((fresh, true), s)
  unfolding middleware
  middleware-bare header fresh now later s h = ground arith

  -- Once a request with a key has succeeded, a second one with that key gets the first response,
  -- and its handler does not run, until the time to live is over.
  pub middleware_replays :
      (header : Header) (key : Text) (first second : CachedResponse B) (now done later end : ℕ)
      (s : IdempotencyStore B)
      → header_key header ≡ some key
      → (get key now s).0 ≡ none
      → 200 ≤ first.status_code
      → first.status_code < 300
      → later ≤ done + s.ttl_ms
      → (middleware header second later end (middleware header first now done s).1).0
        ≡ (first, false)
  middleware_replays header key first second now done later end s h fresh lo hi t =
      let (_, stored) = middleware-miss header key first now done s h fresh in
      middleware-hit header key second first later end (middleware header first now done s).1 h (
        ground (
          arith,
          stored,
          response-get-set key key first done later (get key now s).1,
          text_beq_iff key key,
          get-ttl_ms key now s,
        ))

  -- A response that is not a success is not kept: if the handler ran and failed, it runs again for
  -- the next request.
  pub middleware_retries :
      (header : Header) (first second : CachedResponse B) (now done later end : ℕ)
      (s : IdempotencyStore B)
      → (middleware header first now done s).0.1 ≡ true
      → 300 ≤ first.status_code
      → (middleware header second later end (middleware header first now done s).1).0
        ≡ (second, true)
  middleware_retries header first second now done later end s ran bad =
      elim (Option-cases (header_key header)) [
        | inl h ↦
            ap (λ p. p.0)
              (middleware-bare header second later end (middleware header first now done s).1 h)
        | inr (key, h) ↦ elim (Option-cases (get key now s).0) [
          | inr (r, hit) ↦ ground (arith, middleware-hit header key first r now done s h hit)
          | inl miss ↦
              let (_, kept) = middleware-miss header key first now done s h miss in
              let same : (middleware header first now done s).1 ≡ (get key now s).1 =
                ground (arith, kept) in
              (middleware-miss header key second later end (middleware header first now done s).1 h
                (ap (λ r. (get key later r).0) same ∙ get_twice key now later s miss)).0
        ]
      ]

  -- In the last millisecond of its time to live an entry is still returned, and no longer counted:
  -- `clearExpired` would delete it.
  pub last_millisecond :
      (key : Text) (r : CachedResponse B) (now ttl : ℕ)
      → let s = set key r now (record { ttl_ms = ttl; store = [] }) in
        ((get key (now + ttl) s).0 ≡ some r)
        × (size (now + ttl) s ≡ 0)
        × ((get key (now + ttl) (clear_expired (now + ttl) s)).0 ≡ none)
  unfolding get set size clear_expired Table.get Table.set
  last_millisecond key r now ttl =
      (ground (arith, text_beq_iff key key), ground arith, ground arith)
