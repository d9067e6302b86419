-- ===== src/Store/Idempotency.antt =====
-- services/relayer/src/store/idempotency.ts and services/relayer/src/middleware/idempotency.ts.
use ancore.Common.{
  ℕ, ◌+◌, Bool, true, false, ◌&&◌, Option, none, some, List, [], ◌∷◌, Text, ltb, leb, if◌then◌else◌,
  trim, text_eq,
}
use ancore.Common.Table
use ancore.Common.Table.{Table}

pub record CachedResponse (B : Type 0) : Type 0 where
  pub status_code : ℕ
  pub body : B

pub record Entry (B : Type 0) : Type 0 where
  pub response : CachedResponse B
  pub expires_at : ℕ

pub record IdempotencyStore (B : Type 0) : Type 0 where
  pub ttl_ms : ℕ
  pub store : Table Text (Entry B)

module _ {B : Type 0} where
  unfoldable pub get :
      Text → ℕ → IdempotencyStore B → Option (CachedResponse B) × IdempotencyStore B
  get key now s = elim (Table.get key s.store) [
    | none ↦ (none, s)
    | some entry ↦
        if ltb entry.expires_at now
        then (none, record s { store = Table.delete key s.store })
        else (some entry.response, s)
  ]

  unfoldable pub set : Text → CachedResponse B → ℕ → IdempotencyStore B → IdempotencyStore B
  set key response now s = record s {
    store = Table.set key (record { response = response; expires_at = now + s.ttl_ms }) s.store;
  }

  unfoldable pub count_live : ℕ → Table Text (Entry B) → ℕ
  count_live now [] = 0
  count_live now ((key, entry) ∷ m) =
      if ltb now entry.expires_at then count_live now m + 1 else count_live now m

  unfoldable pub size : ℕ → IdempotencyStore B → ℕ
  unfolding count_live
  size now s = count_live now s.store

  unfoldable pub drop_expired : ℕ → Table Text (Entry B) → Table Text (Entry B)
  drop_expired now [] = []
  drop_expired now ((key, entry) ∷ m) =
      if leb entry.expires_at now then drop_expired now m else (key, entry) ∷ drop_expired now m

  unfoldable pub clear_expired : ℕ → IdempotencyStore B → IdempotencyStore B
  unfolding drop_expired
  clear_expired now s = record s { store = drop_expired now s.store }

-- The `idempotency-key` header: missing, one text, or several.
pub data Header : Type 0 where
  missing : Header
  single : Text → Header
  several : List Text → Header

-- The trimmed key, where the header is a single text that is not blank.
unfoldable pub header_key : Header → Option Text
header_key missing = none
header_key (several texts) = none
header_key (single raw) = elim (trim raw) [ [] ↦ none | c ∷ key ↦ some (c ∷ key) ]

module _ {B : Type 0} where
  -- One request through the middleware. The handler behind it, `next`, gives a response; the clock
  -- is read at the lookup and again when the response is stored. The result has the response, and
  -- whether the handler ran.
  unfoldable pub middleware :
      Header
      → CachedResponse B
      → ℕ
      → ℕ
      → IdempotencyStore B
      → (CachedResponse B × Bool) × IdempotencyStore B
  middleware header fresh now later s = elim (header_key header) [
    | none ↦ ((fresh, true), s)
    | some key ↦
        let (cached, s') = get key now s in
        elim cached [
          | some response ↦ ((response, false), s')
          | none ↦ (
            (fresh, true),
            if leb 200 fresh.status_code && ltb fresh.status_code 300
                then set key fresh later s'
                else s',
          )
        ]
  ]
