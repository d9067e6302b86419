-- ===== src/Examples/Store.antt =====
-- A nonce that is tracked, and a response that is kept.
use ancore.Common.{
  trim, trim_start, trim_end, is_space, true, false, none, some, [], Text, codes, ◌≡◌, refl, arith,
  text_eq,
}
use ancore.Common.Table
use ancore.Store.NonceStore.{MemoryNonceStore, new_store}
use ancore.Store.Replay.{StoreInv}
use ancore.Store.Idempotency.{CachedResponse, IdempotencyStore, single, header_key, get, middleware}
use ancore.Store.Cache.{middleware_replays}

abbrev key : Text
key = codes "session"

abbrev store : MemoryNonceStore
store = new_store 300000

store-StoreInv : StoreInv store
unfolding Table.get
store-StoreInv = record { keys = tt; each = λ k m h. cc }

abbrev relayed : CachedResponse Text
relayed = record { status_code = 200; body = codes "relayed" }

abbrev refused : CachedResponse Text
refused = record { status_code = 400; body = codes "refused" }

abbrev cache : IdempotencyStore Text
cache = record { ttl_ms = 300000; store = [] }

header_key-single : header_key (single (codes " k ")) ≡ some (codes "k")
unfolding header_key trim trim_start trim_end is_space
header_key-single = refl

absent : (get (codes "k") 1000 cache).0 ≡ none
unfolding get Table.get
absent = refl

middleware_replays_example :
    (middleware
      (single (codes " k "))
      refused
      2000
      2000
      (middleware (single (codes " k ")) relayed 1000 1100 cache).1).0
    ≡ (relayed, false)
middleware_replays_example =
    middleware_replays (single (codes " k ")) (codes "k") relayed refused 1000 1100 2000 2000 cache
      header_key-single absent (omega arith) (omega arith) (omega arith)

ran : (middleware (single (codes " k ")) refused 1000 1100 cache).0.1 ≡ true
unfolding middleware header_key trim trim_start trim_end is_space get Table.get
ran = refl
