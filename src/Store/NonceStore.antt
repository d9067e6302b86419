-- ===== src/Store/NonceStore.antt =====
-- services/relayer/src/store/nonceStore.ts: the nonces that each session key has used, with the time
-- at which they are forgotten. The log and the metrics are left out.
use ancore.Common.{
  ℕ, ◌+◌, Bool, true, false, not, Option, none, some, [], ◌∷◌, Text, ℤ, ltb, length, if◌then◌else◌,
  text_eq, int_eq,
}
use ancore.Common.Table
use ancore.Common.Table.{Table}

pub record MemoryNonceStore : Type 0 where
  pub ttl_ms : ℕ
  pub seen : Table Text (Table ℤ ℕ)

abbrev pub default_ttl_ms : ℕ
default_ttl_ms = 300000

abbrev pub new_store : ℕ → MemoryNonceStore
new_store ttl_ms = record { ttl_ms = ttl_ms; seen = [] }

-- The loop that deletes the expired entries of one key.
unfoldable pub drop_expired : ℕ → Table ℤ ℕ → Table ℤ ℕ
drop_expired now [] = []
drop_expired now ((nonce, expires_at) ∷ m) =
    if ltb expires_at now then drop_expired now m else (nonce, expires_at) ∷ drop_expired now m

-- A key with no nonce left is deleted.
unfoldable pub put_back : Text → Table ℤ ℕ → Table Text (Table ℤ ℕ) → Table Text (Table ℤ ℕ)
put_back key [] seen = Table.delete key seen
put_back key (n ∷ m) seen = Table.set key (n ∷ m) seen

unfoldable pub evict_expired : Text → ℕ → MemoryNonceStore → MemoryNonceStore
evict_expired key now s = elim (Table.get key s.seen) [
  | none ↦ s
  | some m ↦ record s { seen = put_back key (drop_expired now m) s.seen }
]

-- The nonces of a key, as the store holds them.
abbrev pub entries : Option (Table ℤ ℕ) → Table ℤ ℕ
entries none = []
entries (some m) = m

abbrev pub nonces : Text → MemoryNonceStore → Table ℤ ℕ
nonces key s = entries (Table.get key s.seen)

abbrev pub holds : ℤ → Table ℤ ℕ → Bool
holds nonce m = elim (Table.get nonce m) [ none ↦ false | some t ↦ true ]

-- `assertFresh`: the store after the eviction, and whether the nonce is fresh. If not, the source
-- throws `Nonce already used`.
unfoldable pub assert_fresh : Text → ℤ → ℕ → MemoryNonceStore → Bool × MemoryNonceStore
assert_fresh key nonce now s =
    let s' = evict_expired key now s in (not (holds nonce (nonces key s')), s')

-- `track`: the clock is read once for the eviction and once for the entry.
unfoldable pub track : Text → ℤ → ℕ → ℕ → MemoryNonceStore → MemoryNonceStore
track key nonce now stamp s =
    let s' = evict_expired key now s in
    record s' { seen = Table.set key (Table.set nonce (stamp + s'.ttl_ms) (nonces key s')) s'.seen }

unfoldable pub size : Text → ℕ → MemoryNonceStore → ℕ × MemoryNonceStore
size key now s = let s' = evict_expired key now s in (length (nonces key s'), s')

-- `clearExpired`: the loop over all keys.
unfoldable pub drop_all_expired : ℕ → Table Text (Table ℤ ℕ) → Table Text (Table ℤ ℕ)
drop_all_expired now [] = []
drop_all_expired now ((key, m) ∷ seen) = elim (drop_expired now m) [
  | [] ↦ drop_all_expired now seen
  | n ∷ m' ↦ (key, n ∷ m') ∷ drop_all_expired now seen
]

unfoldable pub clear_expired : ℕ → MemoryNonceStore → MemoryNonceStore
clear_expired now s = record s { seen = drop_all_expired now s.seen }
