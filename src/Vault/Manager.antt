-- ===== src/Vault/Manager.antt =====
-- packages/core-sdk/src/storage/secure-storage-manager.ts. Web Crypto is a parameter, and so is what is
-- drawn: salts, and the salt and the vector of each encryption as one number. A text of the storage is
-- kept as what it decodes to. A value that is saved is its JSON text. Each operation runs to its end
-- before the next.
use ancore.Common.{
  ℕ, ◌+◌, Bool, true, false, Option, none, some, List, [], ◌∷◌, ◌++◌, Text, codes, text_eq, length,
  if◌then◌else◌, leb, ◌==◌, text_beq,
}
use ancore.Common.Table
use ancore.Common.Table.{Table}

-- What the class calls of `crypto.subtle`: the base key of a password and a master salt, and AES-GCM
-- under a key that is derived from a base key.
pub record Crypto (Key Payload : Type 0) : Type 0 where
  pub derive_encryption_key : Text → List ℕ → Key
  pub encrypt : Key → ℕ → Text → Payload
  pub decrypt : Key → Payload → Option Text

-- Bytes in base 64, a payload in JSON, or another text.
pub data Stored (Payload : Type 0) : Type 0 where
  bytes : List ℕ → Stored Payload
  payload : Payload → Stored Payload
  other : Stored Payload

abbrev pub master_salt_storage_key : Text
master_salt_storage_key = codes "master_salt"

abbrev pub verification_payload_storage_key : Text
verification_payload_storage_key = codes "verification_payload"

abbrev pub default_data_keys : List Text
default_data_keys = codes "account" ∷ codes "sessionKeys" ∷ codes "recentRecipients" ∷ []

-- `auto_lock_timer` is the time at which the timer fires.
pub record Manager (Key Payload : Type 0) : Type 0 where
  pub encryption_key : Option Key
  pub auto_lock_timer : Option ℕ
  pub storage : Table Text (Stored Payload)

-- The keys of `new Set([...])`, in the order in which they are first named.
abbrev pub named : Text → List Text → Bool
named k [] = false
named k (j ∷ ks) = if text_beq j k then true else named k ks

unfoldable pub unique : List Text → List Text → List Text
unique seen [] = []
unique seen (k ∷ ks) =
    let rest = unique (if named k seen then seen else k ∷ seen) ks in
    if named k seen then rest else k ∷ rest

module _ {Payload : Type 0} where
  -- What the text that is stored gives as a salt, and as a payload.
  abbrev pub salt_of : Option (Stored Payload) → Option (List ℕ)
  salt_of none = none
  salt_of (some (bytes salt)) = if length salt == 16 then some salt else none
  salt_of (some (payload p)) = none
  salt_of (some other) = none

  abbrev pub payload_of : Option (Stored Payload) → Option Payload
  payload_of none = none
  payload_of (some (bytes b)) = none
  payload_of (some (payload p)) = some p
  payload_of (some other) = none

  unfoldable pub load_master_salt : Table Text (Stored Payload) → Option (List ℕ)
  load_master_salt storage = salt_of (Table.get master_salt_storage_key storage)

  unfoldable pub read_encrypted_payload : Text → Table Text (Stored Payload) → Option Payload
  read_encrypted_payload key storage = payload_of (Table.get key storage)

  -- The writes of a list in turn.
  unfoldable pub write_all :
      Table Text (Stored Payload) → Table Text (Stored Payload) → Table Text (Stored Payload)
  write_all [] storage = storage
  write_all ((k, v) ∷ ws) storage = write_all ws (Table.set k v storage)

module _ {Key Payload : Type 0} where
  unfoldable pub has_vault : Manager Key Payload → Bool
  has_vault m = elim (Table.get master_salt_storage_key m.storage) [ none ↦ false | some s ↦ true ]

  unfoldable pub is_unlocked : Manager Key Payload → Bool
  is_unlocked m = elim m.encryption_key [ none ↦ false | some k ↦ true ]

  unfoldable pub lock : Manager Key Payload → Manager Key Payload
  lock m = record { encryption_key = none; auto_lock_timer = none; storage = m.storage }

  -- `autoLockMs` is `none` where it is not positive.
  unfoldable pub touch : Option ℕ → ℕ → Manager Key Payload → Manager Key Payload
  touch auto_lock_ms now m = elim m.encryption_key [
    | none ↦ m
    | some k ↦ elim auto_lock_ms [
      | none ↦ m
      | some ms ↦ record {
        encryption_key = m.encryption_key;
        auto_lock_timer = some (now + ms);
        storage = m.storage;
      }
    ]
  ]

  -- The timer, where its time has come.
  unfoldable pub run_timer : ℕ → Manager Key Payload → Manager Key Payload
  unfolding lock
  run_timer now m = elim m.auto_lock_timer [ none ↦ m | some at ↦ if leb at now then lock m else m ]

  unfoldable pub delete_item : Text → Manager Key Payload → Manager Key Payload
  delete_item key m = record {
    encryption_key = m.encryption_key;
    auto_lock_timer = m.auto_lock_timer;
    storage = Table.delete key m.storage;
  }

  unfoldable pub delete_all : List Text → Manager Key Payload → Manager Key Payload
  unfolding delete_item
  delete_all [] m = m
  delete_all (k ∷ ks) m = delete_all ks (delete_item k m)

  unfoldable pub reset : List Text → Manager Key Payload → Manager Key Payload
  unfolding lock delete_all unique
  reset additional_keys m = lock (
      delete_all
        (unique [] (
          master_salt_storage_key
          ∷ verification_payload_storage_key
          ∷ (default_data_keys ++ additional_keys)))
        m)
