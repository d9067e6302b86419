-- ===== src/Vault/ChangePassword.antt =====
-- `changePassword` of packages/core-sdk/src/storage/secure-storage-manager.ts, with its writes as a list,
-- in their order.
use ancore.Common.{
  ℕ, zero, suc, ◌+◌, Option, none, some, List, [], ◌∷◌, ◌++◌, Text, text_eq, if◌then◌else◌,
}
use ancore.Common.Table
use ancore.Common.Table.{Table}
use ancore.Vault.Manager.{
  Crypto, Stored, bytes, payload, master_salt_storage_key, verification_payload_storage_key,
  default_data_keys, Manager, unique, load_master_salt, read_encrypted_payload, write_all, lock,
  touch,
}
use ancore.Vault.Operations.{decrypt_data, verify_password, with_key}

-- The items in plain text, or the first key whose payload is unreadable.
pub data Decrypted : Type 0 where
  items : Table Text Text → Decrypted
  unreadable : Text → Decrypted

abbrev pub and_item : Text → Text → Decrypted → Decrypted
and_item key text (items ts) = items ((key, text) ∷ ts)
and_item key text (unreadable k) = unreadable k

-- The result: the password was changed, or it was refused, or an item is unreadable, an error.
pub data Changed : Type 0 where
  changed refused : Changed
  cannot_change : Text → Changed

-- The storage where the process ends after the first writes, this many.
unfoldable pub interrupted :
    {Payload : Type 0}
    → ℕ
    → Table Text (Stored Payload)
    → Table Text (Stored Payload)
    → Table Text (Stored Payload)
interrupted zero ws storage = storage
interrupted (suc n) [] storage = storage
interrupted (suc n) ((k, v) ∷ ws) storage = interrupted n ws (Table.set k v storage)

module _ {Key Payload : Type 0} (c : Crypto Key Payload) where
  unfoldable pub decrypt_all : Manager Key Payload → List Text → Decrypted
  unfolding decrypt_data read_encrypted_payload
  decrypt_all m [] = items []
  decrypt_all m (key ∷ keys) =
      let rest = decrypt_all m keys in
      elim (read_encrypted_payload key m.storage) [
        | none ↦ rest
        | some p ↦ elim (decrypt_data c m p) [
          | none ↦ unreadable key
          | some t ↦ and_item key t rest
        ]
      ]

  -- The items under the new key, with the draws for the first of them and the ones after it.
  unfoldable pub encrypt_all : Key → (ℕ → ℕ) → ℕ → Table Text Text → Table Text (Stored Payload)
  encrypt_all k draws i [] = []
  encrypt_all k draws i ((key, t) ∷ ts) =
      (key, payload (c.encrypt k (draws i) t)) ∷ encrypt_all k draws (i + 1) ts

  -- All writes: the items, the verification payload, and the master salt last.
  unfoldable pub rekey_writes :
      Key → List ℕ → (ℕ → ℕ) → ℕ → Text → Table Text Text → Table Text (Stored Payload)
  unfolding encrypt_all
  rekey_writes k fresh draws drawn verification ts =
      encrypt_all k draws 0 ts
      ++ ((verification_payload_storage_key, payload (c.encrypt k drawn verification))
          ∷ (master_salt_storage_key, bytes fresh)
          ∷ [])

module _ {Key Payload : Type 0} (c : Crypto Key Payload) (auto_lock_ms : Option ℕ) where
  -- From the items on.
  unfoldable pub rekey :
      Text
      → ℕ
      → List ℕ
      → (ℕ → ℕ)
      → ℕ
      → Text
      → Manager Key Payload
      → Decrypted
      → Changed × Manager Key Payload
  unfolding rekey_writes write_all lock touch
  rekey new_password now fresh draws drawn verification m (unreadable key) =
      (cannot_change key, lock m)
  rekey new_password now fresh draws drawn verification m (items ts) =
      let k = c.derive_encryption_key new_password fresh in
      (
        changed,
        touch auto_lock_ms now (record {
          encryption_key = some k;
          auto_lock_timer = m.auto_lock_timer;
          storage = write_all (rekey_writes c k fresh draws drawn verification ts) m.storage;
        }),
      )

  unfoldable pub change_password :
      Text
      → Text
      → List Text
      → ℕ
      → List ℕ
      → (ℕ → ℕ)
      → ℕ
      → Text
      → Manager Key Payload
      → Changed × Manager Key Payload
  unfolding load_master_salt lock verify_password unique decrypt_all rekey
  change_password current_password new_password additional_keys now fresh draws drawn verification
        m =
      elim (load_master_salt m.storage) [
        | none ↦ (refused, m)
        | some salt ↦
            let keyed = with_key (c.derive_encryption_key current_password salt) (lock m) in
            let (valid, verified) = verify_password c keyed in
            if valid
            then rekey new_password now fresh draws drawn verification verified
                (decrypt_all c verified (unique [] (default_data_keys ++ additional_keys)))
            else (refused, lock verified)
      ]
