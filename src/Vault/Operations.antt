-- ===== src/Vault/Operations.antt =====
-- packages/core-sdk/src/storage/secure-storage-manager.ts: how the vault is unlocked, and its items.
use ancore.Common.{
  ℕ, Bool, true, false, Option, none, some, List, [], ◌∷◌, Text, text_eq, if◌then◌else◌,
}
use ancore.Common.Table
use ancore.Common.Table.{Table}
use ancore.Vault.Manager.{
  Crypto, bytes, payload, master_salt_storage_key, verification_payload_storage_key, Manager,
  load_master_salt, read_encrypted_payload, write_all, touch,
}

module _ {Key Payload : Type 0} where
  abbrev pub with_key : Key → Manager Key Payload → Manager Key Payload
  with_key k m = record {
    encryption_key = some k;
    auto_lock_timer = m.auto_lock_timer;
    storage = m.storage;
  }

module _ {Key Payload : Type 0} (c : Crypto Key Payload) where
  -- `none` is an error. The manager without a key is locked.
  unfoldable pub decrypt_data : Manager Key Payload → Payload → Option Text
  decrypt_data m p = elim m.encryption_key [ none ↦ none | some k ↦ c.decrypt k p ]

  unfoldable pub verify_password : Manager Key Payload → Bool × Manager Key Payload
  unfolding decrypt_data read_encrypted_payload
  verify_password m = elim (read_encrypted_payload verification_payload_storage_key m.storage) [
    | none ↦ (false, m)
    | some p ↦ elim (decrypt_data m p) [
      | some t ↦ (true, m)
      | none ↦ (
        false,
        record { encryption_key = none; auto_lock_timer = m.auto_lock_timer; storage = m.storage },
      )
    ]
  ]

-- What `unlock` and the items do, by the cryptography and the option `autoLockMs`.
module _ {Key Payload : Type 0} (c : Crypto Key Payload) (auto_lock_ms : Option ℕ) where
  abbrev pub touched : ℕ → Bool × Manager Key Payload → Bool × Manager Key Payload
  touched now (valid, m) = (valid, if valid then touch auto_lock_ms now m else m)

  -- The first run: the salt is `fresh`, and `verification` the content with its marker and its time.
  unfoldable pub create_vault :
      Text → ℕ → List ℕ → ℕ → Text → Manager Key Payload → Bool × Manager Key Payload
  unfolding touch write_all
  create_vault password now fresh drawn verification m =
      let k = c.derive_encryption_key password fresh in
      (
        true,
        touch auto_lock_ms now (record {
          encryption_key = some k;
          auto_lock_timer = m.auto_lock_timer;
          storage =
              write_all
                ((verification_payload_storage_key, payload (c.encrypt k drawn verification))
                  ∷ (master_salt_storage_key, bytes fresh)
                  ∷ [])
                m.storage;
        }),
      )

  unfoldable pub unlock :
      Text → ℕ → List ℕ → ℕ → Text → Manager Key Payload → Bool × Manager Key Payload
  unfolding touch load_master_salt verify_password create_vault
  unlock password now fresh drawn verification m = elim m.encryption_key [
    | some k ↦ (true, touch auto_lock_ms now m)
    | none ↦ elim (load_master_salt m.storage) [
      | none ↦ create_vault password now fresh drawn verification m
      | some salt ↦
          touched now (verify_password c (with_key (c.derive_encryption_key password salt) m))
    ]
  ]

  -- `none` is an error: the manager is locked.
  unfoldable pub save_item :
      Text → Text → ℕ → ℕ → Manager Key Payload → Option (Manager Key Payload)
  unfolding touch
  save_item key value now drawn m = elim m.encryption_key [
    | none ↦ none
    | some k ↦ some (
        touch auto_lock_ms now (record {
          encryption_key = some k;
          auto_lock_timer = m.auto_lock_timer;
          storage = Table.set key (payload (c.encrypt k drawn value)) m.storage;
        }))
  ]

  -- `none` is an error. What is read is `none` for a key with no payload, or with one that another
  -- key encrypted.
  unfoldable pub get_item :
      Text → ℕ → Manager Key Payload → Option (Option Text × Manager Key Payload)
  unfolding touch decrypt_data read_encrypted_payload
  get_item key now m = elim m.encryption_key [
    | none ↦ none
    | some k ↦ elim (read_encrypted_payload key m.storage) [
      | none ↦ some (none, m)
      | some p ↦ elim (decrypt_data c m p) [
        | none ↦ some (none, m)
        | some t ↦ some (some t, touch auto_lock_ms now m)
      ]
    ]
  ]
