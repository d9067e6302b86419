-- ===== src/Vault/Opening.antt =====
-- How the vault of packages/core-sdk/src/storage/secure-storage-manager.ts opens, and what it keeps.
use ancore.Common.{
  ℕ, true, false, Option, none, some, List, Text, text_eq, ◌≡◌, ◌≢◌, refl, sym, ap, ◌∙◌, subst,
  arith,
}
use ancore.Common.Table
use ancore.Common.Table.{Table, get-set, get-set_self, get-set_ne}
use ancore.Vault.Manager.{
  Crypto, Stored, payload, master_salt_storage_key, verification_payload_storage_key, Manager,
  salt_of, payload_of, load_master_salt, read_encrypted_payload, lock, touch, is_unlocked,
}
use ancore.Vault.Operations.{
  with_key, decrypt_data, verify_password, touched, unlock, save_item, get_item,
}

-- What is relied on of AES-GCM: a payload is decrypted under its key, and refused under another one.
pub record Sound {Key Payload : Type 0} (c : Crypto Key Payload) : Type 0 where
  pub decrypt-encrypt :
      (k : Key) (drawn : ℕ) (t : Text) → c.decrypt k (c.encrypt k drawn t) ≡ some t
  pub decrypt-encrypt_other :
      (j k : Key) (drawn : ℕ) (t : Text) → j ≢ k → c.decrypt j (c.encrypt k drawn t) ≡ none

module _ {Key Payload : Type 0} (c : Crypto Key Payload) where
  -- The vault is that of a password, whose key encrypted the verification payload.
  pub record VaultOf (salt : List ℕ) (k : Key) (storage : Table Text (Stored Payload))
      : Type 0 where
    pub drawn : ℕ
    pub verification : Text
    pub salted : load_master_salt storage ≡ some salt
    pub verified :
        read_encrypted_payload verification_payload_storage_key storage
        ≡ some (c.encrypt k drawn verification)

  -- A write to a key of its own leaves the vault that of its password.
  pub set-VaultOf :
      (key : Text) (x : Stored Payload) (salt : List ℕ) (k : Key)
      (storage : Table Text (Stored Payload))
      → key ≢ master_salt_storage_key
      → key ≢ verification_payload_storage_key
      → VaultOf salt k storage
      → VaultOf salt k (Table.set key x storage)
  unfolding load_master_salt read_encrypted_payload
  set-VaultOf key x salt k storage a b v = record {
    drawn = v.drawn;
    verification = v.verification;
    salted = ap salt_of (get-set_ne master_salt_storage_key key x storage a) ∙ v.salted;
    verified =
        ap payload_of (get-set_ne verification_payload_storage_key key x storage b) ∙ v.verified;
  }

  pub read-set :
      (key : Text) (p : Payload) (storage : Table Text (Stored Payload))
      → read_encrypted_payload key (Table.set key (payload p) storage) ≡ some p
  unfolding read_encrypted_payload
  read-set key p storage = ap payload_of (get-set_self key (payload p) storage)

  pub verify-right :
      (k : Key) (m : Manager Key Payload) (p : Payload) (t : Text)
      → read_encrypted_payload verification_payload_storage_key m.storage ≡ some p
      → c.decrypt k p ≡ some t
      → verify_password c (with_key k m) ≡ (true, with_key k m)
  unfolding verify_password decrypt_data
  verify-right k m p t r d = rw (r, verify_password, d) refl

  verify-wrong :
      (k : Key) (m : Manager Key Payload) (p : Payload)
      → read_encrypted_payload verification_payload_storage_key m.storage ≡ some p
      → c.decrypt k p ≡ none
      → verify_password c (with_key k m) ≡ (
        false,
        record { encryption_key = none; auto_lock_timer = m.auto_lock_timer; storage = m.storage },
      )
  unfolding verify_password decrypt_data
  verify-wrong k m p r d = rw (r, verify_password, d) refl

module _ {Key Payload : Type 0} (auto_lock_ms : Option ℕ) (now : ℕ) where
  pub touch-storage : (m : Manager Key Payload) → (touch auto_lock_ms now m).storage ≡ m.storage
  unfolding touch
  touch-storage m = ground arith

  pub touch-key :
      (m : Manager Key Payload) → (touch auto_lock_ms now m).encryption_key ≡ m.encryption_key
  unfolding touch
  touch-key m = ground arith

module _ {Key Payload : Type 0} (c : Crypto Key Payload) (sound : Sound c) (auto_lock_ms : Option ℕ)
    (now : ℕ) (fresh : List ℕ) (drawn : ℕ) (verification : Text) where
  unlock-salted :
      (password : Text) (salt : List ℕ) (m : Manager Key Payload)
      → m.encryption_key ≡ none
      → load_master_salt m.storage ≡ some salt
      → unlock c auto_lock_ms password now fresh drawn verification m
        ≡ touched c auto_lock_ms now
            (verify_password c (with_key (c.derive_encryption_key password salt) m))
  unfolding unlock
  unlock-salted password salt m locked salted = rw (locked, unlock, salted) refl

  -- A manager that is locked opens the vault of the password.
  pub unlock-right :
      (password : Text) (salt : List ℕ) (m : Manager Key Payload)
      → m.encryption_key ≡ none
      → VaultOf c salt (c.derive_encryption_key password salt) m.storage
      → unlock c auto_lock_ms password now fresh drawn verification m
        ≡ (true, touch auto_lock_ms now (with_key (c.derive_encryption_key password salt) m))
  unlock-right password salt m locked v =
      unlock-salted password salt m locked v.salted
      ∙ ap (touched c auto_lock_ms now) (
          verify-right c (c.derive_encryption_key password salt) m _ v.verification v.verified
            (sound.decrypt-encrypt _ v.drawn v.verification))

  -- Another password does not: the manager stays locked, and the storage as it is.
  pub unlock-wrong :
      (password : Text) (salt : List ℕ) (k : Key) (m : Manager Key Payload)
      → m.encryption_key ≡ none
      → VaultOf c salt k m.storage
      → c.derive_encryption_key password salt ≢ k
      → unlock c auto_lock_ms password now fresh drawn verification m ≡ (
        false,
        record { encryption_key = none; auto_lock_timer = m.auto_lock_timer; storage = m.storage },
      )
  unlock-wrong password salt k m locked v ne =
      unlock-salted password salt m locked v.salted
      ∙ ap (touched c auto_lock_ms now) (
          verify-wrong c (c.derive_encryption_key password salt) m _ v.verified
            (sound.decrypt-encrypt_other _ k v.drawn v.verification ne))

  unlock-open :
      (password : Text) (k : Key) (m : Manager Key Payload)
      → unlock c auto_lock_ms password now fresh drawn verification (with_key k m)
        ≡ (true, touch auto_lock_ms now (with_key k m))
  unfolding unlock
  unlock-open password k m = refl

  unlock-lost :
      (password : Text) (salt : List ℕ) (m : Manager Key Payload)
      → m.encryption_key ≡ none
      → load_master_salt m.storage ≡ some salt
      → read_encrypted_payload verification_payload_storage_key m.storage ≡ none
      → unlock c auto_lock_ms password now fresh drawn verification m
        ≡ (false, with_key (c.derive_encryption_key password salt) m)
  unfolding verify_password
  unlock-lost password salt m locked salted lost =
      unlock-salted password salt m locked salted
      ∙ ap (touched c auto_lock_ms now) (
          let z : verify_password c (with_key (c.derive_encryption_key password salt) m)
              ≡ (false, with_key (c.derive_encryption_key password salt) m) =
            rw (lost, verify_password) refl in
          z)

  -- Where the verification payload is lost, `unlock` answers that the password is wrong, and leaves the
  -- manager unlocked all the same: the next password is accepted, whatever it is.
  pub unlock-unverified :
      (password guess : Text) (salt : List ℕ) (m : Manager Key Payload)
      → m.encryption_key ≡ none
      → load_master_salt m.storage ≡ some salt
      → read_encrypted_payload verification_payload_storage_key m.storage ≡ none
      → let (opened, m') = unlock c auto_lock_ms password now fresh drawn verification m in
        (opened ≡ false)
        × (is_unlocked m' ≡ true)
        × ((unlock c auto_lock_ms guess now fresh drawn verification m').0 ≡ true)
  unfolding is_unlocked
  unlock-unverified password guess salt m locked salted lost =
      subst
        (λ x.
          (x.0 ≡ false)
          × (is_unlocked x.1 ≡ true)
          × ((unlock c auto_lock_ms guess now fresh drawn verification x.1).0 ≡ true))
        (sym (unlock-lost password salt m locked salted lost))
        (refl, refl, ap (λ x. x.0) (unlock-open guess (c.derive_encryption_key password salt) m))

  save-stored :
      (key value : Text) (saved draws : ℕ) (k : Key) (m m' : Manager Key Payload)
      → m.encryption_key ≡ some k
      → save_item c auto_lock_ms key value saved draws m ≡ some m'
      → m'.storage ≡ Table.set key (payload (c.encrypt k draws value)) m.storage
  unfolding save_item touch
  save-stored key value saved draws k m m' open_ e = ground (arith)

  pub get-read :
      (key t : Text) (later : ℕ) (k : Key) (p : Payload) (m : Manager Key Payload)
      → m.encryption_key ≡ some k
      → read_encrypted_payload key m.storage ≡ some p
      → c.decrypt k p ≡ some t
      → get_item c auto_lock_ms key later m ≡ some (some t, touch auto_lock_ms later m)
  unfolding get_item decrypt_data
  get-read key t later k p m open_ r d = ground arith

  -- An item that was saved is read again once the vault was locked and opened with its password.
  pub get_item-save_item :
      (password key value : Text) (salt : List ℕ) (saved later draws : ℕ)
      (m m' : Manager Key Payload)
      → m.encryption_key ≡ some (c.derive_encryption_key password salt)
      → VaultOf c salt (c.derive_encryption_key password salt) m.storage
      → key ≢ master_salt_storage_key
      → key ≢ verification_payload_storage_key
      → save_item c auto_lock_ms key value saved draws m ≡ some m'
      → let (opened, m'') = unlock c auto_lock_ms password now fresh drawn verification (lock m') in
        (opened ≡ true)
        × ((r : Manager Key Payload) × (get_item c auto_lock_ms key later m''
              ≡ some (some value, r)))
  unfolding lock
  get_item-save_item password key value salt saved later draws m m' open_ v not_salt
        not_verification e =
      let k = c.derive_encryption_key password salt in
      let stored = save-stored key value saved draws k m m' open_ e in
      let same : VaultOf c salt k m'.storage = subst (VaultOf c salt k) (sym stored) (
        set-VaultOf c key (payload (c.encrypt k draws value)) salt k m.storage not_salt
          not_verification v) in
      let opened = unlock-right password salt (lock m') refl same in
      let m'' = touch auto_lock_ms now (with_key k (lock m')) in
      let read : read_encrypted_payload key m''.storage ≡ some (c.encrypt k draws value) =
        ap (read_encrypted_payload key)
          (touch-storage auto_lock_ms now (with_key k (lock m')) ∙ stored)
        ∙ read-set c key (c.encrypt k draws value) m.storage in
      subst
        (λ x.
          (x.0 ≡ true)
          × ((r : Manager Key Payload) × (get_item c auto_lock_ms key later x.1
                ≡ some (some value, r))))
        (sym opened)
        (
          refl,
          (
            touch auto_lock_ms later m'',
            get-read key value later k (c.encrypt k draws value) m''
                (touch-key auto_lock_ms now (with_key k (lock m'))) read
                (sound.decrypt-encrypt k draws value),
          ),
        )
