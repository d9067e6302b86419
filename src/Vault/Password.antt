-- ===== src/Vault/Password.antt =====
-- What `changePassword` of packages/core-sdk/src/storage/secure-storage-manager.ts keeps, and what is
-- left where it is interrupted.
use ancore.Common.{
  ℕ, suc, true, false, Option, none, some, List, [], ◌++◌, Text, text_eq, if◌then◌else◌, ◌≡◌, ◌≢◌,
  refl, sym, ap, ◌∙◌, subst, arith, length, ◌==◌, ◌⊎◌, inl, inr, Mem,
}
use ancore.Common.Table
use ancore.Common.Table.{Table, get-set, get-set_self, get-set_ne}
use ancore.Vault.Manager.{
  Crypto, Stored, bytes, payload, master_salt_storage_key, verification_payload_storage_key,
  default_data_keys, Manager, unique, salt_of, payload_of, load_master_salt, read_encrypted_payload,
  write_all, lock, touch,
}
use ancore.Vault.Operations.{with_key, verify_password, unlock, get_item}
use ancore.Vault.ChangePassword.{
  Decrypted, items, unreadable, Changed, changed, cannot_change, decrypt_all, encrypt_all,
  rekey_writes, rekey, change_password, interrupted,
}
use ancore.Vault.Opening.{
  Sound, VaultOf, read-set, verify-right, unlock-right, unlock-wrong, get-read, touch-storage,
  touch-key,
}
use ancore.Vault.Rekeying.{
  opened, plain, items-plain, plain-items, encrypt_all-read, write_all-append,
}
use ancore.Vault.Left.{opened-some, keys_differ, left, left-VaultOf, interrupted-encrypt_all}

-- The calls of `changePassword` on the vault of the current password.
module _ {Key Payload : Type 0} (c : Crypto Key Payload) (sound : Sound c) (auto_lock_ms : Option ℕ)
    (current_password new_password : Text) (additional_keys : List Text) (now : ℕ) (fresh : List ℕ)
    (draws : ℕ → ℕ) (drawn : ℕ) (verification : Text) (salt : List ℕ) (m : Manager Key Payload)
    (vault : VaultOf c salt (c.derive_encryption_key current_password salt) m.storage) where
  abbrev old_key : Key
  old_key = c.derive_encryption_key current_password salt

  abbrev new_key : Key
  new_key = c.derive_encryption_key new_password fresh

  abbrev data_keys : List Text
  data_keys = unique [] (default_data_keys ++ additional_keys)

  abbrev result : Changed × Manager Key Payload
  result =
      change_password c auto_lock_ms current_password new_password additional_keys now fresh draws
        drawn verification m

  verified_lem : verify_password c (with_key old_key (lock m)) ≡ (true, with_key old_key (lock m))
  unfolding lock
  verified_lem =
      verify-right c old_key (lock m) (c.encrypt old_key vault.drawn vault.verification)
        vault.verification vault.verified
        (sound.decrypt-encrypt old_key vault.drawn vault.verification)

  result_lem :
      result
      ≡ rekey c auto_lock_ms new_password now fresh draws drawn verification
          (with_key old_key (lock m))
          (decrypt_all c (with_key old_key (lock m)) data_keys)
  unfolding change_password lock
  result_lem = rw (vault.salted, change_password, verified_lem) refl

  Decrypted-cases :
      (d : Decrypted)
      → ((ts : Table Text Text) × (d ≡ items ts)) ⊎ ((k : Text) × (d ≡ unreadable k))
  Decrypted-cases (items ts) = inl (ts, refl)
  Decrypted-cases (unreadable k) = inr (k, refl)

  abbrev kept : Table Text Text → Table Text (Stored Payload)
  kept ts = write_all (rekey_writes c new_key fresh draws drawn verification ts) m.storage

  abbrev rekeyed : Table Text Text → Manager Key Payload
  rekeyed ts = record { encryption_key = some new_key; auto_lock_timer = none; storage = kept ts }

  -- What a change that went through has made of the manager.
  changed_lem :
      result.0 ≡ changed
      → (ts : Table Text Text) × (decrypt_all c (with_key old_key (lock m)) data_keys ≡ items ts)
        × (result.1.encryption_key ≡ some new_key)
        × (result.1.storage ≡ kept ts)
  unfolding rekey lock
  changed_lem e = elim (Decrypted-cases (decrypt_all c (with_key old_key (lock m)) data_keys)) [
    | inl (ts, d) ↦
        let eq =
          result_lem
          ∙ ap
              (rekey c auto_lock_ms new_password now fresh draws drawn verification
                (with_key old_key (lock m)))
              d in
        (
          ts,
          d,
          ap (λ x. x.1.encryption_key) eq ∙ touch-key auto_lock_ms now (rekeyed ts),
          ap (λ x. x.1.storage) eq ∙ touch-storage auto_lock_ms now (rekeyed ts),
        )
    | inr (k, d) ↦
        let eq =
          result_lem
          ∙ ap
              (rekey c auto_lock_ms new_password now fresh draws drawn verification
                (with_key old_key (lock m)))
              d in
        absurd (let z : cannot_change k ≡ changed = sym (ap (λ x. x.0) eq) ∙ e in cc)
  ]

  abbrev items_left : Table Text Text → Table Text (Stored Payload)
  items_left ts = write_all (encrypt_all c new_key draws 0 ts) m.storage

  kept_lem :
      (ts : Table Text Text)
      → kept ts
        ≡ Table.set master_salt_storage_key
            (bytes fresh)
            (left c new_key draws drawn verification ts m.storage)
  unfolding rekey_writes write_all
  kept_lem ts = write_all-append (encrypt_all c new_key draws 0 ts) _ m.storage

  kept-VaultOf : (ts : Table Text Text) → length fresh ≡ 16 → VaultOf c fresh new_key (kept ts)
  unfolding load_master_salt read_encrypted_payload
  kept-VaultOf ts h =
      let before = left c new_key draws drawn verification ts m.storage in
      subst (VaultOf c fresh new_key) (sym (kept_lem ts)) (record {
        drawn = drawn;
        verification = verification;
        salted =
            ap salt_of (get-set_self master_salt_storage_key (bytes fresh) before)
            ∙ (let z : (if length fresh == 16 then some fresh else none) ≡ some fresh =
                  ground arith in
                z);
        verified =
            ap payload_of (
              get-set_ne verification_payload_storage_key master_salt_storage_key (bytes fresh)
                before (λ e. keys_differ (sym e)))
            ∙ read-set c verification_payload_storage_key (c.encrypt new_key drawn verification)
                (items_left ts);
      })

  kept-items :
      (ts : Table Text Text) (key : Text)
      → key ≢ master_salt_storage_key
      → key ≢ verification_payload_storage_key
      → read_encrypted_payload key (
          Table.set master_salt_storage_key
            (bytes fresh)
            (left c new_key draws drawn verification ts m.storage))
        ≡ read_encrypted_payload key (items_left ts)
  unfolding read_encrypted_payload
  kept-items ts key a b = ap payload_of (
      get-set_ne key master_salt_storage_key (bytes fresh)
        (left c new_key draws drawn verification ts m.storage) (λ e. a (sym e))
      ∙ get-set_ne key verification_payload_storage_key
          (payload (c.encrypt new_key drawn verification)) (items_left ts) (λ e. b (sym e)))

  -- An item is under the new key what it was under the old one.
  kept-read :
      (ts : Table Text Text) (key t : Text)
      → decrypt_all c (with_key old_key (lock m)) data_keys ≡ items ts
      → key ≢ master_salt_storage_key
      → key ≢ verification_payload_storage_key
      → Mem key data_keys
      → plain c old_key key m.storage ≡ some t
      → plain c new_key key (kept ts) ≡ some t
  unfolding lock
  kept-read ts key t d a b named_ p =
      ap (opened c new_key) (ap (read_encrypted_payload key) (kept_lem ts) ∙ kept-items ts key a b)
      ∙ encrypt_all-read c (λ o. opened c new_key o ≡ some t) new_key draws 0 ts m.storage key
          (λ n s h.
            sound.decrypt-encrypt new_key n s
            ∙ sym (items-plain c old_key (lock m) data_keys ts key s d h)
            ∙ p)
          (inr (t, plain-items c old_key (lock m) data_keys ts key t d p named_))

  interrupted_lem :
      (ts : Table Text Text)
      → interrupted
          (suc (length ts))
          (rekey_writes c new_key fresh draws drawn verification ts)
          m.storage
        ≡ left c new_key draws drawn verification ts m.storage
  unfolding rekey_writes
  interrupted_lem ts = interrupted-encrypt_all c new_key draws 0 ts _ _ _ m.storage

  -- After a change with a salt of 16 bytes, the new password opens the vault, and an item that is named,
  -- other than the salt and the verification payload, is read as before. The old password is refused,
  -- where its key under the new salt is another one.
  pub change_password-changed :
      (key t : Text) (later : ℕ) (drawn' : ℕ) (fresh' : List ℕ) (verification' : Text)
      → length fresh ≡ 16
      → c.derive_encryption_key current_password fresh ≢ c.derive_encryption_key new_password fresh
      → Mem key (unique [] (default_data_keys ++ additional_keys))
      → key ≢ master_salt_storage_key
      → key ≢ verification_payload_storage_key
      → plain c (c.derive_encryption_key current_password salt) key m.storage ≡ some t
      → result.0 ≡ changed
      → let (opens, m') =
          unlock c auto_lock_ms new_password later fresh' drawn' verification' (lock result.1) in
        (opens ≡ true)
        × ((r : Manager Key Payload) × (get_item c auto_lock_ms key later m' ≡ some (some t, r)))
        × ((unlock c auto_lock_ms current_password later fresh' drawn' verification'
              (lock result.1)).0
            ≡ false)
  unfolding lock
  change_password-changed key t later drawn' fresh' verification' h differ named_ a b p e =
      let (ts, d, k, st) = changed_lem e in
      let vault' : VaultOf c fresh new_key result.1.storage =
        subst (VaultOf c fresh new_key) (sym st) (kept-VaultOf ts h) in
      let read = kept-read ts key t d a b named_ p in
      let m'' = touch auto_lock_ms later (with_key new_key (lock result.1)) in
      let (pay, r, o) = opened-some c new_key (read_encrypted_payload key (kept ts)) t read in
      subst
        (λ x.
          (x.0 ≡ true)
          × ((r : Manager Key Payload) × (get_item c auto_lock_ms key later x.1 ≡ some (some t, r)))
          × ((unlock c auto_lock_ms current_password later fresh' drawn' verification'
                (lock result.1)).0
              ≡ false))
        (sym (
          unlock-right c sound auto_lock_ms later fresh' drawn' verification' new_password fresh
            (lock result.1) refl vault'))
        (
          refl,
          (
            touch auto_lock_ms later m'',
            get-read c sound auto_lock_ms later fresh' drawn' verification' key t later new_key pay
                m'' (touch-key auto_lock_ms later (with_key new_key (lock result.1)))
                (ap (read_encrypted_payload key)
                    (touch-storage auto_lock_ms later (with_key new_key (lock result.1)) ∙ st)
                  ∙ r)
                o,
          ),
          ap (λ x. x.0)
              (unlock-wrong c sound auto_lock_ms later fresh' drawn' verification' current_password
                fresh new_key (lock result.1) refl vault' differ),
        )

  -- Where the process ends before the last write, no password opens the vault any more, but for one
  -- whose key of the old salt is the new key.
  pub change_password-interrupted :
      (password : Text) (later : ℕ) (drawn' : ℕ) (fresh' : List ℕ) (verification' : Text)
      (ts : Table Text Text)
      → decrypt_all c
          (with_key (c.derive_encryption_key current_password salt) m)
          (unique [] (default_data_keys ++ additional_keys))
        ≡ items ts
      → c.derive_encryption_key password salt ≢ c.derive_encryption_key new_password fresh
      → let ws =
          rekey_writes c
            (c.derive_encryption_key new_password fresh)
            fresh
            draws
            drawn
            verification
            ts in
        (unlock c auto_lock_ms password later fresh' drawn' verification' (record {
          encryption_key = none;
          auto_lock_timer = none;
          storage = interrupted (suc (length ts)) ws m.storage;
        })).0
        ≡ false
  change_password-interrupted password later drawn' fresh' verification' ts d differ =
      ap
        (λ x.
          (unlock c auto_lock_ms password later fresh' drawn' verification'
            (record { encryption_key = none; auto_lock_timer = none; storage = x })).0)
        (interrupted_lem ts)
      ∙ ap (λ x. x.0)
          (unlock-wrong c sound auto_lock_ms later fresh' drawn' verification' password salt new_key
            (record {
              encryption_key = none;
              auto_lock_timer = none;
              storage = left c new_key draws drawn verification ts m.storage;
            })
            refl
            (left-VaultOf c old_key new_key salt draws drawn verification m data_keys ts
              vault.salted d)
            differ)
