-- ===== src/Vault/Refusal.antt =====
-- `changePassword` of packages/core-sdk/src/storage/secure-storage-manager.ts where it does not go through.
use ancore.Common.{
  ℕ, Bool, true, false, Option, List, [], ◌++◌, Text, text_eq, if◌then◌else◌, ◌≡◌, ◌≢◌, refl, sym,
  ap, ◌∙◌, subst, arith, Option-cases, inl, inr,
}
use ancore.Common.Table.{Table}
use ancore.Vault.Manager.{
  Crypto, Stored, default_data_keys, Manager, unique, load_master_salt, lock,
}
use ancore.Vault.Operations.{with_key, decrypt_data, verify_password}
use ancore.Vault.ChangePassword.{
  Decrypted, items, unreadable, Changed, changed, refused, decrypt_all, rekey, change_password,
}

-- A change that does not go through has written nothing, whatever the storage holds.
module _ {Key Payload : Type 0} (c : Crypto Key Payload) (auto_lock_ms : Option ℕ) where
  verify-storage : (m : Manager Key Payload) → (verify_password c m).1.storage ≡ m.storage
  unfolding verify_password decrypt_data
  verify-storage m = ground arith

  rekey-storage :
      (new_password : Text) (now : ℕ) (fresh : List ℕ) (draws : ℕ → ℕ) (drawn : ℕ)
      (verification : Text) (m : Manager Key Payload) (d : Decrypted)
      → (rekey c auto_lock_ms new_password now fresh draws drawn verification m d).0 ≢ changed
      → (rekey c auto_lock_ms new_password now fresh draws drawn verification m d).1.storage
        ≡ m.storage
  unfolding rekey lock
  rekey-storage new_password now fresh draws drawn verification m (items ts) h = absurd (h refl)
  rekey-storage new_password now fresh draws drawn verification m (unreadable k) h = refl

  abbrev Unchanged : Table Text (Stored Payload) → Changed × Manager Key Payload → Type 0
  Unchanged storage r = r.0 ≢ changed → r.1.storage ≡ storage

  branches :
      (b : Bool) (storage : Table Text (Stored Payload)) (r : Changed × Manager Key Payload)
      (m : Manager Key Payload)
      → Unchanged storage r
      → m.storage ≡ storage
      → Unchanged storage (if b then r else (refused, m))
  branches true storage r m u e = u
  branches false storage r m u e = λ g. e

  pub change_password-unchanged :
      (current_password new_password : Text) (additional_keys : List Text) (now : ℕ)
      (fresh : List ℕ) (draws : ℕ → ℕ) (drawn : ℕ) (verification : Text) (m : Manager Key Payload)
      → let (outcome, m') =
          change_password c auto_lock_ms current_password new_password additional_keys now fresh
            draws drawn verification m in
        outcome ≢ changed → m'.storage ≡ m.storage
  unfolding change_password lock
  change_password-unchanged current_password new_password additional_keys now fresh draws drawn
        verification m h =
      elim (Option-cases (load_master_salt m.storage)) [
        | inl e ↦
            let r : change_password c auto_lock_ms current_password new_password additional_keys now
                  fresh draws drawn verification m
                ≡ (refused, m) =
              rw (e, change_password) refl in
            ap (λ x. x.1.storage) r
        | inr (salt, e) ↦
            let keyed = with_key (c.derive_encryption_key current_password salt) (lock m) in
            let verified = verify_password c keyed in
            let r : change_password c auto_lock_ms current_password new_password additional_keys now
                  fresh draws drawn verification m
                ≡ (if verified.0
                    then rekey c auto_lock_ms new_password now fresh draws drawn verification
                        verified.1
                        (decrypt_all c verified.1
                          (unique [] (default_data_keys ++ additional_keys)))
                    else (refused, lock verified.1)) =
              rw (e, change_password) refl in
            subst (Unchanged m.storage) (sym r)
              (branches verified.0 m.storage
                (rekey c auto_lock_ms new_password now fresh draws drawn verification verified.1
                  (decrypt_all c verified.1 (unique [] (default_data_keys ++ additional_keys))))
                (lock verified.1)
                (λ g.
                  rekey-storage new_password now fresh draws drawn verification verified.1
                    (decrypt_all c verified.1 (unique [] (default_data_keys ++ additional_keys))) g
                  ∙ verify-storage keyed)
                (verify-storage keyed))
              h
      ]
