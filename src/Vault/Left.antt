-- ===== src/Vault/Left.antt =====
-- What is left of the vault where `changePassword` of
-- packages/core-sdk/src/storage/secure-storage-manager.ts ends before its last write.
use ancore.Common.{
  ℕ, suc, ◌+◌, Option, none, some, List, [], ◌∷◌, ◌++◌, Text, text_eq, ◌≡◌, ◌≢◌, refl, ap, ◌∙◌,
  length, text_beq_iff, Mem,
}
use ancore.Common.Table
use ancore.Common.Table.{Table, get-set, get-set_self, get-set_ne}
use ancore.Vault.Manager.{
  Crypto, Stored, bytes, payload, other, master_salt_storage_key, verification_payload_storage_key,
  Manager, salt_of, payload_of, load_master_salt, read_encrypted_payload, write_all,
}
use ancore.Vault.Operations.{with_key}
use ancore.Vault.ChangePassword.{items, decrypt_all, encrypt_all, interrupted}
use ancore.Vault.Opening.{VaultOf, read-set}
use ancore.Vault.Rekeying.{opened, items-plain, encrypt_all-get}

pub opened-some :
    {Key Payload : Type 0} (c : Crypto Key Payload) (k : Key) (o : Option Payload) (t : Text)
    → opened c k o ≡ some t
    → (p : Payload) × (o ≡ some p) × (c.decrypt k p ≡ some t)
opened-some c k none t e = cc
opened-some c k (some p) t e = (p, refl, e)

pub keys_differ : verification_payload_storage_key ≢ master_salt_storage_key
keys_differ e =
    let z = (text_beq_iff verification_payload_storage_key master_salt_storage_key).1 e in cc

module _ {Key Payload : Type 0} (c : Crypto Key Payload) where
  -- All writes but the last: the vault is that of the new key with the old salt.
  abbrev pub left :
      Key
      → (ℕ → ℕ)
      → ℕ
      → Text
      → Table Text Text
      → Table Text (Stored Payload)
      → Table Text (Stored Payload)
  left k draws drawn verification ts storage =
      Table.set verification_payload_storage_key (payload (c.encrypt k drawn verification))
        (write_all (encrypt_all c k draws 0 ts) storage)

  -- The master salt is none of the items: its text is no payload.
  salt_no_item :
      (k : Key) (salt : List ℕ) (m : Manager Key Payload) (keys : List Text) (ts : Table Text Text)
      → load_master_salt m.storage ≡ some salt
      → decrypt_all c (with_key k m) keys ≡ items ts
      → (s : Text) → Mem (master_salt_storage_key, s) ts
      → ⊥
  unfolding load_master_salt read_encrypted_payload
  salt_no_item k salt m keys ts salted e s h =
      no_text (Table.get master_salt_storage_key m.storage) salted
        (items-plain c k m keys ts master_salt_storage_key s e h)
    where
      no_text :
          (o : Option (Stored Payload))
          → salt_of o ≡ some salt
          → opened c k (payload_of o) ≡ some s
          → ⊥
      no_text none a b = cc
      no_text (some (bytes x)) a b = cc
      no_text (some (payload p)) a b = cc
      no_text (some other) a b = cc

  pub interrupted-encrypt_all :
      (k : Key) (draws : ℕ → ℕ) (i : ℕ) (ts : Table Text Text) (key : Text) (x : Stored Payload)
      (vs : Table Text (Stored Payload)) (storage : Table Text (Stored Payload))
      → interrupted (suc (length ts)) (encrypt_all c k draws i ts ++ ((key, x) ∷ vs)) storage
        ≡ Table.set key x (write_all (encrypt_all c k draws i ts) storage)
  unfolding interrupted encrypt_all write_all
  interrupted-encrypt_all k draws i [] key x vs storage = refl
  interrupted-encrypt_all k draws i ((j, s) ∷ ts) key x vs storage =
      interrupted-encrypt_all k draws (i + 1) ts key x vs
        (Table.set j (payload (c.encrypt k (draws i) s)) storage)

  pub left-VaultOf :
      (j k : Key) (salt : List ℕ) (draws : ℕ → ℕ) (drawn : ℕ) (verification : Text)
      (m : Manager Key Payload) (keys : List Text) (ts : Table Text Text)
      → load_master_salt m.storage ≡ some salt
      → decrypt_all c (with_key j m) keys ≡ items ts
      → VaultOf c salt k (left k draws drawn verification ts m.storage)
  unfolding load_master_salt
  left-VaultOf j k salt draws drawn verification m keys ts salted e = record {
    drawn = drawn;
    verification = verification;
    salted =
        ap salt_of (
          get-set_ne master_salt_storage_key verification_payload_storage_key
            (payload (c.encrypt k drawn verification))
            (write_all (encrypt_all c k draws 0 ts) m.storage) keys_differ
          ∙ encrypt_all-get c k draws 0 ts m.storage master_salt_storage_key
              (salt_no_item j salt m keys ts salted e))
        ∙ salted;
    verified =
        read-set c verification_payload_storage_key (c.encrypt k drawn verification)
          (write_all (encrypt_all c k draws 0 ts) m.storage);
  }
