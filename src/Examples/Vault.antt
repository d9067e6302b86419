-- ===== src/Examples/Vault.antt =====
-- A vault whose cryptography keeps the key beside the text.
use ancore.Common.{
  ℕ, suc, true, false, none, some, List, [], ◌∷◌, ◌++◌, Text, codes, text_eq, text_beq,
  text_beq_iff, ◌≡◌, ◌≢◌, refl, if◌then◌else◌, arith, inl, length,
}
use ancore.Common.Table
use ancore.Common.Table.{Table}
use ancore.Vault.Manager.{
  Crypto, bytes, payload, master_salt_storage_key, verification_payload_storage_key,
  default_data_keys, Manager, unique, load_master_salt, read_encrypted_payload, lock, is_unlocked,
  touch,
}
use ancore.Vault.Operations.{unlock, save_item, get_item, with_key, verify_password, decrypt_data}
use ancore.Vault.ChangePassword.{
  Changed, changed, items, decrypt_all, rekey_writes, change_password, interrupted, rekey,
}
use ancore.Vault.Opening.{Sound, VaultOf, unlock-unverified, get_item-save_item}
use ancore.Vault.Password.{change_password-changed, change_password-interrupted}

abbrev crypto : Crypto Text (Text × Text)
crypto = record {
  derive_encryption_key = λ password salt. password ++ salt;
  encrypt = λ k drawn t. (k, t);
  decrypt = λ k p. if text_beq p.0 k then some p.1 else none;
}

crypto-Sound : Sound crypto
crypto-Sound = record {
  decrypt-encrypt = λ k drawn t. ground (arith, text_beq_iff k k);
  decrypt-encrypt_other = λ j k drawn t ne. ground (arith, text_beq_iff k j);
}

abbrev salt : List ℕ
salt = codes "0123456789abcdef"

abbrev fresh : List ℕ
fresh = codes "fedcba9876543210"

abbrev old : Text
old = codes "old"

abbrev new : Text
new = codes "new"

abbrev account : Text
account = codes "account"

abbrev contents : Text
contents = codes "{}"

abbrev vault : Manager Text (Text × Text)
vault = record {
  encryption_key = none;
  auto_lock_timer = none;
  storage =
      (verification_payload_storage_key, payload (old ++ salt, codes "marker"))
      ∷ (master_salt_storage_key, bytes salt)
      ∷ (account, payload (old ++ salt, contents))
      ∷ [];
}

vault-VaultOf : VaultOf crypto salt (old ++ salt) vault.storage
unfolding load_master_salt read_encrypted_payload Table.get
vault-VaultOf = record { drawn = 0; verification = codes "marker"; salted = refl; verified = refl }

abbrev unverified : Manager Text (Text × Text)
unverified = record {
  encryption_key = none;
  auto_lock_timer = none;
  storage = (master_salt_storage_key, bytes salt) ∷ (account, payload (old ++ salt, contents)) ∷ [];
}

unverified-salt : load_master_salt unverified.storage ≡ some salt
unfolding load_master_salt Table.get
unverified-salt = refl

unverified-payload :
    read_encrypted_payload verification_payload_storage_key unverified.storage ≡ none
unfolding read_encrypted_payload Table.get
unverified-payload = refl

unlock-unverified_example :
    let (opened, m') = unlock crypto none (codes "bad") 1000 fresh 1 (codes "marker") unverified in
    (opened ≡ false)
    × (is_unlocked m' ≡ true)
    × ((unlock crypto none (codes "worse") 1000 fresh 1 (codes "marker") m').0 ≡ true)
unlock-unverified_example =
    unlock-unverified crypto crypto-Sound none 1000 fresh 1 (codes "marker") (codes "bad")
      (codes "worse") salt unverified refl unverified-salt unverified-payload

abbrev unlocked : Manager Text (Text × Text)
unlocked = with_key (old ++ salt) vault

abbrev saved : Manager Text (Text × Text)
saved = record {
  encryption_key = some (old ++ salt);
  auto_lock_timer = none;
  storage = Table.set (codes "custom") (payload (old ++ salt, codes "[]")) vault.storage;
}

saves : save_item crypto none (codes "custom") (codes "[]") 500 2 unlocked ≡ some saved
unfolding save_item touch
saves = refl

not_salt : codes "custom" ≢ master_salt_storage_key
not_salt e = let z = (text_beq_iff (codes "custom") master_salt_storage_key).1 e in cc

not_verification : codes "custom" ≢ verification_payload_storage_key
not_verification e =
    let z = (text_beq_iff (codes "custom") verification_payload_storage_key).1 e in cc

get_item-save_item_example :
    let (opened, m'') = unlock crypto none old 1000 fresh 1 (codes "marker") (lock saved) in
    (opened ≡ true)
    × ((r : Manager Text (Text × Text)) × (get_item crypto none (codes "custom") 1500 m''
          ≡ some (some (codes "[]"), r)))
get_item-save_item_example =
    get_item-save_item crypto crypto-Sound none 1000 fresh 1 (codes "marker") old (codes "custom")
      (codes "[]") salt 500 1500 2 unlocked saved refl vault-VaultOf not_salt not_verification saves

abbrev change : Changed × Manager Text (Text × Text)
change = change_password crypto none old new [] 1000 fresh (λ i. i) 9 (codes "marker") vault

change-changed : change.0 ≡ changed
unfolding change_password rekey decrypt_all load_master_salt read_encrypted_payload verify_password
    decrypt_data unique lock Table.get
change-changed = refl

keys_apart : old ++ fresh ≢ new ++ fresh
keys_apart e = let z = (text_beq_iff (old ++ fresh) (new ++ fresh)).1 e in cc

account_no_salt : account ≢ master_salt_storage_key
account_no_salt e = let z = (text_beq_iff account master_salt_storage_key).1 e in cc

account_no_verification : account ≢ verification_payload_storage_key
account_no_verification e =
    let z = (text_beq_iff account verification_payload_storage_key).1 e in cc

account_named : (named_ : List Text) × (unique [] default_data_keys ≡ account ∷ named_)
unfolding unique
account_named = (_, refl)

change_password-changed_example :
    let (opens, m') = unlock crypto none new 2000 salt 4 (codes "marker") (lock change.1) in
    (opens ≡ true)
    × ((r : Manager Text (Text × Text)) × (get_item crypto none account 2000 m'
          ≡ some (some contents, r)))
    × ((unlock crypto none old 2000 salt 4 (codes "marker") (lock change.1)).0 ≡ false)
unfolding unique read_encrypted_payload Table.get
change_password-changed_example =
    change_password-changed crypto crypto-Sound none old new [] 1000 fresh (λ i. i) 9
      (codes "marker") salt vault vault-VaultOf account contents 2000 4 salt (codes "marker") refl
      keys_apart (inl refl) account_no_salt account_no_verification refl change-changed

account_items :
    decrypt_all crypto (with_key (old ++ salt) vault) (unique [] (default_data_keys ++ []))
    ≡ items ((account, contents) ∷ [])
unfolding decrypt_all read_encrypted_payload decrypt_data unique Table.get
account_items = refl

locked_out : old ++ salt ≢ new ++ fresh
locked_out e = let z = (text_beq_iff (old ++ salt) (new ++ fresh)).1 e in cc

change_password-interrupted_example :
    let ws =
      rekey_writes crypto
        (new ++ fresh)
        fresh
        (λ i. i)
        9
        (codes "marker")
        ((account, contents) ∷ []) in
    (unlock crypto none old 2000 salt 4 (codes "marker") (record {
      encryption_key = none;
      auto_lock_timer = none;
      storage =
          interrupted (suc (length {A = Text × Text} ((account, contents) ∷ []))) ws vault.storage;
    })).0
    ≡ false
change_password-interrupted_example =
    change_password-interrupted crypto crypto-Sound none old new [] 1000 fresh (λ i. i) 9
      (codes "marker") salt vault vault-VaultOf old 2000 4 salt (codes "marker")
      ((account, contents) ∷ []) account_items locked_out
