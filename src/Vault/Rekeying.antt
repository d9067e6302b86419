-- ===== src/Vault/Rekeying.antt =====
-- The items of `changePassword` of packages/core-sdk/src/storage/secure-storage-manager.ts: which they
-- are, and what is read of them once they are encrypted again.
use ancore.Common.{
  ℕ, ◌+◌, Option, none, some, List, [], ◌∷◌, ◌++◌, Text, text_eq, ◌≡◌, ◌≢◌, refl, sym, ap, ◌∙◌,
  subst, arith, Bool-cases, Option-cases, text_beq, text_beq_iff, ◌⊎◌, inl, inr, Mem,
}
use ancore.Common.Table
use ancore.Common.Table.{Table, get-set, get-set_self, get-set_ne}
use ancore.Vault.Manager.{
  Crypto, Stored, payload, Manager, payload_of, read_encrypted_payload, write_all,
}
use ancore.Vault.Operations.{with_key, decrypt_data}
use ancore.Vault.ChangePassword.{Decrypted, items, unreadable, and_item, decrypt_all, encrypt_all}
use ancore.Vault.Opening.{read-set}

module _ {Payload : Type 0} where
  pub write_all-append :
      (ws vs : Table Text (Stored Payload)) (storage : Table Text (Stored Payload))
      → write_all (ws ++ vs) storage ≡ write_all vs (write_all ws storage)
  unfolding write_all
  write_all-append [] vs storage = refl
  write_all-append ((k, v) ∷ ws) vs storage = write_all-append ws vs (Table.set k v storage)

pair : {j key s t : Text} → j ≡ key → s ≡ t → ◌≡◌ {A = Text × Text} (j, s) (key, t)
pair a b = cc

pub same_text : {s t : Text} → some s ≡ some t → s ≡ t
same_text e = cc

and_item-items :
    (key t : Text) (d : Decrypted) (ts : Table Text Text)
    → and_item key t d ≡ items ts
    → (us : Table Text Text) × (d ≡ items us) × (ts ≡ (key, t) ∷ us)
and_item-items key t (items us) ts e = (us, refl, ground arith)
and_item-items key t (unreadable k) ts e = cc

module _ {Key Payload : Type 0} (c : Crypto Key Payload) where
  abbrev pub opened : Key → Option Payload → Option Text
  opened k none = none
  opened k (some p) = c.decrypt k p

  -- The plain text of a key's payload.
  abbrev pub plain : Key → Text → Table Text (Stored Payload) → Option Text
  plain k key storage = opened k (read_encrypted_payload key storage)

  read-set_ne :
      (key j : Text) (x : Stored Payload) (storage : Table Text (Stored Payload))
      → j ≢ key
      → read_encrypted_payload key (Table.set j x storage) ≡ read_encrypted_payload key storage
  unfolding read_encrypted_payload
  read-set_ne key j x storage h = ap payload_of (get-set_ne key j x storage h)

  -- The cases of the first key.
  data First (k : Key) (m : Manager Key Payload) (key : Text) (keys : List Text) : Type 0 where
    missing :
        plain k key m.storage ≡ none
        → decrypt_all c (with_key k m) (key ∷ keys) ≡ decrypt_all c (with_key k m) keys
        → First k m key keys
    failed : decrypt_all c (with_key k m) (key ∷ keys) ≡ unreadable key → First k m key keys
    found :
        (t : Text)
        → plain k key m.storage ≡ some t
        → decrypt_all c (with_key k m) (key ∷ keys)
          ≡ and_item key t (decrypt_all c (with_key k m) keys)
        → First k m key keys

  first : (k : Key) (m : Manager Key Payload) (key : Text) (keys : List Text) → First k m key keys
  unfolding decrypt_all decrypt_data
  first k m key keys = elim (Option-cases (read_encrypted_payload key m.storage)) [
    | inl e ↦ missing (ap (opened k) e) (rw (e, decrypt_all) refl)
    | inr (p, e) ↦ elim (Option-cases (c.decrypt k p)) [
      | inl d ↦ failed (rw (e, decrypt_all, d) refl)
      | inr (t, d) ↦ found t (ap (opened k) e ∙ d) (rw (e, decrypt_all, d) refl)
    ]
  ]

  decrypt_all-nil :
      (m : Manager Key Payload) (ts : Table Text Text) → decrypt_all c m [] ≡ items ts → ts ≡ []
  unfolding decrypt_all
  decrypt_all-nil m ts e = cc

  -- The items are the keys whose payload has a plain text.
  pub items-plain :
      (k : Key) (m : Manager Key Payload) (keys : List Text) (ts : Table Text Text) (key t : Text)
      → decrypt_all c (with_key k m) keys ≡ items ts
      → Mem (key, t) ts
      → plain k key m.storage ≡ some t
  items-plain k m [] ts key t e h =
      elim (subst (Mem (key, t)) (decrypt_all-nil (with_key k m) ts e) h) [ ]
  items-plain k m (j ∷ keys) ts key t e h = elim (first k m j keys) [
    | missing n d ↦ items-plain k m keys ts key t (sym d ∙ e) h
    | failed d ↦ absurd (let z = sym d ∙ e in cc)
    | found s p d ↦
        let (us, f, g) = and_item-items j s (decrypt_all c (with_key k m) keys) ts (sym d ∙ e) in
        (elim (subst (Mem (key, t)) g h) [
          | inl q ↦ subst (λ x. plain k x.0 m.storage ≡ some x.1) q p
          | inr r ↦ items-plain k m keys us key t f r
        ])
  ]

  pub plain-items :
      (k : Key) (m : Manager Key Payload) (keys : List Text) (ts : Table Text Text) (key t : Text)
      → decrypt_all c (with_key k m) keys ≡ items ts
      → plain k key m.storage ≡ some t
      → Mem key keys
      → Mem (key, t) ts
  plain-items k m [] ts key t e p h = elim h [ ]
  plain-items k m (j ∷ keys) ts key t e p h = elim (first k m j keys) [
    | missing n d ↦ elim h [
      | inl q ↦ absurd (let z : none ≡ some t = sym n ∙ ap (λ x. plain k x m.storage) q ∙ p in cc)
      | inr r ↦ plain-items k m keys ts key t (sym d ∙ e) p r
    ]
    | failed d ↦ absurd (let z = sym d ∙ e in cc)
    | found s q1 d ↦
        let (us, f, g) = and_item-items j s (decrypt_all c (with_key k m) keys) ts (sym d ∙ e) in
        subst (Mem (key, t)) (sym g) (elim h [
          | inl q ↦
              let both : some s ≡ some t = sym q1 ∙ ap (λ x. plain k x m.storage) q ∙ p in
              inl (pair q (same_text both))
          | inr r ↦ inr (plain-items k m keys us key t f p r)
        ])
  ]

  -- What is read of a key once the items are encrypted again, and of a key that is none of theirs.
  pub encrypt_all-read {ℓ} :
      (Q : Option Payload → Type ℓ) (k : Key) (draws : ℕ → ℕ) (i : ℕ) (ts : Table Text Text)
      (storage : Table Text (Stored Payload)) (key : Text)
      → ((n : ℕ) (s : Text) → Mem (key, s) ts → Q (some (c.encrypt k n s)))
      → Q (read_encrypted_payload key storage) ⊎ ((s : Text) × Mem (key, s) ts)
      → Q (read_encrypted_payload key (write_all (encrypt_all c k draws i ts) storage))
  unfolding encrypt_all write_all
  encrypt_all-read Q k draws i [] storage key new (inl h) = h
  encrypt_all-read Q k draws i [] storage key new (inr (s, h)) = elim h [ ]
  encrypt_all-read Q k draws i ((j, s) ∷ ts) storage key new h =
      encrypt_all-read Q k draws (i + 1) ts
        (Table.set j (payload (c.encrypt k (draws i) s)) storage) key (λ n s' m. new n s' (inr m))
        (elim (Bool-cases (text_beq j key)) [
          | inl same ↦
              let at : j ≡ key = (text_beq_iff j key).0 same in
              inl (
                subst
                  (λ x. Q (
                    read_encrypted_payload x
                      (Table.set j (payload (c.encrypt k (draws i) s)) storage)))
                  at
                  (subst Q (sym (read-set c j (c.encrypt k (draws i) s) storage))
                    (new (draws i) s (inl (pair at refl)))))
          | inr not_same ↦
              let apart : j ≢ key = (λ at. let z = (text_beq_iff j key).1 at in ground arith) in
              elim h [
                | inl p ↦ inl (
                    subst Q
                      (sym (read-set_ne key j (payload (c.encrypt k (draws i) s)) storage apart)) p)
                | inr (u, m) ↦ elim m [
                  | inl q ↦ absurd (apart (ap (λ x. x.0) q))
                  | inr r ↦ inr (u, r)
                ]
              ]
        ])

  pub encrypt_all-get :
      (k : Key) (draws : ℕ → ℕ) (i : ℕ) (ts : Table Text Text)
      (storage : Table Text (Stored Payload)) (key : Text)
      → ((s : Text) → Mem (key, s) ts → ⊥)
      → Table.get key (write_all (encrypt_all c k draws i ts) storage) ≡ Table.get key storage
  unfolding encrypt_all write_all
  encrypt_all-get k draws i [] storage key none_of = refl
  encrypt_all-get k draws i ((j, s) ∷ ts) storage key none_of =
      encrypt_all-get k draws (i + 1) ts (Table.set j (payload (c.encrypt k (draws i) s)) storage)
        key (λ s' m. none_of s' (inr m))
      ∙ get-set_ne key j (payload (c.encrypt k (draws i) s)) storage
          (λ at. none_of s (inl (pair at refl)))
