-- ===== src/Wallet/Sanitized.antt =====
-- What survives of a persisted allowlist.
use ancore.Common.{
  true, false, codes, Mem, ◌⊎◌, Option-cases, Option, none, some, List, [], ◌∷◌, Text, text_beq,
  text_beq_iff, text_eq, ◌&&◌, get_or, ◌≡◌, refl, subst, arith, inl, inr, Bool-cases,
}
use ancore.Common.Table
use ancore.Common.Table.{Table}
use ancore.Wallet.Allowlist.{
  Url, is_valid_origin, is_valid_network, known_networks, AllowlistState, includes_origin,
  get_approved_list, is_approved, put_approved, is_valid_account_id, valid_origins,
  sanitize_network, sanitize_account, sanitize_approved_sites, RawOrigins,
}
use ancore.Wallet.Approved.{list-put_approved}

abbrev pub with_approved : Table Text (Table Text (List Text)) → AllowlistState
with_approved sites = record { approved_sites = sites; connected_sites = [] }

module _ (parse_url : Text → Option Url) where
  -- Three tests that an approved site has passed.
  abbrev Passed : Text → Text → Text → Type 0
  Passed o a n =
      (is_valid_origin parse_url o ≡ true)
      × (is_valid_account_id a ≡ true)
      × (is_valid_network n ≡ true)

  -- A web origin, reduced to itself, an account in the form of a contract, and a known network.
  abbrev pub Valid : Text → Text → Text → Type 0
  Valid o a n =
      ((url : Url) × (parse_url o ≡ some url)
        × ((url.protocol ≡ codes "https:") ⊎ (url.protocol ≡ codes "http:"))
        × (url.origin ≡ o))
      × (is_valid_account_id a ≡ true)
      × Mem n known_networks

  is_valid_origin-web :
      (o : Text)
      → is_valid_origin parse_url o ≡ true
      → (url : Url) × (parse_url o ≡ some url)
        × ((url.protocol ≡ codes "https:") ⊎ (url.protocol ≡ codes "http:"))
        × (url.origin ≡ o)
  unfolding is_valid_origin
  is_valid_origin-web [] h = absurd (let z : false ≡ true = h in cc z)
  is_valid_origin-web (c ∷ s) h = elim (Option-cases (parse_url (c ∷ s))) [
    | inl e ↦ absurd (let z : false ≡ true = ground (arith, e, h) in cc z)
    | inr (url, e) ↦
        let https = text_beq_iff url.protocol (codes "https:") in
        let http = text_beq_iff url.protocol (codes "http:") in
        let same : text_beq url.origin (c ∷ s) ≡ true = ground (arith, e, h) in
        (url, e, ground (arith, e, h, https, http), (text_beq_iff url.origin (c ∷ s)).0 same)
  ]

  includes-Mem : (n : Text) (ns : List Text) → includes_origin n ns ≡ true → Mem n ns
  includes-Mem n [] h = cc
  includes-Mem n (m ∷ ns) h = elim (Bool-cases (text_beq m n)) [
    | inl e ↦ inl ((text_beq_iff m n).0 e)
    | inr e ↦ inr (includes-Mem n ns (ground (arith, h, e)))
  ]

  valid_origins-includes :
      (os : List (Option Text)) (o : Text)
      → includes_origin o (valid_origins parse_url os) ≡ true
      → is_valid_origin parse_url o ≡ true
  unfolding valid_origins
  valid_origins-includes [] o h = cc
  valid_origins-includes (none ∷ os) o h = valid_origins-includes os o h
  valid_origins-includes (some x ∷ os) o h = elim (Bool-cases (is_valid_origin parse_url x)) [
    | inl e ↦ elim (Bool-cases (text_beq x o)) [
      | inl same ↦ subst (λ y. is_valid_origin parse_url y ≡ true) ((text_beq_iff x o).0 same) e
      | inr other ↦ valid_origins-includes os o (ground (arith, h, e, other))
    ]
    | inr e ↦ valid_origins-includes os o (ground (arith, h, e))
  ]

  module _ (o a n : Text) where
    Fine : Table Text (Table Text (List Text)) → Type 0
    Fine sites = is_approved (with_approved sites) o a n ≡ true → Passed o a n

    put-Fine :
        (a' n' : Text) (origins : List Text) (sites : Table Text (Table Text (List Text)))
        → Fine sites
        → (includes_origin o origins ≡ true → is_valid_origin parse_url o ≡ true)
        → is_valid_account_id a' ≡ true
        → is_valid_network n' ≡ true
        → Fine (put_approved (with_approved sites) a' n' origins)
    unfolding Fine is_approved
    put-Fine a' n' origins sites fine fits va vn h =
        let list =
          list-put_approved a' n' a n origins (with_approved sites)
            (with_approved (put_approved (with_approved sites) a' n' origins)) refl in
        elim (Bool-cases (text_beq a' a && text_beq n' n)) [
          | inl m ↦
              let same_a : a' ≡ a = (text_beq_iff a' a).0 (ground (arith, m)) in
              let same_n : n' ≡ n = (text_beq_iff n' n).0 (ground (arith, m)) in
              (
                fits (ground (arith, list, m, h)),
                subst (λ x. is_valid_account_id x ≡ true) same_a va,
                subst (λ x. is_valid_network x ≡ true) same_n vn,
              )
          | inr m ↦ fine (ground (arith, list, m, h))
        ]

    network-Fine :
        (a' n' : Text) (origins : RawOrigins) (sites : Table Text (Table Text (List Text)))
        → Fine sites
        → is_valid_account_id a' ≡ true
        → Fine (sanitize_network parse_url a' n' origins sites)
    unfolding sanitize_network
    network-Fine a' n' none sites fine va = fine
    network-Fine a' n' (some origins) sites fine va = elim (Bool-cases (is_valid_network n')) [
      | inr e ↦ rw e fine
      | inl e ↦ rw e (kept (valid_origins parse_url origins) (valid_origins-includes origins o) e)
    ]
      where
        kept :
            (os : List Text)
            → (includes_origin o os ≡ true → is_valid_origin parse_url o ≡ true)
            → is_valid_network n' ≡ true
            → Fine (elim os [
              | [] ↦ sites
              | x ∷ xs ↦ Table.set a' (Table.set n' (x ∷ xs) (get_or (Table.get a' sites) [])) sites
            ])
        kept [] fits vn = fine
        kept (x ∷ xs) fits vn = unfold put_approved in put-Fine a' n' (x ∷ xs) sites fine fits va vn

    account-Fine :
        (a' : Text) (networks : Table Text RawOrigins) (sites : Table Text (Table Text (List Text)))
        → Fine sites
        → is_valid_account_id a' ≡ true
        → Fine (sanitize_account parse_url a' networks sites)
    unfolding sanitize_account
    account-Fine a' [] sites fine va = fine
    account-Fine a' ((n', origins) ∷ rest) sites fine va =
        account-Fine a' rest (sanitize_network parse_url a' n' origins sites)
          (network-Fine a' n' origins sites fine va) va

    sites-Fine :
        (raw : Table Text (Option (Table Text RawOrigins)))
        (sites : Table Text (Table Text (List Text)))
        → Fine sites
        → Fine (sanitize_approved_sites parse_url raw sites)
    unfolding sanitize_approved_sites
    sites-Fine [] sites fine = fine
    sites-Fine ((a', none) ∷ raw) sites fine = sites-Fine raw sites fine
    sites-Fine ((a', some networks) ∷ raw) sites fine = elim (Bool-cases (is_valid_account_id a')) [
      | inl e ↦ rw e (sites-Fine raw _ (account-Fine a' networks sites fine e))
      | inr e ↦ rw e (sites-Fine raw sites fine)
    ]

    nothing-Fine : Fine []
    unfolding Fine is_approved get_approved_list
    nothing-Fine h = unfold Table.get in cc h

    -- Whatever was persisted, a site that is approved after it was loaded is one that the URL parser of
    -- the browser reads as itself, with the protocol https or http, for an account in the form of a
    -- contract, on a known network.
    pub sanitize_approved_sites-Valid :
        (raw : Table Text (Option (Table Text RawOrigins)))
        → is_approved (with_approved (sanitize_approved_sites parse_url raw [])) o a n ≡ true
        → Valid o a n
    unfolding Fine is_valid_network
    sanitize_approved_sites-Valid raw h =
        let (origin, account, network) = sites-Fine raw [] nothing-Fine h in
        (is_valid_origin-web o origin, account, includes-Mem n known_networks network)
