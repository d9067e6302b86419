-- ===== src/Wallet/Allowlist.antt =====
-- The sites that may talk to the wallet: apps/extension-wallet/src/stores/allowlist.ts. What is
-- persisted is given as it parses, with `none` for a value of another type, and the URL parser of the
-- browser is an argument.
use ancore.Common.{
  codes, ℕ, Bool, true, false, not, Option, none, some, List, [], ◌∷◌, ◌++◌, Text, text_beq,
  text_eq, filter, length, leb, ◌==◌, ◌&&◌, ◌||◌, if◌then◌else◌, get_or,
}
use ancore.Common.Table
use ancore.Common.Table.{Table}

pub record ConnectedSiteRecord : Type 0 where
  pub origin : Text
  pub account_id : Text
  pub network : Text
  pub connected_at : ℕ

pub record AllowlistState : Type 0 where
  pub approved_sites : Table Text (Table Text (List Text))
  pub connected_sites : Table Text (Table Text (Table Text ConnectedSiteRecord))

abbrev pub no_sites : AllowlistState
no_sites = record { approved_sites = []; connected_sites = [] }

-- `includes`
abbrev pub includes_origin : Text → List Text → Bool
includes_origin origin [] = false
includes_origin origin (o ∷ os) = text_beq o origin || includes_origin origin os

-- `approvedSites[accountId] || {}` and `accountSites[network] || []`
abbrev pub account_sites : AllowlistState → Text → Table Text (List Text)
account_sites s account_id = get_or (Table.get account_id s.approved_sites) []

unfoldable pub get_approved_list : AllowlistState → Text → Text → List Text
get_approved_list s account_id network = get_or (Table.get network (account_sites s account_id)) []

unfoldable pub is_approved : AllowlistState → Text → Text → Text → Bool
unfolding get_approved_list
is_approved s origin account_id network =
    includes_origin origin (get_approved_list s account_id network)

abbrev pub account_connected : AllowlistState → Text → Table Text (Table Text ConnectedSiteRecord)
account_connected s account_id = get_or (Table.get account_id s.connected_sites) []

abbrev pub network_connected : AllowlistState → Text → Text → Table Text ConnectedSiteRecord
network_connected s account_id network =
    get_or (Table.get network (account_connected s account_id)) []

-- The lists of an account and network, replaced.
unfoldable pub put_approved :
    AllowlistState → Text → Text → List Text → Table Text (Table Text (List Text))
put_approved s account_id network origins =
    Table.set account_id (Table.set network origins (account_sites s account_id)) s.approved_sites

unfoldable pub put_connected :
    AllowlistState
    → Text
    → Text
    → Table Text ConnectedSiteRecord
    → Table Text (Table Text (Table Text ConnectedSiteRecord))
put_connected s account_id network sites =
    Table.set account_id (Table.set network sites (account_connected s account_id))
      s.connected_sites

unfoldable pub approve : ℕ → Text → Text → Text → AllowlistState → AllowlistState
unfolding get_approved_list put_approved put_connected
approve now origin account_id network s =
    if includes_origin origin (get_approved_list s account_id network) then s else record {
      approved_sites =
          put_approved s account_id network
            (get_approved_list s account_id network ++ (origin ∷ []));
      connected_sites = put_connected s account_id network (
          Table.set origin
            (record {
              origin = origin;
              account_id = account_id;
              network = network;
              connected_at = now;
            })
            (network_connected s account_id network));
    }

-- The sites of an account without a network: the account is kept where it is there.
unfoldable pub drop_network :
    AllowlistState → Text → Text → Table Text (Table Text (Table Text ConnectedSiteRecord))
drop_network s account_id network = elim (Table.get account_id s.connected_sites) [
  | none ↦ s.connected_sites
  | some by_network ↦ Table.set account_id (Table.delete network by_network) s.connected_sites
]

unfoldable pub revoke : Text → Text → Text → AllowlistState → AllowlistState
unfolding get_approved_list put_approved put_connected drop_network
revoke origin account_id network s =
    if not (includes_origin origin (get_approved_list s account_id network)) then s else record {
      approved_sites =
          put_approved s account_id network
            (filter (λ site. not (text_beq site origin)) (get_approved_list s account_id network));
      connected_sites = elim (Table.delete origin (network_connected s account_id network)) [
        | [] ↦ drop_network s account_id network
        | site ∷ sites ↦ put_connected s account_id network (site ∷ sites)
      ];
    }

unfoldable pub revoke_all : Text → Text → AllowlistState → AllowlistState
revoke_all account_id network s = elim (Table.get network (account_sites s account_id)) [
  | none ↦ s
  | some origins ↦ record {
    approved_sites =
        Table.set account_id (Table.delete network (account_sites s account_id)) s.approved_sites;
    connected_sites = elim (Table.delete network (account_connected s account_id)) [
      | [] ↦ Table.delete account_id s.connected_sites
      | n ∷ ns ↦ Table.set account_id (n ∷ ns) s.connected_sites
    ];
  }
]

-- CONTRACT_ID_PATTERN
abbrev pub is_base32 : ℕ → Bool
is_base32 c = (leb b'A' c && leb c b'Z') || (leb b'2' c && leb c b'7')

unfoldable pub base32_text : Text → Bool
base32_text [] = true
base32_text (c ∷ s) = is_base32 c && base32_text s

unfoldable pub is_valid_account_id : Text → Bool
unfolding base32_text
is_valid_account_id [] = false
is_valid_account_id (c ∷ s) = c == b'C' && (length s == 55 && base32_text s)

-- `Array.isArray` and the filter by the test of origins.
abbrev pub RawOrigins : Type 0
RawOrigins = Option (List (Option Text))

-- `new URL(value)`, where it does not throw: what the code reads of it.
pub record Url : Type 0 where
  pub protocol : Text
  pub origin : Text

-- `isValidOrigin` of a text; the URL parser of the browser is an argument.
unfoldable pub is_valid_origin : (Text → Option Url) → Text → Bool
is_valid_origin parse_url [] = false
is_valid_origin parse_url (c ∷ s) = elim (parse_url (c ∷ s)) [
  | none ↦ false
  | some url ↦
      (text_beq url.protocol (codes "https:") || text_beq url.protocol (codes "http:"))
      && text_beq url.origin (c ∷ s)
]

-- `Object.keys(NETWORK_PASSPHRASES)`
abbrev pub known_networks : List Text
known_networks = codes "mainnet" ∷ codes "testnet" ∷ codes "futurenet" ∷ codes "local" ∷ []

unfoldable pub is_valid_network : Text → Bool
is_valid_network network = includes_origin network known_networks

unfoldable pub valid_origins : (Text → Option Url) → List (Option Text) → List Text
unfolding is_valid_origin
valid_origins parse_url [] = []
valid_origins parse_url (none ∷ os) = valid_origins parse_url os
valid_origins parse_url (some o ∷ os) =
    if is_valid_origin parse_url o
    then o ∷ valid_origins parse_url os
    else valid_origins parse_url os

-- One network of an account is written to the result, if it is valid and has a valid origin.
unfoldable pub sanitize_network :
    (Text → Option Url)
    → Text
    → Text
    → RawOrigins
    → Table Text (Table Text (List Text))
    → Table Text (Table Text (List Text))
unfolding valid_origins is_valid_network
sanitize_network parse_url account_id network none result = result
sanitize_network parse_url account_id network (some origins) result =
    if not (is_valid_network network) then result else elim (valid_origins parse_url origins) [
      | [] ↦ result
      | o ∷ os ↦
          Table.set account_id
            (Table.set network (o ∷ os) (get_or (Table.get account_id result) [])) result
    ]

unfoldable pub sanitize_account :
    (Text → Option Url)
    → Text
    → Table Text RawOrigins
    → Table Text (Table Text (List Text))
    → Table Text (Table Text (List Text))
unfolding sanitize_network
sanitize_account parse_url account_id [] result = result
sanitize_account parse_url account_id ((network, origins) ∷ rest) result =
    sanitize_account parse_url account_id rest
      (sanitize_network parse_url account_id network origins result)

unfoldable pub sanitize_approved_sites :
    (Text → Option Url)
    → Table Text (Option (Table Text RawOrigins))
    → Table Text (Table Text (List Text))
    → Table Text (Table Text (List Text))
unfolding sanitize_account is_valid_account_id
sanitize_approved_sites parse_url [] result = result
sanitize_approved_sites parse_url ((account_id, none) ∷ rest) result =
    sanitize_approved_sites parse_url rest result
sanitize_approved_sites parse_url ((account_id, some networks) ∷ rest) result =
    sanitize_approved_sites parse_url rest (
      if is_valid_account_id account_id
      then sanitize_account parse_url account_id networks result
      else result)
