-- ===== src/Examples/Allowlist.antt =====
-- A site that is approved, and one that is approved and revoked.
use ancore.Common.{
  text_beq, if◌then◌else◌, true, none, some, Option, Text, List, codes, [], ◌∷◌, ◌≡◌, refl,
}
use ancore.Common.Table
use ancore.Common.Table.{Table}
use ancore.Wallet.Allowlist.{Url, no_sites, is_approved, RawOrigins, sanitize_approved_sites}
use ancore.Wallet.Approved.{Action, run, last_word, run-is_approved}
use ancore.Wallet.Sanitized.{with_approved, Valid, sanitize_approved_sites-Valid}

abbrev site : Text
site = codes "https://a.example"

abbrev account : Text
account = codes "CAAAAAAAAAAAAAAAAAAAAAAAAAAAAAAAAAAAAAAAAAAAAAAAAAAAAAAA"

abbrev actions : List Action
actions =
    Action.approves 1000 site account (codes "testnet")
    ∷ Action.approves 2000 site account (codes "mainnet")
    ∷ Action.revokes site account (codes "testnet")
    ∷ []

run-is_approved_example :
    is_approved (run actions no_sites) site account (codes "mainnet")
    ≡ last_word actions site account
        (codes "mainnet")
        (is_approved no_sites site account (codes "mainnet"))
run-is_approved_example = run-is_approved actions site account (codes "mainnet") no_sites

-- A parser that knows one site, and one of another protocol.
abbrev parse_url : Text → Option Url
parse_url s =
    if text_beq s site
    then some (record { protocol = codes "https:"; origin = site })
    else if text_beq s (codes "ftp://a.example")
    then some (record { protocol = codes "ftp:"; origin = codes "null" })
    else none

abbrev persisted : Table Text (Option (Table Text RawOrigins))
persisted =
    (
      account,
      some (
          (codes "nowhere", some (some site ∷ []))
          ∷ (codes "mainnet", some (none ∷ some (codes "ftp://a.example") ∷ some site ∷ []))
          ∷ []),
    )
    ∷ (codes "broken", none)
    ∷ []

survives :
    is_approved
      (with_approved (sanitize_approved_sites parse_url persisted []))
      site
      account
      (codes "mainnet")
    ≡ true
unfolding sanitize_approved_sites is_approved Table.get Table.set
survives = refl

sanitize_approved_sites-Valid_example : Valid parse_url site account (codes "mainnet")
sanitize_approved_sites-Valid_example =
    sanitize_approved_sites-Valid parse_url site account (codes "mainnet") persisted survives
