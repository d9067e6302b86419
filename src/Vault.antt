-- ===== src/Vault.antt =====
-- The vault of the wallets. `Manager`, `Operations` and `ChangePassword` are
-- packages/core-sdk/src/storage/secure-storage-manager.ts: its state, its operations and the change of
-- the password. The other modules have what is proved of them.
pub mod Manager
pub mod Operations
pub mod ChangePassword
pub mod Opening
pub mod Rekeying
pub mod Left
pub mod Password
pub mod Refusal
