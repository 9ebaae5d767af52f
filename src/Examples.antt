-- ===== src/Examples.antt =====
-- The theorems applied to concrete inputs.
pub mod Tokens
pub mod Removals
pub mod Keys
pub mod Sessions
pub mod Factors
pub mod Tables
pub mod Members
pub mod Webauthn
pub mod Limits
pub mod Routes
pub mod Origins
pub mod Cipher
pub mod Vaults
pub mod Bans
