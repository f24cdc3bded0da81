-- ===== src/Persistence.antt =====
-- apps/mobile/src/platform/persistence: the action journal and the signer scopes on SQLite.
pub mod Rows
pub mod Tables
pub mod Actions
pub mod Leases
pub mod Recovery
pub mod Signers
pub mod Tombstones
pub mod Retirement
pub mod Progress
pub mod Later
pub mod Inserted
pub mod Calls
pub mod History
pub mod Issuance
pub mod Holding
pub mod Registered
pub mod Sole
pub mod Readable
pub mod Manifest
pub mod Chains
pub mod Added
pub mod Retired
