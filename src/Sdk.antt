-- ===== src/Sdk.antt =====
-- packages/sdk/src
pub mod Payments
pub mod Storage
pub mod Links
pub mod Snapshot
pub mod Rep
pub mod Cards
pub mod Ens
pub mod Directory
