-- ===== src/Examples.antt =====
-- Runs of the models at concrete inputs.
pub mod Toys
mod Sdk
pub mod Agent
mod Caller
pub mod Directory
mod Snapshot
mod Settle
mod Bus
mod Web
pub mod Skills
pub mod Hosting
mod Calls
mod Prompts
