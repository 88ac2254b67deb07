-- ===== src/Agent.antt =====
-- packages/agent/src
pub mod Protocol
pub mod Act
pub mod Runtime
pub mod Skills
pub mod Caller
pub mod Bus
