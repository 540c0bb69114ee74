-- ===== src/Agent.antt =====
-- The agent: agent/internal. It keeps the coordinator's stream up and runs what it is sent.
pub mod Client
pub mod Backoff
pub mod Identity
pub mod Forward
pub mod Lost
mod Tests
