-- ===== src/Server.antt =====
-- coordinator/internal/server/server.go: the gRPC endpoints, over the three tables and the store.
pub mod Auth
pub mod Agents
pub mod System
pub mod Usage
pub mod Admin
mod Tests
