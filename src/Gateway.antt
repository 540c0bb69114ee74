-- ===== src/Gateway.antt =====
-- The gateway: gateway/internal. It routes inference requests to the nodes that the coordinator
-- names, and reports what they used.
pub mod Router
pub mod EndToEnd
pub mod Usage
pub mod Proxy
mod Tests
