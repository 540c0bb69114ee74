-- ===== src/Deployments.antt =====
-- coordinator/internal/deployments/deployments.go: desired deployments and the reconciler that
-- drives nodes toward them.
pub mod State
pub mod Selection
pub mod Actions
pub mod Reconciler
pub mod Exclusive
pub mod Queries
pub mod Placing
pub mod Orphans
pub mod Recovery
pub mod Races
pub mod Creation
mod Tests
