-- ===== src/Native.antt =====
-- agent/internal/deploy: what a deployment runs as on its node. The file system, the network and the
-- engine's process are outside: what they answer is given.
pub mod Port
pub mod Tail
pub mod Readiness
pub mod Life
pub mod Cache
pub mod Progress
pub mod Download
mod Tests
use gridlink.Prelude.{ℕ, String, Option}
use gridlink.Proto.{DeploymentState}

-- `Update`
pub record Update : Type 0 where
  pub deployment_id : String
  pub state : DeploymentState
  pub host_port : ℕ
  pub error : String
  pub progress : ℕ
