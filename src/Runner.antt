-- ===== src/Runner.antt =====
-- agent/internal/runner: a job as a container. Docker is outside: what its calls answer is given.
-- Log lines are left out.
pub mod Container
pub mod Pull
pub mod Logs
pub mod Job
mod Tests
use gridlink.Prelude.{ℕ, String}
use gridlink.Proto.{JobState}
use gridlink.Bytes.{Bytes}

-- `Update`; an exit code is the bit pattern of an int32.
pub record Update : Type 0 where
  pub job_id : String
  pub state : JobState
  pub log_chunk : Bytes
  pub exit_code : ℕ
  pub error : String
