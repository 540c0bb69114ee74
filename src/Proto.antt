-- ===== src/Proto.antt =====
-- The messages of contracts/proto/compute/v1/{common,agent}.proto that the coordinator reads and
-- writes. A message field is an `Option` (nil when unset), read by Go's nil-safe getters; a
-- uint64 or uint32 field is a number. Fields that no modelled code reads are left out.
use gridlink.Prelude.{ℕ, String, Bool, List, [], Option, none, some}
use gridlink.GoMap.{GoMap}

pub data NodeStatus : Type 0 where
  unspecified online offline : NodeStatus

pub data JobState : Type 0 where
  unspecified pending running succeeded failed cancelled : JobState

pub data DeploymentState : Type 0 where
  unspecified pulling loading ready failed stopped : DeploymentState

pub data RunnerKind : Type 0 where
  unspecified docker native_metal : RunnerKind

pub record GpuInfo : Type 0 where
  pub vendor : String
  pub model : String
  pub vram_total_mb : ℕ
  pub usable_vram_mb : ℕ

pub record SystemInfo : Type 0 where
  pub os : String
  pub arch : String
  pub runners : List RunnerKind

-- `GpuInfo.GetUsableVramMb` and `SystemInfo.GetRunners` on a pointer that may be nil.
abbrev pub get_usable_vram_mb : Option GpuInfo → ℕ
get_usable_vram_mb none = 0
get_usable_vram_mb (some g) = g.usable_vram_mb

abbrev pub get_runners : Option SystemInfo → List RunnerKind
get_runners none = []
get_runners (some s) = s.runners

pub record Register : Type 0 where
  pub node_id : String
  pub hostname : String
  pub gpu : Option GpuInfo
  pub system : Option SystemInfo

pub record Heartbeat : Type 0 where
  pub active_job_ids : List String
  pub active_deployment_ids : List String
  pub data_plane_addr : String

pub record JobSpec : Type 0 where
  pub job_id : String
  pub image : String
  pub command : List String
  pub env : GoMap String
  pub gpu : Bool
  pub memory_limit_mb : ℕ
  pub timeout_s : ℕ

pub record JobUpdate : Type 0 where
  pub job_id : String
  pub state : JobState
  pub log_chunk : String
  pub exit_code : ℕ  -- the bit pattern of an int32
  pub error : String

pub record ContainerEngine : Type 0 where
  pub model_ref : String
  pub image : String

pub record NativeEngine : Type 0 where
  pub model_ref : String
  pub model_file : String
  pub sha256 : String

-- The `oneof engine`; `unset` is the nil interface.
pub data Engine : Type 0 where
  unset : Engine
  container : ContainerEngine → Engine
  native : NativeEngine → Engine

pub record DeploymentSpec : Type 0 where
  pub deployment_id : String
  pub served_model_name : String
  pub min_vram_mb : ℕ
  pub engine : Engine

pub record DeploymentUpdate : Type 0 where
  pub deployment_id : String
  pub state : DeploymentState
  pub host_port : ℕ
  pub error : String
  pub progress_percent : ℕ

-- The `oneof payload` of `AgentMessage`; `unset` is an empty or an unknown payload.
pub data AgentMessage : Type 0 where
  register : Register → AgentMessage
  heartbeat : Heartbeat → AgentMessage
  job_update : JobUpdate → AgentMessage
  deployment_update : DeploymentUpdate → AgentMessage
  unset : AgentMessage

-- The `oneof payload` of `CoordinatorMessage`; the coordinator never builds a `CancelJob`.
pub data CoordinatorMessage : Type 0 where
  register_ack : String → ℕ → CoordinatorMessage
  run_job : JobSpec → CoordinatorMessage
  start_deployment : DeploymentSpec → CoordinatorMessage
  stop_deployment : String → CoordinatorMessage
