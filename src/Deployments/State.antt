-- ===== src/Deployments/State.antt =====
-- coordinator/internal/deployments/deployments.go: the deployment table, its records and
-- constants, and the runner that a spec needs.
use gridlink.Prelude.{
  ℕ, String, Bool, true, false, ◌*◌, ◌||◌, List, [], ◌∷◌, Option, none, some, Time, Duration,
  second, minute,
}
use gridlink.GoMap.{GoMap, get, put}
use gridlink.Proto.{DeploymentSpec, DeploymentState, Engine, RunnerKind}

-- `lostAfter`, `avoidAfterFailure`, `reconcileInterval`
abbrev pub lost_after : Duration
lost_after = 60 * second

abbrev pub avoid_after_failure : Duration
avoid_after_failure = 10 * minute

abbrev pub reconcile_interval : Duration
reconcile_interval = 15 * second

pub record Replica : Type 0 where
  pub deployment_id : String
  pub node_id : String
  pub state : DeploymentState
  pub host_port : ℕ
  pub progress : ℕ
  pub err_text : String
  pub placed_at : Time
  pub last_update : Time

pub record Deployment : Type 0 where
  pub id : String
  pub spec : DeploymentSpec
  -- nil while unplaced
  pub replica : Option Replica
  -- nodes that this deployment recently failed on, and until when to skip them
  pub avoid : GoMap Time

pub record Manager : Type 0 where
  pub deploy : GoMap Deployment

unfoldable pub new : Manager
new = record { deploy = [] }

-- The `switch` of `requiredRunner`; `none` is its error, `ErrInvalidSpec`.
unfoldable pub runner_of : Engine → Option RunnerKind
runner_of Engine.unset = none
runner_of (Engine.container c) = some RunnerKind.docker
runner_of (Engine.native n) = some RunnerKind.native_metal

unfoldable pub required_runner : DeploymentSpec → Option RunnerKind
unfolding runner_of
required_runner spec = runner_of spec.engine

abbrev pub is_kind : RunnerKind → RunnerKind → Bool
is_kind RunnerKind.unspecified RunnerKind.unspecified = true
is_kind RunnerKind.docker RunnerKind.docker = true
is_kind RunnerKind.native_metal RunnerKind.native_metal = true
is_kind _ _ = false

-- `hasRunner`
unfoldable pub has_runner : List RunnerKind → RunnerKind → Bool
has_runner [] want = false
has_runner (r ∷ rs) want = is_kind r want || has_runner rs want

abbrev pub is_ready : DeploymentState → Bool
is_ready DeploymentState.ready = true
is_ready _ = false

abbrev pub is_failed : DeploymentState → Bool
is_failed DeploymentState.failed = true
is_failed _ = false

-- An assignment through a `*Deployment`: it shows in the table while the deployment is there.
unfoldable pub assign : String → (Deployment → Deployment) → Manager → Manager
assign id f m = elim (get id m.deploy) [
  | none ↦ m
  | some d ↦ record m { deploy = put id (f d) m.deploy }
]

-- `d.Replica = r`
abbrev pub set_replica : Option Replica → Deployment → Deployment
set_replica r d = record d { replica = r }
