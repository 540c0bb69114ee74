-- ===== src/Agent/Client.antt =====
-- agent/internal/client/client.go: the tables of what runs on the node, and the session with the
-- coordinator. The runner, the engine and the stream are outside; log lines are left out.
use gridlink.Prelude.{
  ℕ, String, Bool, true, false, ◌&&◌, not, ◌++◌, List, [], ◌∷◌, Option, none, some, ltb, length,
  str_eq, is_empty, if◌then◌else◌, Duration, second, ◌*◌,
}
use gridlink.GoMap.{GoMap, get, put, delete}
use gridlink.Proto.{
  JobSpec, JobState, JobUpdate, DeploymentSpec, DeploymentState, DeploymentUpdate, Heartbeat,
  AgentMessage, CoordinatorMessage,
}

abbrev pub outbound_buffer_size : ℕ
outbound_buffer_size = 32

abbrev pub default_heartbeat_s : ℕ
default_heartbeat_s = 10

pub record Client : Type 0 where
  -- `cfg.Runner != nil` and `cfg.Deployments != nil`
  pub has_runner : Bool
  pub has_engine : Bool
  pub data_plane_addr : String
  -- what is active, by id, with whether its context was cancelled
  pub jobs : GoMap Bool
  pub deployments : GoMap Bool
  -- the outbound queue of the session, nil when disconnected
  pub out : Option (List AgentMessage)

unfoldable pub new : Bool → Bool → String → Client
new has_runner has_engine addr = record {
  has_runner = has_runner;
  has_engine = has_engine;
  data_plane_addr = addr;
  jobs = [];
  deployments = [];
  out = none;
}

-- `emit` and `emitDeployment`: a message is dropped when there is no session or its queue is full.
unfoldable pub emit : AgentMessage → Client → Client
emit m c = elim c.out [
  | none ↦ c
  | some q ↦
      if ltb (length q) outbound_buffer_size then record c { out = some (q ++ m ∷ []) } else c
]

abbrev pub failed_job : String → String → JobUpdate
failed_job id error = record {
  job_id = id;
  state = JobState.failed;
  log_chunk = "";
  exit_code = 0;
  error = error;
}

abbrev pub failed_deployment : String → String → DeploymentUpdate
failed_deployment id error = record {
  deployment_id = id;
  state = DeploymentState.failed;
  host_port = 0;
  error = error;
  progress_percent = 0;
}

-- `startJob`, with the specs of the goroutines that it starts.
unfoldable pub start_job : JobSpec → Client → Client × List JobSpec
unfolding emit
start_job spec c =
    if c.has_runner
    then elim (get spec.job_id c.jobs) [
      | some _ ↦ (c, [])
      | none ↦ (record c { jobs = put spec.job_id false c.jobs }, spec ∷ [])
    ]
    else (
      emit (AgentMessage.job_update (failed_job spec.job_id "node has no container runtime")) c,
      [],
    )

-- The call of a cancel function that the table has.
unfoldable pub cancel : String → GoMap Bool → GoMap Bool
cancel id m = elim (get id m) [ none ↦ m | some _ ↦ put id true m ]

unfoldable pub cancel_job : String → Client → Client
unfolding cancel
cancel_job id c = record c { jobs = cancel id c.jobs }

unfoldable pub remove_job : String → Client → Client
remove_job id c = record c { jobs = delete id c.jobs }

unfoldable pub start_deployment : DeploymentSpec → Client → Client × List DeploymentSpec
unfolding emit
start_deployment spec c =
    if c.has_engine
    then elim (get spec.deployment_id c.deployments) [
      | some _ ↦ (c, [])
      | none ↦ (record c { deployments = put spec.deployment_id false c.deployments }, spec ∷ [])
    ]
    else (
      emit
          (AgentMessage.deployment_update
            (failed_deployment spec.deployment_id "node has no deployment engine"))
          c,
      [],
    )

unfoldable pub stop_deployment : String → Client → Client
unfolding cancel
stop_deployment id c = record c { deployments = cancel id c.deployments }

unfoldable pub remove_deployment : String → Client → Client
remove_deployment id c = record c { deployments = delete id c.deployments }

unfoldable pub keys : GoMap Bool → List String
keys [] = []
keys ((k, v) ∷ m) = k ∷ keys m

-- The heartbeat that `heartbeatLoop` sends.
unfoldable pub heartbeat_of : Client → Heartbeat
unfolding keys
heartbeat_of c = record {
  active_job_ids = keys c.jobs;
  active_deployment_ids = keys c.deployments;
  data_plane_addr = c.data_plane_addr;
}

-- `out <- hb` blocks while the queue is full.
unfoldable pub send_heartbeat : Client → Client
unfolding heartbeat_of emit
send_heartbeat c = emit (AgentMessage.heartbeat (heartbeat_of c)) c

-- The id that the node goes by once `RegisterAck` has come.
unfoldable pub acknowledged_id : String → String → String
acknowledged_id known ack = if not (is_empty ack) && not (str_eq ack known) then ack else known

unfoldable pub heartbeat_interval : ℕ → Duration
heartbeat_interval ack_s = if ltb 0 ack_s then ack_s * second else default_heartbeat_s * second

-- The queue is published once the acknowledgement has come, so `Register` has left it by then.
unfoldable pub open_session : Client → Client
open_session c = record c { out = some [] }

unfoldable pub close_session : Client → Client
close_session c = record c { out = none }

-- The writer takes the next message.
unfoldable pub take_next : Client → Client × Option AgentMessage
take_next c = elim c.out [
  | none ↦ (c, none)
  | some q ↦ elim q [ [] ↦ (c, none) | m ∷ ms ↦ (record c { out = some ms }, some m) ]
]

-- The goroutines that a message starts.
pub record Started : Type 0 where
  pub jobs : List JobSpec
  pub deployments : List DeploymentSpec

-- One turn of the receive loop.
unfoldable pub dispatch : CoordinatorMessage → Client → Client × Started
unfolding start_job start_deployment stop_deployment
dispatch (CoordinatorMessage.run_job spec) c =
    let (c', js) = start_job spec c in (c', record { jobs = js; deployments = [] })
dispatch (CoordinatorMessage.start_deployment spec) c =
    let (c', ds) = start_deployment spec c in (c', record { jobs = []; deployments = ds })
dispatch (CoordinatorMessage.stop_deployment id) c =
    (stop_deployment id c, record { jobs = []; deployments = [] })
dispatch (CoordinatorMessage.register_ack _ _) c = (c, record { jobs = []; deployments = [] })
