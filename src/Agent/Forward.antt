-- ===== src/Agent/Forward.antt =====
-- `runJob` and `runDeployment` of agent/internal/client/client.go: the updates of a job and of a
-- deployment on their way to the coordinator.
pub mod Recorded
use gridlink.Prelude.{ℕ, String, List, [], ◌∷◌, ◌++◌, Option, none, some, Result, ok, err, map}
use gridlink.Bytes.{Bytes}
use gridlink.Proto.{JobUpdate, DeploymentUpdate, AgentMessage}
use gridlink.Runner
use gridlink.Native
use gridlink.Agent.Client.{
  Client, emit, failed_job, failed_deployment, remove_job, remove_deployment,
}

unfoldable pub emit_all : List AgentMessage → Client → Client
unfolding emit
emit_all [] c = c
emit_all (m ∷ ms) c = emit_all ms (emit m c)

-- `text` is the conversion of bytes to a string.
unfoldable pub job_update_of : (Bytes → String) → String → Runner.Update → JobUpdate
job_update_of text id u = record {
  job_id = id;
  state = u.state;
  log_chunk = text u.log_chunk;
  exit_code = u.exit_code;
  error = u.error;
}

unfoldable pub deployment_update_of : String → Native.Update → DeploymentUpdate
deployment_update_of id u = record {
  deployment_id = id;
  state = u.state;
  host_port = u.host_port;
  error = u.error;
  progress_percent = u.progress;
}

-- With what the runner answers: an error, or the updates up to the close of their channel.
unfoldable pub run_job :
    (Bytes → String) → String → Result String (List Runner.Update) → Client → Client
unfolding emit_all job_update_of emit remove_job
run_job text id (err e) c = remove_job id (emit (AgentMessage.job_update (failed_job id e)) c)
run_job text id (ok us) c =
    remove_job id (emit_all (map (λ u. AgentMessage.job_update (job_update_of text id u)) us) c)

unfoldable pub run_deployment : String → Result String (List Native.Update) → Client → Client
unfolding emit_all deployment_update_of emit remove_deployment
run_deployment id (err e) c =
    remove_deployment id (emit (AgentMessage.deployment_update (failed_deployment id e)) c)
run_deployment id (ok us) c =
    remove_deployment id
      (emit_all (map (λ u. AgentMessage.deployment_update (deployment_update_of id u)) us) c)
