-- ===== src/Server/Admin.antt =====
-- The admin and gateway services of coordinator/internal/server/server.go, but for usage. The text
-- of a status is left out, its code is kept.
use gridlink.Prelude.{
  ℕ, String, Bool, ◌||◌, List, [], map, is_empty, if◌then◌else◌, Result, ok, err,
}
use gridlink.Proto.{JobSpec, DeploymentSpec}
use gridlink.Wire.{Env, Sent}
use gridlink.Registry
use gridlink.Registry.{Registry, NodeSummary}
use gridlink.Scheduler.{Scheduler, run_job, RunError, unknown_node, node_offline, send_failed}
use gridlink.Deployments.State.{Manager}
use gridlink.Deployments.Actions.{create, remove}
use gridlink.Deployments.Queries
use gridlink.Deployments.Queries.{
  Route, DeploymentSummary, resolve, servable_models, deployed_models, deployment_ids_on,
}
use gridlink.Server.Agents.{Code, Tables}

-- A `NodeSummary` with its `DeploymentIds` attached.
pub record ListedNode : Type 0 where
  pub summary : NodeSummary
  pub deployment_ids : List String

unfoldable pub list_nodes : Tables → List ListedNode
unfolding deployment_ids_on Registry.list
list_nodes t =
    map (λ n. record { summary = n; deployment_ids = deployment_ids_on t.deploy n.node_id })
      (Registry.list t.reg)

unfoldable pub run_job_code : RunError → Code
run_job_code unknown_node = Code.not_found
run_job_code node_offline = Code.failed_precondition
run_job_code send_failed = Code.unavailable

unfoldable pub admin_run_job :
    Env → Tables → String → JobSpec → Scheduler × Result Code String × List Sent
unfolding run_job_code run_job
admin_run_job env t node_id spec =
    if is_empty node_id || is_empty spec.image
    then (t.sched, err Code.invalid_argument, [])
    else let (sched', result, sent) = run_job env t.reg t.sched node_id spec in
      (sched', elim result [ ok id ↦ ok id | err e ↦ err (run_job_code e) ], sent)

-- Both errors of `Create` answer `InvalidArgument`; it has no other.
unfoldable pub create_deployment :
    Env → Tables → DeploymentSpec → ℕ → Manager × Result Code String × List Sent
unfolding create
create_deployment env t spec replicas =
    let (deploy', result, sent) = create env t.reg t.deploy spec replicas in
    (deploy', elim result [ ok id ↦ ok id | err _ ↦ err Code.invalid_argument ], sent)

unfoldable pub delete_deployment :
    Env → Tables → String → Manager × Result Code (Unit {0}) × List Sent
unfolding remove
delete_deployment env t id =
    let (deploy', result, sent) = remove env t.reg t.deploy id in
    (deploy', elim result [ ok u ↦ ok u | err _ ↦ err Code.not_found ], sent)

unfoldable pub list_deployments : Tables → List DeploymentSummary
unfolding Queries.list
list_deployments t = Queries.list t.deploy

unfoldable pub resolve_model : Tables → String → Result Code (List Route)
unfolding resolve
resolve_model t name =
    if is_empty name then err Code.invalid_argument else ok (resolve t.reg t.deploy name)

unfoldable pub list_models : Tables → Bool → List String
unfolding servable_models deployed_models
list_models t include_unready =
    if include_unready then deployed_models t.deploy else servable_models t.reg t.deploy
