-- ===== src/Deployments/Actions.antt =====
-- The methods of coordinator/internal/deployments/deployments.go that change the table or send to
-- a node. Each runs as one step here: nothing else changes the table between the places where it
-- lets go of the mutex. Log lines are left out.
use gridlink.Prelude.{
  ℕ, String, Bool, false, ◌&&◌, ◌==◌, not, ltb, List, [], ◌∷◌, ◌++◌, Option, none, some, Time,
  str_eq, is_empty, contains, older_than, if◌then◌else◌, Result, ok, err,
}
use gridlink.GoMap.{get, put, delete, values}
use gridlink.Proto.{
  DeploymentSpec, DeploymentState, DeploymentUpdate, Engine, RunnerKind, CoordinatorMessage,
}
use gridlink.Wire.{Env, Stream, Sent, deliver}
use gridlink.Registry.{Node, Registry, get_node}
use gridlink.Deployments.State.{
  Deployment, Manager, Replica, required_runner, assign, set_replica, lost_after,
}
use gridlink.Deployments.Selection.{PlaceError, send_failed, nil_send, select_node}

pub data CreateError : Type 0 where
  invalid_spec replicas_unsupported : CreateError

pub data DeleteError : Type 0 where
  unknown_deployment : DeleteError

-- What `place` writes into `d.Replica`.
unfoldable pub placement : Time → Deployment → Node → Replica
placement now d n = record {
  deployment_id = d.id;
  node_id = n.id;
  state = DeploymentState.pulling;
  host_port = 0;
  progress = 0;
  err_text = "";
  placed_at = now;
  last_update = now;
}

-- The rest of `place` with the node's stream; a nil `Send` would panic.
unfoldable pub send_start :
    Env → Manager → Deployment → Node → Option Stream → Manager × Option PlaceError × List Sent
unfolding placement
send_start env m d n none = (m, some nil_send, [])
send_start env m d n (some s) =
    let message = CoordinatorMessage.start_deployment d.spec in
    if env.sends s message
    then (assign d.id (set_replica (some (placement env.now d n))) m, none, deliver env s message)
    else (m, some (send_failed n.id), [])

unfoldable pub place :
    Env → Registry → Manager → Deployment → RunnerKind → Manager × Option PlaceError × List Sent
unfolding send_start
place env reg m d kind = elim (select_node env.now reg m d kind) [
  | err e ↦ (m, some e, [])
  | ok n ↦ send_start env m d n n.send
]

-- `native := spec.GetNative(); native != nil && native.GetModelFile() == ""`
unfoldable pub lacks_model_file : Engine → Bool
lacks_model_file (Engine.native n) = is_empty n.model_file
lacks_model_file _ = false

-- The deployment that `Create` enters, with its own copy of the spec.
unfoldable pub created : Env → DeploymentSpec → Deployment
created env spec = record {
  id = env.new_id;
  spec = record spec { deployment_id = env.new_id };
  replica = none;
  avoid = [];
}

-- The part of `Create` that follows validation. Its result does not depend on whether the
-- deployment could be placed.
unfoldable pub enter : Env → Registry → Manager → DeploymentSpec → RunnerKind → Manager × List Sent
unfolding created
enter env reg m spec kind =
    let d = created env spec in
    let (m', _, sent) = place env reg (record m { deploy = put env.new_id d m.deploy }) d kind in
    (m', sent)

unfoldable pub create :
    Env → Registry → Manager → DeploymentSpec → ℕ → Manager × Result CreateError String × List Sent
unfolding lacks_model_file
create env reg m spec replicas =
    if is_empty spec.served_model_name
    then (m, err invalid_spec, [])
    else if ltb 1 replicas
    then (m, err replicas_unsupported, [])
    else elim (required_runner spec) [
      | none ↦ (m, err invalid_spec, [])
      | some kind ↦
          if lacks_model_file spec.engine
          then (m, err invalid_spec, [])
          else let (m', sent) = enter env reg m spec kind in (m', ok env.new_id, sent)
    ]

-- `sendStop`: its error is only logged.
unfoldable pub send_stop : Env → Registry → String → String → List Sent
send_stop env reg node_id deployment_id = elim (get_node reg node_id) [
  | none ↦ []
  | some n ↦ elim n.send [
    | none ↦ []
    | some s ↦ deliver env s (CoordinatorMessage.stop_deployment deployment_id)
  ]
]

unfoldable pub remove :
    Env → Registry → Manager → String → Manager × Result DeleteError (Unit {0}) × List Sent
unfolding send_stop
remove env reg m id = elim (get id m.deploy) [
  | none ↦ (m, err unknown_deployment, [])
  | some d ↦ (
    record m { deploy = delete id m.deploy },
    ok tt,
    elim d.replica [ none ↦ [] | some r ↦ send_stop env reg r.node_id id ],
  )
]

-- The assignments of `OnUpdate` to the replica.
unfoldable pub apply_update : Time → DeploymentUpdate → Replica → Replica
apply_update now upd r = record r {
  state = upd.state;
  progress = upd.progress_percent;
  err_text = upd.error;
  last_update = now;
  host_port = if upd.host_port == 0 then r.host_port else upd.host_port;
}

-- The replica that an update from the node speaks of, with its deployment.
unfoldable pub placed_on : String → Option Deployment → Option (Deployment × Replica)
placed_on node_id none = none
placed_on node_id (some d) = elim d.replica [
  | none ↦ none
  | some r ↦ if str_eq r.node_id node_id then some (d, r) else none
]

unfoldable pub on_update :
    Env → Registry → Manager → String → DeploymentUpdate → Manager × List Sent
unfolding apply_update placed_on send_stop
on_update env reg m node_id upd = elim (placed_on node_id (get upd.deployment_id m.deploy)) [
  | none ↦ (m, send_stop env reg node_id upd.deployment_id)
  | some (d, r) ↦ (assign upd.deployment_id (set_replica (some (apply_update env.now upd r))) m, [])
]

-- `d.Replica != nil && d.Replica.NodeID == nodeID`
unfoldable pub is_on : String → Deployment → Bool
is_on node_id d = elim d.replica [ none ↦ false | some r ↦ str_eq r.node_id node_id ]

-- The node was given time to report the deployment, and did not.
unfoldable pub is_missing : Time → String → List String → Deployment → Bool
is_missing now node_id active d = elim d.replica [
  | none ↦ false
  | some r ↦
      str_eq r.node_id node_id
      && not (contains d.id active)
      && older_than now r.placed_at lost_after
]

unfoldable pub wanted_on : String → List Deployment → List String
unfolding is_on
wanted_on node_id [] = []
wanted_on node_id (d ∷ ds) =
    let rest = wanted_on node_id ds in if is_on node_id d then d.id ∷ rest else rest

unfoldable pub missing_on : Time → String → List String → List Deployment → List Deployment
unfolding is_missing
missing_on now node_id active [] = []
missing_on now node_id active (d ∷ ds) =
    let rest = missing_on now node_id active ds in
    if is_missing now node_id active d then d ∷ rest else rest

-- The loop that stops what the node should not run.
unfoldable pub stop_orphans : Env → Registry → String → List String → List String → List Sent
unfolding send_stop
stop_orphans env reg node_id wanted [] = []
stop_orphans env reg node_id wanted (id ∷ ids) =
    let rest = stop_orphans env reg node_id wanted ids in
    if contains id wanted then rest else send_stop env reg node_id id ++ rest

-- The loop of `m.unplace(d)`.
unfoldable pub unplace_all : List Deployment → Manager → Manager
unplace_all [] m = m
unplace_all (d ∷ ds) m = unplace_all ds (assign d.id (set_replica none) m)

unfoldable pub on_heartbeat : Env → Registry → Manager → String → List String → Manager × List Sent
unfolding wanted_on missing_on stop_orphans unplace_all
on_heartbeat env reg m node_id active = (
  unplace_all (missing_on env.now node_id active (values m.deploy)) m,
  stop_orphans env reg node_id (wanted_on node_id (values m.deploy)) active,
)
