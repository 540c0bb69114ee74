-- ===== src/Server/Agents.antt =====
-- `Connect` of coordinator/internal/server/server.go: the life of one agent's stream, as the steps
-- between which the handlers of other streams run. Log lines are left out.
use gridlink.Prelude.{ℕ, String, List, [], if◌then◌else◌, Result, ok, err}
use gridlink.Proto.{AgentMessage, CoordinatorMessage}
use gridlink.Wire.{Env, Stream, Sent, deliver}
use gridlink.Registry.{Registry, upsert, touch, mark_disconnected}
use gridlink.Scheduler
use gridlink.Scheduler.{Scheduler, on_job_update}
use gridlink.Deployments.State.{Manager}
use gridlink.Deployments.Actions.{on_update, on_heartbeat}

-- The tables that `agentServer` holds.
pub record Tables : Type 0 where
  pub reg : Registry
  pub sched : Scheduler
  pub deploy : Manager

abbrev pub heartbeat_interval_s : ℕ
heartbeat_interval_s = 10

-- `codes.Code` of a status, as far as the server returns one.
pub data Code : Type 0 where
  unauthenticated invalid_argument not_found failed_precondition unavailable internal : Code

-- What ends a call of `Connect` at its start.
pub data ConnectError : Type 0 where
  status : Code → ConnectError
  send_error : ConnectError

-- From the first message to the acknowledgement. When that cannot be sent, the deferred
-- `MarkDisconnected` runs at once; otherwise the loop goes on with the node's id.
unfoldable pub open_session :
    Env → Stream → Tables → AgentMessage → Tables × Result ConnectError String × List Sent
open_session env s t (AgentMessage.register reg) =
    let (reg', node_id) = upsert env t.reg reg s in
    let ack = CoordinatorMessage.register_ack node_id heartbeat_interval_s in
    if env.sends s ack
    then (record t { reg = reg' }, ok node_id, deliver env s ack)
    else (record t { reg = mark_disconnected reg' node_id }, err send_error, [])
open_session env s t _ = (t, err (status invalid_argument), [])

-- One turn of the loop with a message received.
unfoldable pub handle : Env → Stream → String → Tables → AgentMessage → Tables × List Sent
handle env s node_id t (AgentMessage.heartbeat hb) =
    let reg' = touch env t.reg node_id hb in
    let (deploy', sent) = on_heartbeat env reg' t.deploy node_id hb.active_deployment_ids in
    (
      record {
        reg = reg';
        sched = Scheduler.reconcile env.now t.sched node_id hb.active_job_ids;
        deploy = deploy';
      },
      sent,
    )
handle env s node_id t (AgentMessage.job_update upd) =
    (record t { sched = on_job_update env t.sched node_id upd }, [])
handle env s node_id t (AgentMessage.deployment_update upd) =
    let (deploy', sent) = on_update env t.reg t.deploy node_id upd in
    (record t { deploy = deploy' }, sent)
handle env s node_id t (AgentMessage.register reg) =
    (record t { reg = (upsert env t.reg reg s).0 }, [])
handle env s node_id t AgentMessage.unset = (t, [])

-- `stream.Recv` fails, and the deferred call runs.
unfoldable pub close_session : String → Tables → Tables
close_session node_id t = record t { reg = mark_disconnected t.reg node_id }
