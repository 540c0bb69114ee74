-- ===== src/Server/System/Invariant.antt =====
-- The tables of coordinator/internal/server/server.go between two steps.
use mathlib.Core.Path.{subst}
use gridlink.Prelude.{
  String, ◌≡◌, refl, sym, Result, ok, err, List, [], ◌∷◌, inl, inr, Bool-cases, Option-cases,
}
use gridlink.Proto.{AgentMessage, CoordinatorMessage}
use gridlink.Wire.{Env, Stream}
use gridlink.Registry.{Registry, upsert, mark_disconnected}
use gridlink.Registry.Invariant.{
  upsert-IsValid, touch-IsValid, mark_disconnected-IsValid, reap-IsValid,
}
use gridlink.Deployments.Exclusive.{new-IsValid}
use gridlink.Deployments.Exclusive.Histories
use gridlink.Deployments.Exclusive.Histories.{creates, removes, updates, heartbeats, reconciles}
use gridlink.Server.Agents.{
  Tables, ConnectError, heartbeat_interval_s, open_session, handle, close_session,
}
use gridlink.Server.Admin.{create_deployment, delete_deployment}
use gridlink.Server.System
use gridlink.Server.System.{
  System, Event, start, session_of, enter, connect, receive, end_stream, step, run,
}

-- The registry and the deployment table are valid.
pub record IsSound (t : Tables) : Type 0 where
  pub reg : gridlink.Registry.Invariant.IsValid t.reg
  pub deploy : gridlink.Deployments.Exclusive.IsValid t.deploy

open_session-IsSound :
    (env : Env) (s : Stream) (t : Tables) (m : AgentMessage)
    → IsSound t
    → IsSound (open_session env s t m).0
unfolding open_session
open_session-IsSound env s t (AgentMessage.register reg) v =
    let id = (upsert env t.reg reg s).1 in
    elim (Bool-cases (env.sends s (CoordinatorMessage.register_ack id heartbeat_interval_s))) [
      | inl e ↦ rw e (record { reg = upsert-IsValid env t.reg reg s v.reg; deploy = v.deploy })
      | inr e ↦ rw e (record {
        reg = mark_disconnected-IsValid _ id (upsert-IsValid env t.reg reg s v.reg);
        deploy = v.deploy;
      })
    ]
open_session-IsSound env s t (AgentMessage.heartbeat _) v = v
open_session-IsSound env s t (AgentMessage.job_update _) v = v
open_session-IsSound env s t (AgentMessage.deployment_update _) v = v
open_session-IsSound env s t AgentMessage.unset v = v

handle-IsSound :
    (env : Env) (s : Stream) (id : String) (t : Tables) (m : AgentMessage)
    → IsSound t
    → IsSound (handle env s id t m).0
unfolding handle Histories.step
handle-IsSound env s id t (AgentMessage.register reg) v = record {
  reg = upsert-IsValid env t.reg reg s v.reg;
  deploy = v.deploy;
}
handle-IsSound env s id t (AgentMessage.heartbeat hb) v = record {
  reg = touch-IsValid env t.reg id hb v.reg;
  deploy =
      Histories.step-IsValid t.deploy (env, _, Histories.heartbeats id hb.active_deployment_ids)
        v.deploy;
}
handle-IsSound env s id t (AgentMessage.job_update upd) v = record {
  reg = v.reg;
  deploy = v.deploy;
}
handle-IsSound env s id t (AgentMessage.deployment_update upd) v = record {
  reg = v.reg;
  deploy = Histories.step-IsValid t.deploy (env, t.reg, Histories.updates id upd) v.deploy;
}
handle-IsSound env s id t AgentMessage.unset v = v

enter_lem :
    (s : Stream) (c : System) (t : Tables) (r : Result ConnectError String)
    → (enter s c t r).tables ≡ t
unfolding enter
enter_lem s c t (ok id) = refl
enter_lem s c t (err e) = refl

connect-IsSound :
    (env : Env) (s : Stream) (m : AgentMessage) (c : System)
    → IsSound c.tables
    → IsSound (connect env s m c).0.tables
unfolding connect
connect-IsSound env s m c v = elim (Option-cases (session_of s c.sessions)) [
  | inr (x, e) ↦ rw (e, connect) v
  | inl e ↦
      rw (e, connect)
        (subst IsSound (sym (enter_lem s c _ (open_session env s c.tables m).1))
          (open_session-IsSound env s c.tables m v))
]

receive-IsSound :
    (env : Env) (s : Stream) (m : AgentMessage) (c : System)
    → IsSound c.tables
    → IsSound (receive env s m c).0.tables
unfolding receive
receive-IsSound env s m c v = elim (Option-cases (session_of s c.sessions)) [
  | inl e ↦ rw (e, receive) v
  | inr (id, e) ↦ rw (e, receive) (handle-IsSound env s id c.tables m v)
]

end_stream-IsSound : (s : Stream) (c : System) → IsSound c.tables → IsSound (end_stream s c).tables
unfolding end_stream close_session
end_stream-IsSound s c v = elim (Option-cases (session_of s c.sessions)) [
  | inl e ↦ rw (e, end_stream) v
  | inr (id, e) ↦
      rw (e, end_stream)
        (record { reg = mark_disconnected-IsValid c.tables.reg id v.reg; deploy = v.deploy })
]

-- A call of the deployment table's methods keeps the tables sound.
managed :
    (c : System) (call : Env × Registry × Histories.Call)
    → IsSound c.tables
    → IsSound (record c.tables { deploy = Histories.step c.tables.deploy call })
managed c call v = record {
  reg = v.reg;
  deploy = Histories.step-IsValid c.tables.deploy call v.deploy;
}

step-IsSound : (c : System) (e : Env × Event) → IsSound c.tables → IsSound (step c e).0.tables
unfolding step Histories.step create_deployment delete_deployment
step-IsSound c (env, System.connects s m) v = connect-IsSound env s m c v
step-IsSound c (env, System.receives s m) v = receive-IsSound env s m c v
step-IsSound c (env, System.ends s) v = end_stream-IsSound s c v
step-IsSound c (env, System.runs_job node_id spec) v = record { reg = v.reg; deploy = v.deploy }
step-IsSound c (env, System.creates spec replicas) v =
    managed c (env, c.tables.reg, Histories.creates spec replicas) v
step-IsSound c (env, System.deletes id) v = managed c (env, c.tables.reg, Histories.removes id) v
step-IsSound c (env, System.reaps) v = record {
  reg = reap-IsValid env.now _ c.tables.reg v.reg;
  deploy = v.deploy;
}
step-IsSound c (env, System.reconciles) v = managed c (env, c.tables.reg, Histories.reconciles) v

run_from-IsSound :
    (c : System) (es : List (Env × Event)) → IsSound c.tables → IsSound (run c es).tables
unfolding run
run_from-IsSound c [] v = v
run_from-IsSound c (e ∷ es) v = run_from-IsSound (step c e).0 es (step-IsSound c e v)

-- After any sequence of connections, messages and ends of agent streams, calls of the admin
-- service and ticks of the reaper and the reconciler, one step at a time, the registry and the
-- deployment table are valid: no node stands twice or keeps a stream while OFFLINE, and no two
-- deployments are placed on one node.
pub run-IsSound : (es : List (Env × Event)) → IsSound (run start es).tables
unfolding start
run-IsSound es = run_from-IsSound start es (record {
  reg = gridlink.Registry.Invariant.new-IsValid;
  deploy = gridlink.Deployments.Exclusive.new-IsValid;
})
