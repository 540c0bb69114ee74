-- ===== src/Server/System.antt =====
-- The coordinator as coordinator/internal/server/server.go runs it: the open agent streams, the
-- calls of the admin service and the two tickers, in any order, one step at a time.
pub mod Invariant
pub mod Bound
pub mod Forks
use gridlink.Prelude.{
  ℕ, String, List, [], ◌∷◌, Option, none, some, ◌*◌, ◌==◌, second, if◌then◌else◌, Result, ok, err,
}
use gridlink.Proto.{AgentMessage, JobSpec, DeploymentSpec}
use gridlink.Wire.{Env, Stream, Sent}
use gridlink.Registry
use gridlink.Registry.{reap}
use gridlink.Scheduler
use gridlink.Deployments.State
use gridlink.Deployments.Reconciler.{reconcile}
use gridlink.Server.Agents.{
  Tables, ConnectError, heartbeat_interval_s, open_session, handle, close_session,
}
use gridlink.Server.Admin.{admin_run_job, create_deployment, delete_deployment}

-- A stream whose `Connect` is in its loop, with the node's id.
abbrev pub Sessions : Type 0
Sessions = List (Stream × String)

unfoldable pub session_of : Stream → Sessions → Option String
session_of s [] = none
session_of s ((t, id) ∷ ss) = if t == s then some id else session_of s ss

unfoldable pub end_session : Stream → Sessions → Sessions
end_session s [] = []
end_session s ((t, id) ∷ ss) =
    let rest = end_session s ss in if t == s then rest else (t, id) ∷ rest

pub record System : Type 0 where
  pub tables : Tables
  pub sessions : Sessions

unfoldable pub start : System
start = record {
  tables = record { reg = Registry.new; sched = Scheduler.new; deploy = State.new };
  sessions = [];
}

pub data Event : Type 0 where
  connects : Stream → AgentMessage → Event
  receives : Stream → AgentMessage → Event
  ends : Stream → Event
  runs_job : String → JobSpec → Event
  creates : DeploymentSpec → ℕ → Event
  deletes : String → Event
  reaps : Event
  reconciles : Event

-- What `Connect` does once it has an answer to the first message: it returns or starts its loop.
unfoldable pub enter : Stream → System → Tables → Result ConnectError String → System
enter s c t (err _) = record c { tables = t }
enter s c t (ok id) = record { tables = t; sessions = (s, id) ∷ c.sessions }

-- gRPC gives every call of `Connect` a stream of its own, so one that is open does not connect.
unfoldable pub connect : Env → Stream → AgentMessage → System → System × List Sent
unfolding open_session session_of enter
connect env s m c = elim (session_of s c.sessions) [
  | some _ ↦ (c, [])
  | none ↦ let (t, result, sent) = open_session env s c.tables m in (enter s c t result, sent)
]

unfoldable pub receive : Env → Stream → AgentMessage → System → System × List Sent
unfolding handle session_of
receive env s m c = elim (session_of s c.sessions) [
  | none ↦ (c, [])
  | some id ↦ let (t, sent) = handle env s id c.tables m in (record c { tables = t }, sent)
]

unfoldable pub end_stream : Stream → System → System
unfolding close_session session_of end_session
end_stream s c = elim (session_of s c.sessions) [
  | none ↦ c
  | some id ↦ record { tables = close_session id c.tables; sessions = end_session s c.sessions }
]

unfoldable pub step : System → Env × Event → System × List Sent
unfolding connect receive end_stream
step c (env, connects s m) = connect env s m c
step c (env, receives s m) = receive env s m c
step c (env, ends s) = (end_stream s c, [])
step c (env, runs_job node_id spec) =
    let (sched', _, sent) = admin_run_job env c.tables node_id spec in
    (record c { tables = record c.tables { sched = sched' } }, sent)
step c (env, creates spec replicas) =
    let (deploy', _, sent) = create_deployment env c.tables spec replicas in
    (record c { tables = record c.tables { deploy = deploy' } }, sent)
step c (env, deletes id) =
    let (deploy', _, sent) = delete_deployment env c.tables id in
    (record c { tables = record c.tables { deploy = deploy' } }, sent)
step c (env, reaps) = (
  record c {
    tables = record c.tables { reg = reap env.now (heartbeat_interval_s * second) c.tables.reg };
  },
  [],
)
step c (env, reconciles) =
    let (deploy', sent) = reconcile env c.tables.reg c.tables.deploy in
    (record c { tables = record c.tables { deploy = deploy' } }, sent)

unfoldable pub run : System → List (Env × Event) → System
unfolding step
run c [] = c
run c (e ∷ es) = run (step c e).0 es
