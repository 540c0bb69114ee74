-- ===== src/Scheduler.antt =====
-- coordinator/internal/scheduler/scheduler.go: jobs that an operator sends to a named node. Each
-- function is one method; log lines are left out.
pub mod Dispatch
pub mod Updates
pub mod Reconciling
mod Tests
use gridlink.Prelude.{
  ℕ, String, Bool, true, false, ◌+◌, ◌*◌, ◌&&◌, ◌||◌, not, List, [], ◌∷◌, Option, none, some, Time,
  Duration, second, ltb, is_empty, str_eq, contains, if◌then◌else◌, Result, ok, err,
}
use gridlink.GoMap.{GoMap, get, put, delete, map_values}
use gridlink.Proto.{JobSpec, JobState, JobUpdate, CoordinatorMessage}
use gridlink.Wire.{Env, Stream, Sent, deliver}
use gridlink.Registry.{Node, Registry, get_node, is_online}

pub data RunError : Type 0 where
  unknown_node node_offline send_failed : RunError

pub record Job : Type 0 where
  pub id : String
  pub node_id : String
  pub state : JobState
  pub last_update : Time
  pub error : String
  pub exit_code : ℕ

pub record Scheduler : Type 0 where
  pub jobs : GoMap Job

-- `reconcileGrace`
abbrev pub reconcile_grace : Duration
reconcile_grace = 30 * second

unfoldable pub new : Scheduler
new = record { jobs = [] }

unfoldable pub is_terminal : JobState → Bool
is_terminal JobState.succeeded = true
is_terminal JobState.failed = true
is_terminal JobState.cancelled = true
is_terminal _ = false

-- The job as `RunJob` records it before it sends.
unfoldable pub pending : Env → String → Job
pending env node_id = record {
  id = env.new_id;
  node_id = node_id;
  state = JobState.pending;
  last_update = env.now;
  error = "";
  exit_code = 0;
}

-- The rest of `RunJob` once the node is known to have a stream: the job is recorded, the message
-- sent, and the record deleted again if the send fails.
unfoldable pub dispatch :
    Env → Scheduler → String → JobSpec → Stream → Scheduler × Result RunError String × List Sent
unfolding pending
dispatch env s node_id spec stream =
    let message = CoordinatorMessage.run_job (record spec { job_id = env.new_id }) in
    let jobs = put env.new_id (pending env node_id) s.jobs in
    if env.sends stream message
    then (record s { jobs = jobs }, ok env.new_id, deliver env stream message)
    else (record s { jobs = delete env.new_id jobs }, err send_failed, [])

-- `node.Status != ONLINE || node.Send == nil`
unfoldable pub stream_of : Node → Option Stream
stream_of n = if is_online n.status then n.send else none

unfoldable pub run_job :
    Env → Registry → Scheduler → String → JobSpec → Scheduler × Result RunError String × List Sent
unfolding stream_of
run_job env reg s node_id spec = elim (get_node reg node_id) [
  | none ↦ (s, err unknown_node, [])
  | some n ↦ elim (stream_of n) [
    | none ↦ (s, err node_offline, [])
    | some stream ↦ dispatch env s node_id spec stream
  ]
]

-- `&Job{ID: ..., NodeID: ...}`: a job that the table does not know is adopted.
unfoldable pub known_or_adopted : Option Job → String → String → Job
known_or_adopted (some j) id node_id = j
known_or_adopted none id node_id = record {
  id = id;
  node_id = node_id;
  state = JobState.unspecified;
  last_update = 0;
  error = "";
  exit_code = 0;
}

abbrev pub is_unspecified : JobState → Bool
is_unspecified JobState.unspecified = true
is_unspecified _ = false

-- The assignments of `OnJobUpdate` to the job.
unfoldable pub apply_update : Time → JobUpdate → Job → Job
unfolding is_terminal
apply_update now upd j = record j {
  state = if is_unspecified upd.state then j.state else upd.state;
  error = if is_terminal upd.state then upd.error else j.error;
  exit_code = if is_terminal upd.state then upd.exit_code else j.exit_code;
  last_update = now;
}

unfoldable pub on_job_update : Env → Scheduler → String → JobUpdate → Scheduler
unfolding apply_update known_or_adopted
on_job_update env s node_id upd = if is_empty upd.job_id then s else record s {
  jobs =
      put upd.job_id
        (apply_update env.now upd (known_or_adopted (get upd.job_id s.jobs) upd.job_id node_id))
        s.jobs;
}

-- The body of the loop of `Reconcile`. `LastUpdate.After(now - grace)` is `now < LastUpdate + grace`.
unfoldable pub reconcile_job : Time → String → List String → Job → Job
unfolding is_terminal
reconcile_job now node_id active j =
    if not (str_eq j.node_id node_id) || is_terminal j.state || contains j.id active
    then j
    else if ltb now (j.last_update + reconcile_grace)
    then j
    else record j {
      state = JobState.failed;
      error = "agent no longer reports this job";
      last_update = now;
    }

unfoldable pub reconcile : Time → Scheduler → String → List String → Scheduler
unfolding reconcile_job
reconcile now s node_id active = record s {
  jobs = map_values (reconcile_job now node_id active) s.jobs;
}

-- `Get`: a copy of the job.
abbrev pub get_job : Scheduler → String → Option Job
get_job s id = get id s.jobs
