-- ===== src/Scheduler/Reconciling.antt =====
-- `Reconcile` of coordinator/internal/scheduler/scheduler.go: which jobs a heartbeat marks FAILED.
use gridlink.Prelude.{
  String, true, false, ◌≡◌, ◌+◌, ◌≤◌, ◌<◌, sym, ◌∙◌, ap, List, some, arith, eq_iff, contains, Time,
  ◌⊎◌, inl, inr, Option-cases,
}
use gridlink.GoMap.{get, map_values}
use gridlink.GoMap.Laws.{get-map_values}
use gridlink.Proto.{JobSpec, JobState, NodeStatus, CoordinatorMessage}
use gridlink.Wire.{Env, Stream}
use gridlink.Registry.{Node, Registry, get_node}
use gridlink.Scheduler.{
  Scheduler, Job, is_terminal, reconcile_job, reconcile, get_job, reconcile_grace, run_job, pending,
}
use gridlink.Scheduler.Dispatch.{run_job_accepted}

pub get-reconcile :
    (now : Time) (s : Scheduler) (node : String) (active : List String) (k : String) (j : Job)
    → get_job s k ≡ some j
    → get_job (reconcile now s node active) k ≡ some (reconcile_job now node active j)
unfolding reconcile
get-reconcile now s node active k j e =
    ground (arith, get-map_values (reconcile_job now node active) k s.jobs)

-- A job that the agent could still be expected to report: it is due when it is live at that node,
-- missing from the heartbeat, and at least the grace period old.
pub record IsLost (now : Time) (node : String) (active : List String) (j : Job) : Type 0 where
  pub here : j.node_id ≡ node
  pub live : is_terminal j.state ≡ false
  pub missing : contains j.id active ≡ false
  pub quiet : j.last_update + reconcile_grace ≤ now

kept_or_IsLost :
    (now : Time) (node : String) (active : List String) (j : Job)
    → (reconcile_job now node active j ≡ j) ⊎ IsLost now node active j
unfolding reconcile_job
kept_or_IsLost now node active j = ground (arith, eq_iff j.node_id node)

reconcile_job_twice :
    (now : Time) (node : String) (active : List String) (j : Job)
    → reconcile_job now node active (reconcile_job now node active j)
      ≡ reconcile_job now node active j
unfolding reconcile_job is_terminal
reconcile_job_twice now node active j = ground arith

-- A heartbeat marks a job FAILED, now and with the reason, exactly if the job is live at that node,
-- missing from the heartbeat, and not updated for the grace period; every other job is
-- untouched.
pub reconcile_exact :
    (now : Time) (s : Scheduler) (node : String) (active : List String) (k : String) (j : Job)
    → get_job s k ≡ some j
    → (IsLost now node active j
        → get_job (reconcile now s node active) k
          ≡ some (record j {
            state = JobState.failed;
            error = "agent no longer reports this job";
            last_update = now;
          }))
      × (¬ IsLost now node active j → get_job (reconcile now s node active) k ≡ some j)
unfolding reconcile_job
reconcile_exact now s node active k j e = (
  λ l. get-reconcile now s node active k j e ∙ ap some (ground (arith, eq_iff j.node_id node)),
  λ n. elim (kept_or_IsLost now node active j) [
    | inl same ↦ get-reconcile now s node active k j e ∙ ap some same
    | inr l ↦ absurd (n l)
  ],
)

-- A second heartbeat with the same contents at the same instant changes nothing more.
pub reconcile_twice :
    (now : Time) (s : Scheduler) (node : String) (active : List String) (k : String)
    → get_job (reconcile now (reconcile now s node active) node active) k
      ≡ get_job (reconcile now s node active) k
unfolding reconcile
reconcile_twice now s node active k = elim (Option-cases (get k s.jobs)) [
  | inl e ↦
      let f = reconcile_job now node active in
      ground (arith, get-map_values f k (map_values f s.jobs), get-map_values f k s.jobs)
  | inr (j, e) ↦
      let once = get-reconcile now s node active k j e in
      get-reconcile now (reconcile now s node active) node active k _ once
      ∙ ap some (reconcile_job_twice now node active j)
      ∙ sym once
]

-- A job that was accepted is not marked FAILED by any heartbeat of its node within the grace period
-- that follows, also if the heartbeat does not list it yet.
pub dispatched_in_grace :
    (env : Env) (reg : Registry) (s : Scheduler) (id : String) (spec : JobSpec) (n : Node)
    (stream : Stream)
    → get_node reg id ≡ some n
    → n.status ≡ NodeStatus.online
    → n.send ≡ some stream
    → env.sends stream (CoordinatorMessage.run_job (record spec { job_id = env.new_id })) ≡ true
    → (now : Time) (active : List String) → now < env.now + reconcile_grace
    → get_job (reconcile now (run_job env reg s id spec).0 id active) env.new_id
      ≡ some (pending env id)
dispatched_in_grace env reg s id spec n stream known on live sent now active h =
    get-reconcile now (run_job env reg s id spec).0 id active env.new_id (pending env id)
      (run_job_accepted env reg s id spec n stream known on live sent).1
    ∙ ap some (unfold reconcile_job pending in ground arith)
