-- ===== src/Scheduler/Tests.antt =====
-- The theorems on the scheduler at concrete inputs.
use gridlink.Prelude.{◌≡◌, ◌*◌, refl, none, some, [], ◌∷◌, arith, second, contains}
use gridlink.GoMap.{get}
use gridlink.Proto.{JobState, NodeStatus}
use gridlink.Registry.{Node}
use gridlink.Scheduler.{Scheduler, Job, reconcile, get_job, is_terminal}
use gridlink.Scheduler.Reconciling.{reconcile_exact}

abbrev pc : Node
pc = record {
  id = "pc";
  hostname = "tower";
  gpu = none;
  system = none;
  last_seen = 0;
  status = NodeStatus.online;
  data_plane_addr = "";
  send = some 4;
}

abbrev old_job : Job
old_job = record {
  id = "old";
  node_id = "pc";
  state = JobState.running;
  last_update = 10 * second;
  error = "";
  exit_code = 0;
}

abbrev one_job : Scheduler
one_job = record { jobs = ("old", old_job) ∷ [] }

get_old : get_job one_job "old" ≡ some old_job
unfolding get
get_old = refl

reconcile_exact_example :
    get_job (reconcile (40 * second) one_job "pc" []) "old"
    ≡ some (record old_job {
      state = JobState.failed;
      error = "agent no longer reports this job";
      last_update = 40 * second;
    })
unfolding is_terminal contains
reconcile_exact_example =
    (reconcile_exact (40 * second) one_job "pc" [] "old" old_job get_old).0
      (record { here = refl; live = refl; missing = refl; quiet = omega arith })
