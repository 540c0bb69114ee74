-- ===== src/Runner/Tests.antt =====
-- The runner on concrete jobs.
use gridlink.Prelude.{true, false, ◌≡◌, List, [], ◌∷◌, ◌++◌, none}
use gridlink.Bytes.{codes}
use gridlink.Proto.{JobState}
use gridlink.Runner.Container.{Spec}
use gridlink.Runner.Pull.{message, end_of_file}
use gridlink.Runner.Logs.{
  Event, written, tick, coalesce, concat, written_text, NoneEmpty, coalesce-concat,
}
use gridlink.Runner.Job.{World, alive, exited, run}
use gridlink.Runner.Job.Course.{IsJobLife, IsClean, sent, run-IsJobLife}

abbrev spec : Spec
spec = record {
  job_id = codes "j-1";
  image = codes "alpine";
  command = codes "true" ∷ [];
  env = (codes "B", codes "2") ∷ (codes "A", codes "1") ∷ [];
  gpu = false;
  memory_limit_mb = 512;
  timeout_s = 0;
}

abbrev events : List Event
events = written (codes "a") ∷ written (codes "b") ∷ tick ∷ tick ∷ written (codes "c") ∷ []

coalesce-concat_example :
    (concat (coalesce events []) ≡ [] ++ written_text events) × NoneEmpty (coalesce events [])
coalesce-concat_example = coalesce-concat events []

abbrev world : World
world = record {
  opened = true;
  messages = message (codes "Pulling") [] ∷ message (codes "Pulling") [] ∷ end_of_file ∷ [];
  pull_text = λ e. "pull failed";
  created = none;
  started = none;
  log = events;
  outcome = exited none 3;
  shown = λ n. "3";
  context = alive;
}

run-IsJobLife_example :
    IsJobLife "j-1" JobState.unspecified (sent (run "j-1" spec world))
    × IsClean false (run "j-1" spec world)
run-IsJobLife_example = run-IsJobLife "j-1" spec world
