-- ===== src/Server/Tests.antt =====
-- The coordinator on concrete runs.
use gridlink.Prelude.{
  ℕ, String, true, ◌≡◌, ◌≢◌, ◌*◌, refl, [], ◌∷◌, List, none, some, arith, second, eq_iff,
}
use gridlink.Proto.{AgentMessage, NodeStatus, Register, Heartbeat, JobSpec, DeploymentSpec, Engine}
use gridlink.Wire.{Env}
use gridlink.Registry.{Node, get_node}
use gridlink.Server.Agents.{Tables}
use gridlink.Server.System
use gridlink.Server.System.{System, Event, start, session_of, receive, end_stream, run}
use gridlink.Server.System.Bound.Steps.{IsAttached, run-IsAttached}
use gridlink.Server.System.Forks.{reregister_forks}

abbrev at : ℕ → Env
at t = record { now = t * second; new_id = "n-new"; sends = λ _ _. true }

abbrev mac : Register
mac = record { node_id = "mac"; hostname = "studio"; gpu = none; system = none }

abbrev alive : Heartbeat
alive = record {
  active_job_ids = "job-1" ∷ [];
  active_deployment_ids = "d-1" ∷ [];
  data_plane_addr = "100.64.0.7";
}

abbrev llama : DeploymentSpec
llama = record {
  deployment_id = "";
  served_model_name = "llama";
  min_vram_mb = 0;
  engine = Engine.container (record { model_ref = "meta/llama"; image = "vllm" });
}

abbrev job : JobSpec
job = record {
  job_id = "";
  image = "cuda";
  command = [];
  env = [];
  gpu = true;
  memory_limit_mb = 0;
  timeout_s = 60;
}

abbrev history : List (Env × Event)
history =
    (at 1, System.connects 1 (AgentMessage.register mac))
    ∷ (at 2, System.receives 1 (AgentMessage.heartbeat alive))
    ∷ (at 3, System.creates llama 1)
    ∷ (at 4, System.runs_job "mac" job)
    ∷ (at 5, System.reconciles)
    ∷ (at 6, System.connects 2 (AgentMessage.register mac))
    ∷ (at 7, System.ends 1)
    ∷ (at 50, System.reaps)
    ∷ []

run-IsAttached_example : IsAttached (run start history)
run-IsAttached_example = run-IsAttached history (tt, (tt, (tt, (tt, (tt, (tt, (tt, (tt, tt))))))))

abbrev connected : System
connected = record { tables = start_tables; sessions = (1, "mac") ∷ [] }
  where
    start_tables : Tables
    start_tables = record {
      reg = record { nodes = [] };
      sched = record { jobs = [] };
      deploy = record { deploy = [] };
    }

abbrev nameless : Register
nameless = record mac { node_id = "" }

n_new_ne_mac : ◌≢◌ {A = String} "n-new" "mac"
n_new_ne_mac = ground (arith, eq_iff "n-new" "mac")

reregister_forks_example :
    let c' = end_stream 1 (receive (at 9) 1 (AgentMessage.register nameless) connected).0 in
    (session_of 1 c'.sessions ≡ none)
    × ((n : Node) × (get_node c'.tables.reg "n-new" ≡ some n)
        × (n.status ≡ NodeStatus.online)
        × (n.send ≡ some 1))
unfolding session_of
reregister_forks_example = reregister_forks (at 9) connected 1 "mac" nameless refl refl n_new_ne_mac
