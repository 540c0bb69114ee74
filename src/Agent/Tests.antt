-- ===== src/Agent/Tests.antt =====
-- The agent on concrete inputs.
use mathlib.Core.List.{Memᴰ}
use gridlink.Prelude.{
  ℕ, true, false, ◌≡◌, ◌≢◌, ◌*◌, refl, [], ◌∷◌, List, none, some, arith, second, eq_iff, inl, inr,
  ok, map, length,
}
use gridlink.GoMap.{get}
use gridlink.Proto.{AgentMessage, NodeStatus, DeploymentState, DeploymentUpdate, Engine}
use gridlink.Wire.{Env}
use gridlink.Registry.{Node, Registry}
use gridlink.Deployments.State.{Deployment, Manager, Replica}
use gridlink.Deployments.Exclusive.{IsValid}
use gridlink.Deployments.Exclusive.Histories.{Call, heartbeats, reconciles, replay}
use gridlink.Agent.Client.{new, emit}
use gridlink.Agent.Backoff.{reset}
use gridlink.Agent.Lost.{lost_update_stays_lost}
use gridlink.Agent.Client.{open_session}
use gridlink.Agent.Identity.{
  State, Attempt, no_stream, no_ack, acked, refused, written, turn, registrations,
}
use gridlink.Agent.Identity.Kept.{AllRegister, identity_kept}
use gridlink.Agent.Forward.{deployment_update_of, run_deployment}
use gridlink.Agent.Forward.Recorded.{HasState, record_all, life_recorded}
use gridlink.Native.Life.{World, run, progress, load, spawn, connect, serve}
use gridlink.Native.Port.{
  reported, join_host_port, listening_line, read_engine_addr, scan_lines, not_empty_addr, has_byte,
}
use gridlink.Native.Readiness.{no_response, response, wait_ready, serves}
use gridlink.Native.Life.Course.{IsTerminal, sent}
use gridlink.Bytes.{Bytes, drop}
use gridlink.Bytes.Search.{has_prefix, has_text}
use gridlink.Bytes.Decimal.{format, digits}
use gridlink.Bytes.Fields.{
  is_space, NoSpace, keep, trim_right, trim_left, trim_space, trim_left_from, space_at, wide_at,
  is_white, begins_space,
}

abbrev at : ℕ → Env
at t = record { now = t * second; new_id = "d-new"; sends = λ _ _. true }

abbrev mac : Node
mac = record {
  id = "mac";
  hostname = "studio";
  gpu = none;
  system = none;
  last_seen = 0;
  status = NodeStatus.online;
  data_plane_addr = "100.64.0.7";
  send = some 1;
}

abbrev nodes : Registry
nodes = record { nodes = ("mac", mac) ∷ [] }

abbrev loading : Replica
loading = record {
  deployment_id = "d1";
  node_id = "mac";
  state = DeploymentState.loading;
  host_port = 0;
  progress = 100;
  err_text = "";
  placed_at = 0;
  last_update = 0;
}

abbrev llama : Deployment
llama = record {
  id = "d1";
  spec = record {
    deployment_id = "d1";
    served_model_name = "llama";
    min_vram_mb = 0;
    engine = Engine.unset;
  };
  replica = some loading;
  avoid = [];
}

abbrev one : Manager
one = record { deploy = ("d1", llama) ∷ [] }

one-IsValid : IsValid one
unfolding get
one-IsValid = record {
  distinct = (refl, tt);
  keyed = λ k d e. ground (arith, eq_iff "d1" k);
  exclusive = λ j k n hj hk. ground (arith, eq_iff "d1" j, eq_iff "d1" k);
}

abbrev ready : DeploymentUpdate
ready = record {
  deployment_id = "d1";
  state = DeploymentState.ready;
  host_port = 8000;
  error = "";
  progress_percent = 100;
}

abbrev calls : List (Env × Registry × Call)
calls = (at 10, nodes, heartbeats "mac" ("d1" ∷ [])) ∷ (at 300, nodes, reconciles) ∷ []

not_failed : DeploymentState.loading ≢ DeploymentState.failed
not_failed e = absurd (ground arith)

lost_update_stays_lost_example :
    (emit (AgentMessage.deployment_update ready) (new true true "100.64.0.7")
      ≡ new true true "100.64.0.7")
    × (get "d1" (replay one calls).deploy ≡ some llama)
unfolding new get
lost_update_stays_lost_example =
    lost_update_stays_lost (new true true "100.64.0.7") ready one llama loading calls refl
      one-IsValid refl refl not_failed (λ _. Memᴰ.head refl, ((mac, refl, refl), tt))

-- "n1"
abbrev n1 : Bytes
n1 = 110 ∷ 49 ∷ []

n1-NoSpace : NoSpace n1
unfolding begins_space
n1-NoSpace = (refl, (refl, tt))

abbrev fresh : State
fresh = record { file = none; backoff = reset }

-- In the third session the file cannot be read, and in the fourth it is written again.
abbrev turns : List (Attempt × ℕ)
turns =
    (no_stream, 0)
    ∷ (acked true [] refused, 0)
    ∷ (no_ack false, 0)
    ∷ (acked false n1 written, 0)
    ∷ (no_ack true, 0)
    ∷ []

identity_kept_example :
    AllRegister n1 turns (registrations turns (turn (acked true n1 written) 0 fresh).0)
identity_kept_example =
    identity_kept n1 true 0 turns fresh n1-NoSpace (λ e. absurd (cc))
      (inl refl, tt, (inr refl, tt, tt))

abbrev crashes : World
crashes = record {
  pulled = 100 ∷ [];
  download = ok n1;
  stopped_pulling = false;
  stdout_pipe = none;
  stderr_pipe = none;
  started = none;
  arrival = reported;
  stdout = listening_line (join_host_port n1 8000) ∷ [];
  scan_error = none;
  model_name = n1;
  polls = no_response ∷ response 200 n1 ∷ [];
  poll_error = "";
  stopped_loading = false;
  exit = "signal: killed";
  stopped_serving = false;
  tail = "";
}

five_updates : length (sent (run "d1" crashes)) ≡ 5
unfolding run progress load spawn connect serve read_engine_addr scan_lines not_empty_addr
    listening_line join_host_port has_byte has_prefix drop trim_space trim_left trim_left_from
    space_at wide_at format digits trim_right keep is_white is_space wait_ready serves has_text
five_updates = refl

life_recorded_example :
    let client = open_session (new true true "100.64.0.7") in
    ((run_deployment "d1" (ok (sent (run "d1" crashes))) client).out
      ≡ some (
          map
            (λ u. AgentMessage.deployment_update (deployment_update_of "d1" u))
            (sent (run "d1" crashes))))
    × (get "d1" (run_deployment "d1" (ok (sent (run "d1" crashes))) client).deployments ≡ none)
    × ((end : DeploymentState) × IsTerminal end
        × HasState
            (record_all at 0 nodes "mac"
              (map (deployment_update_of "d1") (sent (run "d1" crashes)))
              one)
            "mac"
            "d1"
            end)
unfolding open_session get run
life_recorded_example =
    life_recorded at nodes one "mac" "d1" crashes (open_session (new true true "100.64.0.7")) []
      (llama, loading, refl, refl, refl) refl (omega (arith, five_updates))
