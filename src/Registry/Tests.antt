-- ===== src/Registry/Tests.antt =====
-- One run of the registry, and its theorems at concrete inputs.
use gridlink.Prelude.{ℕ, ◌≡◌, refl, none, some, List, [], ◌∷◌, true, arith, second, ◌*◌}
use gridlink.GoMap.{get, put}
use gridlink.Proto.{NodeStatus, Register, Heartbeat}
use gridlink.Wire.{Env}
use gridlink.Registry.{Node, Registry, new, upsert, touch, mark_disconnected, get_node, reap}
use gridlink.Registry.Invariant.{Call, upserts, touches, reaps, run, IsValid, run-IsValid}
use gridlink.Registry.Streams.{IsStranded, reap_strands, late_disconnect_strands}

abbrev at : ℕ → Env
at t = record { now = t * second; new_id = "n-new"; sends = λ _ _. true }

abbrev mac : Register
mac = record { node_id = "mac"; hostname = "studio"; gpu = none; system = none }

abbrev alive : Heartbeat
alive = record { active_job_ids = []; active_deployment_ids = []; data_plane_addr = "100.64.0.7" }

abbrev mac_node : Node
mac_node = record {
  id = "mac";
  hostname = "studio";
  gpu = none;
  system = none;
  last_seen = 5 * second;
  status = NodeStatus.online;
  data_plane_addr = "";
  send = some 1;
}

abbrev one_node : Registry
one_node = record { nodes = ("mac", mac_node) ∷ [] }

abbrev history : List (Env × Call)
history =
    (at 5, upserts mac 1)
    ∷ (at 15, touches "mac" alive)
    ∷ (at 60, reaps (10 * second))
    ∷ (at 61, touches "mac" alive)
    ∷ []

registers : (upsert (at 5) new mac 1).0 ≡ one_node
unfolding upsert new get put
registers = refl

run-IsValid_example : IsValid (run new history)
run-IsValid_example = run-IsValid history

get_mac : get_node one_node "mac" ≡ some mac_node
unfolding get
get_mac = refl

reap_strands_example : IsStranded "mac" (
    touch
      (at 40)
      (run (reap (36 * second) (10 * second) one_node) ((at 37, touches "mac" alive) ∷ []))
      "mac"
      alive)
reap_strands_example =
    reap_strands (36 * second) (10 * second) one_node "mac" mac_node get_mac refl (omega arith)
      ((at 37, touches "mac" alive) ∷ []) tt (at 40) alive

late_disconnect_strands_example :
    let (r', k) = upsert (at 20) one_node mac 2 in
    IsStranded k (touch (at 30) (run (mark_disconnected r' k) []) k alive)
late_disconnect_strands_example = late_disconnect_strands (at 20) one_node mac 2 [] tt (at 30) alive
