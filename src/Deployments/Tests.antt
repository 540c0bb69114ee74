-- ===== src/Deployments/Tests.antt =====
-- The theorems on deployments at concrete inputs: a Mac that runs native engines, a failed and a
-- ready replica, and deployments that wait for a node.
use mathlib.Core.List.{Memᴰ}
use gridlink.Prelude.{
  ℕ, String, true, ◌≡◌, ◌+◌, ◌*◌, refl, none, some, [], ◌∷◌, arith, second, ok, eq_iff, contains,
}
use gridlink.GoMap.{get, values}
use gridlink.Proto.{NodeStatus, RunnerKind, DeploymentSpec, DeploymentState, Engine}
use gridlink.Wire.{Env}
use gridlink.Registry.{Node, Registry, snapshot}
use gridlink.Deployments.State.{Deployment, Manager, Replica, new, avoid_after_failure}
use gridlink.Deployments.Selection.{select_node, verdict, occupied_by_others}
use gridlink.Deployments.Selection.Eligibility.{IsEligible, select_node_sound}
use gridlink.Deployments.Actions.{on_heartbeat}
use gridlink.Deployments.Reconciler.{reconcile}
use gridlink.Deployments.Exclusive.{IsValid, node_at}
use gridlink.Deployments.Exclusive.Histories.{
  creates, heartbeats, reconciles, replay, replay-IsValid,
}
use gridlink.Deployments.Orphans.{IsWanted}
use gridlink.Deployments.Orphans.Vanished.{IsVanished, on_heartbeat_table}
use gridlink.Deployments.Recovery.Maximal.{IsOverlooked, reconcile-maximal}
use gridlink.Deployments.Recovery.Avoidance.{IsBanned, reconcile_avoids, heartbeat_forgets_failure}
use gridlink.Deployments.Races.{overlap, overlap_double_books}
use gridlink.Deployments.Queries.{resolve}
use gridlink.Deployments.Queries.Routing.{IsServing, route_to, resolve_sound, resolve_complete}

abbrev at : ℕ → Env
at t = record { now = t * second; new_id = "d-new"; sends = λ _ _. true }

abbrev mac : Node
mac = record {
  id = "mac";
  hostname = "studio";
  gpu =
      some
        (record { vendor = "apple"; model = "M4"; vram_total_mb = 24576; usable_vram_mb = 17408 });
  system = some (record { os = "darwin"; arch = "arm64"; runners = RunnerKind.native_metal ∷ [] });
  last_seen = 0;
  status = NodeStatus.online;
  data_plane_addr = "100.64.0.7";
  send = some 1;
}

abbrev nodes : Registry
nodes = record { nodes = ("mac", mac) ∷ [] }

abbrev llama : String → DeploymentSpec
llama id = record {
  deployment_id = id;
  served_model_name = "llama";
  min_vram_mb = 8192;
  engine = Engine.native (record { model_ref = "hf"; model_file = "llama.gguf"; sha256 = "" });
}

abbrev waiting : String → Deployment
waiting id = record { id = id; spec = llama id; replica = none; avoid = [] }

abbrev replica_in : DeploymentState → Replica
replica_in st = record {
  deployment_id = "d1";
  node_id = "mac";
  state = st;
  host_port = 4000;
  progress = 100;
  err_text = "";
  placed_at = 0;
  last_update = 0;
}

abbrev running : DeploymentState → Deployment
running st = record { id = "d1"; spec = llama "d1"; replica = some (replica_in st); avoid = [] }

abbrev one : Deployment → Manager
one d = record { deploy = (d.id, d) ∷ [] }

abbrev two : Manager
two = record { deploy = ("d1", waiting "d1") ∷ ("d2", waiting "d2") ∷ [] }

one-IsValid : (st : DeploymentState) → IsValid (one (running st))
unfolding get
one-IsValid st = record {
  distinct = (refl, tt);
  keyed = λ k d e. ground (arith, eq_iff "d1" k);
  exclusive = λ j k n hj hk. ground (arith, eq_iff "d1" j, eq_iff "d1" k);
}

replay-IsValid_example : IsValid (
    replay new (
      (at 0, nodes, creates (llama "") 1)
      ∷ (at 70, nodes, heartbeats "mac" [])
      ∷ (at 75, nodes, reconciles)
      ∷ []))
replay-IsValid_example = replay-IsValid (
    (at 0, nodes, creates (llama "") 1)
    ∷ (at 70, nodes, heartbeats "mac" [])
    ∷ (at 75, nodes, reconciles)
    ∷ [])

selects_mac : (id : String) → select_node 0 nodes two (waiting id) RunnerKind.native_metal ≡ ok mac
unfolding select_node verdict occupied_by_others values get contains
selects_mac id = ground (arith, eq_iff "d1" id, eq_iff "d2" id)

select_node_sound_example :
    Memᴰ mac (snapshot nodes) × IsEligible 0 two (waiting "d1") RunnerKind.native_metal mac
select_node_sound_example =
    select_node_sound 0 nodes two (waiting "d1") RunnerKind.native_metal mac (selects_mac "d1")

-- The table has `d1` on the Mac, and no `d9`.
d1-IsWanted : (st : DeploymentState) → IsWanted (one (running st)) "mac" "d1"
unfolding get
d1-IsWanted st = (running st, replica_in st, refl, refl, refl)

d1-IsVanished :
    (st : DeploymentState) → IsVanished (70 * second) "mac" [] (running st) (replica_in st)
d1-IsVanished st = record {
  placed = refl;
  here = refl;
  absent = λ h. elim h [ ];
  due = omega arith;
}

on_heartbeat_table_example :
    get "d1" (on_heartbeat (at 70) nodes (one (running DeploymentState.ready)) "mac" []).0.deploy
    ≡ some (record (running DeploymentState.ready) { replica = none })
unfolding get
on_heartbeat_table_example =
    (on_heartbeat_table (at 70) nodes (one (running DeploymentState.ready)) "mac" []
        (one-IsValid DeploymentState.ready) "d1" (running DeploymentState.ready) refl).0
      (replica_in DeploymentState.ready) (d1-IsVanished DeploymentState.ready)

reconcile-maximal_example :
    ¬ IsOverlooked
      (at 100)
      nodes
      (reconcile (at 100) nodes (one (running DeploymentState.failed))).0
      "d1"
reconcile-maximal_example =
    reconcile-maximal (at 100) nodes (one (running DeploymentState.failed)) "d1" (λ _ _. refl)
      (one-IsValid DeploymentState.failed)

reconcile_avoids_example :
    IsBanned
      (reconcile (at 100) nodes (one (running DeploymentState.failed))).0
      "d1"
      "mac"
      (100 * second + avoid_after_failure)
unfolding get
reconcile_avoids_example =
    reconcile_avoids (at 100) nodes (one (running DeploymentState.failed)) "d1"
      (running DeploymentState.failed) (replica_in DeploymentState.failed) mac
      (one-IsValid DeploymentState.failed) refl refl refl (omega arith) refl refl

heartbeat_forgets_failure_example :
    let m' = (on_heartbeat (at 70) nodes (one (running DeploymentState.failed)) "mac" []).0 in
    let d' = record (running DeploymentState.failed) { replica = none } in
    (get "d1" m'.deploy ≡ some d') × IsEligible (70 * second) m' d' RunnerKind.native_metal mac
unfolding get
heartbeat_forgets_failure_example =
    heartbeat_forgets_failure (at 70) nodes (one (running DeploymentState.failed)) [] "d1"
      (running DeploymentState.failed) (replica_in DeploymentState.failed) mac
      RunnerKind.native_metal (one-IsValid DeploymentState.failed) refl refl
      (d1-IsVanished DeploymentState.failed) refl refl (λ p. cc) (Memᴰ.head refl) (omega arith)
      (omega arith)

overlap_double_books_example :
    let m' =
      overlap
        (at 0)
        nodes
        two
        (waiting "d1")
        RunnerKind.native_metal
        (waiting "d2")
        RunnerKind.native_metal in
    (node_at m' "d1" ≡ some "mac") × (node_at m' "d2" ≡ some "mac") × (¬ IsValid m')
unfolding get
overlap_double_books_example =
    overlap_double_books (at 0) nodes two (waiting "d1") (waiting "d2") RunnerKind.native_metal
      RunnerKind.native_metal mac (λ _ _. refl) refl refl (λ p. ground (arith, eq_iff "d1" "d2"))
      (selects_mac "d1") (selects_mac "d2")

d1-IsServing :
    IsServing nodes "llama" (running DeploymentState.ready) (replica_in DeploymentState.ready) mac
unfolding get
d1-IsServing = record {
  named = refl;
  placed = refl;
  ready = refl;
  known = refl;
  online = refl;
  addressed = λ p. ground (arith, eq_iff "100.64.0.7" "");
}

llama_routed :
    Memᴰ
      (route_to (running DeploymentState.ready) (replica_in DeploymentState.ready) mac)
      (resolve nodes (one (running DeploymentState.ready)) "llama")
unfolding values
llama_routed =
    resolve_complete nodes (one (running DeploymentState.ready)) "llama"
      (running DeploymentState.ready) (replica_in DeploymentState.ready) mac (Memᴰ.head refl)
      d1-IsServing

resolve_sound_example :
    (d : Deployment) × (r : Replica) × (n : Node) × Memᴰ d
      (values (one (running DeploymentState.ready)).deploy)
    × IsServing nodes "llama" d r n
    × (route_to (running DeploymentState.ready) (replica_in DeploymentState.ready) mac
        ≡ route_to d r n)
resolve_sound_example =
    resolve_sound nodes (one (running DeploymentState.ready)) "llama"
      (route_to (running DeploymentState.ready) (replica_in DeploymentState.ready) mac) llama_routed
