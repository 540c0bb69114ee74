-- ===== src/Deployments/Queries/Routing.antt =====
-- What the gateway is told: which replicas serve a model, and which models are listed.
use mathlib.Core.List.{Memᴰ}
use gridlink.Prelude.{
  mem-collect, collect_of_mem, String, ◌≡◌, ◌≢◌, inl, inr, refl, sym, ap, ◌∙◌, Option, none, some,
  arith, eq_iff, Option-cases,
}
use gridlink.GoMap.{values}
use gridlink.Proto.{DeploymentState, NodeStatus}
use gridlink.Registry.{Node, Registry, get_node}
use gridlink.Deployments.State.{Deployment, Manager, Replica}
use gridlink.Deployments.Queries.{
  Route, Candidate, candidate_of, candidates, route_of, routes, resolve,
}

-- A deployment of the model is up: READY on an ONLINE node whose address is known.
pub record IsServing (reg : Registry) (model : String) (d : Deployment) (r : Replica) (n : Node)
    : Type 0 where
  pub named : d.spec.served_model_name ≡ model
  pub placed : d.replica ≡ some r
  pub ready : r.state ≡ DeploymentState.ready
  pub known : get_node reg r.node_id ≡ some n
  pub online : n.status ≡ NodeStatus.online
  pub addressed : n.data_plane_addr ≢ ""

abbrev pub route_to : Deployment → Replica → Node → Route
route_to d r n = record {
  node_id = r.node_id;
  deployment_id = d.id;
  host = n.data_plane_addr;
  port = r.host_port;
}

-- What the loops yield for one deployment.
candidate_sound :
    (model : String) (d : Deployment) (c : Candidate)
    → candidate_of model d ≡ some c
    → (r : Replica) × (d.replica ≡ some r)
      × (d.spec.served_model_name ≡ model)
      × (r.state ≡ DeploymentState.ready)
      × (c ≡ record { id = d.id; node_id = r.node_id; port = r.host_port })
unfolding candidate_of
candidate_sound model d c h = elim (Option-cases d.replica) [
  | inl e ↦ absurd (ground arith)
  | inr (r, e) ↦
      (r, e, ground (arith, eq_iff d.spec.served_model_name model), ground arith, ground arith)
]

route_sound :
    (o : Option Node) (c : Candidate) (route : Route)
    → route_of o c ≡ some route
    → (n : Node) × (o ≡ some n)
      × (n.status ≡ NodeStatus.online)
      × (n.data_plane_addr ≢ "")
      × (route ≡ record {
        node_id = c.node_id;
        deployment_id = c.id;
        host = n.data_plane_addr;
        port = c.port;
      })
unfolding route_of
route_sound none c route h = absurd (cc)
route_sound (some n) c route h =
    (n, refl, ground arith, ground (arith, eq_iff n.data_plane_addr ""), ground arith)

-- Every route given for a model leads to a deployment of that model in the table whose replica is
-- READY, on a node that is ONLINE and has an address, and names that replica, node and port.
pub resolve_sound :
    (reg : Registry) (m : Manager) (model : String) (route : Route)
    → Memᴰ route (resolve reg m model)
    → (d : Deployment) × (r : Replica) × (n : Node) × Memᴰ d (values m.deploy)
      × IsServing reg model d r n
      × (route ≡ route_to d r n)
unfolding resolve candidates routes
resolve_sound reg m model route h =
    let (c, at_c, p) =
      mem-collect (λ c. route_of (get_node reg c.node_id) c) route
        (candidates model (values m.deploy)) h in
    let (d, at_d, q) = mem-collect (candidate_of model) c (values m.deploy) at_c in
    let (r, placed, named, ready, ec) = candidate_sound model d c q in
    let (n, known, on, addressed, er) = route_sound (get_node reg c.node_id) c route p in
    (
      d,
      r,
      n,
      at_d,
      record {
        named = named;
        placed = placed;
        ready = ready;
        known = ap (λ (x : Candidate). get_node reg x.node_id) (sym ec) ∙ known;
        online = on;
        addressed = addressed;
      },
      cc,
    )

-- And every such deployment is given: a READY replica on an ONLINE node with an address is routed
-- to.
pub resolve_complete :
    (reg : Registry) (m : Manager) (model : String) (d : Deployment) (r : Replica) (n : Node)
    → Memᴰ d (values m.deploy)
    → IsServing reg model d r n
    → Memᴰ (route_to d r n) (resolve reg m model)
unfolding resolve candidates routes
resolve_complete reg m model d r n at v =
    let c : Candidate = record { id = d.id; node_id = r.node_id; port = r.host_port } in
    collect_of_mem (λ c. route_of (get_node reg c.node_id) c) c (route_to d r n)
      (candidates model (values m.deploy))
      (collect_of_mem (candidate_of model) d c (values m.deploy) at
        (unfold candidate_of in ground (arith, eq_iff d.spec.served_model_name model)))
      (unfold route_of in ground (arith, eq_iff n.data_plane_addr ""))
