-- ===== src/Deployments/Queries.antt =====
-- The methods of coordinator/internal/deployments/deployments.go that only read: `Resolve`,
-- `ServableModels`, `DeployedModels`, `List` and `DeploymentIDsOn`.
pub mod Routing
pub mod Models
use Prim.Native.Nat.{Ordering}
use Prim.Native.String.{compare}
use mathlib.Core.List.{map}
use gridlink.Prelude.{
  ℕ, String, Bool, true, false, ◌&&◌, ◌||◌, not, List, [], ◌∷◌, Option, none, some, str_eq,
  is_empty, collect, contains, if◌then◌else◌,
}
use gridlink.GoMap.{GoMap, get, values}
use gridlink.Proto.{DeploymentState}
use gridlink.Registry.{Node, Registry, get_node, is_online}
use gridlink.Deployments.State.{Deployment, Manager, Replica, is_ready}
use gridlink.Deployments.Actions.{is_on}

-- `computev1.Replica`; the address that `net.JoinHostPort` writes is kept as its two parts.
pub record Route : Type 0 where
  pub node_id : String
  pub deployment_id : String
  pub host : String
  pub port : ℕ

-- The local type `placed`.
pub record Candidate : Type 0 where
  pub id : String
  pub node_id : String
  pub port : ℕ

unfoldable pub candidate_of : String → Deployment → Option Candidate
candidate_of model d = elim d.replica [
  | none ↦ none
  | some r ↦
      if str_eq d.spec.served_model_name model && is_ready r.state
      then some (record { id = d.id; node_id = r.node_id; port = r.host_port })
      else none
]

unfoldable pub candidates : String → List Deployment → List Candidate
unfolding candidate_of collect
candidates model = collect (candidate_of model)

unfoldable pub route_of : Option Node → Candidate → Option Route
route_of none c = none
route_of (some n) c =
    if is_online n.status && not (is_empty n.data_plane_addr)
    then some (record {
      node_id = c.node_id;
      deployment_id = c.id;
      host = n.data_plane_addr;
      port = c.port;
    })
    else none

unfoldable pub routes : Registry → List Candidate → List Route
unfolding route_of collect
routes reg = collect λ c. route_of (get_node reg c.node_id) c

unfoldable pub resolve : Registry → Manager → String → List Route
unfolding candidates routes
resolve reg m model = routes reg (candidates model (values m.deploy))

-- The keys of `names`, a map that is filled with each deployment's model name.
unfoldable pub model_names : List Deployment → List String
model_names [] = []
model_names (d ∷ ds) =
    let rest = model_names ds in
    let name = d.spec.served_model_name in if contains name rest then rest else name ∷ rest

-- `sort.Strings`, which orders by bytes.
unfoldable pub insert_string : String → List String → List String
insert_string s [] = s ∷ []
insert_string s (t ∷ ts) =
    let rest = insert_string s ts in elim (compare s t) [ Ordering.gt ↦ t ∷ rest | _ ↦ s ∷ t ∷ ts ]

unfoldable pub sort_strings : List String → List String
unfolding insert_string
sort_strings [] = []
sort_strings (s ∷ ss) = insert_string s (sort_strings ss)

unfoldable pub deployed_models : Manager → List String
unfolding model_names sort_strings
deployed_models m = sort_strings (model_names (values m.deploy))

abbrev pub is_routable : List Route → Bool
is_routable [] = false
is_routable (r ∷ rs) = true

unfoldable pub servable : Registry → Manager → List String → List String
unfolding resolve
servable reg m [] = []
servable reg m (name ∷ names) =
    let rest = servable reg m names in
    if is_routable (resolve reg m name) then name ∷ rest else rest

unfoldable pub servable_models : Registry → Manager → List String
unfolding servable deployed_models
servable_models reg m = servable reg m (deployed_models m)

pub record DeploymentSummary : Type 0 where
  pub deployment_id : String
  pub served_model_name : String
  pub node_id : String
  pub state : DeploymentState

unfoldable pub summarise : Deployment → DeploymentSummary
summarise d = record {
  deployment_id = d.id;
  served_model_name = d.spec.served_model_name;
  node_id = elim d.replica [ none ↦ "" | some r ↦ r.node_id ];
  state = elim d.replica [ none ↦ DeploymentState.unspecified | some r ↦ r.state ];
}

unfoldable pub list : Manager → List DeploymentSummary
unfolding summarise
list m = map summarise (values m.deploy)

unfoldable pub ids_on : String → List Deployment → List String
unfolding is_on
ids_on node_id [] = []
ids_on node_id (d ∷ ds) =
    let rest = ids_on node_id ds in if is_on node_id d then d.id ∷ rest else rest

unfoldable pub deployment_ids_on : Manager → String → List String
unfolding ids_on
deployment_ids_on m node_id = ids_on node_id (values m.deploy)
