-- ===== src/Gateway/Proxy/Status.antt =====
-- The answer to a request that cannot be routed: `routingError` of gateway/internal/proxy/proxy.go.
use mathlib.Core.List.{Memᴰ}
use gridlink.Prelude.{
  String, true, ◌≡◌, ◌↔◌, refl, ◌∙◌, inl, inr, List, contains, contains_of_mem, mem_of_contains,
  if◌then◌else◌, Bool-cases, ok, arith,
}
use gridlink.GoMap.{values}
use gridlink.Deployments.State.{Deployment}
use gridlink.Deployments.Queries.{deployed_models}
use gridlink.Deployments.Queries.Models.{deployed_models_exact}
use gridlink.Server.Agents.{Tables}
use gridlink.Server.Admin
use gridlink.Gateway.Router
use gridlink.Gateway.Router.{
  RouteError, no_replicas, Router, Lookup, replicas, pick, first_other, pick_excluding, invalidate,
}
use gridlink.Gateway.Proxy.{Request, model_not_found, unavailable, routing_error}

routing_error-listed :
    (req : Request) (model : String) (r : Router) (names : List String)
    → r.connected ≡ true
    → req.deployed ≡ ok names
    → routing_error r req model no_replicas
      ≡ (if contains model names then unavailable else model_not_found)
unfolding routing_error Router.list_models
routing_error-listed req model r names on answer = ground arith

-- If the coordinator answers from its tables: a request whose model has no READY replica is answered
-- 503 if some deployment in the table has that model, and 404 otherwise.
pub no_replicas_status :
    (t : Tables) (req : Request) (model : String) (r : Router)
    → r.connected ≡ true
    → req.deployed ≡ ok (Admin.list_models t true)
    → (routing_error r req model no_replicas ≡ unavailable)
      ↔ ((d : Deployment) × Memᴰ d (values t.deploy.deploy) × (d.spec.served_model_name ≡ model))
unfolding Admin.list_models
no_replicas_status t req model r on answer =
    let given = routing_error-listed req model r (deployed_models t.deploy) on answer in
    elim (Bool-cases (contains model (deployed_models t.deploy))) [
      | inl c ↦ (
        λ _. (deployed_models_exact t.deploy model).0 (mem_of_contains model _ c),
        λ _. given ∙ rw c refl,
      )
      | inr c ↦ (
        λ e. absurd (ground (arith, given)),
        λ d.
            absurd (
              ground (arith, contains_of_mem model _ ((deployed_models_exact t.deploy model).1 d))),
      )
    ]
