-- ===== src/Gateway/EndToEnd.antt =====
-- The router of gateway/internal/router/router.go over the coordinator: where a request that `Pick`
-- routes may end up.
use mathlib.Core.List.{Memᴰ}
use mathlib.Core.Path.{subst}
use gridlink.Prelude.{
  String, Bool, ◌≡◌, refl, sym, ◌∙◌, ◌+◌, ◌<◌, ◌⊎◌, inl, inr, List, is_empty, Bool-cases, Time, ok,
  err, ok_inj, arith,
}
use gridlink.GoMap.{values}
use gridlink.Registry.{Node}
use gridlink.Deployments.State.{Deployment, Replica}
use gridlink.Deployments.Queries.{Route}
use gridlink.Deployments.Queries.Routing.{IsServing, route_to, resolve_sound}
use gridlink.Server.Agents.{Code, Tables}
use gridlink.Server.Admin.{resolve_model}
use gridlink.Gateway.Router.{Lookup, cache_ttl, new, pick}
use gridlink.Gateway.Router.Freshness.{Call, History, kept, asked, run}
use gridlink.Gateway.Router.Picks.{pick-IsCurrent}

-- The answer is the coordinator's, from its tables as they were at the time of the answer, or the
-- call failed.
abbrev pub IsAnswered : (Time → Tables) → Lookup → String → Type 0
IsAnswered tables l model =
    (l.answer ≡ resolve_model (tables l.answered_at) model) ⊎ ((e : Code) × (l.answer ≡ err e))

abbrev pub AllAnswered : (Time → Tables) → History → Type 0
AllAnswered tables h =
    (l : Lookup) (model : String) (c : Call) → Memᴰ (l, model, c) h → IsAnswered tables l model

-- The route leads to a deployment of the model whose replica was READY at the time, on a node
-- that was ONLINE.
pub record Serves (t : Tables) (model : String) (rep : Route) : Type 0 where
  pub deployment : Deployment
  pub replica : Replica
  pub node : Node
  pub deployed : Memᴰ deployment (values t.deploy.deploy)
  pub serving : IsServing t.reg model deployment replica node
  pub same : rep ≡ route_to deployment replica node

resolve_model-Serves :
    (t : Tables) (model : String) (reps : List Route) (rep : Route)
    → resolve_model t model ≡ ok reps
    → Memᴰ rep reps
    → Serves t model rep
unfolding resolve_model
resolve_model-Serves t model reps rep e m = elim (Bool-cases (is_empty model)) [
  | inl q ↦ absurd (ground arith)
  | inr q ↦
      let same = ok_inj (rw (q, resolve_model) at e) in
      let (d, r, n, at, v, p) =
        resolve_sound t.reg t.deploy model rep (subst (λ xs. Memᴰ rep xs) (sym same) m) in
      record { deployment = d; replica = r; node = n; deployed = at; serving = v; same = p }
]

answer-Serves :
    (tables : Time → Tables) (l : Lookup) (model : String) (reps : List Route) (rep : Route)
    → IsAnswered tables l model
    → l.answer ≡ ok reps
    → Memᴰ rep reps
    → Serves (tables l.answered_at) model rep
answer-Serves tables l model reps rep (inl e) q m =
    resolve_model-Serves (tables l.answered_at) model reps rep (sym e ∙ q) m
answer-Serves tables l model reps rep (inr (e, p)) q m = absurd (ground arith)

-- If the coordinator answers the router's calls from its tables: a replica that `Pick` gives was,
-- less than two seconds ago or at the answer to this very call, the READY replica of a deployment
-- of that model, on a node that was ONLINE and had an address, and it has that replica's port.
pub pick_serving :
    (tables : Time → Tables) (h : History) (connected : Bool) (l : Lookup) (model : String)
    (rep : Route)
    → AllAnswered tables h
    → IsAnswered tables l model
    → (pick l (run (new connected) h) model).1 ≡ ok rep
    → (t : Time) × ((l.checked_at < t + cache_ttl) ⊎ (t ≡ l.answered_at))
      × Serves (tables t) model rep
pick_serving tables h connected l model rep all this q =
    let (reps, m, current) = pick-IsCurrent h connected l model rep q in
    elim current [
      | asked e ↦ (l.answered_at, inr refl, answer-Serves tables l model reps rep this e m)
      | kept t a young ↦ (
        t,
        inl young,
        subst (λ u. Serves (tables u) model rep) a.time
            (answer-Serves tables a.lookup model reps rep (all a.lookup model a.call a.made)
              a.answer m),
      )
    ]
