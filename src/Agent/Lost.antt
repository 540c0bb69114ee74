-- ===== src/Agent/Lost.antt =====
-- What becomes of an update that the agent drops: `emitDeployment` of
-- agent/internal/client/client.go against `OnHeartbeat` and `Reconcile` of
-- coordinator/internal/deployments/deployments.go.
use mathlib.Core.List.{Memᴰ}
use mathlib.Core.Option
use mathlib.Core.Path.{subst}
use gridlink.Prelude.{
  String, ◌≡◌, ◌≢◌, sym, ap, ◌∙◌, List, [], ◌∷◌, none, some, some_inj, inl, inr, Option-cases, Time,
  arith,
}
use gridlink.GoMap.{get, values, map_values}
use gridlink.GoMap.Laws.{get-map_values}
use gridlink.Proto.{AgentMessage, DeploymentUpdate, DeploymentState, NodeStatus}
use gridlink.Wire.{Env}
use gridlink.Registry.{Node, Registry, get_node}
use gridlink.Deployments.State.{Deployment, Manager, Replica, required_runner}
use gridlink.Deployments.Actions.{place}
use gridlink.Deployments.Reconciler.{sweep, to_place, place_all, reconcile}
use gridlink.Deployments.Exclusive.{IsValid}
use gridlink.Deployments.Exclusive.Methods.{swept-IsValid}
use gridlink.Deployments.Exclusive.Histories.{
  Call, creates, removes, updates, heartbeats, reconciles, step, replay, step-IsValid,
}
use gridlink.Deployments.Orphans.Vanished.{on_heartbeat_table}
use gridlink.Deployments.Placing.{get-place_other}
use gridlink.Deployments.Recovery.{IsPending, place-IsPending, to_place-IsPending}
use gridlink.Agent.Client.{Client, emit}

-- A heartbeat of the node lists the deployment, and a pass of the reconciler finds the node ONLINE.
-- No other call is made.
abbrev pub IsQuiet : String → String → Env × Registry × Call → Type 0
IsQuiet id node (env, reg, heartbeats from active) = from ≡ node → Memᴰ id active
IsQuiet id node (env, reg, reconciles) =
    (n : Node) × (get_node reg node ≡ some n) × (n.status ≡ NodeStatus.online)
IsQuiet id node (env, reg, creates _ _) = ⊥
IsQuiet id node (env, reg, removes _) = ⊥
IsQuiet id node (env, reg, updates _ _) = ⊥

abbrev pub AllQuiet : String → String → List (Env × Registry × Call) → Type 0
AllQuiet id node [] = Unit
AllQuiet id node (c ∷ cs) = IsQuiet id node c × AllQuiet id node cs

place_all-placed :
    (env : Env) (reg : Registry) (ds : List Deployment) (m : Manager) (k : String) (d : Deployment)
    (r : Replica)
    → IsPending m ds
    → get k m.deploy ≡ some d
    → d.replica ≡ some r
    → get k (place_all env reg ds m).0.deploy ≡ some d
unfolding place_all
place_all-placed env reg [] m k d r p at on = at
place_all-placed env reg (x ∷ ds) m k d r ((stored, bare), nx, p) at on =
    elim (Option-cases (required_runner x.spec)) [
      | inl e ↦ rw (e, place_all) (place_all-placed env reg ds m k d r p at on)
      | inr (kind, e) ↦
          rw (e, place_all)
            (place_all-placed env reg ds (place env reg m x kind).0 k d r
              (place-IsPending env reg m x kind ds nx p)
              (get-place_other env reg m x kind k other ∙ at) on)
    ]
  where
    other : x.id ≢ k
    other q =
        let same : x ≡ d = some_inj (sym stored ∙ ap (λ i. get i m.deploy) q ∙ at) in
        absurd (ground (arith, ap (λ (y : Deployment). y.replica) same))

sweep-kept :
    (now : Time) (reg : Registry) (d : Deployment) (r : Replica) (n : Node)
    → d.replica ≡ some r
    → r.state ≢ DeploymentState.failed
    → get_node reg r.node_id ≡ some n
    → n.status ≡ NodeStatus.online
    → sweep now reg d ≡ d
unfolding sweep
sweep-kept now reg d r n on st known up = ground arith

module _ (id : String) (d : Deployment) (r : Replica) (on : d.replica ≡ some r)
    (st : r.state ≢ DeploymentState.failed) where
  step-kept :
      (m : Manager) (c : Env × Registry × Call)
      → IsValid m
      → get id m.deploy ≡ some d
      → IsQuiet id r.node_id c
      → get id (step m c).deploy ≡ some d
  unfolding step reconcile
  step-kept m (env, reg, heartbeats from active) v at q =
      (on_heartbeat_table env reg m from active v id d at).1 λ r' w.
        let same : r ≡ r' = some_inj (sym on ∙ w.placed) in
        w.absent (
          subst (λ i. Memᴰ i active) (sym (v.keyed id d at))
            (q (sym w.here ∙ ap (λ x. x.node_id) (sym same))))
  step-kept m (env, reg, reconciles) v at (n, known, up) =
      let swept : Manager = record m { deploy = map_values (sweep env.now reg) m.deploy } in
      place_all-placed env reg (to_place (values swept.deploy)) swept id d r
        (to_place-IsPending swept (swept-IsValid env.now reg m v))
        (get-map_values (sweep env.now reg) id m.deploy
          ∙ ap (Option.map (sweep env.now reg)) at
          ∙ ap some (sweep-kept env.now reg d r n on st known up))
        on
  step-kept m (env, reg, creates _ _) v at q = absurd q
  step-kept m (env, reg, removes _) v at q = absurd q
  step-kept m (env, reg, updates _ _) v at q = absurd q

  replay-kept :
      (m : Manager) (cs : List (Env × Registry × Call))
      → IsValid m
      → get id m.deploy ≡ some d
      → AllQuiet id r.node_id cs
      → get id (replay m cs).deploy ≡ some d
  unfolding replay
  replay-kept m [] v at q = at
  replay-kept m (c ∷ cs) v at (q, qs) =
      replay-kept (step m c) cs (step-IsValid m c v) (step-kept m c v at q) qs

-- An update that the agent emits while it has no session is dropped, and is never made up for:
-- whatever heartbeats of the node follow that list the deployment, and whatever passes of the
-- reconciler that find the node ONLINE, the coordinator has the replica on record as it had it
-- before, if that was not FAILED. When the update was the one that says READY, the deployment
-- stays without routes.
pub lost_update_stays_lost :
    (c : Client) (upd : DeploymentUpdate) (m : Manager) (d : Deployment) (r : Replica)
    (cs : List (Env × Registry × Call))
    → c.out ≡ none
    → IsValid m
    → get upd.deployment_id m.deploy ≡ some d
    → d.replica ≡ some r
    → r.state ≢ DeploymentState.failed
    → AllQuiet upd.deployment_id r.node_id cs
    → (emit (AgentMessage.deployment_update upd) c ≡ c)
      × (get upd.deployment_id (replay m cs).deploy ≡ some d)
unfolding emit
lost_update_stays_lost c upd m d r cs off v at on st q =
    (ground (arith, off), replay-kept upd.deployment_id d r on st m cs v at q)
