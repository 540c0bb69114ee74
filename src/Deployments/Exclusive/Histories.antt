-- ===== src/Deployments/Exclusive/Histories.antt =====
-- Sequences of calls of the methods of coordinator/internal/deployments/deployments.go.
use gridlink.Prelude.{ℕ, String, List, [], ◌∷◌}
use gridlink.Proto.{DeploymentSpec, DeploymentUpdate}
use gridlink.Wire.{Env}
use gridlink.Registry.{Registry}
use gridlink.Deployments.State.{Manager, new}
use gridlink.Deployments.Actions.{create, remove, on_update, on_heartbeat}
use gridlink.Deployments.Reconciler.{reconcile}
use gridlink.Deployments.Exclusive.{IsValid, new-IsValid}
use gridlink.Deployments.Exclusive.Methods.{
  create-IsValid, remove-IsValid, on_update-IsValid, on_heartbeat-IsValid, reconcile-IsValid,
}

-- One call of a method, with what it finds outside.
pub data Call : Type 0 where
  creates : DeploymentSpec → ℕ → Call
  removes : String → Call
  updates : String → DeploymentUpdate → Call
  heartbeats : String → List String → Call
  reconciles : Call

unfoldable pub step : Manager → Env × Registry × Call → Manager
step m (env, reg, creates spec replicas) = (create env reg m spec replicas).0
step m (env, reg, removes id) = (remove env reg m id).0
step m (env, reg, updates node upd) = (on_update env reg m node upd).0
step m (env, reg, heartbeats node active) = (on_heartbeat env reg m node active).0
step m (env, reg, reconciles) = (reconcile env reg m).0

unfoldable pub replay : Manager → List (Env × Registry × Call) → Manager
replay m [] = m
replay m (c ∷ cs) = replay (step m c) cs

pub step-IsValid : (m : Manager) (c : Env × Registry × Call) → IsValid m → IsValid (step m c)
unfolding step
step-IsValid m (env, reg, creates spec replicas) v = create-IsValid env reg m spec replicas v
step-IsValid m (env, reg, removes id) v = remove-IsValid env reg m id v
step-IsValid m (env, reg, updates node upd) v = on_update-IsValid env reg m node upd v
step-IsValid m (env, reg, heartbeats node active) v = on_heartbeat-IsValid env reg m node active v
step-IsValid m (env, reg, reconciles) v = reconcile-IsValid env reg m v

replay_from-IsValid :
    (m : Manager) (cs : List (Env × Registry × Call)) → IsValid m → IsValid (replay m cs)
unfolding replay
replay_from-IsValid m [] v = v
replay_from-IsValid m (c ∷ cs) v = replay_from-IsValid (step m c) cs (step-IsValid m c v)

-- Whatever the registry, the clock and the streams do between the calls: after any sequence of
-- calls that run one at a time the table has no id twice, each deployment stands under its own id,
-- and no two of them are placed on one node.
pub replay-IsValid : (cs : List (Env × Registry × Call)) → IsValid (replay new cs)
replay-IsValid cs = replay_from-IsValid new cs new-IsValid
