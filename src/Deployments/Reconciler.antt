-- ===== src/Deployments/Reconciler.antt =====
-- `Reconcile` of coordinator/internal/deployments/deployments.go, and its ticks.
use gridlink.Prelude.{
  Bool, true, ◌+◌, ◌&&◌, not, List, [], ◌∷◌, ◌++◌, Option, none, some, Time, collect, older_than,
  if◌then◌else◌,
}
use gridlink.GoMap.{put, values, map_values}
use gridlink.Wire.{Env, Sent}
use gridlink.Registry.{Node, Registry, get_node, is_online}
use gridlink.Deployments.State.{
  Deployment, Manager, Replica, required_runner, lost_after, avoid_after_failure, is_failed,
}
use gridlink.Deployments.Actions.{place}

-- `!ok || node.Status != ONLINE`
unfoldable pub is_gone : Option Node → Bool
is_gone none = true
is_gone (some n) = not (is_online n.status)

-- The assignments of the first loop to one deployment.
unfoldable pub sweep_placed : Time → Registry → Deployment → Replica → Deployment
unfolding is_gone
sweep_placed now reg d r =
    if is_gone (get_node reg r.node_id) && older_than now r.last_update lost_after
    then record d { replica = none }
    else if is_failed r.state && older_than now r.last_update lost_after
    then record d { avoid = put r.node_id (now + avoid_after_failure) d.avoid; replica = none }
    else d

unfoldable pub sweep : Time → Registry → Deployment → Deployment
unfolding sweep_placed
sweep now reg d = elim d.replica [ none ↦ d | some r ↦ sweep_placed now reg d r ]

-- `toPlace`: after the first loop these are the deployments with no replica.
abbrev pub if_unplaced : Deployment → Option Deployment
if_unplaced d = elim d.replica [ none ↦ some d | some _ ↦ none ]

unfoldable pub to_place : List Deployment → List Deployment
unfolding collect
to_place = collect if_unplaced

-- The second loop.
unfoldable pub place_all : Env → Registry → List Deployment → Manager → Manager × List Sent
place_all env reg [] m = (m, [])
place_all env reg (d ∷ ds) m = elim (required_runner d.spec) [
  | none ↦ place_all env reg ds m
  | some kind ↦
      let (m', _, sent) = place env reg m d kind in
      let (m'', more) = place_all env reg ds m' in (m'', sent ++ more)
]

unfoldable pub reconcile : Env → Registry → Manager → Manager × List Sent
unfolding sweep to_place place_all
reconcile env reg m =
    let swept = map_values (sweep env.now reg) m.deploy in
    place_all env reg (to_place (values swept)) (record m { deploy = swept })
