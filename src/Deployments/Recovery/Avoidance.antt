-- ===== src/Deployments/Recovery/Avoidance.antt =====
-- `Reconcile` and `OnHeartbeat` of coordinator/internal/deployments/deployments.go after a replica
-- has failed: the bans that they put on record.
use mathlib.Core.List.{Memᴰ}
use gridlink.Prelude.{
  String, ◌+◌, ◌<◌, ◌≤◌, ◌≡◌, ◌≢◌, inl, inr, refl, sym, ap, ◌∙◌, List, [], ◌∷◌, none, some, arith,
  eq_iff, Time, Option-cases, String-cases, some_inj,
}
use gridlink.GoMap.{get, values, map_values}
use gridlink.GoMap.Laws.{get-map_values, get-put_self}
use gridlink.Proto.{RunnerKind, NodeStatus, DeploymentState, get_runners, get_usable_vram_mb}
use gridlink.Wire.{Env}
use gridlink.Registry.{Node, Registry, get_node}
use gridlink.Deployments.State.{
  Deployment, Manager, Replica, required_runner, set_replica, lost_after, avoid_after_failure,
}
use gridlink.Deployments.Selection.Eligibility.{IsEligible, select_node_sound}
use gridlink.Deployments.Actions.{place, placement, on_heartbeat}
use gridlink.Deployments.Reconciler.{sweep, to_place, place_all, reconcile}
use gridlink.Deployments.Exclusive.{IsValid, node_of, get-assign, IsFree-of_node_at}
use gridlink.Deployments.Exclusive.Methods.{swept-IsValid, on_heartbeat-IsValid}
use gridlink.Deployments.Placing.{place-cases, get-place_other}
use gridlink.Deployments.Orphans.Vanished.{IsVanished, on_heartbeat_table, node_at-on_heartbeat}
use gridlink.Deployments.Recovery.{IsPending, place-IsPending, to_place-IsPending}

-- The deployment is not on the node, and is banned from it until `until`.
pub record IsBanned (m : Manager) (k node : String) (until : Time) : Type 0 where
  pub d : Deployment
  pub stored : get k m.deploy ≡ some d
  pub away : node_of (some d) ≢ some node
  pub banned : get node d.avoid ≡ some until

place-IsBanned :
    (env : Env) (reg : Registry) (m : Manager) (d : Deployment) (kind : RunnerKind)
    (k node : String) (until : Time)
    → get d.id m.deploy ≡ some d
    → env.now < until
    → IsBanned m k node until
    → IsBanned (place env reg m d kind).0 k node until
place-IsBanned env reg m d kind k node until stored early b = elim (String-cases d.id k) [
  | inr (p, _) ↦ record {
    d = b.d;
    stored = get-place_other env reg m d kind k p ∙ b.stored;
    away = b.away;
    banned = b.banned;
  }
  | inl (p, _) ↦ elim (place-cases env reg m d kind) [
    | inl e ↦ rw e b
    | inr (n, q, e) ↦
        let same : b.d ≡ d = some_inj (sym b.stored ∙ ap (λ i. get i m.deploy) (sym p) ∙ stored) in
        let ban : get node d.avoid ≡ some until =
          ap (λ (x : Deployment). get node x.avoid) (sym same) ∙ b.banned in
        rw e (record {
          d = record d { replica = some (placement env.now d n) };
          stored =
              get-assign d.id k (set_replica (some (placement env.now d n))) m
              ∙ ground (arith, eq_iff d.id k, ap (λ i. get i m.deploy) p, stored);
          away = λ at.
              let here : n.id ≡ node = unfold placement in some_inj at in
              absurd (
                not_yet (
                  (select_node_sound env.now reg m d kind n q).1.allowed until
                    (ap (λ i. get i d.avoid) here ∙ ban)));
          banned = ban;
        })
  ]
]
  where
    not_yet : until ≤ env.now → ⊥
    not_yet h = omega arith

place_all-IsBanned :
    (env : Env) (reg : Registry) (ds : List Deployment) (m : Manager) (k node : String)
    (until : Time)
    → env.now < until
    → IsPending m ds
    → IsBanned m k node until
    → IsBanned (place_all env reg ds m).0 k node until
unfolding place_all
place_all-IsBanned env reg [] m k node until early p b = b
place_all-IsBanned env reg (d ∷ ds) m k node until early ((stored, bare), nx, p) b =
    elim (Option-cases (required_runner d.spec)) [
      | inl e ↦ rw (e, place_all) (place_all-IsBanned env reg ds m k node until early p b)
      | inr (kind, e) ↦
          rw (e, place_all)
            (place_all-IsBanned env reg ds (place env reg m d kind).0 k node until early
              (place-IsPending env reg m d kind ds nx p)
              (place-IsBanned env reg m d kind k node until stored early b))
    ]

sweep_failed :
    (now : Time) (reg : Registry) (d : Deployment) (r : Replica) (n : Node)
    → d.replica ≡ some r
    → r.state ≡ DeploymentState.failed
    → r.last_update + lost_after < now
    → get_node reg r.node_id ≡ some n
    → n.status ≡ NodeStatus.online
    → (d' : Deployment) × (sweep now reg d ≡ d')
      × (d'.replica ≡ none)
      × (get r.node_id d'.avoid ≡ some (now + avoid_after_failure))
unfolding sweep
sweep_failed now reg d r n e f s known on = (
  sweep now reg d,
  refl,
  ground arith,
  ground (arith, get-put_self r.node_id (now + avoid_after_failure) d.avoid),
)

-- A replica that has been FAILED for more than a minute on a node that is ONLINE is taken off it by
-- the next pass of the reconciler, which does not put the deployment back on that node, and puts a
-- ban on record until ten minutes from now.
pub reconcile_avoids :
    (env : Env) (reg : Registry) (m : Manager) (k : String) (d : Deployment) (r : Replica)
    (n : Node)
    → IsValid m
    → get k m.deploy ≡ some d
    → d.replica ≡ some r
    → r.state ≡ DeploymentState.failed
    → r.last_update + lost_after < env.now
    → get_node reg r.node_id ≡ some n
    → n.status ≡ NodeStatus.online
    → IsBanned (reconcile env reg m).0 k r.node_id (env.now + avoid_after_failure)
unfolding reconcile
reconcile_avoids env reg m k d r n v e q f s known on =
    let swept : Manager = record m { deploy = map_values (sweep env.now reg) m.deploy } in
    let (d', p, bare, ban) = sweep_failed env.now reg d r n q f s known on in
    place_all-IsBanned env reg (to_place (values swept.deploy)) swept k r.node_id
      (env.now + avoid_after_failure) (omega arith)
      (to_place-IsPending swept (swept-IsValid env.now reg m v))
      (record {
        d = d';
        stored = get-map_values (sweep env.now reg) k m.deploy ∙ ground (arith, e, p);
        away = ground arith;
        banned = ban;
      })

-- A FAILED replica that was placed more than a minute ago and that its node no longer lists is taken
-- off by the node's heartbeat with no ban put on record: if the node qualifies otherwise and was not
-- banned before, it is at once eligible again for the deployment that has just failed on it.
pub heartbeat_forgets_failure :
    (env : Env) (reg : Registry) (m : Manager) (active : List String) (k : String) (d : Deployment)
    (r : Replica) (n : Node) (kind : RunnerKind)
    → IsValid m
    → get k m.deploy ≡ some d
    → r.state ≡ DeploymentState.failed
    → IsVanished env.now n.id active d r
    → get n.id d.avoid ≡ none
    → n.status ≡ NodeStatus.online
    → n.send ≢ none
    → Memᴰ kind (get_runners n.system)
    → 0 < get_usable_vram_mb n.gpu
    → d.spec.min_vram_mb ≤ get_usable_vram_mb n.gpu
    → let m' = (on_heartbeat env reg m n.id active).0 in
      let d' = record d { replica = none } in
      (get k m'.deploy ≡ some d') × IsEligible env.now m' d' kind n
heartbeat_forgets_failure env reg m active k d r n kind v e f w clear on live runs some_vram fits =
    (
      (on_heartbeat_table env reg m n.id active v k d e).0 r w,
      record {
        online = on;
        connected = live;
        allowed = λ until b. absurd (ground arith);
        runs = runs;
        free =
            IsFree-of_node_at (on_heartbeat env reg m n.id active).0 n.id d.id
              (on_heartbeat-IsValid env reg m n.id active v)
              (λ j ne at. ne (
                v.exclusive j k n.id (node_at-on_heartbeat env reg m n.id active j n.id at)
                  (ap node_of e ∙ ground (arith, w.placed, w.here))
                ∙ sym (v.keyed k d e)));
        measured = some_vram;
        fits = fits;
      },
    )
