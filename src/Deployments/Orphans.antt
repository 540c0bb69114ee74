-- ===== src/Deployments/Orphans.antt =====
-- `OnUpdate` and `OnHeartbeat`: what a node reports against what it should run.
pub mod Vanished
pub mod Stops
use mathlib.Core.List.{Memᴰ}
use mathlib.Core.Path.{subst}
use gridlink.Prelude.{
  String, Bool, true, false, ◌≡◌, ◌≢◌, ◌⊎◌, ◌↔◌, inl, inr, refl, sym, ap, ◌∙◌, List, [], ◌∷◌, ◌++◌,
  Option, none, some, arith, eq_iff, contains, str_eq, Bool-cases, Option-cases, String-cases,
  mem-cons_split, mem_of_contains, contains_of_mem, some_inj,
}
use gridlink.GoMap.{get, values}
use gridlink.GoMap.Laws.{mem_of_get, get_of_mem}
use gridlink.Proto.{DeploymentUpdate, CoordinatorMessage}
use gridlink.Wire.{Env, Stream, Sent, deliver}
use gridlink.Registry.{Node, Registry, get_node}
use gridlink.Deployments.State.{Deployment, Manager, Replica, assign, set_replica}
use gridlink.Deployments.Actions.{
  send_stop, placed_on, on_update, apply_update, is_on, wanted_on, stop_orphans, on_heartbeat,
}
use gridlink.Deployments.Exclusive.{IsValid, get-assign}

-- The table has the deployment on that node.
abbrev pub IsWanted : Manager → String → String → Type 0
IsWanted m node id =
    (d : Deployment) × (r : Replica) × (get id m.deploy ≡ some d)
    × (d.replica ≡ some r)
    × (r.node_id ≡ node)

-- The node can be told to stop the deployment.
abbrev pub stop_sent : Stream → String → Sent
stop_sent s id = record { stream = s; message = CoordinatorMessage.stop_deployment id }

placed_on-none :
    (m : Manager) (node id : String)
    → ¬ IsWanted m node id
    → placed_on node (get id m.deploy) ≡ none
unfolding placed_on
placed_on-none m node id h = elim (Option-cases (placed_on node (get id m.deploy))) [
  | inl e ↦ e
  | inr ((d, r), e) ↦ absurd (
      h (
        d,
        r,
        ground (arith, eq_iff r.node_id node),
        ground (arith, eq_iff r.node_id node),
        ground (arith, eq_iff r.node_id node),
      ))
]

send_stop_sent :
    (env : Env) (reg : Registry) (node id : String) (n : Node) (s : Stream)
    → get_node reg node ≡ some n
    → n.send ≡ some s
    → env.sends s (CoordinatorMessage.stop_deployment id) ≡ true
    → send_stop env reg node id ≡ stop_sent s id ∷ []
unfolding send_stop
send_stop_sent env reg node id n s e c t = rw (e, send_stop) (rw (c, send_stop) (rw t))

-- An update about a deployment that the table does not have on that node changes nothing in the
-- table, and if the node has a stream that takes the message, it is told to stop the deployment.
pub on_update_orphan :
    (env : Env) (reg : Registry) (m : Manager) (node : String) (upd : DeploymentUpdate)
    → ¬ IsWanted m node upd.deployment_id
    → ((on_update env reg m node upd).0 ≡ m)
      × ((n : Node) (s : Stream)
          → get_node reg node ≡ some n
          → n.send ≡ some s
          → env.sends s (CoordinatorMessage.stop_deployment upd.deployment_id) ≡ true
          → (on_update env reg m node upd).1 ≡ stop_sent s upd.deployment_id ∷ [])
unfolding on_update
on_update_orphan env reg m node upd h =
    let e = placed_on-none m node upd.deployment_id h in
    (
      rw (e, on_update),
      λ n s known live t.
          rw (e, on_update) (send_stop_sent env reg node upd.deployment_id n s known live t),
    )

-- An update about a deployment that the table has on that node puts the reported state, progress and
-- error on record, with the time, and the port if one is reported; the deployment stays where it
-- is, no other changes, and nothing is sent.
pub on_update_recorded :
    (env : Env) (reg : Registry) (m : Manager) (node : String) (upd : DeploymentUpdate)
    → IsWanted m node upd.deployment_id
    → ((d : Deployment) × (r r' : Replica) × (get upd.deployment_id m.deploy ≡ some d)
        × (d.replica ≡ some r)
        × (get upd.deployment_id (on_update env reg m node upd).0.deploy
            ≡ some (record d { replica = some r' }))
        × (r'.state ≡ upd.state)
        × (r'.progress ≡ upd.progress_percent)
        × (r'.err_text ≡ upd.error)
        × (r'.last_update ≡ env.now)
        × (r'.node_id ≡ node)
        × (r'.placed_at ≡ r.placed_at)
        × (upd.host_port ≡ 0 → r'.host_port ≡ r.host_port)
        × (upd.host_port ≢ 0 → r'.host_port ≡ upd.host_port))
      × ((k : String)
          → k ≢ upd.deployment_id
          → get k (on_update env reg m node upd).0.deploy ≡ get k m.deploy)
      × ((on_update env reg m node upd).1 ≡ [])
unfolding on_update
on_update_recorded env reg m node upd (d, r, e, q, p) =
    let id = upd.deployment_id in
    let r' = apply_update env.now upd r in
    let f = set_replica (some r') in
    let found : placed_on node (get id m.deploy) ≡ some (d, r) =
      unfold placed_on in ground (arith, eq_iff r.node_id node) in
    (
      (
        d,
        r,
        r',
        e,
        q,
        rw (found, on_update) (get-assign id id f m ∙ ground (arith, eq_iff id id)),
        refl,
        refl,
        refl,
        refl,
        p,
        refl,
        λ z. ground arith,
        λ z. ground arith,
      ),
      λ k h. rw (found, on_update) (get-assign id k f m ∙ ground (arith, eq_iff id k)),
      rw (found, on_update),
    )

wanted_on_sound :
    (node id : String) (ds : List Deployment)
    → Memᴰ id (wanted_on node ds)
    → (d : Deployment) × Memᴰ d ds × (is_on node d ≡ true) × (d.id ≡ id)
unfolding wanted_on
wanted_on_sound node id [] h = elim h [ ]
wanted_on_sound node id (d ∷ ds) h = elim (Bool-cases (is_on node d)) [
  | inr e ↦
      let (x, at, on, p) = wanted_on_sound node id ds (rw (e, wanted_on) at h) in
      (x, Memᴰ.tail at, on, p)
  | inl e ↦ elim (mem-cons_split (rw (e, wanted_on) at h)) [
    | inl p ↦ (d, Memᴰ.head refl, e, sym p)
    | inr m ↦ let (x, at, on, p) = wanted_on_sound node id ds m in (x, Memᴰ.tail at, on, p)
  ]
]

wanted_on_complete :
    (node : String) (d : Deployment) (ds : List Deployment)
    → Memᴰ d ds
    → is_on node d ≡ true
    → Memᴰ d.id (wanted_on node ds)
unfolding wanted_on
wanted_on_complete node d [] h e = elim h [ ]
wanted_on_complete node d (x ∷ ds) (Memᴰ.head p) e =
    rw p (rw (ap (is_on node) (sym p) ∙ e, wanted_on) (Memᴰ.head refl))
wanted_on_complete node d (x ∷ ds) (Memᴰ.tail h) e = elim (Bool-cases (is_on node x)) [
  | inl q ↦ rw (q, wanted_on) (Memᴰ.tail (wanted_on_complete node d ds h e))
  | inr q ↦ rw (q, wanted_on) (wanted_on_complete node d ds h e)
]

-- The set that the heartbeat collects is that of the wanted deployments.
IsWanted-exact :
    (m : Manager) (node id : String)
    → IsValid m
    → (contains id (wanted_on node (values m.deploy)) ≡ true) ↔ IsWanted m node id
unfolding is_on
IsWanted-exact m node id v = (
  λ h.
      let (d, at, on, p) = wanted_on_sound node id (values m.deploy) (mem_of_contains id _ h) in
      let (k, e) = get_of_mem d m.deploy v.distinct at in
      elim (Option-cases d.replica) [
        | inl q ↦ absurd (ground arith)
        | inr (r, q) ↦
            (d, r, rw (← (sym (v.keyed k d e) ∙ p)) e, q, ground (arith, eq_iff r.node_id node))
      ],
  λ (d, r, e, q, p). contains_of_mem id _ (
      subst (λ i. Memᴰ i (wanted_on node (values m.deploy))) (v.keyed id d e)
        (wanted_on_complete node d (values m.deploy) (mem_of_get id d m.deploy e)
          (ground (arith, eq_iff r.node_id node)))),
)
