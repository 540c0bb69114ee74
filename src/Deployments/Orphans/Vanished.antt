-- ===== src/Deployments/Orphans/Vanished.antt =====
-- Which deployments `OnHeartbeat` takes off their node.
use mathlib.Core.List.{Memᴰ}
use mathlib.Core.Option
use mathlib.Core.Path.{subst}
use gridlink.Prelude.{
  String, Bool, true, false, ◌+◌, ◌<◌, ◌≡◌, inl, inr, refl, sym, ap, ◌∙◌, List, [], ◌∷◌, none, some,
  arith, eq_iff, contains, Time, some_inj, Bool-cases, Option-cases, String-cases, mem_of_contains,
  contains_of_mem, if◌then◌else◌, map,
}
use gridlink.GoMap.{get, values}
use gridlink.GoMap.Laws.{mem_of_get, get_of_mem}
use gridlink.Wire.{Env}
use gridlink.Registry.{Registry}
use gridlink.Deployments.State.{Deployment, Manager, Replica, assign, set_replica, lost_after}
use gridlink.Deployments.Actions.{is_missing, missing_on, unplace_all, on_heartbeat}
use gridlink.Deployments.Exclusive.{IsValid, get-assign, node_at}

abbrev ids : List Deployment → List String
ids = map λ d. d.id

get-unplace_all :
    (k : String) (ds : List Deployment) (m : Manager)
    → get k (unplace_all ds m).deploy ≡ (
        if contains k (ids ds)
        then Option.map (set_replica none) (get k m.deploy)
        else get k m.deploy)
unfolding unplace_all contains
get-unplace_all k [] m = refl
get-unplace_all k (d ∷ ds) m = ground (
  arith,
  get-unplace_all k ds (assign d.id (set_replica none) m),
  get-assign d.id k (set_replica none) m,
)

missing_on_sound :
    (now : Time) (node : String) (active : List String) (k : String) (ds : List Deployment)
    → contains k (ids (missing_on now node active ds)) ≡ true
    → (d : Deployment) × Memᴰ d ds × (is_missing now node active d ≡ true) × (d.id ≡ k)
unfolding missing_on contains
missing_on_sound now node active k [] h = absurd (cc)
missing_on_sound now node active k (d ∷ ds) h = elim (Bool-cases (is_missing now node active d)) [
  | inr e ↦
      let (x, at, q, p) = missing_on_sound now node active k ds (rw (e, missing_on) at h) in
      (x, Memᴰ.tail at, q, p)
  | inl e ↦ elim (String-cases d.id k) [
    | inl (p, t) ↦ (d, Memᴰ.head refl, e, p)
    | inr (p, t) ↦
        let (x, at, q, p') = missing_on_sound now node active k ds (ground arith) in
        (x, Memᴰ.tail at, q, p')
  ]
]

missing_on_complete :
    (now : Time) (node : String) (active : List String) (d : Deployment) (ds : List Deployment)
    → Memᴰ d ds
    → is_missing now node active d ≡ true
    → contains d.id (ids (missing_on now node active ds)) ≡ true
unfolding missing_on contains
missing_on_complete now node active d [] h e = elim h [ ]
missing_on_complete now node active d (x ∷ ds) (Memᴰ.head p) e =
    ground
      (arith, ap (is_missing now node active) p, ap (λ (y : Deployment). y.id) p, eq_iff x.id d.id)
missing_on_complete now node active d (x ∷ ds) (Memᴰ.tail h) e =
    ground (arith, missing_on_complete now node active d ds h e)

-- The node had more than a minute to report the deployment, and does not.
pub record IsVanished (now : Time) (node : String) (active : List String) (d : Deployment)
    (r : Replica) : Type 0 where
  pub placed : d.replica ≡ some r
  pub here : r.node_id ≡ node
  pub absent : ¬ Memᴰ d.id active
  pub due : r.placed_at + lost_after < now

IsVanished-of_missing :
    (now : Time) (node : String) (active : List String) (d : Deployment)
    → is_missing now node active d ≡ true
    → (r : Replica) × IsVanished now node active d r
unfolding is_missing
IsVanished-of_missing now node active d h = elim (Option-cases d.replica) [
  | inl e ↦ absurd (ground arith)
  | inr (r, e) ↦ (
    r,
    record {
      placed = e;
      here = ground (arith, eq_iff r.node_id node);
      absent = λ at. ground (arith, contains_of_mem d.id active at);
      due = ground arith;
    },
  )
]

missing_of_IsVanished :
    (now : Time) (node : String) (active : List String) (d : Deployment) (r : Replica)
    → IsVanished now node active d r
    → is_missing now node active d ≡ true
unfolding is_missing
missing_of_IsVanished now node active d r v = elim (Bool-cases (contains d.id active)) [
  | inl e ↦ absurd (v.absent (mem_of_contains d.id active e))
  | inr e ↦ ground (arith, v.placed, v.here, v.due, eq_iff r.node_id node)
]

module _ (env : Env) (reg : Registry) (m : Manager) (node : String) (active : List String)
    (v : IsValid m) (k : String) (d : Deployment) (e : get k m.deploy ≡ some d) where
  gathered :
      (b : Bool)
      → is_missing env.now node active d ≡ b
      → contains k (ids (missing_on env.now node active (values m.deploy))) ≡ b
  gathered true q =
      subst (λ i. contains i (ids (missing_on env.now node active (values m.deploy))) ≡ true)
        (v.keyed k d e)
        (missing_on_complete env.now node active d (values m.deploy) (mem_of_get k d m.deploy e) q)
  gathered false q =
      elim (Bool-cases (contains k (ids (missing_on env.now node active (values m.deploy))))) [
        | inr f ↦ f
        | inl t ↦
            let (x, at, q', p) = missing_on_sound env.now node active k (values m.deploy) t in
            let (j, e') = get_of_mem x m.deploy v.distinct at in
            let same : get k m.deploy ≡ some x =
              ap (λ i. get i m.deploy) (sym p ∙ v.keyed j x e') ∙ e' in
            absurd (clash x q' (some_inj (sym e ∙ same)))
      ]
    where
      clash : (x : Deployment) → is_missing env.now node active x ≡ true → d ≡ x → ⊥
      clash x t p = cc (ap (is_missing env.now node active) p)

  -- A heartbeat takes a deployment off its node exactly if the deployment is placed on the node that
  -- sent it, is not listed, and was placed more than a minute ago. Every other deployment is
  -- untouched.
  pub on_heartbeat_table :
      ((r : Replica)
        → IsVanished env.now node active d r
        → get k (on_heartbeat env reg m node active).0.deploy ≡ some (record d { replica = none }))
      × (((r : Replica) → ¬ IsVanished env.now node active d r)
          → get k (on_heartbeat env reg m node active).0.deploy ≡ some d)
  unfolding on_heartbeat
  on_heartbeat_table =
      let at = get-unplace_all k (missing_on env.now node active (values m.deploy)) m in
      (
        λ r w. at ∙ ground (arith, gathered true (missing_of_IsVanished env.now node active d r w)),
        λ n. elim (Bool-cases (is_missing env.now node active d)) [
          | inl t ↦ let (r, w) = IsVanished-of_missing env.now node active d t in absurd (n r w)
          | inr f ↦ at ∙ ground (arith, gathered false f)
        ],
      )

-- A heartbeat puts no deployment on a node.
pub node_at-on_heartbeat :
    (env : Env) (reg : Registry) (m : Manager) (node : String) (active : List String) (k n : String)
    → node_at (on_heartbeat env reg m node active).0 k ≡ some n
    → node_at m k ≡ some n
unfolding on_heartbeat
node_at-on_heartbeat env reg m node active k n h =
    ground (arith, get-unplace_all k (missing_on env.now node active (values m.deploy)) m)
